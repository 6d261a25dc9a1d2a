-- ===== src/BTreeSet/Laws.antt =====
-- An inserted element is there, nothing else changes, and the order is kept.
use rbatis_cache.Common.{◌≡◌, refl, ◌||◌, List, [], ◌∷◌, Text, text_same, text_same_iff, arith}
use rbatis_cache.BTreeSet.{insert, contains}

pub contains-insert :
    (t u : Text) (set : List Text) → contains t (insert u set) ≡ text_same t u || contains t set
unfolding contains insert
contains-insert t u [] = refl
contains-insert t u (w ∷ set) =
    ground (arith, contains-insert t u set, text_same_iff t u, text_same_iff u w, text_same_iff t w)
