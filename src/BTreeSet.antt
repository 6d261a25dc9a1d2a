-- ===== src/BTreeSet.antt =====
-- std's BTreeSet<String>: a list of texts, strictly ascending in the order of their bytes.
pub mod Laws
use rbatis_cache.Common.{
  ℕ, Bool, true, false, ◌&&◌, ◌||◌, List, [], ◌∷◌, Text, ltb, ◌==◌, text_same, if◌then◌else◌,
}

abbrev pub text_less : Text → Text → Bool
text_less [] [] = false
text_less [] (b ∷ bs) = true
text_less (a ∷ cs) [] = false
text_less (a ∷ cs) (b ∷ bs) = ltb a b || (a == b && text_less cs bs)

unfoldable pub insert : Text → List Text → List Text
insert t [] = t ∷ []
insert t (u ∷ set) =
    if text_same t u then u ∷ set else if text_less t u then t ∷ u ∷ set else u ∷ insert t set

unfoldable pub contains : Text → List Text → Bool
contains t [] = false
contains t (u ∷ set) = text_same t u || contains t set
