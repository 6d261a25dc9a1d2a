-- ===== src/Local/Victims.antt =====
-- The victim of each strategy is the entry that its documentation names.
use mathlib.Core.Option
use mathlib.Core.Path.{subst}
use rbatis_cache.Common.{
  ℕ, ◌≤◌, ◌<◌, ◌≡◌, refl, ◌⊎◌, inl, inr, Bool, false, none, some, [], ◌∷◌, Text, text_key, ltb,
  ltb-false→le, arith, Option-cases,
}
use rbatis_cache.DashMap
use rbatis_cache.DashMap.{
  IsDistinct, Ranking, min_by_key-get, min_by_key-least, get-update_all, update_all-IsDistinct,
}
use rbatis_cache.Local.Types.{Entry, Entries}
use rbatis_cache.Local.Fifo
use rbatis_cache.Local.Lfu
use rbatis_cache.Local.Lru

ltb-Ranking : Ranking ltb
ltb-Ranking = record { asym = λ a b h. ground arith; trans = λ a b c h k. ground arith }

pair-Ranking : Ranking Lfu.pair_less
pair-Ranking = record { asym = λ a b h. ground arith; trans = λ a b c h k. ground arith }

-- The entry under `k` is there, and ranks at most as high as any other.
abbrev pub IsLeast : (Entry → Entry → Type 0) → Text → Entries → Type 0
IsLeast below k m =
    (e : Entry) × (DashMap.get k m ≡ some e)
    × ((j : Text) (e' : Entry) → DashMap.get j m ≡ some e' → below e e')

abbrev key_of : Text × Entry → Text
key_of x = x.0

selected {ι} :
    {R : Type ι} (less : R → R → Bool) (rank : Entry → R) (k : Text) (m : Entries)
    → Ranking less
    → IsDistinct m
    → Option.map key_of (DashMap.min_by_key less rank m) ≡ some k
    → IsLeast (λ e e'. less (rank e') (rank e) ≡ false) k m
selected less rank k m o d h = elim (Option-cases (DashMap.min_by_key less rank m)) [
  | inl empty ↦ absurd (ground arith)
  | inr ((i, e), found) ↦
      let same : i ≡ k = ground arith in
      (
        e,
        rw (← same) (min_by_key-get less rank m d i e found),
        λ j e' there. min_by_key-least less o rank m i j e' e there found,
      )
]

pick_victim_fifo :
    (k : Text) (m : Entries)
    → IsDistinct m
    → Fifo.pick_victim m ≡ some k
    → IsLeast (λ e e'. e.insert_seq ≤ e'.insert_seq) k m
unfolding Fifo.pick_victim
pick_victim_fifo k m d h =
    let (e, there, least) = selected ltb (λ (e : Entry). e.insert_seq) k m ltb-Ranking d h in
    (e, there, λ j e' other. ltb-false→le _ _ (least j e' other))

pick_victim_lru :
    (k : Text) (m : Entries)
    → IsDistinct m
    → Lru.pick_victim m ≡ some k
    → IsLeast (λ e e'. e.last_access_seq ≤ e'.last_access_seq) k m
unfolding Lru.pick_victim
pick_victim_lru k m d h =
    let (e, there, least) = selected ltb (λ (e : Entry). e.last_access_seq) k m ltb-Ranking d h in
    (e, there, λ j e' other. ltb-false→le _ _ (least j e' other))

-- Of entries with distinct keys, FIFO evicts an entry that was written no later than any other, and
-- LRU one that was used no later than any other.
pub pick_victim-oldest :
    (k k' : Text) (m : Entries)
    → IsDistinct m
    → Fifo.pick_victim m ≡ some k
    → Lru.pick_victim m ≡ some k'
    → IsLeast (λ e e'. e.insert_seq ≤ e'.insert_seq) k m
      × IsLeast (λ e e'. e.last_access_seq ≤ e'.last_access_seq) k' m
pick_victim-oldest k k' m d h h' = (pick_victim_fifo k m d h, pick_victim_lru k' m d h')

min_access-none : (m : Entries) → Lfu.min_access m ≡ none → m ≡ []
unfolding Lfu.min_access
min_access-none [] h = refl
min_access-none ((i, x) ∷ m) h = absurd (ground arith)

min_access-le :
    (m : Entries) (n : ℕ) (j : Text) (e : Entry)
    → Lfu.min_access m ≡ some n
    → DashMap.get j m ≡ some e
    → n ≤ e.accesses
unfolding Lfu.min_access DashMap.get
min_access-le [] n j e h there = cc
min_access-le ((i, x) ∷ []) n j e h there = ground arith
min_access-le ((i, x) ∷ y ∷ m) n j e h there = elim (Option-cases (Lfu.min_access (y ∷ m))) [
  | inl empty ↦ absurd (ground arith)
  | inr (n', rest) ↦ ground (arith, min_access-le (y ∷ m) n' j e)
]

-- Used less often, or as often and written no later.
abbrev pub UsedLess : Entry → Entry → Type 0
UsedLess e e' =
    (e.accesses < e'.accesses) ⊎ (e.accesses ≡ e'.accesses) × (e.insert_seq ≤ e'.insert_seq)

not_less : (e e' : Entry) → Lfu.pair_less (Lfu.use_rank e') (Lfu.use_rank e) ≡ false → UsedLess e e'
not_less e e' h = ground arith

discount_less :
    (n : ℕ) (e e' : Entry)
    → n ≤ e.accesses
    → n ≤ e'.accesses
    → UsedLess (Lfu.discount n e) (Lfu.discount n e')
    → UsedLess e e'
unfolding Lfu.discount
discount_less n e e' h h' (inl l) = inl (omega arith)
discount_less n e e' h h' (inr l) = inr (omega arith, l.1)

fewest_uses_fair :
    (k : Text) (m : Entries) (n : ℕ)
    → Lfu.min_access m ≡ some n
    → IsLeast UsedLess k (DashMap.update_all (Lfu.discount n) m)
    → IsLeast UsedLess k m
fewest_uses_fair k m n h (e, there, least) = elim (Option-cases (DashMap.get k m)) [
  | inl gone ↦ absurd (ground (arith, get-update_all k (Lfu.discount n) m))
  | inr (e0, found) ↦ (
    e0,
    found,
    λ j e' other.
        let same : e ≡ Lfu.discount n e0 = ground (arith, get-update_all k (Lfu.discount n) m) in
        discount_less n e0 e' (min_access-le m n k e0 h found) (min_access-le m n j e' h other) (
          rw same at least j (Lfu.discount n e')
            (ground (arith, get-update_all j (Lfu.discount n) m))),
  )
]

fewest_uses :
    (k : Text) (m : Entries)
    → IsDistinct m
    → Option.map key_of (DashMap.min_by_key Lfu.pair_less Lfu.use_rank m) ≡ some k
    → IsLeast UsedLess k m
fewest_uses k m d h =
    let (e, there, least) = selected Lfu.pair_less Lfu.use_rank k m pair-Ranking d h in
    (e, there, λ j e' other. not_less e e' (least j e' other))

-- Of entries with distinct keys, LFU evicts an entry that was used least, and of those one that
-- was written first, by the counters before it lowered them.
pub pick_victim_lfu :
    (k : Text) (m : Entries) → IsDistinct m → (Lfu.pick_victim m).0 ≡ some k → IsLeast UsedLess k m
unfolding Lfu.pick_victim
pick_victim_lfu k m d h = elim (Option-cases (Lfu.min_access m)) [
  | inl empty ↦ fewest_uses k m d (
      subst (λ t. Option.map key_of (DashMap.min_by_key Lfu.pair_less Lfu.use_rank t) ≡ some k)
        (fair_none m empty) h)
  | inr (n, found) ↦ fewest_uses_fair k m n found (
      fewest_uses k _ (update_all-IsDistinct (Lfu.discount n) m d) (
        subst (λ t. Option.map key_of (DashMap.min_by_key Lfu.pair_less Lfu.use_rank t) ≡ some k)
          (fair_some m n found) h))
]
  where
    fair_none : (m : Entries) → Lfu.min_access m ≡ none → Lfu.fair m ≡ m
    fair_none m e = rw (e, Lfu.fair)

    fair_some :
        (m : Entries) (n : ℕ)
        → Lfu.min_access m ≡ some n
        → Lfu.fair m ≡ DashMap.update_all (Lfu.discount n) m
    fair_some m n e = rw (e, Lfu.fair)
