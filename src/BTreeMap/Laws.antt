-- ===== src/BTreeMap/Laws.antt =====
-- What an insertion changes of a range and of the first entry.
use rbatis_cache.Common.{
  ℕ, ◌≤◌, ◌<◌, ◌≡◌, refl, subst, inl, inr, ◌⊎◌, none, some, List, [], ◌∷◌, All, All-map, ltb, leb,
  ◌==◌, arith, Bool-cases,
}
use rbatis_cache.BTreeMap.{get, insert, first_from, first_key_value}

-- The keys ascend.
abbrev pub IsAscending {ℓ} : {V : Type ℓ} → List (ℕ × V) → Type 0
IsAscending [] = Unit
IsAscending ((j, w) ∷ m) = All (λ entry. j < entry.0) m × IsAscending m

module _ {ℓ} {V : Type ℓ} where
  -- The first entry of a range is of the range, and no entry of the range comes before it.
  pub first_from-least :
      (k j : ℕ) (v : V) (m : List (ℕ × V))
      → IsAscending m
      → first_from k m ≡ some (j, v)
      → (k ≤ j) × All (λ entry. k ≤ entry.0 → j ≤ entry.0) m
  first_from-least k j v [] asc h = absurd cc
  first_from-least k j v ((i, w) ∷ m) asc h = elim (Bool-cases (leb k i)) [
    | inl in_range ↦
        let same : i ≡ j = ground arith in
        (
          ground arith,
          (
            λ _. omega arith,
            All-map {Q = λ entry. k ≤ entry.0 → j ≤ entry.0} (λ entry lt _. omega arith) m asc.0,
          ),
        )
    | inr out ↦
        let (le, least) = first_from-least k j v m asc.1 (ground arith) in
        (le, (λ le'. absurd (ground arith), least))
  ]

  pub get-first_from :
      (k j : ℕ) (v : V) (m : List (ℕ × V))
      → IsAscending m
      → first_from k m ≡ some (j, v)
      → get j m ≡ some v
  get-first_from k j v [] asc h = absurd cc
  get-first_from k j v ((i, w) ∷ m) asc h = elim (Bool-cases (leb k i)) [
    | inl in_range ↦ ground arith
    | inr out ↦
        let later : first_from k m ≡ some (j, v) = ground arith in
        ground (arith, get-first_from k j v m asc.1 later, (first_from-least k j v m asc.1 later).0)
  ]

  pub first_from-All {κ} :
      (P : ℕ × V → Type κ) (k : ℕ) (entry : ℕ × V) (m : List (ℕ × V))
      → All P m
      → first_from k m ≡ some entry
      → P entry
  first_from-All P k entry [] h there = absurd cc
  first_from-All P k entry ((i, w) ∷ m) h there = elim (Bool-cases (leb k i)) [
    | inl in_range ↦ let same : (i, w) ≡ entry = ground arith in subst P same h.0
    | inr out ↦ first_from-All P k entry m h.1 (ground arith)
  ]

  -- Where a range is empty, every key is below its start.
  pub first_from-none :
      (k : ℕ) (m : List (ℕ × V)) → first_from k m ≡ none → All (λ entry. entry.0 < k) m
  first_from-none k [] h = tt
  first_from-none k ((i, w) ∷ m) h = elim (Bool-cases (leb k i)) [
    | inl in_range ↦ absurd (ground arith)
    | inr out ↦ (ground arith, first_from-none k m (ground arith))
  ]

  pub first_key_value-least :
      (j : ℕ) (v : V) (m : List (ℕ × V))
      → IsAscending m
      → first_key_value m ≡ some (j, v)
      → All (λ entry. j ≤ entry.0) m
  first_key_value-least j v [] asc h = absurd cc
  first_key_value-least j v ((i, w) ∷ m) asc h =
      let same : i ≡ j = ground arith in
      (omega arith, All-map (λ entry (lt : i < entry.0). omega arith) m asc.0)

  pub All-insert {κ} :
      (P : ℕ × V → Type κ) (k : ℕ) (v : V) (m : List (ℕ × V))
      → P (k, v)
      → All P m
      → All P (insert k v m)
  All-insert P k v [] p h = (p, h)
  All-insert P k v ((i, w) ∷ m) p h = elim (Bool-cases (k == i)) [
    | inl same ↦ rw same (p, h.1)
    | inr ne ↦ elim (Bool-cases (ltb k i)) [
      | inl less ↦ rw (ne, less) (p, h)
      | inr more ↦ rw (ne, more) (h.0, All-insert P k v m p h.1)
    ]
  ]

  pub insert-IsAscending :
      (k : ℕ) (v : V) (m : List (ℕ × V)) → IsAscending m → IsAscending (insert k v m)
  insert-IsAscending k v [] asc = (tt, tt)
  insert-IsAscending k v ((i, w) ∷ m) asc = elim (Bool-cases (k == i)) [
    | inl same ↦
        let eq : k ≡ i = ground arith in
        rw same (All-map (λ entry (lt : i < entry.0). omega arith) m asc.0, asc.1)
    | inr ne ↦ elim (Bool-cases (ltb k i)) [
      | inl less ↦
          let lt : k < i = ground arith in
          rw (ne, less) ((lt, All-map (λ entry (lt' : i < entry.0). omega arith) m asc.0), asc)
      | inr more ↦
          let lt : i < k = ground arith in
          rw (ne, more)
            (All-insert (λ entry. i < entry.0) k v m lt asc.0, insert-IsAscending k v m asc.1)
    ]
  ]

  -- Where a range begins after an insertion: at the new entry or where it began.
  pub first_from-insert :
      (h k : ℕ) (v : V) (m : List (ℕ × V))
      → (first_from h (insert k v m) ≡ some (k, v)) ⊎ (first_from h (insert k v m) ≡ first_from h m)
  first_from-insert h k v [] = elim (Bool-cases (leb h k)) [
    | inl in_range ↦ inl (rw in_range refl)
    | inr out ↦ inr (rw out refl)
  ]
  first_from-insert h k v ((j, w) ∷ m) = ground (arith, first_from-insert h k v m)

  pub first_key_value-insert :
      (k : ℕ) (v : V) (m : List (ℕ × V))
      → (first_key_value (insert k v m) ≡ some (k, v))
        ⊎ (first_key_value (insert k v m) ≡ first_key_value m)
  first_key_value-insert k v [] = inl refl
  first_key_value-insert k v ((j, w) ∷ m) = ground arith
