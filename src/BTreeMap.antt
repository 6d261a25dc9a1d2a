-- ===== src/BTreeMap.antt =====
-- std's BTreeMap<u64, V>: entries in the order of their keys.
pub mod Laws
use rbatis_cache.Common.{ℕ, ◌≡◌, Option, none, some, List, [], ◌∷◌, ltb, leb, ◌==◌, if◌then◌else◌}

module _ {ℓ} {V : Type ℓ} where
  abbrev pub insert : ℕ → V → List (ℕ × V) → List (ℕ × V)
  insert k v [] = (k, v) ∷ []
  insert k v ((j, w) ∷ m) =
      let rest = insert k v m in
      if k == j then (k, v) ∷ m else if ltb k j then (k, v) ∷ (j, w) ∷ m else (j, w) ∷ rest

  -- `range(k..).next()`
  abbrev pub first_from : ℕ → List (ℕ × V) → Option (ℕ × V)
  first_from k [] = none
  first_from k ((j, w) ∷ m) = if leb k j then some (j, w) else first_from k m

  abbrev pub first_key_value : List (ℕ × V) → Option (ℕ × V)
  first_key_value [] = none
  first_key_value (entry ∷ m) = some entry

  abbrev pub get : ℕ → List (ℕ × V) → Option V
  get k [] = none
  get k ((j, w) ∷ m) = if j == k then some w else get k m
