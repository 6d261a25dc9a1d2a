-- ===== src/DashMap/Defs.antt =====
-- The operations.
use rbatis_cache.Common.{◌≡◌, Bool, false, Option, none, some, List, [], ◌∷◌, Key, if◌then◌else◌}

module _ {ℓ κ} {K : Type ℓ} {V : Type κ} where
  module _ ⦃e : Key K⦄ where
    unfoldable pub get : K → List (K × V) → Option V
    get k [] = none
    get k ((j, v) ∷ m) = if e.same j k then some v else get k m

    unfoldable pub remove : K → List (K × V) → List (K × V)
    remove k [] = []
    remove k ((j, v) ∷ m) = let rest = remove k m in if e.same j k then rest else (j, v) ∷ rest

    unfoldable pub insert : K → V → List (K × V) → List (K × V)
    unfolding remove
    insert k v m = (k, v) ∷ remove k m

    abbrev pub IsMissing : K → List (K × V) → Type 0
    IsMissing k [] = Unit
    IsMissing k ((j, v) ∷ m) = (e.same j k ≡ false) × IsMissing k m

    -- `get_mut(k)` with an update of the value found
    unfoldable pub update : K → (V → V) → List (K × V) → List (K × V)
    update k f [] = []
    update k f ((j, v) ∷ m) = (j, if e.same j k then f v else v) ∷ update k f m

    -- Every key stands in one entry.
    abbrev pub IsDistinct : List (K × V) → Type 0
    IsDistinct [] = Unit
    IsDistinct ((j, v) ∷ m) = IsMissing j m × IsDistinct m

  unfoldable pub retain : (V → Bool) → List (K × V) → List (K × V)
  retain p [] = []
  retain p ((j, v) ∷ m) = let rest = retain p m in if p v then (j, v) ∷ rest else rest

  -- `iter_mut` with an update of every value
  unfoldable pub update_all : (V → V) → List (K × V) → List (K × V)
  update_all f [] = []
  update_all f ((j, v) ∷ m) = (j, f v) ∷ update_all f m

  -- The entry of least rank; of several, the first that the iteration meets.
  unfoldable pub min_by_key {ι} :
      {R : Type ι} → (R → R → Bool) → (V → R) → List (K × V) → Option (K × V)
  min_by_key less rank [] = none
  min_by_key less rank ((j, v) ∷ m) = elim (min_by_key less rank m) [
    | none ↦ some (j, v)
    | some (i, w) ↦ if less (rank w) (rank v) then some (i, w) else some (j, v)
  ]
