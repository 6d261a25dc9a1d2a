-- ===== src/DashMap/Select.antt =====
-- `retain`, `iter_mut`, and the selection of an entry of least rank (`iter().min_by_key(..)`).
use mathlib.Core.Option
use rbatis_cache.Common.{
  ◌≤◌, ◌<◌, ◌≡◌, refl, inl, inr, Bool, true, false, Option, none, some, List, [], ◌∷◌, Key, arith,
  length, if◌then◌else◌, Bool-cases, Option-cases,
}
use rbatis_cache.DashMap.Defs.{get, retain, update_all, min_by_key, IsMissing, IsDistinct}
use rbatis_cache.DashMap.Laws.{same_self, get-eq-none_of_missing}

-- The value found, if it passes the test.
abbrev pub keep {ℓ} : {V : Type ℓ} → (V → Bool) → Option V → Option V
keep p none = none
keep p (some v) = if p v then some v else none

module _ {ℓ κ} {K : Type ℓ} {V : Type κ} where
  pub length-retain-le : (p : V → Bool) (m : List (K × V)) → length (retain p m) ≤ length m
  unfolding retain
  length-retain-le p [] = omega arith
  length-retain-le p ((j, v) ∷ m) = ground (arith, length-retain-le p m)

  pub length-update_all : (f : V → V) (m : List (K × V)) → length (update_all f m) ≡ length m
  unfolding update_all
  length-update_all f [] = refl
  length-update_all f ((j, v) ∷ m) = omega (arith, length-update_all f m)

module _ {ℓ κ} {K : Type ℓ} {V : Type κ} ⦃e : Key K⦄ where
  retain-IsMissing :
      (k : K) (p : V → Bool) (m : List (K × V)) → IsMissing k m → IsMissing k (retain p m)
  unfolding retain
  retain-IsMissing k p [] h = tt
  retain-IsMissing k p ((j, v) ∷ m) h = elim (Bool-cases (p v)) [
    | inl kept ↦ rw kept (h.0, retain-IsMissing k p m h.1)
    | inr gone ↦ rw gone (retain-IsMissing k p m h.1)
  ]

  pub retain-IsDistinct : (p : V → Bool) (m : List (K × V)) → IsDistinct m → IsDistinct (retain p m)
  unfolding retain
  retain-IsDistinct p [] h = tt
  retain-IsDistinct p ((j, v) ∷ m) h = elim (Bool-cases (p v)) [
    | inl kept ↦ rw kept (retain-IsMissing j p m h.0, retain-IsDistinct p m h.1)
    | inr gone ↦ rw gone (retain-IsDistinct p m h.1)
  ]

  get_of_missing_at :
      (j k : K) (m : List (K × V)) → e.same j k ≡ true → IsMissing j m → get k m ≡ none
  get_of_missing_at j k m s h = rw (← (e.same_iff j k).0 s) (get-eq-none_of_missing j m h)

  pub get-retain :
      (k : K) (p : V → Bool) (m : List (K × V))
      → IsDistinct m
      → get k (retain p m) ≡ keep p (get k m)
  unfolding get retain
  get-retain k p [] h = refl
  get-retain k p ((j, v) ∷ m) h =
      ground (arith, get-retain k p m h.1, λ (s : e.same j k ≡ true). get_of_missing_at j k m s h.0)

  pub get-update_all :
      (k : K) (f : V → V) (m : List (K × V)) → get k (update_all f m) ≡ Option.map f (get k m)
  unfolding get update_all
  get-update_all k f [] = refl
  get-update_all k f ((j, v) ∷ m) = ground (arith, get-update_all k f m)

  update_all-IsMissing :
      (k : K) (f : V → V) (m : List (K × V)) → IsMissing k m → IsMissing k (update_all f m)
  unfolding update_all
  update_all-IsMissing k f [] h = tt
  update_all-IsMissing k f ((j, v) ∷ m) h = (h.0, update_all-IsMissing k f m h.1)

  pub update_all-IsDistinct :
      (f : V → V) (m : List (K × V)) → IsDistinct m → IsDistinct (update_all f m)
  unfolding update_all
  update_all-IsDistinct f [] h = tt
  update_all-IsDistinct f ((j, v) ∷ m) h =
      (update_all-IsMissing j f m h.0, update_all-IsDistinct f m h.1)

  -- A map that is not empty has an entry of least rank, and that is an entry of the map.
  pub min_by_key-get {ι} :
      {R : Type ι} (less : R → R → Bool) (rank : V → R) (m : List (K × V))
      → IsDistinct m
      → (k : K) (v : V) → min_by_key less rank m ≡ some (k, v)
      → get k m ≡ some v
  unfolding get min_by_key
  min_by_key-get less rank [] d k v h = cc
  min_by_key-get less rank ((j, w) ∷ m) d k v h = ground (
    arith,
    same_self k,
    min_by_key-get less rank m d.1 k v,
    λ (s : e.same j k ≡ true). get_of_missing_at j k m s d.0,
  )

  pub min_by_key-some {ι} :
      {R : Type ι} (less : R → R → Bool) (rank : V → R) (m : List (K × V))
      → 0 < length m
      → (x : K × V) × (min_by_key less rank m ≡ some x)
  unfolding min_by_key
  min_by_key-some less rank [] h = absurd (omega arith)
  min_by_key-some less rank ((j, w) ∷ m) h = elim (Option-cases (min_by_key less rank m)) [
    | inl none_left ↦ ((j, w), ground arith)
    | inr ((i, v), found) ↦ elim (Bool-cases (less (rank v) (rank w))) [
      | inl lower ↦ ((i, v), ground arith)
      | inr not_lower ↦ ((j, w), ground arith)
    ]
  ]

-- What makes `less` an order to select by.
pub record Ranking {ι} {R : Type ι} (less : R → R → Bool) : Type ι where
  pub asym : (a b : R) → less a b ≡ true → less b a ≡ false
  pub trans : (a b c : R) → less b a ≡ false → less c b ≡ false → less c a ≡ false

module _ {ℓ κ ι} {K : Type ℓ} {V : Type κ} {R : Type ι} ⦃e : Key K⦄ (less : R → R → Bool) where
  -- No entry of the map ranks below the one selected.
  pub min_by_key-least :
      Ranking less
      → (rank : V → R) (m : List (K × V)) (j k : K) (v w : V) → get k m ≡ some v
      → min_by_key less rank m ≡ some (j, w)
      → less (rank v) (rank w) ≡ false
  unfolding get min_by_key
  min_by_key-least o rank [] j k v w found least = cc
  min_by_key-least o rank ((i, u) ∷ m) j k v w found least =
      elim (Option-cases (min_by_key less rank m)) [
        | inl empty ↦ ground (arith, o.asym (rank u) (rank u), min_by_key_none m k empty)
        | inr ((a, x), rest) ↦ ground (
          arith,
          o.asym (rank u) (rank u),
          o.asym (rank x) (rank u),
          min_by_key-least o rank m a k v x,
          o.trans (rank u) (rank x) (rank v),
        )
      ]
    where
      min_by_key_none : (m : List (K × V)) (k : K) → min_by_key less rank m ≡ none → get k m ≡ none
      min_by_key_none [] k h = refl
      min_by_key_none ((a, x) ∷ m) k h = ground arith
