-- ===== src/DashMap/Laws.antt =====
-- What can be read of a map after each operation, and how many entries it has.
use rbatis_cache.Common.{
  ◌+◌, ◌≤◌, ◌<◌, ◌≡◌, refl, inl, inr, true, none, some, List, [], ◌∷◌, Key, arith, length,
  if◌then◌else◌, Bool-cases,
}
use mathlib.Core.Option
use rbatis_cache.DashMap.Defs.{get, remove, insert, update, IsMissing, IsDistinct}

pub same_self {ℓ} : {K : Type ℓ} ⦃e : Key K⦄ (k : K) → e.same k k ≡ true
same_self ⦃e⦄ k = (e.same_iff k k).1 refl

module _ {ℓ κ} {K : Type ℓ} {V : Type κ} ⦃e : Key K⦄ where
  pub get-remove :
      (k j : K) (m : List (K × V)) → get j (remove k m) ≡ (if e.same k j then none else get j m)
  unfolding get remove
  get-remove k j [] = ground arith
  get-remove k j ((i, v) ∷ m) =
      ground (arith, get-remove k j m, e.same_iff i k, e.same_iff i j, e.same_iff k j)

  pub get-insert :
      (k j : K) (v : V) (m : List (K × V))
      → get j (insert k v m) ≡ (if e.same k j then some v else get j m)
  unfolding get insert
  get-insert k j v m = ground (arith, get-remove k j m)

  pub get-insert_self : (k : K) (v : V) (m : List (K × V)) → get k (insert k v m) ≡ some v
  get-insert_self k v m = ground (arith, get-insert k k v m, same_self k)

  pub get-update :
      (k j : K) (f : V → V) (m : List (K × V))
      → get j (update k f m) ≡ (if e.same k j then Option.map f (get j m) else get j m)
  unfolding get update
  get-update k j f [] = ground arith
  get-update k j f ((i, v) ∷ m) =
      ground (arith, get-update k j f m, e.same_iff i k, e.same_iff i j, e.same_iff k j)

  pub length-remove-le : (k : K) (m : List (K × V)) → length (remove k m) ≤ length m
  unfolding remove
  length-remove-le k [] = omega arith
  length-remove-le k ((i, v) ∷ m) = ground (arith, length-remove-le k m)

  -- To remove a key that is there makes the map smaller.
  pub length-remove-lt :
      (k : K) (v : V) (m : List (K × V)) → get k m ≡ some v → length (remove k m) < length m
  unfolding get remove
  length-remove-lt k v [] h = cc
  length-remove-lt k v ((i, w) ∷ m) h = ground (arith, length-remove-lt k v m, length-remove-le k m)

  pub length-insert-le : (k : K) (v : V) (m : List (K × V)) → length (insert k v m) ≤ length m + 1
  unfolding insert
  length-insert-le k v m = omega (arith, length-remove-le k m)

  pub length-update : (k : K) (f : V → V) (m : List (K × V)) → length (update k f m) ≡ length m
  unfolding update
  length-update k f [] = refl
  length-update k f ((i, v) ∷ m) = omega (arith, length-update k f m)

  pub get-eq-none_of_missing : (k : K) (m : List (K × V)) → IsMissing k m → get k m ≡ none
  unfolding get
  get-eq-none_of_missing k [] h = refl
  get-eq-none_of_missing k ((j, v) ∷ m) h = ground (arith, get-eq-none_of_missing k m)

  pub remove-IsMissing : (k : K) (m : List (K × V)) → IsMissing k (remove k m)
  unfolding remove
  remove-IsMissing k [] = tt
  remove-IsMissing k ((j, v) ∷ m) = elim (Bool-cases (e.same j k)) [
    | inl hit ↦ rw hit (remove-IsMissing k m)
    | inr miss ↦ rw miss (miss, remove-IsMissing k m)
  ]

  remove-keeps-IsMissing : (k j : K) (m : List (K × V)) → IsMissing j m → IsMissing j (remove k m)
  unfolding remove
  remove-keeps-IsMissing k j [] h = tt
  remove-keeps-IsMissing k j ((i, v) ∷ m) h = elim (Bool-cases (e.same i k)) [
    | inl hit ↦ rw hit (remove-keeps-IsMissing k j m h.1)
    | inr miss ↦ rw miss (h.0, remove-keeps-IsMissing k j m h.1)
  ]

  pub remove-IsDistinct : (k : K) (m : List (K × V)) → IsDistinct m → IsDistinct (remove k m)
  unfolding remove
  remove-IsDistinct k [] h = tt
  remove-IsDistinct k ((i, v) ∷ m) h = elim (Bool-cases (e.same i k)) [
    | inl hit ↦ rw hit (remove-IsDistinct k m h.1)
    | inr miss ↦ rw miss (remove-keeps-IsMissing k i m h.0, remove-IsDistinct k m h.1)
  ]

  pub insert-IsDistinct :
      (k : K) (v : V) (m : List (K × V)) → IsDistinct m → IsDistinct (insert k v m)
  unfolding insert
  insert-IsDistinct k v m h = (remove-IsMissing k m, remove-IsDistinct k m h)

  update-IsMissing :
      (k j : K) (f : V → V) (m : List (K × V)) → IsMissing j m → IsMissing j (update k f m)
  unfolding update
  update-IsMissing k j f [] h = tt
  update-IsMissing k j f ((i, v) ∷ m) h = (h.0, update-IsMissing k j f m h.1)

  pub update-IsDistinct :
      (k : K) (f : V → V) (m : List (K × V)) → IsDistinct m → IsDistinct (update k f m)
  unfolding update
  update-IsDistinct k f [] h = tt
  update-IsDistinct k f ((i, v) ∷ m) h = (update-IsMissing k i f m h.0, update-IsDistinct k f m h.1)
