-- ===== src/Moka/Contract.antt =====
-- What the contract of src/testing.rs makes of MokaCacheBackend.
use rbatis_cache.Common.{
  saturating_add, ◌≢◌, ◌⊎◌, inl, inr, none, Bool, true, false, ◌&&◌, ℕ, zero, suc, ◌+◌, ◌≤◌, ◌≡◌,
  refl, true, false, some, Text, Bytes, u64_max, ◌==◌, arith, saturating_add_exact,
  wrapping_add_exact, to_le_bytes, from_le_bytes-to_le_bytes,
}
use rbatis_cache.Contract.{assert_generation_atomic, bump_all, namespace}
use rbatis_cache.Moka.{
  Moka, MokaCacheBackend, moka_backend, generation_key, generation, bump_generation, counted,
}

and_false : (a b : Bool) → b ≡ false → (a && b) ≡ false
and_false true b h = h
and_false false b h = refl

module _ (m : Moka) where
  -- The generation that the cache shows of the contract's namespace.
  abbrev pub shown : ℕ → MokaCacheBackend m.Cache → ℕ
  shown now b = counted m (m.get now (generation_key m namespace b) b.cache).0

  counted-bytes : (n : ℕ) → n ≤ u64_max → counted m (some (to_le_bytes n)) ≡ n
  unfolding to_le_bytes
  counted-bytes n h = from_le_bytes-to_le_bytes n h

  -- What moka documents of a cache that may evict or refuse at any time: right after an insertion it
  -- has what was inserted, or nothing.
  abbrev pub IsCache : Type 0
  IsCache =
      (time : ℕ) (k : Text) (v : Bytes) (c : m.Cache)
      → ((m.get time k (m.insert time k v c)).0 ≡ some v)
        ⊎ ((m.get time k (m.insert time k v c)).0 ≡ none)

  -- After a bump the cache shows the backend's counter, or nothing.
  shown-bump :
      (now : ℕ) (b : MokaCacheBackend m.Cache)
      → IsCache
      → b.generation + 1 ≤ u64_max
      → (shown now (bump_generation m now namespace b).1 ≡ b.generation + 1)
        ⊎ (shown now (bump_generation m now namespace b).1 ≡ 0)
  unfolding bump_generation generation_key
  shown-bump now b cache h =
      elim (cache now (generation_key m namespace b) (to_le_bytes (saturating_add b.generation 1))
        b.cache) [
          | inl kept ↦ inl (
              rw (kept, saturating_add_exact b.generation 1 h) (counted-bytes (b.generation + 1) h))
          | inr gone ↦ inr (rw gone refl)
        ]

  generation-bump :
      (now : ℕ) (b : MokaCacheBackend m.Cache)
      → b.generation + 1 ≤ u64_max
      → (bump_generation m now namespace b).1.generation ≡ b.generation + 1
  unfolding bump_generation
  generation-bump now b h = wrapping_add_exact b.generation 1 h

  bump_all-shown :
      (n now : ℕ) (b : MokaCacheBackend m.Cache)
      → IsCache
      → b.generation + suc n ≤ u64_max
      → (shown now (bump_all (moka_backend m) (suc n) now b).1 ≡ b.generation + suc n)
        ⊎ (shown now (bump_all (moka_backend m) (suc n) now b).1 ≡ 0)
  unfolding bump_all
  bump_all-shown zero now b cache h = shown-bump now b cache h
  bump_all-shown (suc n) now b cache h =
      let b' = (bump_generation m now namespace b).1 in
      let counter = generation-bump now b (omega arith) in
      elim (bump_all-shown n now b' cache (omega arith)) [
        | inl same ↦ inl (omega arith)
        | inr gone ↦ inr gone
      ]

  -- With a cache that has right after an insertion what was inserted, or nothing, and a counter
  -- that stays a u64: a backend whose generation of the contract's namespace is not the counter
  -- that all its namespaces share fails the contract's 32 bumps, whatever the cache evicts.
  pub assert_generation_atomic-shared :
      (now : ℕ) (b : MokaCacheBackend m.Cache)
      → IsCache
      → b.generation + 32 ≤ u64_max
      → shown now b ≢ b.generation
      → (assert_generation_atomic (moka_backend m) now b).0 ≡ false
  unfolding assert_generation_atomic generation
  assert_generation_atomic-shared now b cache h ne =
      let read = record b { cache = (m.get now (generation_key m namespace b) b.cache).1 } in
      let final = (bump_all (moka_backend m) 32 now read).1 in
      let differs : (shown now final == shown now b + 32) ≡ false =
        elim (bump_all-shown 31 now read cache h) [
          | inl same ↦ ground (arith, ne)
          | inr gone ↦ ground arith
        ] in
      and_false (bump_all (moka_backend m) 32 now read).0 (shown now final == shown now b + 32)
        differs
