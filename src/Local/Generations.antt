-- ===== src/Local/Generations.antt =====
-- What the generations count.
use rbatis_cache.Common.{
  ℕ, suc, zero, ◌+◌, ◌≤◌, ◌≡◌, refl, ◌≢◌, Text, Bytes, Duration, ok, text_key, text_same, false,
  text_same_iff, arith, u64_max, wrapping_add, wrapping_add_exact, saturating_add_exact,
}
use rbatis_cache.DashMap.{get-insert, get-insert_self}
use rbatis_cache.Local.{
  LocalBackend, get, put, prune, record_access, bump_generation, read_generation,
}

module _ (blake3_hex : Bytes → Text) where
  pub bump_generation-adds :
      (now : ℕ) (namespace : Text) (b : LocalBackend)
      → read_generation namespace b + 1 ≤ u64_max
      → ((bump_generation blake3_hex now namespace b).0 ≡ ok (read_generation namespace b + 1))
        × (read_generation namespace (bump_generation blake3_hex now namespace b).1
            ≡ read_generation namespace b + 1)
  unfolding bump_generation read_generation
  bump_generation-adds now namespace b h =
      (rw (saturating_add_exact _ _ h), rw (get-insert_self, wrapping_add_exact _ _ h))

  pub bump_generation-other :
      (now : ℕ) (namespace other : Text) (b : LocalBackend)
      → text_same namespace other ≡ false
      → read_generation other (bump_generation blake3_hex now namespace b).1
        ≡ read_generation other b
  unfolding bump_generation read_generation
  bump_generation-other now namespace other b ne = ground (
    arith,
    get-insert namespace other (wrapping_add (read_generation namespace b) 1) b.generations,
  )

  -- Below the largest counter, a bump adds one to the generation of its namespace, returns the new
  -- value, and leaves any other namespace alone.
  pub bump_generation-read :
      (now : ℕ) (namespace other : Text) (b : LocalBackend)
      → namespace ≢ other
      → read_generation namespace b + 1 ≤ u64_max
      → ((bump_generation blake3_hex now namespace b).0 ≡ ok (read_generation namespace b + 1))
        × (read_generation namespace (bump_generation blake3_hex now namespace b).1
            ≡ read_generation namespace b + 1)
        × (read_generation other (bump_generation blake3_hex now namespace b).1
            ≡ read_generation other b)
  unfolding bump_generation read_generation
  bump_generation-read now namespace other b ne h =
      let (returned, read) = bump_generation-adds now namespace b h in
      (
        returned,
        read,
        bump_generation-other now namespace other b (ground (arith, text_same_iff namespace other)),
      )

  -- `n` bumps of one namespace, as the contract test makes them.
  unfoldable pub bump_times : ℕ → ℕ → Text → LocalBackend → LocalBackend
  bump_times zero now namespace b = b
  bump_times (suc n) now namespace b =
      bump_times n now namespace (bump_generation blake3_hex now namespace b).1

  -- `n` bumps add exactly `n`, as long as the sum is a u64.
  pub bump_times-read :
      (n now : ℕ) (namespace : Text) (b : LocalBackend)
      → read_generation namespace b + n ≤ u64_max
      → read_generation namespace (bump_times n now namespace b) ≡ read_generation namespace b + n
  unfolding bump_times
  bump_times-read zero now namespace b h = omega arith
  bump_times-read (suc n) now namespace b h =
      let (_, one) = bump_generation-adds now namespace b (omega arith) in
      omega (
        arith,
        bump_times-read n now namespace (bump_generation blake3_hex now namespace b).1
            (omega arith),
      )

-- Neither reads nor writes nor the worker change a generation.
pub read_generation-put :
    (now : ℕ) (key namespace : Text) (value : Bytes) (ttl : Duration) (b : LocalBackend)
    → (read_generation namespace (put now key value ttl b).1 ≡ read_generation namespace b)
      × (read_generation namespace (get now key b).1 ≡ read_generation namespace b)
      × (read_generation namespace (prune now b) ≡ read_generation namespace b)
unfolding read_generation put get prune record_access
read_generation-put now key namespace value ttl b = (refl, ground arith, refl)
