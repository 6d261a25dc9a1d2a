-- ===== src/Redis/Circuit.antt =====
-- What an open circuit lets through.
use rbatis_cache.Common.{ℕ, ◌<◌, ◌≡◌, max, refl, Text, Bytes, Duration, ascii, err, lt→ltb}
use rbatis_cache.Error.{CacheError}
use rbatis_cache.Redis.{
  Server, Backend, Outcome, run, get, put, generation, bump_generation, generation_key, after_incr,
  entry_key, duration_ms,
}

abbrev pub circuit_is_open : CacheError
circuit_is_open = CacheError.backend (ascii "redis circuit is open")

module _ (blake3_hex : Bytes → Text) (server : Server) where
  run-open :
      {T : Type 0}
      → (now : ℕ) (op : server.Store → Outcome T × server.Store) (r : Backend blake3_hex server)
      → now < r.circuit_open_until_ms
      → run now op r ≡ (err circuit_is_open, r)
  unfolding run
  run-open now op r open_until = rw (lt→ltb now r.circuit_open_until_ms open_until) refl

  -- While the circuit is open, every operation returns the same error and neither reaches the
  -- server nor counts.
  pub operations-open :
      (now : ℕ) (key namespace : Text) (bytes : Bytes) (ttl : Duration)
      (r : Backend blake3_hex server)
      → now < r.circuit_open_until_ms
      → (get blake3_hex server now key r ≡ (err circuit_is_open, r))
        × (put blake3_hex server now key bytes ttl r ≡ (err circuit_is_open, r))
        × (generation blake3_hex server now namespace r ≡ (err circuit_is_open, r))
        × (bump_generation blake3_hex server now namespace r ≡ (err circuit_is_open, r))
  unfolding get put generation bump_generation after_incr
  operations-open now key namespace bytes ttl r h = (
    run-open now (server.get now (entry_key key r)) r h,
    run-open now (server.psetex now (entry_key key r) (max (duration_ms ttl) 1) bytes) r h,
    rw
        (
          generation,
          run-open now (server.get_u64 now (generation_key blake3_hex server namespace r)) r h,
        )
        refl,
    rw
        (
          bump_generation,
          run-open now (server.incr now (generation_key blake3_hex server namespace r)) r h,
        )
        refl,
  )
