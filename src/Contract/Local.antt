-- ===== src/Contract/Local.antt =====
-- LocalBackend passes the contract.
use rbatis_cache.Common.{
  ℕ, zero, suc, ◌+◌, ◌≤◌, ◌<◌, ◌≡◌, refl, ◌∙◌, true, none, Text, Bytes, ascii, ok, from_millis,
  from_secs, u64_max, saturating_add, as_u64, arith, text_same, text_same_iff, text_key, ==_iff,
}
use rbatis_cache.DashMap
use rbatis_cache.Contract.{
  assert_missing_key_is_none, assert_get_put_roundtrip, assert_generation_atomic,
  assert_ttl_expires, bump_all, run_all, namespace, payload, payload2, roundtrip_key, ttl_key,
}
use rbatis_cache.Local.{
  LocalBackend, local_backend, with_config, get, put, bump_generation, read_generation, generation,
  deadline, entry_key,
}
use rbatis_cache.Local.Types.{LocalBackendConfig}
use rbatis_cache.Local.Reads.{get-put, get-put_expired, get-visible}
use rbatis_cache.Local.Generations.{
  bump_times, bump_times-read, bump_generation-adds, read_generation-put,
}

same_text : (t : Text) → text_same t t ≡ true
same_text t = (text_same_iff t t).1 refl

get-new :
    (config : LocalBackendConfig)
    → DashMap.get (entry_key (ascii "non-existent-digest")) (with_config config).entries ≡ none
unfolding with_config DashMap.get
get-new config = refl

read_generation-new :
    (config : LocalBackendConfig) → read_generation namespace (with_config config) ≡ 0
unfolding with_config DashMap.get read_generation
read_generation-new config = refl

module _ (blake3_hex : Bytes → Text) where
  missing_passes :
      (now : ℕ) (b : LocalBackend)
      → DashMap.get (entry_key (ascii "non-existent-digest")) b.entries ≡ none
      → (assert_missing_key_is_none (local_backend blake3_hex) now b).0 ≡ true
  unfolding assert_missing_key_is_none
  missing_passes now b gone = rw (get-visible, gone) refl

  put_ok :
      (now : ℕ) (key : Text) (value : Bytes) (ttl : ℕ) (b : LocalBackend)
      → (put now key value ttl b).0 ≡ ok tt
  unfolding put
  put_ok now key value ttl b = refl

  -- The deadline of a TTL of a minute has not come.
  minute_left : (now : ℕ) → now < u64_max → now < deadline now (from_secs 60)
  unfolding saturating_add as_u64
  minute_left now h = ground arith

  roundtrip_passes :
      (now : ℕ) (b : LocalBackend)
      → now < u64_max
      → (assert_get_put_roundtrip (local_backend blake3_hex) now b).0 ≡ true
  unfolding assert_get_put_roundtrip
  roundtrip_passes now b h =
      let b1 = (put now roundtrip_key payload (from_secs 60) b).1 in
      let b2 = (get now roundtrip_key b1).1 in
      rw
        (
          put_ok now roundtrip_key payload (from_secs 60) b,
          get-put now now roundtrip_key payload (from_secs 60) b (minute_left now h),
          put_ok now roundtrip_key payload2 (from_secs 60) b2,
          get-put now now roundtrip_key payload2 (from_secs 60) b2 (minute_left now h),
        )
        refl

  bump_all-bump_times :
      (n now : ℕ) (b : LocalBackend)
      → read_generation namespace b + n ≤ u64_max
      → ((bump_all (local_backend blake3_hex) n now b).0 ≡ true)
        × ((bump_all (local_backend blake3_hex) n now b).1
            ≡ bump_times blake3_hex n now namespace b)
  unfolding bump_all bump_times
  bump_all-bump_times zero now b h = (refl, refl)
  bump_all-bump_times (suc n) now b h =
      let (returned, one) = bump_generation-adds blake3_hex now namespace b (omega arith) in
      let (passed, same) =
        bump_all-bump_times n now (bump_generation blake3_hex now namespace b).1 (omega arith) in
      (rw (returned, passed) refl, same)

  atomic_passes :
      (now : ℕ) (b : LocalBackend)
      → read_generation namespace b + 32 ≤ u64_max
      → (assert_generation_atomic (local_backend blake3_hex) now b).0 ≡ true
  unfolding assert_generation_atomic generation
  atomic_passes now b h =
      let (passed, same) = bump_all-bump_times 32 now b h in
      rw (passed, same, bump_times-read blake3_hex 32 now namespace b h) ((==_iff _ _).1 refl)

  -- The deadline of a TTL of 50 milliseconds is past after 200.
  ttl_over : (now : ℕ) → deadline now (from_millis 50) ≤ now + 200
  unfolding saturating_add as_u64
  ttl_over now = ground arith

  ttl_passes :
      (now : ℕ) (b : LocalBackend) → (assert_ttl_expires (local_backend blake3_hex) now b).0 ≡ true
  unfolding assert_ttl_expires
  ttl_passes now b =
      rw
        (
          put_ok now ttl_key (ascii "short-lived") (from_millis 50) b,
          (get-put_expired now (now + 200) ttl_key (ascii "short-lived") (from_millis 50) b
              (ttl_over now)).0,
        )
        refl

  -- A `put` and the `get` after it leave the generations.
  read_generation-put_get :
      (now : ℕ) (key : Text) (value : Bytes) (ttl : ℕ) (b : LocalBackend)
      → read_generation namespace (get now key (put now key value ttl b).1).1
        ≡ read_generation namespace b
  read_generation-put_get now key value ttl b =
      (read_generation-put now key namespace value ttl (put now key value ttl b).1).1
      ∙ (read_generation-put now key namespace value ttl b).0

  read_generation-roundtrip :
      (now : ℕ) (b : LocalBackend)
      → read_generation namespace (assert_get_put_roundtrip (local_backend blake3_hex) now b).1
        ≡ read_generation namespace b
  unfolding assert_get_put_roundtrip
  read_generation-roundtrip now b =
      let b2 = (get now roundtrip_key (put now roundtrip_key payload (from_secs 60) b).1).1 in
      read_generation-put_get now roundtrip_key payload2 (from_secs 60) b2
      ∙ read_generation-put_get now roundtrip_key payload (from_secs 60) b

  read_generation-missing :
      (now : ℕ) (b : LocalBackend)
      → read_generation namespace (assert_missing_key_is_none (local_backend blake3_hex) now b).1
        ≡ read_generation namespace b
  unfolding assert_missing_key_is_none
  read_generation-missing now b =
      (read_generation-put now (ascii "non-existent-digest") namespace payload 0 b).1

  -- Whatever its configuration, a new LocalBackend passes the whole contract, at any time before the
  -- end of a 64-bit clock.
  pub run_all-local_backend :
      (now : ℕ) (config : LocalBackendConfig)
      → now < u64_max
      → (run_all (local_backend blake3_hex) now (with_config config)).0 ≡ true
  unfolding run_all
  run_all-local_backend now config h =
      let b = with_config config in
      let b1 = (assert_missing_key_is_none (local_backend blake3_hex) now b).1 in
      let b2 = (assert_get_put_roundtrip (local_backend blake3_hex) now b1).1 in
      let b3 = (assert_generation_atomic (local_backend blake3_hex) now b2).1 in
      rw
        (
          missing_passes now b (get-new config),
          roundtrip_passes now b1 h,
          atomic_passes now b2 (few now config),
          ttl_passes now b3,
        )
        refl
    where
      few :
          (now : ℕ) (config : LocalBackendConfig)
          → read_generation namespace
                (assert_get_put_roundtrip
                  (local_backend blake3_hex)
                  now
                  (assert_missing_key_is_none
                    (local_backend blake3_hex)
                    now
                    (with_config config)).1).1
              + 32
            ≤ u64_max
      few now config =
          rw (read_generation-roundtrip, read_generation-missing, read_generation-new config)
            (omega arith)
