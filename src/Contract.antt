-- ===== src/Contract.antt =====
-- src/testing.rs: the contract of a backend, as assertions that any backend can be run through. An
-- assertion returns whether it passes, with the state after it; after a panic the state is of no
-- account. The 32 futures of the third are polled one after another, as the source awaits them.
pub mod Local
use rbatis_cache.Common.{
  ℕ, zero, suc, ◌+◌, Bool, true, false, ◌&&◌, Option, none, some, Text, Bytes, ascii, Result, ok,
  err, is_ok, from_millis, from_secs, text_same, ◌==◌,
}
use rbatis_cache.Backend.{CacheBackend}
use rbatis_cache.Error.{CacheResult}

-- matches!(result, Ok(None))
abbrev pub is_ok_none : CacheResult (Option Bytes) → Bool
is_ok_none (ok none) = true
is_ok_none (ok (some bytes)) = false
is_ok_none (err e) = false

-- `expect`, and the comparison with what was written
abbrev pub is_ok_some : Bytes → CacheResult (Option Bytes) → Bool
is_ok_some payload (ok (some bytes)) = text_same bytes payload
is_ok_some payload (ok none) = false
is_ok_some payload (err e) = false

abbrev pub is_sum : CacheResult ℕ → ℕ → CacheResult ℕ → Bool
is_sum (ok before) n (ok after) = after == before + n
is_sum (ok before) n (err e) = false
is_sum (err e) n after = false

abbrev pub payload : Bytes
payload = ascii "sample-envelope-bytes"

abbrev pub payload2 : Bytes
payload2 = ascii "updated"

abbrev pub roundtrip_key : Text
roundtrip_key = ascii "contract-key-roundtrip"

abbrev pub ttl_key : Text
ttl_key = ascii "contract-key-ttl"

abbrev pub namespace : Text
namespace = ascii "contract-namespace"

module _ (b : CacheBackend) where
  abbrev pub Assertion : Type 0
  Assertion = ℕ → b.State → Bool × b.State

  -- Contract 1
  unfoldable pub assert_missing_key_is_none : Assertion
  assert_missing_key_is_none now s =
      let (r, s') = b.get now (ascii "non-existent-digest") s in (is_ok_none r, s')

  -- Contract 2
  unfoldable pub assert_get_put_roundtrip : Assertion
  assert_get_put_roundtrip now s =
      let (written, s1) = b.put now roundtrip_key payload (from_secs 60) s in
      let (read_back, s2) = b.get now roundtrip_key s1 in
      let (written2, s3) = b.put now roundtrip_key payload2 (from_secs 60) s2 in
      let (read_back2, s4) = b.get now roundtrip_key s3 in
      (
        is_ok written
            && (is_ok_some payload read_back && (is_ok written2 && is_ok_some payload2 read_back2)),
        s4,
      )

  -- for handle in handles
  unfoldable pub bump_all : ℕ → Assertion
  bump_all zero now s = (true, s)
  bump_all (suc n) now s =
      let (bumped, s1) = b.bump_generation now namespace s in
      let (rest, s2) = bump_all n now s1 in (is_ok bumped && rest, s2)

  -- Contract 3
  unfoldable pub assert_generation_atomic : Assertion
  assert_generation_atomic now s =
      let (before, s1) = b.generation now namespace s in
      let (bumped, s2) = bump_all 32 now s1 in
      let (after, s3) = b.generation now namespace s2 in
      (is_ok before && (bumped && is_sum before 32 after), s3)

  -- Contract 4: the clock goes on by 200 milliseconds between the calls
  unfoldable pub assert_ttl_expires : Assertion
  assert_ttl_expires now s =
      let (written, s1) = b.put now ttl_key (ascii "short-lived") (from_millis 50) s in
      let (after, s2) = b.get (now + 200) ttl_key s1 in (is_ok written && is_ok_none after, s2)

  unfoldable pub run_all : Assertion
  run_all now s =
      let (one, s1) = assert_missing_key_is_none now s in
      let (two, s2) = assert_get_put_roundtrip now s1 in
      let (three, s3) = assert_generation_atomic now s2 in
      let (four, s4) = assert_ttl_expires now s3 in (one && (two && (three && four)), s4)
