-- ===== src/Memcached/Honest.antt =====
-- A memcache client whose server is there and keeps what it is told.
use rbatis_cache.Common.{
  ℕ, ◌+◌, ◌*◌, ◌<◌, ◌≤◌, ◌≡◌, false, some, Option, Text, Bytes, ok, text_same, u64_max,
}
use mathlib.Core.Option
use rbatis_cache.Memcached.{MemcacheClient}

-- What memcached documents of the commands while it has memory to spare, with times in
-- milliseconds: what a `set` has stored with a lifetime of 1 second to 30 days is there up to the
-- last second; `add` stores 0 where nothing was; `increment` counts what is there; and a command
-- on one key leaves the others.
pub record HonestClient (c : MemcacheClient) : Type 0 where
  pub get-set :
      (now later seconds : ℕ) (key : Text) (bytes : Bytes) (s : c.Store)
      → (c.set now key bytes seconds s).0 ≡ ok tt
      → seconds ≤ 2592000
      → later + 1000 < now + 1000 * seconds
      → (c.get later key (c.set now key bytes seconds s).1).0 ≡ ok (some bytes)
  pub get-set_other :
      (now later seconds : ℕ) (key other : Text) (bytes : Bytes) (s : c.Store)
      → text_same key other ≡ false
      → (c.get later other (c.set now key bytes seconds s).1).0 ≡ (c.get later other s).0
  pub get_u64-set_other :
      (now later seconds : ℕ) (key other : Text) (bytes : Bytes) (s : c.Store)
      → text_same key other ≡ false
      → (c.get_u64 later other (c.set now key bytes seconds s).1).0 ≡ (c.get_u64 later other s).0
  pub get_u64-add :
      (now : ℕ) (key : Text) (s : c.Store) (found : Option ℕ)
      → (c.get_u64 now key s).0 ≡ ok found
      → (c.get_u64 now key (c.add now key 0 0 s).1).0 ≡ ok (some (Option.get_or found 0))
  pub get-add_other :
      (now later : ℕ) (key other : Text) (s : c.Store)
      → text_same key other ≡ false
      → (c.get later other (c.add now key 0 0 s).1).0 ≡ (c.get later other s).0
  pub get_u64-add_other :
      (now later : ℕ) (key other : Text) (s : c.Store)
      → text_same key other ≡ false
      → (c.get_u64 later other (c.add now key 0 0 s).1).0 ≡ (c.get_u64 later other s).0
  pub increment-ok :
      (now n : ℕ) (key : Text) (s : c.Store)
      → (c.get_u64 now key s).0 ≡ ok (some n)
      → n < u64_max
      → (c.increment now key 1 s).0 ≡ ok (n + 1)
  pub get_u64-increment :
      (now later n : ℕ) (key : Text) (s : c.Store)
      → (c.increment now key 1 s).0 ≡ ok n
      → (c.get_u64 later key (c.increment now key 1 s).1).0 ≡ ok (some n)
  pub get-increment_other :
      (now later : ℕ) (key other : Text) (s : c.Store)
      → text_same key other ≡ false
      → (c.get later other (c.increment now key 1 s).1).0 ≡ (c.get later other s).0
  pub get_u64-increment_other :
      (now later : ℕ) (key other : Text) (s : c.Store)
      → text_same key other ≡ false
      → (c.get_u64 later other (c.increment now key 1 s).1).0 ≡ (c.get_u64 later other s).0
