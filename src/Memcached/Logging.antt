-- ===== src/Memcached/Logging.antt =====
-- LoggingMemcachedCache of rbatis-cache-memcached/src/logging_memcached_cache.rs: a backend that
-- counts the requests and the hits of another. Over any delegate; the log and the ratio are left
-- out.
use rbatis_cache.Common.{
  ℕ, ◌≤◌, ◌<◌, ◌≡◌, refl, Bool, true, false, Option, none, some, Text, Bytes, Duration, ok, err,
  wrapping_add, u64_max, arith, if◌then◌else◌,
}
use rbatis_cache.Backend.{CacheBackend}
use rbatis_cache.Error.{CacheResult}

pub record LoggingMemcachedCache (S : Type 0) : Type 0 where
  pub delegate : S
  pub requests : ℕ
  pub hits : ℕ

abbrev pub is_some : {A : Type 0} → Option A → Bool
is_some none = false
is_some (some a) = true

module _ (b : CacheBackend) where
  abbrev pub Logging : Type 0
  Logging = LoggingMemcachedCache b.State

  unfoldable pub record_request : Bool → Logging → Logging
  record_request hit l = record l {
    requests = wrapping_add l.requests 1;
    hits = if hit then wrapping_add l.hits 1 else l.hits;
  }

  -- `?` returns an error before the request is counted.
  after_get : CacheResult (Option Bytes) → Logging → CacheResult (Option Bytes) × Logging
  after_get (err e) l = (err e, l)
  after_get (ok found) l = (ok found, record_request (is_some found) l)

  unfoldable pub get : ℕ → Text → Logging → CacheResult (Option Bytes) × Logging
  unfolding after_get
  get now key l = let (r, s) = b.get now key l.delegate in after_get r (record l { delegate = s })

  unfoldable pub put : ℕ → Text → Bytes → Duration → Logging → CacheResult (Unit {0}) × Logging
  put now key bytes ttl l =
      let (r, s) = b.put now key bytes ttl l.delegate in (r, record l { delegate = s })

  unfoldable pub generation : ℕ → Text → Logging → CacheResult ℕ × Logging
  generation now namespace l =
      let (r, s) = b.generation now namespace l.delegate in (r, record l { delegate = s })

  unfoldable pub bump_generation : ℕ → Text → Logging → CacheResult ℕ × Logging
  bump_generation now namespace l =
      let (r, s) = b.bump_generation now namespace l.delegate in (r, record l { delegate = s })

  after_get-result :
      (r : CacheResult (Option Bytes)) (l : Logging)
      → l.hits ≤ l.requests
      → l.requests < u64_max
      → ((after_get r l).0 ≡ r)
        × ((after_get r l).1.delegate ≡ l.delegate)
        × ((after_get r l).1.hits ≤ (after_get r l).1.requests)
  unfolding after_get record_request wrapping_add
  after_get-result (err e) l h k = (refl, refl, h)
  after_get-result (ok none) l h k = (refl, refl, omega arith)
  after_get-result (ok (some bytes)) l h k = (refl, refl, omega arith)

  -- While the hits are at most the requests, and these below the largest u64: a read through the
  -- decorator returns what the delegate returns, leaves it in the same state, and keeps the hits at
  -- most the requests.
  pub get-delegate :
      (now : ℕ) (key : Text) (l : Logging)
      → l.hits ≤ l.requests
      → l.requests < u64_max
      → ((get now key l).0 ≡ (b.get now key l.delegate).0)
        × ((get now key l).1.delegate ≡ (b.get now key l.delegate).1)
        × ((get now key l).1.hits ≤ (get now key l).1.requests)
  unfolding get
  get-delegate now key l h k =
      after_get-result (b.get now key l.delegate).0
        (record l { delegate = (b.get now key l.delegate).1 }) h k
