-- ===== src/Redis.antt =====
-- RedisCacheBackend of rbatis-cache-redis/src/redis_cache.rs: an operation timeout and a circuit
-- breaker around the commands of a server. A method takes the clock that it reads first; the
-- clock that `record_failure` reads after a command is part of how the command ends.
pub mod Config
pub mod ConfigurationBuilder
pub mod Serializer
pub mod Breaker
pub mod Circuit
pub mod Honest
pub mod Keyspace
use mathlib.Core.Option
use rbatis_cache.Common.{
  ℕ, ◌+◌, ◌%◌, max, Option, Text, Bytes, ascii, ◌++◌, Duration, as_millis, from_secs,
  to_u64_saturating, saturating_add, wrapping_add, as_u32, ltb, leb, ok, err, if◌then◌else◌,
}
use rbatis_cache.Backend.{CacheBackend}
use rbatis_cache.Error.{CacheError, CacheResult}

-- How a command ends: with its value; with an error of the server or of the connection, or not
-- within the operation timeout, and then at a reading of the clock.
pub data Outcome (T : Type 0) : Type 0 where
  value : T → Outcome T
  error : ℕ → Text → Outcome T
  elapsed : ℕ → Outcome T

-- The commands that the backend sends: GET of bytes, PSETEX, GET of a u64, INCR. A command that
-- fails or times out may have changed the server all the same.
pub record Server : Type 1 where
  pub Store : Type 0
  pub get : ℕ → Text → Store → Outcome (Option Bytes) × Store
  pub psetex : ℕ → Text → ℕ → Bytes → Store → Outcome (Unit {0}) × Store
  pub get_u64 : ℕ → Text → Store → Outcome (Option ℕ) × Store
  pub incr : ℕ → Text → Store → Outcome ℕ × Store

pub record RedisMetrics : Type 0 where
  pub operations : ℕ
  pub errors : ℕ
  pub timeouts : ℕ
  pub circuit_opens : ℕ
  pub invalidations : ℕ

-- The part of RedisCacheConfig that the methods read; the operation timeout is in `Outcome`.
pub record RedisCacheConfig : Type 0 where
  pub key_prefix : Text
  pub circuit_failure_threshold : ℕ
  pub circuit_cooldown : Duration

abbrev pub from_redis : RedisCacheConfig
from_redis = record {
  key_prefix = ascii "rbatis:cache";
  circuit_failure_threshold = 3;
  circuit_cooldown = from_secs 5;
}

pub record RedisCacheBackend (Store : Type 0) : Type 0 where
  pub connection : Store
  pub config : RedisCacheConfig
  pub metrics : RedisMetrics
  pub consecutive_failures : ℕ
  pub circuit_open_until_ms : ℕ

abbrev pub connect : {Store : Type 0} → RedisCacheConfig → Store → RedisCacheBackend Store
connect config store = record {
  connection = store;
  config = config;
  metrics = record {
    operations = 0;
    errors = 0;
    timeouts = 0;
    circuit_opens = 0;
    invalidations = 0;
  };
  consecutive_failures = 0;
  circuit_open_until_ms = 0;
}

unfoldable pub duration_ms : Duration → ℕ
duration_ms d = to_u64_saturating (as_millis d)

module _ {Store : Type 0} where
  abbrev pub count :
      (RedisMetrics → RedisMetrics) → RedisCacheBackend Store → RedisCacheBackend Store
  count f r = record r { metrics = f r.metrics }

  unfoldable pub open_circuit : ℕ → RedisCacheBackend Store → RedisCacheBackend Store
  open_circuit now r =
      record (count (λ m. record m { circuit_opens = wrapping_add m.circuit_opens 1 }) r) {
        circuit_open_until_ms = saturating_add now (duration_ms r.config.circuit_cooldown);
        consecutive_failures = 0;
      }

  -- An AtomicU32 counts; `f` is what it stood at, and one more unless that overflows.
  unfoldable pub record_failure : ℕ → RedisCacheBackend Store → RedisCacheBackend Store
  unfolding open_circuit
  record_failure now r =
      let f =
        if ltb 4294967295 (r.consecutive_failures + 1)
        then 4294967295
        else r.consecutive_failures + 1 in
      let counted = record r { consecutive_failures = as_u32 (r.consecutive_failures + 1) } in
      if leb (max r.config.circuit_failure_threshold 1) f then open_circuit now counted else counted

  -- What `run` does with the end of a command.
  unfoldable pub settle :
      {T : Type 0} → Outcome T → RedisCacheBackend Store → CacheResult T × RedisCacheBackend Store
  unfolding record_failure
  settle (value v) r = (
    ok v,
    record (count (λ m. record m { operations = wrapping_add m.operations 1 }) r) {
      consecutive_failures = 0;
    },
  )
  settle (error at message) r = (
    err (CacheError.backend message),
    record_failure at (count (λ m. record m { errors = wrapping_add m.errors 1 }) r),
  )
  settle (elapsed at) r = (
    err (CacheError.backend (ascii "redis operation timed out")),
    record_failure at (count (λ m. record m { timeouts = wrapping_add m.timeouts 1 }) r),
  )

  -- While the circuit is open, the command is not sent.
  unfoldable pub run :
      {T : Type 0}
      → ℕ
      → (Store → Outcome T × Store)
      → RedisCacheBackend Store
      → CacheResult T × RedisCacheBackend Store
  unfolding settle
  run now op r =
      if ltb now r.circuit_open_until_ms
      then (err (CacheError.backend (ascii "redis circuit is open")), r)
      else let (outcome, store) = op r.connection in
        settle outcome (record r { connection = store })

  unfoldable pub entry_key : Text → RedisCacheBackend Store → Text
  entry_key digest r = r.config.key_prefix ++ (ascii ":entry:" ++ digest)

module _ (blake3_hex : Bytes → Text) (server : Server) where
  abbrev pub Backend : Type 0
  Backend = RedisCacheBackend server.Store

  unfoldable pub generation_key : Text → Backend → Text
  generation_key namespace r = r.config.key_prefix ++ (ascii ":generation:" ++ blake3_hex namespace)

  unfoldable pub get : ℕ → Text → Backend → CacheResult (Option Bytes) × Backend
  unfolding run entry_key
  get now key r = run now (server.get now (entry_key key r)) r

  unfoldable pub put : ℕ → Text → Bytes → Duration → Backend → CacheResult (Unit {0}) × Backend
  unfolding run entry_key
  put now key bytes ttl r =
      run now (server.psetex now (entry_key key r) (max (duration_ms ttl) 1) bytes) r

  unfoldable pub generation : ℕ → Text → Backend → CacheResult ℕ × Backend
  unfolding run generation_key
  generation now namespace r =
      let (result, after) = run now (server.get_u64 now (generation_key namespace r)) r in
      (elim result [ ok g ↦ ok (Option.get_or g 0) | err e ↦ err e ], after)

  after_incr : CacheResult ℕ × Backend → CacheResult ℕ × Backend
  after_incr (ok g, r) =
      (ok g, count (λ m. record m { invalidations = wrapping_add m.invalidations 1 }) r)
  after_incr (err e, r) = (err e, r)

  unfoldable pub bump_generation : ℕ → Text → Backend → CacheResult ℕ × Backend
  unfolding run generation_key after_incr
  bump_generation now namespace r =
      after_incr (run now (server.incr now (generation_key namespace r)) r)

  -- impl CacheBackend for RedisCacheBackend
  abbrev pub redis_backend : CacheBackend
  redis_backend = record {
    State = Backend;
    get = get;
    put = put;
    generation = generation;
    bump_generation = bump_generation;
  }
