-- ===== src/Memcached.antt =====
-- MemcachedCacheBackend of rbatis-cache-memcached/src/memcached_cache.rs, over the client wrapper
-- of src/client_wrapper.rs and a memcache client that is a parameter. The blocking tasks that the
-- methods start are taken to end: a panic in one, which the source turns into an error, is not
-- modelled.
pub mod Configuration
pub mod Addresses
pub mod ConfigurationBuilder
pub mod ConsistentHash
pub mod Setters
pub mod StringUtils
pub mod Logging
pub mod Laws
pub mod Honest
pub mod Keyspace
use mathlib.Core.Option
use rbatis_cache.Common.{
  ℕ, max, Bool, Option, none, some, Text, Bytes, ascii, ◌++◌, Duration, as_secs, as_u32, Result, ok,
  err, map_err, if◌then◌else◌,
}
use rbatis_cache.Backend.{CacheBackend}
use rbatis_cache.Error.{CacheError, CacheResult}

-- memcache::Client, with the clock that the server reads, and the GZIP of flate2. Errors are the
-- texts that `to_string` makes of them.
pub record MemcacheClient : Type 1 where
  pub Store : Type 0
  pub get : ℕ → Text → Store → Result Text (Option Bytes) × Store
  pub set : ℕ → Text → Bytes → ℕ → Store → Result Text (Unit {0}) × Store
  pub delete : ℕ → Text → Store → Result Text Bool × Store
  pub get_u64 : ℕ → Text → Store → Result Text (Option ℕ) × Store
  pub add : ℕ → Text → ℕ → ℕ → Store → Result Text (Unit {0}) × Store
  pub increment : ℕ → Text → ℕ → Store → Result Text ℕ × Store
  pub gzip : Bytes → Result Text Bytes
  pub gunzip : Bytes → Result Text Bytes

-- The part of MemcachedConfiguration that the methods read, and the wrapper's state.
pub record MemcachedCacheBackend (Store : Type 0) : Type 0 where
  pub client : Store
  pub key_prefix : Text
  pub compression : Bool

module _ (c : MemcacheClient) where
  abbrev pub Backend : Type 0
  Backend = MemcachedCacheBackend c.Store

  -- `encode(value).unwrap_or_else(|_| value.to_vec())`
  unfoldable pub packed : Bool → Bytes → Bytes
  packed compression bytes =
      if compression then (elim (c.gzip bytes) [ ok z ↦ z | err e ↦ bytes ]) else bytes

  -- `decode(&value).ok()`
  unfoldable pub unpacked : Bool → Bytes → Option Bytes
  unpacked compression bytes =
      if compression then (elim (c.gunzip bytes) [ ok v ↦ some v | err e ↦ none ]) else some bytes

  -- The methods of MemcachedClientWrapper.
  unfoldable pub put_object :
      ℕ → Bool → Text → Bytes → ℕ → c.Store → Result Text (Unit {0}) × c.Store
  unfolding packed
  put_object now compression key bytes ttl_seconds s =
      c.set now key (packed compression bytes) ttl_seconds s

  after_get : Bool → Result Text (Option Bytes) → Result Text (Option Bytes)
  after_get compression (err e) = err e
  after_get compression (ok none) = ok none
  after_get compression (ok (some bytes)) = ok (unpacked compression bytes)

  unfoldable pub get_object : ℕ → Bool → Text → c.Store → Result Text (Option Bytes) × c.Store
  unfolding after_get
  get_object now compression key s = let (r, s') = c.get now key s in (after_get compression r, s')

  unfoldable pub remove_object : ℕ → Text → c.Store → Result Text Bool × c.Store
  remove_object now key s = c.delete now key s

  -- The result of `add` is thrown away.
  unfoldable pub client_incr : ℕ → Text → c.Store → Result Text ℕ × c.Store
  client_incr now key s = c.increment now key 1 (c.add now key 0 0 s).1

  abbrev with_client : {A : Type 0} → Backend → Result Text A × c.Store → CacheResult A × Backend
  with_client m (r, s) = (map_err CacheError.backend r, record m { client = s })

  unfoldable pub entry_key : Text → Backend → Text
  entry_key digest m = m.key_prefix ++ (ascii ":entry:" ++ digest)

  -- `ttl.as_secs().max(1) as u32`
  unfoldable pub ttl_seconds : Duration → ℕ
  ttl_seconds ttl = as_u32 (max (as_secs ttl) 1)

  unfoldable pub get : ℕ → Text → Backend → CacheResult (Option Bytes) × Backend
  unfolding get_object entry_key
  get now key m = with_client m (get_object now m.compression (entry_key key m) m.client)

  unfoldable pub put : ℕ → Text → Bytes → Duration → Backend → CacheResult (Unit {0}) × Backend
  unfolding put_object entry_key ttl_seconds
  put now key bytes ttl m =
      with_client m
        (put_object now m.compression (entry_key key m) bytes (ttl_seconds ttl) m.client)

  module _ (blake3_hex : Bytes → Text) where
    unfoldable pub generation_key : Text → Backend → Text
    generation_key namespace m = m.key_prefix ++ (ascii ":generation:" ++ blake3_hex namespace)

    counter : Result Text (Option ℕ) × c.Store → Result Text ℕ × c.Store
    counter (ok raw, s) = (ok (Option.get_or raw 0), s)
    counter (err e, s) = (err e, s)

    unfoldable pub generation : ℕ → Text → Backend → CacheResult ℕ × Backend
    unfolding generation_key counter
    generation now namespace m =
        with_client m (counter (c.get_u64 now (generation_key namespace m) m.client))

    unfoldable pub bump_generation : ℕ → Text → Backend → CacheResult ℕ × Backend
    unfolding generation_key client_incr
    bump_generation now namespace m =
        with_client m (client_incr now (generation_key namespace m) m.client)

    -- impl CacheBackend for MemcachedCacheBackend
    abbrev pub memcached_backend : CacheBackend
    memcached_backend = record {
      State = Backend;
      get = get;
      put = put;
      generation = generation;
      bump_generation = bump_generation;
    }
