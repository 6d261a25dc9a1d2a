-- ===== src/Moka.antt =====
-- MokaCacheBackend of rbatis-cache-moka/src/lib.rs, over a moka cache that is a parameter. A method
-- takes the clock that it reads.
pub mod Contract
use rbatis_cache.Common.{
  ℕ, Bool, Option, none, some, ◌++◌, Text, Bytes, ascii, Duration, from_secs, saturating_add,
  wrapping_add, to_le_bytes, from_le_bytes, length, ◌==◌, if◌then◌else◌, ok,
}
use rbatis_cache.Error.{CacheResult}
use rbatis_cache.Backend.{CacheBackend}

pub record MokaCacheConfig : Type 0 where
  pub max_capacity : ℕ
  pub ttl : Duration
  pub tti : Option Duration

abbrev pub default_config : MokaCacheConfig
default_config = record { max_capacity = 10000; ttl = from_secs 300; tti = none }

unfoldable pub with_max_capacity : ℕ → MokaCacheConfig → MokaCacheConfig
with_max_capacity n c = record c { max_capacity = n }

unfoldable pub with_ttl : Duration → MokaCacheConfig → MokaCacheConfig
with_ttl ttl c = record c { ttl = ttl }

unfoldable pub with_tti : Duration → MokaCacheConfig → MokaCacheConfig
with_tti tti c = record c { tti = some tti }

-- moka::future::Cache: the builder with a capacity, a time to live and a time to idle, and get and
-- insert, which may both evict. blake3::hash(..).to_hex() is a parameter too.
pub record Moka : Type 1 where
  pub Cache : Type 0
  pub build : ℕ → Duration → Option Duration → Cache
  pub get : ℕ → Text → Cache → Option Bytes × Cache
  pub insert : ℕ → Text → Bytes → Cache → Cache
  pub blake3_hex : Bytes → Text

pub record MokaCacheBackend (Cache : Type 0) : Type 0 where
  pub cache : Cache
  pub namespace : Text
  pub generation : ℕ
  pub config : MokaCacheConfig

module _ (m : Moka) where
  unfoldable pub new : Text → MokaCacheConfig → MokaCacheBackend m.Cache
  new namespace config = record {
    cache = m.build config.max_capacity config.ttl config.tti;
    namespace = namespace;
    generation = 0;
    config = config;
  }

  unfoldable pub entry_key : Text → MokaCacheBackend m.Cache → Text
  entry_key digest b = b.namespace ++ (ascii ":entry:" ++ digest)

  unfoldable pub generation_key : Text → MokaCacheBackend m.Cache → Text
  generation_key namespace b = b.namespace ++ (ascii ":generation:" ++ m.blake3_hex namespace)

  unfoldable pub get :
      ℕ → Text → MokaCacheBackend m.Cache → CacheResult (Option Bytes) × MokaCacheBackend m.Cache
  unfolding entry_key
  get now key b =
      let (found, cache) = m.get now (entry_key key b) b.cache in
      (ok found, record b { cache = cache })

  -- The TTL of the call is not used.
  unfoldable pub put :
      ℕ
      → Text
      → Bytes
      → Duration
      → MokaCacheBackend m.Cache
      → CacheResult (Unit {0}) × MokaCacheBackend m.Cache
  unfolding entry_key
  put now key value ttl b =
      (ok tt, record b { cache = m.insert now (entry_key key b) value b.cache })

  -- Eight bytes are a u64; anything else counts as none.
  abbrev pub counted : Option Bytes → ℕ
  counted none = 0
  counted (some bytes) = if length bytes == 8 then from_le_bytes bytes else 0

  unfoldable pub generation :
      ℕ → Text → MokaCacheBackend m.Cache → CacheResult ℕ × MokaCacheBackend m.Cache
  unfolding generation_key
  generation now namespace b =
      let (found, cache) = m.get now (generation_key namespace b) b.cache in
      (ok (counted found), record b { cache = cache })

  unfoldable pub bump_generation :
      ℕ → Text → MokaCacheBackend m.Cache → CacheResult ℕ × MokaCacheBackend m.Cache
  unfolding generation_key
  bump_generation now namespace b =
      let bumped = saturating_add b.generation 1 in
      (
        ok bumped,
        record b {
          generation = wrapping_add b.generation 1;
          cache = m.insert now (generation_key namespace b) (to_le_bytes bumped) b.cache;
        },
      )

  -- impl CacheBackend for MokaCacheBackend
  abbrev pub moka_backend : CacheBackend
  moka_backend = record {
    State = MokaCacheBackend m.Cache;
    get = get;
    put = put;
    generation = generation;
    bump_generation = bump_generation;
  }
