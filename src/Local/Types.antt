-- ===== src/Local/Types.antt =====
-- The entries and the configuration of src/local/mod.rs.
use rbatis_cache.Common.{ℕ, Option, none, some, List, Text, Bytes, Duration, from_secs}

pub record Entry : Type 0 where
  pub bytes : Bytes
  pub expires_at_ms : ℕ
  pub insert_seq : ℕ
  pub last_access_seq : ℕ
  pub accesses : ℕ

abbrev pub Entries : Type 0
Entries = List (Text × Entry)

pub data EvictionStrategy : Type 0 where
  fifo lfu lru : EvictionStrategy

pub record LocalBackendConfig : Type 0 where
  pub cleanup_interval : Option Duration
  pub max_entries : Option ℕ
  pub eviction : EvictionStrategy

abbrev pub default_config : LocalBackendConfig
default_config = record {
  cleanup_interval = some (from_secs 30);
  max_entries = none;
  eviction = fifo;
}

unfoldable pub with_max_entries_fifo : ℕ → LocalBackendConfig → LocalBackendConfig
with_max_entries_fifo n c = record c { max_entries = some n; eviction = fifo }

unfoldable pub with_max_entries_lfu : ℕ → LocalBackendConfig → LocalBackendConfig
with_max_entries_lfu n c = record c { max_entries = some n; eviction = lfu }

unfoldable pub with_max_entries_lru : ℕ → LocalBackendConfig → LocalBackendConfig
with_max_entries_lru n c = record c { max_entries = some n; eviction = lru }

unfoldable pub with_cleanup_interval : Option Duration → LocalBackendConfig → LocalBackendConfig
with_cleanup_interval interval c = record c { cleanup_interval = interval }
