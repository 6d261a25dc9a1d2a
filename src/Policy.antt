-- ===== src/Policy.antt =====
-- src/policy.rs and the policy of src/backend.rs.
use rbatis_cache.Common.{ℕ, ◌*◌, Bool, true, false, Option, none, some, Text, Duration, from_secs}

pub data CacheFailureMode : Type 0 where
  fail_open fail_closed : CacheFailureMode

pub data TransactionCacheMode : Type 0 where
  bypass defer : TransactionCacheMode

-- The closure that a UseCacheFilter wraps.
abbrev pub UseCacheFilter : Type 0
UseCacheFilter = Text → Bool

unfoldable pub check : UseCacheFilter → Text → Bool
check filter sql = filter sql

pub data InvalidationStrategy : Type 0 where
  namespace_generation table_generation : InvalidationStrategy

pub record CachePolicy : Type 0 where
  pub ttl : Duration
  pub max_value_size : ℕ
  pub invalidation : InvalidationStrategy
  pub cache_null : Bool
  pub null_ttl : Option Duration
  pub failure_mode : CacheFailureMode
  pub transaction_mode : TransactionCacheMode
  pub use_cache_filter : Option UseCacheFilter
  pub blocking : Bool
  pub l1_max_entries : ℕ

abbrev pub default_policy : CachePolicy
default_policy = record {
  ttl = from_secs 300;
  max_value_size = 1024 * 1024;
  invalidation = namespace_generation;
  cache_null = true;
  null_ttl = some (from_secs 10);
  failure_mode = fail_open;
  transaction_mode = bypass;
  use_cache_filter = none;
  blocking = true;
  l1_max_entries = 256;
}

unfoldable pub with_ttl : Duration → CachePolicy → CachePolicy
with_ttl t p = record p { ttl = t }

unfoldable pub with_cache_null : Bool → CachePolicy → CachePolicy
with_cache_null v p = record p { cache_null = v }

unfoldable pub with_null_ttl : Duration → CachePolicy → CachePolicy
with_null_ttl t p = record p { null_ttl = some t }

unfoldable pub with_failure_closed : CachePolicy → CachePolicy
with_failure_closed p = record p { failure_mode = fail_closed }

unfoldable pub with_transaction_defer : CachePolicy → CachePolicy
with_transaction_defer p = record p { transaction_mode = defer }

unfoldable pub with_use_cache_filter : UseCacheFilter → CachePolicy → CachePolicy
with_use_cache_filter f p = record p { use_cache_filter = some f }

unfoldable pub without_blocking : CachePolicy → CachePolicy
without_blocking p = record p { blocking = false }

unfoldable pub with_l1_max_entries : ℕ → CachePolicy → CachePolicy
with_l1_max_entries n p = record p { l1_max_entries = n }

-- `self.policy.transaction_mode == TransactionCacheMode::Defer`, and the same test for `Bypass`.
abbrev pub is_defer : TransactionCacheMode → Bool
is_defer bypass = false
is_defer defer = true

abbrev pub is_bypass : TransactionCacheMode → Bool
is_bypass bypass = true
is_bypass defer = false
