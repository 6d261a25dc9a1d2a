-- ===== src/Shared.antt =====
-- What RbatisCacheInterceptor of src/rbatis_intercept.rs and CacheTransactionListener of
-- src/listener.rs share: the backend, the caches in the process, and the table of transactions.
use rbatis_cache.Common.{ℕ, List}
use rbatis_cache.Backend.{CacheBackend}
use rbatis_cache.External.{External}
use rbatis_cache.L1.{L1Cache}
use rbatis_cache.Metrics.{CacheMetrics}
use rbatis_cache.SingleFlight.{SingleFlight}
use rbatis_cache.Transactional.{TransactionalCacheBuffer}

-- `now` is the Unix clock in milliseconds, `instant` the monotonic one in nanoseconds. A buffer of
-- the table is shared, and changed in place: it stands in the table alone.
pub record Shared (Value S : Type 0) : Type 0 where
  pub backend : S
  pub l1 : L1Cache Value
  pub singleflight : SingleFlight
  pub tx_buffers : List (ℕ × TransactionalCacheBuffer Value)
  pub metrics : CacheMetrics
  pub now : ℕ
  pub instant : ℕ

abbrev pub State : External → CacheBackend → Type 0
State x b = Shared x.Value b.State
