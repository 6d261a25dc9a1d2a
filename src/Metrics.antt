-- ===== src/Metrics.antt =====
-- src/metrics.rs: the counters of an interceptor. `fetch_add` wraps at 2^64.
use rbatis_cache.Common.{ℕ, wrapping_add}

pub record CacheMetrics : Type 0 where
  pub hits : ℕ
  pub misses : ℕ
  pub bypasses : ℕ
  pub backend_errors : ℕ
  pub loads : ℕ
  pub invalidations : ℕ

abbrev pub new : CacheMetrics
new = record {
  hits = 0;
  misses = 0;
  bypasses = 0;
  backend_errors = 0;
  loads = 0;
  invalidations = 0;
}

unfoldable pub record_hit : CacheMetrics → CacheMetrics
record_hit m = record m { hits = wrapping_add m.hits 1 }

unfoldable pub record_miss : CacheMetrics → CacheMetrics
record_miss m = record m { misses = wrapping_add m.misses 1 }

unfoldable pub record_bypass : CacheMetrics → CacheMetrics
record_bypass m = record m { bypasses = wrapping_add m.bypasses 1 }

unfoldable pub record_backend_error : CacheMetrics → CacheMetrics
record_backend_error m = record m { backend_errors = wrapping_add m.backend_errors 1 }

unfoldable pub record_load : CacheMetrics → CacheMetrics
record_load m = record m { loads = wrapping_add m.loads 1 }

unfoldable pub record_invalidation : CacheMetrics → CacheMetrics
record_invalidation m = record m { invalidations = wrapping_add m.invalidations 1 }
