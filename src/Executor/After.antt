-- ===== src/Executor/After.antt =====
-- The hook after a statement.
use rbatis_cache.Common.{
  ℕ, Bool, not, ◌&&◌, none, some, List, Text, Duration, ascii, ◌++◌, Result, ok, err, is_ok,
  text_key, id_key, ltb, if◌then◌else◌,
}
use rbatis_cache.Backend.{CacheBackend}
use rbatis_cache.DashMap
use rbatis_cache.Error.{CacheError, CacheResult, display}
use rbatis_cache.Executor.Types.{
  Executor, Error, RbatisCacheInterceptor, Action, count, is_cacheable, is_in_transaction, is_empty,
  build_key_input, resolve_key, store_value, failure_mode,
}
use rbatis_cache.External.{External}
use rbatis_cache.Key.{CacheKey}
use rbatis_cache.L1
use rbatis_cache.Metrics
use rbatis_cache.Policy.{CacheFailureMode, fail_open, fail_closed, is_defer}
use rbatis_cache.Shared.{State}
use rbatis_cache.SingleFlight
use rbatis_cache.Transactional

module _ (x : External) (b : CacheBackend) (self : RbatisCacheInterceptor) where
  -- `Ok(Action::Next)` is the only action of the hook.
  abbrev pub Hook : Type 0
  Hook = Action x b self (Result Error (Unit {0}))

  abbrev empty_value : x.Value → Bool
  empty_value value = is_empty (x.shape value)

  abbrev pub ttl_of : x.Value → Duration
  ttl_of value =
      if is_empty (x.shape value)
      then (elim self.policy.null_ttl [ none ↦ self.policy.ttl | some ttl ↦ ttl ])
      else self.policy.ttl

  -- In a deferring transaction the buffer of the task takes the entry, if there is one.
  unfoldable pub buffer_or_store : ℕ → Bool → CacheKey → x.Value → Hook
  buffer_or_store task_id deferring key value s =
      let store = store_value x b self key value (ttl_of value) s in
      if deferring
      then (elim (DashMap.get task_id s.tx_buffers) [
        | none ↦ store
        | some buf ↦ (
          ok tt,
          record s {
            tx_buffers = DashMap.update task_id (Transactional.put key value) s.tx_buffers;
          },
        )
      ])
      else store

  unfoldable pub fill : ℕ → Bool → CacheKey → x.Value → Hook
  fill task_id deferring key value s =
      if not self.policy.cache_null && is_empty (x.shape value)
      then (ok tt, s)
      else buffer_or_store task_id deferring key value s

  unfoldable pub fill_l1 : ℕ → ℕ → Bool → CacheKey → Result Error x.Value → Hook
  fill_l1 task_id executor_id deferring key (err e) s = (ok tt, s)
  fill_l1 task_id executor_id deferring key (ok value) s =
      fill task_id deferring key value
        (record s { l1 = L1.put s.instant executor_id key.digest value s.l1 })

  unfoldable pub complete : ℕ → ℕ → Bool → Result Error x.Value → Result Error CacheKey → Hook
  complete task_id executor_id deferring query_result (err e) s = (ok tt, s)
  complete task_id executor_id deferring query_result (ok key) s =
      fill_l1 task_id executor_id deferring key query_result (record s {
        singleflight = SingleFlight.complete_load key.digest (is_ok query_result) s.singleflight;
      })

  -- Results of a transaction are kept back by the policy Defer.
  unfoldable pub is_deferring : Executor → Bool
  is_deferring rb = is_in_transaction rb && is_defer self.policy.transaction_mode

  -- `after` for a query.
  unfoldable pub after_query : ℕ → Executor → Text → List x.Value → Result Error x.Value → Hook
  after_query task_id rb sql args query_result s =
      let (r, s') = resolve_key x b self (build_key_input x self.namespace rb sql args) s in
      if not (is_cacheable x self.policy sql)
      then (ok tt, s)
      else complete task_id rb.id (is_deferring rb) query_result r s'

  unfoldable pub bump_failed : CacheFailureMode → CacheError → Hook
  bump_failed fail_open e s = (ok tt, count x b self Metrics.record_backend_error s)
  bump_failed fail_closed e s = (
    err (ascii "[rbatis-cache] invalidate fail-closed: " ++ display e),
    count x b self Metrics.record_backend_error s,
  )

  unfoldable pub after_bump : CacheResult ℕ → Hook
  after_bump (ok generation) s = (ok tt, count x b self Metrics.record_invalidation s)
  after_bump (err e) s = bump_failed (failure_mode x b self) e s

  unfoldable pub mark_namespace : ℕ → State x b → State x b
  mark_namespace task_id s = record s {
    tx_buffers = DashMap.update task_id (Transactional.clear_namespace self.namespace) s.tx_buffers;
  }

  unfoldable pub invalidate : ℕ → Bool → Hook
  invalidate task_id in_tx s =
      let (r, backend) = b.bump_generation s.now self.namespace s.backend in
      if in_tx
      then (ok tt, if is_defer self.policy.transaction_mode then mark_namespace task_id s else s)
      else after_bump r (record s { backend = backend })

  -- `after` for a statement that returns no rows: `rows_affected`, or an error.
  unfoldable pub after_exec : ℕ → Executor → Result Error ℕ → Hook
  after_exec task_id rb (err e) s = (ok tt, s)
  after_exec task_id rb (ok rows_affected) s =
      if ltb 0 rows_affected
      then invalidate task_id (is_in_transaction rb)
          (record s { l1 = L1.clear_for_executor rb.id s.l1 })
      else (ok tt, s)
