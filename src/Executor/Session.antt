-- ===== src/Executor/Session.antt =====
-- The L1 cache between two statements of one executor.
use rbatis_cache.Common.{ℕ, ◌<◌, ◌+◌, ◌≡◌, refl, true, false, List, Text, ok, err, some}
use rbatis_cache.Backend.{CacheBackend}
use rbatis_cache.Executor.Types.{
  Executor, RbatisCacheInterceptor, is_cacheable, is_in_transaction, build_key_input, resolve_key,
  key_at, generation_failed, lookup_value, from_l1,
}
use rbatis_cache.Executor.Before.{
  return_value, before_query, buffered, after_pending, consult, after_resolve, after_lookup,
}
use rbatis_cache.External.{External}
use rbatis_cache.Key.{CacheKey, CacheKeyInput}
use rbatis_cache.Error.{CacheResult}
use rbatis_cache.Policy.{CacheFailureMode, fail_open, fail_closed}
use rbatis_cache.L1
use rbatis_cache.L1.Laws.{get-put_any_digest}
use rbatis_cache.Shared.{State}

module _ (x : External) (b : CacheBackend) (self : RbatisCacheInterceptor) where
  key_at-l1 :
      (input : CacheKeyInput) (r : CacheResult ℕ) (s : State x b)
      → ((key_at x b self input r s).1.l1 ≡ s.l1)
        × ((key_at x b self input r s).1.instant ≡ s.instant)
  unfolding key_at generation_failed
  key_at-l1 input (ok g) s = (refl, refl)
  key_at-l1 input (err e) s = failed self.policy.failure_mode
    where
      failed :
          (mode : CacheFailureMode)
          → ((generation_failed x b self mode e s).1.l1 ≡ s.l1)
            × ((generation_failed x b self mode e s).1.instant ≡ s.instant)
      failed fail_open = (refl, refl)
      failed fail_closed = (refl, refl)

  resolve_key-l1 :
      (input : CacheKeyInput) (s : State x b)
      → ((resolve_key x b self input s).1.l1 ≡ s.l1)
        × ((resolve_key x b self input s).1.instant ≡ s.instant)
  unfolding resolve_key
  resolve_key-l1 input s = key_at-l1 input _ _

  lookup_value-l1 :
      (id : ℕ) (key : CacheKey) (v : x.Value) (s : State x b)
      → (L1.get s.instant id key.digest s.l1).0 ≡ some v
      → (lookup_value x b self id key s).0 ≡ ok (some v)
  unfolding lookup_value from_l1
  lookup_value-l1 id key v s h = rw (h, from_l1) refl

  -- Within the TTL of the L1 cache, the value that was put there for an executor, under whatever
  -- digest, is the answer to every statement of that executor that may be cached and whose key can
  -- be resolved, outside a transaction.
  pub before_query-l1 :
      (wait : State x b → State x b) (task_id put_at : ℕ) (rb : Executor) (sql : Text)
      (args : List x.Value) (digest : Text) (key : CacheKey) (v : x.Value) (s : State x b)
      → is_cacheable x self.policy sql ≡ true
      → is_in_transaction rb ≡ false
      → s.instant < put_at + s.l1.ttl
      → (resolve_key x b self
          (build_key_input x self.namespace rb sql args)
          (record s { l1 = L1.put put_at rb.id digest v s.l1 })).0
        ≡ ok key
      → (before_query x b self wait task_id rb sql args
          (record s { l1 = L1.put put_at rb.id digest v s.l1 })).0
        ≡ ok (return_value v)
  unfolding before_query buffered after_pending consult after_resolve after_lookup
  before_query-l1 wait task_id put_at rb sql args digest key v s cacheable outside live resolved =
      let filled : State x b = record s { l1 = L1.put put_at rb.id digest v s.l1 } in
      let input = build_key_input x self.namespace rb sql args in
      let (same_l1, same_instant) = resolve_key-l1 input filled in
      let hit : (L1.get (resolve_key x b self input filled).1.instant rb.id key.digest
            (resolve_key x b self input filled).1.l1).0
          ≡ some v =
        rw (same_l1, same_instant)
          (get-put_any_digest put_at s.instant rb.id digest key.digest v s.l1 live) in
      rw
        (
          cacheable,
          outside,
          resolved,
          lookup_value-l1 rb.id key v (resolve_key x b self input filled).1 hit,
          outside,
        )
        refl
