-- ===== src/Executor/Deferred.antt =====
-- What a transaction that defers its writes finds of its own.
use rbatis_cache.Common.{
  ℕ, ◌≡◌, refl, ◌∙◌, inl, inr, true, false, some, Option, List, Text, not, ◌&&◌, ok, text_same,
  id_key, text_key, if◌then◌else◌, Bool-cases,
}
use rbatis_cache.Backend.{CacheBackend}
use rbatis_cache.DashMap
use rbatis_cache.DashMap.{get-insert, get-update, same_self}
use rbatis_cache.Executor.Types.{
  Executor, RbatisCacheInterceptor, is_cacheable, is_empty, build_key_input,
}
use rbatis_cache.Executor.Before.{
  pending_value, before_query, buffered, after_pending, return_value,
}
use rbatis_cache.Executor.After.{
  after_query, complete, fill_l1, fill, buffer_or_store, is_deferring,
}
use rbatis_cache.Executor.Resolve.{resolve_key-built}
use rbatis_cache.External.{External}
use rbatis_cache.Key
use rbatis_cache.Key.{CacheKey}
use rbatis_cache.Shared.{State}
use rbatis_cache.L1
use rbatis_cache.SingleFlight
use rbatis_cache.Transactional
use rbatis_cache.Transactional.{TransactionalCacheBuffer}

module _ (x : External) (b : CacheBackend) (self : RbatisCacheInterceptor) where
  -- The buffer after a `put`, at any digest.
  pending_get-put :
      (digest : Text) (key : CacheKey) (value : x.Value) (buf : TransactionalCacheBuffer x.Value)
      → Transactional.pending_get digest (Transactional.put key value buf)
        ≡ (if text_same key.digest digest then some value else Transactional.pending_get digest buf)
  unfolding Transactional.pending_get Transactional.put
  pending_get-put digest key value buf = elim (Bool-cases (text_same key.digest digest)) [
    | inl same ↦ rw (get-insert key.digest digest (key, value) buf.pending_add, same) refl
    | inr other ↦ rw (get-insert key.digest digest (key, value) buf.pending_add, other) refl
  ]

  pending_value-buffer :
      (task_id : ℕ) (input : Key.CacheKeyInput) (key : CacheKey)
      (buf : TransactionalCacheBuffer x.Value) (s : State x b)
      → DashMap.get task_id s.tx_buffers ≡ some buf
      → Key.build x input 0 ≡ ok key
      → pending_value x b self task_id input s ≡ Transactional.pending_get key.digest buf
  unfolding pending_value
  pending_value-buffer task_id input key buf s there built = rw (pending_value, there, built) refl

  -- The state after the entry has gone into the buffer.
  abbrev kept_back : ℕ → ℕ → CacheKey → x.Value → State x b → State x b
  kept_back task_id id key value s = record s {
    backend = (b.generation s.now self.namespace s.backend).1;
    singleflight = SingleFlight.complete_load key.digest true s.singleflight;
    l1 = L1.put s.instant id key.digest value s.l1;
    tx_buffers = DashMap.update task_id (Transactional.put key value) s.tx_buffers;
  }

  kept_back-get :
      (task_id id : ℕ) (key : CacheKey) (value : x.Value) (buf : TransactionalCacheBuffer x.Value)
      (s : State x b)
      → DashMap.get task_id s.tx_buffers ≡ some buf
      → DashMap.get task_id (kept_back task_id id key value s).tx_buffers
        ≡ some (Transactional.put key value buf)
  kept_back-get task_id id key value buf s there =
      rw
        (
          get-update task_id task_id (Transactional.put key value) s.tx_buffers,
          same_self task_id,
          there,
        )
        refl

  after_query-kept_back :
      (task_id : ℕ) (rb : Executor) (sql : Text) (args : List x.Value) (value : x.Value) (g : ℕ)
      (key : CacheKey) (buf : TransactionalCacheBuffer x.Value) (s : State x b)
      → is_cacheable x self.policy sql ≡ true
      → is_deferring x b self rb ≡ true
      → not self.policy.cache_null && is_empty (x.shape value) ≡ false
      → DashMap.get task_id s.tx_buffers ≡ some buf
      → (b.generation s.now self.namespace s.backend).0 ≡ ok g
      → Key.build x (build_key_input x self.namespace rb sql args) g ≡ ok key
      → (after_query x b self task_id rb sql args (ok value) s).1
        ≡ kept_back task_id rb.id key value s
  unfolding after_query complete fill_l1 fill buffer_or_store build_key_input
  after_query-kept_back task_id rb sql args value g key buf s cacheable deferring kept there gen
        built =
      rw
        (
          resolve_key-built x b self g (build_key_input x self.namespace rb sql args) key s gen
              built,
          cacheable,
          deferring,
          kept,
          there,
        )
        refl

  before_query-pending :
      (wait : State x b → State x b) (task_id : ℕ) (rb : Executor) (sql : Text)
      (args : List x.Value) (pending : Option x.Value) (after : State x b)
      → is_cacheable x self.policy sql ≡ true
      → is_deferring x b self rb ≡ true
      → pending_value x b self task_id (build_key_input x self.namespace rb sql args) after
        ≡ pending
      → before_query x b self wait task_id rb sql args after
        ≡ after_pending x b self wait rb
            (build_key_input x self.namespace rb sql args)
            pending
            after
  unfolding before_query buffered is_deferring
  before_query-pending wait task_id rb sql args pending after cacheable deferring found =
      rw (cacheable, deferring, found) refl

  -- In a deferring transaction with a buffer, when the backend returns the generation g: the hook
  -- after a query that may be cached, and whose result is not an empty one that the policy does
  -- not cache, leaves the backend as the reading of the generation left it. The next hook of the
  -- task before the same query answers it with that result if the key of generation 0 has the
  -- same digest as the key of generation g; if not, it goes on with what the buffer had under the
  -- key of generation 0 before.
  pub before_query-after_query :
      (wait : State x b → State x b) (task_id : ℕ) (rb : Executor) (sql : Text)
      (args : List x.Value) (value : x.Value) (g : ℕ) (key key0 : CacheKey)
      (buf : TransactionalCacheBuffer x.Value) (s : State x b)
      → is_cacheable x self.policy sql ≡ true
      → is_deferring x b self rb ≡ true
      → not self.policy.cache_null && is_empty (x.shape value) ≡ false
      → DashMap.get task_id s.tx_buffers ≡ some buf
      → (b.generation s.now self.namespace s.backend).0 ≡ ok g
      → Key.build x (build_key_input x self.namespace rb sql args) g ≡ ok key
      → Key.build x (build_key_input x self.namespace rb sql args) 0 ≡ ok key0
      → let after = (after_query x b self task_id rb sql args (ok value) s).1 in
        (after.backend ≡ (b.generation s.now self.namespace s.backend).1)
        × (before_query x b self wait task_id rb sql args after ≡ (
            if text_same key.digest key0.digest
            then (ok (return_value value), after)
            else after_pending x b self wait rb
                (build_key_input x self.namespace rb sql args)
                (Transactional.pending_get key0.digest buf)
                after))
  unfolding after_pending
  before_query-after_query wait task_id rb sql args value g key key0 buf s cacheable deferring kept
        there gen built built0 =
      let state =
        after_query-kept_back task_id rb sql args value g key buf s cacheable deferring kept there
          gen built in
      let after = kept_back task_id rb.id key value s in
      let kept_buf : DashMap.get task_id after.tx_buffers ≡ some (Transactional.put key value buf) =
        kept_back-get task_id rb.id key value buf s there in
      let pending =
        pending_value-buffer task_id (build_key_input x self.namespace rb sql args) key0
          (Transactional.put key value buf) after kept_buf built0
        ∙ pending_get-put key0.digest key value buf in
      rw state (
        refl,
        before_query-pending wait task_id rb sql args
              (if text_same key.digest key0.digest
                then some value
                else Transactional.pending_get key0.digest buf)
              after cacheable deferring pending
            ∙ (elim (Bool-cases (text_same key.digest key0.digest)) [
              | inl same ↦ rw same refl
              | inr other ↦ rw other refl
            ]),
      )
