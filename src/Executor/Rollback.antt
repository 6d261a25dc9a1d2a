-- ===== src/Executor/Rollback.antt =====
-- A deferring transaction from its begin to its rollback.
use rbatis_cache.Common.{
  ℕ, ◌≡◌, refl, ◌∙◌, inl, inr, true, none, some, List, [], ◌∷◌, Text, not, ◌&&◌, Result, ok, err,
  id_key, arith, ltb, Bool-cases,
}
use rbatis_cache.Backend.{CacheBackend}
use rbatis_cache.DashMap
use rbatis_cache.DashMap.{get-update, get-insert_self, get-remove, same_self}
use rbatis_cache.Error.{CacheError, CacheResult}
use rbatis_cache.Executor.Types.{
  Executor, Error, RbatisCacheInterceptor, is_cacheable, is_in_transaction, is_empty,
  build_key_input, resolve_key, key_at, generation_failed, failure_mode,
}
use rbatis_cache.Executor.After.{
  after_query, after_exec, complete, fill_l1, fill, buffer_or_store, is_deferring, invalidate,
  mark_namespace,
}
use rbatis_cache.External.{External}
use rbatis_cache.Key.{CacheKey, CacheKeyInput}
use rbatis_cache.Listener.{CacheTransactionListener, begin, rollback, handle, on_event, on_begin}
use rbatis_cache.Policy.{CacheFailureMode, fail_open, fail_closed, defer, is_defer}
use rbatis_cache.Shared.{State}
use rbatis_cache.Transactional
use rbatis_cache.Transactional.{TransactionalCacheBuffer}

-- What a transaction runs: a query or another statement, with what the database answered.
pub data Statement (x : External) : Type 0 where
  query : Text → List x.Value → Result Error x.Value → Statement x
  exec : Result Error ℕ → Statement x

module _ (x : External) (b : CacheBackend) (self : RbatisCacheInterceptor) (task_id : ℕ)
    (rb : Executor) where
  -- The hook after a statement.
  unfoldable pub after : Statement x → State x b → State x b
  after (query sql args result) s = (after_query x b self task_id rb sql args result s).1
  after (exec result) s = (after_exec x b self task_id rb result s).1

  unfoldable pub after_all : List (Statement x) → State x b → State x b
  unfolding after
  after_all [] s = s
  after_all (statement ∷ rest) s = after_all rest (after statement s)

  -- The backend is as it was, and the task has a buffer.
  abbrev IsHeld : b.State → State x b → Type 0
  IsHeld before s =
      (s.backend ≡ before)
      × ((buf : TransactionalCacheBuffer x.Value) × (DashMap.get task_id s.tx_buffers ≡ some buf))

  update-IsHeld :
      (before : b.State) (f : TransactionalCacheBuffer x.Value → TransactionalCacheBuffer x.Value)
      (s : State x b)
      → IsHeld before s
      → IsHeld before (record s { tx_buffers = DashMap.update task_id f s.tx_buffers })
  update-IsHeld before f s (same, (buf, there)) =
      (same, (f buf, ground (arith, get-update task_id task_id f s.tx_buffers, same_self task_id)))

  buffer_or_store-IsHeld :
      (before : b.State) (key : CacheKey) (value : x.Value) (s : State x b)
      → IsHeld before s
      → IsHeld before (buffer_or_store x b self task_id true key value s).1
  unfolding buffer_or_store
  buffer_or_store-IsHeld before key value s held =
      let (same, (buf, there)) = held in
      rw there (update-IsHeld before (Transactional.put key value) s held)

  fill-IsHeld :
      (before : b.State) (key : CacheKey) (value : x.Value) (s : State x b)
      → IsHeld before s
      → IsHeld before (fill x b self task_id true key value s).1
  unfolding fill
  fill-IsHeld before key value s held =
      elim (Bool-cases (not self.policy.cache_null && is_empty (x.shape value))) [
        | inl skipped ↦ rw skipped held
        | inr kept ↦ rw kept (buffer_or_store-IsHeld before key value s held)
      ]

  complete-IsHeld :
      (before : b.State) (result : Result Error x.Value) (r : Result Error CacheKey) (s : State x b)
      → IsHeld before s
      → IsHeld before (complete x b self task_id rb.id true result r s).1
  unfolding complete fill_l1
  complete-IsHeld before result (err e) s held = held
  complete-IsHeld before (err e) (ok key) s held = held
  complete-IsHeld before (ok value) (ok key) s held = fill-IsHeld before key value _ held

  generation_failed-IsHeld :
      (before : b.State) (mode : CacheFailureMode) (e : CacheError) (s : State x b)
      → IsHeld before s
      → IsHeld before (generation_failed x b self mode e s).1
  unfolding generation_failed
  generation_failed-IsHeld before fail_open e s held = held
  generation_failed-IsHeld before fail_closed e s held = held

  key_at-IsHeld :
      (before : b.State) (input : CacheKeyInput) (r : CacheResult ℕ) (s : State x b)
      → IsHeld before s
      → IsHeld before (key_at x b self input r s).1
  unfolding key_at
  key_at-IsHeld before input (ok g) s held = held
  key_at-IsHeld before input (err e) s held =
      generation_failed-IsHeld before (failure_mode x b self) e s held

  mark_namespace-IsHeld :
      (before : b.State) (s : State x b)
      → IsHeld before s
      → IsHeld before (mark_namespace x b self task_id s)
  unfolding mark_namespace
  mark_namespace-IsHeld before s held =
      update-IsHeld before (Transactional.clear_namespace self.namespace) s held

  -- The state after the begin, the statements and the rollback of a transaction.
  abbrev pub after_rollback : CacheTransactionListener → List (Statement x) → State x b → State x b
  after_rollback l statements s =
      (on_event x b l (record { event_type = rollback; tx_id = task_id })
        (after_all statements
          (on_event x b l (record { event_type = begin; tx_id = task_id }) s).1)).1

  -- A transaction that defers, over a backend whose generations are read without a trace.
  module _ (inside : is_in_transaction rb ≡ true) (mode : self.policy.transaction_mode ≡ defer)
      (silent : (now : ℕ) (namespace : Text) (s : b.State)
        → (b.generation now namespace s).1 ≡ s) where
    is_deferring-inside : is_deferring x b self rb ≡ true
    unfolding is_deferring
    is_deferring-inside = rw (inside, mode) refl

    resolve_key-IsHeld :
        (before : b.State) (input : CacheKeyInput) (s : State x b)
        → IsHeld before s
        → IsHeld before (resolve_key x b self input s).1
    unfolding resolve_key
    resolve_key-IsHeld before input s held =
        key_at-IsHeld before input (b.generation s.now input.namespace s.backend).0
          (record s { backend = (b.generation s.now input.namespace s.backend).1 })
          (silent s.now input.namespace s.backend ∙ held.0, held.1)

    after_query-IsHeld :
        (before : b.State) (sql : Text) (args : List x.Value) (result : Result Error x.Value)
        (s : State x b)
        → IsHeld before s
        → IsHeld before (after_query x b self task_id rb sql args result s).1
    unfolding after_query
    after_query-IsHeld before sql args result s held =
        elim (Bool-cases (is_cacheable x self.policy sql)) [
          | inl cacheable ↦
              rw (cacheable, is_deferring-inside)
                (complete-IsHeld before result _ _
                  (resolve_key-IsHeld before (build_key_input x self.namespace rb sql args) s held))
          | inr passed ↦ rw passed held
        ]

    after_exec-IsHeld :
        (before : b.State) (result : Result Error ℕ) (s : State x b)
        → IsHeld before s
        → IsHeld before (after_exec x b self task_id rb result s).1
    unfolding after_exec invalidate
    after_exec-IsHeld before (err e) s held = held
    after_exec-IsHeld before (ok rows) s held = elim (Bool-cases (ltb 0 rows)) [
      | inl changed ↦
          let defers : is_defer self.policy.transaction_mode ≡ true = rw mode refl in
          rw (changed, inside, defers) (mark_namespace-IsHeld before _ held)
      | inr unchanged ↦ rw unchanged held
    ]

    after_all-IsHeld :
        (before : b.State) (statements : List (Statement x)) (s : State x b)
        → IsHeld before s
        → IsHeld before (after_all statements s)
    unfolding after_all after
    after_all-IsHeld before [] s held = held
    after_all-IsHeld before (query sql args result ∷ rest) s held =
        after_all-IsHeld before rest _ (after_query-IsHeld before sql args result s held)
    after_all-IsHeld before (exec result ∷ rest) s held =
        after_all-IsHeld before rest _ (after_exec-IsHeld before result s held)

    -- Over a backend whose reading of a generation changes nothing, and with a listener that defers,
    -- the hooks after any statements of a deferring transaction, whatever the database answered, and
    -- then its rollback leave the backend as it was before the transaction, and no buffer.
    pub rollback-all :
        (l : CacheTransactionListener) (statements : List (Statement x)) (s : State x b)
        → l.defer_mode ≡ true
        → ((after_rollback l statements s).backend ≡ s.backend)
          × (DashMap.get task_id (after_rollback l statements s).tx_buffers ≡ none)
    unfolding on_event handle on_begin
    rollback-all l statements s defers =
        let started : IsHeld s.backend (handle x b l begin task_id s) = rw defers (
          refl,
          (Transactional.new l.ttl, get-insert_self task_id (Transactional.new l.ttl) s.tx_buffers),
        ) in
        let ended = after_all-IsHeld s.backend statements (handle x b l begin task_id s) started in
        let buffers = (after_all statements (handle x b l begin task_id s)).tx_buffers in
        (ended.0, rw (get-remove task_id task_id buffers, same_self task_id) refl)
