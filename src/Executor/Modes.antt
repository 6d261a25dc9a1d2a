-- ===== src/Executor/Modes.antt =====
-- What the hooks leave alone, by the kind of statement, the transaction and the policy.
use rbatis_cache.Common.{
  ℕ, ◌≡◌, refl, true, false, List, [], ◌∷◌, ◌++◌, ascii, Text, Result, ok, err, arith, text_key,
  id_key,
}
use rbatis_cache.Backend.{CacheBackend}
use rbatis_cache.Executor.Types.{
  Executor, Error, RbatisCacheInterceptor, is_cacheable, is_in_transaction, build_key_input,
  resolve_key,
}
use rbatis_cache.Executor.Before.{next, before_query, buffered, after_pending}
use rbatis_cache.Executor.After.{
  after_query, is_deferring, complete, fill_l1, fill, buffer_or_store,
}
use rbatis_cache.External.{External}
use rbatis_cache.Key.{CacheKey}
use rbatis_cache.Policy.{bypass}
use rbatis_cache.Shared.{State}
use rbatis_cache.Sql
use rbatis_cache.Sql.Laws.{is_cacheable_locking}

module _ (x : External) (b : CacheBackend) (self : RbatisCacheInterceptor) where
  -- A statement that may not be cached passes both hooks untouched.
  uncacheable_passes :
      (wait : State x b → State x b) (task_id : ℕ) (rb : Executor) (sql : Text)
      (args : List x.Value) (query_result : Result Error x.Value) (s : State x b)
      → is_cacheable x self.policy sql ≡ false
      → (before_query x b self wait task_id rb sql args s ≡ (ok next, s))
        × (after_query x b self task_id rb sql args query_result s ≡ (ok tt, s))
  unfolding before_query after_query
  uncacheable_passes wait task_id rb sql args query_result s h = (rw h, rw h)

  locking_not_cacheable :
      (sql before lock after : Text) (statement : x.Statement)
      → x.parse_sql sql ≡ ok (statement ∷ [])
      → x.render statement ≡ before ++ (lock ++ after)
      → Sql.to_ascii_lowercase lock ≡ ascii "for update"
      → is_cacheable x self.policy sql ≡ false
  unfolding is_cacheable Sql.parse
  locking_not_cacheable sql before lock after statement parsed rendered locks =
      rw
        (
          is_cacheable,
          Sql.parse,
          parsed,
          is_cacheable_locking x statement before lock after rendered locks,
        )
        refl

  -- SQL that parses to one statement in whose rendering by the parser `for update` stands, in
  -- whatever case and place, passes both hooks to the database without a change of any state,
  -- whatever the policy.
  pub locking-passes :
      (wait : State x b → State x b) (task_id : ℕ) (rb : Executor) (sql before lock after : Text)
      (statement : x.Statement) (args : List x.Value) (query_result : Result Error x.Value)
      (s : State x b)
      → x.parse_sql sql ≡ ok (statement ∷ [])
      → x.render statement ≡ before ++ (lock ++ after)
      → Sql.to_ascii_lowercase lock ≡ ascii "for update"
      → (before_query x b self wait task_id rb sql args s ≡ (ok next, s))
        × (after_query x b self task_id rb sql args query_result s ≡ (ok tt, s))
  locking-passes wait task_id rb sql before lock after statement args query_result s parsed rendered
        locks =
      uncacheable_passes wait task_id rb sql args query_result s
        (locking_not_cacheable sql before lock after statement parsed rendered locks)

  not_deferring :
      (rb : Executor) → self.policy.transaction_mode ≡ bypass → is_deferring x b self rb ≡ false
  unfolding is_deferring
  not_deferring rb mode = ground arith

  -- With the policy Bypass, the hook before a query in a transaction touches nothing.
  pub before_query-bypass :
      (wait : State x b → State x b) (task_id : ℕ) (rb : Executor) (sql : Text)
      (args : List x.Value) (s : State x b)
      → self.policy.transaction_mode ≡ bypass
      → is_in_transaction rb ≡ true
      → before_query x b self wait task_id rb sql args s ≡ (ok next, s)
  unfolding before_query buffered after_pending
  before_query-bypass wait task_id rb sql args s mode tx = ground arith

  complete_task :
      (task_id task_id' executor_id : ℕ) (query_result : Result Error x.Value)
      (r : Result Error CacheKey) (s : State x b)
      → complete x b self task_id executor_id false query_result r s
        ≡ complete x b self task_id' executor_id false query_result r s
  unfolding complete fill_l1 fill buffer_or_store
  complete_task task_id task_id' executor_id query_result (err e) s = refl
  complete_task task_id task_id' executor_id (err e) (ok key) s = refl
  complete_task task_id task_id' executor_id (ok value) (ok key) s = refl

  -- With the policy Bypass, the hook after a query does the same whatever the task and the name of
  -- the executor, by which a transaction is known: what a transaction read goes into both caches.
  after_query-bypass :
      (task_id task_id' : ℕ) (rb : Executor) (name' : Text) (sql : Text) (args : List x.Value)
      (query_result : Result Error x.Value) (s : State x b)
      → self.policy.transaction_mode ≡ bypass
      → after_query x b self task_id rb sql args query_result s
        ≡ after_query x b self task_id' (record rb { name = name' }) sql args query_result s
  unfolding after_query build_key_input
  after_query-bypass task_id task_id' rb name' sql args query_result s mode = ground (
    arith,
    not_deferring rb mode,
    not_deferring (record rb { name = name' }) mode,
    complete_task task_id task_id' rb.id query_result
        (resolve_key x b self (build_key_input x self.namespace rb sql args) s).0
        (resolve_key x b self (build_key_input x self.namespace rb sql args) s).1,
  )
