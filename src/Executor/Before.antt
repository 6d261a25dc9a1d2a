-- ===== src/Executor/Before.antt =====
-- The hook before a statement.
use rbatis_cache.Common.{
  ℕ, suc, zero, not, ◌&&◌, Option, none, some, List, Text, Result, ok, err, text_key, id_key,
  if◌then◌else◌,
}
use rbatis_cache.Backend.{CacheBackend}
use rbatis_cache.DashMap
use rbatis_cache.Executor.Types.{
  Executor, Error, RbatisCacheInterceptor, Action, is_cacheable, is_in_transaction, build_key_input,
  resolve_key, lookup_value, failure_mode,
}
use rbatis_cache.External.{External}
use rbatis_cache.Key
use rbatis_cache.Key.{CacheKey, CacheKeyInput}
use rbatis_cache.Policy.{CacheFailureMode, fail_open, fail_closed, is_defer, is_bypass}
use rbatis_cache.Shared.{State}
use rbatis_cache.SingleFlight
use rbatis_cache.SingleFlight.{LoadRole, leader, follower}
use rbatis_cache.Transactional

-- `Ok(Action::Next)`, or `*query_result = Ok(v)` and `Ok(Action::Return)`.
pub data Verdict (Value : Type 0) : Type 0 where
  next : Verdict Value
  return_value : Value → Verdict Value

abbrev pub max_singleflight_attempts : ℕ
max_singleflight_attempts = 3

module _ (x : External) (b : CacheBackend) (self : RbatisCacheInterceptor) where
  abbrev pub Hook : Type 0
  Hook = Action x b self (Result Error (Verdict x.Value))

  -- What a transaction has put into its buffer; the key is built with the generation 0.
  unfoldable pub pending_value : ℕ → CacheKeyInput → State x b → Option x.Value
  pending_value task_id input s = elim (DashMap.get task_id s.tx_buffers) [
    | none ↦ none
    | some buf ↦ elim (Key.build x input 0) [
      | err e ↦ none
      | ok key ↦ Transactional.pending_get key.digest buf
    ]
  ]

  -- A wait for the leader is over when others have done `wait`.
  module _ (wait : State x b → State x b) (executor_id : ℕ) (input : CacheKeyInput) where
    unfoldable pub looked_again :
        (State x b → Result Error (Verdict x.Value) × State x b)
        → Result Error (Option x.Value)
        → Hook
    looked_again again (err e) s = (err e, s)
    looked_again again (ok (some v)) s = (ok (return_value v), s)
    looked_again again (ok none) s = again s

    unfoldable pub resolved_again :
        (State x b → Result Error (Verdict x.Value) × State x b) → Result Error CacheKey → Hook
    resolved_again again (err e) s = (ok next, s)
    resolved_again again (ok key) s =
        let (r, s') = lookup_value x b self executor_id key s in looked_again again r s'

    -- At the last attempt the loop ends, and the query goes to the database.
    unfoldable pub as_follower : ℕ → (State x b → Result Error (Verdict x.Value) × State x b) → Hook
    as_follower zero again s = (ok next, s)
    as_follower (suc left) again s =
        let (r, s') = resolve_key x b self input (wait s) in resolved_again again r s'

    unfoldable pub in_role :
        ℕ → (State x b → Result Error (Verdict x.Value) × State x b) → LoadRole → Hook
    in_role left again leader s = (ok next, s)
    in_role left again (follower state) s = as_follower left again s

    -- The loop of `before`, by the attempts that are left.
    unfoldable pub elect : ℕ → Text → Hook
    elect zero digest s = (ok next, s)
    elect (suc left) digest s =
        let (role, flights) = SingleFlight.try_begin_load digest s.singleflight in
        in_role left (elect left digest) role (record s { singleflight = flights })

    unfoldable pub after_lookup : CacheKey → Result Error (Option x.Value) → Hook
    after_lookup key (err e) s = (err e, s)
    after_lookup key (ok (some v)) s = (ok (return_value v), s)
    after_lookup key (ok none) s =
        if self.policy.blocking then elect max_singleflight_attempts key.digest s else (ok next, s)

    unfoldable pub unresolved : CacheFailureMode → Error → Result Error (Verdict x.Value)
    unresolved fail_open e = ok next
    unresolved fail_closed e = err e

    unfoldable pub after_resolve : Result Error CacheKey → Hook
    after_resolve (err e) s = (unresolved (failure_mode x b self) e, s)
    after_resolve (ok key) s =
        let (r, s') = lookup_value x b self executor_id key s in after_lookup key r s'

    -- L1 and L2, and the election of a leader.
    unfoldable pub consult : Hook
    consult s = let (r, s') = resolve_key x b self input s in after_resolve r s'

  -- In a transaction with the policy Defer, the buffer is looked at first.
  unfoldable pub buffered : Executor → ℕ → CacheKeyInput → State x b → Option x.Value
  buffered rb task_id input s =
      if is_in_transaction rb && is_defer self.policy.transaction_mode
      then pending_value task_id input s
      else none

  -- In a transaction with the policy Bypass, the query goes on to the database.
  unfoldable pub after_pending :
      (State x b → State x b) → Executor → CacheKeyInput → Option x.Value → Hook
  after_pending wait rb input (some v) s = (ok (return_value v), s)
  after_pending wait rb input none s =
      if is_in_transaction rb && is_bypass self.policy.transaction_mode
      then (ok next, s)
      else consult wait rb.id input s

  -- `before` for a query.
  unfoldable pub before_query : (State x b → State x b) → ℕ → Executor → Text → List x.Value → Hook
  before_query wait task_id rb sql args s =
      let input = build_key_input x self.namespace rb sql args in
      if not (is_cacheable x self.policy sql)
      then (ok next, s)
      else after_pending wait rb input (buffered rb task_id input s) s

  -- `before` for a statement that returns no rows.
  unfoldable pub before_exec : Hook
  before_exec s = (ok next, s)
