-- ===== src/Executor/FailOpen.antt =====
-- With the failure mode FailOpen no failure of the backend stops a query.
use rbatis_cache.Common.{
  ℕ, suc, zero, ◌≡◌, refl, inl, inr, Bool, true, false, ◌&&◌, Option, none, some, List, Text, Bytes,
  Result, ok, err, Bool-cases, if◌then◌else◌,
}
use rbatis_cache.Backend.{CacheBackend}
use rbatis_cache.Envelope
use rbatis_cache.Envelope.Types.{CacheEnvelope}
use rbatis_cache.Error.{CacheError, CacheResult}
use rbatis_cache.Executor.Types.{
  Executor, Error, RbatisCacheInterceptor, is_cacheable, is_in_transaction, lookup_value, from_l1,
  from_l2, get_failed, from_envelope, promote, failure_mode,
}
use rbatis_cache.Executor.Before.{
  Verdict, next, return_value, before_query, after_pending, consult, after_resolve, after_lookup,
  unresolved, elect, in_role, as_follower, resolved_again, looked_again, max_singleflight_attempts,
}
use rbatis_cache.External.{External}
use rbatis_cache.Key.{CacheKey, CacheKeyInput}
use rbatis_cache.Policy.{CacheFailureMode, fail_open, fail_closed, is_bypass}
use rbatis_cache.Shared.{State}
use rbatis_cache.SingleFlight.{LoadRole, leader, follower}

-- Not an error.
abbrev pub Returns {ℓ} : {E A : Type ℓ} → Result E A → Type ℓ
Returns {A} r = (a : A) × (r ≡ ok a)

module _ (x : External) (b : CacheBackend) (self : RbatisCacheInterceptor)
    (open_mode : self.policy.failure_mode ≡ fail_open) where
  get_failed-Returns :
      (mode : CacheFailureMode) (e : CacheError) (s : State x b)
      → mode ≡ fail_open
      → Returns (get_failed x b self mode e s).0
  unfolding get_failed
  get_failed-Returns fail_open e s h = (none, refl)
  get_failed-Returns fail_closed e s h = cc

  promote-Returns :
      (id : ℕ) (key : CacheKey) (r : Result Text x.Value) (s : State x b)
      → Returns (promote x b self id key r s).0
  unfolding promote
  promote-Returns id key (ok v) s = (some v, refl)
  promote-Returns id key (err e) s = (none, refl)

  from_envelope-Returns :
      (id : ℕ) (key : CacheKey) (r : CacheResult CacheEnvelope) (s : State x b)
      → Returns (from_envelope x b self id key r s).0
  unfolding from_envelope
  from_envelope-Returns id key (err e) s = (none, refl)
  from_envelope-Returns id key (ok e) s =
      elim (Bool-cases (Envelope.is_fresh s.now key.generation e)) [
        | inl fresh ↦ rw fresh (promote-Returns id key (x.decode_value e.payload) s)
        | inr stale ↦ rw stale (none, refl)
      ]

  from_l2-Returns :
      (id : ℕ) (key : CacheKey) (r : CacheResult (Option Bytes)) (s : State x b)
      → Returns (from_l2 x b self id key r s).0
  unfolding from_l2
  from_l2-Returns id key (ok (some bytes)) s = from_envelope-Returns id key _ s
  from_l2-Returns id key (ok none) s = (none, refl)
  from_l2-Returns id key (err e) s = get_failed-Returns (failure_mode x b self) e s open_mode

  from_l1-Returns :
      (id : ℕ) (key : CacheKey) (v : Option x.Value) (s : State x b)
      → Returns (from_l1 x b self id key v s).0
  unfolding from_l1
  from_l1-Returns id key (some v) s = (some v, refl)
  from_l1-Returns id key none s = from_l2-Returns id key _ _

  lookup_value-Returns :
      (id : ℕ) (key : CacheKey) (s : State x b) → Returns (lookup_value x b self id key s).0
  unfolding lookup_value
  lookup_value-Returns id key s = from_l1-Returns id key _ _

  module _ (wait : State x b → State x b) (id : ℕ) (input : CacheKeyInput) where
    looked_again-Returns :
        (again : State x b → Result Error (Verdict x.Value) × State x b)
        → ((s : State x b) → Returns (again s).0)
        → (r : Result Error (Option x.Value)) (s : State x b) → Returns r
        → Returns (looked_again x b self wait id input again r s).0
    unfolding looked_again
    looked_again-Returns again ih (err e) s (v, h) = cc
    looked_again-Returns again ih (ok (some v)) s h = (return_value v, refl)
    looked_again-Returns again ih (ok none) s h = ih s

    resolved_again-Returns :
        (again : State x b → Result Error (Verdict x.Value) × State x b)
        → ((s : State x b) → Returns (again s).0)
        → (r : Result Error CacheKey) (s : State x b)
        → Returns (resolved_again x b self wait id input again r s).0
    unfolding resolved_again
    resolved_again-Returns again ih (err e) s = (next, refl)
    resolved_again-Returns again ih (ok key) s =
        looked_again-Returns again ih _ _ (lookup_value-Returns id key s)

    in_role-Returns :
        (left : ℕ) (again : State x b → Result Error (Verdict x.Value) × State x b)
        → ((s : State x b) → Returns (again s).0)
        → (role : LoadRole) (s : State x b)
        → Returns (in_role x b self wait id input left again role s).0
    unfolding in_role as_follower
    in_role-Returns left again ih leader s = (next, refl)
    in_role-Returns zero again ih (follower state) s = (next, refl)
    in_role-Returns (suc left) again ih (follower state) s = resolved_again-Returns again ih _ _

    elect-Returns :
        (left : ℕ) (digest : Text) (s : State x b)
        → Returns (elect x b self wait id input left digest s).0
    unfolding elect
    elect-Returns zero digest s = (next, refl)
    elect-Returns (suc left) digest s =
        in_role-Returns left (elect x b self wait id input left digest) (elect-Returns left digest)
          _ _

    elect_if-Returns :
        (blocking : Bool) (digest : Text) (s : State x b)
        → Returns
            (if blocking
              then elect x b self wait id input max_singleflight_attempts digest s
              else (ok next, s)).0
    elect_if-Returns true digest s = elect-Returns max_singleflight_attempts digest s
    elect_if-Returns false digest s = (next, refl)

    after_lookup-Returns :
        (key : CacheKey) (r : Result Error (Option x.Value)) (s : State x b)
        → Returns r
        → Returns (after_lookup x b self wait id input key r s).0
    unfolding after_lookup
    after_lookup-Returns key (err e) s (v, h) = cc
    after_lookup-Returns key (ok (some v)) s h = (return_value v, refl)
    after_lookup-Returns key (ok none) s h = elect_if-Returns self.policy.blocking key.digest s

    unresolved-Returns :
        (mode : CacheFailureMode) (e : Error)
        → mode ≡ fail_open
        → Returns (unresolved x b self wait id input mode e)
    unfolding unresolved
    unresolved-Returns fail_open e h = (next, refl)
    unresolved-Returns fail_closed e h = cc

    after_resolve-Returns :
        (r : Result Error CacheKey) (s : State x b)
        → Returns (after_resolve x b self wait id input r s).0
    unfolding after_resolve
    after_resolve-Returns (err e) s = unresolved-Returns (failure_mode x b self) e open_mode
    after_resolve-Returns (ok key) s = after_lookup-Returns key _ _ (lookup_value-Returns id key s)

    consult-Returns : (s : State x b) → Returns (consult x b self wait id input s).0
    unfolding consult
    consult-Returns s = after_resolve-Returns _ _

  after_pending-Returns :
      (wait : State x b → State x b) (rb : Executor) (input : CacheKeyInput)
      (pending : Option x.Value) (s : State x b)
      → Returns (after_pending x b self wait rb input pending s).0
  unfolding after_pending
  after_pending-Returns wait rb input (some v) s = (return_value v, refl)
  after_pending-Returns wait rb input none s =
      elim (Bool-cases (is_in_transaction rb && is_bypass self.policy.transaction_mode)) [
        | inl passed ↦ rw passed (next, refl)
        | inr asked ↦ rw asked (consult-Returns wait rb.id input s)
      ]

  -- With FailOpen the hook before a query never returns an error, whatever the backend answers and
  -- however long the leader takes: the query goes to the database or is answered.
  pub before_query-fail_open :
      (wait : State x b → State x b) (task_id : ℕ) (rb : Executor) (sql : Text)
      (args : List x.Value) (s : State x b)
      → Returns (before_query x b self wait task_id rb sql args s).0
  unfolding before_query
  before_query-fail_open wait task_id rb sql args s =
      elim (Bool-cases (is_cacheable x self.policy sql)) [
        | inl cacheable ↦ rw cacheable (after_pending-Returns wait rb _ _ s)
        | inr passed ↦ rw passed (next, refl)
      ]
