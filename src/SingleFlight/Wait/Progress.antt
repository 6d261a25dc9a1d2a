-- ===== src/SingleFlight/Wait/Progress.antt =====
-- No follower waits for ever, whatever becomes of the leader.
use rbatis_cache.Common.{
  ℕ, zero, suc, ◌+◌, ◌-◌, ◌≤◌, ◌≡◌, ◌≢◌, refl, sym, ◌∙◌, ap, subst, Bool, true, false, ◌==◌, ==_iff,
  if◌then◌else◌, arith, inl, inr, Bool-cases, ◌⊎◌,
}
use rbatis_cache.SingleFlight.{LoadValue, loading, done, failed}
use rbatis_cache.SingleFlight.Wait.{
  Phase, begun, holding, seen, waiting, returned, timed_out, Flight, set, wake, Step, lock,
  look_loading, look_over, register, expire, assign, notify, remove, tick, Steps, here, next, start,
}

-- A lock is some follower's, and no follower waits for longer than the timeout from now.
record IsOrderly (timeout : ℕ) (f : Flight) : Type 0 where
  held : f.locked ≡ true → (i : ℕ) × (f.followers i ≡ holding)
  soon : (i until : ℕ) → f.followers i ≡ waiting until → until ≤ f.clock + timeout

-- By steps of the followers and of the clock alone, follower `i` has left, no later than the
-- timeout from `clock`.
pub record Leaves (timeout i clock : ℕ) (f : Flight) : Type 0 where
  pub after : Flight
  pub steps : Steps timeout f after
  pub left : (after.followers i ≡ returned) ⊎ (after.followers i ≡ timed_out)
  pub in_time : after.clock ≤ clock + timeout
  pub leader : after.leader ≡ f.leader

join : {timeout : ℕ} {f g h : Flight} → Steps timeout f g → Steps timeout g h → Steps timeout f h
join a here = a
join a (next b step) = next (join a b) step

set-same : (i : ℕ) (phase : Phase) (followers : ℕ → Phase) → set i phase followers i ≡ phase
set-same i phase followers = ground (arith, ==_iff i i)

-- A step before the rest of the way.
before :
    {timeout i clock : ℕ} (f : Flight) {g : Flight}
    → Step timeout f g
    → g.leader ≡ f.leader
    → Leaves timeout i clock g
    → Leaves timeout i clock f
before f step same rest = record {
  after = rest.after;
  steps = join (next here step) rest.steps;
  left = rest.left;
  in_time = rest.in_time;
  leader = rest.leader ∙ same;
}

-- The clock goes on until the time has come.
from_waiting :
    (n timeout i clock until : ℕ) (f : Flight)
    → f.followers i ≡ waiting until
    → until ≤ f.clock + n
    → f.clock + n ≤ clock + timeout
    → Leaves timeout i clock f
from_waiting zero timeout i clock until f at h le =
    before f (expire i until f at (omega arith)) refl (record {
      after = record f { followers = set i timed_out f.followers };
      steps = here;
      left = inr (set-same i timed_out f.followers);
      in_time = omega arith;
      leader = refl;
    })
from_waiting (suc n) timeout i clock until f at h le = before f (tick f) refl (
    from_waiting n timeout i clock until (record f { clock = suc f.clock }) at (omega arith)
      (omega arith))

from_seen : (timeout i : ℕ) (f : Flight) → f.followers i ≡ seen → Leaves timeout i f.clock f
from_seen timeout i f at = before f (register i f at) refl (
    from_waiting timeout timeout i f.clock (f.clock + timeout) _
      (set-same i (waiting (f.clock + timeout)) f.followers) (omega arith) (omega arith))

-- A step of a follower in one phase leaves a follower in another phase alone.
set-other :
    (i j : ℕ) (p q phase : Phase) (followers : ℕ → Phase)
    → followers i ≡ p
    → followers j ≡ q
    → p ≢ q
    → set i phase followers j ≡ q
set-other i j p q phase followers at at' ne = elim (Bool-cases (i == j)) [
  | inl same ↦ absurd (ne (sym at ∙ ap followers ((==_iff i j).0 same) ∙ at'))
  | inr other ↦ rw other at'
]

loading-or-not : (v : LoadValue) → (v ≡ loading) ⊎ (v ≢ loading)
loading-or-not loading = inl refl
loading-or-not done = inr (λ p. cc)
loading-or-not failed = inr (λ p. cc)

-- The holder of the lock looks at the value, and lets go of the lock.
from_holding : (timeout i : ℕ) (f : Flight) → f.followers i ≡ holding → Leaves timeout i f.clock f
from_holding timeout i f at = elim (loading-or-not f.value) [
  | inl going ↦
      before f (look_loading i f at going) refl
        (from_seen timeout i _ (set-same i seen f.followers))
  | inr over ↦ before f (look_over i f at over) refl (record {
    after = record f { locked = false; followers = set i returned f.followers };
    steps = here;
    left = inl (set-same i returned f.followers);
    in_time = omega arith;
    leader = refl;
  })
]

from_free :
    (timeout i : ℕ) (f : Flight)
    → f.followers i ≡ begun
    → f.locked ≡ false
    → Leaves timeout i f.clock f
from_free timeout i f at free =
    before f (lock i f at free) refl (from_holding timeout i _ (set-same i holding f.followers))

from_begun :
    (timeout i : ℕ) (f : Flight)
    → IsOrderly timeout f
    → f.followers i ≡ begun
    → Leaves timeout i f.clock f
from_begun timeout i f orderly at = elim (Bool-cases f.locked) [
  | inr free ↦ from_free timeout i f at free
  | inl taken ↦
      let (j, at') = orderly.held taken in
      elim (loading-or-not f.value) [
        | inl going ↦ before f (look_loading j f at' going) refl (
            from_free timeout i _ (set-other j i holding begun seen f.followers at' at (λ p. cc))
              refl)
        | inr over ↦ before f (look_over j f at' over) refl (
            from_free timeout i _
              (set-other j i holding begun returned f.followers at' at (λ p. cc)) refl)
      ]
]

wake-holding : (p : Phase) → p ≡ holding → wake p ≡ holding
wake-holding p h = rw h refl

wake-waiting : (p : Phase) (until : ℕ) → wake p ≢ waiting until
wake-waiting begun until h = cc
wake-waiting holding until h = cc
wake-waiting seen until h = cc
wake-waiting (waiting u) until h = cc
wake-waiting returned until h = cc
wake-waiting timed_out until h = cc

module _ {timeout : ℕ} where
  -- A follower that is none of those that wait.
  moved-soon :
      (f : Flight) (i : ℕ) (phase : Phase)
      → ((until : ℕ) → phase ≡ waiting until → until ≤ f.clock + timeout)
      → IsOrderly timeout f
      → (j until : ℕ) → set i phase f.followers j ≡ waiting until
      → until ≤ f.clock + timeout
  moved-soon f i phase new o j until at = elim (Bool-cases (i == j)) [
    | inl same ↦
        new until
          (subst (λ (b : Bool). (if b then phase else f.followers j) ≡ waiting until) same at)
    | inr other ↦
        o.soon j until
          (subst (λ (b : Bool). (if b then phase else f.followers j) ≡ waiting until) other at)
  ]

  moved-held :
      (f : Flight) (i : ℕ) (p phase : Phase)
      → f.followers i ≡ p
      → p ≢ holding
      → IsOrderly timeout f
      → f.locked ≡ true
      → (j : ℕ) × (set i phase f.followers j ≡ holding)
  moved-held f i p phase at ne o taken =
      let (j, at') = o.held taken in (j, set-other i j p holding phase f.followers at at' ne)

  Step-IsOrderly : {f g : Flight} → Step timeout f g → IsOrderly timeout f → IsOrderly timeout g
  Step-IsOrderly (lock i f at free) o = record {
    held = λ taken. (i, set-same i holding f.followers);
    soon = moved-soon f i holding (λ until p. absurd cc) o;
  }
  Step-IsOrderly (look_loading i f at same) o = record {
    held = λ taken. absurd cc;
    soon = moved-soon f i seen (λ until p. absurd cc) o;
  }
  Step-IsOrderly (look_over i f at over) o = record {
    held = λ taken. absurd cc;
    soon = moved-soon f i returned (λ until p. absurd cc) o;
  }
  Step-IsOrderly (register i f at) o = record {
    held = moved-held f i seen (waiting (f.clock + timeout)) at (λ p. cc) o;
    soon =
        moved-soon f i (waiting (f.clock + timeout))
          (λ until p. let same : f.clock + timeout ≡ until = cc in omega arith) o;
  }
  Step-IsOrderly (expire i until f at late) o = record {
    held = moved-held f i (waiting until) timed_out at (λ p. cc) o;
    soon = moved-soon f i timed_out (λ until p. absurd cc) o;
  }
  Step-IsOrderly (assign success f at) o = record { held = o.held; soon = o.soon }
  Step-IsOrderly (notify f at) o = record {
    held = λ taken. let (j, at') = o.held taken in (j, wake-holding (f.followers j) at');
    soon = λ j until p. absurd (wake-waiting (f.followers j) until p);
  }
  Step-IsOrderly (remove f at) o = record { held = o.held; soon = o.soon }
  Step-IsOrderly (tick f) o = record {
    held = o.held;
    soon = λ j until p. let le = o.soon j until p in omega arith;
  }

  Steps-IsOrderly : {f g : Flight} → Steps timeout f g → IsOrderly timeout f → IsOrderly timeout g
  Steps-IsOrderly here o = o
  Steps-IsOrderly (next steps step) o = Step-IsOrderly step (Steps-IsOrderly steps o)

from_phase :
    (timeout i : ℕ) (phase : Phase) (f : Flight)
    → IsOrderly timeout f
    → f.followers i ≡ phase
    → Leaves timeout i f.clock f
from_phase timeout i begun f o at = from_begun timeout i f o at
from_phase timeout i holding f o at = from_holding timeout i f at
from_phase timeout i seen f o at = from_seen timeout i f at
from_phase timeout i (waiting until) f o at =
    let le = o.soon i until at in
    from_waiting (until - f.clock) timeout i f.clock until f at (omega arith) (omega arith)
from_phase timeout i returned f o at = record {
  after = f;
  steps = here;
  left = inl at;
  in_time = omega arith;
  leader = refl;
}
from_phase timeout i timed_out f o at = record {
  after = f;
  steps = here;
  left = inr at;
  in_time = omega arith;
  leader = refl;
}

-- From whatever the steps have led to, each follower can leave no later than the timeout from
-- then, by steps of the followers and of the clock alone: the leader need not come back.
pub follower-leaves :
    (timeout clock i : ℕ) (f : Flight) → Steps timeout (start clock) f → Leaves timeout i f.clock f
follower-leaves timeout clock i f steps =
    let orderly =
      Steps-IsOrderly steps (record { held = λ taken. absurd cc; soon = λ j until p. absurd cc }) in
    from_phase timeout i (f.followers i) f orderly refl
