-- ===== src/SingleFlight/Wait/Late.antt =====
-- A wake-up that comes before the follower has its Notified is lost.
use rbatis_cache.Common.{
  ℕ, suc, ◌+◌, ◌≤◌, ◌≡◌, ◌≢◌, sym, subst, Bool, true, false, ◌==◌, ==_iff, arith, inl, inr,
  Bool-cases,
}
use rbatis_cache.SingleFlight.{LoadValue, loading}
use rbatis_cache.SingleFlight.Wait.{
  Phase, begun, holding, seen, waiting, returned, timed_out, Leader, loads, assigned, notified,
  removed, Flight, set, Step, lock, look_loading, look_over, register, expire, assign, notify,
  remove, tick, Steps, here, next,
}

-- The leader has notified; it goes on to remove the entry.
abbrev pub HasNotified : Leader → Type 0
HasNotified loads = ⊥
HasNotified assigned = ⊥
HasNotified notified = Unit
HasNotified removed = Unit

-- A follower that has no Notified yet, and that will not see the load over.
abbrev pub IsUnaware : LoadValue → Phase → Type 0
IsUnaware value begun = value ≡ loading
IsUnaware value holding = value ≡ loading
IsUnaware value seen = Unit
IsUnaware value (waiting until) = ⊥
IsUnaware value returned = ⊥
IsUnaware value timed_out = ⊥

-- What becomes of it: it leaves by the timeout, counted from a time that is past.
abbrev IsLate : ℕ → ℕ → LoadValue → Phase → ℕ → Type 0
IsLate timeout since value begun clock = (value ≡ loading) × (since ≤ clock)
IsLate timeout since value holding clock = (value ≡ loading) × (since ≤ clock)
IsLate timeout since value seen clock = since ≤ clock
IsLate timeout since value (waiting until) clock = since + timeout ≤ until
IsLate timeout since value returned clock = ⊥
IsLate timeout since value timed_out clock = since + timeout ≤ clock

record Lost (timeout since i : ℕ) (f : Flight) : Type 0 where
  over : HasNotified f.leader
  late : IsLate timeout since f.value (f.followers i) f.clock

-- One follower goes to another phase.
IsLate-set :
    (timeout since i j : ℕ) (value : LoadValue) (phase : Phase) (followers : ℕ → Phase) (clock : ℕ)
    → ((i ≡ j) → IsLate timeout since value phase clock)
    → IsLate timeout since value (followers j) clock
    → IsLate timeout since value (set i phase followers j) clock
IsLate-set timeout since i j value phase followers clock new old = elim (Bool-cases (i == j)) [
  | inl same ↦ rw same (new ((==_iff i j).0 same))
  | inr other ↦ rw other old
]

at-phase :
    (timeout since value : _) (i j clock : ℕ) (phase : Phase) (followers : ℕ → Phase)
    → i ≡ j
    → followers i ≡ phase
    → IsLate timeout since value (followers j) clock
    → IsLate timeout since value phase clock
at-phase timeout since value i j clock phase followers same at h =
    subst (λ p. IsLate timeout since value p clock) at
      (subst (λ k. IsLate timeout since value (followers k) clock) (sym same) h)

IsLate-tick :
    (timeout since clock : ℕ) (value : LoadValue) (phase : Phase)
    → IsLate timeout since value phase clock
    → IsLate timeout since value phase (suc clock)
IsLate-tick timeout since clock value begun h = (h.0, omega (arith, h.1))
IsLate-tick timeout since clock value holding h = (h.0, omega (arith, h.1))
IsLate-tick timeout since clock value seen h = omega arith
IsLate-tick timeout since clock value (waiting until) h = h
IsLate-tick timeout since clock value timed_out h = omega arith
IsLate-tick timeout since clock value returned h = absurd h

module _ {timeout since j : ℕ} where
  moved :
      (f : Flight) (i : ℕ) (locked : Bool) (phase next_phase : Phase)
      → f.followers i ≡ phase
      → (IsLate timeout since f.value phase f.clock
          → IsLate timeout since f.value next_phase f.clock)
      → Lost timeout since j f
      → Lost timeout since j
          (record f { locked = locked; followers = set i next_phase f.followers })
  moved f i locked phase next_phase at step h = record {
    over = h.over;
    late =
        IsLate-set timeout since i j f.value next_phase f.followers f.clock
          (λ same.
            step (at-phase timeout since f.value i j f.clock phase f.followers same at h.late))
          h.late;
  }

  Step-Lost : {f g : Flight} → Step timeout f g → Lost timeout since j f → Lost timeout since j g
  Step-Lost (lock i f at free) h = moved f i true begun holding at (λ l. l) h
  Step-Lost (look_loading i f at same) h = moved f i false holding seen at (λ l. l.1) h
  Step-Lost (look_over i f at over) h =
      moved f i false holding returned at (λ l. absurd (over l.0)) h
  Step-Lost (register i f at) h =
      moved f i f.locked seen (waiting (f.clock + timeout)) at (λ l. omega arith) h
  Step-Lost (expire i until f at late) h =
      moved f i f.locked (waiting until) timed_out at (λ l. omega arith) h
  Step-Lost (assign success f at) h = absurd (subst HasNotified at h.over)
  Step-Lost (notify f at) h = absurd (subst HasNotified at h.over)
  Step-Lost (remove f at) h = record { over = tt; late = h.late }
  Step-Lost (tick f) h = record {
    over = h.over;
    late = IsLate-tick timeout since f.clock f.value (f.followers j) h.late;
  }

  Steps-Lost : {f g : Flight} → Steps timeout f g → Lost timeout since j f → Lost timeout since j g
  Steps-Lost here h = h
  Steps-Lost (next steps step) h = Step-Lost step (Steps-Lost steps h)

unaware-IsLate :
    (timeout clock : ℕ) (value : LoadValue) (phase : Phase)
    → IsUnaware value phase
    → IsLate timeout clock value phase clock
unaware-IsLate timeout clock value begun h = (h, omega arith)
unaware-IsLate timeout clock value holding h = (h, omega arith)
unaware-IsLate timeout clock value seen h = omega arith
unaware-IsLate timeout clock value (waiting until) h = absurd h
unaware-IsLate timeout clock value returned h = absurd h
unaware-IsLate timeout clock value timed_out h = absurd h

-- Where the leader has notified and a follower has no Notified yet, and has seen the load going
-- on or finds the value still saying so, the follower does not leave but by its timeout, which
-- ends no earlier than the timeout after that time.
pub unaware-times_out :
    (timeout i : ℕ) (f g : Flight)
    → HasNotified f.leader
    → IsUnaware f.value (f.followers i)
    → Steps timeout f g
    → (g.followers i ≢ returned) × (g.followers i ≡ timed_out → f.clock + timeout ≤ g.clock)
unaware-times_out timeout i f g over unaware steps =
    let lost : Lost timeout f.clock i g = Steps-Lost steps (record {
      over = over;
      late = unaware-IsLate timeout f.clock f.value (f.followers i) unaware;
    }) in
    (
      λ left. subst (λ p. IsLate timeout f.clock g.value p g.clock) left lost.late,
      λ left. subst (λ p. IsLate timeout f.clock g.value p g.clock) left lost.late,
    )
