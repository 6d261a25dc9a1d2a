-- ===== src/SingleFlight/Wait/Laws.antt =====
-- A follower that leaves before the timeout has the load behind it.
use rbatis_cache.Common.{ℕ, ◌≡◌, ◌≢◌, refl, arith}
use rbatis_cache.SingleFlight.{loading}
use rbatis_cache.SingleFlight.Wait.{
  Phase, holding, seen, returned, timed_out, loads, Flight, set, Step, lock, look_loading,
  look_over, register, expire, assign, notify, remove, tick, Steps, here, next, start,
}

-- While the leader loads, the value says so and no follower has returned.
abbrev IsGoing : Flight → Type 0
IsGoing f = f.leader ≡ loads → (f.value ≡ loading) × ((i : ℕ) → f.followers i ≢ returned)

set-returned :
    (i : ℕ) (phase : Phase) (followers : ℕ → Phase) (j : ℕ)
    → phase ≢ returned
    → followers j ≢ returned
    → set i phase followers j ≢ returned
set-returned i phase followers j new old = ground arith

Step-IsGoing : {timeout : ℕ} {f g : Flight} → Step timeout f g → IsGoing f → IsGoing g
Step-IsGoing (lock i f at free) h =
    λ l. ((h l).0, λ j. set-returned i holding f.followers j (λ p. cc) ((h l).1 j))
Step-IsGoing (look_loading i f at same) h =
    λ l. ((h l).0, λ j. set-returned i seen f.followers j (λ p. cc) ((h l).1 j))
Step-IsGoing (look_over i f at over) h = λ l. absurd (over (h l).0)
Step-IsGoing (register i f at) h =
    λ l. ((h l).0, λ j. set-returned i _ f.followers j (λ p. cc) ((h l).1 j))
Step-IsGoing (expire i until f at late) h =
    λ l. ((h l).0, λ j. set-returned i timed_out f.followers j (λ p. cc) ((h l).1 j))
Step-IsGoing (assign success f at) h = λ l. absurd cc
Step-IsGoing (notify f at) h = λ l. absurd cc
Step-IsGoing (remove f at) h = λ l. absurd cc
Step-IsGoing (tick f) h = h

Steps-IsGoing : {timeout : ℕ} {f g : Flight} → Steps timeout f g → IsGoing f → IsGoing g
Steps-IsGoing here h = h
Steps-IsGoing (next steps step) h = Step-IsGoing step (Steps-IsGoing steps h)

-- Whatever the order of the steps, a follower that has left other than by its timeout has left after
-- the leader began to complete the load.
pub returned-over :
    (timeout clock i : ℕ) (f : Flight)
    → Steps timeout (start clock) f
    → f.followers i ≡ returned
    → f.leader ≢ loads
returned-over timeout clock i f steps left =
    λ l. (Steps-IsGoing steps (λ _. (refl, λ j p. cc)) l).1 i left
