-- ===== src/SingleFlight/Wait.antt =====
-- One load of src/singleflight.rs as its leader and its followers run it, in steps that may come in
-- any order: a LoadState, where the leader is in `complete_load`, and where each follower is in
-- `LoadState::wait`. Followers are numbered; a clock counts the milliseconds. A Notified is woken by
-- the `notify_waiters` that come after it is made, as tokio documents.
pub mod Laws
pub mod Late
pub mod Progress
use rbatis_cache.Common.{
  ℕ, suc, ◌+◌, ◌≤◌, ◌≡◌, ◌≢◌, Bool, true, false, ◌==◌, if◌then◌else◌, Duration, from_secs,
  as_millis,
}
use rbatis_cache.SingleFlight.{LoadValue, loading, done, failed, outcome}

-- follower single wait limit
abbrev pub follower_wait_timeout : Duration
follower_wait_timeout = from_secs 5

-- A follower has its Arc of the state; holds the lock; has seen a load going on and let go of the
-- lock; has its Notified and waits until a time; has left, by itself or woken; has left by timeout.
pub data Phase : Type 0 where
  begun holding seen : Phase
  waiting : ℕ → Phase
  returned timed_out : Phase

-- The leader loads; has set the value, or could not; has notified; has removed the entry.
pub data Leader : Type 0 where
  loads assigned notified removed : Leader

pub record Flight : Type 0 where
  pub value : LoadValue
  pub locked : Bool
  pub leader : Leader
  pub followers : ℕ → Phase
  pub clock : ℕ

abbrev pub set : ℕ → Phase → (ℕ → Phase) → ℕ → Phase
set i phase followers j = if i == j then phase else followers j

-- `notify_waiters`
abbrev pub wake : Phase → Phase
wake begun = begun
wake holding = holding
wake seen = seen
wake (waiting until) = returned
wake returned = returned
wake timed_out = timed_out

-- A follower that is in the wait under the timeout, before and after it has looked at the state.
pub data Step (timeout : ℕ) : Flight → Flight → Type 0 where
  lock :
      (i : ℕ) (f : Flight)
      → f.followers i ≡ begun
      → f.locked ≡ false
      → Step timeout f (record f { locked = true; followers = set i holding f.followers })
  look_loading :
      (i : ℕ) (f : Flight)
      → f.followers i ≡ holding
      → f.value ≡ loading
      → Step timeout f (record f { locked = false; followers = set i seen f.followers })
  look_over :
      (i : ℕ) (f : Flight)
      → f.followers i ≡ holding
      → f.value ≢ loading
      → Step timeout f (record f { locked = false; followers = set i returned f.followers })
  register :
      (i : ℕ) (f : Flight)
      → f.followers i ≡ seen
      → Step timeout f (record f { followers = set i (waiting (f.clock + timeout)) f.followers })
  expire :
      (i until : ℕ) (f : Flight)
      → f.followers i ≡ waiting until
      → until ≤ f.clock
      → Step timeout f (record f { followers = set i timed_out f.followers })
  -- `if let Ok(mut s) = state.state.try_lock()`
  assign :
      (success : Bool) (f : Flight)
      → f.leader ≡ loads
      → Step timeout f
          (record f { value = if f.locked then f.value else outcome success; leader = assigned })
  notify :
      (f : Flight)
      → f.leader ≡ assigned
      → Step timeout f (record f { leader = notified; followers = λ i. wake (f.followers i) })
  remove : (f : Flight) → f.leader ≡ notified → Step timeout f (record f { leader = removed })
  tick : (f : Flight) → Step timeout f (record f { clock = suc f.clock })

pub data Steps (timeout : ℕ) (f : Flight) : Flight → Type 0 where
  here : Steps timeout f f
  next : {g h : Flight} → Steps timeout f g → Step timeout g h → Steps timeout f h

-- The leader loads, and every follower is about to wait.
abbrev pub start : ℕ → Flight
start clock = record {
  value = loading;
  locked = false;
  leader = loads;
  followers = λ i. begun;
  clock = clock;
}
