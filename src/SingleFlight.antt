-- ===== src/SingleFlight.antt =====
-- src/singleflight.rs: one load of a key at a time. The table has for each digest the LoadState that
-- the followers share; a state is known by a number, since followers hold it after the table has
-- forgotten it. How a follower waits, and when it holds the lock, is in SingleFlight/Wait.
pub mod Laws
pub mod Wait
use rbatis_cache.Common.{
  Bool, true, false, none, some, List, [], Text, text_key, id_key, ℕ, ◌+◌, length, ◌==◌,
  if◌then◌else◌,
}
use rbatis_cache.DashMap

pub data LoadValue : Type 0 where
  loading done failed : LoadValue

-- `locked`: a follower holds the Mutex of the value. `notified` counts the calls of
-- `notify_waiters`.
pub record LoadState : Type 0 where
  pub state : LoadValue
  pub locked : Bool
  pub notified : ℕ

-- A follower has the state's number.
pub data LoadRole : Type 0 where
  leader : LoadRole
  follower : ℕ → LoadRole

pub record SingleFlight : Type 0 where
  pub map : List (Text × ℕ)
  pub states : List (ℕ × LoadState)
  pub next : ℕ

abbrev pub new : SingleFlight
new = record { map = []; states = []; next = 0 }

abbrev pub begun : LoadState
begun = record { state = loading; locked = false; notified = 0 }

unfoldable pub try_begin_load : Text → SingleFlight → LoadRole × SingleFlight
try_begin_load digest sf = elim (DashMap.get digest sf.map) [
  | none ↦ (
    leader,
    record {
      map = DashMap.insert digest sf.next sf.map;
      states = DashMap.insert sf.next begun sf.states;
      next = sf.next + 1;
    },
  )
  | some id ↦ (follower id, sf)
]

abbrev pub outcome : Bool → LoadValue
outcome true = done
outcome false = failed

-- Where the `try_lock` fails, the value stays as it is; those that wait are notified all the
-- same. The call is one step here; SingleFlight/Wait has its parts as steps of their own.
abbrev pub completed : Bool → LoadState → LoadState
completed success load = record load {
  state = if load.locked then load.state else outcome success;
  notified = load.notified + 1;
}

unfoldable pub complete_load : Text → Bool → SingleFlight → SingleFlight
complete_load digest success sf = elim (DashMap.get digest sf.map) [
  | none ↦ sf
  | some id ↦ record sf {
    map = DashMap.remove digest sf.map;
    states = DashMap.update id (completed success) sf.states;
  }
]

unfoldable pub is_empty : SingleFlight → Bool
is_empty sf = length sf.map == 0

unfoldable pub len : SingleFlight → ℕ
len sf = length sf.map
