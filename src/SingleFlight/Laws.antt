-- ===== src/SingleFlight/Laws.antt =====
-- Who loads, and who waits.
use rbatis_cache.Common.{
  ℕ, ◌≡◌, ◌≢◌, inl, inr, Bool, Text, text_key, id_key, text_same_iff, arith, Option-cases,
}
use rbatis_cache.DashMap
use rbatis_cache.DashMap.{get-insert, get-insert_self, get-remove}
use rbatis_cache.SingleFlight.{SingleFlight, follower, try_begin_load, complete_load}

-- Once a caller has begun, every other caller with the same digest is a follower until the load is
-- completed, and changes nothing.
pub try_begin_load-once :
    (digest : Text) (sf : SingleFlight)
    → (id : ℕ) × (try_begin_load digest (try_begin_load digest sf).1
        ≡ (follower id, (try_begin_load digest sf).1))
unfolding try_begin_load
try_begin_load-once digest sf = elim (Option-cases (DashMap.get digest sf.map)) [
  | inl gone ↦ (sf.next, ground (arith, get-insert_self digest sf.next sf.map))
  | inr (id, there) ↦ (id, ground arith)
]

-- A caller with another digest is not held up, nor let go.
try_begin_load-other :
    (digest other : Text) (success : Bool) (sf : SingleFlight)
    → digest ≢ other
    → (DashMap.get other (try_begin_load digest sf).1.map ≡ DashMap.get other sf.map)
      × (DashMap.get other (complete_load digest success sf).map ≡ DashMap.get other sf.map)
unfolding try_begin_load complete_load
try_begin_load-other digest other success sf ne = elim (Option-cases (DashMap.get digest sf.map)) [
  | inl gone ↦ ground (arith, get-insert digest other sf.next sf.map, text_same_iff digest other)
  | inr (id, there) ↦ ground (arith, get-remove digest other sf.map, text_same_iff digest other)
]
