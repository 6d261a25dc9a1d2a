-- ===== src/Interceptor/Flights.antt =====
-- The locks of the loads, and when they leave the table.
use rbatis_cache.Common.{
  zero, suc, ℕ, ◌≡◌, refl, ap, inl, inr, none, some, Text, Bytes, ok, err, length, leb, arith,
  text_key, Bool-cases, ◌+◌, ◌-◌, ◌<◌, Option,
}
use mathlib.Core.Option
use rbatis_cache.Backend.{CacheBackend}
use rbatis_cache.DashMap
use rbatis_cache.DashMap.{get-remove, get-update, same_self, get-insert_self}
use rbatis_cache.Error.{CacheResult}
use rbatis_cache.External.{External}
use rbatis_cache.Interceptor.{
  Program, Action, leave, enter_flight, drop_flight, release_flight, store_loaded, put_loaded,
  second_look, note_error, load,
}
use rbatis_cache.Key.{CacheKey}
use rbatis_cache.Policy.{CachePolicy}

module _ (x : External) (b : CacheBackend) (policy : CachePolicy) where
  -- How many calls hold the lock of a digest; none if there is no lock.
  abbrev pub holders : Text → Program x b policy → Option ℕ
  holders digest w = DashMap.get digest w.flights

  module _ (digest : Text) (w : Program x b policy) where
    holders-drop_flight :
        holders digest (drop_flight x b policy digest w)
        ≡ Option.map (λ k. k - 1) (holders digest w)
    unfolding drop_flight
    holders-drop_flight =
        ground (arith, get-update digest digest (λ k. k - 1) w.flights, same_self digest)

    holders-release_flight_alone :
        holders digest w ≡ some 1 → holders digest (release_flight x b policy digest w) ≡ none
    unfolding release_flight
    holders-release_flight_alone h =
        ground (arith, get-remove digest digest w.flights, same_self digest)

    holders-release_flight :
        (n : ℕ)
        → 1 < n
        → holders digest w ≡ some n
        → holders digest (release_flight x b policy digest w) ≡ some n
    unfolding release_flight
    holders-release_flight n several h = ground arith

    holders-enter_flight :
        (holders digest w ≡ none → holders digest (enter_flight x b policy digest w) ≡ some 1)
        × ((n : ℕ)
            → holders digest w ≡ some n
            → holders digest (enter_flight x b policy digest w) ≡ some (n + 1))
    unfolding enter_flight
    holders-enter_flight = (
      λ h. ground (arith, get-insert_self digest 1 w.flights),
      λ n h. ground (arith, get-insert_self digest (n + 1) w.flights),
    )

  holders-drop_flight_alone :
      (digest : Text) (w : Program x b policy)
      → holders digest w ≡ some 1
      → holders digest (drop_flight x b policy digest w) ≡ some 0
  holders-drop_flight_alone digest w h = rw (holders-drop_flight, h) refl

  holders-leave_alone :
      (digest : Text) (w : Program x b policy)
      → holders digest w ≡ some 1
      → holders digest (leave x b policy digest w) ≡ none
  holders-leave_alone digest w h =
      rw (holders-drop_flight, holders-release_flight_alone digest w h) refl

  -- What `leave` leaves, by what was there before the call entered.
  abbrev pub others : Option ℕ → Option ℕ
  others none = none
  others (some zero) = none
  others (some (suc n)) = some (suc n)

  -- A call that enters and leaves puts the count of holders back; a lock that nobody else holds is
  -- taken out of the table, also one that was left there without a holder.
  pub leave-enter_flight :
      (digest : Text) (w : Program x b policy)
      → holders digest (leave x b policy digest (enter_flight x b policy digest w))
        ≡ others (holders digest w)
  leave-enter_flight digest w = go (holders digest w) refl
    where
      go :
          (h : Option ℕ)
          → holders digest w ≡ h
          → holders digest (leave x b policy digest (enter_flight x b policy digest w)) ≡ others h
      go none gone = holders-leave_alone digest _ ((holders-enter_flight digest w).0 gone)
      go (some zero) there =
          holders-leave_alone digest _ ((holders-enter_flight digest w).1 0 there)
      go (some (suc n)) there =
          rw
            (
              holders-drop_flight,
              holders-release_flight digest (enter_flight x b policy digest w) (suc n + 1)
                  (omega arith) ((holders-enter_flight digest w).1 (suc n) there),
            )
            (ap some (omega arith))

  -- No lock after a payload; after an error, a lock that nobody holds.
  abbrev pub left_by : CacheResult Bytes → Option ℕ
  left_by (ok v) = none
  left_by (err e) = some 0

  put_loaded-holders :
      (key : CacheKey) (payload : Bytes) (r : CacheResult Bytes) (w : Program x b policy)
      → holders key.digest w ≡ some 1
      → holders key.digest (put_loaded x b policy key payload r w).1
        ≡ left_by (put_loaded x b policy key payload r w).0
  unfolding put_loaded
  put_loaded-holders key payload (err e) w h = holders-drop_flight_alone key.digest w h
  put_loaded-holders key payload (ok envelope) w h = holders-leave_alone key.digest _ (noted _ _ h)
    where
      noted :
          (r : CacheResult (Unit {0})) (w : Program x b policy)
          → holders key.digest w ≡ some 1
          → holders key.digest (note_error x b policy r w) ≡ some 1
      noted (ok _) w h = h
      noted (err e) w h = h

  store_loaded-holders :
      (key : CacheKey) (r : CacheResult Bytes) (w : Program x b policy)
      → holders key.digest w ≡ some 1
      → holders key.digest (store_loaded x b policy key r w).1
        ≡ left_by (store_loaded x b policy key r w).0
  unfolding store_loaded
  store_loaded-holders key (err e) w h = holders-drop_flight_alone key.digest w h
  store_loaded-holders key (ok payload) w h =
      elim (Bool-cases (leb (length payload) policy.max_value_size)) [
        | inl small ↦ rw small (put_loaded-holders key payload _ w h)
        | inr large ↦ rw large (holders-leave_alone key.digest w h)
      ]

  -- A call that holds the lock alone, before and after its loader has run, takes it out of the table
  -- when it returns a payload; when it returns an error, of the loader or of the encoding, the lock
  -- stays, and nobody holds it.
  pub second_look-holders :
      (key : CacheKey) (loader : Action x b policy (CacheResult Bytes)) (r : Option Bytes)
      (w : Program x b policy)
      → holders key.digest w ≡ some 1
      → holders key.digest (load x b policy loader w).1 ≡ some 1
      → holders key.digest (second_look x b policy key loader r w).1
        ≡ left_by (second_look x b policy key loader r w).0
  unfolding second_look
  second_look-holders key loader (some payload) w h l = holders-leave_alone key.digest _ h
  second_look-holders key loader none w h l =
      store_loaded-holders key (load x b policy loader w).0 (load x b policy loader w).1 l
