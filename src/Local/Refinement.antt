-- ===== src/Local/Refinement.antt =====
-- LocalBackend without a bound on its entries refines a map in which every value has a deadline.
pub mod Simulation
use rbatis_cache.Common.{
  ℕ, ◌≤◌, Option, none, List, [], ◌∷◌, Text, Bytes, Duration, Result, ok, text_same, ltb, some,
  if◌then◌else◌, saturating_add, wrapping_add,
}
use rbatis_cache.Error.{CacheResult}
use rbatis_cache.Local.{LocalBackend, get, put, generation, bump_generation, prune, deadline}
use rbatis_cache.Local.Invariant.{Event, read, write, read_gen, bump_gen, round}

-- What each key shows at each time, and the generation of each namespace.
pub record Contents : Type 0 where
  pub shows : Text → ℕ → Option Bytes
  pub counts : Text → ℕ

abbrev pub no_contents : Contents
no_contents = record { shows = λ key time. none; counts = λ namespace. 0 }

-- What a call returns; a round of the worker returns nothing.
pub data Output : Type 0 where
  found : CacheResult (Option Bytes) → Output
  written : CacheResult (Unit {0}) → Output
  counted : CacheResult ℕ → Output
  nothing : Output

-- A value is there until its deadline.
unfoldable pub shows_after : Text → Bytes → ℕ → Contents → Text → ℕ → Option Bytes
shows_after key value until s k time =
    if text_same key k then (if ltb time until then some value else none) else s.shows k time

unfoldable pub counts_after : Text → ℕ → Contents → Text → ℕ
counts_after namespace g s n = if text_same namespace n then g else s.counts n

-- The specification: reads change nothing, and neither does the worker.
unfoldable pub spec_step : ℕ × Event → Contents → Output × Contents
unfolding shows_after counts_after
spec_step (now, read key) s = (found (ok (s.shows key now)), s)
spec_step (now, write key value ttl) s =
    (written (ok tt), record s { shows = shows_after key value (deadline now ttl) s })
spec_step (now, read_gen namespace) s = (counted (ok (s.counts namespace)), s)
spec_step (now, bump_gen namespace) s = (
  counted (ok (saturating_add (s.counts namespace) 1)),
  record s { counts = counts_after namespace (wrapping_add (s.counts namespace) 1) s },
)
spec_step (now, round) s = (nothing, s)

unfoldable pub spec_run : List (ℕ × Event) → Contents → List Output
unfolding spec_step
spec_run [] s = []
spec_run (e ∷ schedule) s = let (out, s') = spec_step e s in out ∷ spec_run schedule s'

module _ (blake3_hex : Bytes → Text) where
  -- What the backend's call returns, with the backend after it.
  unfoldable pub call : ℕ × Event → LocalBackend → Output × LocalBackend
  call (now, read key) b = let (r, b') = get now key b in (found r, b')
  call (now, write key value ttl) b = let (r, b') = put now key value ttl b in (written r, b')
  call (now, read_gen namespace) b = let (r, b') = generation now namespace b in (counted r, b')
  call (now, bump_gen namespace) b =
      let (r, b') = bump_generation blake3_hex now namespace b in (counted r, b')
  call (now, round) b = (nothing, prune now b)

  unfoldable pub outputs : List (ℕ × Event) → LocalBackend → List Output
  unfolding call
  outputs [] b = []
  outputs (e ∷ schedule) b = let (out, b') = call e b in out ∷ outputs schedule b'

-- The clock does not go back.
abbrev pub IsForward : ℕ → List (ℕ × Event) → Type 0
IsForward now [] = Unit
IsForward now ((time, event) ∷ schedule) = (now ≤ time) × IsForward time schedule
