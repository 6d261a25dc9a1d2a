-- ===== src/Tests/Contracts.antt =====
-- The theorems on the contract, the refinement, the waiting followers and the flush, at concrete
-- inputs.
use rbatis_cache.Common.{
  inl, some, ℕ, ◌+◌, ◌≤◌, ◌≡◌, ◌≢◌, refl, true, false, not, ◌&&◌, List, [], ◌∷◌, text_key, Text,
  Bytes, ascii, from_secs, from_millis, if◌then◌else◌, arith, ◌==◌, wrapping_add,
}
use rbatis_cache.Contract
use rbatis_cache.Contract.Local.{run_all-local_backend}
use rbatis_cache.DashMap
use rbatis_cache.DashMap.{get-insert_self}
use rbatis_cache.Local
use rbatis_cache.Local.{LocalBackend, local_backend, with_config, read_generation}
use rbatis_cache.Local.Types.{
  LocalBackendConfig, default_config, fifo, Entries, with_max_entries_lru,
}
use rbatis_cache.Local.Eviction.{Rounds, evict_loop-Rounds}
use rbatis_cache.Local.Invariant.{Event, read, write, read_gen, bump_gen, round}
use rbatis_cache.Local.Refinement.{outputs, spec_run, no_contents}
use rbatis_cache.Local.Refinement.Simulation.{outputs-spec_run}
use rbatis_cache.Local.Writers
use rbatis_cache.Local.Writers.{Writing, entry_count-Steps}
use rbatis_cache.Moka
use rbatis_cache.Moka.{Moka, MokaCacheBackend, moka_backend}
use rbatis_cache.Moka.Contract.{shown, assert_generation_atomic-shared}
use rbatis_cache.Envelope
use rbatis_cache.Key.{CacheKey}
use rbatis_cache.Transactional
use rbatis_cache.Transactional.{TransactionalCacheBuffer, flush_to}
use rbatis_cache.Transactional.Flush.{marks, flush_to-generation}
use rbatis_cache.Tests.Fixtures.{libraries}
use rbatis_cache.SingleFlight
use rbatis_cache.SingleFlight.Wait
use rbatis_cache.SingleFlight.Wait.{
  Flight, Phase, Leader, begun, holding, seen, returned, timed_out, loads, assigned, notified, Step,
  Steps, here, next, lock, look_loading, look_over, assign, notify, register, start,
}
use rbatis_cache.SingleFlight.Wait.Laws.{returned-over}
use rbatis_cache.SingleFlight.Wait.Late.{unaware-times_out}
use rbatis_cache.SingleFlight.Wait.Progress.{Leaves, follower-leaves}

abbrev hash : Bytes → Text
hash bytes = bytes

run_all-local_backend_example :
    (Contract.run_all
      (local_backend hash)
      1000
      (with_config (with_max_entries_lru 1 default_config))).0
    ≡ true
run_all-local_backend_example =
    run_all-local_backend hash 1000 (with_max_entries_lru 1 default_config) (omega arith)

-- A value is read before and after its deadline, with a round of the worker between.
abbrev schedule : List (ℕ × Event)
schedule =
    (0, write (ascii "a") (7 ∷ []) (from_millis 1000))
    ∷ (0, bump_gen (ascii "ns"))
    ∷ (999, read (ascii "a"))
    ∷ (1000, round)
    ∷ (1000, read (ascii "a"))
    ∷ (1000, read_gen (ascii "ns"))
    ∷ []

outputs-spec_run_example :
    outputs hash schedule (with_config default_config) ≡ spec_run schedule no_contents
outputs-spec_run_example =
    outputs-spec_run hash schedule default_config refl
      (omega arith, (omega arith, (omega arith, (omega arith, (omega arith, (omega arith, tt))))))

abbrev one_entry : Entries
one_entry =
    (
      ascii "a",
      record { bytes = []; expires_at_ms = 5; insert_seq = 0; last_access_seq = 0; accesses = 0 },
    )
    ∷ []

evict_loop-Rounds_example :
    (n : ℕ) × (n ≤ 1) × Rounds fifo 1 one_entry n (Local.evict_loop 2 fifo 1 one_entry)
evict_loop-Rounds_example = evict_loop-Rounds 2 fifo 1 one_entry (tt, tt) (omega arith)

-- Follower 0 takes the lock and sees the load going on; follower 1 has not begun.
abbrev looking : Flight
looking = record (start 100) { locked = true; followers = λ i. if 0 == i then holding else begun }

abbrev looked : Flight
looked = record (start 100) {
  followers = λ i. if 0 == i then seen else (if 0 == i then holding else begun);
}

to_looked : Steps 5000 (start 100) looked
to_looked = next (next here (lock 0 (start 100) refl refl)) (look_loading 0 looking refl refl)

-- The leader completes the load.
abbrev over : Flight
over = record looked {
  value = SingleFlight.done;
  leader = notified;
  followers = λ i. Wait.wake (looked.followers i);
}

to_over : Steps 5000 (start 100) over
to_over =
    next (next to_looked (assign true looked refl))
      (notify (record looked { value = SingleFlight.done; leader = assigned }) refl)

follower-leaves_example : Leaves 5000 0 100 looked
follower-leaves_example = follower-leaves 5000 100 0 looked to_looked

-- Follower 0 makes its Notified too late.
abbrev registered : Flight
registered = record over { followers = Wait.set 0 (Wait.waiting 5100) over.followers }

unaware-times_out_example :
    (registered.followers 0 ≢ returned) × (registered.followers 0 ≡ timed_out → 5100 ≤ 100)
unaware-times_out_example =
    unaware-times_out 5000 0 over registered tt tt (next here (register 0 over refl))

-- Follower 0 waits in time, and is woken.
abbrev in_time : Flight
in_time = record looked { followers = Wait.set 0 (Wait.waiting 5100) looked.followers }

abbrev woken : Flight
woken = record in_time {
  value = SingleFlight.done;
  leader = notified;
  followers = λ i. Wait.wake (in_time.followers i);
}

to_woken : Steps 5000 (start 100) woken
to_woken =
    next (next (next to_looked (register 0 looked refl)) (assign true in_time refl))
      (notify (record in_time { value = SingleFlight.done; leader = assigned }) refl)

returned-over_example : woken.leader ≢ loads
returned-over_example = returned-over 5000 100 0 woken to_woken refl

-- A moka cache that keeps everything.
abbrev keeper : Moka
keeper = record {
  Cache = List (Text × Bytes);
  build = λ capacity ttl tti. [];
  get = λ now k c. (DashMap.get k c, c);
  insert = λ now k v c. DashMap.insert k v c;
  blake3_hex = hash;
}

-- Another namespace was bumped once.
abbrev bumped_once : MokaCacheBackend (List (Text × Bytes))
bumped_once =
    (Moka.bump_generation keeper 0 (ascii "other")
      (Moka.new keeper (ascii "m") Moka.default_config)).1

few_bumps : bumped_once.generation + 32 ≤ 18446744073709551615
unfolding Moka.bump_generation Moka.new wrapping_add
few_bumps = omega arith

-- The counter is ahead of the namespace, so the contract's bumps fail.
ahead : shown keeper 5 bumped_once ≢ bumped_once.generation
unfolding Moka.bump_generation Moka.new Moka.generation_key DashMap.get DashMap.insert
    DashMap.remove wrapping_add
ahead h = omega arith

assert_generation_atomic-shared_example :
    (Contract.assert_generation_atomic (moka_backend keeper) 5 bumped_once).0 ≡ false
assert_generation_atomic-shared_example =
    assert_generation_atomic-shared keeper 5 bumped_once (λ time k v c. inl (get-insert_self k v c))
      few_bumps ahead

-- Two entries of a namespace, which is marked, filed under its generation 0.
abbrev old_key : CacheKey
old_key = record { digest = ascii "k"; namespace = ascii "ns"; generation = 0; table_tags = [] }

abbrev buffer : TransactionalCacheBuffer ℕ
buffer =
    Transactional.put old_key 5
      (Transactional.clear_namespace (ascii "ns") (Transactional.new (from_secs 60)))

flush_to-generation_example :
    (read_generation
        (ascii "ns")
        (flush_to libraries (local_backend hash) 7 buffer (with_config default_config)).1
      ≡ (if marks (ascii "ns") buffer.clear_namespaces
          then read_generation (ascii "ns") (with_config default_config) + 1
          else read_generation (ascii "ns") (with_config default_config)))
    × (Envelope.is_fresh 8
          (read_generation
            (ascii "ns")
            (flush_to libraries (local_backend hash) 7 buffer (with_config default_config)).1)
          (Envelope.new 7 old_key [] (from_secs 60))
        ≡ (not (marks (ascii "ns") buffer.clear_namespaces)
            && Envelope.is_fresh 8 0 (Envelope.new 7 old_key [] (from_secs 60))))
unfolding Transactional.put Transactional.clear_namespace Transactional.new DashMap.insert
    DashMap.remove with_config DashMap.get read_generation
flush_to-generation_example =
    flush_to-generation libraries hash 7 buffer (ascii "ns") (with_config default_config) old_key []
      (from_secs 60) 7 8 (tt, tt) (λ n. omega arith) refl

-- Two writers see an empty backend with room for one entry, and both insert.
abbrev room_for_one : LocalBackendConfig
room_for_one = record default_config { max_entries = some 1 }

abbrev both_inserted : Writing
both_inserted = record {
  backend = Local.insert_new (ascii "entry:b") [] 90 (
      Local.insert_new (ascii "entry:a") [] 90
        (Local.evict_if_needed 5 (Local.evict_if_needed 5 (with_config room_for_one))));
  writers = 0;
}

two_at_once : Writers.Steps 2 (Writers.start room_for_one) both_inserted
two_at_once =
    Writers.next
      (Writers.next
        (Writers.next (Writers.next Writers.here (Writers.evict 5 _ (omega arith)))
          (Writers.evict 5 _ (omega arith)))
        (Writers.insert (ascii "entry:a") [] 90 1 _ refl))
      (Writers.insert (ascii "entry:b") [] 90 0 _ refl)

entry_count-Steps_example : Local.entry_count both_inserted.backend + 0 ≤ 2
entry_count-Steps_example = entry_count-Steps 1 2 room_for_one both_inserted refl two_at_once

two_entries : Local.entry_count both_inserted.backend ≡ 2
unfolding Local.entry_count Local.insert_new Local.evict_if_needed with_config DashMap.insert
    DashMap.remove
two_entries = refl
