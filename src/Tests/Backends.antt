-- ===== src/Tests/Backends.antt =====
-- The theorems on the backends and the caches in the process, at concrete inputs.
use rbatis_cache.Common.{
  ◌+◌, List, to_u64_saturating, ℕ, ◌≡◌, ◌≢◌, refl, true, some, [], ◌∷◌, Text, Bytes, ascii, ok, err,
  from_millis, arith, saturating_add, as_u64, ◌≤◌, false, text_key, id_key, text_same,
  text_same_iff,
}
use rbatis_cache.Backend.Laws.{LawfulBackend}
use rbatis_cache.DashMap
use rbatis_cache.L1
use rbatis_cache.L1.{L1Cache}
use rbatis_cache.Local
use rbatis_cache.Local.{LocalBackend, local_backend, read_generation, bump_generation, deadline}
use rbatis_cache.Local.Types.{Entries, default_config, with_max_entries_lfu}
use rbatis_cache.Local.Fifo
use rbatis_cache.Local.Lfu
use rbatis_cache.Local.Lru
use rbatis_cache.Local.Reads.{get-put_ne}
use rbatis_cache.Local.Lawful.{local_backend-IsLawful}
use rbatis_cache.Local.Invariant.{IsValid, read, write, bump_gen, round, run, run-IsValid}
use rbatis_cache.Local.Victims.{IsLeast, UsedLess, pick_victim-oldest, pick_victim_lfu}
use rbatis_cache.Memcached.Logging.{LoggingMemcachedCache}
use rbatis_cache.Redis
use rbatis_cache.Redis.{
  Server, RedisCacheBackend, Outcome, value, error, elapsed, from_redis, connect,
}
use rbatis_cache.Redis.Breaker.{
  Unreachable, Call, get_call, put_call, bump_call, called, all_called, all_called-opens,
}
use rbatis_cache.Redis.Circuit.{circuit_is_open}
use rbatis_cache.SingleFlight
use rbatis_cache.SingleFlight.{SingleFlight, LoadState, loading}

abbrev hash : Bytes → Text
hash bytes = bytes

abbrev a : Text
a = ascii "a"

abbrev b : Text
b = ascii "b"

abbrev empty : LocalBackend
empty = Local.with_config default_config

abbrev with_b : LocalBackend
with_b = (Local.put 0 b (8 ∷ []) (from_millis 1000) empty).1

differ : (s t : Text) → text_same s t ≡ false → s ≢ t
differ s t f h = absurd (ground (arith, (text_same_iff s t).1 h))

a_not_b : a ≢ b
a_not_b = differ a b refl

with_b-IsDistinct : DashMap.IsDistinct with_b.entries
unfolding Local.put Local.with_config DashMap.insert DashMap.remove
with_b-IsDistinct = (tt, tt)

found_b :
    (Local.get 500 b (Local.put 1 a (7 ∷ []) (from_millis 1000) with_b).1).0 ≡ ok (some (8 ∷ []))
unfolding Local.put Local.get Local.entry_key DashMap.get DashMap.insert DashMap.remove
    saturating_add as_u64 Local.with_config
found_b = refl

get-put_ne_example : (Local.get 500 b with_b).0 ≡ ok (some (8 ∷ []))
get-put_ne_example =
    get-put_ne 1 500 a (7 ∷ []) (from_millis 1000) with_b b (8 ∷ []) with_b-IsDistinct a_not_b
      found_b

local_backend-IsLawful_example : LawfulBackend (local_backend hash) deadline
local_backend-IsLawful_example = local_backend-IsLawful hash

run-IsValid_example : IsValid (
    run hash
      ((0, write a (7 ∷ []) 0) ∷ (1, read a) ∷ (2, bump_gen b) ∷ (3, round) ∷ [])
      (Local.with_config (with_max_entries_lfu 1 default_config)))
run-IsValid_example =
    run-IsValid hash ((0, write a (7 ∷ []) 0) ∷ (1, read a) ∷ (2, bump_gen b) ∷ (3, round) ∷ [])
      (with_max_entries_lfu 1 default_config)

-- `a` was written first and used last and most.
abbrev two_entries : Entries
two_entries =
    (a, record { bytes = []; expires_at_ms = 9; insert_seq = 0; last_access_seq = 4; accesses = 3 })
    ∷ (
      b,
      record { bytes = []; expires_at_ms = 9; insert_seq = 1; last_access_seq = 2; accesses = 1 },
    )
    ∷ []

two_entries-IsDistinct : DashMap.IsDistinct two_entries
two_entries-IsDistinct = ((refl, tt), (tt, tt))

pick_victim_lfu_example : IsLeast UsedLess b two_entries
unfolding Lfu.pick_victim DashMap.min_by_key DashMap.update_all
pick_victim_lfu_example = pick_victim_lfu b two_entries two_entries-IsDistinct refl

abbrev l1_cache : L1Cache ℕ
l1_cache = record { entries = []; max_entries = 2; ttl = 100 }

found_other : (L1.get 50 2 b (L1.put 0 1 a 7 (L1.put 0 2 b 8 l1_cache))).0 ≡ some 8
unfolding L1.get L1.put L1.make_room DashMap.get DashMap.insert DashMap.remove
found_other = refl

-- A load that a follower is looking at, and one of another digest.
abbrev looked_at : LoadState
looked_at = record { state = loading; locked = true; notified = 0 }

abbrev flights : SingleFlight
flights = record {
  map = (a, 0) ∷ (b, 1) ∷ [];
  states = (0, looked_at) ∷ (1, SingleFlight.begun) ∷ [];
  next = 2;
}

-- A server that never answers: the timeout is 2 seconds.
abbrev silent : Server
silent = record {
  Store = Unit {0};
  get = λ now key s. (elapsed (now + 2000), s);
  psetex = λ now key millis bytes s. (elapsed (now + 2000), s);
  get_u64 = λ now key s. (elapsed (now + 2000), s);
  incr = λ now key s. (elapsed (now + 2000), s);
}

silent-IsUnreachable : Unreachable silent (λ now. now + 2000)
silent-IsUnreachable = record {
  get = λ now key s. refl;
  psetex = λ now ms key bytes s. refl;
  get_u64 = λ now key s. refl;
  incr = λ now key s. refl;
}

abbrev connected : RedisCacheBackend (Unit {0})
connected = connect from_redis tt

abbrev failing : List (ℕ × Call)
failing = (10, get_call a) ∷ (11, bump_call b) ∷ []

abbrev opened : RedisCacheBackend (Unit {0})
opened = called hash silent (12, put_call a [] 0) (all_called hash silent failing connected)

all_called-opens_example :
    ((all_called hash silent failing connected).circuit_open_until_ms ≡ 0)
    × (opened.circuit_open_until_ms
        ≡ saturating_add 2012 (Redis.duration_ms from_redis.circuit_cooldown))
    × (Redis.get hash silent 3000 a opened ≡ (err circuit_is_open, opened))
    × (Redis.put hash silent 3000 a [] 0 opened ≡ (err circuit_is_open, opened))
    × (Redis.generation hash silent 3000 b opened ≡ (err circuit_is_open, opened))
    × (Redis.bump_generation hash silent 3000 b opened ≡ (err circuit_is_open, opened))
unfolding saturating_add Redis.duration_ms to_u64_saturating
all_called-opens_example =
    all_called-opens hash silent (λ now. now + 2000) silent-IsUnreachable failing
      (12, put_call a [] 0) 3000 a b [] 0 connected (omega arith, (omega arith, tt)) (omega arith)
      (omega arith, omega arith) refl (omega arith)

abbrev counting : LoggingMemcachedCache LocalBackend
counting = record { delegate = empty; requests = 3; hits = 2 }

pick_victim-oldest_example :
    IsLeast (λ e e'. e.insert_seq ≤ e'.insert_seq) a two_entries
    × IsLeast (λ e e'. e.last_access_seq ≤ e'.last_access_seq) b two_entries
unfolding Fifo.pick_victim Lru.pick_victim DashMap.min_by_key
pick_victim-oldest_example = pick_victim-oldest a b two_entries two_entries-IsDistinct refl refl
