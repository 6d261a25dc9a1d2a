-- ===== src/Local/Invariant.antt =====
-- The invariant of LocalBackend, over any sequence of calls of its users and rounds of its worker.
use rbatis_cache.Common.{
  ℕ, ◌≤◌, max, ◌≡◌, inl, inr, some, List, [], ◌∷◌, Text, Bytes, Duration, text_key, length, arith,
  Option-cases, Bool-cases,
}
use rbatis_cache.DashMap
use rbatis_cache.DashMap.{
  IsDistinct, insert-IsDistinct, remove-IsDistinct, retain-IsDistinct, update-IsDistinct,
  length-insert-le, length-remove-le, length-retain-le, length-update,
}
use rbatis_cache.Local.{
  LocalBackend, with_config, entry_count, prune, get, put, generation, bump_generation, bump,
  remove_if, record_access, touch, insert_new, new_entry, evict_entries, evict_if_needed, entry_key,
  unexpired, expired,
}
use rbatis_cache.Local.Types.{Entries, LocalBackendConfig}
use rbatis_cache.Local.Eviction.{evict_entries-length}
use rbatis_cache.Local.Frame.{evict_entries-Within}

-- A key stands in one entry, and a bound on the entries is kept; a bound of zero lets one in.
pub record IsValid (b : LocalBackend) : Type 0 where
  pub distinct : IsDistinct b.entries
  pub namespaces : IsDistinct b.generations
  pub bounded : (limit : ℕ) → b.config.max_entries ≡ some limit → entry_count b ≤ max limit 1

pub with_config-IsValid : (config : LocalBackendConfig) → IsValid (with_config config)
unfolding with_config entry_count
with_config-IsValid config = record {
  distinct = tt;
  namespaces = tt;
  bounded = λ limit h. omega arith;
}

-- Fewer entries, and any sequence number, keep the invariant.
shrink-IsValid :
    (b : LocalBackend) (m : Entries) (seq : ℕ)
    → IsValid b
    → IsDistinct m
    → length m ≤ length b.entries
    → IsValid (record b { entries = m; seq = seq })
unfolding entry_count
shrink-IsValid b m seq v d h = record {
  distinct = d;
  namespaces = v.namespaces;
  bounded = λ limit e. omega (arith, v.bounded limit e);
}

prune-IsValid : (now : ℕ) (b : LocalBackend) → IsValid b → IsValid (prune now b)
unfolding prune
prune-IsValid now b v =
    shrink-IsValid b _ b.seq v (retain-IsDistinct (unexpired now) b.entries v.distinct)
      (length-retain-le (unexpired now) b.entries)

pub remove_if-smaller :
    (k : Text) (now : ℕ) (m : Entries)
    → IsDistinct m
    → IsDistinct (remove_if k (expired now) m) × (length (remove_if k (expired now) m) ≤ length m)
unfolding remove_if
remove_if-smaller k now m d = elim (Option-cases (DashMap.get k m)) [
  | inl gone ↦ rw (gone, remove_if) (d, omega arith)
  | inr (e, there) ↦ elim (Bool-cases (expired now e)) [
    | inl old ↦ rw (there, old, remove_if) (remove-IsDistinct k m d, length-remove-le k m)
    | inr new ↦ rw (there, new, remove_if) (d, omega arith)
  ]
]

record_access-IsValid : (k : Text) (b : LocalBackend) → IsValid b → IsValid (record_access k b)
unfolding record_access
record_access-IsValid k b v = elim (Option-cases (DashMap.get k b.entries)) [
  | inl gone ↦ rw (gone, record_access) v
  | inr (e, there) ↦
      rw (there, record_access)
        (shrink-IsValid b _ _ v (update-IsDistinct k (touch b.seq) b.entries v.distinct)
          (omega (arith, length-update k (touch b.seq) b.entries)))
]

get-IsValid : (now : ℕ) (key : Text) (b : LocalBackend) → IsValid b → IsValid (get now key b).1
unfolding get
get-IsValid now key b v =
    let (d, h) = remove_if-smaller (entry_key key) now b.entries v.distinct in
    record_access-IsValid (entry_key key) _ (shrink-IsValid b _ b.seq v d h)

-- A write makes room first, so the bound holds after it, whatever it was before.
write-IsValid :
    (now expires : ℕ) (k : Text) (bytes : Bytes) (b : LocalBackend)
    → IsValid b
    → IsValid (insert_new k bytes expires (evict_if_needed now b))
unfolding insert_new evict_if_needed entry_count
write-IsValid now expires k bytes b v =
    let m = evict_entries now b.config b.entries in
    record {
      distinct = insert-IsDistinct k _ m (evict_entries-Within now b.config b.entries v.distinct).1;
      namespaces = v.namespaces;
      bounded = λ limit e. omega (
        arith,
        length-insert-le k (new_entry bytes expires b) m,
        evict_entries-length now limit b v.distinct e,
      );
    }

put-IsValid :
    (now : ℕ) (key : Text) (value : Bytes) (ttl : Duration) (b : LocalBackend)
    → IsValid b
    → IsValid (put now key value ttl b).1
unfolding put
put-IsValid now key value ttl b v = write-IsValid now _ (entry_key key) value b v

bump-IsValid : (namespace : Text) (b : LocalBackend) → IsValid b → IsValid (bump namespace b).1
unfolding bump entry_count
bump-IsValid namespace b v = record {
  distinct = v.distinct;
  namespaces = insert-IsDistinct namespace _ b.generations v.namespaces;
  bounded = v.bounded;
}

-- What can happen to a backend, in any order and at any reading of the clock, one call after
-- another: a round of the worker comes between two calls, or two of the same kind.
pub data Event : Type 0 where
  read : Text → Event
  write : Text → Bytes → Duration → Event
  read_gen : Text → Event
  bump_gen : Text → Event
  round : Event

module _ (blake3_hex : Bytes → Text) where
  bump_generation-IsValid :
      (now : ℕ) (namespace : Text) (b : LocalBackend)
      → IsValid b
      → IsValid (bump_generation blake3_hex now namespace b).1
  unfolding bump_generation
  bump_generation-IsValid now namespace b v =
      write-IsValid now _ _ _ (bump namespace b).1 (bump-IsValid namespace b v)

  unfoldable pub step : ℕ × Event → LocalBackend → LocalBackend
  step (now, read key) b = (get now key b).1
  step (now, write key value ttl) b = (put now key value ttl b).1
  step (now, read_gen namespace) b = (generation now namespace b).1
  step (now, bump_gen namespace) b = (bump_generation blake3_hex now namespace b).1
  step (now, round) b = prune now b

  unfoldable pub run : List (ℕ × Event) → LocalBackend → LocalBackend
  unfolding step
  run [] b = b
  run (e ∷ schedule) b = run schedule (step e b)

  pub step-IsValid : (e : ℕ × Event) (b : LocalBackend) → IsValid b → IsValid (step e b)
  unfolding step generation
  step-IsValid (now, read key) b v = get-IsValid now key b v
  step-IsValid (now, write key value ttl) b v = put-IsValid now key value ttl b v
  step-IsValid (now, read_gen namespace) b v = v
  step-IsValid (now, bump_gen namespace) b v = bump_generation-IsValid now namespace b v
  step-IsValid (now, round) b v = prune-IsValid now b v

  pub run-IsValid_from :
      (schedule : List (ℕ × Event)) (b : LocalBackend) → IsValid b → IsValid (run schedule b)
  unfolding run
  run-IsValid_from [] b v = v
  run-IsValid_from (e ∷ schedule) b v = run-IsValid_from schedule (step e b) (step-IsValid e b v)

  -- Whatever calls its users make of a new backend and whatever rounds its worker has, in any order
  -- and at any times, but each after the end of the one before: no key stands in two entries, and
  -- there are at most `max_entries` entries, or one where `max_entries` is 0.
  pub run-IsValid :
      (schedule : List (ℕ × Event)) (config : LocalBackendConfig)
      → IsValid (run schedule (with_config config))
  run-IsValid schedule config =
      run-IsValid_from schedule (with_config config) (with_config-IsValid config)
