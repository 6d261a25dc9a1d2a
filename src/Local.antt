-- ===== src/Local.antt =====
-- LocalBackend of src/local/mod.rs: the backend in the process's memory. A method takes the clock
-- that it reads first and returns the backend after it.
pub mod Types
pub mod Fifo
pub mod Lfu
pub mod Lru
pub mod Eviction
pub mod Frame
pub mod Reads
pub mod Generations
pub mod Invariant
pub mod Writers
pub mod Victims
pub mod Lawful
pub mod Refinement
use mathlib.Core.Option
use rbatis_cache.Common.{
  ℕ, suc, zero, text_key, Bool, true, false, not, Option, none, some, List, [], ◌++◌, Text, Bytes,
  ascii, Duration, from_secs, as_millis, u64_max, saturating_add, wrapping_add, as_u64, to_le_bytes,
  length, ltb, leb, ◌==◌, if◌then◌else◌, ok,
}
use rbatis_cache.Error.{CacheResult}
use rbatis_cache.Backend.{CacheBackend}
use rbatis_cache.DashMap
use Types.{Entry, Entries, EvictionStrategy, fifo, lfu, lru, LocalBackendConfig, default_config}

-- The worker thread is there or not; what it does is `prune`.
pub record LocalBackend : Type 0 where
  pub entries : Entries
  pub generations : List (Text × ℕ)
  pub seq : ℕ
  pub config : LocalBackendConfig
  pub prune_active : Bool

unfoldable pub with_config : LocalBackendConfig → LocalBackend
with_config config = record {
  entries = [];
  generations = [];
  seq = 0;
  config = config;
  prune_active = elim config.cleanup_interval [
    | none ↦ false
    | some interval ↦ not (interval == 0)
  ];
}

abbrev pub new : LocalBackend
unfolding with_config
new = with_config default_config

abbrev pub unexpired : ℕ → Entry → Bool
unexpired now e = ltb now e.expires_at_ms

abbrev pub expired : ℕ → Entry → Bool
expired now e = leb e.expires_at_ms now

-- One round of the worker's loop.
unfoldable pub prune : ℕ → LocalBackend → LocalBackend
prune now b = record b { entries = DashMap.retain (unexpired now) b.entries }

unfoldable pub entry_count : LocalBackend → ℕ
entry_count b = length b.entries

unfoldable pub namespace_count : LocalBackend → ℕ
namespace_count b = length b.generations

unfoldable pub entry_key : Text → Text
entry_key digest = ascii "entry:" ++ digest

unfoldable pub read_generation : Text → LocalBackend → ℕ
read_generation namespace b = Option.get_or (DashMap.get namespace b.generations) 0

-- `entry(..).or_insert_with(0)`, then `fetch_add(1)`.
unfoldable pub bump : Text → LocalBackend → ℕ × LocalBackend
unfolding read_generation
bump namespace b =
    let old = read_generation namespace b in
    (
      saturating_add old 1,
      record b { generations = DashMap.insert namespace (wrapping_add old 1) b.generations },
    )

-- The victim by the configured strategy, with the entries after the choice.
unfoldable pub victim_key : EvictionStrategy → Entries → Option Text × Entries
victim_key fifo entries = (Fifo.pick_victim entries, entries)
victim_key lfu entries = Lfu.pick_victim entries
victim_key lru entries = (Lru.pick_victim entries, entries)

-- A round removes the victim and goes on, or breaks off where there is none.
unfoldable pub evict_victim : (Entries → Entries) → Option Text × Entries → Entries
evict_victim again (none, chosen) = chosen
evict_victim again (some k, chosen) = again (DashMap.remove k chosen)

-- `while self.entries.len() >= max`, on fuel.
unfoldable pub evict_loop : ℕ → EvictionStrategy → ℕ → Entries → Entries
unfolding evict_victim
evict_loop zero strategy limit entries = entries
evict_loop (suc fuel) strategy limit entries = elim (leb limit (length entries)) [
  | false ↦ entries
  | true ↦ evict_victim (evict_loop fuel strategy limit) (victim_key strategy entries)
]

-- What has expired goes first; the loop has one round for each entry, and one to end.
unfoldable pub evict_entries : ℕ → LocalBackendConfig → Entries → Entries
evict_entries now config entries = elim config.max_entries [
  | none ↦ entries
  | some limit ↦
      if ltb (length entries) limit
      then entries
      else let fresh = DashMap.retain (unexpired now) entries in
        evict_loop (suc (length fresh)) config.eviction limit fresh
]

unfoldable pub evict_if_needed : ℕ → LocalBackend → LocalBackend
unfolding evict_entries
evict_if_needed now b = record b { entries = evict_entries now b.config b.entries }

-- `fetch_add` of the global sequence number.
abbrev next_seq : LocalBackend → ℕ
next_seq b = wrapping_add b.seq 1

-- `entries.remove_if(k, p)`
unfoldable pub remove_if : Text → (Entry → Bool) → Entries → Entries
remove_if k p entries = elim (DashMap.get k entries) [
  | none ↦ entries
  | some e ↦ if p e then DashMap.remove k entries else entries
]

-- A hit is the newest access, and counts one more.
unfoldable pub touch : ℕ → Entry → Entry
touch seq e = record e { last_access_seq = seq; accesses = saturating_add e.accesses 1 }

-- `get_mut` of `get`: a sequence number is taken only if the entry is there.
unfoldable pub record_access : Text → LocalBackend → LocalBackend
unfolding touch
record_access k b = elim (DashMap.get k b.entries) [
  | none ↦ b
  | some e ↦ record b { entries = DashMap.update k (touch b.seq) b.entries; seq = next_seq b }
]

unfoldable pub get : ℕ → Text → LocalBackend → CacheResult (Option Bytes) × LocalBackend
unfolding remove_if record_access
get now key b =
    let k = entry_key key in
    let value : Option Bytes = elim (DashMap.get k b.entries) [
      | none ↦ none
      | some e ↦ if unexpired now e then some e.bytes else none
    ] in
    (ok value, record_access k (record b { entries = remove_if k (expired now) b.entries }))

abbrev pub new_entry : Bytes → ℕ → LocalBackend → Entry
new_entry bytes expires b = record {
  bytes = bytes;
  expires_at_ms = expires;
  insert_seq = b.seq;
  last_access_seq = b.seq;
  accesses = 0;
}

-- The last step of `put` and of `bump_generation`: a new entry under the next sequence number.
unfoldable pub insert_new : Text → Bytes → ℕ → LocalBackend → LocalBackend
insert_new k bytes expires b = record b {
  entries = DashMap.insert k (new_entry bytes expires b) b.entries;
  seq = next_seq b;
}

-- A TTL of zero stands for a minute.
abbrev pub effective_ttl : Duration → Duration
effective_ttl ttl = if ttl == 0 then from_secs 60 else ttl

-- `now.saturating_add(ttl.as_millis() as u64)`
abbrev pub deadline : ℕ → Duration → ℕ
deadline now ttl = saturating_add now (as_u64 (as_millis (effective_ttl ttl)))

-- The whole call as one step; Local/Writers has the eviction and the insertion as steps of their
-- own, with other calls in between.
unfoldable pub put :
    ℕ → Text → Bytes → Duration → LocalBackend → CacheResult (Unit {0}) × LocalBackend
unfolding evict_if_needed insert_new
put now key value ttl b =
    (ok tt, insert_new (entry_key key) value (deadline now ttl) (evict_if_needed now b))

unfoldable pub generation : ℕ → Text → LocalBackend → CacheResult ℕ × LocalBackend
generation now namespace b = (ok (read_generation namespace b), b)

-- The library's `blake3::hash(..).to_hex()` is a parameter.
module _ (blake3_hex : Bytes → Text) where
  abbrev pub generation_key : Text → Text
  generation_key namespace = ascii "generation:" ++ blake3_hex namespace

  unfoldable pub bump_generation : ℕ → Text → LocalBackend → CacheResult ℕ × LocalBackend
  unfolding bump evict_if_needed insert_new
  bump_generation now namespace b =
      let (bumped, b') = bump namespace b in
      (
        ok bumped,
        insert_new (generation_key namespace) (to_le_bytes bumped) u64_max (evict_if_needed now b'),
      )

  -- impl CacheBackend for LocalBackend
  abbrev pub local_backend : CacheBackend
  local_backend = record {
    State = LocalBackend;
    get = get;
    put = put;
    generation = generation;
    bump_generation = bump_generation;
  }
