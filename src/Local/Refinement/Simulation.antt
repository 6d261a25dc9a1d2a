-- ===== src/Local/Refinement/Simulation.antt =====
-- The relation between the backend and its specification, and that every call keeps it.
use rbatis_cache.Common.{
  ℕ, ◌≤◌, ◌≡◌, refl, ap, ◌∙◌, inl, inr, Option, none, some, false, List, [], ◌∷◌, Text, Bytes,
  Duration, text_key, text_same, ltb, arith, Bool-cases, if◌then◌else◌, wrapping_add,
}
use mathlib.Core.Option
use rbatis_cache.DashMap
use rbatis_cache.DashMap.{
  IsDistinct, get-insert, get-insert_self, get-retain, get-update, same_self, keep,
}
use rbatis_cache.Local.{
  LocalBackend, with_config, get, put, generation, bump_generation, bump, prune, entry_key,
  generation_key, unexpired, evict_entries, evict_if_needed, insert_new, read_generation, touch,
  record_access,
}
use rbatis_cache.Local.Types.{Entry, Entries, LocalBackendConfig}
use rbatis_cache.Local.Reads.{visible, get-visible, entries-get, entry_key-same}
use rbatis_cache.Local.Generations.{read_generation-put}
use rbatis_cache.Local.Invariant.{
  IsValid, Event, read, write, read_gen, bump_gen, round, step, step-IsValid, with_config-IsValid,
}
use rbatis_cache.Local.Refinement.{
  Contents, no_contents, shows_after, counts_after, spec_step, spec_run, call, outputs, IsForward,
}

-- From now on both show the same values, and both count the same generations.
pub record Simulates (now : ℕ) (s : Contents) (b : LocalBackend) : Type 0 where
  pub valid : IsValid b
  pub unbounded : b.config.max_entries ≡ none
  pub shows :
      (key : Text) (time : ℕ)
      → now ≤ time
      → visible time (DashMap.get (entry_key key) b.entries) ≡ s.shows key time
  pub counts : (namespace : Text) → read_generation namespace b ≡ s.counts namespace

-- Taking out what has expired, and counting an access, change nothing that is shown later.
visible-keep :
    (now time : ℕ) (o : Option Entry)
    → now ≤ time
    → visible time (keep (unexpired now) o) ≡ visible time o
visible-keep now time none h = refl
visible-keep now time (some e) h = ground arith

visible-touch :
    (time seq : ℕ) (o : Option Entry) → visible time (Option.map (touch seq) o) ≡ visible time o
unfolding touch
visible-touch time seq none = refl
visible-touch time seq (some e) = refl

visible-get :
    (now time : ℕ) (key j : Text) (b : LocalBackend)
    → now ≤ time
    → visible time (DashMap.get j (get now key b).1.entries)
      ≡ visible time (DashMap.get j b.entries)
visible-get now time key j b h = elim (Bool-cases (text_same (entry_key key) j)) [
  | inl same ↦
      rw (entries-get, same, visible-touch) (visible-keep now time (DashMap.get j b.entries) h)
  | inr other ↦ rw (entries-get, other) refl
]

visible-prune :
    (now time : ℕ) (j : Text) (b : LocalBackend)
    → now ≤ time
    → IsDistinct b.entries
    → visible time (DashMap.get j (prune now b).entries) ≡ visible time (DashMap.get j b.entries)
unfolding prune
visible-prune now time j b h d =
    rw (get-retain j (unexpired now) b.entries d)
      (visible-keep now time (DashMap.get j b.entries) h)

no_eviction :
    (now : ℕ) (b : LocalBackend)
    → b.config.max_entries ≡ none
    → evict_entries now b.config b.entries ≡ b.entries
unfolding evict_entries
no_eviction now b h = rw (h) refl

get-config : (now : ℕ) (key : Text) (b : LocalBackend) → (get now key b).1.config ≡ b.config
unfolding get record_access
get-config now key b = ground arith

-- An insertion under the key of an entry, or under one that is no entry's.
visible-insert :
    (time : ℕ) (key k : Text) (e : Entry) (m : Entries)
    → visible time (DashMap.get (entry_key k) (DashMap.insert (entry_key key) e m)) ≡ (
        if text_same key k
        then (if ltb time e.expires_at_ms then some e.bytes else none)
        else visible time (DashMap.get (entry_key k) m))
visible-insert time key k e m =
    ground (arith, get-insert (entry_key key) (entry_key k) e m, entry_key-same key k)

module _ (blake3_hex : Bytes → Text) where
  generation_key-entry_key :
      (n k : Text) → text_same (generation_key blake3_hex n) (entry_key k) ≡ false
  unfolding entry_key
  generation_key-entry_key n k = refl

  visible-insert_generation :
      (time : ℕ) (n k : Text) (e : Entry) (m : Entries)
      → visible time (DashMap.get (entry_key k) (DashMap.insert (generation_key blake3_hex n) e m))
        ≡ visible time (DashMap.get (entry_key k) m)
  visible-insert_generation time n k e m =
      rw (get-insert (generation_key blake3_hex n) (entry_key k) e m, generation_key-entry_key n k)
        refl

module _ (blake3_hex : Bytes → Text) (now : ℕ) (s : Contents) (b : LocalBackend)
    (sim : Simulates now s b) where
  abbrev Keeps : Event → Type 0
  Keeps event =
      ((call blake3_hex (now, event) b).0 ≡ (spec_step (now, event) s).0)
      × Simulates now (spec_step (now, event) s).1 (call blake3_hex (now, event) b).1

  Keeps-read : (key : Text) → Keeps (read key)
  unfolding call spec_step step
  Keeps-read key = (
    rw (get-visible, sim.shows key now (omega arith)) refl,
    record {
      valid = step-IsValid blake3_hex (now, read key) b sim.valid;
      unbounded =
          ap (λ (c : LocalBackendConfig). c.max_entries) (get-config now key b) ∙ sim.unbounded;
      shows = λ k time h. visible-get now time key (entry_key k) b h ∙ sim.shows k time h;
      counts = λ n. (read_generation-put now key n [] 0 b).1 ∙ sim.counts n;
    },
  )

  Keeps-write : (key : Text) (value : Bytes) (ttl : Duration) → Keeps (write key value ttl)
  unfolding call spec_step put evict_if_needed insert_new shows_after step
  Keeps-write key value ttl = (
    refl,
    record {
      valid = step-IsValid blake3_hex (now, write key value ttl) b sim.valid;
      unbounded = sim.unbounded;
      shows =
          λ k time h. rw (no_eviction now b sim.unbounded, visible-insert, sim.shows k time h) refl;
      counts = λ n. (read_generation-put now key n value ttl b).0 ∙ sim.counts n;
    },
  )

  Keeps-read_gen : (namespace : Text) → Keeps (read_gen namespace)
  unfolding call spec_step generation
  Keeps-read_gen namespace = (rw (sim.counts namespace) refl, sim)

  counts-bump :
      (namespace n : Text)
      → read_generation n (bump_generation blake3_hex now namespace b).1
        ≡ counts_after namespace (wrapping_add (s.counts namespace) 1) s n
  unfolding bump_generation counts_after read_generation
  counts-bump namespace n = ground (
    arith,
    get-insert namespace n (wrapping_add (read_generation namespace b) 1) b.generations,
    sim.counts namespace,
    sim.counts n,
  )

  Keeps-bump_gen : (namespace : Text) → Keeps (bump_gen namespace)
  unfolding call spec_step bump_generation bump evict_if_needed insert_new step
  Keeps-bump_gen namespace = (
    rw (sim.counts namespace) refl,
    record {
      valid = step-IsValid blake3_hex (now, bump_gen namespace) b sim.valid;
      unbounded = sim.unbounded;
      shows = λ k time h.
          rw (no_eviction now b sim.unbounded, visible-insert_generation) (sim.shows k time h);
      counts = counts-bump namespace;
    },
  )

  Keeps-round : Keeps round
  unfolding call spec_step step prune
  Keeps-round = (
    refl,
    record {
      valid = step-IsValid blake3_hex (now, round) b sim.valid;
      unbounded = sim.unbounded;
      shows = λ k time h.
          visible-prune now time (entry_key k) b h sim.valid.distinct ∙ sim.shows k time h;
      counts = λ n. (read_generation-put now [] n [] 0 b).2 ∙ sim.counts n;
    },
  )

  keeps : (event : Event) → Keeps event
  keeps (read key) = Keeps-read key
  keeps (write key value ttl) = Keeps-write key value ttl
  keeps (read_gen namespace) = Keeps-read_gen namespace
  keeps (bump_gen namespace) = Keeps-bump_gen namespace
  keeps round = Keeps-round

later-Simulates :
    (now time : ℕ) (s : Contents) (b : LocalBackend)
    → now ≤ time
    → Simulates now s b
    → Simulates time s b
later-Simulates now time s b h sim = record {
  valid = sim.valid;
  unbounded = sim.unbounded;
  shows = λ key t le. sim.shows key t (omega arith);
  counts = sim.counts;
}

new-Simulates :
    (config : LocalBackendConfig)
    → config.max_entries ≡ none
    → Simulates 0 no_contents (with_config config)
unfolding with_config DashMap.get read_generation
new-Simulates config h = record {
  valid = with_config-IsValid config;
  unbounded = h;
  shows = λ key time le. refl;
  counts = λ namespace. refl;
}

module _ (blake3_hex : Bytes → Text) where
  outputs-Simulates :
      (schedule : List (ℕ × Event)) (now : ℕ) (s : Contents) (b : LocalBackend)
      → Simulates now s b
      → IsForward now schedule
      → outputs blake3_hex schedule b ≡ spec_run schedule s
  unfolding outputs spec_run
  outputs-Simulates [] now s b sim h = refl
  outputs-Simulates ((time, event) ∷ schedule) now s b sim h =
      let (same, after) = keeps blake3_hex time s b (later-Simulates now time s b h.0 sim) event in
      rw same (
        ap (λ rest. (spec_step (time, event) s).0 ∷ rest)
          (outputs-Simulates schedule time (spec_step (time, event) s).1
            (call blake3_hex (time, event) b).1 after h.1))

  -- Without a bound on its entries, a new backend answers every schedule of calls and of rounds of
  -- its worker, at times that do not go back, as the specification does: a value is there until its
  -- deadline or the next write of its key, and a generation counts the bumps of its namespace.
  pub outputs-spec_run :
      (schedule : List (ℕ × Event)) (config : LocalBackendConfig)
      → config.max_entries ≡ none
      → IsForward 0 schedule
      → outputs blake3_hex schedule (with_config config) ≡ spec_run schedule no_contents
  outputs-spec_run schedule config h forward =
      outputs-Simulates schedule 0 no_contents (with_config config) (new-Simulates config h) forward
