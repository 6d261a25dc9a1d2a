-- ===== src/Local/Writers.antt =====
-- Writers of a LocalBackend that run at the same time: `evict_if_needed` and the insertion of
-- `put` and of `bump_generation` are steps of their own, and anything may come in between.
use rbatis_cache.Common.{
  ℕ, suc, ◌+◌, ◌-◌, ◌≤◌, ◌<◌, ◌≡◌, refl, inl, inr, some, Text, Bytes, text_key, length, arith,
  Option-cases,
}
use rbatis_cache.DashMap
use rbatis_cache.DashMap.{
  IsDistinct, insert-IsDistinct, update-IsDistinct, retain-IsDistinct, length-insert-le,
  length-update, length-retain-le,
}
use rbatis_cache.Local.{
  LocalBackend, with_config, entry_count, prune, get, bump, evict_if_needed, insert_new, new_entry,
  record_access, touch, remove_if, expired, unexpired, entry_key,
}
use rbatis_cache.Local.Types.{LocalBackendConfig}
use rbatis_cache.Local.Eviction.{evict_entries-length}
use rbatis_cache.Local.Frame.{evict_entries-Within}
use rbatis_cache.Local.Invariant.{remove_if-smaller}

-- A backend, and how many writers have made room and not yet inserted.
pub record Writing : Type 0 where
  pub backend : LocalBackend
  pub writers : ℕ

-- With at most `threads` writers at a time: a writer makes room; a writer inserts; a generation is
-- counted up; an entry is read; the worker has a round.
pub data Step (threads : ℕ) : Writing → Writing → Type 0 where
  evict :
      (now : ℕ) (w : Writing)
      → w.writers < threads
      → Step threads w (record { backend = evict_if_needed now w.backend; writers = w.writers + 1 })
  insert :
      (k : Text) (bytes : Bytes) (expires n : ℕ) (w : Writing)
      → w.writers ≡ suc n
      → Step threads w (record { backend = insert_new k bytes expires w.backend; writers = n })
  count_up :
      (namespace : Text) (w : Writing)
      → Step threads w (record w { backend = (bump namespace w.backend).1 })
  read :
      (now : ℕ) (key : Text) (w : Writing)
      → Step threads w (record w { backend = (get now key w.backend).1 })
  round : (now : ℕ) (w : Writing) → Step threads w (record w { backend = prune now w.backend })

pub data Steps (threads : ℕ) (u : Writing) : Writing → Type 0 where
  here : Steps threads u u
  next : {v w : Writing} → Steps threads u v → Step threads v w → Steps threads u w

abbrev pub start : LocalBackendConfig → Writing
start config = record { backend = with_config config; writers = 0 }

-- With a bound on the entries: an entry is there, or is about to be inserted by one of the writers.
record IsBounded (limit threads : ℕ) (w : Writing) : Type 0 where
  distinct : IsDistinct w.backend.entries
  bounds : w.backend.config.max_entries ≡ some limit
  few : w.writers ≤ threads
  total : length w.backend.entries + w.writers ≤ (limit - 1) + threads

record_access-keeps :
    (k : Text) (b : LocalBackend)
    → IsDistinct b.entries
    → IsDistinct (record_access k b).entries
      × (length (record_access k b).entries ≡ length b.entries)
      × ((record_access k b).config ≡ b.config)
unfolding record_access
record_access-keeps k b d = elim (Option-cases (DashMap.get k b.entries)) [
  | inl gone ↦ rw (record_access, gone) (d, refl, refl)
  | inr (e, there) ↦
      rw (record_access, there)
        (
          update-IsDistinct k (touch b.seq) b.entries d,
          length-update k (touch b.seq) b.entries,
          refl,
        )
]

get-keeps :
    (now : ℕ) (key : Text) (b : LocalBackend)
    → IsDistinct b.entries
    → IsDistinct (get now key b).1.entries
      × (length (get now key b).1.entries ≤ length b.entries)
      × ((get now key b).1.config ≡ b.config)
unfolding get
get-keeps now key b d =
    let k = entry_key key in
    let (distinct, fewer) = remove_if-smaller k now b.entries d in
    let (d', same, config) =
      record_access-keeps k (record b { entries = remove_if k (expired now) b.entries }) distinct in
    (d', omega (arith, same, fewer), config)

step-IsBounded :
    {limit threads : ℕ} {v w : Writing}
    → Step threads v w
    → IsBounded limit threads v
    → IsBounded limit threads w
unfolding evict_if_needed insert_new bump prune
step-IsBounded {limit} (evict now v h) b = record {
  distinct = (evict_entries-Within now v.backend.config v.backend.entries b.distinct).1;
  bounds = b.bounds;
  few = omega (arith, h);
  total = omega (arith, h, evict_entries-length now limit v.backend b.distinct b.bounds);
}
step-IsBounded {limit} (insert k bytes expires n v h) b = record {
  distinct = insert-IsDistinct k (new_entry bytes expires v.backend) v.backend.entries b.distinct;
  bounds = b.bounds;
  few = omega (arith, h, b.few);
  total =
      omega (
        arith,
        h,
        b.total,
        length-insert-le k (new_entry bytes expires v.backend) v.backend.entries,
      );
}
step-IsBounded {limit} (count_up namespace v) b = record {
  distinct = b.distinct;
  bounds = b.bounds;
  few = b.few;
  total = b.total;
}
step-IsBounded {limit} (read now key v) b =
    let (d, fewer, config) = get-keeps now key v.backend b.distinct in
    record {
      distinct = d;
      bounds = rw config b.bounds;
      few = b.few;
      total = omega (arith, fewer, b.total);
    }
step-IsBounded {limit} (round now v) b = record {
  distinct = retain-IsDistinct (unexpired now) v.backend.entries b.distinct;
  bounds = b.bounds;
  few = b.few;
  total = omega (arith, b.total, length-retain-le (unexpired now) v.backend.entries);
}

steps-IsBounded :
    {limit threads : ℕ} {v w : Writing}
    → Steps threads v w
    → IsBounded limit threads v
    → IsBounded limit threads w
steps-IsBounded here b = b
steps-IsBounded (next steps step) b = step-IsBounded step (steps-IsBounded steps b)

-- With at most `threads` writers between their eviction and their insertion at a time, in any
-- interleaving of their steps with reads and rounds of the worker, a backend with a bound of `limit`
-- entries has at most `limit - 1 + threads` of them (`threads` if the limit is 0). Each writer that
-- is under way counts: together with the entries there are no more than that.
pub entry_count-Steps :
    (limit threads : ℕ) (config : LocalBackendConfig) (w : Writing)
    → config.max_entries ≡ some limit
    → Steps threads (start config) w
    → entry_count w.backend + w.writers ≤ (limit - 1) + threads
unfolding entry_count with_config
entry_count-Steps limit threads config w bounds steps =
    (steps-IsBounded steps
      (record { distinct = tt; bounds = bounds; few = omega arith; total = omega arith })).total
