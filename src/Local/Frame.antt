-- ===== src/Local/Frame.antt =====
-- Eviction invents nothing: an entry that is there afterwards was there before, with the same bytes,
-- deadline and sequence numbers. Only the counters of the LFU policy may fall.
use rbatis_cache.Common.{
  ℕ, suc, zero, ◌≡◌, refl, ◌∙◌, ◌⊎◌, inl, inr, Bool, Option, none, some, Text, text_key, length,
  ltb, leb, arith, Bool-cases, Option-cases,
}
use rbatis_cache.DashMap
use rbatis_cache.DashMap.{
  IsDistinct, get-remove, get-retain, get-update_all, keep, remove-IsDistinct, retain-IsDistinct,
}
use rbatis_cache.Local.{victim_key, evict_victim, evict_loop, evict_entries}
use rbatis_cache.Local.Types.{Entry, Entries, LocalBackendConfig, EvictionStrategy, fifo, lfu, lru}
use rbatis_cache.Local.Lfu
use rbatis_cache.Local.Eviction.{victim_key-Chooses, Chooses}

pub record SameData (e e' : Entry) : Type 0 where
  pub bytes : e.bytes ≡ e'.bytes
  pub deadline : e.expires_at_ms ≡ e'.expires_at_ms
  pub written : e.insert_seq ≡ e'.insert_seq
  pub used : e.last_access_seq ≡ e'.last_access_seq

-- Each entry of `after` is one of `before`, up to its counter.
pub record Within (after before : Entries) : Type 0 where
  pub at :
      (j : Text) (e' : Entry)
      → DashMap.get j after ≡ some e'
      → (e : Entry) × (DashMap.get j before ≡ some e) × SameData e e'

pub Within-refl : (m : Entries) → Within m m
Within-refl m = record {
  at = λ j e h. (e, h, record { bytes = refl; deadline = refl; written = refl; used = refl });
}

pub Within-trans : {a b c : Entries} → Within a b → Within b c → Within a c
Within-trans x y = record {
  at = λ j e h.
      let (e1, h1, s1) = x.at j e h in
      let (e2, h2, s2) = y.at j e1 h1 in
      (
        e2,
        h2,
        record {
          bytes = s2.bytes ∙ s1.bytes;
          deadline = s2.deadline ∙ s1.deadline;
          written = s2.written ∙ s1.written;
          used = s2.used ∙ s1.used;
        },
      );
}

pub Within-remove : (k : Text) (m : Entries) → Within (DashMap.remove k m) m
Within-remove k m = record {
  at = λ j e h. (
    e,
    ground (arith, get-remove k j m),
    record { bytes = refl; deadline = refl; written = refl; used = refl },
  );
}

pub Within-retain : (p : Entry → Bool) (m : Entries) → IsDistinct m → Within (DashMap.retain p m) m
Within-retain p m d = record {
  at = λ j e h. (
    e,
    ground (arith, get-retain j p m d),
    record { bytes = refl; deadline = refl; written = refl; used = refl },
  );
}

Within-discount : (n : ℕ) (m : Entries) → Within (DashMap.update_all (Lfu.discount n) m) m
unfolding Lfu.discount
Within-discount n m = record { at = λ j e' h. go j e' h (Option-cases (DashMap.get j m)) }
  where
    go :
        (j : Text) (e' : Entry)
        → DashMap.get j (DashMap.update_all (Lfu.discount n) m) ≡ some e'
        → (DashMap.get j m ≡ none) ⊎ ((e : Entry) × (DashMap.get j m ≡ some e))
        → (e : Entry) × (DashMap.get j m ≡ some e) × SameData e e'
    go j e' h (inl gone) = absurd (ground (arith, get-update_all j (Lfu.discount n) m))
    go j e' h (inr (e, there)) =
        let same : e' ≡ Lfu.discount n e = ground (arith, get-update_all j (Lfu.discount n) m) in
        (e, there, rw same (record { bytes = refl; deadline = refl; written = refl; used = refl }))

victim_key-Within : (strategy : EvictionStrategy) (m : Entries) → Within (victim_key strategy m).1 m
unfolding victim_key Lfu.pick_victim
victim_key-Within fifo m = Within-refl m
victim_key-Within lru m = Within-refl m
victim_key-Within lfu m = elim (Option-cases (Lfu.min_access m)) [
  | inl empty ↦ rw (empty, Lfu.fair) (Within-refl m)
  | inr (n, least) ↦ rw (least, Lfu.fair) (Within-discount n m)
]

module _ (again : Entries → Entries) (m : Entries) where
  evict_victim-Within :
      ((m' : Entries) → IsDistinct m' → Within (again m') m' × IsDistinct (again m'))
      → (c : Option Text × Entries) → Chooses m c
      → Within c.1 m
      → Within (evict_victim again c) m × IsDistinct (evict_victim again c)
  unfolding evict_victim
  evict_victim-Within ih (none, m') ch w = (w, ch.distinct)
  evict_victim-Within ih (some k, m') ch w =
      let (inside, distinct) = ih (DashMap.remove k m') (remove-IsDistinct k m' ch.distinct) in
      (Within-trans inside (Within-trans (Within-remove k m') w), distinct)

evict_loop-Within :
    (fuel : ℕ) (strategy : EvictionStrategy) (limit : ℕ) (m : Entries)
    → IsDistinct m
    → Within (evict_loop fuel strategy limit m) m × IsDistinct (evict_loop fuel strategy limit m)
unfolding evict_loop
evict_loop-Within zero strategy limit m d = (Within-refl m, d)
evict_loop-Within (suc fuel) strategy limit m d = elim (Bool-cases (leb limit (length m))) [
  | inr under ↦ rw (under, evict_loop) (Within-refl m, d)
  | inl over ↦
      rw (over, evict_loop)
        (evict_victim-Within (evict_loop fuel strategy limit) m
          (evict_loop-Within fuel strategy limit) (victim_key strategy m)
          (victim_key-Chooses strategy m d) (victim_key-Within strategy m))
]

-- Eviction before a write.
pub evict_entries-Within :
    (now : ℕ) (config : LocalBackendConfig) (m : Entries)
    → IsDistinct m
    → Within (evict_entries now config m) m × IsDistinct (evict_entries now config m)
unfolding evict_entries
evict_entries-Within now config m d = elim (Option-cases config.max_entries) [
  | inl unbounded ↦ rw (unbounded, evict_entries) (Within-refl m, d)
  | inr (limit, bounded) ↦ elim (Bool-cases (ltb (length m) limit)) [
    | inl room ↦ rw (bounded, room) (Within-refl m, d)
    | inr full ↦
        let fresh = DashMap.retain (λ (e : Entry). ltb now e.expires_at_ms) m in
        let (w, d') =
          evict_loop-Within (suc (length fresh)) config.eviction limit fresh
            (retain-IsDistinct (λ (e : Entry). ltb now e.expires_at_ms) m d) in
        rw (bounded, full)
          (Within-trans w (Within-retain (λ (e : Entry). ltb now e.expires_at_ms) m d), d')
  ]
]
