-- ===== src/Local/Eviction.antt =====
-- Eviction: how many entries stay, which entry goes, and that nothing else changes.
use mathlib.Core.Option
use rbatis_cache.Common.{
  ℕ, suc, zero, ◌-◌, ◌≤◌, ◌<◌, ◌≡◌, refl, sym, ◌∙◌, inl, inr, Bool, Option, none, some, [], ◌∷◌,
  Text, text_key, length, ltb, leb, arith, Bool-cases, Option-cases,
}
use rbatis_cache.DashMap
use rbatis_cache.DashMap.{
  IsDistinct, length-remove-lt, length-remove-le, length-retain-le, length-insert-le,
  length-update_all, min_by_key-get, min_by_key-some, update_all-IsDistinct, remove-IsDistinct,
  retain-IsDistinct,
}
use rbatis_cache.Local.{LocalBackend, victim_key, evict_victim, evict_loop, evict_entries}
use rbatis_cache.Local.Types.{Entry, Entries, EvictionStrategy, fifo, lfu, lru}
use rbatis_cache.Local.Fifo
use rbatis_cache.Local.Lfu
use rbatis_cache.Local.Lru

-- A choice of a victim keeps the entries, up to their counters, and names one of them.
pub record Chooses (entries : Entries) (chosen : Option Text × Entries) : Type 0 where
  pub distinct : IsDistinct chosen.1
  pub size : length chosen.1 ≡ length entries
  pub names : (k : Text) → chosen.0 ≡ some k → (e : Entry) × (DashMap.get k chosen.1 ≡ some e)
  pub names_none : chosen.0 ≡ none → length entries ≡ 0

abbrev key_of : Text × Entry → Text
key_of x = x.0

selects {ι} :
    {R : Type ι} (less : R → R → Bool) (rank : Entry → R) (m : Entries)
    → IsDistinct m
    → (k : Text) → Option.map key_of (DashMap.min_by_key less rank m) ≡ some k
    → (e : Entry) × (DashMap.get k m ≡ some e)
selects less rank m d k h = elim (Option-cases (DashMap.min_by_key less rank m)) [
  | inl empty ↦ absurd (ground arith)
  | inr ((j, e), found) ↦ (e, ground (arith, min_by_key-get less rank m d j e found))
]

selects_none {ι} :
    {R : Type ι} (less : R → R → Bool) (rank : Entry → R) (m : Entries)
    → Option.map key_of (DashMap.min_by_key less rank m) ≡ none
    → length m ≡ 0
selects_none less rank [] h = refl
selects_none less rank (x ∷ m) h =
    let (y, found) = min_by_key-some less rank (x ∷ m) (omega arith) in absurd (ground arith)

fair-IsDistinct : (m : Entries) → IsDistinct m → IsDistinct (Lfu.fair m)
unfolding Lfu.fair
fair-IsDistinct m d = elim (Option-cases (Lfu.min_access m)) [
  | inl empty ↦ rw (empty, Lfu.fair) d
  | inr (n, least) ↦ rw (least, Lfu.fair) (update_all-IsDistinct (Lfu.discount n) m d)
]

fair-length : (m : Entries) → length (Lfu.fair m) ≡ length m
unfolding Lfu.fair
fair-length m = elim (Option-cases (Lfu.min_access m)) [
  | inl empty ↦ rw (empty, Lfu.fair)
  | inr (n, least) ↦ rw (least, Lfu.fair) (length-update_all (Lfu.discount n) m)
]

pub victim_key-Chooses :
    (strategy : EvictionStrategy) (m : Entries) → IsDistinct m → Chooses m (victim_key strategy m)
unfolding victim_key Fifo.pick_victim Lfu.pick_victim Lru.pick_victim
victim_key-Chooses fifo m d = record {
  distinct = d;
  size = refl;
  names = selects ltb _ m d;
  names_none = selects_none ltb _ m;
}
victim_key-Chooses lru m d = record {
  distinct = d;
  size = refl;
  names = selects ltb _ m d;
  names_none = selects_none ltb _ m;
}
victim_key-Chooses lfu m d = record {
  distinct = fair-IsDistinct m d;
  size = fair-length m;
  names = selects Lfu.pair_less Lfu.use_rank (Lfu.fair m) (fair-IsDistinct m d);
  names_none = λ h. sym (fair-length m) ∙ selects_none Lfu.pair_less Lfu.use_rank (Lfu.fair m) h;
}

module _ (again : Entries → Entries) (limit : ℕ) (m : Entries) where
  evict_victim-length :
      ((m' : Entries) → IsDistinct m' → length m' < length m → length (again m') ≤ limit - 1)
      → (c : Option Text × Entries) → Chooses m c
      → length (evict_victim again c) ≤ limit - 1
  unfolding evict_victim
  evict_victim-length ih (none, m') ch = omega (arith, ch.names_none refl, ch.size)
  evict_victim-length ih (some k, m') ch =
      let (e, there) = ch.names k refl in
      ih (DashMap.remove k m') (remove-IsDistinct k m' ch.distinct)
        (omega (arith, length-remove-lt k e m' there, ch.size))

-- The loop ends by its test, or with nothing left: with a round for each entry and one to end, at
-- most `limit - 1` entries stay.
pub evict_loop-length :
    (fuel : ℕ) (strategy : EvictionStrategy) (limit : ℕ) (m : Entries)
    → IsDistinct m
    → length m < fuel
    → length (evict_loop fuel strategy limit m) ≤ limit - 1
unfolding evict_loop
evict_loop-length zero strategy limit m d h = absurd (omega arith)
evict_loop-length (suc fuel) strategy limit m d h = elim (Bool-cases (leb limit (length m))) [
  | inr under ↦ rw (under, evict_loop) (ground arith)
  | inl over ↦
      rw (over, evict_loop)
        (evict_victim-length (evict_loop fuel strategy limit) limit m
          (λ m' d' smaller. evict_loop-length fuel strategy limit m' d' (omega arith))
          (victim_key strategy m) (victim_key-Chooses strategy m d))
]

pub evict_entries-length :
    (now limit : ℕ) (b : LocalBackend)
    → IsDistinct b.entries
    → b.config.max_entries ≡ some limit
    → length (evict_entries now b.config b.entries) ≤ limit - 1
unfolding evict_entries
evict_entries-length now limit b d h = elim (Bool-cases (ltb (length b.entries) limit)) [
  | inl room ↦ rw (h, room) (ground arith)
  | inr full ↦
      rw (h, full)
        (evict_loop-length _ b.config.eviction limit
          (DashMap.retain (λ e. ltb now e.expires_at_ms) b.entries)
          (retain-IsDistinct _ b.entries d) (omega arith))
]

-- The loop of the source, with the number of its rounds: it ends when there is room or no victim,
-- and else removes the victim and goes on. A loop that does not end has no `Rounds`.
pub data Rounds (strategy : EvictionStrategy) (limit : ℕ) : Entries → ℕ → Entries → Type 0 where
  room : (m : Entries) → length m < limit → Rounds strategy limit m 0 m
  empty :
      (m chosen : Entries)
      → limit ≤ length m
      → victim_key strategy m ≡ (none, chosen)
      → Rounds strategy limit m 0 chosen
  round :
      (m chosen final : Entries) (k : Text) (n : ℕ)
      → limit ≤ length m
      → victim_key strategy m ≡ (some k, chosen)
      → Rounds strategy limit (DashMap.remove k chosen) n final
      → Rounds strategy limit m (suc n) final

abbrev Ends : EvictionStrategy → ℕ → Entries → Entries → Type 0
Ends strategy limit m final = (n : ℕ) × (n ≤ length m) × Rounds strategy limit m n final

evict_victim-Ends :
    (again : Entries → Entries) (strategy : EvictionStrategy) (limit : ℕ) (m : Entries)
    → limit ≤ length m
    → ((m' : Entries) → IsDistinct m' → length m' < length m → Ends strategy limit m' (again m'))
    → (c : Option Text × Entries) → victim_key strategy m ≡ c
    → Chooses m c
    → Ends strategy limit m (evict_victim again c)
unfolding evict_victim
evict_victim-Ends again strategy limit m over ih (none, chosen) e ch =
    (0, omega arith, empty m chosen over e)
evict_victim-Ends again strategy limit m over ih (some k, chosen) e ch =
    let (entry, there) = ch.names k refl in
    let smaller = length-remove-lt k entry chosen there in
    let (n, few, rounds) =
      ih (DashMap.remove k chosen) (remove-IsDistinct k chosen ch.distinct)
        (omega (arith, smaller, ch.size)) in
    (suc n, omega (arith, few, smaller, ch.size), round m chosen _ k n over e rounds)

-- On entries with distinct keys, and with more fuel than there are entries, the loop of the source
-- ends after at most one round for each entry, and what it leaves is what the loop on fuel returns.
pub evict_loop-Rounds :
    (fuel : ℕ) (strategy : EvictionStrategy) (limit : ℕ) (m : Entries)
    → IsDistinct m
    → length m < fuel
    → (n : ℕ) × (n ≤ length m) × Rounds strategy limit m n (evict_loop fuel strategy limit m)
unfolding evict_loop
evict_loop-Rounds zero strategy limit m d h = absurd (omega arith)
evict_loop-Rounds (suc fuel) strategy limit m d h = elim (Bool-cases (leb limit (length m))) [
  | inr under ↦ rw (under, evict_loop) (0, omega arith, room m (ground arith))
  | inl over ↦
      rw (over, evict_loop)
        (evict_victim-Ends (evict_loop fuel strategy limit) strategy limit m (ground arith)
          (λ m' d' smaller. evict_loop-Rounds fuel strategy limit m' d' (omega arith))
          (victim_key strategy m) refl (victim_key-Chooses strategy m d))
]
