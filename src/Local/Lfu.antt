-- ===== src/Local/Lfu.antt =====
-- src/local/lfu.rs: the victim is the entry with the fewest accesses, the oldest of several.
use mathlib.Core.Option
use rbatis_cache.Common.{
  ℕ, ◌-◌, Bool, ◌&&◌, ◌||◌, Option, none, some, [], ◌∷◌, Text, ltb, ◌==◌, min,
}
use rbatis_cache.DashMap.{update_all, min_by_key}
use rbatis_cache.Local.Types.{Entry, Entries}

-- `entries.iter().map(|e| e.accesses).min()`
unfoldable pub min_access : Entries → Option ℕ
min_access [] = none
min_access ((k, e) ∷ entries) = elim (min_access entries) [
  | none ↦ some e.accesses
  | some n ↦ some (min e.accesses n)
]

-- `accesses.saturating_sub(min_access)`
unfoldable pub discount : ℕ → Entry → Entry
discount n e = record e { accesses = e.accesses - n }

-- The first step: the least counter is taken off every counter.
unfoldable pub fair : Entries → Entries
unfolding discount min_access
fair entries = elim (min_access entries) [
  | none ↦ entries
  | some n ↦ update_all (discount n) entries
]

-- `<` on the pairs (accesses, insert_seq)
abbrev pub pair_less : ℕ × ℕ → ℕ × ℕ → Bool
pair_less a b = ltb a.0 b.0 || (a.0 == b.0 && ltb a.1 b.1)

abbrev pub use_rank : Entry → ℕ × ℕ
use_rank e = (e.accesses, e.insert_seq)

-- The victim, with the entries after the counters were lowered.
unfoldable pub pick_victim : Entries → Option Text × Entries
unfolding fair
pick_victim entries =
    let lowered = fair entries in
    (Option.map (λ x. x.0) (min_by_key pair_less use_rank lowered), lowered)
