-- ===== src/L1.antt =====
-- src/l1.rs: the cache of each executor in the process. Its clock is `Instant::now()`, in
-- nanoseconds. A value is shared, and never changed, so a value stands for its `Arc`. A deadline
-- is taken to be a time that an `Instant` can hold: the source panics where `Instant::now() +
-- ttl` is not.
pub mod Laws
use mathlib.Core.Option
use rbatis_cache.Common.{
  ℕ, ◌+◌, max, Bool, true, false, Option, none, some, List, [], Text, Duration, id_key, length, ltb,
  leb, if◌then◌else◌,
}
use rbatis_cache.DashMap

pub record L1Entry (Value : Type 0) : Type 0 where
  pub value : Value
  pub expires_at : ℕ

pub record L1Cache (Value : Type 0) : Type 0 where
  pub entries : List (ℕ × L1Entry Value)
  pub max_entries : ℕ
  pub ttl : Duration

module _ {Value : Type 0} where
  unfoldable pub new : ℕ → Duration → L1Cache Value
  new max_entries ttl = record { entries = []; max_entries = max max_entries 1; ttl = ttl }

  -- The digest is taken, and not used.
  unfoldable pub get : ℕ → ℕ → Text → L1Cache Value → Option Value × L1Cache Value
  get now executor_id digest c = elim (DashMap.get executor_id c.entries) [
    | none ↦ (none, c)
    | some entry ↦
        if leb entry.expires_at now
        then (none, record c { entries = DashMap.remove executor_id c.entries })
        else (some entry.value, c)
  ]

  -- At the bound the entry that expires first goes.
  unfoldable pub make_room : L1Cache Value → List (ℕ × L1Entry Value)
  make_room c =
      if leb c.max_entries (length c.entries)
      then (elim (DashMap.min_by_key ltb (λ (e : L1Entry Value). e.expires_at) c.entries) [
        | none ↦ c.entries
        | some (key, oldest) ↦ DashMap.remove key c.entries
      ])
      else c.entries

  -- For a deadline that an `Instant` can hold.
  unfoldable pub put : ℕ → ℕ → Text → Value → L1Cache Value → L1Cache Value
  unfolding make_room
  put now executor_id digest value c =
      let entry : L1Entry Value = record { value = value; expires_at = now + c.ttl } in
      elim (DashMap.get executor_id c.entries) [
        | some old ↦ record c { entries = DashMap.update executor_id (λ _. entry) c.entries }
        | none ↦ record c { entries = DashMap.insert executor_id entry (make_room c) }
      ]

  unfoldable pub clear_for_executor : ℕ → L1Cache Value → L1Cache Value
  clear_for_executor executor_id c = record c { entries = DashMap.remove executor_id c.entries }

  unfoldable pub len : L1Cache Value → ℕ
  len c = length c.entries
