-- ===== src/L1/Laws.antt =====
-- What a `get` of the L1 cache returns, and how many entries there are.
use rbatis_cache.Common.{
  ℕ, ◌+◌, ◌≤◌, ◌<◌, ◌≡◌, ◌≢◌, ◌↔◌, refl, inl, inr, none, some, Text, id_key, length, ltb, leb,
  arith, Option-cases, Bool-cases,
}
use rbatis_cache.DashMap
use rbatis_cache.DashMap.{
  IsDistinct, get-insert, get-insert_self, get-update, get-remove, same_self, length-update,
  length-insert-le, length-remove-le, length-remove-lt, min_by_key-get, min_by_key-some,
}
use rbatis_cache.L1.{L1Entry, L1Cache, get, put, make_room, clear_for_executor, len}

module _ {Value : Type 0} where
  abbrev fresh_entry : ℕ → Value → L1Cache Value → L1Entry Value
  fresh_entry now v c = record { value = v; expires_at = now + c.ttl }

  abbrev expiry : L1Entry Value → ℕ
  expiry e = e.expires_at

  entry-put :
      (now id : ℕ) (digest : Text) (v : Value) (c : L1Cache Value)
      → DashMap.get id (put now id digest v c).entries ≡ some (fresh_entry now v c)
  unfolding put
  entry-put now id digest v c = elim (Option-cases (DashMap.get id c.entries)) [
    | inl gone ↦ rw (gone, put) (get-insert_self id (fresh_entry now v c) (make_room c))
    | inr (old, there) ↦
        rw (there, put)
          (ground (arith, get-update id id (λ _. fresh_entry now v c) c.entries, same_self id))
  ]

  make_room_kept :
      (other : ℕ) (e : L1Entry Value) (c : L1Cache Value)
      → DashMap.get other (make_room c) ≡ some e
      → DashMap.get other c.entries ≡ some e
  unfolding make_room
  make_room_kept other e c h = elim (Option-cases (DashMap.min_by_key ltb expiry c.entries)) [
    | inl empty ↦ ground arith
    | inr ((key, oldest), found) ↦ ground (arith, get-remove key other c.entries)
  ]

  entry-put_ne :
      (now id other : ℕ) (digest : Text) (v : Value) (e : L1Entry Value) (c : L1Cache Value)
      → id ≢ other
      → DashMap.get other (put now id digest v c).entries ≡ some e
      → DashMap.get other c.entries ≡ some e
  unfolding put
  entry-put_ne now id other digest v e c ne h = elim (Option-cases (DashMap.get id c.entries)) [
    | inl gone ↦
        make_room_kept other e c
          (ground (arith, get-insert id other (fresh_entry now v c) (make_room c)))
    | inr (old, there) ↦ ground (arith, get-update id other (λ _. fresh_entry now v c) c.entries)
  ]

  -- What a `get` returns, by the entry that is there.
  get_entry :
      (now id : ℕ) (asked : Text) (v : Value) (c : L1Cache Value)
      → ((get now id asked c).0 ≡ some v) ↔ (
          (e : L1Entry Value) × (DashMap.get id c.entries ≡ some e)
          × (now < e.expires_at)
          × (e.value ≡ v))
  unfolding get
  get_entry now id asked v c = elim (Option-cases (DashMap.get id c.entries)) [
    | inl gone ↦ (λ h. absurd (ground arith), λ (e, there, live, same). absurd (ground arith))
    | inr (e, there) ↦
        (λ h. (e, there, ground arith, ground arith), λ (e', there', live, same). ground arith)
  ]

  -- Before the TTL has passed, an executor gets the value that was put for it last, under whatever
  -- digest it asks.
  pub get-put_any_digest :
      (now later id : ℕ) (digest asked : Text) (v : Value) (c : L1Cache Value)
      → later < now + c.ttl
      → (get later id asked (put now id digest v c)).0 ≡ some v
  get-put_any_digest now later id digest asked v c h =
      (get_entry later id asked v (put now id digest v c)).1
        (fresh_entry now v c, entry-put now id digest v c, h, refl)

  -- What an executor gets after a write for another one, it would have got before it.
  pub get-put_other :
      (now later id other : ℕ) (digest asked : Text) (v w : Value) (c : L1Cache Value)
      → id ≢ other
      → (get later other asked (put now id digest v c)).0 ≡ some w
      → (get later other asked c).0 ≡ some w
  get-put_other now later id other digest asked v w c ne h =
      let (e, there, live, same) = (get_entry later other asked w (put now id digest v c)).0 h in
      (get_entry later other asked w c).1
        (e, entry-put_ne now id other digest v e c ne there, live, same)

  make_room-length :
      (c : L1Cache Value)
      → IsDistinct c.entries
      → 0 < c.max_entries
      → length c.entries ≤ c.max_entries
      → length (make_room c) < c.max_entries
  unfolding make_room
  make_room-length c d pos h = elim (Bool-cases (leb c.max_entries (length c.entries))) [
    | inr room ↦ rw (room, make_room) (ground arith)
    | inl full ↦
        let ((key, oldest), found) = min_by_key-some ltb expiry c.entries (ground arith) in
        rw (full, found, make_room)
          (omega (
            arith,
            length-remove-lt key oldest c.entries
                (min_by_key-get ltb expiry c.entries d key oldest found),
          ))
  ]

  -- A positive bound on the number of executors with an entry is kept, if the keys are distinct.
  pub len-put :
      (now id : ℕ) (digest : Text) (v : Value) (c : L1Cache Value)
      → IsDistinct c.entries
      → 0 < c.max_entries
      → len c ≤ c.max_entries
      → len (put now id digest v c) ≤ c.max_entries
  unfolding len put
  len-put now id digest v c d pos h = elim (Option-cases (DashMap.get id c.entries)) [
    | inl gone ↦
        rw (gone, put)
          (omega (
            arith,
            length-insert-le id (fresh_entry now v c) (make_room c),
            make_room-length c d pos h,
          ))
    | inr (old, there) ↦
        rw (there, put) (omega (arith, length-update id (λ _. fresh_entry now v c) c.entries))
  ]

  pub get-cleared :
      (now id : ℕ) (asked : Text) (c : L1Cache Value)
      → (get now id asked (clear_for_executor id c)).0 ≡ none
  unfolding get clear_for_executor
  get-cleared now id asked c = ground (arith, get-remove id id c.entries, same_self id)

  -- After a DML statement its executor gets nothing from the L1 cache; any other gets what it had.
  pub get-clear_for_executor :
      (now id other : ℕ) (asked : Text) (c : L1Cache Value)
      → id ≢ other
      → ((get now id asked (clear_for_executor id c)).0 ≡ none)
        × ((get now other asked (clear_for_executor id c)).0 ≡ (get now other asked c).0)
  unfolding get clear_for_executor
  get-clear_for_executor now id other asked c ne =
      (get-cleared now id asked c, ground (arith, get-remove id other c.entries))
