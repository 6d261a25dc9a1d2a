-- ===== src/Local/Reads.antt =====
-- What a `get` returns after a `put`, and what the generations count.
use mathlib.Core.Option
use rbatis_cache.Common.{
  ℕ, ◌≤◌, ◌<◌, ◌≡◌, refl, inl, inr, Option, none, some, Text, Bytes, Duration, ok, text_key,
  text_same, text_same_iff, ltb, if◌then◌else◌, arith, Option-cases, lt→ltb, le→ltb-false, ap, ◌≢◌,
}
use rbatis_cache.DashMap
use rbatis_cache.DashMap.{
  IsDistinct, get-remove, get-insert, get-insert_self, get-update, same_self, keep,
}
use rbatis_cache.Local.{
  LocalBackend, expired, unexpired, entry_key, deadline, touch, remove_if, record_access, new_entry,
  evict_entries, get, put,
}
use rbatis_cache.Local.Types.{Entry, Entries}
use rbatis_cache.Local.Frame.{Within, evict_entries-Within}

-- The value that an entry of the map shows at a time.
abbrev pub visible : ℕ → Option Entry → Option Bytes
visible now none = none
visible now (some e) = if ltb now e.expires_at_ms then some e.bytes else none

pub get-visible :
    (now : ℕ) (key : Text) (b : LocalBackend)
    → (get now key b).0 ≡ ok (visible now (DashMap.get (entry_key key) b.entries))
unfolding get
get-visible now key b = ground arith

pub entry_key-same : (j k : Text) → text_same (entry_key j) (entry_key k) ≡ text_same j k
unfolding entry_key
entry_key-same j k = refl

get-remove_if :
    (k j : Text) (now : ℕ) (m : Entries)
    → DashMap.get j (remove_if k (expired now) m)
      ≡ (if text_same k j then keep (unexpired now) (DashMap.get j m) else DashMap.get j m)
unfolding remove_if
get-remove_if k j now m =
    ground (arith, get-remove k j m, text_same_iff k j, λ (p : k ≡ j). ap (λ i. DashMap.get i m) p)

get-record_access :
    (k j : Text) (b : LocalBackend)
    → DashMap.get j (record_access k b).entries ≡ (
        if text_same k j
        then Option.map (touch b.seq) (DashMap.get j b.entries)
        else DashMap.get j b.entries)
unfolding record_access
get-record_access k j b = ground (
  arith,
  get-update k j (touch b.seq) b.entries,
  text_same_iff k j,
  λ (p : k ≡ j). ap (λ i. DashMap.get i b.entries) p,
)

-- The entries after a `get`: an expired entry is gone, a live one is marked as used.
pub entries-get :
    (now : ℕ) (key j : Text) (b : LocalBackend)
    → DashMap.get j (get now key b).1.entries ≡ (
        if text_same (entry_key key) j
        then Option.map (touch b.seq) (keep (unexpired now) (DashMap.get j b.entries))
        else DashMap.get j b.entries)
unfolding get
entries-get now key j b = ground (
  arith,
  get-record_access (entry_key key) j
      (record b { entries = remove_if (entry_key key) (expired now) b.entries }),
  get-remove_if (entry_key key) j now b.entries,
)

visible-Within :
    (now : ℕ) (k : Text) (v : Bytes) (after before : Entries)
    → Within after before
    → visible now (DashMap.get k after) ≡ some v
    → visible now (DashMap.get k before) ≡ some v
visible-Within now k v after before w h = elim (Option-cases (DashMap.get k after)) [
  | inl gone ↦ absurd (ground arith)
  | inr (e', there) ↦
      let (e, was, same) = w.at k e' there in ground (arith, same.bytes, same.deadline)
]

module _ (now later : ℕ) (key : Text) (value : Bytes) (ttl : Duration) (b : LocalBackend) where
  -- Until its deadline, a value that was put is what `get` returns, whatever was evicted for it.
  pub get-put :
      later < deadline now ttl → (get later key (put now key value ttl b).1).0 ≡ ok (some value)
  unfolding put
  get-put h = rw get-visible (rw (get-insert_self, lt→ltb later (deadline now ttl) h))

  -- From its deadline on, `get` returns nothing, and takes the entry out of the map.
  pub get-put_expired :
      deadline now ttl ≤ later
      → ((get later key (put now key value ttl b).1).0 ≡ ok none)
        × (DashMap.get (entry_key key) (get later key (put now key value ttl b).1).1.entries ≡ none)
  unfolding put
  get-put_expired h = (
    rw get-visible (rw (get-insert_self, le→ltb-false later (deadline now ttl) h)),
    rw (
      entries-get,
      same_self (entry_key key),
      get-insert_self,
      le→ltb-false later (deadline now ttl) h,
    ),
  )

  -- With distinct keys, a write of one key never changes what another key shows: the other value
  -- stays, or was evicted.
  pub get-put_ne :
      (j : Text) (found : Bytes)
      → IsDistinct b.entries
      → key ≢ j
      → (get later j (put now key value ttl b).1).0 ≡ ok (some found)
      → (get later j b).0 ≡ ok (some found)
  unfolding put
  get-put_ne j found d other h =
      let evicted = evict_entries now b.config b.entries in
      let shown : visible later (DashMap.get (entry_key j) evicted) ≡ some found = ground (
        arith,
        get-visible later j (put now key value ttl b).1,
        get-insert (entry_key key) (entry_key j) (new_entry value (deadline now ttl) b) evicted,
        entry_key-same key j,
        text_same_iff key j,
      ) in
      rw get-visible (
        ap ok (
          visible-Within later (entry_key j) found evicted b.entries
            (evict_entries-Within now b.config b.entries d).0 shown))
