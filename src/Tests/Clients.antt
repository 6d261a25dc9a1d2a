-- ===== src/Tests/Clients.antt =====
-- A memcache client that keeps what it is told, and the theorems on the backend that uses it.
use rbatis_cache.Common.{
  ℕ, ◌+◌, ◌*◌, ◌<◌, ◌≤◌, ◌≡◌, refl, ap, true, false, some, none, Option, [], ◌∷◌, Text, Bytes,
  Result, ascii, ok, err, arith, leb, lt→ltb, if◌then◌else◌, text_same, text_key, from_secs,
}
use mathlib.Core.Option
use rbatis_cache.DashMap
use rbatis_cache.DashMap.{get-insert, same_self}
use rbatis_cache.Memcached
use rbatis_cache.Memcached.{MemcacheClient, MemcachedCacheBackend}
use rbatis_cache.Memcached.Honest.{HonestClient}
use rbatis_cache.Memcached.Keyspace.{bump_generation-keys}
use rbatis_cache.Tests.Servers.{Keys, live}

-- Up to 30 days a lifetime counts from now; a larger number is a Unix time.
abbrev ends_at : ℕ → ℕ → ℕ
ends_at now seconds = if leb seconds 2592000 then now + 1000 * seconds else 1000 * seconds

abbrev added : Text → Option ℕ → Keys → Result Text (Unit {0}) × Keys
added key none s = (ok tt, record s { counters = DashMap.insert key 0 s.counters })
added key (some n) s = (err (ascii "NOT_STORED"), s)

abbrev incremented : Text → Option ℕ → Keys → Result Text ℕ × Keys
incremented key none s = (err (ascii "NOT_FOUND"), s)
incremented key (some n) s =
    (ok (n + 1), record s { counters = DashMap.insert key (n + 1) s.counters })

abbrev keeping : MemcacheClient
keeping = record {
  Store = Keys;
  get = λ now key s. (ok (live now (DashMap.get key s.entries)), s);
  set = λ now key bytes seconds s.
      (ok tt, record s { entries = DashMap.insert key (bytes, ends_at now seconds) s.entries });
  delete = λ now key s. (ok true, record s { entries = DashMap.remove key s.entries });
  get_u64 = λ now key s. (ok (DashMap.get key s.counters), s);
  add = λ now key n seconds s. added key (DashMap.get key s.counters) s;
  increment = λ now key n s. incremented key (DashMap.get key s.counters) s;
  gzip = λ bytes. ok bytes;
  gunzip = λ bytes. ok bytes;
}

added-value :
    (key : Text) (found : Option ℕ) (s : Keys)
    → DashMap.get key s.counters ≡ found
    → DashMap.get key (added key found s).1.counters ≡ some (Option.get_or found 0)
added-value key none s there = rw (get-insert key key 0 s.counters, same_self key) refl
added-value key (some n) s there = there

added-other :
    (key other : Text) (found : Option ℕ) (s : Keys)
    → text_same key other ≡ false
    → (DashMap.get other (added key found s).1.counters ≡ DashMap.get other s.counters)
      × ((added key found s).1.entries ≡ s.entries)
added-other key other none s differ = rw (get-insert key other 0 s.counters, differ) (refl, refl)
added-other key other (some n) s differ = (refl, refl)

incremented-value :
    (n : ℕ) (key : Text) (found : Option ℕ) (s : Keys)
    → (incremented key found s).0 ≡ ok n
    → DashMap.get key (incremented key found s).1.counters ≡ some n
incremented-value n key none s answer = cc
incremented-value n key (some m) s answer =
    let same : m + 1 ≡ n = cc in
    rw (get-insert key key (m + 1) s.counters, same_self key, same) refl

incremented-other :
    (key other : Text) (found : Option ℕ) (s : Keys)
    → text_same key other ≡ false
    → (DashMap.get other (incremented key found s).1.counters ≡ DashMap.get other s.counters)
      × ((incremented key found s).1.entries ≡ s.entries)
incremented-other key other none s differ = (refl, refl)
incremented-other key other (some n) s differ =
    rw (get-insert key other (n + 1) s.counters, differ) (refl, refl)

get-set_kept :
    (now later seconds : ℕ) (key : Text) (bytes : Bytes) (s : Keys)
    → seconds ≤ 2592000
    → later + 1000 < now + 1000 * seconds
    → live later (DashMap.get key (DashMap.insert key (bytes, ends_at now seconds) s.entries))
      ≡ some bytes
get-set_kept now later seconds key bytes s short kept =
    let relative : leb seconds 2592000 ≡ true = ground arith in
    rw
      (
        get-insert key key (bytes, ends_at now seconds) s.entries,
        same_self key,
        relative,
        lt→ltb later (now + 1000 * seconds) (omega arith),
      )
      refl

keeping-IsHonest : HonestClient keeping
keeping-IsHonest = record {
  get-set = λ now later seconds key bytes s written short kept.
      ap ok (get-set_kept now later seconds key bytes s short kept);
  get-set_other = λ now later seconds key other bytes s h.
      rw (get-insert key other (bytes, ends_at now seconds) s.entries, h) refl;
  get_u64-set_other = λ now later seconds key other bytes s h. refl;
  get_u64-add = λ now key s found there.
      let same : DashMap.get key s.counters ≡ found = cc in
      rw (same) (ap ok (added-value key found s same));
  get-add_other = λ now later key other s h.
      rw ((added-other key other (DashMap.get key s.counters) s h).1) refl;
  get_u64-add_other =
      λ now later key other s h. ap ok (added-other key other (DashMap.get key s.counters) s h).0;
  increment-ok = λ now n key s there small.
      let same : DashMap.get key s.counters ≡ some n = cc in rw (same) refl;
  get_u64-increment = λ now later n key s there.
      ap ok (incremented-value n key (DashMap.get key s.counters) s there);
  get-increment_other = λ now later key other s h.
      rw ((incremented-other key other (DashMap.get key s.counters) s h).1) refl;
  get_u64-increment_other = λ now later key other s h.
      ap ok (incremented-other key other (DashMap.get key s.counters) s h).0;
}

abbrev hash : Bytes → Text
hash bytes = bytes

abbrev connected : MemcachedCacheBackend Keys
connected = record {
  client = record { entries = []; counters = [] };
  key_prefix = ascii "rbatis:cache";
  compression = true;
}

abbrev users : Text
users = ascii "users"

abbrev orders : Text
orders = ascii "orders"

abbrev written : MemcachedCacheBackend Keys
written = (Memcached.put keeping 10 users (7 ∷ []) (from_secs 5) connected).1

bump_generation-keys_example :
    ((Memcached.bump_generation keeping hash 10 users connected).0 ≡ ok 1)
    × ((Memcached.generation keeping hash 14 users
          (Memcached.bump_generation keeping hash 10 users connected).1).0
        ≡ ok 1)
    × ((Memcached.get keeping 14 users
          (Memcached.bump_generation keeping hash 10 users connected).1).0
        ≡ (Memcached.get keeping 14 users connected).0)
    × ((Memcached.generation keeping hash 14 orders
          (Memcached.bump_generation keeping hash 10 users connected).1).0
        ≡ (Memcached.generation keeping hash 14 orders connected).0)
unfolding DashMap.get
bump_generation-keys_example =
    bump_generation-keys hash keeping keeping-IsHonest 10 14 users users orders none connected refl
      (omega arith) refl
