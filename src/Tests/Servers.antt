-- ===== src/Tests/Servers.antt =====
-- Servers that keep what they are told, and the theorems on the backends that use them.
use rbatis_cache.Common.{
  ℕ, ◌+◌, ◌≡◌, refl, ◌∙◌, to_u64_saturating, sym, ap, inl, inr, false, some, none, Option, List, [],
  ◌∷◌, Text, Bytes, ascii, ok, arith, ltb, lt→ltb, if◌then◌else◌, text_same, text_key, Bool-cases,
}
use mathlib.Core.Option
use rbatis_cache.DashMap
use rbatis_cache.DashMap.{get-insert, same_self}
use rbatis_cache.Redis
use rbatis_cache.Redis.{Server, RedisCacheBackend, Outcome, value, error, from_redis, connect}
use rbatis_cache.Redis.Honest.{HonestServer}
use rbatis_cache.Redis.Keyspace.{put-keyspace, bump_generation-keyspace}

pub record Keys : Type 0 where
  pub entries : List (Text × (Bytes × ℕ))
  pub counters : List (Text × ℕ)

abbrev pub live : ℕ → Option (Bytes × ℕ) → Option Bytes
live now none = none
live now (some (bytes, until)) = if ltb now until then some bytes else none

abbrev pub counted : Option ℕ → ℕ
counted none = 0
counted (some n) = n

abbrev incremented : ℕ → Text → Keys → Outcome ℕ × Keys
incremented now key s =
    let n = counted (DashMap.get key s.counters) in
    if ltb n 9223372036854775807
    then (value (n + 1), record s { counters = DashMap.insert key (n + 1) s.counters })
    else (error now (ascii "overflow"), s)

abbrev keeping : Server
keeping = record {
  Store = Keys;
  get = λ now key s. (value (live now (DashMap.get key s.entries)), s);
  psetex = λ now key ms bytes s.
      (value tt, record s { entries = DashMap.insert key (bytes, now + ms) s.entries });
  get_u64 = λ now key s. (value (DashMap.get key s.counters), s);
  incr = λ now key s. incremented now key s;
}

pub get_or-counted : (found : Option ℕ) → Option.get_or found 0 ≡ counted found
get_or-counted none = refl
get_or-counted (some n) = refl

incremented-value :
    (now n : ℕ) (key : Text) (s : Keys)
    → (incremented now key s).0 ≡ value n
    → n ≡ counted (DashMap.get key s.counters) + 1
incremented-value now n key s =
    let m = counted (DashMap.get key s.counters) in
    elim (Bool-cases (ltb m 9223372036854775807)) [
      | inl small ↦ rw small (λ answer. let same : m + 1 ≡ n = cc in sym same)
      | inr large ↦ rw large (λ answer. cc)
    ]

incremented-counter :
    (now n : ℕ) (key : Text) (s : Keys)
    → (incremented now key s).0 ≡ value n
    → DashMap.get key (incremented now key s).1.counters ≡ some n
incremented-counter now n key s =
    let m = counted (DashMap.get key s.counters) in
    elim (Bool-cases (ltb m 9223372036854775807)) [
      | inl small ↦ rw small (λ answer.
          let same : m + 1 ≡ n = cc in
          rw (get-insert key key (m + 1) s.counters, same_self key, same) refl)
      | inr large ↦ rw large (λ answer. cc)
    ]

incremented-other :
    (now : ℕ) (key other : Text) (s : Keys)
    → text_same key other ≡ false
    → (DashMap.get other (incremented now key s).1.counters ≡ DashMap.get other s.counters)
      × ((incremented now key s).1.entries ≡ s.entries)
incremented-other now key other s differ =
    let m = counted (DashMap.get key s.counters) in
    elim (Bool-cases (ltb m 9223372036854775807)) [
      | inl small ↦ rw (small, get-insert key other (m + 1) s.counters, differ) (refl, refl)
      | inr large ↦ rw large (refl, refl)
    ]

keeping-IsHonest : HonestServer keeping
keeping-IsHonest = record {
  get-psetex = λ now later ms key bytes s written h.
      rw (get-insert key key (bytes, now + ms) s.entries, same_self key, lt→ltb later (now + ms) h)
        refl;
  get-psetex_other = λ now later ms key other bytes s h.
      rw (get-insert key other (bytes, now + ms) s.entries, h) refl;
  get_u64-psetex_other = λ now later ms key other bytes s h. refl;
  incr-adds = λ now n key s found there answer.
      let same : DashMap.get key s.counters ≡ found = cc in
      incremented-value now n key s answer
      ∙ (ap (λ g. counted g + 1) same ∙ ap (λ g. g + 1) (sym (get_or-counted found)));
  get_u64-incr = λ now later n key s found there still answer.
      ap value (incremented-counter now n key s answer);
  get_u64-incr_other = λ now later key other s h. ap value (incremented-other now key other s h).0;
  get-incr_other = λ now later key other s h. rw ((incremented-other now key other s h).1) refl;
}

abbrev hash : Bytes → Text
hash bytes = bytes

abbrev connected : RedisCacheBackend Keys
connected = connect from_redis (record { entries = []; counters = [] })

abbrev users : Text
users = ascii "users"

abbrev orders : Text
orders = ascii "orders"

abbrev written : RedisCacheBackend Keys
written = (Redis.put hash keeping 10 users (7 ∷ []) 5000000 connected).1

put_ok : (Redis.put hash keeping 10 users (7 ∷ []) 5000000 connected).0 ≡ ok tt
unfolding Redis.put
put_ok = refl

put-keyspace_example :
    ((Redis.get hash keeping 14 users written).0 ≡ ok (some (7 ∷ [])))
    × ((Redis.get hash keeping 99 orders written).0
        ≡ (Redis.get hash keeping 99 orders connected).0)
    × ((Redis.generation hash keeping 99 users written).0
        ≡ (Redis.generation hash keeping 99 users connected).0)
unfolding Redis.duration_ms to_u64_saturating
put-keyspace_example =
    put-keyspace hash keeping keeping-IsHonest 10 14 99 users orders users (7 ∷ []) 5000000
      connected put_ok (omega arith) (omega arith) refl

abbrev bumped : RedisCacheBackend Keys
bumped = (Redis.bump_generation hash keeping 10 users connected).1

bump_ok : (Redis.bump_generation hash keeping 10 users connected).0 ≡ ok 1
unfolding Redis.bump_generation DashMap.get
bump_ok = refl

no_counter :
    (time : ℕ)
    → (keeping.get_u64 time
        (Redis.generation_key hash keeping users connected)
        connected.connection).0
      ≡ value none
unfolding DashMap.get
no_counter time = refl

bump_generation-keyspace_example :
    (1 ≡ 0 + 1)
    × ((Redis.generation hash keeping 14 users bumped).0 ≡ ok 1)
    × ((Redis.get hash keeping 99 users bumped).0 ≡ (Redis.get hash keeping 99 users connected).0)
    × ((Redis.generation hash keeping 99 orders bumped).0
        ≡ (Redis.generation hash keeping 99 orders connected).0)
bump_generation-keyspace_example =
    bump_generation-keyspace hash keeping keeping-IsHonest 10 14 99 1 users users orders none
      connected bump_ok (omega arith) (no_counter 10) (no_counter 14) refl
