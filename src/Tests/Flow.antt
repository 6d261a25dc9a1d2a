-- ===== src/Tests/Flow.antt =====
-- The theorems on `CacheInterceptor`, at concrete inputs.
use rbatis_cache.Common.{
  ℕ, ◌+◌, ◌<◌, ◌≡◌, ◌⊎◌, refl, inl, true, false, some, none, [], ◌∷◌, Text, Bytes, ascii, ok, err,
  arith, saturating_add, wrapping_add, to_u64_saturating, as_u64,
}
use rbatis_cache.DashMap
use rbatis_cache.Envelope
use rbatis_cache.Envelope.Types.{CacheEnvelope}
use rbatis_cache.Error.{CacheError, CacheResult}
use rbatis_cache.Interceptor
use rbatis_cache.Interceptor.{
  CacheRequest, World, Program, cached, get_or_load, leave, enter_flight, second_look, lookup,
  store, invalidate_after_commit, load,
}
use rbatis_cache.Interceptor.Coalesce.{asked, queued, get_or_load-coalesced}
use rbatis_cache.Interceptor.Flow.{Loaded, Hit, Unencoded, get_or_load-origin}
use rbatis_cache.Interceptor.Flights.{left_by, holders, second_look-holders}
use rbatis_cache.Interceptor.RoundTrip.{at, lookup-store, lookup-invalidate_after_commit}
use rbatis_cache.Key
use rbatis_cache.Key.{CacheKey}
use rbatis_cache.Local
use rbatis_cache.Local.{deadline}
use rbatis_cache.Local.Lawful.{local_backend-IsLawful}
use rbatis_cache.Local.Types.{default_config}
use rbatis_cache.Metrics
use rbatis_cache.Policy.{default_policy, CachePolicy}
use rbatis_cache.Sql
use rbatis_cache.Tests.Fixtures.{libraries, backend, request_key, select_one, users}

abbrev policy : CachePolicy
policy = default_policy

abbrev start : Program libraries backend policy
start = record {
  backend = Local.with_config default_config;
  metrics = Metrics.new;
  flights = [];
  now = 1000;
}

abbrev request : CacheRequest
request = record { key = request_key; in_transaction = false }

abbrev in_tx : CacheRequest
in_tx = record { key = request_key; in_transaction = true }

-- A loader that finds the rows 4 and 2, and one that fails.
abbrev loader :
    Program libraries backend policy → CacheResult Bytes × Program libraries backend policy
loader w = (ok (4 ∷ 2 ∷ []), w)

abbrev failing :
    Program libraries backend policy → CacheResult Bytes × Program libraries backend policy
failing w = (err (CacheError.loader (ascii "no rows")), w)

abbrev nobody : Program libraries backend policy → Program libraries backend policy
nobody w = w

get_or_load-origin_example :
    Loaded libraries backend policy loader
      (get_or_load libraries backend policy nobody request loader start).0
    ⊎ Hit libraries backend policy nobody request start
        (get_or_load libraries backend policy nobody request loader start).0
    ⊎ Unencoded libraries backend policy
        (get_or_load libraries backend policy nobody request loader start).0
get_or_load-origin_example = get_or_load-origin libraries backend policy nobody request loader start

abbrev key_at : ℕ → CacheKey
key_at g = Key.key_of libraries request_key g (Sql.metadata_of libraries (select_one ∷ []))

abbrev payload : Bytes
payload = 4 ∷ 2 ∷ []

abbrev stored : Program libraries backend policy
stored = (store libraries backend policy request_key payload policy.ttl start).1

abbrev sealed : Bytes
sealed = 1 ∷ 0 ∷ 301000 ∷ payload

built : Key.build libraries request_key 0 ≡ ok (key_at 0)
unfolding Key.build Sql.parse
built = refl

encoded : Envelope.encode libraries (Envelope.new 1000 (key_at 0) payload policy.ttl) ≡ ok sealed
unfolding Envelope.encode Envelope.new Envelope.duration_ms saturating_add to_u64_saturating
    Sql.metadata_of Sql.tags_of
encoded = refl

decoded : Envelope.decode libraries sealed ≡ ok (Envelope.new 1000 (key_at 0) payload policy.ttl)
unfolding Envelope.decode Envelope.new Envelope.duration_ms saturating_add to_u64_saturating
    Sql.metadata_of Sql.tags_of
decoded = refl

no_generation : (backend.generation 1000 users start.backend).0 ≡ ok 0
unfolding Local.generation Local.read_generation Local.with_config DashMap.get
no_generation = refl

put_ok :
    (backend.put 1000
      (key_at 0).digest
      sealed
      policy.ttl
      (backend.generation 1000 users start.backend).1).0
    ≡ ok tt
unfolding Local.put
put_ok = refl

lookup-store_example :
    (lookup libraries backend policy request_key (at 2000 stored)).0 ≡ ok (some payload)
unfolding Local.generation saturating_add as_u64 Envelope.duration_ms to_u64_saturating
lookup-store_example =
    lookup-store libraries backend deadline (local_backend-IsLawful (λ bytes. bytes)) policy 2000 0
      request_key (key_at 0) payload sealed policy.ttl start (omega arith) no_generation built
      encoded decoded put_ok no_generation (omega arith) (omega arith)

-- What `store` leaves in the backend.
abbrev filled : Program libraries backend policy
filled = record start {
  backend =
      (Local.put 1000 (key_at 0).digest sealed policy.ttl (Local.with_config default_config)).1;
}

hit : (cached libraries backend policy (key_at 0) filled).0 ≡ some payload
unfolding cached Interceptor.fresh_payload Local.get Local.put Local.with_config DashMap.get
    DashMap.insert DashMap.remove saturating_add as_u64 Envelope.decode Envelope.is_fresh
    Local.entry_key Key.preimage rbatis_cache.Key.Preimage.update_component
    rbatis_cache.Common.to_le_bytes to_u64_saturating Sql.metadata_of Sql.join
hit = refl

-- An entry of the generation that the next invalidation gives the namespace.
abbrev ahead : Program libraries backend policy
ahead = record start {
  backend =
      (Local.put 1000 (key_at 1).digest (1 ∷ 1 ∷ 301000 ∷ payload) policy.ttl
        (Local.with_config default_config)).1;
}

bumped : (invalidate_after_commit libraries backend policy users ahead).0 ≡ ok 1
unfolding invalidate_after_commit Local.bump_generation Local.read_generation Local.put
    Local.with_config DashMap.get saturating_add
bumped = refl

found :
    (lookup libraries backend policy request_key
      (at 2000 (invalidate_after_commit libraries backend policy users ahead).1)).0
    ≡ ok (some payload)
unfolding lookup cached Interceptor.fresh_payload Key.build Sql.parse invalidate_after_commit
    Local.bump_generation Local.generation Local.read_generation Local.get Local.put
    Local.with_config DashMap.get DashMap.insert DashMap.remove saturating_add wrapping_add as_u64
    Envelope.decode Envelope.is_fresh Local.entry_key Key.preimage
    rbatis_cache.Key.Preimage.update_component rbatis_cache.Common.to_le_bytes to_u64_saturating
    Sql.join
found = refl

lookup-invalidate_after_commit_example :
    (key : CacheKey) × (bytes : Bytes) × (e : CacheEnvelope) × (Key.build libraries request_key 1
      ≡ ok key)
    × (key.generation ≡ 1)
    × ((backend.get 2000 key.digest
          (backend.generation 2000 users
            (invalidate_after_commit libraries backend policy users ahead).1.backend).1).0
        ≡ ok (some bytes))
    × (Envelope.decode libraries bytes ≡ ok e)
    × (e.generation ≡ 1)
    × (2000 < e.expires_at_ms)
    × (e.payload ≡ payload)
lookup-invalidate_after_commit_example =
    lookup-invalidate_after_commit libraries backend deadline
      (local_backend-IsLawful (λ bytes. bytes)) policy 2000 1 request_key payload ahead bumped
      (omega arith) found

abbrev digest : Text
digest = (key_at 0).digest

entered :
    holders libraries backend policy digest (enter_flight libraries backend policy digest start)
    ≡ some 1
unfolding enter_flight DashMap.get DashMap.insert DashMap.remove Key.preimage
    rbatis_cache.Key.Preimage.update_component rbatis_cache.Common.to_le_bytes to_u64_saturating
    Sql.metadata_of Sql.join
entered = refl

after_load :
    holders libraries backend policy digest
      (load libraries backend policy failing (enter_flight libraries backend policy digest start)).1
    ≡ some 1
unfolding load enter_flight DashMap.get DashMap.insert DashMap.remove Key.preimage
    rbatis_cache.Key.Preimage.update_component rbatis_cache.Common.to_le_bytes to_u64_saturating
    Sql.metadata_of Sql.join
after_load = refl

abbrev failed : CacheResult Bytes × Program libraries backend policy
failed =
    second_look libraries backend policy (key_at 0) failing none
      (enter_flight libraries backend policy digest start)

second_look-holders_example :
    holders libraries backend policy digest failed.1 ≡ left_by libraries backend policy failed.0
second_look-holders_example =
    second_look-holders libraries backend policy (key_at 0) failing none
      (enter_flight libraries backend policy digest start) entered after_load

-- The first of two callers has loaded; the second waits, with a loader that would fail.
abbrev loaded_first : Program libraries backend policy
loaded_first =
    (load libraries backend policy loader
      (queued libraries backend policy request (key_at 0) start)).1

nothing_yet :
    (cached libraries backend policy (key_at 0) (asked libraries backend policy request start)).0
    ≡ none
unfolding cached Local.get Local.generation Local.with_config DashMap.get
nothing_yet = refl

first_loads :
    load libraries backend policy loader (queued libraries backend policy request (key_at 0) start)
    ≡ (ok payload, loaded_first)
unfolding load
first_loads = refl

clock_first : loaded_first.now ≡ 1000
unfolding load cached enter_flight Local.get DashMap.get Local.generation Local.with_config
clock_first = refl

parses : Sql.parse libraries request.key.sql ≡ ok (Sql.metadata_of libraries (select_one ∷ []))
unfolding Sql.parse
parses = refl

put_first :
    (backend.put loaded_first.now (key_at 0).digest sealed policy.ttl loaded_first.backend).0
    ≡ ok tt
unfolding Local.put
put_first = refl

lives_on :
    (loaded_first.now < deadline loaded_first.now policy.ttl)
    × (loaded_first.now < saturating_add loaded_first.now (Envelope.duration_ms policy.ttl))
unfolding saturating_add as_u64 Envelope.duration_ms to_u64_saturating
lives_on = rw clock_first (omega arith, omega arith)

get_or_load-coalesced_example :
    (get_or_load libraries backend policy
      (λ v. (second_look libraries backend policy (key_at 0) loader none v).1)
      request
      failing
      start).0
    ≡ ok payload
unfolding Sql.metadata_of
get_or_load-coalesced_example =
    get_or_load-coalesced libraries backend deadline (local_backend-IsLawful (λ bytes. bytes))
      policy request loader failing start loaded_first (Sql.metadata_of libraries (select_one ∷ []))
      0 (key_at 0) payload sealed parses refl no_generation built nothing_yet first_loads
      (omega arith) (rw clock_first encoded) (rw clock_first decoded) put_first lives_on.0
      lives_on.1
