-- ===== src/Tests/Hooks.antt =====
-- The theorems on the hooks and on the listener, at concrete inputs.
use rbatis_cache.Common.{
  ℕ, ◌+◌, ◌<◌, ◌≡◌, ◌≢◌, refl, true, false, some, none, [], ◌∷◌, Bytes, Text, List, ascii, ok, err,
  from_secs, arith, id_key, text_key, saturating_add, to_u64_saturating, as_u64,
}
use rbatis_cache.DashMap
use rbatis_cache.Envelope
use rbatis_cache.Executor.Types.{
  Executor, Error, RbatisCacheInterceptor, is_cacheable, is_in_transaction, build_key_input,
  resolve_key,
}
use rbatis_cache.Executor.Before.{next, return_value, before_query}
use rbatis_cache.Executor.After.{after_query, after_exec, is_deferring}
use rbatis_cache.Executor.Deferred.{before_query-after_query}
use rbatis_cache.Executor.Modes.{locking-passes}
use rbatis_cache.Executor.FailOpen.{Returns, before_query-fail_open}
use rbatis_cache.Executor.Invalidate.{after_exec-outside, after_exec-inside}
use rbatis_cache.Executor.Rollback.{Statement, query, exec, after_rollback, rollback-all}
use rbatis_cache.Executor.RoundTrip.{Storable, at, after_query-before_query}
use rbatis_cache.Executor.Session.{before_query-l1}
use rbatis_cache.Key
use rbatis_cache.Key.{CacheKey}
use rbatis_cache.L1
use rbatis_cache.Listener.{CacheTransactionListener, TransactionEvent, rollback, begin, on_event}
use rbatis_cache.Listener.Laws.{on_event-ends}
use rbatis_cache.Local
use rbatis_cache.Local.{LocalBackend, deadline}
use rbatis_cache.Local.Lawful.{local_backend-IsLawful}
use rbatis_cache.Shared.{State}
use rbatis_cache.Sql
use rbatis_cache.Transactional.{TransactionalCacheBuffer}
use rbatis_cache.Tests.Fixtures.{
  libraries, backend, interceptor, deferring, idle, session, other_session, transaction, select_one,
  select_two, users,
}

abbrev nobody : State libraries backend → State libraries backend
nobody s = s

before_query-fail_open_example :
    Returns (before_query libraries backend interceptor nobody 9 session select_one [] idle).0
before_query-fail_open_example =
    before_query-fail_open libraries backend interceptor refl nobody 9 session select_one [] idle

inside : is_in_transaction transaction ≡ true
unfolding is_in_transaction rbatis_cache.Sql.Contains.contains
inside = refl

outside : is_in_transaction session ≡ false
unfolding is_in_transaction rbatis_cache.Sql.Contains.contains
outside = refl

also_outside : is_in_transaction other_session ≡ false
unfolding is_in_transaction rbatis_cache.Sql.Contains.contains
also_outside = refl

bumped : (backend.bump_generation 1000 users idle.backend).0 ≡ ok 1
unfolding Local.bump_generation Local.read_generation Local.with_config DashMap.get saturating_add
bumped = refl

after_exec-outside_example :
    ((after_exec libraries backend interceptor 9 session (ok 2) idle).0 ≡ ok tt)
    × ((backend.generation 2000 users
          (after_exec libraries backend interceptor 9 session (ok 2) idle).1.backend).0
        ≡ ok 1)
    × ((L1.get 6 1 select_one
          (after_exec libraries backend interceptor 9 session (ok 2) idle).1.l1).0
        ≡ none)
after_exec-outside_example =
    after_exec-outside libraries backend interceptor deadline
      (local_backend-IsLawful (λ bytes. bytes)) 9 2000 6 1 2 session select_one idle (omega arith)
      outside bumped (omega arith)

abbrev buffer : TransactionalCacheBuffer ℕ
buffer = record { pending_add = []; clear_namespaces = []; ttl = from_secs 300 }

abbrev begun : State libraries backend
begun = record idle { tx_buffers = (9, buffer) ∷ [] }

there : DashMap.get 9 begun.tx_buffers ≡ some buffer
unfolding DashMap.get
there = refl

after_exec-inside_example :
    ((after_exec libraries backend deferring 9 transaction (ok 2) begun).0 ≡ ok tt)
    × ((after_exec libraries backend deferring 9 transaction (ok 2) begun).1.backend
        ≡ begun.backend)
    × ((L1.get 6 3 select_one
          (after_exec libraries backend deferring 9 transaction (ok 2) begun).1.l1).0
        ≡ none)
    × ((marked : TransactionalCacheBuffer ℕ) × (DashMap.get 9
            (after_exec libraries backend deferring 9 transaction (ok 2) begun).1.tx_buffers
          ≡ some marked)
        × (DashMap.get users marked.clear_namespaces ≡ some tt)
        × (marked.pending_add ≡ buffer.pending_add))
after_exec-inside_example =
    after_exec-inside libraries backend deferring 9 6 2 transaction select_one buffer begun
      (omega arith) inside refl there

abbrev listener : CacheTransactionListener
listener = record { namespace = users; ttl = from_secs 300; defer_mode = true }

abbrev rolled_back : TransactionEvent
rolled_back = record { event_type = rollback; tx_id = 9 }

rollback_not_begin : rollback ≢ begin
rollback_not_begin h = cc

on_event-ends_example :
    ((on_event libraries backend listener rolled_back begun).0 ≡ ok tt)
    × (DashMap.get 9 (on_event libraries backend listener rolled_back begun).1.tx_buffers ≡ none)
on_event-ends_example =
    on_event-ends libraries backend listener rolled_back begun refl rollback_not_begin

abbrev key_of_one : CacheKey
key_of_one =
    Key.key_of libraries (build_key_input libraries users session select_one []) 0
      (Sql.metadata_of libraries (select_one ∷ []))

abbrev sealed_seven : Bytes
sealed_seven = 1 ∷ 0 ∷ 301000 ∷ 7 ∷ []

storable :
    Storable libraries backend deadline
      (local_backend-IsLawful (λ bytes. bytes))
      interceptor
      1000
      key_of_one
      7
      (from_secs 300)
unfolding Envelope.encode Envelope.decode Envelope.new Envelope.duration_ms saturating_add
    to_u64_saturating Sql.metadata_of Sql.tags_of
storable = record {
  payload = 7 ∷ [];
  bytes = sealed_seven;
  encoded = refl;
  decoded = refl;
  size = omega arith;
  sealed = refl;
  opened = refl;
}

cacheable : is_cacheable libraries interceptor.policy select_one ≡ true
unfolding is_cacheable Sql.parse Sql.is_cacheable rbatis_cache.Sql.Contains.contains
    Sql.to_ascii_lowercase Sql.join
cacheable = refl

stores : is_deferring libraries backend interceptor session ≡ false
unfolding is_deferring is_in_transaction rbatis_cache.Sql.Contains.contains
stores = refl

no_generation : (backend.generation 1000 users idle.backend).0 ≡ ok 0
unfolding Local.generation Local.read_generation Local.with_config DashMap.get
no_generation = refl

built :
    Key.build libraries (build_key_input libraries users session select_one []) 0 ≡ ok key_of_one
unfolding Key.build Sql.parse build_key_input
built = refl

put_ok :
    (backend.put 1000 key_of_one.digest sealed_seven
      (from_secs 300)
      (backend.generation 1000 users idle.backend).1).0
    ≡ ok tt
unfolding Local.put
put_ok = refl

cold : (L1.get 6 2 key_of_one.digest (L1.put 5 1 key_of_one.digest 7 idle.l1)).0 ≡ none
unfolding L1.get L1.put L1.new DashMap.get DashMap.insert
cold = refl

after_query-before_query_example :
    (before_query libraries backend interceptor nobody 8 other_session select_one [] (
      at 2000 6
        (after_query libraries backend interceptor 9 session select_one [] (ok 7) idle).1)).0
    ≡ ok (return_value 7)
unfolding saturating_add as_u64 Envelope.duration_ms to_u64_saturating
    rbatis_cache.Executor.Types.is_empty Local.generation storable
after_query-before_query_example =
    after_query-before_query libraries backend deadline (local_backend-IsLawful (λ bytes. bytes))
      interceptor nobody 9 8 session other_session select_one [] 0 2000 6 key_of_one 7 idle storable
      cacheable stores also_outside refl refl no_generation no_generation built put_ok cold
      (omega arith) (omega arith)

abbrev key_of_two : CacheKey
key_of_two =
    Key.key_of libraries (build_key_input libraries users session select_two []) 0
      (Sql.metadata_of libraries (select_two ∷ []))

also_cacheable : is_cacheable libraries interceptor.policy select_two ≡ true
unfolding is_cacheable Sql.parse Sql.is_cacheable rbatis_cache.Sql.Contains.contains
    Sql.to_ascii_lowercase Sql.join
also_cacheable = refl

resolved :
    (resolve_key libraries backend interceptor
      (build_key_input libraries users session select_two [])
      (record idle { l1 = L1.put 0 1 select_one 7 idle.l1 })).0
    ≡ ok key_of_two
unfolding resolve_key Key.build Sql.parse Local.generation Local.read_generation Local.with_config
    DashMap.get rbatis_cache.Executor.Types.key_at build_key_input
resolved = refl

live : 5 < 0 + idle.l1.ttl
unfolding L1.new
live = omega arith

before_query-l1_example :
    (before_query libraries backend interceptor nobody 9 session select_two []
      (record idle { l1 = L1.put 0 1 select_one 7 idle.l1 })).0
    ≡ ok (return_value 7)
before_query-l1_example =
    before_query-l1 libraries backend interceptor nobody 9 0 session select_two [] select_one
      key_of_two 7 idle also_cacheable outside live resolved

abbrev key_inside : CacheKey
key_inside =
    Key.key_of libraries (build_key_input libraries users transaction select_one []) 0
      (Sql.metadata_of libraries (select_one ∷ []))

cacheable_inside : is_cacheable libraries deferring.policy select_one ≡ true
unfolding is_cacheable Sql.parse Sql.is_cacheable rbatis_cache.Sql.Contains.contains
    Sql.to_ascii_lowercase Sql.join
cacheable_inside = refl

holds_back : is_deferring libraries backend deferring transaction ≡ true
unfolding is_deferring is_in_transaction rbatis_cache.Sql.Contains.contains
holds_back = refl

first_generation : (backend.generation 1000 users begun.backend).0 ≡ ok 0
unfolding Local.generation Local.read_generation Local.with_config DashMap.get
first_generation = refl

built_inside :
    Key.build libraries (build_key_input libraries users transaction select_one []) 0
    ≡ ok key_inside
unfolding Key.build Sql.parse build_key_input
built_inside = refl

abbrev queried : State libraries backend
queried = (after_query libraries backend deferring 9 transaction select_one [] (ok 7) begun).1

before_query-after_query_example :
    (queried.backend ≡ (backend.generation 1000 users begun.backend).1)
    × (before_query libraries backend deferring nobody 9 transaction select_one [] queried
        ≡ (ok (return_value 7), queried))
unfolding Key.preimage rbatis_cache.Key.Preimage.update_component rbatis_cache.Common.to_le_bytes
    to_u64_saturating build_key_input Sql.metadata_of Sql.join
    rbatis_cache.Executor.Types.args_to_bytes
before_query-after_query_example =
    before_query-after_query libraries backend deferring nobody 9 transaction select_one [] 7 0
      key_inside key_inside buffer begun cacheable_inside holds_back refl there first_generation
      built_inside built_inside

abbrev locking : Text
locking = ascii "select 1 FOR UPDATE nowait"

lowered : Sql.to_ascii_lowercase (ascii "FOR UPDATE") ≡ ascii "for update"
unfolding Sql.to_ascii_lowercase
lowered = refl

locking-passes_example :
    (before_query libraries backend interceptor nobody 9 session locking [] idle ≡ (ok next, idle))
    × (after_query libraries backend interceptor 9 session locking [] (ok 7) idle ≡ (ok tt, idle))
locking-passes_example =
    locking-passes libraries backend interceptor nobody 9 session locking (ascii "select 1 ")
      (ascii "FOR UPDATE") (ascii " nowait") locking [] (ok 7) idle refl refl lowered

abbrev statements : List (Statement libraries)
statements =
    query select_one [] (ok 7) ∷ exec (ok 2) ∷ query select_two [] (err (ascii "gone")) ∷ []

read_without_trace :
    (now : ℕ) (namespace : Text) (s : LocalBackend) → (backend.generation now namespace s).1 ≡ s
unfolding Local.generation
read_without_trace now namespace s = refl

rollback-all_example :
    ((after_rollback libraries backend deferring 9 transaction listener statements idle).backend
      ≡ idle.backend)
    × (DashMap.get 9
          (after_rollback libraries backend deferring 9 transaction listener statements
            idle).tx_buffers
        ≡ none)
rollback-all_example =
    rollback-all libraries backend deferring 9 transaction inside refl read_without_trace listener
      statements idle refl
