-- ===== src/Interceptor.antt =====
-- CacheInterceptor of src/interceptor.rs, over any backend. A method takes the state of the whole
-- program and returns it with its result, so that a loader, and a wait for a lock, may change it:
-- what the rest of the program does meanwhile is an argument.
pub mod Flow
pub mod Coalesce
pub mod Flights
pub mod RoundTrip
use rbatis_cache.Common.{
  ℕ, ◌-◌, ◌+◌, ◌≤◌, Bool, true, false, not, ◌||◌, ◌&&◌, Option, none, some, List, [], Text, Bytes,
  Duration, text_key, ok, err, length, leb, ltb, ◌==◌, if◌then◌else◌, Result,
}
use rbatis_cache.Backend.{CacheBackend}
use rbatis_cache.DashMap
use rbatis_cache.Envelope
use rbatis_cache.Envelope.Types.{CacheEnvelope}
use rbatis_cache.Error.{CacheResult}
use rbatis_cache.External.{External}
use rbatis_cache.Key
use rbatis_cache.Key.{CacheKey, CacheKeyInput}
use rbatis_cache.Metrics
use rbatis_cache.Metrics.{CacheMetrics}
use rbatis_cache.Policy.{CachePolicy}
use rbatis_cache.Sql
use rbatis_cache.Sql.{SqlMetadata}

pub record CacheRequest : Type 0 where
  pub key : CacheKeyInput
  pub in_transaction : Bool

-- `flights` has, for each lock in the table, how many calls hold a clone of it: `Arc::strong_count`
-- is one more. `now` is the Unix clock in milliseconds.
pub record World (S : Type 0) : Type 0 where
  pub backend : S
  pub metrics : CacheMetrics
  pub flights : List (Text × ℕ)
  pub now : ℕ

module _ (x : External) (b : CacheBackend) (policy : CachePolicy) where
  abbrev pub Program : Type 0
  Program = World b.State

  -- An action of the program: a result, and the state after it.
  abbrev pub Action : Type 0 → Type 0
  Action A = Program → A × Program

  abbrev pub count : (CacheMetrics → CacheMetrics) → Program → Program
  count f w = record w { metrics = f w.metrics }

  -- The calls of the backend.
  abbrev pub backend_get : Text → Action (CacheResult (Option Bytes))
  backend_get digest w = let (r, s) = b.get w.now digest w.backend in (r, record w { backend = s })

  abbrev pub backend_put : Text → Bytes → Duration → Action (CacheResult (Unit {0}))
  backend_put digest bytes ttl w =
      let (r, s) = b.put w.now digest bytes ttl w.backend in (r, record w { backend = s })

  abbrev pub backend_generation : Text → Action (CacheResult ℕ)
  backend_generation namespace w =
      let (r, s) = b.generation w.now namespace w.backend in (r, record w { backend = s })

  abbrev pub backend_bump : Text → Action (CacheResult ℕ)
  backend_bump namespace w =
      let (r, s) = b.bump_generation w.now namespace w.backend in (r, record w { backend = s })

  -- `decode(..).ok().filter(is_fresh).map(payload)`
  unfoldable pub fresh_payload : ℕ → ℕ → Bytes → Option Bytes
  fresh_payload now generation bytes = elim (Envelope.decode x bytes) [
    | err e ↦ none
    | ok envelope ↦
        if Envelope.is_fresh now generation envelope then some envelope.payload else none
  ]

  after_backend_get : CacheKey → CacheResult (Option Bytes) → Action (Option Bytes)
  after_backend_get key (err e) w = (none, count Metrics.record_backend_error w)
  after_backend_get key (ok none) w = (none, w)
  after_backend_get key (ok (some bytes)) w = (fresh_payload w.now key.generation bytes, w)

  unfoldable pub cached : CacheKey → Action (Option Bytes)
  unfolding after_backend_get
  cached key w = let (r, w') = backend_get key.digest w in after_backend_get key r w'

  -- loader() is an action; it is called once if at all
  unfoldable pub load : Action (CacheResult Bytes) → Action (CacheResult Bytes)
  load loader w = loader (count Metrics.record_load w)

  unfoldable pub bypass : Action (CacheResult Bytes) → Action (CacheResult Bytes)
  unfolding load
  bypass loader w = load loader (count Metrics.record_bypass w)

  -- `entry(digest).or_insert_with(..).clone()`
  unfoldable pub enter_flight : Text → Program → Program
  enter_flight digest w = record w {
    flights = elim (DashMap.get digest w.flights) [
      | none ↦ DashMap.insert digest 1 w.flights
      | some holders ↦ DashMap.insert digest (holders + 1) w.flights
    ];
  }

  -- The end of the scope of `flight`: a holder less.
  unfoldable pub drop_flight : Text → Program → Program
  drop_flight digest w = record w { flights = DashMap.update digest (λ n. n - 1) w.flights }

  -- `strong_count == 2`: the table and this call hold the lock. A lock leaves the table only here,
  -- when no other call holds it, so the table's lock is the one of this call.
  unfoldable pub release_flight : Text → Program → Program
  release_flight digest w = elim (DashMap.get digest w.flights) [
    | none ↦ w
    | some holders ↦
        if holders == 1 then record w { flights = DashMap.remove digest w.flights } else w
  ]

  abbrev pub leave : Text → Program → Program
  leave digest w = drop_flight digest (release_flight digest w)

  abbrev note_error : CacheResult (Unit {0}) → Program → Program
  note_error (ok _) w = w
  note_error (err e) w = count Metrics.record_backend_error w

  put_loaded : CacheKey → Bytes → CacheResult Bytes → Action (CacheResult Bytes)
  -- `encode()?` returns before the lock is released
  put_loaded key payload (err e) w = (err e, drop_flight key.digest w)
  put_loaded key payload (ok envelope) w =
      let (r, w') = backend_put key.digest envelope policy.ttl w in
      (ok payload, leave key.digest (note_error r w'))

  store_loaded : CacheKey → CacheResult Bytes → Action (CacheResult Bytes)
  -- `load(loader).await?` returns before the lock is released
  store_loaded key (err e) w = (err e, drop_flight key.digest w)
  store_loaded key (ok payload) w =
      if leb (length payload) policy.max_value_size
      then put_loaded key payload (Envelope.encode x (Envelope.new w.now key payload policy.ttl)) w
      else (ok payload, leave key.digest w)

  pub second_look :
      CacheKey → Action (CacheResult Bytes) → Option Bytes → Action (CacheResult Bytes)
  second_look key loader (some payload) w =
      (ok payload, leave key.digest (count Metrics.record_hit w))
  second_look key loader none w = let (r, w') = load loader w in store_loaded key r w'

  first_look :
      (Program → Program)
      → CacheKey
      → Action (CacheResult Bytes)
      → Option Bytes
      → Action (CacheResult Bytes)
  first_look wait key loader (some payload) w = (ok payload, count Metrics.record_hit w)
  first_look wait key loader none w =
      let (r, w') = cached key (wait (enter_flight key.digest (count Metrics.record_miss w))) in
      second_look key loader r w'

  with_key :
      (Program → Program)
      → CacheResult CacheKey
      → Action (CacheResult Bytes)
      → Action (CacheResult Bytes)
  with_key wait (err e) loader w = load loader w
  with_key wait (ok key) loader w = let (r, w') = cached key w in first_look wait key loader r w'

  with_generation :
      (Program → Program)
      → CacheRequest
      → CacheResult ℕ
      → Action (CacheResult Bytes)
      → Action (CacheResult Bytes)
  with_generation wait request (err e) loader w = load loader (count Metrics.record_backend_error w)
  with_generation wait request (ok generation) loader w =
      with_key wait (Key.build x request.key generation) loader w

  with_metadata :
      (Program → Program)
      → CacheRequest
      → CacheResult SqlMetadata
      → Action (CacheResult Bytes)
      → Action (CacheResult Bytes)
  with_metadata wait request (err e) loader w = bypass loader w
  with_metadata wait request (ok metadata) loader w =
      if request.in_transaction || not (Sql.is_select metadata.kind)
      then bypass loader w
      else let (r, w') = backend_generation request.key.namespace w in
        with_generation wait request r loader w'

  -- `wait` is what others do before the lock is obtained.
  unfoldable pub get_or_load :
      (Program → Program) → CacheRequest → Action (CacheResult Bytes) → Action (CacheResult Bytes)
  unfolding with_metadata with_generation with_key first_look second_look store_loaded put_loaded
  get_or_load wait request loader w =
      with_metadata wait request (Sql.parse x request.key.sql) loader w

  after_bump : CacheResult ℕ → Action (CacheResult ℕ)
  after_bump (err e) w = (err e, w)
  after_bump (ok generation) w = (ok generation, count Metrics.record_invalidation w)

  unfoldable pub invalidate_after_commit : Text → Action (CacheResult ℕ)
  unfolding after_bump
  invalidate_after_commit namespace w = let (r, w') = backend_bump namespace w in after_bump r w'

  lookup_key : CacheResult CacheKey → Action (CacheResult (Option Bytes))
  lookup_key (err e) w = (ok none, w)
  lookup_key (ok key) w = let (r, w') = cached key w in (ok r, w')

  lookup_at : CacheKeyInput → CacheResult ℕ → Action (CacheResult (Option Bytes))
  lookup_at input (err e) w = (ok none, count Metrics.record_backend_error w)
  lookup_at input (ok generation) w = lookup_key (Key.build x input generation) w

  unfoldable pub lookup : CacheKeyInput → Action (CacheResult (Option Bytes))
  unfolding lookup_at lookup_key
  lookup input w = let (r, w') = backend_generation input.namespace w in lookup_at input r w'

  store_encoded : CacheKey → Duration → CacheResult Bytes → Action (CacheResult (Unit {0}))
  store_encoded key ttl (err e) w = (err e, w)
  store_encoded key ttl (ok envelope) w =
      let (r, w') = backend_put key.digest envelope ttl w in (ok tt, note_error r w')

  store_key : Bytes → Duration → CacheResult CacheKey → Action (CacheResult (Unit {0}))
  store_key payload ttl (err e) w = (err e, w)
  store_key payload ttl (ok key) w =
      store_encoded key ttl (Envelope.encode x (Envelope.new w.now key payload ttl)) w

  store_at : CacheKeyInput → Bytes → Duration → CacheResult ℕ → Action (CacheResult (Unit {0}))
  store_at input payload ttl (err e) w = (ok tt, count Metrics.record_backend_error w)
  store_at input payload ttl (ok generation) w =
      store_key payload ttl (Key.build x input generation) w

  unfoldable pub store : CacheKeyInput → Bytes → Duration → Action (CacheResult (Unit {0}))
  unfolding store_at store_key store_encoded
  store input payload ttl w =
      if ltb policy.max_value_size (length payload)
      then (ok tt, w)
      else let (r, w') = backend_generation input.namespace w in store_at input payload ttl r w'
