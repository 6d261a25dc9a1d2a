-- ===== src/Interceptor/Coalesce.antt =====
-- A caller that waits for another caller's load of the same key.
use rbatis_cache.Common.{
  ℕ, ◌≤◌, ◌<◌, ◌≡◌, refl, ap, ◌∙◌, true, false, ◌||◌, not, none, some, Bytes, Duration, ok, err,
  length, leb, arith, saturating_add,
}
use rbatis_cache.Backend.{CacheBackend}
use rbatis_cache.Backend.Laws.{LawfulBackend}
use rbatis_cache.Envelope
use rbatis_cache.Error.{CacheResult}
use rbatis_cache.External.{External}
use rbatis_cache.Interceptor.{
  CacheRequest, Program, Action, count, cached, fresh_payload, load, leave, drop_flight,
  release_flight, enter_flight, note_error, put_loaded, store_loaded, second_look, first_look,
  with_key, with_generation, with_metadata, get_or_load, after_backend_get,
}
use rbatis_cache.Key
use rbatis_cache.Key.{CacheKey}
use rbatis_cache.Metrics
use rbatis_cache.Policy.{CachePolicy}
use rbatis_cache.Sql
use rbatis_cache.Sql.{SqlMetadata}

module _ (x : External) (b : CacheBackend) (policy : CachePolicy) where
  -- The program when a caller has asked for the generation.
  abbrev pub asked : CacheRequest → Program x b policy → Program x b policy
  asked request w = record w { backend = (b.generation w.now request.key.namespace w.backend).1 }

  -- The program when a caller that has found nothing waits for the lock.
  abbrev pub queued : CacheRequest → CacheKey → Program x b policy → Program x b policy
  queued request key w =
      enter_flight x b policy key.digest
        (count x b policy Metrics.record_miss (cached x b policy key (asked request w)).1)

  get_or_load-waited :
      (wait : Program x b policy → Program x b policy) (request : CacheRequest)
      (loader : Action x b policy (CacheResult Bytes)) (w : Program x b policy)
      (metadata : SqlMetadata) (g : ℕ) (key : CacheKey) (payload : Bytes)
      → Sql.parse x request.key.sql ≡ ok metadata
      → request.in_transaction || not (Sql.is_select metadata.kind) ≡ false
      → (b.generation w.now request.key.namespace w.backend).0 ≡ ok g
      → Key.build x request.key g ≡ ok key
      → (cached x b policy key (asked request w)).0 ≡ none
      → (cached x b policy key (wait (queued request key w))).0 ≡ some payload
      → get_or_load x b policy wait request loader w ≡ (
        ok payload,
        leave x b policy key.digest (
            count x b policy Metrics.record_hit
              (cached x b policy key (wait (queued request key w))).1),
      )
  unfolding get_or_load with_metadata with_generation with_key first_look second_look
  get_or_load-waited wait request loader w metadata g key payload parsed plain gen built miss hit =
      rw (parsed, plain, gen, built, miss, hit) refl

  leave-backend :
      (digest : _) (w : Program x b policy)
      → ((leave x b policy digest w).backend ≡ w.backend)
        × ((leave x b policy digest w).now ≡ w.now)
  unfolding drop_flight release_flight
  leave-backend digest w = (ground arith, ground arith)

  note_error-backend :
      (r : _) (w : Program x b policy)
      → ((note_error x b policy r w).backend ≡ w.backend)
        × ((note_error x b policy r w).now ≡ w.now)
  note_error-backend (ok _) w = (refl, refl)
  note_error-backend (err e) w = (refl, refl)

  -- The program after a load, with the clock and the backend that a lookup goes by.
  after_load :
      (key : CacheKey) (first : Action x b policy (CacheResult Bytes)) (payload bytes : Bytes)
      (v loaded : Program x b policy)
      → load x b policy first v ≡ (ok payload, loaded)
      → length payload ≤ policy.max_value_size
      → Envelope.encode x (Envelope.new loaded.now key payload policy.ttl) ≡ ok bytes
      → ((second_look x b policy key first none v).1.backend
          ≡ (b.put loaded.now key.digest bytes policy.ttl loaded.backend).1)
        × ((second_look x b policy key first none v).1.now ≡ loaded.now)
  unfolding second_look store_loaded put_loaded
  after_load key first payload bytes v loaded run size enc =
      let small : leb (length payload) policy.max_value_size ≡ true = ground arith in
      let (r, s) = b.put loaded.now key.digest bytes policy.ttl loaded.backend in
      let after = record loaded { backend = s } in
      rw (run, small, enc)
        (
          (leave-backend key.digest (note_error x b policy r after)).0
              ∙ (note_error-backend r after).0,
          (leave-backend key.digest (note_error x b policy r after)).1
              ∙ (note_error-backend r after).1,
        )

  cached-found :
      (key : CacheKey) (bytes payload : Bytes) (ttl : Duration) (written : ℕ)
      (w : Program x b policy)
      → (b.get w.now key.digest w.backend).0 ≡ ok (some bytes)
      → Envelope.decode x bytes ≡ ok (Envelope.new written key payload ttl)
      → w.now < saturating_add written (Envelope.duration_ms ttl)
      → (cached x b policy key w).0 ≡ some payload
  unfolding cached after_backend_get fresh_payload Envelope.new Envelope.is_fresh
  cached-found key bytes payload ttl written w got dec lives =
      let live : Envelope.is_fresh w.now key.generation (Envelope.new written key payload ttl)
          ≡ true =
        ground arith in
      rw (got, fresh_payload, dec, live) refl

module _ (x : External) (b : CacheBackend) (deadline : ℕ → Duration → ℕ)
    (laws : LawfulBackend b deadline) (policy : CachePolicy) where
  -- Of two callers that have both found nothing under a key, the one that waits for the other
  -- returns the other's payload, whatever loader it has itself: with a lawful backend, if the
  -- payload is not too large, its envelope is encoded and decoded faithfully, the backend takes
  -- it, and the TTL is not over at once.
  pub get_or_load-coalesced :
      (request : CacheRequest) (first loader : Action x b policy (CacheResult Bytes))
      (w loaded : Program x b policy) (metadata : SqlMetadata) (g : ℕ) (key : CacheKey)
      (payload bytes : Bytes)
      → Sql.parse x request.key.sql ≡ ok metadata
      → request.in_transaction || not (Sql.is_select metadata.kind) ≡ false
      → (b.generation w.now request.key.namespace w.backend).0 ≡ ok g
      → Key.build x request.key g ≡ ok key
      → (cached x b policy key (asked x b policy request w)).0 ≡ none
      → load x b policy first (queued x b policy request key w) ≡ (ok payload, loaded)
      → length payload ≤ policy.max_value_size
      → Envelope.encode x (Envelope.new loaded.now key payload policy.ttl) ≡ ok bytes
      → Envelope.decode x bytes ≡ ok (Envelope.new loaded.now key payload policy.ttl)
      → (b.put loaded.now key.digest bytes policy.ttl loaded.backend).0 ≡ ok tt
      → loaded.now < deadline loaded.now policy.ttl
      → loaded.now < saturating_add loaded.now (Envelope.duration_ms policy.ttl)
      → (get_or_load x b policy
          (λ v. (second_look x b policy key first none v).1)
          request
          loader
          w).0
        ≡ ok payload
  get_or_load-coalesced request first loader w loaded metadata g key payload bytes parsed plain gen
        built miss run size enc dec put lives fresh =
      let v = queued x b policy request key w in
      let after = (second_look x b policy key first none v).1 in
      let (backend, now) = after_load x b policy key first payload bytes v loaded run size enc in
      let got : (b.get after.now key.digest after.backend).0 ≡ ok (some bytes) =
        rw (now, backend)
          (laws.get-put loaded.now loaded.now key.digest bytes policy.ttl loaded.backend lives
            put) in
      let hit =
        cached-found x b policy key bytes payload policy.ttl loaded.now after got dec
          (rw now fresh) in
      ap (λ (o : CacheResult Bytes × Program x b policy). o.0)
        (get_or_load-waited x b policy (λ v. (second_look x b policy key first none v).1) request
          loader w metadata g key payload parsed plain gen built miss hit)
