-- ===== src/Interceptor/Flow.antt =====
-- Where the result of `get_or_load` comes from, over any backend, loader and concurrent activity.
use rbatis_cache.Common.{
  ℕ, ◌<◌, ◌≡◌, refl, sym, ◌∙◌, ap, ◌⊎◌, inl, inr, true, false, not, ◌||◌, Option, none, some, Bytes,
  ok, err, length, leb, arith, Bool-cases,
}
use rbatis_cache.Backend.{CacheBackend}
use rbatis_cache.Envelope
use rbatis_cache.Envelope.Types.{CacheEnvelope}
use rbatis_cache.Error.{CacheError, CacheResult}
use rbatis_cache.External.{External}
use rbatis_cache.Interceptor.{
  CacheRequest, Program, Action, count, cached, after_backend_get, fresh_payload, load, bypass,
  put_loaded, store_loaded, second_look, first_look, with_key, with_generation, with_metadata,
  get_or_load, backend_generation, enter_flight,
}
use rbatis_cache.Key
use rbatis_cache.Key.{CacheKey}
use rbatis_cache.Key.Laws.{build-parse}
use rbatis_cache.Metrics
use rbatis_cache.Policy.{CachePolicy}
use rbatis_cache.Sql
use rbatis_cache.Sql.{SqlMetadata}

module _ (x : External) (b : CacheBackend) (policy : CachePolicy) where
  abbrev Loader : Type 0
  Loader = Action x b policy (CacheResult Bytes)

  -- A result of the loader, in some state of the program.
  pub record Loaded (loader : Action x b policy (CacheResult Bytes)) (r : CacheResult Bytes)
      : Type 0 where
    pub at : Program x b policy
    pub result : (loader at).0 ≡ r

  -- What is found is the payload of an envelope that the backend returned under the digest, that has
  -- the format's version and the key's generation, and whose deadline has not passed.
  pub cached-fresh :
      (key : CacheKey) (w : Program x b policy) (payload : Bytes)
      → (cached x b policy key w).0 ≡ some payload
      → (bytes : Bytes) × (e : CacheEnvelope) × ((b.get w.now key.digest w.backend).0
          ≡ ok (some bytes))
        × (Envelope.decode x bytes ≡ ok e)
        × (e.version ≡ 1)
        × (e.generation ≡ key.generation)
        × (w.now < e.expires_at_ms)
        × (e.payload ≡ payload)
  unfolding cached fresh_payload Envelope.is_fresh
  cached-fresh key w payload h = go (b.get w.now key.digest w.backend) refl h
    where
      decoded :
          (bytes : Bytes) (r : CacheResult CacheEnvelope) (w' : Program x b policy)
          → Envelope.decode x bytes ≡ r
          → fresh_payload x b policy w'.now key.generation bytes ≡ some payload
          → (e : CacheEnvelope) × (Envelope.decode x bytes ≡ ok e)
            × (e.version ≡ 1)
            × (e.generation ≡ key.generation)
            × (w'.now < e.expires_at_ms)
            × (e.payload ≡ payload)
      decoded bytes (err error) w' d f = absurd (ground arith)
      decoded bytes (ok e) w' d f = (e, d, ground arith, ground arith, ground arith, ground arith)

      go :
          (r : CacheResult (Option Bytes) × b.State)
          → b.get w.now key.digest w.backend ≡ r
          → (after_backend_get x b policy key r.0 (record w { backend = r.1 })).0 ≡ some payload
          → (bytes : Bytes) × (e : CacheEnvelope) × ((b.get w.now key.digest w.backend).0
              ≡ ok (some bytes))
            × (Envelope.decode x bytes ≡ ok e)
            × (e.version ≡ 1)
            × (e.generation ≡ key.generation)
            × (w.now < e.expires_at_ms)
            × (e.payload ≡ payload)
      go (err error, s) g f = absurd (ground arith)
      go (ok none, s) g f = absurd (ground arith)
      go (ok (some bytes), s) g f =
          let (e, d, v, n, l, p) = decoded bytes (Envelope.decode x bytes) w refl f in
          (bytes, e, ap (λ (t : CacheResult (Option Bytes) × b.State). t.0) g, d, v, n, l, p)

  -- The program when the cache is asked for the first time, after the generation has been read; and
  -- for the second time, when the lock has been obtained.
  abbrev pub at_first : CacheRequest → Program x b policy → Program x b policy
  at_first request w = (backend_generation x b policy request.key.namespace w).1

  abbrev pub at_second :
      (Program x b policy → Program x b policy) → CacheKey → Program x b policy → Program x b policy
  at_second wait key first = wait (
      enter_flight x b policy key.digest
        (count x b policy Metrics.record_miss (cached x b policy key first).1))

  -- The payload of an envelope that the backend returned for the digest of the request's key at
  -- the generation that it reported when the request came in, when it was asked for the first or
  -- for the second time; the envelope is of the format's version and of that generation, and its
  -- deadline had not passed.
  pub record Hit (wait : Program x b policy → Program x b policy) (request : CacheRequest)
      (w : Program x b policy) (r : CacheResult Bytes) : Type 0 where
    pub generation : ℕ
    pub key : CacheKey
    pub bytes : Bytes
    pub envelope : CacheEnvelope
    pub at : Program x b policy
    pub reported : (backend_generation x b policy request.key.namespace w).0 ≡ ok generation
    pub built : Key.build x request.key generation ≡ ok key
    pub asked : (at ≡ at_first request w) ⊎ (at ≡ at_second wait key (at_first request w))
    pub returned : (b.get at.now key.digest at.backend).0 ≡ ok (some bytes)
    pub decoded : Envelope.decode x bytes ≡ ok envelope
    pub version : envelope.version ≡ 1
    pub of_generation : envelope.generation ≡ generation
    pub live : at.now < envelope.expires_at_ms
    pub result : r ≡ ok envelope.payload

  -- A failure of the envelope's encoding.
  pub record Unencoded (r : CacheResult Bytes) : Type 0 where
    pub envelope : CacheEnvelope
    pub error : CacheError
    pub failure : Envelope.encode x envelope ≡ err error
    pub result : r ≡ err error

  -- A property of results that holds of what the loader returns, of encoding failures, and of what
  -- is found, holds of the whole flow.
  module _ (loader : Action x b policy (CacheResult Bytes)) (P : CacheResult Bytes → Type 0)
      (loaded : (w : Program x b policy) → P (loader w).0)
      (unencoded : (e : CacheEnvelope) (error : CacheError)
        → Envelope.encode x e ≡ err error
        → P (err error)) where
    load-result : (w : Program x b policy) → P (load x b policy loader w).0
    unfolding load
    load-result w = loaded (count x b policy Metrics.record_load w)

    bypass-result : (w : Program x b policy) → P (bypass x b policy loader w).0
    unfolding bypass
    bypass-result w = load-result (count x b policy Metrics.record_bypass w)

    put_loaded-result :
        (key : CacheKey) (payload : Bytes) (e : CacheEnvelope) (r : CacheResult Bytes)
        (w : Program x b policy)
        → Envelope.encode x e ≡ r
        → P (ok payload)
        → P (put_loaded x b policy key payload r w).0
    unfolding put_loaded
    put_loaded-result key payload e (ok bytes) w h p = p
    put_loaded-result key payload e (err error) w h p = unencoded e error h

    store_loaded-result :
        (key : CacheKey) (r : CacheResult Bytes) (w : Program x b policy)
        → P r
        → P (store_loaded x b policy key r w).0
    unfolding store_loaded
    store_loaded-result key (err error) w p = p
    store_loaded-result key (ok payload) w p =
        elim (Bool-cases (leb (length payload) policy.max_value_size)) [
          | inl small ↦
              rw small (
                put_loaded-result key payload (Envelope.new w.now key payload policy.ttl) _ w refl
                  p)
          | inr large ↦ rw large p
        ]

    second_look-result :
        (key : CacheKey) (r : Option Bytes) (w : Program x b policy)
        → ((payload : Bytes) → r ≡ some payload → P (ok payload))
        → P (second_look x b policy key loader r w).0
    unfolding second_look
    second_look-result key (some payload) w hit = hit payload refl
    second_look-result key none w hit = store_loaded-result key _ _ (load-result w)

    first_look-result :
        (wait : Program x b policy → Program x b policy) (key : CacheKey) (r : Option Bytes)
        (w : Program x b policy)
        → ((payload : Bytes) → r ≡ some payload → P (ok payload))
        → ((payload : Bytes)
            → (cached x b policy key (
                wait
                  (enter_flight x b policy key.digest (count x b policy Metrics.record_miss w)))).0
              ≡ some payload
            → P (ok payload))
        → P (first_look x b policy wait key loader r w).0
    unfolding first_look
    first_look-result wait key (some payload) w hit later = hit payload refl
    first_look-result wait key none w hit later =
        second_look-result key _ _ (λ payload h. later payload h)

    with_key-result :
        (wait : Program x b policy → Program x b policy) (r : CacheResult CacheKey)
        (w : Program x b policy)
        → ((key : CacheKey) (w' : Program x b policy) (payload : Bytes)
            → r ≡ ok key
            → (w' ≡ w) ⊎ (w' ≡ at_second wait key w)
            → (cached x b policy key w').0 ≡ some payload
            → P (ok payload))
        → P (with_key x b policy wait r loader w).0
    unfolding with_key
    with_key-result wait (err e) w found = load-result w
    with_key-result wait (ok key) w found =
        first_look-result wait key _ _ (λ payload h. found key w payload refl (inl refl) h)
          (λ payload h. found key (at_second wait key w) payload refl (inr refl) h)

    with_generation-result :
        (wait : Program x b policy → Program x b policy) (request : CacheRequest)
        (r : CacheResult ℕ) (w : Program x b policy)
        → ((generation : ℕ) (key : CacheKey) (w' : Program x b policy) (payload : Bytes)
            → r ≡ ok generation
            → Key.build x request.key generation ≡ ok key
            → (w' ≡ w) ⊎ (w' ≡ at_second wait key w)
            → (cached x b policy key w').0 ≡ some payload
            → P (ok payload))
        → P (with_generation x b policy wait request r loader w).0
    unfolding with_generation
    with_generation-result wait request (err e) w found = load-result _
    with_generation-result wait request (ok generation) w found =
        with_key-result wait _ w
          (λ key w' payload h a k. found generation key w' payload refl h a k)

    with_metadata-result :
        (wait : Program x b policy → Program x b policy) (request : CacheRequest)
        (r : CacheResult SqlMetadata) (w : Program x b policy)
        → ((generation : ℕ) (key : CacheKey) (w' : Program x b policy) (payload : Bytes)
            → (backend_generation x b policy request.key.namespace w).0 ≡ ok generation
            → Key.build x request.key generation ≡ ok key
            → (w' ≡ at_first request w) ⊎ (w' ≡ at_second wait key (at_first request w))
            → (cached x b policy key w').0 ≡ some payload
            → P (ok payload))
        → P (with_metadata x b policy wait request r loader w).0
    unfolding with_metadata
    with_metadata-result wait request (err e) w found = bypass-result w
    with_metadata-result wait request (ok m) w found =
        elim (Bool-cases (request.in_transaction || not (Sql.is_select m.kind))) [
          | inl passed ↦ rw passed (bypass-result w)
          | inr cacheable ↦ rw cacheable (with_generation-result wait request _ _ found)
        ]

  -- Every result of `get_or_load` is one of three: what the loader returned in some state of the
  -- program; the payload of an envelope that the backend returned when `get_or_load` asked it for
  -- the digest of the request's key, of the generation that the backend had reported, of the
  -- format's version and before its deadline; an encoding failure. So no failure of the backend
  -- ever reaches the caller.
  pub get_or_load-origin :
      (wait : Program x b policy → Program x b policy) (request : CacheRequest)
      (loader : Action x b policy (CacheResult Bytes)) (w : Program x b policy)
      → Loaded loader (get_or_load x b policy wait request loader w).0
        ⊎ Hit wait request w (get_or_load x b policy wait request loader w).0
        ⊎ Unencoded (get_or_load x b policy wait request loader w).0
  unfolding get_or_load
  get_or_load-origin wait request loader w =
      with_metadata-result loader (λ r. Loaded loader r ⊎ Hit wait request w r ⊎ Unencoded r)
        (λ at. inl (record { at = at; result = refl }))
        (λ e error h.
          inr (inr (record { envelope = e; error = error; failure = h; result = refl })))
        wait request (Sql.parse x request.key.sql) w
        (λ generation key at payload reported built asked found.
          let (bytes, e, got, dec, version, gen, live, same) = cached-fresh key at payload found in
          inr (
            inl (record {
              generation = generation;
              key = key;
              bytes = bytes;
              envelope = e;
              at = at;
              reported = reported;
              built = built;
              asked = asked;
              returned = got;
              decoded = dec;
              version = version;
              of_generation = gen ∙ ((build-parse x request.key generation).1 key built).0;
              live = live;
              result = ap ok (sym same);
            })))

  -- In a transaction, and for anything but one query, the backend is not called at all: the loader's
  -- result and its state are returned.
  pub get_or_load-bypass :
      (wait : Program x b policy → Program x b policy) (request : CacheRequest)
      (loader : Action x b policy (CacheResult Bytes)) (w : Program x b policy)
      → ((m : SqlMetadata)
          → Sql.parse x request.key.sql ≡ ok m
          → (request.in_transaction ≡ true) ⊎ (Sql.is_select m.kind ≡ false))
      → get_or_load x b policy wait request loader w
        ≡ loader (count x b policy Metrics.record_load (count x b policy Metrics.record_bypass w))
  unfolding get_or_load bypass load
  get_or_load-bypass wait request loader w h = go (Sql.parse x request.key.sql) h
    where
      go :
          (r : CacheResult SqlMetadata)
          → ((m : SqlMetadata)
              → r ≡ ok m
              → (request.in_transaction ≡ true) ⊎ (Sql.is_select m.kind ≡ false))
          → with_metadata x b policy wait request r loader w
            ≡ loader
                (count x b policy Metrics.record_load (count x b policy Metrics.record_bypass w))
      go (err e) k = refl
      go (ok m) k = ground (arith, k m refl)
