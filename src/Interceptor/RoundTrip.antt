-- ===== src/Interceptor/RoundTrip.antt =====
-- What is stored is found, until its deadline and as long as its namespace keeps its generation.
use rbatis_cache.Common.{
  ℕ, ◌≤◌, ◌<◌, ◌≡◌, refl, true, some, Text, Bytes, Duration, ok, err, length, le→ltb-false, ◌∙◌,
  arith, saturating_add, u64_max,
}
use rbatis_cache.Backend.{CacheBackend}
use rbatis_cache.Backend.Laws.{LawfulBackend}
use rbatis_cache.Envelope
use rbatis_cache.Envelope.Types.{CacheEnvelope}
use rbatis_cache.External.{External}
use rbatis_cache.Interceptor.{
  World, Program, cached, fresh_payload, lookup, lookup_at, lookup_key, store, store_at, store_key,
  store_encoded, invalidate_after_commit, after_bump,
}
use rbatis_cache.Interceptor.Flow.{cached-fresh}
use mathlib.Core.Path.{subst}
use rbatis_cache.Error.{CacheResult}
use rbatis_cache.Key
use rbatis_cache.Key.Laws.{build-parse}
use rbatis_cache.Key.{CacheKey, CacheKeyInput}
use rbatis_cache.Policy.{CachePolicy}

-- The program at another time.
abbrev pub at : {S : Type 0} → ℕ → World S → World S
at later w = record w { now = later }

module _ (x : External) (b : CacheBackend) (deadline : ℕ → Duration → ℕ)
    (laws : LawfulBackend b deadline) (policy : CachePolicy) where
  module _ (input : CacheKeyInput) (key : CacheKey) (payload bytes : Bytes) (ttl : Duration)
      (w : Program x b policy) where
    abbrev stored : Program x b policy
    stored = record w {
      backend =
          (b.put w.now key.digest bytes ttl (b.generation w.now input.namespace w.backend).1).1;
    }

    store-stored :
        (g : ℕ)
        → length payload ≤ policy.max_value_size
        → (b.generation w.now input.namespace w.backend).0 ≡ ok g
        → Key.build x input g ≡ ok key
        → Envelope.encode x (Envelope.new w.now key payload ttl) ≡ ok bytes
        → (b.put w.now key.digest bytes ttl (b.generation w.now input.namespace w.backend).1).0
          ≡ ok tt
        → (store x b policy input payload ttl w).1 ≡ stored
    unfolding store store_at store_key store_encoded
    store-stored g size gen built enc put = rw (le→ltb-false _ _ size, gen, built, enc, put) refl

  lookup-found :
      (g : ℕ) (input : CacheKeyInput) (key : CacheKey) (bytes : Bytes) (e : CacheEnvelope)
      (w : Program x b policy)
      → (b.generation w.now input.namespace w.backend).0 ≡ ok g
      → Key.build x input g ≡ ok key
      → (b.get w.now key.digest (b.generation w.now input.namespace w.backend).1).0
        ≡ ok (some bytes)
      → Envelope.decode x bytes ≡ ok e
      → Envelope.is_fresh w.now key.generation e ≡ true
      → (lookup x b policy input w).0 ≡ ok (some e.payload)
  unfolding lookup lookup_at lookup_key cached fresh_payload
  lookup-found g input key bytes e w gen built found dec fresh =
      rw (gen, built, found, fresh_payload, dec, fresh) refl

  -- With a lawful backend, a payload that `store` has written is what `lookup` finds, until the
  -- earlier of the deadlines of the envelope and of the backend, if it is not too large, the backend
  -- takes it, its envelope is encoded and decoded faithfully, and the generation stays.
  pub lookup-store :
      (later g : ℕ) (input : CacheKeyInput) (key : CacheKey) (payload bytes : Bytes)
      (ttl : Duration) (w : Program x b policy)
      → length payload ≤ policy.max_value_size
      → (b.generation w.now input.namespace w.backend).0 ≡ ok g
      → Key.build x input g ≡ ok key
      → Envelope.encode x (Envelope.new w.now key payload ttl) ≡ ok bytes
      → Envelope.decode x bytes ≡ ok (Envelope.new w.now key payload ttl)
      → (b.put w.now key.digest bytes ttl (b.generation w.now input.namespace w.backend).1).0
        ≡ ok tt
      → (b.generation later input.namespace w.backend).0 ≡ ok g
      → later < deadline w.now ttl
      → later < saturating_add w.now (Envelope.duration_ms ttl)
      → (lookup x b policy input (at later (store x b policy input payload ttl w).1)).0
        ≡ ok (some payload)
  unfolding Envelope.new Envelope.is_fresh
  lookup-store later g input key payload bytes ttl w size gen built enc dec put gen' lives fresh =
      let s = stored input key payload bytes ttl w in
      let same = store-stored input key payload bytes ttl w g size gen built enc put in
      rw same (
        lookup-found g input key bytes (Envelope.new w.now key payload ttl) (at later s)
          (laws.generation-put w.now later key.digest input.namespace bytes ttl _
            ∙ (laws.generation-generation w.now later input.namespace input.namespace w.backend
                ∙ gen'))
          built
          (laws.get-generation later later key.digest input.namespace _
            ∙ laws.get-put w.now later key.digest bytes ttl _ lives put)
          dec (ground arith))

  lookup-cached :
      (g : ℕ) (input : CacheKeyInput) (payload : Bytes) (w : Program x b policy)
      → (b.generation w.now input.namespace w.backend).0 ≡ ok g
      → (lookup x b policy input w).0 ≡ ok (some payload)
      → (key : CacheKey) × (Key.build x input g ≡ ok key)
        × ((cached x b policy key
              (record w { backend = (b.generation w.now input.namespace w.backend).1 })).0
            ≡ some payload)
  unfolding lookup lookup_at lookup_key
  lookup-cached g input payload w gen found =
      go (Key.build x input g) refl
        (subst (λ r. (lookup_at x b policy input r asked).0 ≡ ok (some payload)) gen found)
    where
      asked : Program x b policy
      asked = record w { backend = (b.generation w.now input.namespace w.backend).1 }

      go :
          (r : CacheResult CacheKey)
          → Key.build x input g ≡ r
          → (lookup_key x b policy r asked).0 ≡ ok (some payload)
          → (key : CacheKey) × (Key.build x input g ≡ ok key)
            × ((cached x b policy key asked).0 ≡ some payload)
      go (err e) built f = absurd (ground arith)
      go (ok key) built f = (key, built, ground arith)

  invalidate-bumped :
      (g : ℕ) (namespace : Text) (w : Program x b policy)
      → (invalidate_after_commit x b policy namespace w).0 ≡ ok g
      → ((b.bump_generation w.now namespace w.backend).0 ≡ ok g)
        × ((invalidate_after_commit x b policy namespace w).1.backend
            ≡ (b.bump_generation w.now namespace w.backend).1)
  unfolding invalidate_after_commit after_bump
  invalidate-bumped g namespace w h = ground arith

  -- With a lawful backend, once an invalidation has returned a generation below the largest u64: the
  -- payload that a later `lookup` in the namespace finds is the payload of an envelope of the new
  -- generation and before its deadline, which is what the backend returned for the digest of the
  -- request's key at the new generation. So no entry of an older generation is served.
  pub lookup-invalidate_after_commit :
      (later g : ℕ) (input : CacheKeyInput) (payload : Bytes) (w : Program x b policy)
      → (invalidate_after_commit x b policy input.namespace w).0 ≡ ok g
      → g < u64_max
      → (lookup x b policy input
          (at later (invalidate_after_commit x b policy input.namespace w).1)).0
        ≡ ok (some payload)
      → let bumped = (invalidate_after_commit x b policy input.namespace w).1.backend in
        (key : CacheKey) × (bytes : Bytes) × (e : CacheEnvelope) × (Key.build x input g ≡ ok key)
        × (key.generation ≡ g)
        × ((b.get later key.digest (b.generation later input.namespace bumped).1).0
            ≡ ok (some bytes))
        × (Envelope.decode x bytes ≡ ok e)
        × (e.generation ≡ g)
        × (later < e.expires_at_ms)
        × (e.payload ≡ payload)
  lookup-invalidate_after_commit later g input payload w bumped small found =
      let (result, backend) = invalidate-bumped g input.namespace w bumped in
      let after = at later (invalidate_after_commit x b policy input.namespace w).1 in
      let (key, built, hit) =
        lookup-cached g input payload after
          (rw backend (laws.generation-bump w.now later g input.namespace w.backend result small))
          found in
      let (bytes, e, got, dec, version, gen, live, same) =
        cached-fresh x b policy key _ payload hit in
      let of_key = ((build-parse x input g).1 key built).0 in
      (key, bytes, e, built, of_key, got, dec, gen ∙ of_key, live, same)
