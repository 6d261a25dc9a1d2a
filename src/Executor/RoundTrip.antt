-- ===== src/Executor/RoundTrip.antt =====
-- What one executor has read, another one gets from the backend.
use rbatis_cache.Common.{
  ℕ, ◌≤◌, ◌<◌, ◌≡◌, refl, ◌∙◌, true, false, some, none, List, Text, Bytes, Duration, not, ◌&&◌, ok,
  length, le→ltb-false, arith, saturating_add,
}
use rbatis_cache.Backend.{CacheBackend}
use rbatis_cache.Backend.Laws.{LawfulBackend}
use rbatis_cache.Envelope
use rbatis_cache.Envelope.Types.{CacheEnvelope}
use rbatis_cache.Executor.Types.{
  Executor, RbatisCacheInterceptor, is_cacheable, is_in_transaction, is_empty, build_key_input,
  lookup_value, from_l1, from_l2, from_envelope, promote, store_value, put_payload, put_envelope,
  after_put,
}
use rbatis_cache.Executor.Before.{
  return_value, before_query, buffered, after_pending, consult, after_resolve, after_lookup,
}
use rbatis_cache.Executor.After.{
  after_query, complete, fill_l1, fill, buffer_or_store, is_deferring, ttl_of,
}
use rbatis_cache.Executor.Resolve.{resolve_key-built}
use rbatis_cache.External.{External}
use rbatis_cache.Key
use rbatis_cache.Key.{CacheKey, CacheKeyInput}
use rbatis_cache.L1
use rbatis_cache.Shared.{Shared, State}
use rbatis_cache.SingleFlight

-- The state at a later time.
abbrev pub at : {V S : Type 0} → ℕ → ℕ → Shared V S → Shared V S
at now instant s = record s { now = now; instant = instant }

module _ (x : External) (b : CacheBackend) (deadline : ℕ → Duration → ℕ)
    (laws : LawfulBackend b deadline) (self : RbatisCacheInterceptor) where
  -- A value that the libraries encode and decode faithfully, small enough, and what is stored of it
  -- under a key at a time.
  pub record Storable (now : ℕ) (key : CacheKey) (value : x.Value) (ttl : Duration) : Type 0 where
    pub payload : Bytes
    pub bytes : Bytes
    pub encoded : x.encode_value value ≡ ok payload
    pub decoded : x.decode_value payload ≡ ok value
    pub size : length payload ≤ self.policy.max_value_size
    pub sealed : Envelope.encode x (Envelope.new now key payload ttl) ≡ ok bytes
    pub opened : Envelope.decode x bytes ≡ ok (Envelope.new now key payload ttl)

  store_value-state :
      (key : CacheKey) (value : x.Value) (ttl : Duration) (s : State x b)
      (storable : Storable s.now key value ttl)
      → (b.put s.now key.digest storable.bytes ttl s.backend).0 ≡ ok tt
      → (store_value x b self key value ttl s).1
        ≡ record s { backend = (b.put s.now key.digest storable.bytes ttl s.backend).1 }
  unfolding store_value put_payload put_envelope after_put
  store_value-state key value ttl s storable put =
      rw (storable.encoded, le→ltb-false _ _ storable.size, storable.sealed, put) refl

  lookup_value-found :
      (id : ℕ) (key : CacheKey) (bytes : Bytes) (e : CacheEnvelope) (v : x.Value) (s : State x b)
      → (L1.get s.instant id key.digest s.l1).0 ≡ none
      → (b.get s.now key.digest s.backend).0 ≡ ok (some bytes)
      → Envelope.decode x bytes ≡ ok e
      → Envelope.is_fresh s.now key.generation e ≡ true
      → x.decode_value e.payload ≡ ok v
      → (lookup_value x b self id key s).0 ≡ ok (some v)
  unfolding lookup_value from_l1 from_l2 from_envelope promote
  lookup_value-found id key bytes e v s cold found opened fresh decoded =
      rw (cold, found, opened, fresh, decoded) refl

  module _ (task_id : ℕ) (rb : Executor) (sql : Text) (args : List x.Value) where
    abbrev input : CacheKeyInput
    input = build_key_input x self.namespace rb sql args

    -- The state after the L1 cache has been filled.
    abbrev filled : CacheKey → x.Value → State x b → State x b
    filled key value s = record s {
      backend = (b.generation s.now self.namespace s.backend).1;
      singleflight = SingleFlight.complete_load key.digest true s.singleflight;
      l1 = L1.put s.instant rb.id key.digest value s.l1;
    }

    after_query-state :
        (g : ℕ) (key : CacheKey) (value : x.Value) (s : State x b)
        (storable : Storable s.now key value (ttl_of x b self value))
        → is_cacheable x self.policy sql ≡ true
        → is_deferring x b self rb ≡ false
        → not self.policy.cache_null && is_empty (x.shape value) ≡ false
        → (b.generation s.now self.namespace s.backend).0 ≡ ok g
        → Key.build x input g ≡ ok key
        → (b.put s.now key.digest storable.bytes
            (ttl_of x b self value)
            (filled key value s).backend).0
          ≡ ok tt
        → (after_query x b self task_id rb sql args (ok value) s).1 ≡ record (filled key value s) {
          backend =
              (b.put s.now key.digest storable.bytes
                (ttl_of x b self value)
                (filled key value s).backend).1;
        }
    unfolding after_query complete fill_l1 fill buffer_or_store build_key_input
    after_query-state g key value s storable cacheable now_stored kept gen built put =
        rw (resolve_key-built x b self g input key s gen built, cacheable, now_stored, kept)
          (store_value-state key value (ttl_of x b self value) (filled key value s) storable put)

    before_query-found :
        (wait : State x b → State x b) (g : ℕ) (key : CacheKey) (value : x.Value) (s : State x b)
        → is_cacheable x self.policy sql ≡ true
        → is_in_transaction rb ≡ false
        → (b.generation s.now self.namespace s.backend).0 ≡ ok g
        → Key.build x input g ≡ ok key
        → (lookup_value x b self rb.id key
            (record s { backend = (b.generation s.now self.namespace s.backend).1 })).0
          ≡ ok (some value)
        → (before_query x b self wait task_id rb sql args s).0 ≡ ok (return_value value)
    unfolding before_query buffered after_pending consult after_resolve after_lookup build_key_input
    before_query-found wait g key value s cacheable outside gen built found =
        rw (cacheable, outside, resolve_key-built x b self g input key s gen built, found, outside)
          refl

  build_key_input-driver :
      (rb rb' : Executor) (sql : Text) (args : List x.Value)
      → rb.driver_type ≡ rb'.driver_type
      → build_key_input x self.namespace rb sql args ≡ build_key_input x self.namespace rb' sql args
  unfolding build_key_input
  build_key_input-driver rb rb' sql args same = rw same refl

  -- With a lawful backend, a result that one executor has read outside a transaction is answered
  -- to the same statement with the same arguments, of an executor that has the same driver and
  -- nothing in its L1 cache and is in no transaction, without a query: until the earlier of the
  -- deadlines of envelope and backend, and as long as the namespace keeps its generation. The
  -- result must be one that is cached, and the libraries must encode and decode it faithfully.
  pub after_query-before_query :
      (wait : State x b → State x b) (task_id task_id' : ℕ) (rb rb' : Executor) (sql : Text)
      (args : List x.Value) (g later instant : ℕ) (key : CacheKey) (value : x.Value) (s : State x b)
      (storable : Storable s.now key value (ttl_of x b self value))
      → is_cacheable x self.policy sql ≡ true
      → is_deferring x b self rb ≡ false
      → is_in_transaction rb' ≡ false
      → rb'.driver_type ≡ rb.driver_type
      → not self.policy.cache_null && is_empty (x.shape value) ≡ false
      → (b.generation s.now self.namespace s.backend).0 ≡ ok g
      → (b.generation later self.namespace s.backend).0 ≡ ok g
      → Key.build x (build_key_input x self.namespace rb sql args) g ≡ ok key
      → (b.put s.now key.digest storable.bytes
          (ttl_of x b self value)
          (b.generation s.now self.namespace s.backend).1).0
        ≡ ok tt
      → (L1.get instant rb'.id key.digest (L1.put s.instant rb.id key.digest value s.l1)).0 ≡ none
      → later < deadline s.now (ttl_of x b self value)
      → later < saturating_add s.now (Envelope.duration_ms (ttl_of x b self value))
      → (before_query x b self wait task_id' rb' sql args
          (at later instant (after_query x b self task_id rb sql args (ok value) s).1)).0
        ≡ ok (return_value value)
  unfolding Envelope.new Envelope.is_fresh
  after_query-before_query wait task_id task_id' rb rb' sql args g later instant key value s
        storable cacheable stores outside driver kept gen gen' built put cold lives fresh =
      let ttl = ttl_of x b self value in
      let backend = (b.generation s.now self.namespace s.backend).1 in
      let gen_after =
        laws.generation-put s.now later key.digest self.namespace storable.bytes ttl backend
        ∙ (laws.generation-generation s.now later self.namespace self.namespace s.backend ∙ gen') in
      rw
        (after_query-state task_id rb sql args g key value s storable cacheable stores kept gen
          built put)
        (before_query-found task_id' rb' sql args wait g key value _ cacheable outside gen_after
          (rw (build_key_input-driver rb' rb sql args driver) built)
          (lookup_value-found rb'.id key storable.bytes
            (Envelope.new s.now key storable.payload ttl) value _ cold
            (laws.get-generation later later key.digest self.namespace _
              ∙ laws.get-put s.now later key.digest storable.bytes ttl backend lives put)
            storable.opened (ground arith) storable.decoded))
