-- ===== src/Executor/Types.antt =====
-- What rbatis hands to the hooks, and what they do with it alike.
use rbatis_cache.Common.{
  ℕ, Bool, true, false, not, Option, none, some, List, [], Text, Bytes, ascii, Duration, Result, ok,
  err, ◌++◌, map_err, length, ltb, ◌==◌, if◌then◌else◌,
}
use rbatis_cache.Backend.{CacheBackend}
use rbatis_cache.Envelope
use rbatis_cache.Envelope.Types.{CacheEnvelope}
use rbatis_cache.Error.{CacheError, CacheResult, display}
use rbatis_cache.External.{External, Shape, null, array, other}
use rbatis_cache.Key
use rbatis_cache.Key.{CacheKey, CacheKeyInput}
use rbatis_cache.L1
use rbatis_cache.Metrics
use rbatis_cache.Metrics.{CacheMetrics}
use rbatis_cache.Policy
use rbatis_cache.Policy.{CachePolicy, CacheFailureMode, fail_open, fail_closed}
use rbatis_cache.Shared.{State}
use rbatis_cache.Sql
use rbatis_cache.Sql.Contains.{contains}

-- What the hooks ask of `rbatis::executor::Executor`: its identifier, its type's name, and its
-- driver, if that is known.
pub record Executor : Type 0 where
  pub id : ℕ
  pub name : Text
  pub driver_type : Option Text

-- rbatis::Error, made from a text
abbrev pub Error : Type 0
Error = Text

unfoldable pub is_in_transaction : Executor → Bool
is_in_transaction rb = contains (ascii "RBatisTxExecutor") rb.name

-- The fields of the interceptor that do not change.
pub record RbatisCacheInterceptor : Type 0 where
  pub namespace : Text
  pub policy : CachePolicy

unfoldable pub is_empty : Shape → Bool
is_empty null = true
is_empty (array n) = n == 0
is_empty other = false

module _ (x : External) where
  -- `to_vec_named(args).unwrap_or_default()`
  unfoldable pub args_to_bytes : List x.Value → Bytes
  args_to_bytes args = elim (x.encode_args args) [ ok bytes ↦ bytes | err e ↦ [] ]

  unfoldable pub is_cacheable : CachePolicy → Text → Bool
  is_cacheable policy sql = elim (Sql.parse x sql) [
    | err e ↦ false
    | ok metadata ↦
        if not (Sql.is_cacheable metadata)
        then false
        else (elim policy.use_cache_filter [ none ↦ true | some filter ↦ Policy.check filter sql ])
  ]

  -- The key of a statement, as `before` and `after` both make it.
  unfoldable pub build_key_input : Text → Executor → Text → List x.Value → CacheKeyInput
  build_key_input namespace rb sql args = record {
    version = ascii "1";
    data_source = ascii "default";
    driver = elim rb.driver_type [ none ↦ ascii "unknown" | some driver ↦ driver ];
    tenant = none;
    namespace = namespace;
    statement_id = [];
    sql = sql;
    parameters = args_to_bytes args;
  }

module _ (x : External) (b : CacheBackend) (self : RbatisCacheInterceptor) where
  abbrev pub Action : Type 0 → Type 0
  Action A = State x b → A × State x b

  abbrev pub count : (CacheMetrics → CacheMetrics) → State x b → State x b
  count f s = record s { metrics = f s.metrics }

  abbrev pub failure_mode : CacheFailureMode
  failure_mode = self.policy.failure_mode

  abbrev pub cache_error : CacheError → Error
  cache_error e = ascii "[rbatis-cache] " ++ display e

  unfoldable pub generation_failed : CacheFailureMode → CacheError → Action (Result Error CacheKey)
  generation_failed fail_open e s = (
    err (ascii "[rbatis-cache] generation fail-open: " ++ display e),
    count Metrics.record_backend_error s,
  )
  generation_failed fail_closed e s =
      (err (ascii "[rbatis-cache] generation fail-closed: " ++ display e), s)

  unfoldable pub key_at : CacheKeyInput → CacheResult ℕ → Action (Result Error CacheKey)
  key_at input (ok generation) s = (map_err cache_error (Key.build x input generation), s)
  key_at input (err e) s = generation_failed failure_mode e s

  unfoldable pub resolve_key : CacheKeyInput → Action (Result Error CacheKey)
  resolve_key input s =
      let (r, backend) = b.generation s.now input.namespace s.backend in
      key_at input r (record s { backend = backend })

  -- A value from L2 goes to L1 too.
  unfoldable pub promote :
      ℕ → CacheKey → Result Text x.Value → Action (Result Error (Option x.Value))
  promote executor_id key (ok v) s = (
    ok (some v),
    record s {
      metrics = Metrics.record_hit s.metrics;
      l1 = L1.put s.instant executor_id key.digest v s.l1;
    },
  )
  promote executor_id key (err e) s = (ok none, s)

  unfoldable pub from_envelope :
      ℕ → CacheKey → CacheResult CacheEnvelope → Action (Result Error (Option x.Value))
  from_envelope executor_id key (err e) s = (ok none, count Metrics.record_miss s)
  from_envelope executor_id key (ok envelope) s =
      if Envelope.is_fresh s.now key.generation envelope
      then promote executor_id key (x.decode_value envelope.payload) s
      else (ok none, count Metrics.record_miss s)

  unfoldable pub get_failed : CacheFailureMode → CacheError → Action (Result Error (Option x.Value))
  get_failed fail_open e s = (ok none, count Metrics.record_backend_error s)
  get_failed fail_closed e s = (
    err (ascii "[rbatis-cache] L2 get fail-closed: " ++ display e),
    count Metrics.record_backend_error s,
  )

  unfoldable pub from_l2 :
      ℕ → CacheKey → CacheResult (Option Bytes) → Action (Result Error (Option x.Value))
  from_l2 executor_id key (ok (some bytes)) s =
      from_envelope executor_id key (Envelope.decode x bytes) s
  from_l2 executor_id key (ok none) s = (ok none, count Metrics.record_miss s)
  from_l2 executor_id key (err e) s = get_failed failure_mode e s

  unfoldable pub from_l1 : ℕ → CacheKey → Option x.Value → Action (Result Error (Option x.Value))
  from_l1 executor_id key (some v) s = (ok (some v), count Metrics.record_hit s)
  from_l1 executor_id key none s =
      let (r, backend) = b.get s.now key.digest s.backend in
      from_l2 executor_id key r (record s { backend = backend })

  unfoldable pub lookup_value : ℕ → CacheKey → Action (Result Error (Option x.Value))
  lookup_value executor_id key s =
      let (v, l1) = L1.get s.instant executor_id key.digest s.l1 in
      from_l1 executor_id key v (record s { l1 = l1 })

  unfoldable pub put_failed : CacheFailureMode → CacheError → Action (Result Error (Unit {0}))
  put_failed fail_open e s = (ok tt, count Metrics.record_backend_error s)
  put_failed fail_closed e s = (
    err (ascii "[rbatis-cache] L2 set fail-closed: " ++ display e),
    count Metrics.record_backend_error s,
  )

  unfoldable pub after_put : CacheResult (Unit {0}) → Action (Result Error (Unit {0}))
  after_put (ok _) s = (ok tt, s)
  after_put (err e) s = put_failed failure_mode e s

  unfoldable pub put_envelope :
      CacheKey → Duration → CacheResult Bytes → Action (Result Error (Unit {0}))
  put_envelope key ttl (err e) s = (err (ascii "[rbatis-cache] envelope: " ++ display e), s)
  put_envelope key ttl (ok envelope) s =
      let (r, backend) = b.put s.now key.digest envelope ttl s.backend in
      after_put r (record s { backend = backend })

  unfoldable pub put_payload :
      CacheKey → Duration → Result Text Bytes → Action (Result Error (Unit {0}))
  put_payload key ttl (err e) s = (err (ascii "[rbatis-cache] encode: " ++ e), s)
  put_payload key ttl (ok payload) s =
      if ltb self.policy.max_value_size (length payload)
      then (ok tt, s)
      else put_envelope key ttl (Envelope.encode x (Envelope.new s.now key payload ttl)) s

  unfoldable pub store_value : CacheKey → x.Value → Duration → Action (Result Error (Unit {0}))
  store_value key value ttl s = put_payload key ttl (x.encode_value value) s
