-- ===== src/Tests/Fixtures.antt =====
-- Concrete libraries, policies and states. The libraries here are as plain as possible: SQL is
-- its own parse tree and its own rendering, the hash of bytes is those bytes, a value is a
-- number.
use rbatis_cache.Common.{ℕ, true, none, some, [], ◌∷◌, Text, Bytes, ascii, Result, ok, err}
use rbatis_cache.Backend.{CacheBackend}
use rbatis_cache.Envelope.Types.{CacheEnvelope}
use rbatis_cache.Executor.Types.{Executor, RbatisCacheInterceptor}
use rbatis_cache.External.{External, other}
use rbatis_cache.Key.{CacheKeyInput}
use rbatis_cache.Local
use rbatis_cache.Local.{local_backend}
use rbatis_cache.L1
use rbatis_cache.Local.Types.{default_config}
use rbatis_cache.Metrics
use rbatis_cache.Policy.{default_policy, defer}
use rbatis_cache.Shared.{State}
use rbatis_cache.SingleFlight

abbrev pub seal : CacheEnvelope → Result Text Bytes
seal e = elim e.table_tags [
  | [] ↦ ok (e.version ∷ e.generation ∷ e.expires_at_ms ∷ e.payload)
  | t ∷ ts ↦ err (ascii "tags")
]

abbrev pub unseal : Bytes → Result Text CacheEnvelope
unseal (v ∷ g ∷ d ∷ p) =
    ok (record { version = v; generation = g; expires_at_ms = d; table_tags = []; payload = p })
unseal bytes = err (ascii "short")

abbrev pub decode_number : Bytes → Result Text ℕ
decode_number (n ∷ []) = ok n
decode_number bytes = err (ascii "not a number")

abbrev pub libraries : External
libraries = record {
  Statement = Text;
  parse_sql = λ sql. ok (sql ∷ []);
  is_query = λ statement. true;
  render = λ statement. statement;
  relations = λ statements. [];
  blake3_hex = λ bytes. bytes;
  Value = ℕ;
  shape = λ n. other;
  encode_value = λ n. ok (n ∷ []);
  decode_value = decode_number;
  encode_args = λ args. ok args;
  encode_envelope = seal;
  decode_envelope = unseal;
}

abbrev pub backend : CacheBackend
backend = local_backend (λ bytes. bytes)

abbrev pub select_one : Text
select_one = ascii "select 1"

abbrev pub select_two : Text
select_two = ascii "select 2"

abbrev pub users : Text
users = ascii "users"

abbrev pub request_key : CacheKeyInput
request_key = record {
  version = ascii "1";
  data_source = ascii "default";
  driver = ascii "sqlite";
  tenant = none;
  namespace = users;
  statement_id = [];
  sql = select_one;
  parameters = [];
}

-- Two sessions, and a transaction.
abbrev pub session : Executor
session = record { id = 1; name = ascii "RBatisConnExecutor"; driver_type = some (ascii "sqlite") }

abbrev pub other_session : Executor
other_session = record {
  id = 2;
  name = ascii "RBatisConnExecutor";
  driver_type = some (ascii "sqlite");
}

abbrev pub transaction : Executor
transaction = record {
  id = 3;
  name = ascii "RBatisTxExecutor";
  driver_type = some (ascii "sqlite");
}

abbrev pub interceptor : RbatisCacheInterceptor
interceptor = record { namespace = users; policy = default_policy }

abbrev pub deferring : RbatisCacheInterceptor
deferring = record {
  namespace = users;
  policy = record default_policy { transaction_mode = defer };
}

abbrev pub idle : State libraries backend
idle = record {
  backend = Local.with_config default_config;
  l1 = L1.new 256 1000000000;
  singleflight = SingleFlight.new;
  tx_buffers = [];
  metrics = Metrics.new;
  now = 1000;
  instant = 5;
}
