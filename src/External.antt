-- ===== src/External.antt =====
-- The libraries that the program calls: sqlparser, blake3, rmp_serde and the values of rbs. What
-- the program relies on of them is a hypothesis where it is used.
use rbatis_cache.Common.{ℕ, Bool, List, Text, Bytes, Result}
use rbatis_cache.Envelope.Types.{CacheEnvelope}

-- What the program asks of a value: Null, an array of so many elements, or neither.
pub data Shape : Type 0 where
  null : Shape
  array : ℕ → Shape
  other : Shape

-- Errors are the texts that `to_string` makes of them.
pub record External : Type 1 where
  -- sqlparser::ast::Statement
  pub Statement : Type 0
  -- Parser::parse_sql(&GenericDialect {}, sql)
  pub parse_sql : Text → Result Text (List Statement)
  -- matches!(statement, Statement::Query(_))
  pub is_query : Statement → Bool
  -- ToString of a statement
  pub render : Statement → Text
  -- the relations that visit_relations meets, as text
  pub relations : List Statement → List Text
  -- blake3::hash(bytes).to_hex(); a hasher that is fed in pieces hashes what they make together
  pub blake3_hex : Bytes → Text
  -- rbs::Value
  pub Value : Type 0
  pub shape : Value → Shape
  -- rmp_serde::to_vec_named and from_slice, of a value, of arguments and of an envelope
  pub encode_value : Value → Result Text Bytes
  pub decode_value : Bytes → Result Text Value
  pub encode_args : List Value → Result Text Bytes
  pub encode_envelope : CacheEnvelope → Result Text Bytes
  pub decode_envelope : Bytes → Result Text CacheEnvelope
