-- ===== src/Envelope/Types.antt =====
-- The record of src/envelope.rs.
use rbatis_cache.Common.{ℕ, List, Text, Bytes}

pub record CacheEnvelope : Type 0 where
  pub version : ℕ
  pub generation : ℕ
  pub expires_at_ms : ℕ
  pub table_tags : List Text
  pub payload : Bytes
