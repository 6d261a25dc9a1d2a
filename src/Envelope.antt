-- ===== src/Envelope.antt =====
-- src/envelope.rs: the bytes of an entry, with their generation and their deadline.
pub mod Types
use rbatis_cache.Common.{
  ℕ, Bool, ◌&&◌, Text, Bytes, Result, map_err, Duration, as_millis, to_u64_saturating,
  saturating_add, ltb, ◌==◌,
}
use rbatis_cache.Error.{CacheError, CacheResult}
use rbatis_cache.External.{External}
use rbatis_cache.Key.{CacheKey}
use Types.{CacheEnvelope}

unfoldable pub duration_ms : Duration → ℕ
duration_ms d = to_u64_saturating (as_millis d)

unfoldable pub new : ℕ → CacheKey → Bytes → Duration → CacheEnvelope
unfolding duration_ms
new now key payload ttl = record {
  version = 1;
  generation = key.generation;
  expires_at_ms = saturating_add now (duration_ms ttl);
  table_tags = key.table_tags;
  payload = payload;
}

unfoldable pub is_fresh : ℕ → ℕ → CacheEnvelope → Bool
is_fresh now generation e =
    e.version == 1 && (e.generation == generation && ltb now e.expires_at_ms)

module _ (x : External) where
  unfoldable pub encode : CacheEnvelope → CacheResult Bytes
  encode e = map_err CacheError.codec (x.encode_envelope e)

  unfoldable pub decode : Bytes → CacheResult CacheEnvelope
  decode bytes = map_err CacheError.codec (x.decode_envelope bytes)
