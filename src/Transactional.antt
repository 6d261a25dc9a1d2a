-- ===== src/Transactional.antt =====
-- src/transactional.rs: what a transaction wants to write to the cache, kept until it commits.
pub mod Flush
use rbatis_cache.Common.{
  ℕ, Option, List, [], ◌∷◌, Text, Bytes, Duration, ok, err, length, map_err, text_key,
}
use rbatis_cache.Backend.{CacheBackend}
use rbatis_cache.DashMap
use rbatis_cache.Envelope
use rbatis_cache.Error.{CacheError, CacheResult}
use rbatis_cache.External.{External}
use rbatis_cache.Key.{CacheKey}
use mathlib.Core.Option

pub record TransactionalCacheBuffer (Value : Type 0) : Type 0 where
  pub pending_add : List (Text × (CacheKey × Value))
  pub clear_namespaces : List (Text × Unit {0})
  pub ttl : Duration

module _ {Value : Type 0} where
  unfoldable pub new : Duration → TransactionalCacheBuffer Value
  new ttl = record { pending_add = []; clear_namespaces = []; ttl = ttl }

  unfoldable pub put :
      CacheKey → Value → TransactionalCacheBuffer Value → TransactionalCacheBuffer Value
  put key value buf = record buf {
    pending_add = DashMap.insert key.digest (key, value) buf.pending_add;
  }

  unfoldable pub pending_get : Text → TransactionalCacheBuffer Value → Option Value
  pending_get digest buf =
      Option.map (λ (e : CacheKey × Value). e.1) (DashMap.get digest buf.pending_add)

  unfoldable pub clear_namespace :
      Text → TransactionalCacheBuffer Value → TransactionalCacheBuffer Value
  clear_namespace namespace buf = record buf {
    clear_namespaces = DashMap.insert namespace tt buf.clear_namespaces;
  }

  unfoldable pub discard : TransactionalCacheBuffer Value → TransactionalCacheBuffer Value
  discard buf = record buf { pending_add = []; clear_namespaces = [] }

  unfoldable pub pending_count : TransactionalCacheBuffer Value → ℕ
  pending_count buf = length buf.pending_add

module _ (x : External) (b : CacheBackend) (now : ℕ) where
  -- `?` ends a loop at the first error; what was done before stays done.
  abbrev Effect : Type 0
  Effect = CacheResult (Unit {0}) × b.State

  abbrev and_then : Effect → (b.State → Effect) → Effect
  and_then (ok _, s) k = k s
  and_then (err e, s) k = (err e, s)

  abbrev ignore_value : CacheResult ℕ × b.State → Effect
  ignore_value (ok n, s) = (ok tt, s)
  ignore_value (err e, s) = (err e, s)

  -- for ns in &self.clear_namespaces
  unfoldable pub bump_all : List (Text × Unit {0}) → b.State → Effect
  bump_all [] s = (ok tt, s)
  bump_all ((namespace, _) ∷ rest) s =
      and_then (ignore_value (b.bump_generation now namespace s)) (bump_all rest)

  abbrev pub put_encoded : CacheKey → Duration → CacheResult Bytes → b.State → Effect
  put_encoded key ttl (err e) s = (err e, s)
  put_encoded key ttl (ok envelope) s = b.put now key.digest envelope ttl s

  abbrev pub put_payload : CacheKey → Duration → CacheResult Bytes → b.State → Effect
  put_payload key ttl (err e) s = (err e, s)
  put_payload key ttl (ok payload) s =
      put_encoded key ttl (Envelope.encode x (Envelope.new now key payload ttl)) s

  -- for entry in &self.pending_add
  unfoldable pub put_all : Duration → List (Text × (CacheKey × x.Value)) → b.State → Effect
  put_all ttl [] s = (ok tt, s)
  put_all ttl ((digest, (key, value)) ∷ rest) s =
      and_then (put_payload key ttl (map_err CacheError.codec (x.encode_value value)) s)
        (put_all ttl rest)

  -- First the generations of the namespaces that were written to, then the entries.
  unfoldable pub flush_to : TransactionalCacheBuffer x.Value → b.State → Effect
  unfolding bump_all put_all
  flush_to buf s = and_then (bump_all buf.clear_namespaces s) (put_all buf.ttl buf.pending_add)
