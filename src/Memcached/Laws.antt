-- ===== src/Memcached/Laws.antt =====
-- What is packed is unpacked.
use rbatis_cache.Common.{◌≡◌, refl, true, false, some, Bool, Bytes, ok}
use rbatis_cache.Memcached.{MemcacheClient, packed, unpacked}

module _ (c : MemcacheClient) where
  pub unpacked-packed :
      (compression : Bool) (bytes : Bytes)
      → (compression ≡ true → (z : Bytes) × (c.gzip bytes ≡ ok z) × (c.gunzip z ≡ ok bytes))
      → unpacked c compression (packed c compression bytes) ≡ some bytes
  unfolding packed unpacked
  unpacked-packed false bytes h = refl
  unpacked-packed true bytes h = let (z, there, back) = h refl in rw (there, back) refl
