-- ===== src/Executor/Resolve.antt =====
-- The key of a statement, at the generation that the backend returns.
use rbatis_cache.Common.{ℕ, ◌≡◌, refl, ok}
use rbatis_cache.Backend.{CacheBackend}
use rbatis_cache.Executor.Types.{RbatisCacheInterceptor, resolve_key, key_at}
use rbatis_cache.External.{External}
use rbatis_cache.Key
use rbatis_cache.Key.{CacheKey}
use rbatis_cache.Shared.{State}

module _ (x : External) (b : CacheBackend) (self : RbatisCacheInterceptor) where
  pub resolve_key-built :
      (g : ℕ) (input : Key.CacheKeyInput) (key : CacheKey) (s : State x b)
      → (b.generation s.now input.namespace s.backend).0 ≡ ok g
      → Key.build x input g ≡ ok key
      → resolve_key x b self input s
        ≡ (ok key, record s { backend = (b.generation s.now input.namespace s.backend).1 })
  unfolding resolve_key key_at
  resolve_key-built g input key s gen built = rw (gen, key_at, built) refl
