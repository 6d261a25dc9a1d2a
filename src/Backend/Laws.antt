-- ===== src/Backend/Laws.antt =====
-- What the rest of the program relies on of a backend, as an interface: an implementation fills it,
-- and a client takes it as an argument.
use rbatis_cache.Common.{ℕ, ◌<◌, ◌≡◌, some, Text, Bytes, Duration, ok, u64_max}
use rbatis_cache.Backend.{CacheBackend}

-- `deadline` is the time until which a write of a TTL stands.
pub record LawfulBackend (b : CacheBackend) (deadline : ℕ → Duration → ℕ) : Type 0 where
  pub get-put :
      (now later : ℕ) (key : Text) (value : Bytes) (ttl : Duration) (s : b.State)
      → later < deadline now ttl
      → (b.put now key value ttl s).0 ≡ ok tt
      → (b.get later key (b.put now key value ttl s).1).0 ≡ ok (some value)
  pub generation-bump :
      (now later g : ℕ) (namespace : Text) (s : b.State)
      → (b.bump_generation now namespace s).0 ≡ ok g
      → g < u64_max
      → (b.generation later namespace (b.bump_generation now namespace s).1).0 ≡ ok g
  pub generation-put :
      (now later : ℕ) (key namespace : Text) (value : Bytes) (ttl : Duration) (s : b.State)
      → (b.generation later namespace (b.put now key value ttl s).1).0
        ≡ (b.generation later namespace s).0
  pub generation-get :
      (now later : ℕ) (key namespace : Text) (s : b.State)
      → (b.generation later namespace (b.get now key s).1).0 ≡ (b.generation later namespace s).0
  pub generation-generation :
      (now later : ℕ) (namespace other : Text) (s : b.State)
      → (b.generation later namespace (b.generation now other s).1).0
        ≡ (b.generation later namespace s).0
  pub get-generation :
      (now later : ℕ) (key namespace : Text) (s : b.State)
      → (b.get later key (b.generation now namespace s).1).0 ≡ (b.get later key s).0
