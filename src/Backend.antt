-- ===== src/Backend.antt =====
-- The backend SPI of src/backend.rs: four operations on a state that only the backend knows. Each
-- takes the clock (Unix milliseconds) that the call reads, and returns its result with the state
-- after it.
pub mod Laws
use rbatis_cache.Common.{ℕ, Option, Text, Bytes, Duration}
use rbatis_cache.Error.{CacheResult}

pub record CacheBackend : Type 1 where
  pub State : Type 0
  pub get : ℕ → Text → State → CacheResult (Option Bytes) × State
  pub put : ℕ → Text → Bytes → Duration → State → CacheResult (Unit {0}) × State
  pub generation : ℕ → Text → State → CacheResult ℕ × State
  pub bump_generation : ℕ → Text → State → CacheResult ℕ × State
