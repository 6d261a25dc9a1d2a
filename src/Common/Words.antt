-- ===== src/Common/Words.antt =====
-- Unsigned machine words as numbers below their modulus, with Rust's saturating, wrapping and
-- converting operations, and durations as a number of nanoseconds.
use Prim.Native.Nat.{ℕ, ◌+◌, ◌*◌, ◌/◌, ◌%◌, ◌≤◌}
use mathlib.Core.Path.{◌≡◌}
use mathlib.Core.List.{List, [], ◌∷◌}
use native.Mathlib.Omega.{arith}
use rbatis_cache.Common.Tests.{ltb, if◌then◌else◌}

abbrev pub u64_max : ℕ
u64_max = 18446744073709551615

abbrev pub u64_mod : ℕ
u64_mod = 18446744073709551616

-- u64::saturating_add
unfoldable pub saturating_add : ℕ → ℕ → ℕ
saturating_add a b = if ltb u64_max (a + b) then u64_max else a + b

-- AtomicU64::fetch_add leaves the sum modulo 2^64
unfoldable pub wrapping_add : ℕ → ℕ → ℕ
wrapping_add a b = (a + b) % u64_mod

-- `x.try_into().unwrap_or(u64::MAX)` of a wider number
unfoldable pub to_u64_saturating : ℕ → ℕ
to_u64_saturating a = if ltb u64_max a then u64_max else a

-- `x as u64` and `x as u32` of a wider number
unfoldable pub as_u64 : ℕ → ℕ
as_u64 a = a % u64_mod

unfoldable pub as_u32 : ℕ → ℕ
as_u32 a = a % 4294967296

pub saturating_add-le : (a b : ℕ) → saturating_add a b ≤ u64_max
unfolding saturating_add
saturating_add-le a b = ground arith

pub saturating_add_exact : (a b : ℕ) → a + b ≤ u64_max → saturating_add a b ≡ a + b
unfolding saturating_add
saturating_add_exact a b h = ground arith

pub wrapping_add_exact : (a b : ℕ) → a + b ≤ u64_max → wrapping_add a b ≡ a + b
unfolding wrapping_add
wrapping_add_exact a b h = omega arith

-- std::time::Duration, in nanoseconds
abbrev pub Duration : Type 0
Duration = ℕ

abbrev pub from_millis : ℕ → Duration
from_millis n = n * 1000000

abbrev pub from_secs : ℕ → Duration
from_secs n = n * 1000000000

abbrev pub as_millis : Duration → ℕ
as_millis d = d / 1000000

abbrev pub as_secs : Duration → ℕ
as_secs d = d / 1000000000

-- u64::to_le_bytes
unfoldable pub to_le_bytes : ℕ → List ℕ
to_le_bytes n =
    n % 256
    ∷ n / 256 % 256
    ∷ n / 65536 % 256
    ∷ n / 16777216 % 256
    ∷ n / 4294967296 % 256
    ∷ n / 1099511627776 % 256
    ∷ n / 281474976710656 % 256
    ∷ n / 72057594037927936 % 256
    ∷ []

byte_list-injective :
    {a b c d e f g h a' b' c' d' e' f' g' h' : ℕ}
    → ◌≡◌ {A = List ℕ}
        (a ∷ b ∷ c ∷ d ∷ e ∷ f ∷ g ∷ h ∷ [])
        (a' ∷ b' ∷ c' ∷ d' ∷ e' ∷ f' ∷ g' ∷ h' ∷ [])
    → (a ≡ a') × (b ≡ b') × (c ≡ c') × (d ≡ d') × (e ≡ e') × (f ≡ f') × (g ≡ g') × (h ≡ h')
byte_list-injective p = (cc, cc, cc, cc, cc, cc, cc, cc)

pub to_le_bytes-injective :
    (m n : ℕ) → m ≤ u64_max → n ≤ u64_max → to_le_bytes m ≡ to_le_bytes n → m ≡ n
unfolding to_le_bytes
to_le_bytes-injective m n hm hn p = let bytes = byte_list-injective p in omega arith

-- u64::from_le_bytes
abbrev pub from_le_bytes : List ℕ → ℕ
from_le_bytes [] = 0
from_le_bytes (b ∷ bs) = b + 256 * from_le_bytes bs

pub from_le_bytes-to_le_bytes : (n : ℕ) → n ≤ u64_max → from_le_bytes (to_le_bytes n) ≡ n
unfolding to_le_bytes
from_le_bytes-to_le_bytes n h = omega arith
