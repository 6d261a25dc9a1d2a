-- ===== src/Common/Decimal.antt =====
-- Decimal text: `to_string` of an unsigned number, and `str::parse` of one.
use Prim.Native.Nat.{ℕ, zero, suc, ◌+◌, ◌-◌, ◌*◌, ◌/◌, ◌%◌, ◌≤◌, ◌<◌}
use mathlib.Core.Path.{◌≡◌, sym, ap, ◌∙◌}
use mathlib.Core.Logic.{inl, inr}
use mathlib.Core.Bool.{Bool, true, false, ◌&&◌}
use mathlib.Core.Option.{Option, none, some}
use mathlib.Core.List.{[], ◌∷◌}
use native.Mathlib.Omega.{arith}
use rbatis_cache.Common.Tests.{ltb, leb, ◌==◌, if◌then◌else◌, Bool-cases, ltb-false→le}
use rbatis_cache.Common.Lists.{All}
use rbatis_cache.Common.Strings.{Text}

-- The digits of a number before those of `out`, on fuel: each round divides by ten.
abbrev pub digits : ℕ → ℕ → Text → Text
digits zero n out = out
digits (suc fuel) n out = elim (ltb n 10) [
  | true ↦ (48 + n) ∷ out
  | false ↦ digits fuel (n / 10) ((48 + n % 10) ∷ out)
]

abbrev pub decimal : ℕ → Text
decimal n = digits (suc n) n []

abbrev is_digit : ℕ → Bool
is_digit c = leb 48 c && leb c 57

-- The digits after a value that is read already; a value over the type's largest is an error.
abbrev pub scan : ℕ → Text → ℕ → Option ℕ
scan largest [] n = some n
scan largest (c ∷ s) n =
    let rest = scan largest s (n * 10 + (c - 48)) in
    if is_digit c && leb (n * 10 + (c - 48)) largest then rest else none

abbrev unsigned : ℕ → Text → Option ℕ
unsigned largest [] = none
unsigned largest (c ∷ s) = scan largest (c ∷ s) 0

-- `text.parse()` as an unsigned type: digits, with a plus sign or none before them.
unfoldable pub parse_uint : ℕ → Text → Option ℕ
parse_uint largest [] = none
parse_uint largest (c ∷ s) = if c == 43 then unsigned largest s else unsigned largest (c ∷ s)

scan-digits :
    (largest fuel n : ℕ) (out : Text)
    → n < fuel
    → n ≤ largest
    → scan largest (digits fuel n out) 0 ≡ scan largest out n
scan-digits largest zero n out h bound = absurd (omega arith)
scan-digits largest (suc fuel) n out h bound = elim (Bool-cases (ltb n 10)) [
  | inl few ↦ ground arith
  | inr many ↦
      ground (
        arith,
        scan-digits largest fuel (n / 10) ((48 + n % 10) ∷ out) (ground arith) (ground arith),
      )
]

digits-start :
    (fuel n : ℕ) (out : Text) → (d : ℕ) × (s : Text) × (digits (suc fuel) n out ≡ d ∷ s) × (48 ≤ d)
digits-start zero n out = elim (Bool-cases (ltb n 10)) [
  | inl few ↦ (48 + n, out, ground arith, omega arith)
  | inr many ↦ (48 + n % 10, out, ground arith, omega arith)
]
digits-start (suc fuel) n out = elim (Bool-cases (ltb n 10)) [
  | inl few ↦ (48 + n, out, ground arith, omega arith)
  | inr many ↦
      let (d, s, same, le) = digits-start fuel (n / 10) ((48 + n % 10) ∷ out) in
      (d, s, ground arith, le)
]

unsigned-start :
    (largest c : ℕ) (s : Text) → 48 ≤ c → parse_uint largest (c ∷ s) ≡ scan largest (c ∷ s) 0
unfolding parse_uint
unsigned-start largest c s h = ground arith

-- A number is read back from its decimal text by every type that it fits.
pub parse_uint-decimal : (largest n : ℕ) → n ≤ largest → parse_uint largest (decimal n) ≡ some n
parse_uint-decimal largest n h =
    let (d, s, same, le) = digits-start n n [] in
    ap (parse_uint largest) same
    ∙ unsigned-start largest d s le
    ∙ ap (λ t. scan largest t 0) (sym same)
    ∙ scan-digits largest (suc n) n [] (omega arith) h

abbrev pub IsDigit : ℕ → Type 0
IsDigit c = (48 ≤ c) × (c ≤ 57)

digits-All :
    (fuel n : ℕ) (out : Text) → n < fuel → All IsDigit out → All IsDigit (digits fuel n out)
digits-All zero n out h rest = rest
digits-All (suc fuel) n out h rest = elim (Bool-cases (ltb n 10)) [
  | inl few ↦ rw (digits, few) ((omega arith, ground arith), rest)
  | inr many ↦
      let more = ltb-false→le n 10 many in
      rw (digits, many)
        (digits-All fuel (n / 10) ((48 + n % 10) ∷ out) (omega arith)
          ((omega arith, omega arith), rest))
]

pub decimal-All : (n : ℕ) → All IsDigit (decimal n)
decimal-All n = digits-All (suc n) n [] (omega arith) tt

-- A decimal text starts with a digit.
pub decimal-start : (n : ℕ) → (d : ℕ) × (s : Text) × (decimal n ≡ d ∷ s) × (48 ≤ d)
decimal-start n = digits-start n n []
