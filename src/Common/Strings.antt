-- ===== src/Common/Strings.antt =====
-- Text and byte strings as lists of byte values, and types whose values can be compared.
use Prim.Native.Nat.{ℕ}
use Prim.Native.Char.{code}
use Prim.Native.String.{String}
use mathlib.Core.Path.{◌≡◌, refl}
use mathlib.Core.Logic.{◌↔◌}
use mathlib.Core.Bool.{Bool, true, false, ◌&&◌}
use mathlib.Core.List.{List, [], ◌∷◌, ◌++◌}
use native.Mathlib.Omega.{arith}
use rbatis_cache.Common.Tests.{◌==◌ as nat_eqb, ==_iff}

abbrev pub Bytes : Type 0
Bytes = List ℕ

abbrev pub Text : Type 0
Text = List ℕ

-- The bytes of an ASCII literal.
abbrev pub ascii : String → Text
ascii String.[] = []
ascii (String.◌∷◌ c s) = code c ∷ ascii s

-- A type with a test for equality: what a hash map asks of its keys.
pub record Key {ℓ} (K : Type ℓ) : Type ℓ where
  pub same : K → K → Bool
  pub same_iff : (a b : K) → (same a b ≡ true) ↔ (a ≡ b)

abbrev pub text_same : Text → Text → Bool
text_same [] [] = true
text_same [] (b ∷ bs) = false
text_same (a ∷ bs) [] = false
text_same (a ∷ cs) (b ∷ bs) = nat_eqb a b && text_same cs bs

pub text_same_iff : (a b : Text) → (text_same a b ≡ true) ↔ (a ≡ b)
text_same_iff [] [] = (λ _. refl, λ _. refl)
text_same_iff [] (b ∷ bs) = (λ h. cc, λ h. cc)
text_same_iff (a ∷ xs) [] = (λ h. cc, λ h. cc)
text_same_iff (a ∷ xs) (b ∷ bs) = ground (arith, (text_same_iff xs bs).0, (text_same_iff xs bs).1)

instance abbrev pub text_key : Key Text
text_key = record { same = text_same; same_iff = text_same_iff }

-- Behind one prefix, texts are told apart as without it.
pub text_same-++ : (prefix a b : Text) → text_same (prefix ++ a) (prefix ++ b) ≡ text_same a b
text_same-++ [] a b = refl
text_same-++ (c ∷ prefix) a b = ground (arith, (==_iff c c).1, text_same-++ prefix a b)

-- Identifiers (i64 in the source) are only compared, so any number stands for one.
instance abbrev pub id_key : Key ℕ
id_key = record { same = nat_eqb; same_iff = ==_iff }
