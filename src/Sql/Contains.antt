-- ===== src/Sql/Contains.antt =====
-- std's str::contains, on bytes, and what it decides.
use rbatis_cache.Common.{
  ◌≡◌, refl, Bool, true, false, ◌&&◌, ◌||◌, [], ◌∷◌, ◌++◌, Text, ◌==◌, ap, arith, inl, inr,
  Bool-cases,
}

unfoldable pub starts_with : Text → Text → Bool
starts_with [] t = true
starts_with (c ∷ p) [] = false
starts_with (c ∷ p) (d ∷ t) = c == d && starts_with p t

unfoldable pub contains : Text → Text → Bool
unfolding starts_with
contains p [] = starts_with p []
contains p (d ∷ t) = starts_with p (d ∷ t) || contains p t

starts_with-append : (p t : Text) → starts_with p (p ++ t) ≡ true
unfolding starts_with
starts_with-append [] t = refl
starts_with-append (c ∷ p) t = ground (arith, starts_with-append p t)

starts_with_rest : (p t : Text) → starts_with p t ≡ true → (rest : Text) × (t ≡ p ++ rest)
unfolding starts_with
starts_with_rest [] t h = (t, refl)
starts_with_rest (c ∷ p) [] h = cc
starts_with_rest (c ∷ p) (d ∷ t) h =
    let (rest, e) = starts_with_rest p t (ground arith) in (rest, ground arith)

pub contains-append : (p before after : Text) → contains p (before ++ (p ++ after)) ≡ true
unfolding contains
contains-append [] [] [] = refl
contains-append [] [] (d ∷ after) = refl
contains-append (c ∷ p) [] after = ground (arith, starts_with-append (c ∷ p) after)
contains-append p (d ∷ before) after = ground (arith, contains-append p before after)

-- What is found stands somewhere in the text.
pub contains_parts :
    (p t : Text)
    → contains p t ≡ true
    → (before : Text) × (after : Text) × (t ≡ before ++ (p ++ after))
unfolding contains
contains_parts p [] h = let (rest, e) = starts_with_rest p [] h in ([], rest, e)
contains_parts p (d ∷ t) h = elim (Bool-cases (starts_with p (d ∷ t))) [
  | inl here ↦ let (rest, e) = starts_with_rest p (d ∷ t) here in ([], rest, e)
  | inr later ↦
      let (before, after, e) = contains_parts p t (ground arith) in
      (d ∷ before, after, ap (◌∷◌ d) e)
]
