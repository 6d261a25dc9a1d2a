-- ===== src/Properties/Laws.antt =====
-- What cutting and trimming do to texts that are put together, and what the lines of a properties
-- file do to a configuration.
use rbatis_cache.Common.{
  ℕ, ◌≡◌, ◌≢◌, refl, ◌∙◌, Bool, true, false, ◌||◌, ◌&&◌, not, none, some, List, [], ◌∷◌, ◌++◌, Text,
  All, All-append, arith, ◌==◌, Option-cases, inl, inr, Bool-cases,
}
use rbatis_cache.Properties.{
  apply_line, apply_lines, trim, trim_start, trim_end, before_end, lines, split, split_once,
  is_whitespace, find, starts_with, is_empty,
}

-- Neither white space nor another character.
abbrev pub IsSolid : ℕ → Type 0
IsSolid c = is_whitespace c ≡ false

trim_start-solid : (s : Text) → All IsSolid s → trim_start s ≡ s
unfolding trim_start
trim_start-solid [] h = refl
trim_start-solid (c ∷ s) h = rw (h.0) refl

before_end-solid : (c : ℕ) (s : Text) → IsSolid c → before_end c s ≡ c ∷ s
before_end-solid c [] h = rw h refl
before_end-solid c (d ∷ s) h = refl

trim_end-solid : (s : Text) → All IsSolid s → trim_end s ≡ s
unfolding trim_end
trim_end-solid [] h = refl
trim_end-solid (c ∷ s) h = rw (trim_end-solid s h.1) (before_end-solid c s h.0)

pub trim-solid : (s : Text) → All IsSolid s → trim s ≡ s
trim-solid s h = rw (trim_start-solid s h) (trim_end-solid s h)

pub split_once-first :
    (at : ℕ) (left right : Text)
    → All (λ c. c ≢ at) left
    → split_once at (left ++ at ∷ right) ≡ some (left, right)
unfolding split_once
split_once-first at [] right h = ground arith
split_once-first at (c ∷ left) right h = ground (arith, split_once-first at left right h.1, h.0)

pub split-first :
    (at : ℕ) (left right : Text)
    → All (λ c. c ≢ at) left
    → split at (left ++ at ∷ right) ≡ left ∷ split at right
unfolding split
split-first at [] right h = ground arith
split-first at (c ∷ left) right h = ground (arith, split-first at left right h.1, h.0)

pub split-whole : (at : ℕ) (s : Text) → All (λ c. c ≢ at) s → split at s ≡ s ∷ []
unfolding split
split-whole at [] h = refl
split-whole at (c ∷ s) h = ground (arith, split-whole at s h.1, h.0)

pub find-none : (at : ℕ) (s : Text) → All (λ c. c ≢ at) s → find (at ∷ []) s ≡ none
find-none at [] h = refl
find-none at (c ∷ s) h = ground (arith, find-none at s h.1, h.0)

solid-not : (at c : ℕ) → is_whitespace at ≡ true → IsSolid c → c ≢ at
solid-not at c h solid = λ same. cc

lines-first : (line rest : Text) → All IsSolid line → lines (line ++ 10 ∷ rest) ≡ line ∷ lines rest
unfolding lines
lines-first [] rest h = ground arith
lines-first (c ∷ line) rest h =
    ground (arith, lines-first line rest h.1, solid-not 10 c refl h.0, solid-not 13 c refl h.0)

-- Whether a text can be a key.
abbrev pub is_key : Text → Bool
is_key [] = true
is_key (c ∷ s) = not (is_whitespace c) && (not (c == 61) && is_key s)

pub is_key-IsSolid : (s : Text) → is_key s ≡ true → All IsSolid s × All (λ c. c ≢ 61) s
is_key-IsSolid [] h = (tt, tt)
is_key-IsSolid (c ∷ s) h =
    let rest = is_key-IsSolid s (ground arith) in
    ((ground arith, rest.0), (λ same. ground arith, rest.1))

module _ {ℓ} {Config : Type ℓ} (apply_kv : Text → Text → Config → Config) where
  pub apply_lines-append :
      (first second : List Text) (config : Config)
      → apply_lines apply_kv (first ++ second) config
        ≡ apply_lines apply_kv second (apply_lines apply_kv first config)
  unfolding apply_lines
  apply_lines-append [] second config = refl
  apply_lines-append (line ∷ first) second config =
      apply_lines-append first second (apply_line apply_kv (trim line) config)

  apply_line-entry :
      (key value : Text) (config : Config)
      → All IsSolid key
      → All (λ c. c ≢ 61) key
      → starts_with 35 key ≡ false
      → All IsSolid value
      → apply_line apply_kv (key ++ 61 ∷ value) config ≡ apply_kv key value config
  unfolding apply_line trim_start trim_end
  apply_line-entry [] value config hk he hc hv =
      rw (split_once-first 61 [] value tt, trim-solid value hv) refl
  apply_line-entry (c ∷ key) value config hk he hc hv =
      rw (hc, split_once-first 61 (c ∷ key) value he, trim-solid (c ∷ key) hk, trim-solid value hv)
        refl

  -- A line with a key, an equals sign and a value sets the value of the key, and the rest of the
  -- file goes on from there, if neither holds white space and the key has no equals sign and does
  -- not start with the comment sign.
  pub apply_lines-entry :
      (key value rest : Text) (config : Config)
      → All IsSolid key
      → All (λ c. c ≢ 61) key
      → starts_with 35 key ≡ false
      → All IsSolid value
      → apply_lines apply_kv (lines (key ++ 61 ∷ value ++ 10 ∷ rest)) config
        ≡ apply_lines apply_kv (lines rest) (apply_kv key value config)
  unfolding apply_lines
  apply_lines-entry key value rest config hk he hc hv =
      let solid = All-append IsSolid key (61 ∷ value) hk (refl, hv) in
      rw
        (
          lines-first (key ++ 61 ∷ value) rest solid,
          apply_lines,
          trim-solid (key ++ 61 ∷ value) solid,
          apply_line-entry key value config hk he hc hv,
        )
        refl

  apply_line-keeps {κ} :
      {A : Type κ} (f : Config → A)
      → ((key value : Text) (config : Config) → f (apply_kv key value config) ≡ f config)
      → (line : Text) (config : Config) → f (apply_line apply_kv line config) ≡ f config
  unfolding apply_line
  apply_line-keeps f keeps line config = elim (Bool-cases (is_empty line || starts_with 35 line)) [
    | inl skipped ↦ rw skipped refl
    | inr read ↦ elim (Option-cases (split_once 61 line)) [
      | inl gone ↦ rw (read, gone) refl
      | inr ((key, value), cut) ↦ rw (read, cut) (keeps (trim key) (trim value) config)
    ]
  ]

  -- What every setting keeps, every file keeps.
  pub apply_lines-keeps {κ} :
      {A : Type κ} (f : Config → A)
      → ((key value : Text) (config : Config) → f (apply_kv key value config) ≡ f config)
      → (ls : List Text) (config : Config) → f (apply_lines apply_kv ls config) ≡ f config
  unfolding apply_lines
  apply_lines-keeps f keeps [] config = refl
  apply_lines-keeps f keeps (line ∷ ls) config =
      apply_lines-keeps f keeps ls (apply_line apply_kv (trim line) config)
      ∙ apply_line-keeps f keeps (trim line) config
