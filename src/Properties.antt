-- ===== src/Properties.antt =====
-- The properties files of the two configuration builders: std's operations on `str`, and the loop
-- over the lines. A text is the list of its characters here; an ASCII text is the same list
-- either way.
pub mod Laws
use rbatis_cache.Common.{
  ℕ, ◌+◌, Bool, true, false, ◌&&◌, ◌||◌, not, Option, none, some, List, [], ◌∷◌, Text, ltb, leb,
  ◌==◌, text_same, if◌then◌else◌,
}

-- char::is_whitespace
abbrev pub is_whitespace : ℕ → Bool
is_whitespace c =
    (leb 9 c && leb c 13)
    || (c == 32
        || (c == 133
            || (c == 160
                || (c == 5760
                    || ((leb 8192 c && leb c 8202)
                        || (c == 8232
                            || (c == 8233 || (c == 8239 || (c == 8287 || c == 12288)))))))))

unfoldable pub trim_start : Text → Text
trim_start [] = []
trim_start (c ∷ s) = let rest = trim_start s in if is_whitespace c then rest else c ∷ s

-- White space goes if nothing but white space follows.
abbrev pub before_end : ℕ → Text → Text
before_end c [] = if is_whitespace c then [] else c ∷ []
before_end c (d ∷ s) = c ∷ d ∷ s

unfoldable pub trim_end : Text → Text
trim_end [] = []
trim_end (c ∷ s) = before_end c (trim_end s)

abbrev pub trim : Text → Text
trim s = trim_end (trim_start s)

-- A character before the first piece of a text that is cut into pieces.
abbrev pub onto_first : ℕ → List Text → List Text
onto_first c [] = (c ∷ []) ∷ []
onto_first c (piece ∷ pieces) = (c ∷ piece) ∷ pieces

abbrev pub starts_with : ℕ → Text → Bool
starts_with c [] = false
starts_with c (d ∷ s) = d == c

-- str::lines: a line ends at a line feed, or at a carriage return and a line feed.
unfoldable pub lines : Text → List Text
lines [] = []
lines (c ∷ s) =
    let rest = lines s in
    if c == 10 then [] ∷ rest else if c == 13 && starts_with 10 s then rest else onto_first c rest

-- str::split at a character: one piece more than there are separators.
unfoldable pub split : ℕ → Text → List Text
split at [] = [] ∷ []
split at (c ∷ s) = let rest = split at s in if c == at then [] ∷ rest else onto_first c rest

abbrev pub is_empty : Text → Bool
is_empty [] = true
is_empty (c ∷ s) = false

-- A piece that is empty is no piece.
abbrev pub non_empty : List Text → List Text
non_empty [] = []
non_empty (piece ∷ pieces) =
    let rest = non_empty pieces in if is_empty piece then rest else piece ∷ rest

abbrev pub split_at_whitespace : Text → List Text
split_at_whitespace [] = [] ∷ []
split_at_whitespace (c ∷ s) =
    let rest = split_at_whitespace s in if is_whitespace c then [] ∷ rest else onto_first c rest

unfoldable pub split_whitespace : Text → List Text
split_whitespace s = non_empty (split_at_whitespace s)

abbrev pub after_char : ℕ → Option (Text × Text) → Option (Text × Text)
after_char c none = none
after_char c (some (left, right)) = some (c ∷ left, right)

-- str::split_once
unfoldable pub split_once : ℕ → Text → Option (Text × Text)
split_once at [] = none
split_once at (c ∷ s) =
    let rest = split_once at s in if c == at then some ([], s) else after_char c rest

-- Whether the second text starts with the first.
abbrev pub is_prefix : Text → Text → Bool
is_prefix [] s = true
is_prefix (c ∷ p) [] = false
is_prefix (c ∷ p) (d ∷ s) = c == d && is_prefix p s

abbrev pub one_later : Option ℕ → Option ℕ
one_later none = none
one_later (some i) = some (i + 1)

-- str::find
abbrev pub find : Text → Text → Option ℕ
find pattern [] = if is_prefix pattern [] then some 0 else none
find pattern (c ∷ s) =
    let rest = find pattern s in if is_prefix pattern (c ∷ s) then some 0 else one_later rest

abbrev lower : ℕ → ℕ
lower c = if leb 65 c && leb c 90 then c + 32 else c

unfoldable pub to_ascii_lowercase : Text → Text
to_ascii_lowercase [] = []
to_ascii_lowercase (c ∷ s) = lower c ∷ to_ascii_lowercase s

unfoldable pub eq_ignore_ascii_case : Text → Text → Bool
unfolding to_ascii_lowercase
eq_ignore_ascii_case s t = text_same (to_ascii_lowercase s) (to_ascii_lowercase t)

module _ {ℓ} {Config : Type ℓ} (apply_kv : Text → Text → Config → Config) where
  abbrev pub apply_pair : Option (Text × Text) → Config → Config
  apply_pair none config = config
  apply_pair (some (key, value)) config = apply_kv (trim key) (trim value) config

  -- A line that is trimmed: empty or a comment, or a key and a value.
  unfoldable pub apply_line : Text → Config → Config
  apply_line line config =
      if is_empty line || starts_with 35 line
      then config
      else apply_pair (split_once 61 line) config

  -- `for line in text.lines()`
  unfoldable pub apply_lines : List Text → Config → Config
  unfolding apply_line
  apply_lines [] config = config
  apply_lines (line ∷ rest) config = apply_lines rest (apply_line (trim line) config)
