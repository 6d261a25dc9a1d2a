-- ===== src/Memcached/Addresses/Laws.antt =====
-- Lists of servers as text, and what each of the two readers makes of them.
use rbatis_cache.Common.{
  ℕ, ◌≤◌, ◌≡◌, ◌≢◌, refl, ap, none, some, List, [], ◌∷◌, ◌++◌, Text, decimal, decimal-All, IsDigit,
  scan, ◌+◌, ◌-◌, ◌*◌, parse_uint, parse_uint-decimal, All, All-map, All-append, arith,
}
use mathlib.Core.List.{append_assoc}
use rbatis_cache.Properties.{
  trim, trim_start, trim_end, split, split_once, split_whitespace, split_at_whitespace, non_empty,
}
use rbatis_cache.Properties.Laws.{IsSolid, trim-solid, split_once-first, split-first, split-whole}
use rbatis_cache.Memcached.Addresses.{
  u16_max, address, addresses, show_address, show_addresses, read_addresses, parse_address_list,
}

-- Neither white space nor a comma.
abbrev IsPlain : ℕ → Type 0
IsPlain c = IsSolid c × (c ≢ 44)

-- A host without white space, commas or colons, and a port of sixteen bits.
abbrev pub IsAddress : Text × ℕ → Type 0
IsAddress (host, port) = All (λ c. IsPlain c × (c ≢ 58)) host × (port ≤ u16_max)

digit-IsPlain : (c : ℕ) → IsDigit c → IsPlain c
digit-IsPlain c h = (ground arith, λ same. omega arith)

show_address-IsPlain : (a : Text × ℕ) → IsAddress a → All IsPlain (show_address a)
unfolding show_address
show_address-IsPlain (host, port) h =
    All-append IsPlain host (58 ∷ decimal port) (All-map (λ c both. both.0) host h.0)
      ((refl, λ same. omega arith), All-map digit-IsPlain (decimal port) (decimal-All port))

pub show_address-IsSolid : (a : Text × ℕ) → IsAddress a → All IsSolid (show_address a)
show_address-IsSolid a h = All-map (λ c both. both.0) (show_address a) (show_address-IsPlain a h)

address-show_address : (a : Text × ℕ) → IsAddress a → address (show_address a) ≡ some a
unfolding address show_address
address-show_address (host, port) h =
    rw
      (
        split_once-first 58 host (decimal port) (All-map (λ c both. both.1) host h.0),
        parse_uint-decimal u16_max port h.1,
      )
      refl

one_address : (a : Text × ℕ) → IsAddress a → address (trim (show_address a)) ≡ some a
one_address a h =
    rw (trim-solid (show_address a) (show_address-IsSolid a h)) (address-show_address a h)

-- A list of addresses is read back from its text, if no host holds white space, a comma or a colon.
pub read_addresses-show_addresses :
    (list : List (Text × ℕ)) → All IsAddress list → read_addresses (show_addresses list) ≡ list
unfolding read_addresses show_addresses split address split_once trim_start trim_end
read_addresses-show_addresses [] h = refl
read_addresses-show_addresses (a ∷ []) h =
    rw
      (
        split-whole 44 (show_address a)
            (All-map (λ c both. both.1) (show_address a) (show_address-IsPlain a h.0)),
        one_address a h.0,
      )
      refl
read_addresses-show_addresses (a ∷ b ∷ list) h =
    rw
      (
        split-first 44 (show_address a) (show_addresses (b ∷ list))
            (All-map (λ c both. both.1) (show_address a) (show_address-IsPlain a h.0)),
        one_address a h.0,
      )
      (ap (λ l. a ∷ l) (read_addresses-show_addresses (b ∷ list) h.1))

scan-comma :
    (largest : ℕ) (left right : Text) (n : ℕ)
    → All IsDigit left
    → scan largest (left ++ 44 ∷ right) n ≡ none
scan-comma largest [] right n h = ground arith
scan-comma largest (c ∷ left) right n h =
    ground (arith, scan-comma largest left right (n * 10 + (c - 48)) h.1)

parse_uint-comma :
    (largest : ℕ) (left right : Text)
    → All IsDigit left
    → parse_uint largest (left ++ 44 ∷ right) ≡ none
unfolding parse_uint
parse_uint-comma largest [] right h = ground arith
parse_uint-comma largest (c ∷ left) right h =
    let digit : IsDigit c = h.0 in ground (arith, scan-comma largest (c ∷ left) right 0 h)

show_addresses-IsSolid :
    (list : List (Text × ℕ)) → All IsAddress list → All IsSolid (show_addresses list)
unfolding show_addresses
show_addresses-IsSolid [] h = tt
show_addresses-IsSolid (a ∷ []) h = show_address-IsSolid a h.0
show_addresses-IsSolid (a ∷ b ∷ list) h =
    All-append IsSolid (show_address a) (44 ∷ show_addresses (b ∷ list))
      (show_address-IsSolid a h.0) (refl, show_addresses-IsSolid (b ∷ list) h.1)

split_at_whitespace-solid : (s : Text) → All IsSolid s → split_at_whitespace s ≡ s ∷ []
split_at_whitespace-solid [] h = refl
split_at_whitespace-solid (c ∷ s) h = rw (split_at_whitespace-solid s h.1, h.0) refl

after_comma :
    (host rest : Text) (port : ℕ)
    → All (λ c. c ≢ 58) host
    → address (show_address (host, port) ++ 44 ∷ rest) ≡ none
unfolding address show_address
after_comma host rest port h =
    rw
      (
        append_assoc host (58 ∷ decimal port) (44 ∷ rest),
        split_once-first 58 host (decimal port ++ 44 ∷ rest) h,
        parse_uint-comma u16_max (decimal port) rest (decimal-All port),
      )
      refl

lone : (token : Text) → address token ≡ none → addresses (non_empty (token ∷ [])) ≡ []
lone [] h = refl
lone (c ∷ token) h = rw h refl

-- The reader of the properties file takes none of the servers of a list of two or more as that
-- list is shown.
parse_address_list-show_addresses :
    (a b : Text × ℕ) (list : List (Text × ℕ))
    → All IsAddress (a ∷ b ∷ list)
    → parse_address_list (show_addresses (a ∷ b ∷ list)) ≡ []
unfolding parse_address_list split_whitespace show_addresses
parse_address_list-show_addresses a b list h =
    rw
      (split_at_whitespace-solid (show_addresses (a ∷ b ∷ list))
        (show_addresses-IsSolid (a ∷ b ∷ list) h))
      (lone (show_addresses (a ∷ b ∷ list))
        (after_comma a.0 (show_addresses (b ∷ list)) a.1 (All-map (λ c both. both.1) a.0 h.0.0)))

lone_address :
    (token : Text) (a : Text × ℕ)
    → address token ≡ some a
    → addresses (non_empty (token ∷ [])) ≡ a ∷ []
unfolding address split_once
lone_address [] a h = absurd cc
lone_address (c ∷ token) a h = rw h refl

-- A lone address is read from a properties file.
pub parse_address_list-show_address :
    (a : Text × ℕ) → IsAddress a → parse_address_list (show_address a) ≡ a ∷ []
unfolding parse_address_list split_whitespace
parse_address_list-show_address a h =
    rw (split_at_whitespace-solid (show_address a) (show_address-IsSolid a h))
      (lone_address (show_address a) a (address-show_address a h))
