-- ===== src/Memcached/Setters/Laws.antt =====
-- The default of a setter is a text that the setter reads back.
use rbatis_cache.Common.{
  ℕ, suc, ◌≤◌, ◌+◌, ◌≡◌, refl, Bool, true, false, some, List, ◌∷◌, Text, Duration, as_secs,
  from_secs, u64_max, decimal-start, parse_uint, parse_uint-decimal, All, arith, ap, sym, subst,
}
use rbatis_cache.Properties.{trim_start, trim_end, to_ascii_lowercase}
use rbatis_cache.Memcached.Addresses.Laws.{IsAddress, read_addresses-show_addresses}
use rbatis_cache.Memcached.Configuration.{
  ConnectionFactoryKind, binary, text, sasl, MemcachedConfiguration,
}
use rbatis_cache.Memcached.ConfigurationBuilder.{kind_named}
use rbatis_cache.Memcached.Setters.{
  TextForm, Setter, new, apply, ℤ, pos, negsuc, u31_max, show_integer, read_integer, read_kind,
  kind_form, bool_form, string_form, word_form, integer_form, addresses_form, build_boolean_setter,
  build_integer_setter, build_string_setter, build_time_unit_setter,
  build_connection_factory_setter, build_address_list_setter,
}

apply-new :
    {T : Type 0} ⦃form : TextForm T⦄ (key name : Text) (v : T) (setter : Setter T)
    (config : MemcachedConfiguration)
    → form.from_str (form.to_string v) ≡ some v
    → apply (new key name v setter) (new key name v setter).default_value config ≡ setter v config
unfolding new apply
apply-new key name v setter config h = rw (apply, h) refl

-- The range of an i32.
abbrev pub IsInt : ℤ → Type 0
IsInt (pos n) = n ≤ u31_max
IsInt (negsuc n) = n ≤ u31_max

read_positive :
    (d n : ℕ) (s : Text)
    → 48 ≤ d
    → parse_uint u31_max (d ∷ s) ≡ some n
    → read_integer (d ∷ s) ≡ some (pos n)
read_positive d n s le h = ground arith

read_negative :
    (d n : ℕ) (s : Text)
    → 48 ≤ d
    → parse_uint (u31_max + 1) (d ∷ s) ≡ some (suc n)
    → read_integer (45 ∷ d ∷ s) ≡ some (negsuc n)
read_negative d n s le h = ground arith

read_integer-show_integer : (z : ℤ) → IsInt z → read_integer (show_integer z) ≡ some z
read_integer-show_integer (pos n) h =
    let (d, s, same, le) = decimal-start n in
    subst (λ t. read_integer t ≡ some (pos n)) (sym same)
      (read_positive d n s le
        (subst (λ t. parse_uint u31_max t ≡ some n) same (parse_uint-decimal u31_max n h)))
read_integer-show_integer (negsuc n) h =
    let (d, s, same, le) = decimal-start (suc n) in
    subst (λ t. read_integer (45 ∷ t) ≡ some (negsuc n)) (sym same)
      (read_negative d n s le (
        subst (λ t. parse_uint (u31_max + 1) t ≡ some (suc n)) same
          (parse_uint-decimal (u31_max + 1) (suc n) (omega arith))))

kind-read :
    (kind : ConnectionFactoryKind) → kind_form.from_str (kind_form.to_string kind) ≡ some kind
unfolding read_kind kind_named trim_start trim_end to_ascii_lowercase
kind-read binary = refl
kind-read text = refl
kind-read sasl = refl

bool-read : (b : Bool) → bool_form.from_str (bool_form.to_string b) ≡ some b
bool-read true = refl
bool-read false = refl

-- A setter that is given the text of its own default sets the default: an i32 for the setter of
-- integers, a duration whose seconds are a u64, less its fraction of a second, for that of
-- durations, and addresses whose hosts hold no white space, comma or colon for that of addresses.
pub apply-default_value :
    (key name : Text) (config : MemcachedConfiguration) (b : Bool) (set_b : Setter Bool) (z : ℤ)
    (set_z : Setter ℤ) (t : Text) (set_t : Setter Text) (d : Duration) (set_d : Setter Duration)
    (kind : ConnectionFactoryKind) (set_kind : Setter ConnectionFactoryKind)
    (list : List (Text × ℕ)) (set_list : Setter (List (Text × ℕ)))
    → IsInt z
    → as_secs d ≤ u64_max
    → All IsAddress list
    → (apply
          (build_boolean_setter key name b set_b)
          (build_boolean_setter key name b set_b).default_value
          config
        ≡ set_b b config)
      × (apply
            (build_integer_setter key name z set_z)
            (build_integer_setter key name z set_z).default_value
            config
          ≡ set_z z config)
      × (apply
            (build_string_setter key name t set_t)
            (build_string_setter key name t set_t).default_value
            config
          ≡ set_t t config)
      × (apply
            (build_time_unit_setter key name d set_d)
            (build_time_unit_setter key name d set_d).default_value
            config
          ≡ set_d (from_secs (as_secs d)) config)
      × (apply
            (build_connection_factory_setter key name kind set_kind)
            (build_connection_factory_setter key name kind set_kind).default_value
            config
          ≡ set_kind kind config)
      × (apply
            (build_address_list_setter key name list set_list)
            (build_address_list_setter key name list set_list).default_value
            config
          ≡ set_list list config)
unfolding build_boolean_setter build_integer_setter build_string_setter build_time_unit_setter
    build_connection_factory_setter build_address_list_setter
apply-default_value key name config b set_b z set_z t set_t d set_d kind set_kind list set_list hz
      hd hl =
    (
      apply-new key name b set_b config (bool-read b),
      apply-new key name z set_z config (read_integer-show_integer z hz),
      apply-new key name t set_t config refl,
      apply-new key name (as_secs d) (λ secs config. set_d (from_secs secs) config) config
          (parse_uint-decimal u64_max (as_secs d) hd),
      apply-new key name kind set_kind config (kind-read kind),
      apply-new key name list set_list config (ap some (read_addresses-show_addresses list hl)),
    )
