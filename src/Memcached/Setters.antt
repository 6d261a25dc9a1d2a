-- ===== src/Memcached/Setters.antt =====
-- The property setters of rbatis-cache-memcached: abstract_property_setter.rs, and the builders of
-- boolean_, integer_, string_, time_unit_, connection_factory_ and
-- inet_socket_address_list_property_setter.rs. A builder's closure is a function that is given.
pub mod Laws
use rbatis_cache.Common.{
  ℕ, zero, suc, ◌+◌, ◌==◌, Bool, true, false, Option, none, some, List, [], ◌∷◌, ◌++◌, Text, ascii,
  Duration, as_secs, from_secs, u64_max, decimal, parse_uint, text_same, if◌then◌else◌, Result, ok,
  err,
}
use rbatis_cache.Properties.{trim, to_ascii_lowercase}
use rbatis_cache.Memcached.Addresses.{show_addresses, read_addresses}
use rbatis_cache.Memcached.Configuration.{
  ConnectionFactoryKind, binary, text, sasl, MemcachedConfiguration,
}
use rbatis_cache.Memcached.ConfigurationBuilder.{kind_named}

-- ToString and FromStr; a setter drops what an error says.
pub record TextForm (T : Type 0) : Type 0 where
  pub to_string : T → Text
  pub from_str : Text → Option T

pub record TypedPropertySetter (T : Type 0) : Type 0 where
  pub property_key : Text
  pub property_name : Text
  pub default_value : Text
  pub setter : T → MemcachedConfiguration → MemcachedConfiguration

module _ {T : Type 0} ⦃form : TextForm T⦄ where
  unfoldable pub new :
      Text
      → Text
      → T
      → (T → MemcachedConfiguration → MemcachedConfiguration)
      → TypedPropertySetter T
  new property_key property_name default_value setter = record {
    property_key = property_key;
    property_name = property_name;
    default_value = form.to_string default_value;
    setter = setter;
  }

  -- A value that does not parse changes nothing.
  unfoldable pub apply :
      TypedPropertySetter T → Text → MemcachedConfiguration → MemcachedConfiguration
  apply s value config = elim (form.from_str value) [
    | none ↦ config
    | some parsed ↦ s.setter parsed config
  ]

abbrev read_bool : Text → Option Bool
read_bool value =
    if text_same value (ascii "true")
    then some true
    else if text_same value (ascii "false")
    then some false
    else none

abbrev show_bool : Bool → Text
show_bool true = ascii "true"
show_bool false = ascii "false"

instance abbrev pub bool_form : TextForm Bool
bool_form = record { to_string = show_bool; from_str = read_bool }

instance abbrev pub string_form : TextForm Text
string_form = record { to_string = λ s. s; from_str = some }

-- u64
instance abbrev pub word_form : TextForm ℕ
word_form = record { to_string = decimal; from_str = parse_uint u64_max }

abbrev pub u31_max : ℕ
u31_max = 2147483647

-- i32
pub data ℤ : Type 0 where
  pos negsuc : ℕ → ℤ

abbrev pub negative : Option ℕ → Option ℤ
negative none = none
negative (some zero) = some (pos 0)
negative (some (suc n)) = some (negsuc n)

abbrev pub positive : Option ℕ → Option ℤ
positive none = none
positive (some n) = some (pos n)

abbrev pub without_sign : Text → Option ℕ
without_sign [] = none
without_sign (c ∷ s) = if c == 43 then none else parse_uint (u31_max + 1) (c ∷ s)

abbrev pub read_integer : Text → Option ℤ
read_integer [] = none
read_integer (c ∷ s) =
    if c == 45 then negative (without_sign s) else positive (parse_uint u31_max (c ∷ s))

abbrev pub show_integer : ℤ → Text
show_integer (pos n) = decimal n
show_integer (negsuc n) = 45 ∷ decimal (suc n)

instance abbrev pub integer_form : TextForm ℤ
integer_form = record { to_string = show_integer; from_str = read_integer }

abbrev pub show_kind : ConnectionFactoryKind → Text
show_kind binary = ascii "binary"
show_kind text = ascii "text"
show_kind sasl = ascii "sasl"

abbrev known : Text → Option ConnectionFactoryKind → Result Text ConnectionFactoryKind
known input none = err (ascii "unknown connection factory: " ++ input)
known input (some kind) = ok kind

-- FromStr for ConnectionFactoryName
unfoldable pub read_kind : Text → Result Text ConnectionFactoryKind
unfolding kind_named
read_kind input = known input (kind_named (to_ascii_lowercase (trim input)))

instance abbrev pub kind_form : TextForm ConnectionFactoryKind
kind_form = record {
  to_string = show_kind;
  from_str = λ input. elim (read_kind input) [ ok kind ↦ some kind | err e ↦ none ];
}

instance abbrev pub addresses_form : TextForm (List (Text × ℕ))
addresses_form = record {
  to_string = show_addresses;
  from_str = λ input. some (read_addresses input);
}

abbrev pub Setter : Type 0 → Type 0
Setter T = T → MemcachedConfiguration → MemcachedConfiguration

unfoldable pub build_boolean_setter : Text → Text → Bool → Setter Bool → TypedPropertySetter Bool
build_boolean_setter key name default setter = new key name default setter

unfoldable pub build_integer_setter : Text → Text → ℤ → Setter ℤ → TypedPropertySetter ℤ
build_integer_setter key name default setter = new key name default setter

unfoldable pub build_string_setter : Text → Text → Text → Setter Text → TypedPropertySetter Text
build_string_setter key name default setter = new key name default setter

-- A duration is set in whole seconds.
unfoldable pub build_time_unit_setter :
    Text → Text → Duration → Setter Duration → TypedPropertySetter ℕ
build_time_unit_setter key name default setter =
    new key name (as_secs default) (λ secs config. setter (from_secs secs) config)

unfoldable pub build_connection_factory_setter :
    Text
    → Text
    → ConnectionFactoryKind
    → Setter ConnectionFactoryKind
    → TypedPropertySetter ConnectionFactoryKind
build_connection_factory_setter key name default setter = new key name default setter

unfoldable pub build_address_list_setter :
    Text → Text → List (Text × ℕ) → Setter (List (Text × ℕ)) → TypedPropertySetter (List (Text × ℕ))
build_address_list_setter key name default setter = new key name default setter
