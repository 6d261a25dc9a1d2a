-- ===== src/Tests/Configs.antt =====
-- The theorems on the ring, the configurations and their texts, at concrete inputs.
use rbatis_cache.Common.{
  ℕ, ◌%◌, ◌<◌, ◌≡◌, refl, ◌⊎◌, true, List, [], ◌∷◌, Text, Bytes, Duration, ascii, from_secs,
  from_millis, length, arith,
}
use rbatis_cache.Memcached.Addresses.Laws.{IsAddress}
use rbatis_cache.Memcached.Configuration.{MemcachedConfiguration, default_configuration, sasl}
use rbatis_cache.Memcached.ConfigurationBuilder
use rbatis_cache.Memcached.ConfigurationBuilder.Laws.{properties, parse-properties}
use rbatis_cache.Memcached.ConsistentHash as Ring
use rbatis_cache.Memcached.ConsistentHash.Laws.{
  IsNearest, node_for-IsNearest, node_for-lt, node_for-add,
}
use rbatis_cache.Memcached.Setters
use rbatis_cache.Memcached.Setters.{
  apply, negsuc, bool_form, integer_form, string_form, word_form, kind_form, addresses_form,
}
use rbatis_cache.Memcached.Setters.Laws.{apply-default_value}

-- A hash of one byte.
abbrev short : Bytes → Bytes
short input = length input % 256 ∷ []

node_for-IsNearest_example :
    IsNearest
      (Ring.hash short (ascii "key"))
      (Ring.node_for short (Ring.new short 3 2) (ascii "key"))
      (Ring.new short 3 2).points
node_for-IsNearest_example =
    node_for-IsNearest short 3 2 (ascii "key") (λ input. (omega arith, tt)) (omega arith)
      (omega arith)

node_for-lt_example : Ring.node_for short (Ring.new short 3 2) (ascii "key") < 3
node_for-lt_example = node_for-lt short 3 2 (ascii "key") (omega arith)

node_for-add_example :
    (Ring.node_for short (Ring.new short 4 2) (ascii "key") ≡ 3)
    ⊎ (Ring.node_for short (Ring.new short 4 2) (ascii "key")
        ≡ Ring.node_for short (Ring.new short 3 2) (ascii "key"))
node_for-add_example = node_for-add short 3 2 (ascii "key")

abbrev first : Text × ℕ
first = (ascii "a", 11211)

abbrev second : Text × ℕ
second = (ascii "b", 11212)

first-IsAddress : IsAddress first
first-IsAddress = ((((refl, λ p. cc), λ p. cc), tt), omega arith)

second-IsAddress : IsAddress second
second-IsAddress = ((((refl, λ p. cc), λ p. cc), tt), omega arith)

parse-properties_example :
    ConfigurationBuilder.parse (properties first (ascii "p") 60) ≡ record default_configuration {
      servers = first ∷ [];
      key_prefix = ascii "p";
      expiration = from_secs 60;
    }
parse-properties_example =
    parse-properties first (ascii "p") 60 first-IsAddress (refl, tt) (omega arith)

abbrev keep : {T : Type 0} → T → MemcachedConfiguration → MemcachedConfiguration
keep v config = config

abbrev set_servers : List (Text × ℕ) → MemcachedConfiguration → MemcachedConfiguration
set_servers list config = record config { servers = list }

abbrev set_timeout : Duration → MemcachedConfiguration → MemcachedConfiguration
set_timeout d config = record config { operation_timeout = d }

apply-default_value_example :
    (apply
        (Setters.build_boolean_setter [] [] true keep)
        (Setters.build_boolean_setter [] [] true keep).default_value
        default_configuration
      ≡ default_configuration)
    × (apply
          (Setters.build_integer_setter [] [] (negsuc 4) keep)
          (Setters.build_integer_setter [] [] (negsuc 4) keep).default_value
          default_configuration
        ≡ default_configuration)
    × (apply
          (Setters.build_string_setter [] [] (ascii "x") keep)
          (Setters.build_string_setter [] [] (ascii "x") keep).default_value
          default_configuration
        ≡ default_configuration)
    × (apply
          (Setters.build_time_unit_setter [] [] (from_millis 1500) set_timeout)
          (Setters.build_time_unit_setter [] [] (from_millis 1500) set_timeout).default_value
          default_configuration
        ≡ set_timeout (from_secs 1) default_configuration)
    × (apply
          (Setters.build_connection_factory_setter [] [] sasl keep)
          (Setters.build_connection_factory_setter [] [] sasl keep).default_value
          default_configuration
        ≡ default_configuration)
    × (apply
          (Setters.build_address_list_setter [] [] (first ∷ second ∷ []) set_servers)
          (Setters.build_address_list_setter [] [] (first ∷ second ∷ []) set_servers).default_value
          default_configuration
        ≡ set_servers (first ∷ second ∷ []) default_configuration)
apply-default_value_example =
    apply-default_value [] [] default_configuration true keep (negsuc 4) keep (ascii "x") keep
      (from_millis 1500) set_timeout sasl keep (first ∷ second ∷ []) set_servers (omega arith)
      (omega arith) (first-IsAddress, (second-IsAddress, tt))
