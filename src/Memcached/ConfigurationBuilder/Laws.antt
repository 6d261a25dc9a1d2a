-- ===== src/Memcached/ConfigurationBuilder/Laws.antt =====
-- A properties file that is written for a configuration is read back.
use rbatis_cache.Common.{
  ℕ, ◌≤◌, ◌≡◌, refl, ◌∙◌, [], ◌∷◌, ◌++◌, Text, ascii, from_secs, u64_max, decimal, decimal-All,
  parse_uint-decimal, IsDigit, All, All-map, arith,
}
use rbatis_cache.Properties.{lines, apply_lines}
use rbatis_cache.Properties.Laws.{IsSolid, is_key-IsSolid, apply_lines-entry}
use rbatis_cache.Memcached.Configuration.{default_configuration}
use rbatis_cache.Memcached.Addresses.{show_address}
use rbatis_cache.Memcached.Addresses.Laws.{
  IsAddress, show_address-IsSolid, parse_address_list-show_address,
}
use rbatis_cache.Memcached.ConfigurationBuilder.{
  parse, apply_kv, setting_of, apply_setting, set_expiration,
}

abbrev pub properties : Text × ℕ → Text → ℕ → Text
properties server prefix secs =
    ascii "memcached.servers"
    ++ 61 ∷ show_address server
    ++ 10
      ∷ (ascii "memcached.keyprefix"
          ++ 61 ∷ prefix
          ++ 10 ∷ (ascii "memcached.expiration" ++ 61 ∷ decimal secs ++ 10 ∷ []))

digit-IsSolid : (c : ℕ) → IsDigit c → IsSolid c
digit-IsSolid c h = ground arith

-- A file that sets a server, a key prefix and an expiration in seconds sets these and nothing else,
-- if neither the prefix nor the host holds white space, nor the host a comma or a colon, and the
-- seconds are a u64.
pub parse-properties :
    (server : Text × ℕ) (prefix : Text) (secs : ℕ)
    → IsAddress server
    → All IsSolid prefix
    → secs ≤ u64_max
    → parse (properties server prefix secs) ≡ record default_configuration {
      servers = server ∷ [];
      key_prefix = prefix;
      expiration = from_secs secs;
    }
unfolding parse apply_kv setting_of apply_setting set_expiration lines apply_lines
parse-properties server prefix secs hs hp hn =
    let (key1, equals1) = is_key-IsSolid (ascii "memcached.servers") refl in
    let (key2, equals2) = is_key-IsSolid (ascii "memcached.keyprefix") refl in
    let (key3, equals3) = is_key-IsSolid (ascii "memcached.expiration") refl in
    let digits = All-map digit-IsSolid (decimal secs) (decimal-All secs) in
    apply_lines-entry apply_kv (ascii "memcached.servers") (show_address server) _
      default_configuration key1 equals1 refl (show_address-IsSolid server hs)
    ∙ apply_lines-entry apply_kv (ascii "memcached.keyprefix") prefix _ _ key2 equals2 refl hp
    ∙ apply_lines-entry apply_kv (ascii "memcached.expiration") (decimal secs) [] _ key3 equals3
        refl digits
    ∙ rw (parse_address_list-show_address server hs, parse_uint-decimal u64_max secs hn) refl
