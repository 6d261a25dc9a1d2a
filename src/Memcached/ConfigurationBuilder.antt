-- ===== src/Memcached/ConfigurationBuilder.antt =====
-- rbatis-cache-memcached/src/configuration_builder.rs: the configuration from a properties file. The
-- process's environment and its files are parameters.
pub mod Laws
use rbatis_cache.Common.{
  ℕ, Bool, true, false, ◌||◌, Option, none, some, Text, ascii, Duration, from_secs, u64_max,
  parse_uint, text_same, if◌then◌else◌,
}
use rbatis_cache.Properties.{lines, apply_lines, to_ascii_lowercase, eq_ignore_ascii_case}
use rbatis_cache.Memcached.Addresses.{parse_address_list}
use rbatis_cache.Memcached.Configuration.{
  ConnectionFactoryKind, binary, text, sasl, MemcachedConfiguration, default_configuration,
}

unfoldable pub kind_named : Text → Option ConnectionFactoryKind
kind_named name =
    if text_same name (ascii "binary")
    then some binary
    else if text_same name (ascii "text")
    then some text
    else if text_same name (ascii "sasl")
    then some sasl
    else none

unfoldable pub set_kind :
    Option ConnectionFactoryKind → MemcachedConfiguration → MemcachedConfiguration
set_kind none config = config
set_kind (some kind) config = record config { connection_factory = kind }

unfoldable pub set_expiration : Option ℕ → MemcachedConfiguration → MemcachedConfiguration
set_expiration none config = config
set_expiration (some secs) config = record config { expiration = from_secs secs }

unfoldable pub set_timeout : Option ℕ → MemcachedConfiguration → MemcachedConfiguration
set_timeout none config = config
set_timeout (some secs) config = record config { operation_timeout = from_secs secs }

abbrev is_true : Text → Bool
is_true value = eq_ignore_ascii_case value (ascii "true")

-- The settings of the source's match.
pub data Setting : Type 0 where
  servers connection_factory key_prefix expiration timeout async_get compression : Setting
  use_sasl username password : Setting
  unknown : Setting

-- Both names of a setting.
abbrev is_name : Text → Text → Text → Bool
is_name long short key = text_same key long || text_same key short

unfoldable pub setting_of : Text → Setting
setting_of key =
    if is_name (ascii "org.mybatis.caches.memcached.servers") (ascii "memcached.servers") key
    then servers
    else if is_name (ascii "org.mybatis.caches.memcached.connectionfactory")
        (ascii "memcached.connectionfactory") key
    then connection_factory
    else if is_name (ascii "org.mybatis.caches.memcached.keyprefix") (ascii "memcached.keyprefix")
        key
    then key_prefix
    else if is_name (ascii "org.mybatis.caches.memcached.expiration") (ascii "memcached.expiration")
        key
    then expiration
    else if is_name (ascii "org.mybatis.caches.memcached.timeout") (ascii "memcached.timeout") key
    then timeout
    else if is_name (ascii "org.mybatis.caches.memcached.asyncget") (ascii "memcached.asyncget") key
    then async_get
    else if is_name (ascii "org.mybatis.caches.memcached.compression")
        (ascii "memcached.compression") key
    then compression
    else if is_name (ascii "org.mybatis.caches.memcached.sasl") (ascii "memcached.sasl") key
    then use_sasl
    else if is_name (ascii "org.mybatis.caches.memcached.username") (ascii "memcached.username") key
    then username
    else if is_name (ascii "org.mybatis.caches.memcached.password") (ascii "memcached.password") key
    then password
    else unknown

-- An arm of the match.
unfoldable pub apply_setting : Setting → Text → MemcachedConfiguration → MemcachedConfiguration
unfolding kind_named set_kind set_expiration set_timeout
apply_setting servers value config = record config { servers = parse_address_list value }
apply_setting connection_factory value config =
    set_kind (kind_named (to_ascii_lowercase value)) config
apply_setting key_prefix value config = record config { key_prefix = value }
apply_setting expiration value config = set_expiration (parse_uint u64_max value) config
apply_setting timeout value config = set_timeout (parse_uint u64_max value) config
apply_setting async_get value config = record config { async_get = is_true value }
apply_setting compression value config = record config { compression = is_true value }
apply_setting use_sasl value config = record config { sasl = is_true value }
apply_setting username value config = record config { username = some value }
apply_setting password value config = record config { password = some value }
apply_setting unknown value config = config

unfoldable pub apply_kv : Text → Text → MemcachedConfiguration → MemcachedConfiguration
unfolding setting_of apply_setting
apply_kv key value config = apply_setting (setting_of key) value config

unfoldable pub parse : Text → MemcachedConfiguration
unfolding apply_kv
parse content = apply_lines apply_kv (lines content) default_configuration

-- std::env::var and std::fs::read_to_string, less their errors.
module _ (var : Text → Option Text) (read_to_string : Text → Option Text) where
  unfoldable pub from_file : Text → MemcachedConfiguration
  unfolding parse
  from_file path = elim (read_to_string path) [
    | none ↦ default_configuration
    | some content ↦ parse content
  ]

  unfoldable pub from_env : MemcachedConfiguration
  unfolding from_file
  from_env = elim (var (ascii "MEMCACHED_PROPERTIES")) [
    | none ↦ default_configuration
    | some path ↦ from_file path
  ]
