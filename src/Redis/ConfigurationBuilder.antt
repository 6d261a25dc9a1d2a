-- ===== src/Redis/ConfigurationBuilder.antt =====
-- rbatis-cache-redis/src/configuration_builder.rs: the configuration from a properties file. The
-- process's environment and its files are parameters.
pub mod Laws
use rbatis_cache.Common.{
  ℕ, ◌+◌, Bool, true, false, Option, none, some, ◌++◌, Text, ascii, from_millis, u64_max,
  parse_uint, text_same, take, drop, length, if◌then◌else◌,
}
use rbatis_cache.Properties.{lines, apply_lines, find, eq_ignore_ascii_case}
use rbatis_cache.Redis.Config.{RedisConfig, standalone}

abbrev u8_max : ℕ
u8_max = 255

abbrev pub scheme_end : Option ℕ → ℕ
scheme_end none = 0
scheme_end (some i) = i + 3

abbrev pub end_of : Text → ℕ → Option ℕ → ℕ
end_of url start none = length url
end_of url start (some o) = start + o

-- What stands between the scheme and the next slash gives way to the local host with the port; a URL
-- without a colon stays.
unfoldable pub replace_port : Text → Text → Text
replace_port port url =
    let start = scheme_end (find (ascii "://") url) in
    let end = end_of url start (find (ascii "/") (drop start url)) in
    elim (find (ascii ":") url) [
      | none ↦ url
      | some at ↦ take start url ++ ascii "127.0.0.1:" ++ port ++ drop end url
    ]

unfoldable pub set_database : Option ℕ → RedisConfig → RedisConfig
set_database none config = config
set_database (some n) config = record config { database = n }

unfoldable pub set_connection_timeout : Option ℕ → RedisConfig → RedisConfig
set_connection_timeout none config = config
set_connection_timeout (some ms) config = record config { connection_timeout = from_millis ms }

-- The settings of the source's match.
pub data Setting : Type 0 where
  host port password database timeout client_name ssl serializer unknown : Setting

unfoldable pub setting_of : Text → Setting
setting_of key =
    if text_same key (ascii "redis.host")
    then host
    else if text_same key (ascii "redis.port")
    then port
    else if text_same key (ascii "redis.password")
    then password
    else if text_same key (ascii "redis.database")
    then database
    else if text_same key (ascii "redis.connectionTimeout")
    then timeout
    else if text_same key (ascii "redis.soTimeout")
    then timeout
    else if text_same key (ascii "redis.clientName")
    then client_name
    else if text_same key (ascii "redis.ssl")
    then ssl
    else if text_same key (ascii "redis.serializer")
    then serializer
    else unknown

-- An arm of the match.
unfoldable pub apply_setting : Setting → Text → RedisConfig → RedisConfig
unfolding replace_port set_database set_connection_timeout
apply_setting host value config = record config { url = ascii "redis://" ++ value }
apply_setting port value config = record config { url = replace_port value config.url }
apply_setting password value config = record config { password = some value }
apply_setting database value config = set_database (parse_uint u8_max value) config
apply_setting timeout value config = set_connection_timeout (parse_uint u64_max value) config
apply_setting client_name value config = record config { client_name = some value }
apply_setting ssl value config = record config { ssl = eq_ignore_ascii_case value (ascii "true") }
apply_setting serializer value config = record config { serializer = value }
apply_setting unknown value config = config

unfoldable pub apply_kv : Text → Text → RedisConfig → RedisConfig
unfolding setting_of apply_setting
apply_kv key value config = apply_setting (setting_of key) value config

unfoldable pub parse : Text → RedisConfig
unfolding apply_kv
parse content = apply_lines apply_kv (lines content) standalone

-- std::env::var and std::fs::read_to_string, less their errors.
module _ (var : Text → Option Text) (read_to_string : Text → Option Text) where
  unfoldable pub from_file : Text → RedisConfig
  unfolding parse
  from_file path = elim (read_to_string path) [ none ↦ standalone | some content ↦ parse content ]

  unfoldable pub from_env : RedisConfig
  unfolding from_file
  from_env = elim (var (ascii "REDIS_PROPERTIES")) [
    | none ↦ standalone
    | some path ↦ from_file path
  ]
