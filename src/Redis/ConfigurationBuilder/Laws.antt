-- ===== src/Redis/ConfigurationBuilder/Laws.antt =====
-- What a redis.properties file does to the configuration.
use rbatis_cache.Common.{◌≡◌, ◌≢◌, refl, ap, ◌++◌, Text, ascii, from_secs, All, arith, drop-length}
use rbatis_cache.Properties.{lines}
use mathlib.Core.List.{append-nil}
use rbatis_cache.Properties.Laws.{find-none, apply_lines-keeps}
use rbatis_cache.Redis.Config.{RedisConfig, standalone}
use rbatis_cache.Redis.ConfigurationBuilder.{
  apply_kv, apply_setting, setting_of, parse, replace_port, set_database, set_connection_timeout,
  Setting, host, port, password, database, timeout, client_name, ssl, serializer, unknown,
}

-- A port that is set after a host without a slash sends the connection to the local host.
apply_kv-port :
    (name value : Text) (config : RedisConfig)
    → All (λ c. c ≢ 47) name
    → (apply_kv (ascii "redis.port") value (apply_kv (ascii "redis.host") name config)).url
      ≡ ascii "redis://127.0.0.1:" ++ value
unfolding apply_kv setting_of apply_setting replace_port
apply_kv-port name value config h =
    rw (find-none 47 name h, drop-length (ascii "redis://" ++ name))
      (ap (λ t. ascii "redis://127.0.0.1:" ++ t) (append-nil value))

setting-operation_timeout :
    (setting : Setting) (value : Text) (config : RedisConfig)
    → (apply_setting setting value config).operation_timeout ≡ config.operation_timeout
unfolding apply_setting set_database set_connection_timeout
setting-operation_timeout host value config = refl
setting-operation_timeout port value config = refl
setting-operation_timeout password value config = refl
setting-operation_timeout database value config = ground arith
setting-operation_timeout timeout value config = ground arith
setting-operation_timeout client_name value config = refl
setting-operation_timeout ssl value config = refl
setting-operation_timeout serializer value config = refl
setting-operation_timeout unknown value config = refl

-- No file sets the timeout of operations: it is two seconds.
parse-operation_timeout : (content : Text) → (parse content).operation_timeout ≡ from_secs 2
unfolding parse apply_kv
parse-operation_timeout content =
    apply_lines-keeps apply_kv (λ config. config.operation_timeout)
      (λ key value config. setting-operation_timeout (setting_of key) value config) (lines content)
      standalone
