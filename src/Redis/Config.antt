-- ===== src/Redis/Config.antt =====
-- RedisConfig of rbatis-cache-redis/src/redis_config.rs.
use rbatis_cache.Common.{ℕ, Bool, false, Option, none, some, Text, ascii, Duration, from_secs}

pub record RedisConfig : Type 0 where
  pub url : Text
  pub password : Option Text
  pub database : ℕ
  pub client_name : Option Text
  pub connection_timeout : Duration
  pub operation_timeout : Duration
  pub ssl : Bool
  pub serializer : Text

abbrev pub standalone : RedisConfig
standalone = record {
  url = ascii "redis://127.0.0.1:6379/0";
  password = none;
  database = 0;
  client_name = none;
  connection_timeout = from_secs 2;
  operation_timeout = from_secs 2;
  ssl = false;
  serializer = ascii "jdk";
}

unfoldable pub with_url : Text → RedisConfig → RedisConfig
with_url url c = record c { url = url }

unfoldable pub with_password : Text → RedisConfig → RedisConfig
with_password password c = record c { password = some password }

unfoldable pub with_database : ℕ → RedisConfig → RedisConfig
with_database database c = record c { database = database }
