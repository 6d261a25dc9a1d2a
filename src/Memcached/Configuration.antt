-- ===== src/Memcached/Configuration.antt =====
-- rbatis-cache-memcached/src/configuration.rs: the configuration of the memcached backend.
use rbatis_cache.Common.{
  ℕ, ◌*◌, Bool, false, Option, none, List, [], ◌∷◌, Text, ascii, Duration, from_secs,
}

pub data ConnectionFactoryKind : Type 0 where
  binary text sasl : ConnectionFactoryKind

pub record MemcachedConfiguration : Type 0 where
  pub servers : List (Text × ℕ)
  pub connection_factory : ConnectionFactoryKind
  pub key_prefix : Text
  pub expiration : Duration
  pub operation_timeout : Duration
  pub async_get : Bool
  pub compression : Bool
  pub sasl : Bool
  pub username : Option Text
  pub password : Option Text

abbrev pub default_configuration : MemcachedConfiguration
default_configuration = record {
  servers = (ascii "127.0.0.1", 11211) ∷ [];
  connection_factory = ConnectionFactoryKind.binary;
  key_prefix = ascii "rbatis:cache";
  expiration = from_secs (60 * 60 * 24);
  operation_timeout = from_secs 1;
  async_get = false;
  compression = false;
  sasl = false;
  username = none;
  password = none;
}
