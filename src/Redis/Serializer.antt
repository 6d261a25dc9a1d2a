-- ===== src/Redis/Serializer.antt =====
-- rbatis-cache-redis/src/serializer.rs: the serializers by name, over rmp_serde, which is a
-- parameter.
use rbatis_cache.Common.{◌≡◌, Text, Bytes, ascii, Result, ok, text_same, if◌then◌else◌}
use rbatis_cache.Properties.{to_ascii_lowercase}

-- to_vec_named, to_vec and from_slice on the values of a type; errors are the texts that `to_string`
-- makes of them.
pub record RmpSerde (T : Type 0) : Type 0 where
  pub to_vec_named : T → Result Text Bytes
  pub to_vec : T → Result Text Bytes
  pub from_slice : Bytes → Result Text T

pub data SerializerImpl : Type 0 where
  jdk kryo : SerializerImpl

unfoldable pub serializer_by_name : Text → SerializerImpl
serializer_by_name name = if text_same (to_ascii_lowercase name) (ascii "kryo") then kryo else jdk

module _ {T : Type 0} (rmp : RmpSerde T) where
  unfoldable pub jdk_serialize : T → Result Text Bytes
  jdk_serialize value = rmp.to_vec_named value

  unfoldable pub jdk_deserialize : Bytes → Result Text T
  jdk_deserialize bytes = rmp.from_slice bytes

  unfoldable pub kryo_serialize : T → Result Text Bytes
  kryo_serialize value = rmp.to_vec value

  unfoldable pub kryo_deserialize : Bytes → Result Text T
  kryo_deserialize bytes = rmp.from_slice bytes

  unfoldable pub serialize : SerializerImpl → T → Result Text Bytes
  unfolding jdk_serialize kryo_serialize
  serialize jdk value = jdk_serialize value
  serialize kryo value = kryo_serialize value

  unfoldable pub deserialize : SerializerImpl → Bytes → Result Text T
  unfolding jdk_deserialize kryo_deserialize
  deserialize jdk bytes = jdk_deserialize bytes
  deserialize kryo bytes = kryo_deserialize bytes

  -- Where from_slice reads both forms, any serializer reads what any serializer wrote.
  pub deserialize-serialize :
      (reader writer : SerializerImpl) (value : T) (bytes : Bytes)
      → ((v : T) (b : Bytes) → rmp.to_vec_named v ≡ ok b → rmp.from_slice b ≡ ok v)
      → ((v : T) (b : Bytes) → rmp.to_vec v ≡ ok b → rmp.from_slice b ≡ ok v)
      → serialize writer value ≡ ok bytes
      → deserialize reader bytes ≡ ok value
  unfolding serialize deserialize
  deserialize-serialize jdk jdk value bytes named compact h = named value bytes h
  deserialize-serialize jdk kryo value bytes named compact h = compact value bytes h
  deserialize-serialize kryo jdk value bytes named compact h = named value bytes h
  deserialize-serialize kryo kryo value bytes named compact h = compact value bytes h
