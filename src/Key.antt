-- ===== src/Key.antt =====
-- src/key.rs: the key of a cached result.
pub mod Preimage
pub mod Laws
use mathlib.Core.List.{foldl}
use mathlib.Core.Option
use rbatis_cache.Common.{
  ℕ, Option, List, [], ◌∷◌, ◌++◌, Text, Bytes, ascii, ok, err, to_le_bytes, to_u64_saturating,
  length,
}
use rbatis_cache.Error.{CacheResult}
use rbatis_cache.External.{External}
use rbatis_cache.Sql
use rbatis_cache.Sql.{SqlMetadata}
use Preimage.{update_component}

pub record CacheKeyInput : Type 0 where
  pub version : Text
  pub data_source : Text
  pub driver : Text
  pub tenant : Option Text
  pub namespace : Text
  pub statement_id : Text
  pub sql : Text
  pub parameters : Bytes

pub record CacheKey : Type 0 where
  pub digest : Text
  pub namespace : Text
  pub generation : ℕ
  pub table_tags : List Text

-- The array of the loop in `build`.
abbrev pub components : CacheKeyInput → Text → List Text
components input canonical_sql =
    input.version
    ∷ input.data_source
    ∷ input.driver
    ∷ Option.get_or input.tenant (ascii "-")
    ∷ input.namespace
    ∷ input.statement_id
    ∷ canonical_sql
    ∷ []

-- What the hasher was fed when `finalize` is called.
unfoldable pub preimage : CacheKeyInput → Text → ℕ → Bytes
preimage input canonical_sql generation =
    update_component
      (update_component (foldl update_component [] (components input canonical_sql))
        (to_le_bytes generation))
      input.parameters

module _ (x : External) where
  abbrev pub key_of : CacheKeyInput → ℕ → SqlMetadata → CacheKey
  key_of input generation metadata = record {
    digest = x.blake3_hex (preimage input metadata.canonical_sql generation);
    namespace = input.namespace;
    generation = generation;
    table_tags = metadata.table_tags;
  }

  unfoldable pub build : CacheKeyInput → ℕ → CacheResult CacheKey
  build input generation = elim (Sql.parse x input.sql) [
    | err e ↦ err e
    | ok metadata ↦ ok (key_of input generation metadata)
  ]
