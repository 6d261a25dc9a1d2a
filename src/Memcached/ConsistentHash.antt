-- ===== src/Memcached/ConsistentHash.antt =====
-- rbatis-cache-memcached/src/consistent_hash.rs: which node serves a key. The ring's points are the
-- entries of a BTreeMap; the hash of BLAKE3, 32 bytes, is a parameter.
pub mod Laws
use mathlib.Core.Option
use rbatis_cache.Common.{
  ℕ, zero, suc, Option, none, some, List, [], ◌∷◌, ◌++◌, Text, Bytes, ascii, from_le_bytes, decimal,
  take,
}
use rbatis_cache.BTreeMap

pub record ConsistentHashRing : Type 0 where
  pub points : List (ℕ × ℕ)
  pub node_count : ℕ

-- The node of an entry, and 0 where there is none.
abbrev pub node_or_zero : Option (ℕ × ℕ) → ℕ
node_or_zero none = 0
node_or_zero (some (point, node)) = node

-- `or_else`
abbrev pub or_first : Option (ℕ × ℕ) → List (ℕ × ℕ) → Option (ℕ × ℕ)
or_first none points = BTreeMap.first_key_value points
or_first (some entry) points = some entry

module _ (blake3 : Bytes → Bytes) where
  unfoldable pub hash : Text → ℕ
  hash input = from_le_bytes (take 8 (blake3 input))

  unfoldable pub point : ℕ → ℕ → ℕ
  unfolding hash
  point node replica = hash (ascii "node:" ++ decimal node ++ ascii ":replica:" ++ decimal replica)

  -- `for replica in 0..virtual_nodes`
  unfoldable pub add_replicas : ℕ → ℕ → List (ℕ × ℕ) → List (ℕ × ℕ)
  add_replicas node zero points = points
  add_replicas node (suc replica) points =
      BTreeMap.insert (point node replica) node (add_replicas node replica points)

  -- `for node in 0..node_count`
  unfoldable pub add_nodes : ℕ → ℕ → List (ℕ × ℕ)
  unfolding add_replicas
  add_nodes virtual_nodes zero = []
  add_nodes virtual_nodes (suc node) =
      add_replicas node virtual_nodes (add_nodes virtual_nodes node)

  unfoldable pub new : ℕ → ℕ → ConsistentHashRing
  new node_count virtual_nodes = record {
    points = add_nodes virtual_nodes node_count;
    node_count = node_count;
  }

  unfoldable pub node_for : ConsistentHashRing → Text → ℕ
  unfolding hash
  node_for ring key =
      node_or_zero (or_first (BTreeMap.first_from (hash key) ring.points) ring.points)
