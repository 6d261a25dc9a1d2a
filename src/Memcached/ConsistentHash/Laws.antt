-- ===== src/Memcached/ConsistentHash/Laws.antt =====
-- Which node a key goes to, and which keys move when a node is added.
use rbatis_cache.Common.{
  ℕ, zero, suc, ◌+◌, ◌-◌, ◌*◌, ◌%◌, ◌≤◌, ◌<◌, ◌≡◌, refl, ◌⊎◌, inl, inr, some, List, [], ◌∷◌, Text,
  Bytes, All, All-map, arith, length, take, u64_mod, u64_max, All-zip, from_le_bytes, Option-cases,
  Bool-cases, leb,
}
use rbatis_cache.BTreeMap
use rbatis_cache.BTreeMap.Laws.{
  IsAscending, first_from-least, first_from-none, get-first_from, first_from-All,
  insert-IsAscending, All-insert, first_from-insert, first_key_value-insert,
}
use rbatis_cache.Memcached.ConsistentHash.{
  node_or_zero, or_first, hash, point, add_replicas, add_nodes, new, node_for,
}

-- How far a point of the ring lies ahead of a hash.
abbrev pub distance : ℕ → ℕ → ℕ
distance from point = (point + u64_mod - from) % u64_mod

-- The node of a point that is nowhere farther ahead than any point.
abbrev pub IsNearest : ℕ → ℕ → List (ℕ × ℕ) → Type 0
IsNearest from node points =
    (at : ℕ) × (BTreeMap.get at points ≡ some node)
    × All (λ entry. distance from at ≤ distance from entry.0) points

abbrev IsWord : ℕ × ℕ → Type 0
IsWord entry = entry.0 ≤ u64_max

abbrev chosen : ℕ → List (ℕ × ℕ) → ℕ
chosen from points = node_or_zero (or_first (BTreeMap.first_from from points) points)

closer :
    (from at other : ℕ)
    → from ≤ u64_max
    → at ≤ u64_max
    → from ≤ at
    → (from ≤ other → at ≤ other)
    → other ≤ u64_max
    → distance from at ≤ distance from other
closer from at other hf hat le least word = elim (Bool-cases (leb from other)) [
  | inl after ↦ let l : at ≤ other = least (ground arith) in omega arith
  | inr before ↦ let l : other < from = ground arith in omega arith
]

from_point :
    (from at node : ℕ) (points : List (ℕ × ℕ))
    → from ≤ u64_max
    → at ≤ u64_max
    → IsAscending points
    → All IsWord points
    → BTreeMap.first_from from points ≡ some (at, node)
    → IsNearest from node points
from_point from at node points hf hat asc words there =
    let (le, least) = first_from-least from at node points asc there in
    (
      at,
      get-first_from from at node points asc there,
      All-map {Q = λ entry. distance from at ≤ distance from entry.0}
          (λ entry both. closer from at entry.0 hf hat le both.0 both.1) points
          (All-zip (λ entry. from ≤ entry.0 → at ≤ entry.0) IsWord points least words),
    )

wrapped :
    (from at node : ℕ) (m : List (ℕ × ℕ))
    → from ≤ u64_max
    → at ≤ u64_max
    → IsAscending ((at, node) ∷ m)
    → All IsWord m
    → All (λ entry. entry.0 < from) ((at, node) ∷ m)
    → IsNearest from node ((at, node) ∷ m)
wrapped from at node m hf hat asc words below = (
  at,
  ground arith,
  (
    omega arith,
    All-map {Q = λ entry. distance from at ≤ distance from entry.0} (λ entry three. omega arith) m
        (All-zip (λ entry. at < entry.0) (λ entry. IsWord entry × (entry.0 < from)) m asc.0
          (All-zip IsWord (λ entry. entry.0 < from) m words below.1)),
  ),
)

chosen_some-IsNearest :
    (from : ℕ) (entry : ℕ × ℕ) (m : List (ℕ × ℕ))
    → from ≤ u64_max
    → IsAscending (entry ∷ m)
    → All IsWord (entry ∷ m)
    → IsNearest from (chosen from (entry ∷ m)) (entry ∷ m)
chosen_some-IsNearest from entry m hf asc words =
    elim (Option-cases (BTreeMap.first_from from (entry ∷ m))) [
      | inl gone ↦ rw gone (
          wrapped from entry.0 entry.1 m hf words.0 asc words.1
            (first_from-none from (entry ∷ m) gone))
      | inr ((at, node), there) ↦ rw there (
          from_point from at node (entry ∷ m) hf
            (first_from-All IsWord from (at, node) (entry ∷ m) words there) asc words there)
    ]

chosen-IsNearest :
    (from : ℕ) (m : List (ℕ × ℕ))
    → 0 < length m
    → from ≤ u64_max
    → IsAscending m
    → All IsWord m
    → IsNearest from (chosen from m) m
chosen-IsNearest from [] more hf asc words = absurd (omega arith)
chosen-IsNearest from (entry ∷ m) more hf asc words =
    chosen_some-IsNearest from entry m hf asc words

length-insert-pos : (k v : ℕ) (m : List (ℕ × ℕ)) → 0 < length (BTreeMap.insert k v m)
length-insert-pos k v [] = omega arith
length-insert-pos k v ((i, w) ∷ m) = ground arith

-- What holds of zero and of every node holds of the chosen one.
chosen-All :
    (P : ℕ → Type 0) (from : ℕ) (m : List (ℕ × ℕ))
    → P 0
    → All (λ entry. P entry.1) m
    → P (chosen from m)
chosen-All P from [] z h = z
chosen-All P from (entry ∷ m) z h = elim (Option-cases (BTreeMap.first_from from (entry ∷ m))) [
  | inl gone ↦ rw gone h.0
  | inr (found, there) ↦ rw there (first_from-All (λ e. P e.1) from found (entry ∷ m) h there)
]

-- The node of a key is the one it was, or the node of the new point.
chosen-insert :
    (from at node : ℕ) (m : List (ℕ × ℕ))
    → (chosen from (BTreeMap.insert at node m) ≡ node)
      ⊎ (chosen from (BTreeMap.insert at node m) ≡ chosen from m)
chosen-insert from at node m = elim (first_from-insert from at node m) [
  | inl added ↦ inl (rw added refl)
  | inr same ↦ rw same (head from at node m)
]
  where
    head :
        (from at node : ℕ) (m : List (ℕ × ℕ))
        → (node_or_zero (or_first (BTreeMap.first_from from m) (BTreeMap.insert at node m)) ≡ node)
          ⊎ (node_or_zero (or_first (BTreeMap.first_from from m) (BTreeMap.insert at node m))
              ≡ chosen from m)
    head from at node m = elim (Option-cases (BTreeMap.first_from from m)) [
      | inr (entry, there) ↦ inr (rw there refl)
      | inl gone ↦ elim (first_key_value-insert at node m) [
        | inl added ↦ inl (rw (gone, added) refl)
        | inr old ↦ inr (rw (gone, old) refl)
      ]
    ]

abbrev IsByte : ℕ → Type 0
IsByte b = b < 256

abbrev power : ℕ → ℕ
power zero = 1
power (suc n) = 256 * power n

from_le_bytes-take :
    (n : ℕ) (bytes : Bytes)
    → All IsByte bytes
    → 0 < power n × from_le_bytes (take n bytes) < power n
from_le_bytes-take zero bytes h = (omega arith, omega arith)
from_le_bytes-take (suc n) [] h =
    let (lt, _) = from_le_bytes-take n [] tt in (omega arith, omega arith)
from_le_bytes-take (suc n) (b ∷ bytes) h =
    let (lt, less) = from_le_bytes-take n bytes h.1 in
    let byte : b < 256 = h.0 in (omega arith, omega arith)

module _ (blake3 : Bytes → Bytes) where
  add_replicas-All :
      (P : ℕ × ℕ → Type 0) (node replicas : ℕ) (m : List (ℕ × ℕ))
      → ((replica : ℕ) → P (point blake3 node replica, node))
      → All P m
      → All P (add_replicas blake3 node replicas m)
  unfolding add_replicas
  add_replicas-All P node zero m new h = h
  add_replicas-All P node (suc replicas) m new h =
      All-insert P (point blake3 node replicas) node (add_replicas blake3 node replicas m)
        (new replicas) (add_replicas-All P node replicas m new h)

  add_replicas-IsAscending :
      (node replicas : ℕ) (m : List (ℕ × ℕ))
      → IsAscending m
      → IsAscending (add_replicas blake3 node replicas m)
  unfolding add_replicas
  add_replicas-IsAscending node zero m h = h
  add_replicas-IsAscending node (suc replicas) m h =
      insert-IsAscending (point blake3 node replicas) node (add_replicas blake3 node replicas m)
        (add_replicas-IsAscending node replicas m h)

  add_nodes-IsAscending :
      (virtual_nodes nodes : ℕ) → IsAscending (add_nodes blake3 virtual_nodes nodes)
  unfolding add_nodes
  add_nodes-IsAscending v zero = tt
  add_nodes-IsAscending v (suc node) =
      add_replicas-IsAscending node v (add_nodes blake3 v node) (add_nodes-IsAscending v node)

  add_nodes-All :
      (P : ℕ × ℕ → Type 0) (virtual_nodes nodes : ℕ)
      → ((node replica : ℕ) → node < nodes → P (point blake3 node replica, node))
      → All P (add_nodes blake3 virtual_nodes nodes)
  unfolding add_nodes
  add_nodes-All P v zero h = tt
  add_nodes-All P v (suc node) h =
      add_replicas-All P node v (add_nodes blake3 v node) (λ replica. h node replica (omega arith))
        (add_nodes-All P v node (λ n replica lt. h n replica (omega arith)))

  hash-IsWord :
      ((input : Bytes) → All IsByte (blake3 input)) → (input : Text) → hash blake3 input ≤ u64_max
  unfolding hash
  hash-IsWord bytes input =
      let (_, lt) = from_le_bytes-take 8 (blake3 input) (bytes input) in omega arith

  point-IsWord :
      ((input : Bytes) → All IsByte (blake3 input))
      → (node replica : ℕ) → point blake3 node replica ≤ u64_max
  unfolding point
  point-IsWord bytes node replica = hash-IsWord bytes _

  -- With at least one node and one virtual node, and a BLAKE3 hash of bytes, a key goes to the node
  -- of the point that is nearest ahead of the key's hash on the circle of 64-bit words.
  pub node_for-IsNearest :
      (node_count virtual_nodes : ℕ) (key : Text)
      → ((input : Bytes) → All IsByte (blake3 input))
      → 0 < node_count
      → 0 < virtual_nodes
      → IsNearest
          (hash blake3 key)
          (node_for blake3 (new blake3 node_count virtual_nodes) key)
          (new blake3 node_count virtual_nodes).points
  unfolding node_for new add_nodes add_replicas
  node_for-IsNearest zero virtual_nodes key bytes hn hv = absurd (omega arith)
  node_for-IsNearest (suc n) zero key bytes hn hv = absurd (omega arith)
  node_for-IsNearest (suc n) (suc v) key bytes hn hv =
      chosen-IsNearest (hash blake3 key) (add_nodes blake3 (suc v) (suc n))
        (length-insert-pos (point blake3 n v) n
          (add_replicas blake3 n v (add_nodes blake3 (suc v) n)))
        (hash-IsWord bytes key) (add_nodes-IsAscending (suc v) (suc n))
        (add_nodes-All IsWord (suc v) (suc n) (λ node replica lt. point-IsWord bytes node replica))

  -- The node of a key is a node of the ring, if it has one.
  pub node_for-lt :
      (node_count virtual_nodes : ℕ) (key : Text)
      → 0 < node_count
      → node_for blake3 (new blake3 node_count virtual_nodes) key < node_count
  unfolding node_for new
  node_for-lt n v key h =
      chosen-All (λ node. node < n) (hash blake3 key) (add_nodes blake3 v n) h
        (add_nodes-All (λ entry. entry.1 < n) v n (λ node replica lt. lt))

  chosen-add_replicas :
      (from node replicas : ℕ) (m : List (ℕ × ℕ))
      → (chosen from (add_replicas blake3 node replicas m) ≡ node)
        ⊎ (chosen from (add_replicas blake3 node replicas m) ≡ chosen from m)
  unfolding add_replicas
  chosen-add_replicas from node zero m = inr refl
  chosen-add_replicas from node (suc replicas) m =
      elim (chosen-insert from (point blake3 node replicas) node
        (add_replicas blake3 node replicas m)) [
          | inl added ↦ inl added
          | inr same ↦ rw same (chosen-add_replicas from node replicas m)
        ]

  -- A node that is added takes keys over, and no other key moves.
  pub node_for-add :
      (node_count virtual_nodes : ℕ) (key : Text)
      → (node_for blake3 (new blake3 (suc node_count) virtual_nodes) key ≡ node_count)
        ⊎ (node_for blake3 (new blake3 (suc node_count) virtual_nodes) key
            ≡ node_for blake3 (new blake3 node_count virtual_nodes) key)
  unfolding node_for new add_nodes
  node_for-add n v key = chosen-add_replicas (hash blake3 key) n v (add_nodes blake3 v n)
