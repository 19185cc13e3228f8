-- ===== src/Crypto/Merkle.antt =====
-- crypto/src/merkle.rs: the fixed-depth Merkle tree, its proofs and their verification.
-- A Rust array is a list whose length `IsProof` and `IsBuilt` state; `zero_hashes[level]` is read
-- at levels up to 20 only, where the array of 21 entries has one.
pub mod Reference
pub mod Paths
pub mod Binding
pub mod Growth
use private_m_of_n_multisig.Common.{
  ℕ, zero, suc, ◌+◌, ◌*◌, ◌/◌, ◌^◌, bit_and, bit_xor, ◌≡◌, Bool, true, false, Option, none, some,
  List, [], ◌∷◌, ◌++◌, Result, ok, err, leb, ◌==◌, if◌then◌else◌, length, get_elem?, get_or,
}
use private_m_of_n_multisig.Common.Bytes.{Bytes, All, zeros, bytes_eq}
use private_m_of_n_multisig.Crypto.Hash.{Hasher, hash_len, hash_leaf, hash_node}

abbrev pub merkle_depth : ℕ
merkle_depth = 20

abbrev pub max_leaves : ℕ
max_leaves = 2 ^ 20

pub data MerkleError : Type 0 where
  full : ℕ → MerkleError
  index_out_of_range : ℕ → ℕ → MerkleError

pub record MerkleProof : Type 0 where
  pub siblings : List Bytes
  pub indices : List Bool

pub record MerkleTree : Type 0 where
  pub leaves : List Bytes
  pub zero_hashes : List Bytes

-- `[Hash; MERKLE_DEPTH]` and `[bool; MERKLE_DEPTH]`.
pub record IsProof (p : MerkleProof) : Type 0 where
  pub sibling_count : length p.siblings ≡ merkle_depth
  pub index_count : length p.indices ≡ merkle_depth
  pub sibling_size : All (λ s. length s ≡ hash_len) p.siblings

module _ (H : Hasher) where
  -- The loop of `new`: `n` entries after the marker `prev`.
  unfoldable pub zero_hashes_from : ℕ → Bytes → List Bytes
  zero_hashes_from zero prev = prev ∷ []
  zero_hashes_from (suc n) prev = prev ∷ zero_hashes_from n (hash_node H prev prev)

  unfoldable pub new : MerkleTree
  new = record {
    leaves = [];
    zero_hashes = zero_hashes_from merkle_depth (hash_leaf H (zeros hash_len));
  }

  unfoldable pub node_at : MerkleTree → ℕ → ℕ → Bytes
  node_at t zero pos = elim (get_elem? t.leaves pos) [
    | some l ↦ hash_leaf H l
    | none ↦ get_or t.zero_hashes 0 []
  ]
  node_at t (suc k) pos =
      let left = node_at t k (pos * 2) in
      let right = node_at t k (pos * 2 + 1) in
      let inner = hash_node H left right in
      if leb (length t.leaves) (pos * 2 ^ suc k) then get_or t.zero_hashes (suc k) [] else inner

  unfoldable pub root : MerkleTree → Bytes
  root t = node_at t merkle_depth 0

  -- The loop of `proof`: the rounds left, the level and `current`.
  unfoldable pub path : MerkleTree → ℕ → ℕ → ℕ → MerkleProof
  path t zero level current = record { siblings = []; indices = [] }
  path t (suc rounds) level current =
      let rest = path t rounds (level + 1) (current / 2) in
      record {
        siblings = node_at t level (bit_xor current 1) ∷ rest.siblings;
        indices = (bit_and current 1 == 1) ∷ rest.indices;
      }

  unfoldable pub proof : MerkleTree → ℕ → Result MerkleError MerkleProof
  proof t index =
      if leb (length t.leaves) index
      then err (index_out_of_range index (length t.leaves))
      else ok (path t merkle_depth 0 index)

  -- The loop of `verify_proof`, along the two arrays.
  unfoldable pub climb : Bytes → List Bytes → List Bool → Bytes
  climb current [] bits = current
  climb current (s ∷ ss) [] = current
  climb current (s ∷ ss) (b ∷ bits) =
      climb (if b then hash_node H s current else hash_node H current s) ss bits

  unfoldable pub verify_proof : Bytes → Bytes → MerkleProof → Bool
  verify_proof root leaf p =
      if bytes_eq leaf (zeros hash_len)
      then false
      else bytes_eq (climb (hash_leaf H leaf) p.siblings p.indices) root

unfoldable pub insert : MerkleTree → Bytes → MerkleTree × Result MerkleError ℕ
insert t leaf =
    if leb max_leaves (length t.leaves)
    then (t, err (full max_leaves))
    else (record t { leaves = t.leaves ++ (leaf ∷ []) }, ok (length t.leaves))

-- The accessors.
abbrev pub len : MerkleTree → ℕ
len t = length t.leaves

unfoldable pub is_empty : MerkleTree → Bool
is_empty t = length t.leaves == 0

abbrev pub capacity : MerkleTree → ℕ
capacity t = max_leaves

abbrev pub leaf : MerkleTree → ℕ → Option Bytes
leaf t index = get_elem? t.leaves index
