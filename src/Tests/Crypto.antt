-- ===== src/Tests/Crypto.antt =====
-- crypto/src: runs of the Merkle tree, and the theorems on it and on identities applied.
use private_m_of_n_multisig.Common.{
  ◌≡◌, ◌≢◌, ◌⊎◌, refl, ap, arith, true, ◌∷◌, ok, some, replicate, get_or, get_elem?, length,
}
use private_m_of_n_multisig.Common.Bytes.{Bytes, zeros}
use private_m_of_n_multisig.Crypto.Hash.{CollidesIn, hash_len, hash_leaf, hash_node}
use private_m_of_n_multisig.Crypto.Identity.{Identity, IsIdentity}
use private_m_of_n_multisig.Crypto.Merkle.{
  MerkleTree, MerkleProof, IsProof, zero_hashes_from, new, node_at, root, proof, verify_proof,
  insert,
}
use private_m_of_n_multisig.Crypto.Merkle.Reference.{
  reference, IsBuilt, new-IsBuilt, insert-IsBuilt, node_at-reference,
}
use private_m_of_n_multisig.Crypto.Merkle.Paths.{verify_proof-proof}
use private_m_of_n_multisig.Crypto.Merkle.Binding.{
  position, proof_inputs, slot_inputs, verify_proof-binding,
}
use private_m_of_n_multisig.Tests.Toy.{hasher}

abbrev alice : Identity
alice = record { sk = replicate 32 1; salt = replicate 32 2 }

alice-IsIdentity : IsIdentity alice
alice-IsIdentity = record { sk_size = refl; salt_size = refl }

abbrev first : Bytes
first = replicate 32 9

abbrev second : Bytes
second = replicate 32 8

abbrev tree : MerkleTree
tree = (insert (insert (new hasher) first).0 second).0

tree-IsBuilt : IsBuilt hasher tree
tree-IsBuilt =
    insert-IsBuilt hasher _ second (insert-IsBuilt hasher (new hasher) first (new-IsBuilt hasher))

length-tree : length tree.leaves ≡ 2
unfolding insert new
length-tree = refl

second_stored : get_elem? tree.leaves 1 ≡ some second
unfolding insert new
second_stored = refl

second_not_zero : second ≢ zeros hash_len
second_not_zero e = absurd (omega (arith, ap (λ (l : Bytes). get_or l 0 0) e))

root_run : root hasher tree ≡ 195 ∷ replicate 31 7
unfolding root node_at new zero_hashes_from insert hash_leaf hash_node
root_run = refl

node_at-reference_example : node_at hasher tree 1 0 ≡ reference hasher tree.leaves 1 0
node_at-reference_example = node_at-reference hasher tree 1 0 tree-IsBuilt (omega arith)

verify_proof-proof_example :
    (p : MerkleProof) × (proof hasher tree 1 ≡ ok p)
    × IsProof p
    × (verify_proof hasher (root hasher tree) second p ≡ true)
verify_proof-proof_example =
    verify_proof-proof hasher tree 1 second tree-IsBuilt (omega (arith, length-tree)) second_stored
      second_not_zero

second_proof_lem :
    (p : MerkleProof) × (proof hasher tree 1 ≡ ok p)
    × IsProof p
    × (verify_proof hasher (root hasher tree) second p ≡ true)
second_proof_lem =
    verify_proof-proof hasher tree 1 second tree-IsBuilt (omega (arith, length-tree)) second_stored
      second_not_zero

abbrev second_proof : MerkleProof
second_proof = second_proof_lem.0

verify_proof-binding_example :
    (get_elem? tree.leaves (position second_proof.indices) ≡ some second)
    ⊎ CollidesIn hasher
        (proof_inputs hasher second second_proof)
        (slot_inputs hasher tree.leaves (position second_proof.indices))
verify_proof-binding_example =
    verify_proof-binding hasher tree second second_proof tree-IsBuilt second_proof_lem.2
      second_proof_lem.3
