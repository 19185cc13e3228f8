-- ===== src/Crypto/Merkle/Paths.antt =====
-- crypto/src/merkle.rs: every proof that `proof` makes, `verify_proof` accepts.
use private_m_of_n_multisig.Common.{
  ℕ, zero, suc, ◌+◌, ◌*◌, ◌/◌, ◌%◌, ◌^◌, ◌≤◌, ◌<◌, bit_and, bit_xor, ◌≡◌, ◌≢◌, refl, sym, ap, ap₂,
  ◌∙◌, ◌⊎◌, true, some, inl, inr, List, [], ◌∷◌, arith, lt→leb_false, ◌==◌, length, get_elem?,
  if◌then◌else◌, ok,
}
use private_m_of_n_multisig.Common.Bits.{bit_and-one, bit_xor-one}
use private_m_of_n_multisig.Common.Bytes.{Bytes, All, zeros, bytes_eq_ne, bytes_eq_iff}
use private_m_of_n_multisig.Crypto.Hash.{Hasher, hash_len, hash_leaf, hash_node}
use private_m_of_n_multisig.Crypto.Merkle.{
  MerkleTree, MerkleProof, IsProof, merkle_depth, max_leaves, node_at, root, path, proof, climb,
  verify_proof,
}
use private_m_of_n_multisig.Crypto.Merkle.Reference.{
  slot, reference, reference_above, length-reference, IsBuilt, node_at-reference, root-reference,
}
use native.Mathlib.Nat.{pow-suc}

-- The position of the node that `rounds` levels up covers `c`.
up : ℕ → ℕ → ℕ
up zero c = c
up (suc k) c = up k (c / 2)

up-zero : (k c : ℕ) → c < 2 ^ k → up k c ≡ 0
unfolding up
up-zero zero c h = omega arith
up-zero (suc k) c h = up-zero k (c / 2) (omega (arith, pow-suc 2 k))

parity : (c : ℕ) → (c % 2 ≡ 0) ⊎ (c % 2 ≡ 1)
parity c = omega arith

module _ (H : Hasher) (t : MerkleTree) (built : IsBuilt H t) where
  sibling :
      (level c s : ℕ)
      → level < merkle_depth
      → bit_xor c 1 ≡ s
      → node_at H t level (bit_xor c 1) ≡ reference H t.leaves level s
  sibling level c s h e =
      node_at-reference H t level (bit_xor c 1) built (omega arith)
      ∙ ap (reference H t.leaves level) e

  -- One round of `verify_proof` on what one round of `proof` wrote.
  join :
      (level c : ℕ)
      → level < merkle_depth
      → (if bit_and c 1 == 1
          then hash_node H (node_at H t level (bit_xor c 1)) (reference H t.leaves level c)
          else hash_node H (reference H t.leaves level c) (node_at H t level (bit_xor c 1)))
        ≡ reference H t.leaves (level + 1) (c / 2)
  join level c h = elim (parity c) [
    | inl even ↦
        rw (bit_and-one c, even)
          (ap₂ (hash_node H) (ap (reference H t.leaves level) (omega arith))
              (sibling level c (c / 2 * 2 + 1) h (omega (arith, bit_xor-one c)))
            ∙ reference_above H t.leaves level (c / 2))
    | inr odd ↦
        rw (bit_and-one c, odd)
          (ap₂ (hash_node H) (sibling level c (c / 2 * 2) h (omega (arith, bit_xor-one c)))
              (ap (reference H t.leaves level) (omega arith))
            ∙ reference_above H t.leaves level (c / 2))
  ]

  climb-path :
      (rounds level c : ℕ)
      → level + rounds ≤ merkle_depth
      → let p = path H t rounds level c in
        climb H (reference H t.leaves level c) p.siblings p.indices
        ≡ reference H t.leaves (level + rounds) (up rounds c)
  unfolding climb path up
  climb-path zero level c h = ap (λ j. reference H t.leaves j c) (omega arith)
  climb-path (suc rounds) level c h =
      ap
        (λ x.
          climb H x (path H t rounds (level + 1) (c / 2)).siblings
            (path H t rounds (level + 1) (c / 2)).indices)
        (join level c (omega arith))
      ∙ climb-path rounds (level + 1) (c / 2) (omega arith)
      ∙ ap (λ j. reference H t.leaves j (up rounds (c / 2))) (omega arith)

  -- The digest of a path is the root.
  climb-path-root :
      (c : ℕ)
      → c < max_leaves
      → let p = path H t merkle_depth 0 c in
        climb H (reference H t.leaves 0 c) p.siblings p.indices ≡ root H t
  climb-path-root c h =
      climb-path merkle_depth 0 c (omega arith)
      ∙ ap (reference H t.leaves merkle_depth) (up-zero 20 c h)
      ∙ sym (root-reference H t built)

  -- Every sibling that `proof` collects is a digest.
  path-All :
      (rounds level c : ℕ)
      → level + rounds ≤ merkle_depth
      → All (λ s. length s ≡ hash_len) (path H t rounds level c).siblings
  unfolding path
  path-All zero level c h = tt
  path-All (suc rounds) level c h = (
    ap length (node_at-reference H t level (bit_xor c 1) built (omega arith))
        ∙ length-reference H t.leaves level (bit_xor c 1),
    path-All rounds (level + 1) (c / 2) (omega arith),
  )

module _ (H : Hasher) where
  slot_of_get :
      (leaves : List Bytes) (c : ℕ) (l : Bytes)
      → get_elem? leaves c ≡ some l
      → (slot leaves c ≡ l) × (c < length leaves)
  slot_of_get [] c l h = cc
  slot_of_get (x ∷ xs) zero l h = (ground arith, omega arith)
  slot_of_get (x ∷ xs) (suc c) l h = let r = slot_of_get xs c l h in (r.0, omega arith)

  length-path :
      (t : MerkleTree) (rounds level c : ℕ)
      → let p = path H t rounds level c in
        (length p.siblings ≡ rounds) × (length p.indices ≡ rounds)
  unfolding path
  length-path t zero level c = (refl, refl)
  length-path t (suc rounds) level c =
      let r = length-path t rounds (level + 1) (c / 2) in (ap suc r.0, ap suc r.1)

  -- Of a tree built by `new` and `insert` that holds at most 2 ^ 20 leaves: where `index` has a
  -- leaf that is not all zero, `proof` returns a proof of 20 digests and 20 bits, and
  -- `verify_proof` accepts it for that leaf against the root.
  pub verify_proof-proof :
      (t : MerkleTree) (index : ℕ) (leaf : Bytes)
      → IsBuilt H t
      → length t.leaves ≤ max_leaves
      → get_elem? t.leaves index ≡ some leaf
      → leaf ≢ zeros hash_len
      → (p : MerkleProof) × (proof H t index ≡ ok p)
        × IsProof p
        × (verify_proof H (root H t) leaf p ≡ true)
  unfolding proof verify_proof reference
  verify_proof-proof t index leaf b fits at ne =
      let found = slot_of_get t.leaves index leaf at in
      (
        path H t merkle_depth 0 index,
        rw (lt→leb_false _ _ found.1),
        record {
          sibling_count = (length-path t merkle_depth 0 index).0;
          index_count = (length-path t merkle_depth 0 index).1;
          sibling_size = path-All H t b merkle_depth 0 index (omega arith);
        },
        rw (bytes_eq_ne leaf (zeros hash_len) ne) (
            (bytes_eq_iff _ _).1 (
              ap
                (λ l.
                  climb H (hash_leaf H l) (path H t merkle_depth 0 index).siblings
                    (path H t merkle_depth 0 index).indices)
                (sym found.0)
              ∙ climb-path-root H t b index (omega (arith, found.1)))),
      )
