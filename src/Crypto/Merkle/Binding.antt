-- ===== src/Crypto/Merkle/Binding.antt =====
-- crypto/src/merkle.rs: what an accepted proof tells about the tree.
use private_m_of_n_multisig.Common.{
  ℕ, zero, suc, ◌+◌, ◌*◌, ◌/◌, ◌≡◌, ◌≢◌, ◌⊎◌, sym, ap, ◌∙◌, Bool, true, false, some, inl, inr, List,
  [], ◌∷◌, arith, length, get_elem?, if◌then◌else◌, append-injective,
}
use private_m_of_n_multisig.Common.Bytes.{Bytes, All, zeros, bytes_eq_iff}
use private_m_of_n_multisig.Crypto.Hash.{
  Hasher, hash_len, hash_leaf, hash_node, leaf_input, node_input, Collides, CollidesIn, input-cases,
}
use private_m_of_n_multisig.Crypto.Merkle.{
  MerkleTree, MerkleProof, IsProof, merkle_depth, root, climb, verify_proof,
}
use private_m_of_n_multisig.Crypto.Merkle.Reference.{
  slot, reference, reference_above, length-reference, IsBuilt, root-reference,
}

-- The slot that the direction bits of a proof name, lowest bit first.
unfoldable pub position : List Bool → ℕ
position [] = 0
position (b ∷ bits) = (if b then 1 else 0) + position bits * 2

half_odd : (q : ℕ) → (1 + q * 2) / 2 ≡ q
half_odd q = omega arith

half_even : (q : ℕ) → (0 + q * 2) / 2 ≡ q
half_even q = omega arith

odd_lem : (q : ℕ) → q * 2 + 1 ≡ 1 + q * 2
odd_lem q = omega arith

even_lem : (q : ℕ) → q * 2 ≡ 0 + q * 2
even_lem q = omega arith

add_suc_lem : (a b : ℕ) → a + suc b ≡ a + 1 + b
add_suc_lem a b = omega arith

cons_tail : {x y : ℕ} {xs ys : Bytes} → x ∷ xs ≡ y ∷ ys → xs ≡ ys
cons_tail e = cc

module _ (H : Hasher) where
  -- What `verify_proof` hashes on its way from `current`.
  unfoldable pub climb_inputs : Bytes → List Bytes → List Bool → List Bytes
  climb_inputs current [] bits = []
  climb_inputs current (s ∷ ss) [] = []
  climb_inputs current (s ∷ ss) (b ∷ bits) =
      (if b then node_input s current else node_input current s)
      ∷ climb_inputs (if b then hash_node H s current else hash_node H current s) ss bits

  -- What the plain tree hashes at the nodes above slot `pos`, from `level` up.
  unfoldable pub tree_inputs : List Bytes → ℕ → ℕ → ℕ → List Bytes
  tree_inputs leaves zero level pos = []
  tree_inputs leaves (suc rounds) level pos =
      node_input (reference H leaves level (pos / 2 * 2))
        (reference H leaves level (pos / 2 * 2 + 1))
      ∷ tree_inputs leaves rounds (level + 1) (pos / 2)

  length-hash_node : (l r : Bytes) → length (hash_node H l r) ≡ hash_len
  unfolding hash_node
  length-hash_node l r = H.length-hash _

  length-climb_step :
      (b : Bool) (s c : Bytes) → length (if b then hash_node H s c else hash_node H c s) ≡ hash_len
  length-climb_step true s c = length-hash_node s c
  length-climb_step false s c = length-hash_node c s

  -- One level down: equal digests come from equal children, or collide.
  open_node :
      (l r l' r' : Bytes)
      → length l ≡ length l'
      → hash_node H l r ≡ hash_node H l' r'
      → ((l ≡ l') × (r ≡ r')) ⊎ Collides H (node_input l r) (node_input l' r')
  unfolding hash_node
  open_node l r l' r' h e = elim (input-cases H (node_input l r) (node_input l' r') e) [
    | inl same ↦ inl (append-injective l r l' r' h (cons_tail same))
    | inr differ ↦ inr differ
  ]

  climb-binding :
      (leaves : List Bytes) (ss : List Bytes) (bits : List Bool) (level : ℕ) (current : Bytes)
      → length current ≡ hash_len
      → All (λ s. length s ≡ hash_len) ss
      → length ss ≡ length bits
      → climb H current ss bits ≡ reference H leaves (level + length ss) 0
      → (current ≡ reference H leaves level (position bits))
        ⊎ CollidesIn H
            (climb_inputs current ss bits)
            (tree_inputs leaves (length ss) level (position bits))
  unfolding climb climb_inputs tree_inputs position
  climb-binding leaves [] [] level current hc hs hl e =
      inl (e ∙ ap (λ j. reference H leaves j 0) (omega arith))
  climb-binding leaves [] (b ∷ bits) level current hc hs hl e = absurd (omega arith)
  climb-binding leaves (s ∷ ss) [] level current hc hs hl e = absurd (omega arith)
  climb-binding leaves (s ∷ ss) (true ∷ bits) level current hc hs hl e =
      let q = position bits in
      let above : climb H (hash_node H s current) ss bits
          ≡ reference H leaves (level + 1 + length ss) 0 =
        e ∙ ap (λ j. reference H leaves j 0) (add_suc_lem level (length ss)) in
      let rest =
        climb-binding leaves ss bits (level + 1) (hash_node H s current)
          (length-hash_node s current) hs.1 (omega arith) above in
      rw (half_odd q) (elim rest [
        | inr deeper ↦ inr (inr deeper)
        | inl same ↦
            elim (open_node s current _ _ (hs.0 ∙ sym (length-reference H leaves level (q * 2)))
              (same ∙ sym (reference_above H leaves level q))) [
                | inl (_, right) ↦ inl (right ∙ ap (reference H leaves level) (odd_lem q))
                | inr here ↦ inr (inl here)
              ]
      ])
  climb-binding leaves (s ∷ ss) (false ∷ bits) level current hc hs hl e =
      let q = position bits in
      let above : climb H (hash_node H current s) ss bits
          ≡ reference H leaves (level + 1 + length ss) 0 =
        e ∙ ap (λ j. reference H leaves j 0) (add_suc_lem level (length ss)) in
      let rest =
        climb-binding leaves ss bits (level + 1) (hash_node H current s)
          (length-hash_node current s) hs.1 (omega arith) above in
      rw (half_even q) (elim rest [
        | inr deeper ↦ inr (inr deeper)
        | inl same ↦
            elim (open_node current s _ _ (hc ∙ sym (length-reference H leaves level (q * 2)))
              (same ∙ sym (reference_above H leaves level q))) [
                | inl (left, _) ↦ inl (left ∙ ap (reference H leaves level) (even_lem q))
                | inr here ↦ inr (inl here)
              ]
      ])

  -- All that `verify_proof` hashes for a leaf and its proof, and all that the plain tree hashes on
  -- the way from a slot to the root.
  abbrev pub proof_inputs : Bytes → MerkleProof → List Bytes
  proof_inputs leaf p = leaf_input leaf ∷ climb_inputs (hash_leaf H leaf) p.siblings p.indices

  abbrev pub slot_inputs : List Bytes → ℕ → List Bytes
  slot_inputs leaves pos = leaf_input (slot leaves pos) ∷ tree_inputs leaves merkle_depth 0 pos

  get_of_slot :
      (leaves : List Bytes) (c : ℕ) (l : Bytes)
      → slot leaves c ≡ l
      → l ≢ zeros hash_len
      → get_elem? leaves c ≡ some l
  get_of_slot [] c l e ne = absurd (ne (sym e))
  get_of_slot (x ∷ xs) zero l e ne = ap some e
  get_of_slot (x ∷ xs) (suc c) l e ne = get_of_slot xs c l e ne

  pub verify_proof_inv :
      (r leaf : Bytes) (p : MerkleProof)
      → verify_proof H r leaf p ≡ true
      → (leaf ≢ zeros hash_len) × (climb H (hash_leaf H leaf) p.siblings p.indices ≡ r)
  unfolding verify_proof
  verify_proof_inv r leaf p h = (
    λ e. ground (arith, bytes_eq_iff leaf (zeros hash_len)),
    ground (
      arith,
      bytes_eq_iff leaf (zeros hash_len),
      bytes_eq_iff (climb H (hash_leaf H leaf) p.siblings p.indices) r,
    ),
  )

  length-hash_leaf : (l : Bytes) → length (hash_leaf H l) ≡ hash_len
  unfolding hash_leaf
  length-hash_leaf l = H.length-hash _

  open_leaf :
      (leaves : List Bytes) (leaf : Bytes) (pos : ℕ)
      → hash_leaf H leaf ≡ reference H leaves 0 pos
      → (slot leaves pos ≡ leaf) ⊎ Collides H (leaf_input leaf) (leaf_input (slot leaves pos))
  unfolding hash_leaf reference
  open_leaf leaves leaf pos e = elim (input-cases H _ _ e) [
    | inl same ↦ inl (sym (cons_tail same))
    | inr differ ↦ inr differ
  ]

  -- Of a tree built by `new` and `insert`: where `verify_proof` accepts a proof of 20 digests and
  -- 20 bits for a leaf against the tree's root, the tree holds that leaf in the slot that the
  -- proof's direction bits name, or at one height the proof and the tree hash two different inputs
  -- to the same digest.
  pub verify_proof-binding :
      (t : MerkleTree) (leaf : Bytes) (p : MerkleProof)
      → IsBuilt H t
      → IsProof p
      → verify_proof H (root H t) leaf p ≡ true
      → (get_elem? t.leaves (position p.indices) ≡ some leaf)
        ⊎ CollidesIn H (proof_inputs leaf p) (slot_inputs t.leaves (position p.indices))
  verify_proof-binding t leaf p b w h =
      let pos = position p.indices in
      let (ne, closes) = verify_proof_inv (root H t) leaf p h in
      let depth : 20 ≡ 0 + length p.siblings = omega (arith, w.sibling_count) in
      let climbed =
        climb-binding t.leaves p.siblings p.indices 0 (hash_leaf H leaf) (length-hash_leaf leaf)
          w.sibling_size (w.sibling_count ∙ sym w.index_count)
          (closes ∙ root-reference H t b ∙ ap (λ j. reference H t.leaves j 0) depth) in
      elim (rw w.sibling_count at climbed) [
        | inr deeper ↦ inr (inr deeper)
        | inl same ↦ elim (open_leaf t.leaves leaf pos same) [
          | inl stored ↦ inl (get_of_slot t.leaves pos leaf stored ne)
          | inr here ↦ inr (inl here)
        ]
      ]
