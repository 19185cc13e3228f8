-- ===== src/Crypto/Merkle/Reference.antt =====
-- crypto/src/merkle.rs, `node_at`: the shortcut through `zero_hashes` against the plain tree over
-- 2 ^ level slots, in which every slot past the last leaf holds the all-zero leaf.
use private_m_of_n_multisig.Common.{
  ℕ, zero, suc, ◌+◌, ◌*◌, ◌^◌, ◌≤◌, ◌≡◌, refl, sym, ap, ap₂, ◌∙◌, none, some, inl, inr, List, [],
  ◌∷◌, arith, leb, leb→le, Bool-cases, length, get_elem?, get_or,
}
use private_m_of_n_multisig.Common.Bytes.{Bytes, zeros}
use private_m_of_n_multisig.Crypto.Hash.{Hasher, hash_len, hash_leaf, hash_node}
use private_m_of_n_multisig.Crypto.Merkle.{
  MerkleTree, merkle_depth, zero_hashes_from, new, node_at, root, insert,
}
use native.Mathlib.Nat.{pow-suc}

abbrev pub slot : List Bytes → ℕ → Bytes
slot leaves pos = get_or leaves pos (zeros hash_len)

-- A node's range is that of its two children.
child_range : (pos k : ℕ) → pos * 2 ^ suc k ≡ pos * 2 * 2 ^ k
child_range pos k = omega (arith, ap (λ (t : ℕ). pos * t) (pow-suc 2 k))

module _ (H : Hasher) where
  -- The plain tree, with no shortcut.
  unfoldable pub reference : List Bytes → ℕ → ℕ → Bytes
  reference leaves zero pos = hash_leaf H (slot leaves pos)
  reference leaves (suc k) pos =
      hash_node H (reference leaves k (pos * 2)) (reference leaves k (pos * 2 + 1))

  -- A node one level up, with the level as the loops of the code write it.
  pub reference_above :
      (leaves : List Bytes) (level p : ℕ)
      → hash_node H (reference leaves level (p * 2)) (reference leaves level (p * 2 + 1))
        ≡ reference leaves (level + 1) p
  unfolding reference
  reference_above leaves level p =
      let e : suc level ≡ level + 1 = omega arith in ap (λ j. reference leaves j p) e

  pub length-reference :
      (leaves : List Bytes) (k pos : ℕ) → length (reference leaves k pos) ≡ hash_len
  unfolding reference hash_leaf hash_node
  length-reference leaves zero pos = H.length-hash _
  length-reference leaves (suc k) pos = H.length-hash _

  -- The markers of empty subtrees.
  marker : ℕ → Bytes → Bytes
  marker zero z = z
  marker (suc k) z = marker k (hash_node H z z)

  marker-suc : (k : ℕ) (z : Bytes) → marker (suc k) z ≡ hash_node H (marker k z) (marker k z)
  unfolding marker
  marker-suc zero z = refl
  marker-suc (suc k) z = marker-suc k (hash_node H z z)

  get_or-zero_hashes :
      (n k : ℕ) (z d : Bytes) → k ≤ n → get_or (zero_hashes_from H n z) k d ≡ marker k z
  unfolding zero_hashes_from marker
  get_or-zero_hashes zero zero z d h = refl
  get_or-zero_hashes zero (suc k) z d h = absurd (omega arith)
  get_or-zero_hashes (suc n) zero z d h = refl
  get_or-zero_hashes (suc n) (suc k) z d h =
      get_or-zero_hashes n k (hash_node H z z) d (omega arith)

  abbrev pub empty_leaf : Bytes
  empty_leaf = hash_leaf H (zeros hash_len)

  -- What `new` sets up and `insert` leaves alone.
  abbrev pub IsBuilt : MerkleTree → Type 0
  IsBuilt t = t.zero_hashes ≡ zero_hashes_from H merkle_depth empty_leaf

  get_or_past :
      (leaves : List Bytes) (pos : ℕ) → length leaves ≤ pos → slot leaves pos ≡ zeros hash_len
  get_or_past [] pos h = refl
  get_or_past (l ∷ ls) zero h = absurd (omega arith)
  get_or_past (l ∷ ls) (suc pos) h = get_or_past ls pos (omega arith)

  reference_empty :
      (leaves : List Bytes) (k pos : ℕ)
      → length leaves ≤ pos * 2 ^ k
      → reference leaves k pos ≡ marker k empty_leaf
  unfolding reference
  reference_empty leaves zero pos h =
      ap (hash_leaf H) (get_or_past leaves pos (omega arith)) ∙ unfold marker in refl
  reference_empty leaves (suc k) pos h =
      ap₂ (hash_node H) (reference_empty leaves k (pos * 2) (omega (arith, child_range pos k)))
        (reference_empty leaves k (pos * 2 + 1) (omega (arith, child_range pos k)))
      ∙ sym (marker-suc k empty_leaf)

  slot-get_elem? :
      (leaves : List Bytes) (pos : ℕ) (z : Bytes)
      → z ≡ hash_leaf H (zeros hash_len)
      → elim (get_elem? leaves pos) [ some l ↦ hash_leaf H l | none ↦ z ]
        ≡ hash_leaf H (slot leaves pos)
  slot-get_elem? [] pos z h = h
  slot-get_elem? (l ∷ ls) zero z h = refl
  slot-get_elem? (l ∷ ls) (suc pos) z h = slot-get_elem? ls pos z h

  -- At every level, up to 20, of a tree built by `new` and `insert`, `node_at`, which stops at
  -- empty subtrees, gives the node of the plain tree in which every slot past the last leaf holds
  -- the all-zero leaf.
  pub node_at-reference :
      (t : MerkleTree) (k pos : ℕ)
      → IsBuilt t
      → k ≤ merkle_depth
      → node_at H t k pos ≡ reference t.leaves k pos
  unfolding node_at reference
  node_at-reference t zero pos b h =
      slot-get_elem? t.leaves pos _
        (rw b (get_or-zero_hashes merkle_depth 0 empty_leaf [] h ∙ unfold marker in refl))
  node_at-reference t (suc k) pos b h =
      elim (Bool-cases (leb (length t.leaves) (pos * 2 ^ suc k))) [
        | inl past ↦
            rw (past, b)
              (get_or-zero_hashes merkle_depth (suc k) empty_leaf [] h
                ∙ sym (reference_empty t.leaves (suc k) pos (leb→le _ _ past)))
        | inr inside ↦ rw inside (
            ap₂ (hash_node H) (node_at-reference t k (pos * 2) b (omega arith))
              (node_at-reference t k (pos * 2 + 1) b (omega arith)))
      ]

  -- The root is that of the plain tree of 2 ^ 20 slots.
  pub root-reference : (t : MerkleTree) → IsBuilt t → root H t ≡ reference t.leaves merkle_depth 0
  unfolding root
  root-reference t b = node_at-reference t merkle_depth 0 b (omega arith)

  pub new-IsBuilt : IsBuilt (new H)
  unfolding new
  new-IsBuilt = refl

  pub insert-IsBuilt : (t : MerkleTree) (leaf : Bytes) → IsBuilt t → IsBuilt (insert t leaf).0
  unfolding insert
  insert-IsBuilt t leaf b = ground arith
