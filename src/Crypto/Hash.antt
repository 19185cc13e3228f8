-- ===== src/Crypto/Hash.antt =====
-- crypto/src/hash.rs: the trait `Hasher` and its provided methods.
-- `Sha256Hasher` calls the crate `sha2`, so every definition takes the hasher as an argument; what
-- is asked of it is that a digest has 32 bytes. No hash is assumed to be injective: theorems that
-- need this end in two given inputs that differ and hash alike.
use private_m_of_n_multisig.Common.{
  ℕ, ◌≡◌, ◌≢◌, ◌⊎◌, inl, inr, List, [], ◌∷◌, ◌++◌, length, Bool-cases,
}
use private_m_of_n_multisig.Common.Bytes.{Bytes, bytes_eq, bytes_eq_iff, bytes_ne_of_eq}

abbrev pub hash_len : ℕ
hash_len = 32

abbrev pub domain_leaf : ℕ
domain_leaf = 0

abbrev pub domain_node : ℕ
domain_node = 1

pub record Hasher : Type 0 where
  pub hash : Bytes → Bytes
  pub length-hash : (x : Bytes) → length (hash x) ≡ hash_len

-- What `hash_leaf` and `hash_node` feed to the hash.
abbrev pub leaf_input : Bytes → Bytes
leaf_input leaf = domain_leaf ∷ leaf

abbrev pub node_input : Bytes → Bytes → Bytes
node_input left right = domain_node ∷ (left ++ right)

module _ (H : Hasher) where
  unfoldable pub hash_pair : Bytes → Bytes → Bytes
  hash_pair left right = H.hash (left ++ right)

  unfoldable pub hash_leaf : Bytes → Bytes
  hash_leaf leaf = H.hash (leaf_input leaf)

  unfoldable pub hash_node : Bytes → Bytes → Bytes
  hash_node left right = H.hash (node_input left right)

  -- Two different inputs with one digest.
  abbrev pub Collides : Bytes → Bytes → Type 0
  Collides x y = (x ≢ y) × (H.hash x ≡ H.hash y)

  -- Some position of two lists of inputs holds such a pair.
  abbrev pub CollidesIn : List Bytes → List Bytes → Type 0
  CollidesIn [] ys = ⊥
  CollidesIn (x ∷ xs) [] = ⊥
  CollidesIn (x ∷ xs) (y ∷ ys) = Collides x y ⊎ CollidesIn xs ys

  -- Two inputs with one digest are equal, or they collide.
  pub input-cases : (x y : Bytes) → H.hash x ≡ H.hash y → (x ≡ y) ⊎ Collides x y
  input-cases x y e = elim (Bool-cases (bytes_eq x y)) [
    | inl same ↦ inl ((bytes_eq_iff x y).0 same)
    | inr differ ↦ inr (bytes_ne_of_eq x y differ, e)
  ]
