-- ===== src/Crypto/Merkle/Growth.antt =====
-- crypto/src/merkle.rs: `insert` on a tree that `new` and `insert` have built.
use private_m_of_n_multisig.Common.{
  ℕ, ◌+◌, ◌≤◌, ◌<◌, ◌≡◌, refl, some, false, inl, inr, [], ◌∷◌, arith, leb, leb→le, Bool-cases,
  length, Result, ok, err, length-append, take, take-append_left, get_elem?-append_length,
}
use private_m_of_n_multisig.Common.Bytes.{Bytes}
use private_m_of_n_multisig.Crypto.Hash.{Hasher}
use private_m_of_n_multisig.Crypto.Merkle.{
  MerkleTree, MerkleError, full, max_leaves, new, insert, len, is_empty, capacity, leaf,
}
use private_m_of_n_multisig.Crypto.Merkle.Reference.{IsBuilt, new-IsBuilt, insert-IsBuilt}

-- A tree as `new` and `insert` leave it.
pub record IsTree (H : Hasher) (t : MerkleTree) : Type 0 where
  pub built : IsBuilt H t
  pub fits : length t.leaves ≤ max_leaves

-- What `insert` has done to `t`, by its result: the next slot holds the leaf behind all that
-- `t` held, or the tree was full and is unchanged.
abbrev pub Inserts : MerkleTree → Bytes → MerkleTree × Result MerkleError ℕ → Type 0
Inserts t x (t', ok index) =
    (index ≡ len t)
    × (index < capacity t)
    × (len t' ≡ index + 1)
    × (leaf t' index ≡ some x)
    × (take index t'.leaves ≡ t.leaves)
    × (is_empty t' ≡ false)
Inserts t x (t', err e) = (e ≡ full (capacity t)) × (capacity t ≤ len t) × (t' ≡ t)

-- `insert` returns the next free index and stores the leaf there, moving no other leaf; on a full
-- tree it returns `Full` and changes nothing.
pub insert-Inserts : (t : MerkleTree) (x : Bytes) → Inserts t x (insert t x)
unfolding insert is_empty
insert-Inserts t x = elim (Bool-cases (leb max_leaves (len t))) [
  | inl filled ↦ rw filled (refl, leb→le _ _ filled, refl)
  | inr room ↦
      let grown = length-append t.leaves (x ∷ []) in
      rw room (
        refl,
        ground arith,
        grown,
        get_elem?-append_length t.leaves [] x,
        take-append_left (len t) t.leaves (x ∷ []) refl,
        ground (arith, grown),
      )
]

insert_fits :
    (t : MerkleTree) (leaf : Bytes)
    → length t.leaves ≤ max_leaves
    → length (insert t leaf).0.leaves ≤ max_leaves
unfolding insert
insert_fits t leaf h = ground (arith, length-append t.leaves (leaf ∷ []))

module _ (H : Hasher) where
  pub new-IsTree : IsTree H (new H)
  unfolding new
  new-IsTree = record { built = new-IsBuilt H; fits = omega arith }

  pub insert-IsTree : (t : MerkleTree) (leaf : Bytes) → IsTree H t → IsTree H (insert t leaf).0
  insert-IsTree t leaf w = record {
    built = insert-IsBuilt H t leaf w.built;
    fits = insert_fits t leaf w.fits;
  }
