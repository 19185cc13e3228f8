-- ===== src/Sdk/Builder/Membership.antt =====
-- sdk/src/multisig.rs, `merkle_proof`: every enrolled member gets a proof that verifies.
use private_m_of_n_multisig.Common.{
  ℕ, zero, suc, ◌≡◌, ◌≢◌, refl, ap, ◌∙◌, ◌⊎◌, inl, inr, true, some, List, [], ◌∷◌, Result, ok, err,
  ◌>>=◌, ok_or, length, get_elem?, arith, Bool-cases,
}
use private_m_of_n_multisig.Common.Bytes.{Bytes, zeros, bytes_eq, bytes_eq_iff}
use private_m_of_n_multisig.Crypto.Hash.{Hasher, hash_len, CollidesIn}
use private_m_of_n_multisig.Crypto.Merkle.{
  MerkleTree, MerkleError, MerkleProof, IsProof, merkle_depth, root, proof, verify_proof,
}
use private_m_of_n_multisig.Crypto.Merkle.Reference.{node_at-reference, length-reference}
use private_m_of_n_multisig.Crypto.Merkle.Binding.{
  position, proof_inputs, slot_inputs, verify_proof-binding,
}
use private_m_of_n_multisig.Crypto.Merkle.Paths.{verify_proof-proof}
use private_m_of_n_multisig.Sdk.Errors.{SdkError, session_status_mismatch, merkle_proof_invalid}
use private_m_of_n_multisig.Sdk.Builder.{
  MultisigBuilder, MultisigFinalized, position_of, member_index, new_builder, finalize,
  merkle_proof,
}
use private_m_of_n_multisig.Sdk.Builder.Enrollment.{
  IsBuilder, enroll, enroll-IsBuilder, frozen, finalize_iff,
}

-- `position` finds an entry that is there, where the entry is.
position_of-some :
    (xs : List Bytes) (i : ℕ) (c : Bytes)
    → get_elem? xs i ≡ some c
    → (j : ℕ) × (position_of xs c ≡ some j) × (get_elem? xs j ≡ some c)
unfolding position_of
position_of-some [] i c h = cc
position_of-some (x ∷ xs) zero c h =
    let same : bytes_eq x c ≡ true = ground (arith, bytes_eq_iff x c) in (0, rw same refl, h)
position_of-some (x ∷ xs) (suc i) c h =
    let (j, found, at) = position_of-some xs i c h in
    elim (Bool-cases (bytes_eq x c)) [
      | inl same ↦ (0, rw same refl, ap some ((bytes_eq_iff x c).0 same))
      | inr differ ↦ (suc j, rw (differ, found) refl, at)
    ]

module _ (H : Hasher) where
  -- What a chain of `add_member` calls and `finalize` leave.
  frozen_of :
      (m : ℕ) (cs : List Bytes) (b : MultisigBuilder) (f : MultisigFinalized)
      → enroll cs (new_builder H m) ≡ ok b
      → finalize H b ≡ ok f
      → IsBuilder H b × (b.added ≡ cs) × (f ≡ frozen H b)
  frozen_of m cs b f e1 e2 =
      let (w, added, _) = enroll-IsBuilder H m cs b e1 in
      let (_, _, _, same) = (finalize_iff H b f).0 e2 in (w, added, same)

  pub length-members_root :
      (m : ℕ) (cs : List Bytes) (b : MultisigBuilder) (f : MultisigFinalized)
      → enroll cs (new_builder H m) ≡ ok b
      → finalize H b ≡ ok f
      → length f.members_root ≡ hash_len
  unfolding root
  length-members_root m cs b f e1 e2 =
      let (w, _, same) = frozen_of m cs b f e1 e2 in
      rw (same, node_at-reference H b.tree merkle_depth 0 w.tree_built.built (omega arith))
        (length-reference H b.tree.leaves merkle_depth 0)

  -- The same for the frozen builder itself.
  merkle_proof-IsProof :
      (b : MultisigBuilder) (i : ℕ) (c : Bytes)
      → IsBuilder H b
      → get_elem? b.added i ≡ some c
      → c ≢ zeros hash_len
      → (p : MerkleProof) × (merkle_proof H (frozen H b) c ≡ ok p)
        × IsProof p
        × (verify_proof H (root H b.tree) c p ≡ true)
  unfolding merkle_proof member_index
  merkle_proof-IsProof b i c w at ne =
      let (j, found, here) = position_of-some b.added i c at in
      let (p, made, shape, accepts) =
        verify_proof-proof H b.tree j c w.tree_built.built w.tree_built.fits
          (ap (λ l. get_elem? l j) w.same_members ∙ here) ne in
      (p, looked_up b.added b.tree c j p found made, shape, accepts)
    where
      looked_up :
          (cs : List Bytes) (t : MerkleTree) (c : Bytes) (j : ℕ) (p : MerkleProof)
          → position_of cs c ≡ some j
          → proof H t j ≡ ok p
          → (ok_or (position_of cs c) session_status_mismatch >>= λ k. elim (proof H t k) [
            | ok q ↦ ok q
            | err _ ↦ err merkle_proof_invalid
          ])
            ≡ ok p
      looked_up cs t c j p found made = rw found (
          ap
            (λ (r : Result MerkleError MerkleProof). elim r as (λ _. Result SdkError MerkleProof) [
              | ok q ↦ ok q
              | err _ ↦ err merkle_proof_invalid
            ])
            made)

  -- After successful `add_member` calls for `cs` and a successful `finalize`, `merkle_proof`
  -- returns a proof of 20 digests and 20 bits for each commitment of `cs` that is not all zero, and
  -- `verify_proof` accepts it against the frozen root.
  pub merkle_proof-verify_proof :
      (m : ℕ) (cs : List Bytes) (b : MultisigBuilder) (f : MultisigFinalized) (i : ℕ) (c : Bytes)
      → enroll cs (new_builder H m) ≡ ok b
      → finalize H b ≡ ok f
      → get_elem? cs i ≡ some c
      → c ≢ zeros hash_len
      → (p : MerkleProof) × (merkle_proof H f c ≡ ok p)
        × IsProof p
        × (verify_proof H f.members_root c p ≡ true)
  merkle_proof-verify_proof m cs b f i c e1 e2 at ne =
      let (w, added, same) = frozen_of m cs b f e1 e2 in
      let (p, made, shape, accepts) = merkle_proof-IsProof b i c w (rw added at) ne in
      (p, rw same made, shape, rw same accepts)

  -- After successful `add_member` calls for `cs` and a successful `finalize`: whatever proof of 20
  -- digests and 20 bits `verify_proof` accepts against the frozen root is for a commitment of `cs`,
  -- in the place that the direction bits name, or the proof and the tree hash two different inputs
  -- to one digest at some height.
  pub verify_proof-enrolled :
      (m : ℕ) (cs : List Bytes) (b : MultisigBuilder) (f : MultisigFinalized) (c : Bytes)
      (p : MerkleProof)
      → enroll cs (new_builder H m) ≡ ok b
      → finalize H b ≡ ok f
      → IsProof p
      → verify_proof H f.members_root c p ≡ true
      → (get_elem? cs (position p.indices) ≡ some c)
        ⊎ CollidesIn H (proof_inputs H c p) (slot_inputs H cs (position p.indices))
  verify_proof-enrolled m cs b f c p e1 e2 wp accepts =
      let (w, added, same) = frozen_of m cs b f e1 e2 in
      let leaves : b.tree.leaves ≡ cs = w.same_members ∙ added in
      rw leaves at (verify_proof-binding H b.tree c p w.tree_built.built wp (rw same at accepts))
