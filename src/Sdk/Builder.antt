-- ===== src/Sdk/Builder.antt =====
-- sdk/src/multisig.rs: the builder of a multisig, what `finalize` freezes, and the local snapshot
-- of an instance. A commitment is its 32 bytes; `usize` has 64 bits.
pub mod Enrollment
pub mod Membership
use private_m_of_n_multisig.Common.{
  ℕ, zero, suc, ◌+◌, ◌^◌, ◌≡◌, Bool, true, false, ◌||◌, Option, none, some, List, [], ◌∷◌, ◌++◌,
  Result, ok, err, ◌>>=◌, ◌>>◌, fail_if, ok_or, length, ltb, ◌==◌, if◌then◌else◌,
}
use private_m_of_n_multisig.Common.Bytes.{Bytes, bytes_eq}
use private_m_of_n_multisig.Crypto.Hash.{Hasher}
use private_m_of_n_multisig.Crypto.Merkle as Merkle
use private_m_of_n_multisig.Crypto.Merkle.{
  MerkleTree, MerkleProof, MerkleError, insert, root, proof,
}
use private_m_of_n_multisig.Core.Proof as Proof
use private_m_of_n_multisig.Core.Proof.{deployment_chain_id_u64, from_u64}
use private_m_of_n_multisig.Core.Pda.{derive_multisig_state_pda}
use private_m_of_n_multisig.Sdk.Errors.{
  SdkError, invalid_threshold, insufficient_members, threshold_exceeds_members, duplicate_member,
  session_status_mismatch, merkle_proof_invalid,
}

pub record MultisigBuilder : Type 0 where
  pub m : ℕ
  pub tree : MerkleTree
  pub added : List Bytes

pub record MultisigFinalized : Type 0 where
  pub members_root : Bytes
  pub m : ℕ
  pub n : ℕ
  pub commitments : List Bytes
  pub tree : MerkleTree

pub record MultisigStateSnapshot : Type 0 where
  pub program_id : Bytes
  pub create_key : Bytes
  pub members_root : Bytes
  pub m : ℕ
  pub n : ℕ
  pub proposal_count : ℕ
  pub state_pda : Bytes

-- `self.added.contains(&commitment)`
unfoldable pub contains : List Bytes → Bytes → Bool
contains [] c = false
contains (x ∷ xs) c = bytes_eq x c || contains xs c

-- `iter().position(|c| c == commitment)`
unfoldable pub position_of : List Bytes → Bytes → Option ℕ
position_of [] c = none
position_of (x ∷ xs) c =
    let rest = position_of xs c in
    if bytes_eq x c then some 0 else elim rest [ none ↦ none | some i ↦ some (suc i) ]

-- `add_member` on `&mut self`: the builder after the call, and its result.
unfoldable pub add_member : MultisigBuilder → Bytes → MultisigBuilder × Result SdkError (Unit {0})
add_member b commitment =
    if contains b.added commitment
    then (b, err duplicate_member)
    else let (tree', r) = insert b.tree commitment in
      (
        record b { added = b.added ++ (commitment ∷ []); tree = tree' },
        elim r [ ok _ ↦ ok tt | err _ ↦ err threshold_exceeds_members ],
      )

unfoldable pub member_index : MultisigFinalized → Bytes → Option ℕ
member_index f commitment = position_of f.commitments commitment

module _ (H : Hasher) where
  unfoldable pub new_builder : ℕ → MultisigBuilder
  new_builder m = record { m = m; tree = Merkle.new H; added = [] }

  unfoldable pub finalize : MultisigBuilder → Result SdkError MultisigFinalized
  finalize b = do
    n ← if ltb (length b.added) (2 ^ 32) then ok (length b.added) else err threshold_exceeds_members
    fail_if (b.m == 0 || n == 0) invalid_threshold
    fail_if (ltb (length b.added) b.m) (insufficient_members b.m n)
    fail_if (ltb n b.m) threshold_exceeds_members
    ok (record {
      members_root = root H b.tree;
      m = b.m;
      n = n;
      commitments = b.added;
      tree = b.tree;
    })

  unfoldable pub merkle_proof : MultisigFinalized → Bytes → Result SdkError MerkleProof
  merkle_proof f commitment = do
    index ← ok_or (member_index f commitment) session_status_mismatch
    elim (proof H f.tree index) [ ok p ↦ ok p | err _ ↦ err merkle_proof_invalid ]

  unfoldable pub snapshot :
      Bytes → Bytes → Bytes → ℕ → ℕ → ℕ → Result SdkError MultisigStateSnapshot
  snapshot program_id create_key members_root m n proposal_count = ok (record {
    program_id = program_id;
    create_key = create_key;
    members_root = members_root;
    m = m;
    n = n;
    proposal_count = proposal_count;
    state_pda = derive_multisig_state_pda H program_id create_key;
  })

  unfoldable pub derive_proposal_id : MultisigStateSnapshot → ℕ → Bytes → Bytes → Bytes
  derive_proposal_id s index action_bytes target_program =
      Proof.derive_proposal_id H (from_u64 deployment_chain_id_u64) s.state_pda index action_bytes
        target_program
