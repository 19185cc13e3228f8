-- ===== src/Sdk/Prover.antt =====
-- sdk/src/prover.rs: the checks of `ApprovalProver::new`, the public inputs it gives, and the stream
-- that `run_risc0_prover` writes for the guest; sdk/src/member.rs: what a member shows of its
-- identity. A `Member` is its `Identity`. The prover itself, the ELF and the receipt are risc0's.
pub mod EndToEnd
pub mod Authorization
pub mod Proving
pub mod Flatten
pub mod Quorum
use private_m_of_n_multisig.Common.{
  ℕ, ◌≡◌, Bool, true, false, not, List, ◌++◌, map, Option, none, some, Result, ok, err, ◌>>=◌, ◌>>◌,
  fail_if, length, ltb, leb,
}
use private_m_of_n_multisig.Common.Bytes.{Bytes}
use private_m_of_n_multisig.Crypto.Hash.{Hasher}
use private_m_of_n_multisig.Crypto.Identity as Identity
use private_m_of_n_multisig.Crypto.Identity.{Identity, identity_nullifier}
use private_m_of_n_multisig.Crypto.Merkle.{MerkleProof, verify_proof}
use private_m_of_n_multisig.Core.State.{max_action_bytes_len}
use private_m_of_n_multisig.Core.Proof.{ApprovePublicInputs, to_bytes}
use private_m_of_n_multisig.Circuit.{bit_byte, flatten_siblings}
use private_m_of_n_multisig.Sdk.Errors.{
  SdkError, action_bytes_too_large, proposal_index_mismatch, merkle_proof_invalid,
}
use private_m_of_n_multisig.Sdk.Builder.{MultisigStateSnapshot, derive_proposal_id}

pub record ApprovalProver : Type 0 where
  pub sk : Bytes
  pub salt : Bytes
  pub snapshot : MultisigStateSnapshot
  pub siblings_flat : List Bytes
  pub directions_flat : List Bool
  pub index : ℕ
  pub action_bytes : Bytes
  pub target_program : Bytes
  pub receipt : Option Bytes

module _ (H : Hasher) where
  -- `Member::commitment` and `Member::nullifier`.
  unfoldable pub member_commitment : Identity → Bytes
  member_commitment member = Identity.commitment H member

  unfoldable pub member_nullifier : Identity → Bytes → Bytes
  member_nullifier member proposal_id = identity_nullifier H member proposal_id

  -- `flatten_proof`, which Flatten models, gives both arrays as they are.
  unfoldable pub new :
      Identity
      → MultisigStateSnapshot
      → ℕ
      → Bytes
      → Bytes
      → MerkleProof
      → Result SdkError ApprovalProver
  new member snapshot index action_bytes target_program merkle_proof = do
    fail_if (ltb max_action_bytes_len (length action_bytes)) action_bytes_too_large
    fail_if (leb snapshot.proposal_count index) proposal_index_mismatch
    fail_if (not (verify_proof H snapshot.members_root (member_commitment member) merkle_proof))
        merkle_proof_invalid
    ok (record {
      sk = member.sk;
      salt = member.salt;
      snapshot = snapshot;
      siblings_flat = merkle_proof.siblings;
      directions_flat = merkle_proof.indices;
      index = index;
      action_bytes = action_bytes;
      target_program = target_program;
      receipt = none;
    })

  unfoldable pub compute_nullifier : ApprovalProver → Bytes → Bytes
  compute_nullifier p proposal_id = Identity.nullifier H p.sk proposal_id

  -- The id that `prove`, `public_inputs` and `nullifier` each derive.
  abbrev pub proposal_id : ApprovalProver → Bytes
  proposal_id p = derive_proposal_id H p.snapshot p.index p.action_bytes p.target_program

  unfoldable pub public_inputs : ApprovalProver → ApprovePublicInputs
  public_inputs p = record {
    members_root = p.snapshot.members_root;
    proposal_id = proposal_id p;
    nullifier = compute_nullifier p (proposal_id p);
  }

  unfoldable pub public_inputs_bytes : ApprovalProver → Bytes
  public_inputs_bytes p = to_bytes (public_inputs p)

  unfoldable pub nullifier : ApprovalProver → Bytes
  nullifier p = compute_nullifier p (proposal_id p)

-- What `run_risc0_prover` writes, slice by slice, given the proposal id.
unfoldable pub guest_stream : ApprovalProver → Bytes → Bytes
guest_stream p id =
    (p.snapshot.members_root ++ id)
    ++ (p.sk ++ (p.salt ++ (flatten_siblings p.siblings_flat ++ map bit_byte p.directions_flat)))
