-- ===== src/Tests/Sdk.antt =====
-- The SDK's builder, prover and sessions: the theorems applied.
use private_m_of_n_multisig.Common.{
  ◌≡◌, ◌⊎◌, refl, arith, true, false, some, [], ◌∷◌, ok, get_elem?,
}
use private_m_of_n_multisig.Crypto.Hash.{CollidesIn}
use private_m_of_n_multisig.Crypto.Identity as Identity
use private_m_of_n_multisig.Crypto.Identity.{Identity, IsIdentity, commitment}
use private_m_of_n_multisig.Crypto.Merkle.{MerkleProof, IsProof, verify_proof}
use private_m_of_n_multisig.Crypto.Merkle.Binding.{position, proof_inputs, slot_inputs}
use private_m_of_n_multisig.Core.Proof as Proof
use private_m_of_n_multisig.Core.Proof.{from_u64, deployment_chain_id_u64}
use private_m_of_n_multisig.Verifier.Handlers.{approve, approve_circuit_image_id}
use private_m_of_n_multisig.Verifier.Platform.{SpelOutput}
use private_m_of_n_multisig.Circuit.{main}
use private_m_of_n_multisig.Circuit.Soundness.{read_witness}
use private_m_of_n_multisig.Sdk.Builder.{add_member, merkle_proof}
use private_m_of_n_multisig.Sdk.Builder.Enrollment.{Adds, add_member-Adds}
use private_m_of_n_multisig.Sdk.Builder.Membership.{merkle_proof-verify_proof}
use private_m_of_n_multisig.Sdk.Prover.{proposal_id, public_inputs_bytes, nullifier, guest_stream}
use private_m_of_n_multisig.Sdk.Prover.EndToEnd.{approve-prover}
use private_m_of_n_multisig.Sdk.Prover.Authorization.{approve-member}
use private_m_of_n_multisig.Tests.Toy.{hasher, guest_env, platform}
use private_m_of_n_multisig.Tests.Scenario.{
  alice, alice-IsIdentity, members, builder, enrolled, finalized, finalize_lem, alice_not_zero,
  alice-IsProof, proof, snapshot, prover, prover_lem, root_size, create_key, action, target, state,
  state_body, proposal, proposal_body, other, approved,
}

add_member-Adds_example :
    Adds builder (commitment hasher alice) (add_member builder (commitment hasher alice))
add_member-Adds_example = add_member-Adds builder (commitment hasher alice)

merkle_proof-verify_proof_example :
    (p : MerkleProof) × (merkle_proof hasher finalized (commitment hasher alice) ≡ ok p)
    × IsProof p
    × (verify_proof hasher finalized.members_root (commitment hasher alice) p ≡ true)
merkle_proof-verify_proof_example =
    merkle_proof-verify_proof hasher 2 members builder finalized 0 (commitment hasher alice)
      enrolled finalize_lem refl alice_not_zero

approve-prover_example :
    (main hasher guest_env (guest_stream prover (proposal_id hasher prover))
      ≡ ok (public_inputs_bytes hasher prover))
    × ((out : SpelOutput) × (approve platform hasher state
            (proposal 0)
            other
            other
            create_key
            0
            (nullifier hasher prover)
            (public_inputs_bytes hasher prover)
          ≡ ok out)
        × (out.assumptions ≡ (approve_circuit_image_id, public_inputs_bytes hasher prover) ∷ []))
approve-prover_example =
    approve-prover hasher platform guest_env alice snapshot 0 action target proof prover state
      (proposal 0) other other create_key state_body (proposal_body 0 false) alice-IsIdentity
      (alice-IsProof.2) root_size prover_lem refl refl refl refl refl refl (omega arith) (_, refl)

approve-member_example :
    (i : Identity) × (q : MerkleProof) × (read_witness guest_env
        (guest_stream prover (proposal_id hasher prover))
      ≡ ok (i, q))
    × IsIdentity i
    × IsProof q
    × (verify_proof hasher state_body.members_root (commitment hasher i) q ≡ true)
    × (nullifier hasher prover
        ≡ Identity.nullifier hasher i.sk (
            Proof.derive_proposal_id hasher
              (from_u64 deployment_chain_id_u64)
              state.account_id
              0
              action
              target))
    × ((get_elem? members (position q.indices) ≡ some (commitment hasher i))
        ⊎ CollidesIn hasher
            (proof_inputs hasher (commitment hasher i) q)
            (slot_inputs hasher members (position q.indices)))
approve-member_example =
    approve-member hasher platform guest_env 2 members builder finalized
      (guest_stream prover (proposal_id hasher prover)) state (proposal 0) other other create_key 0
      (nullifier hasher prover) (public_inputs_bytes hasher prover) (approved.1.0) state_body
      (proposal_body 0 false) enrolled finalize_lem refl refl refl (approved.0) (approved.1.1)
