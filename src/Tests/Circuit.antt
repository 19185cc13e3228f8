-- ===== src/Tests/Circuit.antt =====
-- The circuit and the packing of its witness, applied to Alice's approval.
use private_m_of_n_multisig.Common.{◌≡◌, refl, ok, err, if◌then◌else◌, replicate}
use private_m_of_n_multisig.Common.Bytes.{Bytes}
use private_m_of_n_multisig.Crypto.Identity.{commitment, nullifier}
use private_m_of_n_multisig.Crypto.Merkle.{verify_proof}
use private_m_of_n_multisig.Core.Proof.{to_bytes}
use private_m_of_n_multisig.Circuit.{main, path_does_not_verify, pack_approve_witness}
use private_m_of_n_multisig.Circuit.RoundTrip.{main-pack_approve_witness}
use private_m_of_n_multisig.Circuit.Soundness.{Proved, main-Proved}
use private_m_of_n_multisig.Sdk.Prover.{proposal_id, public_inputs_bytes, guest_stream}
use private_m_of_n_multisig.Tests.Toy.{hasher, guest_env}
use private_m_of_n_multisig.Tests.Scenario.{
  alice, alice-IsIdentity, proof, alice-IsProof, snapshot, prover, root_size, approved,
}

abbrev id : Bytes
id = replicate 32 5

main-pack_approve_witness_example :
    main hasher guest_env (pack_approve_witness alice proof snapshot.members_root id) ≡ (
      if verify_proof hasher snapshot.members_root (commitment hasher alice) proof
      then ok (
          to_bytes (record {
            members_root = snapshot.members_root;
            proposal_id = id;
            nullifier = nullifier hasher alice.sk id;
          }))
      else err path_does_not_verify)
main-pack_approve_witness_example =
    main-pack_approve_witness hasher guest_env alice proof snapshot.members_root id alice-IsIdentity
      (alice-IsProof.2) root_size refl

main-Proved_example : Proved hasher (public_inputs_bytes hasher prover)
main-Proved_example =
    main-Proved hasher guest_env (guest_stream prover (proposal_id hasher prover))
      (public_inputs_bytes hasher prover) (approved.0)
