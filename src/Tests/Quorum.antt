-- ===== src/Tests/Quorum.antt =====
-- Alice and Bob approve the same proposal.
use private_m_of_n_multisig.Common.{
  ◌≤◌, ◌≡◌, ◌⊎◌, refl, ap, arith, List, [], ◌∷◌, Result, ok, err, length, get_or,
}
use private_m_of_n_multisig.Common.Bytes.{Bytes, bytes_eq, to_le_bytes}
use private_m_of_n_multisig.Crypto.Hash.{hash_leaf, hash_node}
use private_m_of_n_multisig.Crypto.Identity as Identity
use private_m_of_n_multisig.Crypto.Identity.{commitment}
use private_m_of_n_multisig.Crypto.Merkle as Merkle
use private_m_of_n_multisig.Crypto.Merkle.{MerkleProof, insert}
use private_m_of_n_multisig.Core.Pda.{derive_pda, derive_multisig_state_pda}
use private_m_of_n_multisig.Core.Proof as Proof
use private_m_of_n_multisig.Core.Proof.{from_u64, to_bytes, from_bytes}
use private_m_of_n_multisig.Circuit.{main, read_directions, read_direction, read_siblings}
use private_m_of_n_multisig.Verifier.Ledger.Tally.{IsDistinct}
use private_m_of_n_multisig.Sdk.Errors.{SdkError}
use private_m_of_n_multisig.Sdk.Builder.{
  contains, add_member, new_builder, merkle_proof, member_index, position_of, derive_proposal_id,
}
use private_m_of_n_multisig.Sdk.Prover as Prover
use private_m_of_n_multisig.Sdk.Prover.{
  ApprovalProver, proposal_id, public_inputs_bytes, guest_stream,
}
use private_m_of_n_multisig.Sdk.Prover.Quorum.{Approval, nullifiers, IsBroken, quorum-le-members}
use private_m_of_n_multisig.Tests.Toy.{hasher, guest_env}
use private_m_of_n_multisig.Tests.Scenario.{
  alice, bob, members, builder, enrolled, finalized, finalize_lem, prover,
}
use private_m_of_n_multisig.Crypto.Identity.{Identity}

abbrev proof_in : Result SdkError MerkleProof → MerkleProof
proof_in (ok p) = p
proof_in (err e) = record { siblings = []; indices = [] }

abbrev prover_for : Identity → ApprovalProver
prover_for i =
    let p = proof_in (merkle_proof hasher finalized (commitment hasher i)) in
    record prover {
      sk = i.sk;
      salt = i.salt;
      siblings_flat = p.siblings;
      directions_flat = p.indices;
    }

abbrev id : Bytes
id = proposal_id hasher prover

abbrev ApprovalOf : Identity → Type 0
ApprovalOf i =
    main hasher guest_env (guest_stream (prover_for i) id)
    ≡ ok (public_inputs_bytes hasher (prover_for i))

alice_ran : ApprovalOf alice
unfolding add_member contains new_builder insert Merkle.new bytes_eq commitment merkle_proof
    member_index position_of Merkle.proof Merkle.verify_proof Merkle.climb Merkle.path hash_node
    Merkle.root Merkle.node_at hash_leaf Merkle.zero_hashes_from to_le_bytes
    derive_multisig_state_pda derive_pda Proof.derive_proposal_id from_u64 to_bytes
    Identity.nullifier derive_proposal_id Prover.compute_nullifier Prover.guest_stream
    Prover.public_inputs Prover.public_inputs_bytes main read_directions read_direction
    read_siblings
alice_ran = refl

bob_ran : ApprovalOf bob
unfolding add_member contains new_builder insert Merkle.new bytes_eq commitment merkle_proof
    member_index position_of Merkle.proof Merkle.verify_proof Merkle.climb Merkle.path hash_node
    Merkle.root Merkle.node_at hash_leaf Merkle.zero_hashes_from to_le_bytes
    derive_multisig_state_pda derive_pda Proof.derive_proposal_id from_u64 to_bytes
    Identity.nullifier derive_proposal_id Prover.compute_nullifier Prover.guest_stream
    Prover.public_inputs Prover.public_inputs_bytes main read_directions read_direction
    read_siblings
bob_ran = refl

abbrev alice_journal : Bytes
alice_journal = public_inputs_bytes hasher (prover_for alice)

alice_inputs :
    ((from_bytes alice_journal).members_root ≡ finalized.members_root)
    × ((from_bytes alice_journal).proposal_id ≡ id)
unfolding add_member contains new_builder insert Merkle.new bytes_eq commitment merkle_proof
    member_index position_of Merkle.proof Merkle.verify_proof Merkle.climb Merkle.path hash_node
    Merkle.root Merkle.node_at hash_leaf Merkle.zero_hashes_from to_le_bytes
    derive_multisig_state_pda derive_pda Proof.derive_proposal_id from_u64 to_bytes
    Identity.nullifier derive_proposal_id Prover.compute_nullifier Prover.guest_stream
    Prover.public_inputs Prover.public_inputs_bytes main read_directions read_direction
    read_siblings from_bytes
alice_inputs = (refl, refl)

abbrev bob_journal : Bytes
bob_journal = public_inputs_bytes hasher (prover_for bob)

bob_inputs :
    ((from_bytes bob_journal).members_root ≡ finalized.members_root)
    × ((from_bytes bob_journal).proposal_id ≡ id)
unfolding add_member contains new_builder insert Merkle.new bytes_eq commitment merkle_proof
    member_index position_of Merkle.proof Merkle.verify_proof Merkle.climb Merkle.path hash_node
    Merkle.root Merkle.node_at hash_leaf Merkle.zero_hashes_from to_le_bytes
    derive_multisig_state_pda derive_pda Proof.derive_proposal_id from_u64 to_bytes
    Identity.nullifier derive_proposal_id Prover.compute_nullifier Prover.guest_stream
    Prover.public_inputs Prover.public_inputs_bytes main read_directions read_direction
    read_siblings from_bytes
bob_inputs = (refl, refl)

abbrev approvals : List (Approval hasher guest_env finalized.members_root id)
approvals =
    record {
      input = guest_stream (prover_for alice) id;
      journal = alice_journal;
      ran = alice_ran;
      for_root = alice_inputs.0;
      for_id = alice_inputs.1;
    }
    ∷ record {
      input = guest_stream (prover_for bob) id;
      journal = bob_journal;
      ran = bob_ran;
      for_root = bob_inputs.0;
      for_id = bob_inputs.1;
    }
    ∷ []

differ : IsDistinct (nullifiers hasher guest_env finalized.members_root id approvals)
unfolding add_member contains new_builder insert Merkle.new bytes_eq commitment merkle_proof
    member_index position_of Merkle.proof Merkle.verify_proof Merkle.climb Merkle.path hash_node
    Merkle.root Merkle.node_at hash_leaf Merkle.zero_hashes_from to_le_bytes
    derive_multisig_state_pda derive_pda Proof.derive_proposal_id from_u64 to_bytes
    Identity.nullifier derive_proposal_id Prover.compute_nullifier Prover.guest_stream
    Prover.public_inputs Prover.public_inputs_bytes main read_directions read_direction
    read_siblings from_bytes
differ = ((λ e. absurd (omega (arith, ap (λ (l : Bytes). get_or l 0 0) e)), tt), (tt, tt))

quorum-le-members_example :
    (length (nullifiers hasher guest_env finalized.members_root id approvals) ≤ length members)
    ⊎ IsBroken hasher guest_env finalized.members_root id members approvals
quorum-le-members_example =
    quorum-le-members hasher guest_env finalized.members_root id 2 members builder finalized
      enrolled finalize_lem refl approvals differ
