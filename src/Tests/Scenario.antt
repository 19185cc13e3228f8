-- ===== src/Tests/Scenario.antt =====
-- A multisig of two members with threshold 2, one proposal, and Alice's approval of it.
use private_m_of_n_multisig.Common.{
  ℕ, ◌≡◌, ◌≢◌, refl, ap, arith, Bool, true, false, none, List, [], ◌∷◌, ok, replicate, get_or,
  length,
}
use private_m_of_n_multisig.Common.Bytes.{Bytes, zeros, bytes_eq}
use private_m_of_n_multisig.Crypto.Hash.{hash_len, hash_leaf, hash_node}
use private_m_of_n_multisig.Crypto.Identity.{Identity, IsIdentity, commitment}
use private_m_of_n_multisig.Crypto.Merkle.{
  MerkleProof, IsProof, insert, new, node_at, root, verify_proof,
}
use private_m_of_n_multisig.Core.State.{MultisigState, Proposal}
use private_m_of_n_multisig.Core.Pda.{derive_multisig_state_pda}
use private_m_of_n_multisig.Circuit.{main}
use private_m_of_n_multisig.Verifier.Platform.{AccountWithMetadata, SpelOutput}
use private_m_of_n_multisig.Verifier.Handlers.{approve, approve_circuit_image_id}
use private_m_of_n_multisig.Sdk.Builder.{
  MultisigBuilder, MultisigFinalized, MultisigStateSnapshot, contains, add_member, new_builder,
  finalize, merkle_proof,
}
use private_m_of_n_multisig.Sdk.Builder.Enrollment.{enroll, frozen}
use private_m_of_n_multisig.Sdk.Builder.Membership.{merkle_proof-verify_proof}
use private_m_of_n_multisig.Sdk.Prover as Prover
use private_m_of_n_multisig.Sdk.Prover.{
  ApprovalProver, member_commitment, proposal_id, public_inputs_bytes, nullifier, guest_stream,
}
use private_m_of_n_multisig.Sdk.Prover.EndToEnd.{approve-prover}
use private_m_of_n_multisig.Tests.Toy.{hasher, guest_env, platform, state_bytes, proposal_bytes}

abbrev pub alice : Identity
alice = record { sk = replicate 32 1; salt = replicate 32 2 }

abbrev pub bob : Identity
bob = record { sk = replicate 32 3; salt = replicate 32 4 }

pub alice-IsIdentity : IsIdentity alice
alice-IsIdentity = record { sk_size = refl; salt_size = refl }

abbrev pub members : List Bytes
members = commitment hasher alice ∷ commitment hasher bob ∷ []

abbrev pub builder : MultisigBuilder
builder =
    (add_member (add_member (new_builder hasher 2) (commitment hasher alice)).0
      (commitment hasher bob)).0

pub enrolled : enroll members (new_builder hasher 2) ≡ ok builder
unfolding enroll add_member new_builder new insert contains bytes_eq commitment
enrolled = refl

abbrev pub finalized : MultisigFinalized
finalized = frozen hasher builder

pub finalize_lem : finalize hasher builder ≡ ok finalized
unfolding finalize add_member new_builder new insert contains bytes_eq commitment
finalize_lem = refl

pub alice_not_zero : commitment hasher alice ≢ zeros hash_len
unfolding commitment
alice_not_zero e = absurd (omega (arith, ap (λ (l : Bytes). get_or l 1 0) e))

pub alice-IsProof :
    (p : MerkleProof) × (merkle_proof hasher finalized (commitment hasher alice) ≡ ok p)
    × IsProof p
    × (verify_proof hasher finalized.members_root (commitment hasher alice) p ≡ true)
alice-IsProof =
    merkle_proof-verify_proof hasher 2 members builder finalized 0 (commitment hasher alice)
      enrolled finalize_lem refl alice_not_zero

abbrev pub proof : MerkleProof
proof = alice-IsProof.0

abbrev pub create_key : Bytes
create_key = replicate 32 21

abbrev pub action : Bytes
action = 1 ∷ 2 ∷ 3 ∷ []

abbrev pub target : Bytes
target = replicate 32 22

abbrev pub snapshot : MultisigStateSnapshot
snapshot = record {
  program_id = replicate 32 20;
  create_key = create_key;
  members_root = finalized.members_root;
  m = 2;
  n = 2;
  proposal_count = 1;
  state_pda = derive_multisig_state_pda hasher (replicate 32 20) create_key;
}

abbrev pub prover : ApprovalProver
prover = record {
  sk = alice.sk;
  salt = alice.salt;
  snapshot = snapshot;
  siblings_flat = proof.siblings;
  directions_flat = proof.indices;
  index = 0;
  action_bytes = action;
  target_program = target;
  receipt = none;
}

pub prover_lem : Prover.new hasher alice snapshot 0 action target proof ≡ ok prover
unfolding Prover.new member_commitment
prover_lem = rw (alice-IsProof.3) refl

abbrev pub account : Bytes → Bytes → AccountWithMetadata
account id body = record {
  account_id = id;
  program_owner = replicate 32 20;
  body = body;
  is_authorized = false;
}

abbrev pub state_body : MultisigState
state_body = record {
  create_key = create_key;
  members_root = finalized.members_root;
  m = 2;
  n = 2;
  proposal_count = 1;
}

abbrev pub proposal_body : ℕ → Bool → Proposal
proposal_body count done = record {
  action_bytes = action;
  target_program = target;
  approvals_count = count;
  executed = done;
}

abbrev pub state : AccountWithMetadata
state = account snapshot.state_pda (state_bytes state_body)

-- The proposal account after `count` approvals.
abbrev pub proposal : ℕ → AccountWithMetadata
proposal count = account (replicate 32 24) (proposal_bytes (proposal_body count false))

abbrev pub other : AccountWithMetadata
other = account (replicate 32 25) []

pub root_size : length snapshot.members_root ≡ hash_len
unfolding root node_at hash_leaf hash_node new insert new_builder add_member contains bytes_eq
    commitment
root_size = refl

pub approved :
    (main hasher guest_env (guest_stream prover (proposal_id hasher prover))
      ≡ ok (public_inputs_bytes hasher prover))
    × ((out : SpelOutput) × (approve platform hasher state
            (proposal 0)
            other
            other
            create_key
            0
            (nullifier hasher prover)
            (public_inputs_bytes hasher prover)
          ≡ ok out)
        × (out.assumptions ≡ (approve_circuit_image_id, public_inputs_bytes hasher prover) ∷ []))
approved =
    approve-prover hasher platform guest_env alice snapshot 0 action target proof prover state
      (proposal 0) other other create_key state_body (proposal_body 0 false) alice-IsIdentity
      (alice-IsProof.2) root_size prover_lem refl refl refl refl refl refl (omega arith) (_, refl)
