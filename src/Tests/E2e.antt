-- ===== src/Tests/E2e.antt =====
-- Program ids, and runs of the quickstart.
use private_m_of_n_multisig.Common.{
  ℕ, ◌⊎◌, ◌+◌, ◌≤◌, ◌≡◌, refl, arith, true, false, Option, some, none, List, [], ◌∷◌, Result, ok,
  err, length, replicate,
}
use private_m_of_n_multisig.Common.Bytes.{Bytes, bytes_eq, to_le_bytes}
use private_m_of_n_multisig.Crypto.Hash.{hash_leaf, hash_node}
use private_m_of_n_multisig.Sdk.Errors.{duplicate_member}
use private_m_of_n_multisig.Crypto.Identity.{commitment}
use private_m_of_n_multisig.Crypto.Merkle as Merkle
use private_m_of_n_multisig.Crypto.Merkle.{insert}
use private_m_of_n_multisig.Sdk.Keystore as Keystore
use private_m_of_n_multisig.Crypto.Identity as Identity
use private_m_of_n_multisig.Core.Pda.{derive_pda, derive_multisig_state_pda}
use private_m_of_n_multisig.Core.Proof as Proof
use private_m_of_n_multisig.Core.Proof.{from_u64, to_bytes}
use private_m_of_n_multisig.Circuit as Circuit
use private_m_of_n_multisig.Circuit.{read_directions, read_direction, read_siblings}
use private_m_of_n_multisig.Sdk.Builder.{
  contains, add_member, new_builder, finalize, snapshot, merkle_proof, member_index, position_of,
  derive_proposal_id,
}
use private_m_of_n_multisig.Sdk.Prover as Prover
use private_m_of_n_multisig.Sdk.Prover.{member_commitment}
use private_m_of_n_multisig.Sdk.Prover.Proving as Proving
use private_m_of_n_multisig.Verifier.Ledger.Tally.{IsDistinct}
use private_m_of_n_multisig.E2e.ProgramId.{program_id_to_core_bytes, image_id_to_account_id}
use private_m_of_n_multisig.E2e.Quickstart.{QuickError, run_layer_a, failed}
use private_m_of_n_multisig.E2e.Quickstart.Outcome.{is_inconsistent}
use private_m_of_n_multisig.E2e.Quickstart.Arguments.{Args, help_shown, parse, parse_args, main}
use private_m_of_n_multisig.E2e.Quickstart.Exit.{Collected, main-Collected}
use private_m_of_n_multisig.E2e.Quickstart.Runs.{run_layer_a-IsDistinct, run_layer_a_errors}
use private_m_of_n_multisig.Core.State.{Proposal}
use private_m_of_n_multisig.Verifier.Platform.{AccountWithMetadata, ChainedCall, SpelOutput}
use private_m_of_n_multisig.Verifier.Handlers.{output, vault_call, execute}
use private_m_of_n_multisig.E2e.Harness.Submitted.{execute-program_id}
use private_m_of_n_multisig.Tests.Scenario.{state_body}
use private_m_of_n_multisig.Tests.Toy.{hasher, guest_env, platform, state_bytes, proposal_bytes}
use private_m_of_n_multisig.Tests.Proving.{risc0}

abbrev noop_id : List ℕ
noop_id = 1 ∷ 2 ∷ 3 ∷ 4 ∷ 5 ∷ 6 ∷ 7 ∷ 4294967295 ∷ []

-- All members get the same random bytes.
abbrev stuck : ℕ → Option Bytes × Option Bytes
stuck i = (some (replicate 32 1), some (replicate 32 2))

duplicate :
    run_layer_a hasher guest_env risc0 none [] noop_id stuck 1 2 (1 ∷ [])
    ≡ err (failed duplicate_member)
unfolding run_layer_a Keystore.new add_member contains new_builder insert Merkle.new bytes_eq
    member_commitment commitment
duplicate = refl

run_layer_a_errors_example : is_inconsistent (failed duplicate_member) ≡ false
run_layer_a_errors_example =
    run_layer_a_errors hasher guest_env risc0 none [] noop_id stuck 1 2 (1 ∷ [])
      (failed duplicate_member) duplicate

-- Each member its own.
abbrev random : ℕ → Option Bytes × Option Bytes
random i = (some (replicate 32 (i + 1)), some (replicate 32 (i + 50)))

abbrev recorded : Result QuickError (List Bytes × ℕ) → List Bytes
recorded (ok (nullifiers, count)) = nullifiers
recorded (err e) = []

abbrev run : Result QuickError (List Bytes × ℕ)
run = run_layer_a hasher guest_env risc0 none [] noop_id random 2 2 (1 ∷ [])

run_succeeds : run ≡ ok (recorded run, 2)
unfolding run_layer_a Keystore.new add_member contains new_builder insert Merkle.new bytes_eq
    member_commitment commitment finalize snapshot merkle_proof member_index position_of
    Merkle.proof Prover.new Merkle.verify_proof Merkle.climb Merkle.path hash_node Merkle.root
    Merkle.node_at hash_leaf Merkle.zero_hashes_from Proving.prove Proving.prove_encoded to_le_bytes
    derive_multisig_state_pda derive_pda Proof.derive_proposal_id from_u64 to_bytes
    Identity.nullifier image_id_to_account_id derive_proposal_id Proving.run_risc0_prover
    Prover.compute_nullifier Prover.guest_stream Prover.nullifier Prover.public_inputs
    Prover.public_inputs_bytes Circuit.main read_directions read_direction read_siblings
run_succeeds = refl

run_layer_a-IsDistinct_example :
    (1 ≤ 2) × (2 ≤ 2) × (◌≡◌ {A = ℕ} 2 2) × (length (recorded run) ≡ 2) × IsDistinct (recorded run)
run_layer_a-IsDistinct_example =
    run_layer_a-IsDistinct hasher guest_env risc0 none [] noop_id random 2 2 (1 ∷ []) (recorded run)
      2 run_succeeds

-- A proposal for that program, with two approvals.
abbrev body : Proposal
body = record {
  action_bytes = 1 ∷ [];
  target_program = program_id_to_core_bytes noop_id;
  approvals_count = 2;
  executed = false;
}

abbrev account : Bytes → AccountWithMetadata
account bytes = record { account_id = []; program_owner = []; body = bytes; is_authorized = false }

abbrev out : SpelOutput
out =
    output
      (account (state_bytes state_body)
        ∷ account (proposal_bytes (record body { executed = true }))
        ∷ account []
        ∷ account []
        ∷ [])
      (vault_call platform hasher (account []) [] body ∷ [])

execute_lem :
    execute platform hasher
      (account (state_bytes state_body))
      (account (proposal_bytes body))
      (account [])
      (account [])
      []
      0
    ≡ ok out
unfolding execute program_id_to_core_bytes to_le_bytes
execute_lem = refl

body_read : platform.proposals.from_slice (proposal_bytes body) ≡ some body
unfolding program_id_to_core_bytes to_le_bytes
body_read = refl

execute-program_id_example :
    (call : ChainedCall) × (out.chained_calls ≡ call ∷ [])
    × (call.program_id ≡ noop_id)
    × (call.instruction_data ≡ platform.serde_to_vec (1 ∷ []))
execute-program_id_example =
    execute-program_id platform hasher (account (state_bytes state_body))
      (account (proposal_bytes body)) (account []) (account []) [] 0 out body noop_id refl
      (omega arith) body_read refl execute_lem

-- `-m 2 -n 2`
abbrev args : List Bytes
args = (b'-' ∷ b'm' ∷ []) ∷ (b'2' ∷ []) ∷ (b'-' ∷ b'n' ∷ []) ∷ (b'2' ∷ []) ∷ []

exit_zero : main hasher guest_env risc0 none [] noop_id random args ≡ 0
unfolding main parse_args parse run_layer_a Keystore.new add_member contains new_builder insert
    Merkle.new bytes_eq member_commitment commitment finalize snapshot merkle_proof member_index
    position_of Merkle.proof Prover.new Merkle.verify_proof Merkle.climb Merkle.path hash_node
    Merkle.root Merkle.node_at hash_leaf Merkle.zero_hashes_from Proving.prove Proving.prove_encoded
    to_le_bytes derive_multisig_state_pda derive_pda Proof.derive_proposal_id from_u64 to_bytes
    Identity.nullifier image_id_to_account_id derive_proposal_id Proving.run_risc0_prover
    Prover.compute_nullifier Prover.guest_stream Prover.nullifier Prover.public_inputs
    Prover.public_inputs_bytes Circuit.main read_directions read_direction read_siblings
exit_zero = refl

main-Collected_example :
    (parse_args args ≡ err help_shown)
    ⊎ ((a : Args) × (parse_args args ≡ ok a)
        × Collected hasher guest_env risc0 none [] noop_id random a)
main-Collected_example = main-Collected hasher guest_env risc0 none [] noop_id random args exit_zero
