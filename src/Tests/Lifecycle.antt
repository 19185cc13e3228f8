-- ===== src/Tests/Lifecycle.antt =====
-- The multisig of Alice and Bob from an empty ledger to the execution of its first proposal.
use private_m_of_n_multisig.Common.{
  ℕ, ◌≡◌, ◌≤◌, ok, length, ◌++◌, refl, ap, arith, true, false, some, none, [], ◌∷◌, get_or,
}
use private_m_of_n_multisig.Common.Bytes.{Bytes, All, bytes_eq, to_le_bytes}
use private_m_of_n_multisig.Crypto.Identity as Identity
use private_m_of_n_multisig.Crypto.Hash.{hash_node}
use private_m_of_n_multisig.Crypto.Merkle.{root, node_at, insert, new}
use private_m_of_n_multisig.Sdk.Builder.{add_member, contains, new_builder}
use private_m_of_n_multisig.Core.State.{MultisigState}
use private_m_of_n_multisig.Core.Proof as Proof
use private_m_of_n_multisig.Core.Proof.{from_u64}
use private_m_of_n_multisig.Core.Pda.{
  derive_pda, derive_multisig_state_pda, derive_proposal_pda, derive_vault_pda,
  derive_nullifier_entry_pda,
}
use private_m_of_n_multisig.Verifier.Handlers.{encode, vault_call}
use private_m_of_n_multisig.Verifier.Storage.{IsStorable}
use private_m_of_n_multisig.Verifier.Ledger.{Ledger, executed_at, other, held, Run, calls, IsAlone}
use private_m_of_n_multisig.Sdk.Prover.Quorum.Discharged.{IsDischarged}
use private_m_of_n_multisig.Sdk.Prover.Quorum.Progress.{votes}
use private_m_of_n_multisig.Sdk.Prover.Quorum.Lifecycle.{
  IsFree, AreDistinct, IsVacant, state_body, slips, members_carry,
}
use private_m_of_n_multisig.Tests.Toy.{hasher, guest_env, platform, state_bytes}
use private_m_of_n_multisig.Tests.Scenario.{
  members, builder, enrolled, finalized, finalize_lem, create_key, action, target, proposal_body,
}
use private_m_of_n_multisig.Tests.Turnout.{
  program_id, proposal, vault, voters, not_state, not_vault, vault_not_state, storable,
}

abbrev empty : Ledger
empty = λ _. none

vacant :
    IsVacant platform hasher guest_env program_id create_key action target 2 members builder
      finalized enrolled finalize_lem
      (omega arith)
      empty
vacant = record {
  no_state = refl;
  no_vault = refl;
  no_proposal = refl;
  vault_apart = vault_not_state;
  proposal_apart = not_state;
  proposal_vault = not_vault;
}

free :
    All
      (IsFree platform hasher guest_env program_id create_key action target 2 members builder
        finalized enrolled finalize_lem
        (omega arith)
        empty)
      voters
unfolding to_le_bytes derive_multisig_state_pda derive_proposal_pda derive_vault_pda
    derive_nullifier_entry_pda derive_pda Proof.derive_proposal_id from_u64 Identity.nullifier
free = (
  record {
    absent = refl;
    not_state = λ e. absurd (omega (arith, ap (λ (l : Bytes). get_or l 0 0) e));
    not_vault = λ e. absurd (omega (arith, ap (λ (l : Bytes). get_or l 0 0) e));
    not_proposal = λ e. absurd (omega (arith, ap (λ (l : Bytes). get_or l 0 0) e));
  },
  (
    record {
      absent = refl;
      not_state = λ e. absurd (omega (arith, ap (λ (l : Bytes). get_or l 0 0) e));
      not_vault = λ e. absurd (omega (arith, ap (λ (l : Bytes). get_or l 0 0) e));
      not_proposal = λ e. absurd (omega (arith, ap (λ (l : Bytes). get_or l 0 0) e));
    },
    tt,
  ),
)

distinct :
    AreDistinct platform hasher guest_env program_id create_key action target 2 members builder
      finalized enrolled finalize_lem
      (omega arith)
      voters
unfolding to_le_bytes derive_multisig_state_pda derive_proposal_pda derive_nullifier_entry_pda
    derive_pda Proof.derive_proposal_id from_u64 Identity.nullifier
distinct = ((λ e. absurd (omega (arith, ap (λ (l : Bytes). get_or l 0 0) e)), tt), (tt, tt))

abbrev body : ℕ → MultisigState
body count =
    state_body platform hasher guest_env program_id create_key action target 2 members builder
      finalized enrolled finalize_lem (omega arith) count

encode_lem :
    (count : ℕ) → encode platform platform.states (body count) ≡ ok (state_bytes (body count))
unfolding root node_at add_member contains new_builder bytes_eq Identity.commitment insert new
    hash_node
encode_lem count = refl

threshold_met : finalized.m ≤ length voters
unfolding add_member contains new_builder bytes_eq Identity.commitment
threshold_met = omega arith

abbrev stored : (count : ℕ) → IsStorable platform platform.states (body count)
stored count = (state_bytes (body count), encode_lem count)

members_carry_example :
    (N : Ledger) × (run : Run platform hasher program_id create_key empty
      (executed_at proposal
        ∷ (votes platform hasher guest_env program_id create_key 0
              (state_bytes (body 1))
              []
              (body 1)
              (proposal_body 0 false)
              (slips platform hasher guest_env program_id create_key action target 2 members builder
                finalized enrolled finalize_lem
                (omega arith)
                (state_bytes (body 1))
                voters)
            ++ other ∷ other ∷ other ∷ []))
      N)
    × IsAlone platform hasher program_id create_key run
    × IsDischarged platform hasher guest_env program_id create_key run
    × (calls platform hasher program_id create_key run
        ≡ vault_call platform hasher
            (held platform hasher program_id create_key vault [])
            create_key
            (proposal_body 0 false)
          ∷ [])
    × (d : Bytes) × (N proposal ≡ some d)
    × (platform.proposals.from_slice d ≡ some (proposal_body 2 true))
members_carry_example =
    members_carry platform hasher guest_env program_id create_key action target 2 members builder
      finalized enrolled finalize_lem (omega arith) empty voters (stored 0) (stored 1) vacant free
      distinct threshold_met (omega arith) storable
