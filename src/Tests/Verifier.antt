-- ===== src/Tests/Verifier.antt =====
-- The handlers, applied to the two-member multisig and its proposal.
use private_m_of_n_multisig.Common.{
  ◌≤◌, ◌≡◌, ◌↔◌, refl, arith, true, false, [], ◌∷◌, ok, err, replicate, if◌then◌else◌,
}
use private_m_of_n_multisig.Common.Bytes.{Bytes}
use private_m_of_n_multisig.Core.Errors.{invalid_threshold, already_executed, threshold_not_met}
use private_m_of_n_multisig.Core.State.{MultisigState, validate_threshold, validate_action_bytes}
use private_m_of_n_multisig.Sdk.Prover.{public_inputs_bytes, nullifier}
use private_m_of_n_multisig.Sdk.Prover.EndToEnd.{public_inputs_bytes-Matches}
use private_m_of_n_multisig.Verifier.Platform.{AccountWithMetadata, SpelOutput}
use private_m_of_n_multisig.Verifier.Handlers.{
  fail, output, vault_call, create_multisig, propose, execute,
}
use private_m_of_n_multisig.Verifier.Create.{fresh_state, create_multisig_iff}
use private_m_of_n_multisig.Verifier.Propose.{Proposes, fresh_proposal, propose-Proposes}
use private_m_of_n_multisig.Verifier.Approve.{Approves, Matches, approve-Approves}
use private_m_of_n_multisig.Verifier.Execute.{Executes, execute-Executes, execute_rejects}
use private_m_of_n_multisig.Tests.Toy.{hasher, platform, state_bytes, proposal_bytes}
use private_m_of_n_multisig.Tests.Scenario.{
  create_key, action, target, prover, state_body, proposal_body, state, proposal, other, approved,
  root_size,
}

abbrev root : Bytes
root = replicate 32 1

abbrev created : SpelOutput
created =
    output (record other { body = state_bytes (fresh_state create_key root 2 3) } ∷ other ∷ []) []

created_lem : create_multisig platform other other create_key root 2 3 ≡ ok created
unfolding create_multisig validate_threshold
created_lem = refl

create_multisig_iff_example :
    ((create_multisig platform other other create_key root 4 3 ≡ err (fail invalid_threshold))
      ↔ (¬ ((1 ≤ 4) × (4 ≤ 3))))
    × (((out : SpelOutput) × (create_multisig platform other other create_key root 4 3 ≡ ok out))
        ↔ ((1 ≤ 4) × (4 ≤ 3)))
create_multisig_iff_example = create_multisig_iff platform other other create_key root 4 3 (_, refl)

abbrev plain_body : MultisigState
plain_body = fresh_state create_key root 2 3

abbrev plain : AccountWithMetadata
plain = record other { body = state_bytes plain_body }

abbrev proposed : SpelOutput
proposed =
    output
      (record plain { body = state_bytes (record plain_body { proposal_count = 1 }) }
        ∷ record other { body = proposal_bytes (fresh_proposal action target) }
        ∷ other
        ∷ [])
      []

proposed_lem : propose platform plain other other create_key 0 action target ≡ ok proposed
unfolding propose validate_action_bytes
proposed_lem = refl

propose-Proposes_example : Proposes platform plain other other 0 action target proposed
propose-Proposes_example =
    propose-Proposes platform plain other other create_key 0 action target proposed proposed_lem

abbrev inputs : Bytes
inputs = public_inputs_bytes hasher prover

approve-Approves_example :
    Approves platform hasher state
      (proposal 0)
      other
      other
      0
      (nullifier hasher prover)
      inputs
      (approved.1.0)
approve-Approves_example =
    approve-Approves platform hasher state (proposal 0) other other create_key 0
      (nullifier hasher prover) inputs (approved.1.0) (approved.1.1)

-- What Alice's inputs must match.
alice-Matches :
    Matches hasher state state_body (proposal_body 0 false) 0 (nullifier hasher prover) inputs
alice-Matches =
    public_inputs_bytes-Matches hasher prover state state_body (proposal_body 0 false) root_size
      refl refl refl refl

abbrev executed : SpelOutput
executed =
    output
      (plain
        ∷ record (proposal 2) { body = proposal_bytes (proposal_body 2 true) }
        ∷ other
        ∷ other
        ∷ [])
      (vault_call platform hasher other create_key (proposal_body 2 false) ∷ [])

executed_lem : execute platform hasher plain (proposal 2) other other create_key 0 ≡ ok executed
unfolding execute
executed_lem = refl

execute-Executes_example :
    Executes platform hasher plain (proposal 2) other other create_key executed
execute-Executes_example =
    execute-Executes platform hasher plain (proposal 2) other other create_key 0 executed
      executed_lem

execute_rejects_example :
    execute platform hasher plain (proposal 1) other other create_key 0
    ≡ err (fail (if false then already_executed else threshold_not_met))
execute_rejects_example =
    execute_rejects platform hasher plain (proposal 1) other other create_key 0 plain_body
      (proposal_body 1 false) refl refl (λ p. absurd (omega (arith, p.1)))
