-- ===== src/Tests/Ledger.antt =====
-- A ledger with one open proposal, an approval of it, and the theorems on its votes.
use private_m_of_n_multisig.Common.{
  ℕ, ◌≤◌, ◌≡◌, ◌⊎◌, ◌≢◌, refl, ap, arith, Bool, true, false, some, none, [], ◌∷◌, ◌++◌, ok,
  replicate, get_or, length,
}
use private_m_of_n_multisig.Common.Bytes.{Bytes, bytes_eq, to_le_bytes}
use private_m_of_n_multisig.Core.State.{MultisigState, Proposal}
use private_m_of_n_multisig.Core.Proof as Proof
use private_m_of_n_multisig.Core.Proof.{from_u64, deployment_chain_id_u64}
use private_m_of_n_multisig.Core.Pda.{
  derive_pda, derive_multisig_state_pda, derive_proposal_pda, derive_vault_pda,
  derive_nullifier_entry_pda,
}
use private_m_of_n_multisig.Verifier.Platform.{AccountWithMetadata, SpelOutput}
use private_m_of_n_multisig.Verifier.Handlers.{
  approve_circuit_image_id, output, vault_call, approve, execute,
}
use private_m_of_n_multisig.Verifier.Storage.{Holds}
use private_m_of_n_multisig.Verifier.Ledger.{
  Ledger, write, commit, voted, held, state_at, proposal_at, vault_at, entry_at, approve_step, Run,
  start, then_step,
}
use private_m_of_n_multisig.Verifier.Ledger.Tally.{votes_at, executions_at, IsDistinct, flag}
use private_m_of_n_multisig.Verifier.Ledger.Votes.{IsOpened, execute-threshold}
use private_m_of_n_multisig.Verifier.Ledger.Settings.{Kept, Clash, Run-Kept}
use private_m_of_n_multisig.Verifier.Ledger.Refinement.{Proceeds, proposal-Proceeds}
use private_m_of_n_multisig.Tests.Toy.{hasher, platform, state_bytes, proposal_bytes}

abbrev program_id : Bytes
program_id = replicate 32 20

abbrev create_key : Bytes
create_key = replicate 32 21

abbrev action : Bytes
action = 1 ∷ 2 ∷ 3 ∷ []

abbrev target : Bytes
target = replicate 32 22

-- The threshold is 1.
abbrev state_body : MultisigState
state_body = record {
  create_key = create_key;
  members_root = replicate 32 1;
  m = 1;
  n = 2;
  proposal_count = 1;
}

abbrev proposal_body : ℕ → Bool → Proposal
proposal_body count done = record {
  action_bytes = action;
  target_program = target;
  approvals_count = count;
  executed = done;
}

abbrev state : Bytes
state = state_at platform hasher program_id create_key

abbrev proposal : Bytes
proposal = proposal_at platform hasher program_id create_key 0

abbrev vault : Bytes
vault = vault_at platform hasher program_id create_key

abbrev nullifier : Bytes
nullifier = replicate 32 5

abbrev entry : Bytes
entry = entry_at platform hasher program_id create_key proposal nullifier

abbrev before : Ledger
before =
    write (write (write (λ _. none) vault []) proposal (proposal_bytes (proposal_body 0 false)))
      state (state_bytes state_body)

abbrev inputs : Bytes
inputs =
    replicate 32 1
    ++ (Proof.derive_proposal_id hasher (from_u64 deployment_chain_id_u64) state 0 action target
        ++ nullifier)

abbrev signer : AccountWithMetadata
signer = record { account_id = replicate 32 9; program_owner = []; body = []; is_authorized = true }

abbrev account : Bytes → Bytes → AccountWithMetadata
account = held platform hasher program_id create_key

abbrev approved : SpelOutput
approved = record {
  accounts =
      account state (state_bytes state_body)
      ∷ account proposal (proposal_bytes (proposal_body 1 false))
      ∷ account entry []
      ∷ signer
      ∷ [];
  chained_calls = [];
  assumptions = (approve_circuit_image_id, inputs) ∷ [];
}

approve_lem :
    approve platform hasher
      (account state (state_bytes state_body))
      (account proposal (proposal_bytes (proposal_body 0 false)))
      (account entry [])
      signer
      create_key
      0
      nullifier
      inputs
    ≡ ok approved
unfolding approve bytes_eq to_le_bytes from_u64 Proof.derive_proposal_id derive_multisig_state_pda
    derive_pda
approve_lem = refl

abbrev after : Ledger
after =
    commit
      (account state (state_bytes state_body)
        ∷ account proposal (proposal_bytes (proposal_body 1 false))
        ∷ account entry []
        ∷ [])
      before

run : Run platform hasher program_id create_key before (voted proposal nullifier ∷ []) after
unfolding bytes_eq to_le_bytes derive_multisig_state_pda derive_proposal_pda derive_vault_pda
    derive_nullifier_entry_pda derive_pda
run = then_step start (
    approve_step (state_bytes state_body) (proposal_bytes (proposal_body 0 false)) signer 0
      nullifier inputs approved (omega arith) refl refl refl approve_lem)

not_state : proposal ≢ state
unfolding to_le_bytes derive_multisig_state_pda derive_proposal_pda derive_pda
not_state e = absurd (omega (arith, ap (λ (l : Bytes). get_or l 0 0) e))

not_vault : proposal ≢ vault
unfolding to_le_bytes derive_vault_pda derive_proposal_pda derive_pda
not_vault e = absurd (omega (arith, ap (λ (l : Bytes). get_or l 0 0) e))

opened : IsOpened platform before proposal
unfolding bytes_eq to_le_bytes derive_multisig_state_pda derive_proposal_pda derive_vault_pda
    derive_pda
opened = record {
  data_at = proposal_bytes (proposal_body 0 false);
  body = proposal_body 0 false;
  found = refl;
  reads = refl;
  no_approval = refl;
  pending = refl;
}

found_after : after proposal ≡ some (proposal_bytes (proposal_body 1 false))
unfolding bytes_eq to_le_bytes derive_multisig_state_pda derive_proposal_pda derive_vault_pda
    derive_nullifier_entry_pda derive_pda
found_after = refl

abbrev executed : SpelOutput
executed =
    output
      (account (replicate 32 1) (state_bytes state_body)
        ∷ account proposal (proposal_bytes (proposal_body 1 true))
        ∷ signer
        ∷ signer
        ∷ [])
      (vault_call platform hasher signer create_key (proposal_body 1 false) ∷ [])

execute_lem :
    execute platform hasher
      (account (replicate 32 1) (state_bytes state_body))
      (account proposal (proposal_bytes (proposal_body 1 false)))
      signer
      signer
      create_key
      0
    ≡ ok executed
unfolding execute
execute_lem = refl

execute-threshold_example :
    (body : MultisigState) × Holds platform.states
      (account (replicate 32 1) (state_bytes state_body))
      body
    × (body.m ≤ length (votes_at proposal (voted proposal nullifier ∷ [])))
    × IsDistinct (votes_at proposal (voted proposal nullifier ∷ []))
    × (executions_at proposal (voted proposal nullifier ∷ []) ≡ 0)
    × (executed.chained_calls
        ≡ vault_call platform hasher signer create_key (proposal_body 0 false) ∷ [])
unfolding opened
execute-threshold_example =
    execute-threshold platform hasher program_id create_key proposal before after
      (voted proposal nullifier ∷ []) not_state not_vault opened 0 refl run
      (account (replicate 32 1) (state_bytes state_body)) signer signer
      (proposal_bytes (proposal_body 1 false)) 0 executed found_after execute_lem

settled : Kept platform hasher program_id create_key state_body before
unfolding bytes_eq to_le_bytes derive_multisig_state_pda derive_proposal_pda derive_vault_pda
    derive_pda
settled = record {
  data_at = state_bytes state_body;
  body = state_body;
  found = refl;
  reads = refl;
  same = refl;
  grown = omega arith;
}

Run-Kept_example :
    Kept platform hasher program_id create_key state_body after
    ⊎ Clash platform hasher program_id create_key
Run-Kept_example =
    Run-Kept platform hasher program_id create_key state_body before after
      (voted proposal nullifier ∷ []) settled run

proposal-Proceeds_example :
    ((d : Bytes) × (body : Proposal) × (after proposal ≡ some d)
      × (platform.proposals.from_slice d ≡ some body)
      × (body.approvals_count ≡ length (votes_at proposal (voted proposal nullifier ∷ [])))
      × (executions_at proposal (voted proposal nullifier ∷ []) ≡ flag body.executed)
      × (body.action_bytes ≡ action)
      × (body.target_program ≡ target)
      × Proceeds 1
          (votes_at proposal (voted proposal nullifier ∷ []))
          (executions_at proposal (voted proposal nullifier ∷ [])))
    ⊎ Clash platform hasher program_id create_key
unfolding opened
proposal-Proceeds_example =
    proposal-Proceeds platform hasher program_id create_key proposal before not_state not_vault
      opened 0 refl state_body settled after (voted proposal nullifier ∷ []) run
