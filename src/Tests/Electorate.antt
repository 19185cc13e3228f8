-- ===== src/Tests/Electorate.antt =====
-- The votes of Alice and Bob traced back to them, and the one call that their run makes.
use private_m_of_n_multisig.Common.{◌≤◌, ◌≡◌, ◌⊎◌, refl, arith, false, List, [], length}
use private_m_of_n_multisig.Common.Bytes.{Bytes, All, bytes_eq, to_le_bytes}
use private_m_of_n_multisig.Core.Proof as Proof
use private_m_of_n_multisig.Core.Proof.{from_u64, deployment_chain_id_u64}
use private_m_of_n_multisig.Core.Pda.{
  derive_pda, derive_multisig_state_pda, derive_proposal_pda, derive_vault_pda,
}
use private_m_of_n_multisig.Verifier.Ledger.{Ledger, Run, calls}
use private_m_of_n_multisig.Verifier.Ledger.Tally.{executions_at}
use private_m_of_n_multisig.Verifier.Ledger.Votes.{IsOpened}
use private_m_of_n_multisig.Verifier.Ledger.Settings.{Kept}
use private_m_of_n_multisig.Common.Pigeonhole.{AreDifferent}
use private_m_of_n_multisig.Sdk.Prover.Quorum.{Approval, places, Placed, IsBroken}
use private_m_of_n_multisig.Sdk.Prover.Quorum.Discharged.{IsDischarged}
use private_m_of_n_multisig.Sdk.Prover.Quorum.Verdict.{IsShared, executed-by_quorum}
use private_m_of_n_multisig.Sdk.Prover.Quorum.Progress.{quorum_executes}
use private_m_of_n_multisig.Tests.Toy.{hasher, guest_env, platform, state_bytes, proposal_bytes}
use private_m_of_n_multisig.Tests.Scenario.{
  members, builder, enrolled, finalized, finalize_lem, create_key, action, target, state_body,
  proposal_body,
}
use private_m_of_n_multisig.Verifier.Ledger.Settings.{Clash}
use private_m_of_n_multisig.Verifier.Ledger.Emitted.{Emitted, calls-Emitted}
use private_m_of_n_multisig.Tests.Turnout.{
  program_id, state, proposal, before, slips, ready, no_entries, entries_apart, storable, events,
  not_state, not_vault, vault_not_state,
}

opened : IsOpened platform before proposal
unfolding bytes_eq to_le_bytes derive_multisig_state_pda derive_proposal_pda derive_vault_pda
    derive_pda
opened = record {
  data_at = proposal_bytes (proposal_body 0 false);
  body = proposal_body 0 false;
  found = refl;
  reads = refl;
  no_approval = refl;
  pending = refl;
}

settled : Kept platform hasher program_id create_key state_body before
unfolding bytes_eq to_le_bytes derive_multisig_state_pda derive_proposal_pda derive_vault_pda
    derive_pda
settled = record {
  data_at = state_bytes state_body;
  body = state_body;
  found = refl;
  reads = refl;
  same = refl;
  grown = omega arith;
}

carried :
    (N : Ledger) × (run : Run platform hasher program_id create_key before events N) × IsDischarged
      platform hasher guest_env program_id create_key run
carried =
    let (N, run, _, receipts, _, _, _, _) =
      quorum_executes platform hasher guest_env program_id create_key 0 (state_bytes state_body) []
        state_body (proposal_body 0 false) (omega arith) not_state not_vault vault_not_state refl
        before slips ready no_entries entries_apart (omega arith) (omega arith) storable in
    (N, run, receipts)

ran_once : executions_at proposal events ≡ 1
unfolding executions_at bytes_eq to_le_bytes derive_proposal_pda derive_pda
ran_once = refl

abbrev id : Bytes
id = Proof.derive_proposal_id hasher (from_u64 deployment_chain_id_u64) state 0 action target

executed-by_quorum_example :
    ((xs : List (Approval hasher guest_env finalized.members_root id)) × (2
        ≤ length (places hasher guest_env finalized.members_root id xs))
      × ((All (Placed hasher guest_env finalized.members_root id members) xs
            × AreDifferent (places hasher guest_env finalized.members_root id xs))
          ⊎ IsBroken hasher guest_env finalized.members_root id members xs))
    ⊎ IsShared platform hasher guest_env program_id create_key refl
unfolding opened
executed-by_quorum_example =
    executed-by_quorum platform hasher guest_env program_id create_key refl 0 (omega arith) before
      opened state_body settled 2 members builder finalized enrolled finalize_lem refl carried.0
      events carried.1 carried.2 ran_once

calls-Emitted_example :
    Emitted platform hasher program_id create_key state_body carried.1
      (calls platform hasher program_id create_key carried.1)
    ⊎ Clash platform hasher program_id create_key
calls-Emitted_example =
    calls-Emitted platform hasher program_id create_key state_body before carried.0 events carried.1
      settled
