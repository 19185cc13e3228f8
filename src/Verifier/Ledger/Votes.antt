-- ===== src/Verifier/Ledger/Votes.antt =====
-- What the steps of a ledger make of one proposal: its count of approvals is the number of distinct
-- nullifiers accepted for it, and it is executed at most once.
use private_m_of_n_multisig.Common.{
  ℕ, ◌≤◌, ◌≡◌, ◌≢◌, refl, sym, subst, ap, ◌∙◌, false, some, List, [], ◌∷◌, ok, length,
}
use private_m_of_n_multisig.Common.Bytes.{Bytes}
use private_m_of_n_multisig.Crypto.Hash.{Hasher}
use private_m_of_n_multisig.Core.State.{MultisigState, Proposal}
use private_m_of_n_multisig.Verifier.Platform.{AccountWithMetadata, SpelOutput, Platform}
use private_m_of_n_multisig.Verifier.Handlers.{vault_call, execute}
use private_m_of_n_multisig.Verifier.Storage.{Holds}
use private_m_of_n_multisig.Verifier.Execute.{execute-Executes}
use private_m_of_n_multisig.Verifier.Ledger.{
  Ledger, Event, held, state_at, proposal_at, vault_at, Run,
}
use private_m_of_n_multisig.Verifier.Ledger.Tally.{
  votes_at, executions_at, IsDistinct, flag, flag_bound, Tallied, same_body,
}
use private_m_of_n_multisig.Verifier.Ledger.Steps.{run_keeps}

-- A proposal that has just been opened: no approval, not executed.
pub record IsOpened (P : Platform) (L : Ledger) (a : Bytes) : Type 0 where
  pub data_at : Bytes
  pub body : Proposal
  pub found : L a ≡ some data_at
  pub reads : P.proposals.from_slice data_at ≡ some body
  pub no_approval : body.approvals_count ≡ 0
  pub pending : body.executed ≡ false

module _ (P : Platform) (H : Hasher) (program_id create_key a : Bytes) (L N : Ledger)
    (events : List Event) (not_state : a ≢ state_at P H program_id create_key)
    (not_vault : a ≢ vault_at P H program_id create_key) (opened : IsOpened P L a) (index : ℕ)
    (own : a ≡ proposal_at P H program_id create_key index)
    (run : Run P H program_id create_key L events N) where
  pub tallied : Tallied P H program_id create_key a not_state not_vault opened.body N events
  unfolding votes_at executions_at
  tallied =
      run_keeps P H program_id create_key a not_state not_vault opened.body L N events index own
        (record {
          data_at = opened.data_at;
          body = opened.body;
          found = opened.found;
          reads = opened.reads;
          same = refl;
          counted = opened.no_approval;
          ran = sym (ap flag opened.pending);
          entries = tt;
          distinct = tt;
        })
        run

  -- From a ledger in which a proposal has just been opened, after any steps of its multisig, in any
  -- order and on any of its proposals, and anything between them that leaves the multisig's
  -- accounts as they are: the proposal's account still decodes, its count of approvals is the
  -- number of nullifiers that were accepted for it, and no nullifier was accepted twice. It is
  -- asked that the proposal's address is not that of the multisig's state or vault.
  pub approvals_count-votes_at :
      (d : Bytes) × (body : Proposal) × (N a ≡ some d)
      × (P.proposals.from_slice d ≡ some body)
      × (body.approvals_count ≡ length (votes_at a events))
      × IsDistinct (votes_at a events)
  approvals_count-votes_at =
      let w = tallied in (w.data_at, w.body, w.found, w.reads, w.counted, w.distinct)

  -- From a ledger in which a proposal has just been opened, whose address is not that of the
  -- multisig's state or vault, any steps of the multisig, and anything between them that leaves the
  -- multisig's accounts as they are execute the proposal at most once.
  pub executions_at-le-one : executions_at a events ≤ 1
  executions_at-le-one =
      let w = tallied in flag_bound (executions_at a events) w.body.executed w.ran

  -- From a ledger in which a proposal has just been opened, whose address is not that of the
  -- multisig's state or vault, take any steps of the multisig, and anything between them that
  -- leaves the multisig's accounts as they are. If `execute` then succeeds on the proposal's
  -- account as it stands, at least m different nullifiers were accepted for it, where m is the
  -- threshold that the given state account holds, it was not executed before, and the one call that
  -- it makes is that of the action and target that were opened.
  pub execute-threshold :
      (state vault submitter : AccountWithMetadata) (d : Bytes) (index : ℕ) (out : SpelOutput)
      → N a ≡ some d
      → execute P H state (held P H program_id create_key a d) vault submitter create_key index
        ≡ ok out
      → (state_body : MultisigState) × Holds P.states state state_body
        × (state_body.m ≤ length (votes_at a events))
        × IsDistinct (votes_at a events)
        × (executions_at a events ≡ 0)
        × (out.chained_calls ≡ vault_call P H vault create_key opened.body ∷ [])
  execute-threshold state vault submitter d index out here ran =
      let w = tallied in
      let x =
        execute-Executes P H state (held P H program_id create_key a d) vault submitter create_key
          index out ran in
      let same =
        same_body P H program_id create_key a not_state not_vault opened.body N events w a d
          x.proposal_body refl here x.proposal_read in
      let count : x.proposal_body.approvals_count ≡ length (votes_at a events) =
        ap (λ (r : Proposal). r.approvals_count) same ∙ w.counted in
      let fresh : w.body.executed ≡ false =
        ap (λ (r : Proposal). r.executed) (sym same) ∙ x.pending in
      (
        x.state_body,
        x.state_read,
        subst (λ n. x.state_body.m ≤ n) count x.threshold_met,
        w.distinct,
        w.ran ∙ ap flag fresh,
        ap (λ (o : SpelOutput). o.chained_calls) x.written
            ∙ ap (λ (r : Proposal). vault_call P H vault create_key r ∷ []) (same ∙ w.same),
      )
