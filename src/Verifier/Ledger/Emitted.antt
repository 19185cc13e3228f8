-- ===== src/Verifier/Ledger/Emitted.antt =====
-- The calls that the steps of a multisig make: the handlers other than `execute` of
-- methods/guest/src/bin/private_multisig.rs call nothing.
use private_m_of_n_multisig.Common.{
  ◌≤◌, ◌≡◌, ◌⊎◌, inl, inr, refl, sym, subst, ap, ◌∙◌, false, true, some, List, [], ◌∷◌, ◌++◌, take,
  Bool-cases,
}
use private_m_of_n_multisig.Common.Bytes.{Bytes, bytes_eq, bytes_eq_iff, bytes_ne_of_eq}
use private_m_of_n_multisig.Crypto.Hash.{Hasher}
use private_m_of_n_multisig.Core.State.{MultisigState, Proposal}
use private_m_of_n_multisig.Verifier.Platform.{ChainedCall, SpelOutput, Platform}
use private_m_of_n_multisig.Verifier.Handlers.{reject, output, vault_call}
use private_m_of_n_multisig.Verifier.Create.{create_multisig-Creates, create_vault_iff}
use private_m_of_n_multisig.Verifier.Propose.{propose-Proposes}
use private_m_of_n_multisig.Verifier.Approve.{approve-Approves}
use private_m_of_n_multisig.Verifier.Execute.{execute-Executes}
use private_m_of_n_multisig.Verifier.Ledger.{
  Ledger, write, commit, Event, voted, executed_at, other, held, state_at, proposal_at, vault_at,
  Step, create_step, vault_step, propose_step, approve_step, execute_step, reject_step, Run, start,
  then_step, meanwhile, output_of, calls,
}
use private_m_of_n_multisig.Verifier.Ledger.Writes.{unwrap, unwrap_ok, write_same, write_other}
use private_m_of_n_multisig.Verifier.Ledger.Settings.{Kept, Clash, Run-Kept}

module _ (P : Platform) (H : Hasher) (program_id create_key : Bytes) (b0 : MultisigState) where
  -- What executing the proposal at `b` requires of the ledger `M` before the step, makes of it in
  -- `N`, and calls. The account at `b` holds a proposal that is pending and has m approvals or
  -- more. It is the same with the executed flag set afterwards, or `b` is also the vault's address.
  pub record Executed (M : Ledger) (b : Bytes) (N : Ledger) (made : List ChainedCall) : Type 0 where
    pub proposal_data : Bytes
    pub proposal_body : Proposal
    pub vault_data : Bytes
    pub found : M b ≡ some proposal_data
    pub reads : P.proposals.from_slice proposal_data ≡ some proposal_body
    pub vault_found : M (vault_at P H program_id create_key) ≡ some vault_data
    pub pending : proposal_body.executed ≡ false
    pub threshold_met : b0.m ≤ proposal_body.approvals_count
    pub called :
        made
        ≡ vault_call P H
            (held P H program_id create_key (vault_at P H program_id create_key) vault_data)
            create_key
            proposal_body
          ∷ []
    pub flagged :
        ((d : Bytes) × (N b ≡ some d)
          × (P.proposals.from_slice d ≡ some (record proposal_body { executed = true })))
        ⊎ (b ≡ vault_at P H program_id create_key)

  -- What a step may call: nothing, unless it is an execution.
  abbrev pub Calls : Ledger → Event → Ledger → List ChainedCall → Type 0
  Calls M (executed_at b) N made = Executed M b N made
  Calls M other N made = made ≡ []
  Calls M (voted b nullifier) N made = made ≡ []

  -- The calls of a run: what its last step calls on the ledgers around it, then those before.
  abbrev pub Emitted :
      {L N : Ledger} {events : List Event}
      → Run P H program_id create_key L events N
      → List ChainedCall
      → Type 0
  Emitted start made = made ≡ []
  Emitted {N = N} (then_step {e = e} {M = M} before step) made =
      (last : List ChainedCall) × (rest : List ChainedCall) × (made ≡ last ++ rest)
      × Calls M e N last
      × Emitted before rest
  Emitted (meanwhile before _) made = Emitted before made

  Step-Calls :
      (M N : Ledger) (e : Event) (step : Step P H program_id create_key M e N)
      → Kept P H program_id create_key b0 M
      → Calls M e N (output_of P H program_id create_key step).chained_calls
  unfolding reject
  Step-Calls M N e (create_step creator root m n out gone ran) kept =
      let x = create_multisig-Creates P _ creator create_key root m n out ran in
      ap (λ (o : SpelOutput). o.chained_calls) x.written
  Step-Calls M N e (vault_step sb payer out there gone ran) kept =
      let written = ((create_vault_iff P _ _ payer create_key out).0 ran).1 in
      ap (λ (o : SpelOutput). o.chained_calls) written
  Step-Calls M N e (propose_step sb proposer index action target out small there gone ran) kept =
      let x = propose-Proposes P _ _ proposer create_key index action target out ran in
      ap (λ (o : SpelOutput). o.chained_calls) x.written
  Step-Calls M N e
        (approve_step sb pb submitter index nullifier inputs out small there here gone ran) kept =
      let x = approve-Approves P H _ _ _ submitter create_key index nullifier inputs out ran in
      ap (λ (o : SpelOutput). o.chained_calls) x.written
  Step-Calls M N e (execute_step sb pb vb submitter index out small there here funds ran) kept =
      let x = execute-Executes P H _ _ _ submitter create_key index out ran in
      let is_state : x.state_body ≡ kept.body = unwrap (
        sym x.state_read ∙ ap P.states.from_slice (unwrap (sym there ∙ kept.found)) ∙ kept.reads) in
      let threshold : x.state_body.m ≡ b0.m =
        ap (λ (r : MultisigState). r.m) (is_state ∙ kept.same) in
      let b = proposal_at P H program_id create_key index in
      let vault = vault_at P H program_id create_key in
      let state = state_at P H program_id create_key in
      record {
        proposal_data = pb;
        proposal_body = x.proposal_body;
        vault_data = vb;
        found = here;
        reads = x.proposal_read;
        vault_found = funds;
        pending = x.pending;
        threshold_met = subst (λ k. k ≤ x.proposal_body.approvals_count) threshold x.threshold_met;
        called = ap (λ (o : SpelOutput). o.chained_calls) x.written;
        flagged = elim (Bool-cases (bytes_eq b vault)) [
          | inl same ↦ inr ((bytes_eq_iff b vault).0 same)
          | inr differ ↦ inl (
            x.proposal_data,
            ap (λ (o : SpelOutput). commit (take 3 o.accounts) M b) x.written
                ∙ write_other (write (write M state sb) b x.proposal_data) b vault vb
                    (bytes_ne_of_eq b vault differ)
                ∙ write_same (write M state sb) b x.proposal_data,
            x.flagged,
          )
        ];
      }
  Step-Calls M N e (reject_step sb rejector out there ran) kept =
      let written : output
            (held P H program_id create_key (state_at P H program_id create_key) sb ∷ rejector ∷ [])
            []
          ≡ out =
        unwrap_ok ran in
      ap (λ (o : SpelOutput). o.chained_calls) (sym written)

  -- From a ledger whose state account holds a threshold m, take any steps of the multisig, and
  -- anything between them that leaves the multisig's accounts as they are. The calls that these
  -- steps make are one for each execution among them, in the same order. Just before it, the
  -- executed proposal's account holds a proposal that is not executed and has m approvals or more,
  -- and the call is to that proposal's target, of its action, on the multisig's authorized vault as
  -- the ledger holds it. Just after, the account holds the same proposal with the executed flag
  -- set, unless its address is the vault's. No other step makes a call. Or the state account's
  -- address is that of the vault or of a proposal.
  pub calls-Emitted :
      (L N : Ledger) (events : List Event) (run : Run P H program_id create_key L events N)
      → Kept P H program_id create_key b0 L
      → Emitted run (calls P H program_id create_key run) ⊎ Clash P H program_id create_key
  calls-Emitted L N events start settled = inl refl
  calls-Emitted L N events (then_step before step) settled =
      elim (calls-Emitted L _ _ before settled) [
        | inr clash ↦ inr clash
        | inl w ↦ elim (Run-Kept P H program_id create_key b0 L _ _ settled before) [
          | inr clash ↦ inr clash
          | inl kept ↦ inl (_, _, refl, Step-Calls _ N _ step kept, w)
        ]
      ]
  calls-Emitted L N events (meanwhile before _) settled = calls-Emitted L _ events before settled
