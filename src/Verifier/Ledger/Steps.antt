-- ===== src/Verifier/Ledger/Steps.antt =====
-- Every step of the ledger keeps the tally of a proposal.
use private_m_of_n_multisig.Common.{
  ℕ, ◌+◌, ◌≡◌, ◌≢◌, refl, sym, subst, ap, ◌∙◌, true, false, none, some, inl, inr, List, [], ◌∷◌,
  take, Bool-cases,
}
use private_m_of_n_multisig.Common.Bytes.{Bytes, bytes_eq, bytes_eq_iff, bytes_ne_of_eq}
use private_m_of_n_multisig.Crypto.Hash.{Hasher}
use private_m_of_n_multisig.Core.State.{Proposal}
use private_m_of_n_multisig.Verifier.Platform.{SpelOutput, Platform}
use private_m_of_n_multisig.Verifier.Handlers.{reject, output}
use private_m_of_n_multisig.Verifier.Create.{create_multisig-Creates, create_vault_iff}
use private_m_of_n_multisig.Verifier.Propose.{propose-Proposes}
use private_m_of_n_multisig.Verifier.Approve.{approve-Approves}
use private_m_of_n_multisig.Verifier.Execute.{execute-Executes}
use private_m_of_n_multisig.Verifier.Ledger.{
  Ledger, write, commit, Event, voted, executed_at, other, held, state_at, proposal_at, vault_at,
  entry_at, Step, create_step, vault_step, propose_step, approve_step, execute_step, reject_step,
  Run, start, then_step, meanwhile, own_proposal, own_entry,
}
use private_m_of_n_multisig.Verifier.Ledger.Writes.{
  Present, unwrap_ok, write_same, write_other, untouched, three_writes, commit-Present, apart,
}
use private_m_of_n_multisig.Verifier.Ledger.Tally.{
  votes_at, executions_at, Tallied, quiet, same_body, undisturbed, vote, run_once,
}

module _ (P : Platform) (H : Hasher) (program_id create_key a : Bytes)
    (not_state : a ≢ state_at P H program_id create_key)
    (not_vault : a ≢ vault_at P H program_id create_key) (first : Proposal) where
  approve_case :
      (L N : Ledger) (events : List Event) (b nullifier pb sb d : Bytes) (body : Proposal)
      (w : Tallied P H program_id create_key a not_state not_vault first L events)
      → L b ≡ some pb
      → L (entry_at P H program_id create_key b nullifier) ≡ none
      → P.proposals.from_slice pb ≡ some body
      → P.proposals.from_slice d ≡ some (record body { approvals_count = body.approvals_count + 1 })
      → N
        ≡ write
            (write (write L (state_at P H program_id create_key) sb) b d)
            (entry_at P H program_id create_key b nullifier)
            []
      → Tallied P H program_id create_key a not_state not_vault first N (voted b nullifier ∷ events)
  unfolding votes_at executions_at
  approve_case L N events b nullifier pb sb d body w here gone reads counted is_N =
      let entry = entry_at P H program_id create_key b nullifier in
      let state = state_at P H program_id create_key in
      let keeps : (x : Bytes) → Present L x → Present N x =
        λ x p. rw is_N (three_writes L state b entry sb d [] x p) in
      let not_entry : a ≢ entry = apart L a entry w.data_at w.found gone in
      elim (Bool-cases (bytes_eq b a)) [
        | inr differ ↦
            quiet P H program_id create_key a not_state not_vault first L N events
              (voted b nullifier ∷ events) w
              (ap (λ (M : Ledger). M a) is_N
                ∙ write_other (write (write L state sb) b d) a entry [] not_entry
                ∙ untouched L state b sb d not_state (λ e. bytes_ne_of_eq b a differ (sym e)))
              keeps (rw differ refl) refl
        | inl equal ↦
            let same = (bytes_eq_iff b a).0 equal in
            let is_body =
              same_body P H program_id create_key a not_state not_vault first L events w b pb body
                same here reads in
            subst
              (λ c.
                Tallied P H program_id create_key a not_state not_vault first N
                  (voted c nullifier ∷ events))
              (sym same)
              (vote P H program_id create_key a not_state not_vault first L N events nullifier d w
                (subst (λ c. L (entry_at P H program_id create_key c nullifier) ≡ none) same gone)
                (ap (λ (M : Ledger). M a) is_N
                  ∙ write_other (write (write L state sb) b d) a entry [] not_entry
                  ∙ ap (λ c. write (write L state sb) c d a) same
                  ∙ write_same (write L state sb) a d)
                (counted
                  ∙ ap
                      (λ (r : Proposal).
                        some (record r { approvals_count = r.approvals_count + 1 }))
                      is_body)
                keeps
                (subst (λ c. Present N (entry_at P H program_id create_key c nullifier)) same
                  (
                    [],
                    ap (λ (M : Ledger). M entry) is_N
                        ∙ write_same (write (write L state sb) b d) entry [],
                  )))
      ]

  execute_case :
      (L N : Ledger) (events : List Event) (b pb sb vb d : Bytes) (body : Proposal)
      (w : Tallied P H program_id create_key a not_state not_vault first L events)
      → L b ≡ some pb
      → P.proposals.from_slice pb ≡ some body
      → body.executed ≡ false
      → P.proposals.from_slice d ≡ some (record body { executed = true })
      → N
        ≡ write
            (write (write L (state_at P H program_id create_key) sb) b d)
            (vault_at P H program_id create_key)
            vb
      → Tallied P H program_id create_key a not_state not_vault first N (executed_at b ∷ events)
  unfolding votes_at executions_at
  execute_case L N events b pb sb vb d body w here reads pending flagged is_N =
      let vault = vault_at P H program_id create_key in
      let state = state_at P H program_id create_key in
      let keeps : (x : Bytes) → Present L x → Present N x =
        λ x p. rw is_N (three_writes L state b vault sb d vb x p) in
      elim (Bool-cases (bytes_eq b a)) [
        | inr differ ↦
            quiet P H program_id create_key a not_state not_vault first L N events
              (executed_at b ∷ events) w
              (ap (λ (M : Ledger). M a) is_N
                ∙ write_other (write (write L state sb) b d) a vault vb not_vault
                ∙ untouched L state b sb d not_state (λ e. bytes_ne_of_eq b a differ (sym e)))
              keeps refl (rw differ refl)
        | inl equal ↦
            let same = (bytes_eq_iff b a).0 equal in
            let is_body =
              same_body P H program_id create_key a not_state not_vault first L events w b pb body
                same here reads in
            subst
              (λ c.
                Tallied P H program_id create_key a not_state not_vault first N
                  (executed_at c ∷ events))
              (sym same)
              (run_once P H program_id create_key a not_state not_vault first L N events d w
                (ap (λ (r : Proposal). r.executed) (sym is_body) ∙ pending)
                (ap (λ (M : Ledger). M a) is_N
                  ∙ write_other (write (write L state sb) b d) a vault vb not_vault
                  ∙ ap (λ c. write (write L state sb) c d a) same
                  ∙ write_same (write L state sb) a d)
                (flagged ∙ ap (λ (r : Proposal). some (record r { executed = true })) is_body)
                keeps)
      ]

  Step-Tallied :
      (L N : Ledger) (e : Event) (events : List Event)
      → Step P H program_id create_key L e N
      → Tallied P H program_id create_key a not_state not_vault first L events
      → Tallied P H program_id create_key a not_state not_vault first N (e ∷ events)
  unfolding votes_at executions_at reject
  Step-Tallied L N e events (create_step creator root m n out gone ran) w =
      let x = create_multisig-Creates P _ creator create_key root m n out ran in
      quiet P H program_id create_key a not_state not_vault first L _ events (other ∷ events) w
        (rw x.written (write_other L a _ x.state_data not_state))
        (λ y. commit-Present (take 1 out.accounts) L y) refl refl
  Step-Tallied L N e events (vault_step sb payer out there gone ran) w =
      let written = ((create_vault_iff P _ _ payer create_key out).0 ran).1 in
      quiet P H program_id create_key a not_state not_vault first L _ events (other ∷ events) w
        (rw written (
          untouched L (state_at P H program_id create_key) (vault_at P H program_id create_key) _ _
            not_state not_vault))
        (λ y. commit-Present (take 2 out.accounts) L y) refl refl
  Step-Tallied L N e events (propose_step sb proposer index action target out small there gone ran)
        w =
      let x = propose-Proposes P _ _ proposer create_key index action target out ran in
      quiet P H program_id create_key a not_state not_vault first L _ events (other ∷ events) w
        (rw x.written (
          untouched L (state_at P H program_id create_key)
            (proposal_at P H program_id create_key index) _ _ not_state
            (apart L a _ _ w.found gone)))
        (λ y. commit-Present (take 2 out.accounts) L y) refl refl
  Step-Tallied L N e events
        (approve_step sb pb submitter index nullifier inputs out small there here gone ran) w =
      let x = approve-Approves P H _ _ _ submitter create_key index nullifier inputs out ran in
      approve_case L (commit (take 3 out.accounts) L) events
        (proposal_at P H program_id create_key index) nullifier pb sb x.proposal_data
        x.proposal_body w here gone x.proposal_read x.counted
        (ap (λ (o : SpelOutput). commit (take 3 o.accounts) L) x.written)
  Step-Tallied L N e events (execute_step sb pb vb submitter index out small there here vault ran)
        w =
      let x = execute-Executes P H _ _ _ submitter create_key index out ran in
      execute_case L (commit (take 3 out.accounts) L) events
        (proposal_at P H program_id create_key index) pb sb vb x.proposal_data x.proposal_body w
        here x.proposal_read x.pending x.flagged
        (ap (λ (o : SpelOutput). commit (take 3 o.accounts) L) x.written)
  Step-Tallied L N e events (reject_step sb rejector out there ran) w =
      let written : output
            (held P H program_id create_key (state_at P H program_id create_key) sb ∷ rejector ∷ [])
            []
          ≡ out =
        unwrap_ok ran in
      quiet P H program_id create_key a not_state not_vault first L _ events (other ∷ events) w
        (rw (sym written) (write_other L a _ sb not_state))
        (λ y. commit-Present (take 1 out.accounts) L y) refl refl

  pub run_keeps :
      (L N : Ledger) (events : List Event) (index : ℕ)
      → a ≡ proposal_at P H program_id create_key index
      → Tallied P H program_id create_key a not_state not_vault first L []
      → Run P H program_id create_key L events N
      → Tallied P H program_id create_key a not_state not_vault first N events
  run_keeps L N events index own w start = w
  run_keeps L N events index own w (then_step before step) =
      Step-Tallied _ N _ _ step (run_keeps L _ _ index own w before)
  run_keeps L N events index own w (meanwhile before apart_of) =
      undisturbed P H program_id create_key a not_state not_vault first _ N events
        (run_keeps L _ events index own w before) (apart_of a (own_proposal index own))
        (λ v.
          apart_of (entry_at P H program_id create_key a v)
            (own_entry index v (ap (λ x. entry_at P H program_id create_key x v) own)))
