-- ===== src/Verifier/Ledger/Refinement.antt =====
-- An abstract M-of-N proposal, and the ledger's steps as an implementation of it: the abstract
-- state is the nullifiers that voted and how often the proposal ran.
use private_m_of_n_multisig.Common.{
  ℕ, ◌≤◌, ◌≡◌, ◌≢◌, ◌⊎◌, inl, inr, refl, sym, ap, ◌∙◌, arith, some, List, [], ◌∷◌, ok, length,
  Bool-cases,
}
use private_m_of_n_multisig.Common.Bytes.{Bytes, All, bytes_eq, bytes_eq_iff}
use private_m_of_n_multisig.Crypto.Hash.{Hasher}
use private_m_of_n_multisig.Core.State.{MultisigState, Proposal}
use private_m_of_n_multisig.Verifier.Platform.{AccountWithMetadata, SpelOutput, Platform}
use private_m_of_n_multisig.Verifier.Handlers.{execute}
use private_m_of_n_multisig.Verifier.Execute.{execute-Executes}
use private_m_of_n_multisig.Verifier.Ledger.{
  Ledger, Event, voted, executed_at, held, state_at, proposal_at, vault_at, Step, create_step,
  vault_step, propose_step, approve_step, execute_step, reject_step, Run, start, then_step,
  meanwhile,
}
use private_m_of_n_multisig.Verifier.Ledger.Writes.{unwrap}
use private_m_of_n_multisig.Verifier.Ledger.Tally.{
  votes_at, executions_at, IsDistinct, flag, Tallied, same_body,
}
use private_m_of_n_multisig.Verifier.Ledger.Votes.{IsOpened, tallied}
use private_m_of_n_multisig.Verifier.Ledger.Settings.{Kept, Clash, Run-Kept}

-- What an M-of-N proposal may do: a nullifier that has not voted votes, at any time, and the
-- proposal runs once, when there are m votes or more.
pub data Proceeds (m : ℕ) : List Bytes → ℕ → Type 0 where
  opened : {runs : ℕ} → runs ≡ 0 → Proceeds m [] runs
  vote :
      {votes : List Bytes} {runs : ℕ} (nullifier : Bytes)
      → Proceeds m votes runs
      → All (λ v. v ≢ nullifier) votes
      → Proceeds m (nullifier ∷ votes) runs
  run_it :
      {votes : List Bytes} {runs runs' : ℕ}
      → Proceeds m votes runs
      → runs ≡ 0
      → runs' ≡ 1
      → m ≤ length votes
      → Proceeds m votes runs'

module _ (P : Platform) (H : Hasher) (program_id create_key a : Bytes) (L : Ledger)
    (not_state : a ≢ state_at P H program_id create_key)
    (not_vault : a ≢ vault_at P H program_id create_key) (fresh : IsOpened P L a) (index : ℕ)
    (own : a ≡ proposal_at P H program_id create_key index) (b0 : MultisigState)
    (settled : Kept P H program_id create_key b0 L) where
  -- What is known of the proposal after a run.
  tally :
      (N : Ledger) (events : List Event)
      → Run P H program_id create_key L events N
      → Tallied P H program_id create_key a not_state not_vault fresh.body N events
  tally N events run =
      tallied P H program_id create_key a L N events not_state not_vault fresh index own run

  vote_case :
      (b nullifier : Bytes) (events : List Event)
      → IsDistinct (votes_at a (voted b nullifier ∷ events))
      → Proceeds b0.m (votes_at a events) (executions_at a events)
      → Proceeds b0.m
          (votes_at a (voted b nullifier ∷ events))
          (executions_at a (voted b nullifier ∷ events))
  unfolding votes_at executions_at
  vote_case b nullifier events distinct p = elim (Bool-cases (bytes_eq b a)) [
    | inr elsewhere ↦ rw elsewhere p
    | inl here ↦
        let d : IsDistinct (nullifier ∷ votes_at a events) = rw here at distinct in
        rw here (vote nullifier p d.0)
  ]

  -- The proposal ran: its account was not executed, and had m votes under the state as it was kept.
  execute_case :
      (M : Ledger) (events : List Event) (b sb pb vb : Bytes) (index : ℕ)
      (submitter : AccountWithMetadata) (out : SpelOutput)
      → Tallied P H program_id create_key a not_state not_vault fresh.body M events
      → Kept P H program_id create_key b0 M
      → M (state_at P H program_id create_key) ≡ some sb
      → M b ≡ some pb
      → execute P H
          (held P H program_id create_key (state_at P H program_id create_key) sb)
          (held P H program_id create_key b pb)
          (held P H program_id create_key (vault_at P H program_id create_key) vb)
          submitter
          create_key
          index
        ≡ ok out
      → Proceeds b0.m (votes_at a events) (executions_at a events)
      → Proceeds b0.m
          (votes_at a (executed_at b ∷ events))
          (executions_at a (executed_at b ∷ events))
  unfolding votes_at executions_at
  execute_case M events b sb pb vb index submitter out w kept there here ran p =
      elim (Bool-cases (bytes_eq b a)) [
        | inr elsewhere ↦ rw elsewhere p
        | inl equal ↦
            let x = execute-Executes P H _ _ _ submitter create_key index out ran in
            let is_body =
              same_body P H program_id create_key a not_state not_vault fresh.body M events w b pb
                x.proposal_body ((bytes_eq_iff b a).0 equal) here x.proposal_read in
            let is_state : x.state_body ≡ kept.body = unwrap (
              sym x.state_read
              ∙ ap P.states.from_slice (unwrap (sym there ∙ kept.found))
              ∙ kept.reads) in
            let threshold : x.state_body.m ≡ b0.m =
              ap (λ (r : MultisigState). r.m) (is_state ∙ kept.same) in
            let count : x.proposal_body.approvals_count ≡ length (votes_at a events) =
              ap (λ (r : Proposal). r.approvals_count) is_body ∙ w.counted in
            let before : executions_at a events ≡ 0 =
              w.ran ∙ ap flag (ap (λ (r : Proposal). r.executed) (sym is_body) ∙ x.pending) in
            rw equal (
              run_it p before (omega (arith, before))
                (omega (arith, x.threshold_met, threshold, count)))
      ]

  Step-Proceeds :
      (M N : Ledger) (e : Event) (events : List Event)
      → Step P H program_id create_key M e N
      → Tallied P H program_id create_key a not_state not_vault fresh.body M events
      → Kept P H program_id create_key b0 M
      → IsDistinct (votes_at a (e ∷ events))
      → Proceeds b0.m (votes_at a events) (executions_at a events)
      → Proceeds b0.m (votes_at a (e ∷ events)) (executions_at a (e ∷ events))
  unfolding votes_at executions_at
  Step-Proceeds M N e events (create_step _ _ _ _ _ _ _) w kept distinct p = p
  Step-Proceeds M N e events (vault_step _ _ _ _ _ _) w kept distinct p = p
  Step-Proceeds M N e events (propose_step _ _ _ _ _ _ _ _ _ _) w kept distinct p = p
  Step-Proceeds M N e events (approve_step _ _ _ index nullifier _ _ _ _ _ _ _) w kept distinct p =
      vote_case (proposal_at P H program_id create_key index) nullifier events distinct p
  Step-Proceeds M N e events (execute_step sb pb vb submitter index out _ there here _ ran) w kept
        distinct p =
      execute_case M events (proposal_at P H program_id create_key index) sb pb vb index submitter
        out w kept there here ran p
  Step-Proceeds M N e events (reject_step _ _ _ _ _) w kept distinct p = p

  pub Run-Proceeds :
      (N : Ledger) (events : List Event)
      → Run P H program_id create_key L events N
      → Proceeds b0.m (votes_at a events) (executions_at a events) ⊎ Clash P H program_id create_key
  unfolding votes_at executions_at
  Run-Proceeds N events start = inl (opened refl)
  Run-Proceeds N events (then_step before step) = elim (Run-Proceeds _ _ before) [
    | inr clash ↦ inr clash
    | inl p ↦ elim (Run-Kept P H program_id create_key b0 L _ _ settled before) [
      | inr clash ↦ inr clash
      | inl kept ↦ inl (
          Step-Proceeds _ N _ _ step (tally _ _ before) kept
            (tally N events (then_step before step)).distinct p)
    ]
  ]
  Run-Proceeds N events (meanwhile before _) = Run-Proceeds _ events before

  -- From a ledger in which a proposal has just been opened, whose address is not that of the
  -- multisig's state or vault, and whose state account holds a threshold m, take any steps of the
  -- multisig, and anything between them that leaves the multisig's accounts as they are. What they
  -- do to the proposal is what an abstract m-of-n proposal may do: a nullifier that has not voted
  -- votes, and the proposal runs once, after m votes. The proposal's account then holds the
  -- abstract state: its count is the number of votes, its executed flag tells if it ran, and the
  -- action and target are those that were opened. Or the state account's address is that of the
  -- vault or of a proposal.
  pub proposal-Proceeds :
      (N : Ledger) (events : List Event)
      → Run P H program_id create_key L events N
      → ((d : Bytes) × (body : Proposal) × (N a ≡ some d)
          × (P.proposals.from_slice d ≡ some body)
          × (body.approvals_count ≡ length (votes_at a events))
          × (executions_at a events ≡ flag body.executed)
          × (body.action_bytes ≡ fresh.body.action_bytes)
          × (body.target_program ≡ fresh.body.target_program)
          × Proceeds b0.m (votes_at a events) (executions_at a events))
        ⊎ Clash P H program_id create_key
  proposal-Proceeds N events run = elim (Run-Proceeds N events run) [
    | inr clash ↦ inr clash
    | inl p ↦
        let w = tally N events run in
        inl (
          w.data_at,
          w.body,
          w.found,
          w.reads,
          w.counted,
          w.ran,
          ap (λ (r : Proposal). r.action_bytes) w.same,
          ap (λ (r : Proposal). r.target_program) w.same,
          p,
        )
  ]
