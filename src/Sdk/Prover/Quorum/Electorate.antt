-- ===== src/Sdk/Prover/Quorum/Electorate.antt =====
-- The members behind a proposal of a ledger: crates/sdk's enrolled commitments, the runs of the
-- approve circuit that the verifier program assumes, and the steps of its ledger.
use private_m_of_n_multisig.Common.{
  ℕ, ◌≤◌, ◌<◌, ◌^◌, ◌≡◌, ◌≢◌, ◌⊎◌, inl, inr, refl, sym, subst, ap, ◌∙◌, arith, true, false, some,
  List, [], ◌∷◌, ok, length, Bool-cases, ==_iff, ◌==◌,
}
use private_m_of_n_multisig.Common.Bytes.{Bytes, All, bytes_eq, bytes_eq_refl, bytes_eq_iff}
use private_m_of_n_multisig.Common.Pigeonhole.{AreDifferent}
use private_m_of_n_multisig.Crypto.Hash.{Hasher}
use private_m_of_n_multisig.Core.State.{MultisigState, Proposal}
use private_m_of_n_multisig.Core.Proof.{derive_proposal_id, from_u64, deployment_chain_id_u64}
use private_m_of_n_multisig.Circuit.{GuestEnv, main}
use private_m_of_n_multisig.Verifier.Platform.{AccountWithMetadata, SpelOutput, Platform}
use private_m_of_n_multisig.Verifier.Handlers.{approve_circuit_image_id, approve}
use private_m_of_n_multisig.Verifier.Approve.{approve-Approves}
use private_m_of_n_multisig.Verifier.Ledger.{
  Ledger, Event, voted, held, state_at, proposal_at, vault_at, entry_at, Step, create_step,
  vault_step, propose_step, approve_step, execute_step, reject_step, Run, start, then_step,
  meanwhile, output_of,
}
use private_m_of_n_multisig.Verifier.Ledger.Writes.{unwrap}
use private_m_of_n_multisig.Verifier.Ledger.Tally.{
  votes_at, executions_at, IsDistinct, Tallied, same_body,
}
use private_m_of_n_multisig.Verifier.Ledger.Votes.{IsOpened, tallied}
use private_m_of_n_multisig.Verifier.Ledger.Settings.{Kept, Clash, Run-Kept}
use private_m_of_n_multisig.Verifier.Ledger.Refinement.{
  Proceeds, opened, vote, run_it, Run-Proceeds,
}
use private_m_of_n_multisig.Sdk.Builder.{MultisigBuilder, MultisigFinalized, new_builder, finalize}
use private_m_of_n_multisig.Sdk.Builder.Enrollment.{enroll}
use private_m_of_n_multisig.Sdk.Prover.Quorum.Discharged.{AreDischarged, IsDischarged}
use private_m_of_n_multisig.Sdk.Prover.Quorum.{
  Approval, nullifiers, places, Placed, IsBroken, places_differ, same_length,
}

-- An execution has had m votes before.
quorum_met :
    (m : ℕ) (votes : List Bytes) (runs : ℕ) → Proceeds m votes runs → runs ≡ 1 → m ≤ length votes
quorum_met m votes runs (opened none) one = absurd (omega (arith, none, one))
quorum_met m (_ ∷ votes) runs (vote nullifier before _) one =
    omega (arith, quorum_met m votes runs before one)
quorum_met m votes runs (run_it _ _ _ met) one = met

module _ (P : Platform) (H : Hasher) (E : GuestEnv) (program_id create_key : Bytes) (index : ℕ)
    (L : Ledger)
    (not_state : proposal_at P H program_id create_key index ≢ state_at P H program_id create_key)
    (not_vault : proposal_at P H program_id create_key index ≢ vault_at P H program_id create_key)
    (fresh : IsOpened P L (proposal_at P H program_id create_key index)) (b0 : MultisigState)
    (settled : Kept P H program_id create_key b0 L) where
  -- Another index has the proposal's address, or the state account shares its address.
  abbrev pub Overlap : Type 0
  Overlap =
      ((j : ℕ) × (j < 2 ^ 64)
        × (j ≢ index)
        × (proposal_at P H program_id create_key j ≡ proposal_at P H program_id create_key index))
      ⊎ Clash P H program_id create_key

  -- The proposal's id, from its address, index, action and target.
  abbrev pub id : Bytes
  id =
      derive_proposal_id H (from_u64 deployment_chain_id_u64) (state_at P H program_id create_key)
        index fresh.body.action_bytes fresh.body.target_program

  -- Runs of the circuit that committed the votes for the proposal.
  abbrev pub Ballots : List Event → Type 0
  Ballots events =
      (xs : List (Approval H E b0.members_root id)) × (nullifiers H E b0.members_root id xs
        ≡ votes_at (proposal_at P H program_id create_key index) events)

  -- An approval of the proposal adds a run to those before.
  cast :
      (M : Ledger) (events : List Event) (sb pb nullifier inputs input : Bytes)
      (submitter : AccountWithMetadata) (out : SpelOutput)
      → Tallied P H program_id create_key
          (proposal_at P H program_id create_key index)
          not_state
          not_vault
          fresh.body
          M
          events
      → Kept P H program_id create_key b0 M
      → M (state_at P H program_id create_key) ≡ some sb
      → M (proposal_at P H program_id create_key index) ≡ some pb
      → approve P H
          (held P H program_id create_key (state_at P H program_id create_key) sb)
          (held P H program_id create_key (proposal_at P H program_id create_key index) pb)
          (held P H program_id create_key
            (entry_at P H program_id create_key
              (proposal_at P H program_id create_key index)
              nullifier)
            [])
          submitter
          create_key
          index
          nullifier
          inputs
        ≡ ok out
      → main H E input ≡ ok inputs
      → Ballots events
      → Ballots (voted (proposal_at P H program_id create_key index) nullifier ∷ events)
  unfolding votes_at
  cast M events sb pb nullifier inputs input submitter out w kept there here ran committed
        (xs, same) =
      let a = proposal_at P H program_id create_key index in
      let x = approve-Approves P H _ _ _ submitter create_key index nullifier inputs out ran in
      let is_state : x.state_body ≡ kept.body = unwrap (
        sym x.state_read ∙ ap P.states.from_slice (unwrap (sym there ∙ kept.found)) ∙ kept.reads) in
      let is_body =
        same_body P H program_id create_key a not_state not_vault fresh.body M events w a pb
          x.proposal_body refl here x.proposal_read in
      (
        record {
          input = input;
          journal = inputs;
          ran = committed;
          for_root =
              x.inputs_match.same_root
              ∙ ap (λ (r : MultisigState). r.members_root) (is_state ∙ kept.same);
          for_id =
              x.inputs_match.same_id
              ∙ ap
                  (λ (r : Proposal).
                    derive_proposal_id H (from_u64 deployment_chain_id_u64)
                      (state_at P H program_id create_key) index r.action_bytes r.target_program)
                  (is_body ∙ w.same);
        }
            ∷ xs,
        rw (bytes_eq_refl a) (
            ap (λ (v : Bytes). v ∷ nullifiers H E b0.members_root id xs)
              x.inputs_match.same_nullifier
            ∙ ap (λ (vs : List Bytes). nullifier ∷ vs) same),
      )

  Step-Ballots :
      (M N : Ledger) (e : Event) (events : List Event) (step : Step P H program_id create_key M e N)
      → Tallied P H program_id create_key
          (proposal_at P H program_id create_key index)
          not_state
          not_vault
          fresh.body
          M
          events
      → Kept P H program_id create_key b0 M
      → AreDischarged H E (output_of P H program_id create_key step).assumptions
      → Ballots events
      → Ballots (e ∷ events) ⊎ Overlap
  unfolding votes_at
  Step-Ballots M N e events (create_step _ _ _ _ _ _ _) w kept receipts xs = inl xs
  Step-Ballots M N e events (vault_step _ _ _ _ _ _) w kept receipts xs = inl xs
  Step-Ballots M N e events (propose_step _ _ _ _ _ _ _ _ _ _) w kept receipts xs = inl xs
  Step-Ballots M N e events
        (approve_step sb pb submitter j nullifier inputs out small there here gone ran) w kept
        receipts (xs, same) =
      let a = proposal_at P H program_id create_key index in
      let b = proposal_at P H program_id create_key j in
      let x = approve-Approves P H _ _ _ submitter create_key j nullifier inputs out ran in
      let one : AreDischarged H E ((approve_circuit_image_id, inputs) ∷ []) =
        subst (AreDischarged H E) (ap (λ (o : SpelOutput). o.assumptions) x.written) receipts in
      elim (Bool-cases (bytes_eq b a)) [
        | inr elsewhere ↦ inl (xs, rw elsewhere same)
        | inl equal ↦ elim (Bool-cases (j == index)) [
          | inr apart ↦ inr (
              inl (
                j,
                small,
                (λ q. absurd (let f : true ≡ false = sym ((==_iff j index).1 q) ∙ apart in cc)),
                (bytes_eq_iff b a).0 equal,
              ))
          | inl is_index ↦
              let q = (==_iff j index).0 is_index in
              inl (
                rw q (
                  cast M events sb pb nullifier inputs one.1.0 submitter out w kept there
                    (rw q at here) (rw q at ran) one.1.1 (xs, same)))
        ]
      ]
  Step-Ballots M N e events (execute_step _ _ _ _ _ _ _ _ _ _ _) w kept receipts xs = inl xs
  Step-Ballots M N e events (reject_step _ _ _ _ _) w kept receipts xs = inl xs

  Run-Ballots :
      (N : Ledger) (events : List Event) (run : Run P H program_id create_key L events N)
      → IsDischarged P H E program_id create_key run
      → Ballots events ⊎ Overlap
  unfolding votes_at
  Run-Ballots N events start d = inl ([], refl)
  Run-Ballots N events (then_step before step) d = elim (Run-Ballots _ _ before d.0) [
    | inr overlap ↦ inr overlap
    | inl xs ↦ elim (Run-Kept P H program_id create_key b0 L _ _ settled before) [
      | inr clash ↦ inr (inr clash)
      | inl kept ↦
          Step-Ballots _ N _ _ step
            (tallied P H program_id create_key (proposal_at P H program_id create_key index) L _ _
              not_state not_vault fresh index refl before)
            kept d.1 xs
    ]
  ]
  Run-Ballots N events (meanwhile before _) d = Run-Ballots _ events before d

  module _ (m : ℕ) (cs : List Bytes) (b : MultisigBuilder) (f : MultisigFinalized)
      (enrolled : enroll cs (new_builder H m) ≡ ok b) (frozen : finalize H b ≡ ok f)
      (same_root : b0.members_root ≡ f.members_root) where
    -- An executed proposal has had approvals of m different members, where its address and the
    -- state's are shared with none of the accounts that the steps touch.
    pub executed-by_members :
        (N : Ledger) (events : List Event) (run : Run P H program_id create_key L events N)
        → IsDischarged P H E program_id create_key run
        → executions_at (proposal_at P H program_id create_key index) events ≡ 1
        → ((xs : List (Approval H E b0.members_root id)) × (b0.m
              ≤ length (places H E b0.members_root id xs))
            × ((All (Placed H E b0.members_root id cs) xs
                  × AreDifferent (places H E b0.members_root id xs))
                ⊎ IsBroken H E b0.members_root id cs xs))
          ⊎ Overlap
    executed-by_members N events run d ran = elim (Run-Ballots N events run d) [
      | inr overlap ↦ inr overlap
      | inl (xs, same) ↦
          elim (Run-Proceeds P H program_id create_key (proposal_at P H program_id create_key index)
            L not_state not_vault fresh index refl b0 settled N events run) [
              | inr clash ↦ inr (inr clash)
              | inl p ↦
                  let w =
                    tallied P H program_id create_key (proposal_at P H program_id create_key index)
                      L N events not_state not_vault fresh index refl run in
                  inl (
                    xs,
                    omega (
                      arith,
                      quorum_met b0.m _ _ p ran,
                      ap length same,
                      same_length H E b0.members_root id xs,
                    ),
                    places_differ H E b0.members_root id m cs b f enrolled frozen same_root xs
                        (subst IsDistinct (sym same) w.distinct),
                  )
            ]
    ]
