-- ===== src/Verifier/Ledger/Settings.antt =====
-- The state account of the multisig through the steps of a ledger.
use private_m_of_n_multisig.Common.{
  ℕ, ◌+◌, ◌≤◌, ◌<◌, ◌^◌, ◌≡◌, ◌≢◌, ◌⊎◌, inl, inr, refl, sym, ap, ◌∙◌, arith, none, some, List, [],
  ◌∷◌, take, Bool-cases,
}
use private_m_of_n_multisig.Common.Bytes.{Bytes, bytes_eq, bytes_eq_iff, bytes_ne_of_eq}
use private_m_of_n_multisig.Crypto.Hash.{Hasher}
use private_m_of_n_multisig.Core.State.{MultisigState}
use private_m_of_n_multisig.Verifier.Platform.{SpelOutput, Platform}
use private_m_of_n_multisig.Verifier.Handlers.{reject, output}
use private_m_of_n_multisig.Verifier.Create.{create_vault_iff}
use private_m_of_n_multisig.Verifier.Propose.{propose-Proposes}
use private_m_of_n_multisig.Verifier.Approve.{approve-Approves}
use private_m_of_n_multisig.Verifier.Execute.{execute-Executes}
use private_m_of_n_multisig.Verifier.Ledger.{
  Ledger, write, commit, Event, held, state_at, proposal_at, vault_at, entry_at, Step, create_step,
  vault_step, propose_step, approve_step, execute_step, reject_step, Run, start, then_step,
  meanwhile, own_state,
}
use private_m_of_n_multisig.Verifier.Ledger.Writes.{unwrap, write_same, write_other, apart}

module _ (P : Platform) (H : Hasher) (program_id create_key : Bytes) where
  -- The state account exists and holds the body it had, but for a count of proposals that may be
  -- higher.
  pub record Kept (b0 : MultisigState) (L : Ledger) : Type 0 where
    pub data_at : Bytes
    pub body : MultisigState
    pub found : L (state_at P H program_id create_key) ≡ some data_at
    pub reads : P.states.from_slice data_at ≡ some body
    pub same : body ≡ record b0 { proposal_count = body.proposal_count }
    pub grown : b0.proposal_count ≤ body.proposal_count

  -- The state account shares its address with the vault or with a proposal.
  abbrev pub Clash : Type 0
  Clash =
      (vault_at P H program_id create_key ≡ state_at P H program_id create_key)
      ⊎ ((index : ℕ) × (index < 2 ^ 64)
          × (proposal_at P H program_id create_key index ≡ state_at P H program_id create_key))

  -- Writing the state account's own bytes, then two others.
  rewritten :
      (L N : Ledger) (sb : Bytes) (b d c e : Bytes)
      → N ≡ write (write (write L (state_at P H program_id create_key) sb) b d) c e
      → b ≢ state_at P H program_id create_key
      → c ≢ state_at P H program_id create_key
      → N (state_at P H program_id create_key) ≡ some sb
  rewritten L N sb b d c e is_N hb hc =
      let state = state_at P H program_id create_key in
      ap (λ (M : Ledger). M state) is_N
      ∙ write_other (write (write L state sb) b d) state c e (λ q. hc (sym q))
      ∙ write_other (write L state sb) state b d (λ q. hb (sym q))
      ∙ write_same L state sb

  stays :
      (b0 : MultisigState) (L N : Ledger) (sb : Bytes) (w : Kept b0 L)
      → L (state_at P H program_id create_key) ≡ some sb
      → N (state_at P H program_id create_key) ≡ some sb
      → Kept b0 N
  stays b0 L N sb w here there = record {
    data_at = w.data_at;
    body = w.body;
    found = there ∙ sym here ∙ w.found;
    reads = w.reads;
    same = w.same;
    grown = w.grown;
  }

  Step-Kept :
      (b0 : MultisigState) (L N : Ledger) (e : Event)
      → Step P H program_id create_key L e N
      → Kept b0 L
      → Kept b0 N ⊎ Clash
  unfolding reject
  Step-Kept b0 L N e (create_step creator root m n out gone ran) w =
      absurd (let q : some w.data_at ≡ none = sym w.found ∙ gone in cc)
  Step-Kept b0 L N e (vault_step sb payer out there gone ran) w =
      let state = state_at P H program_id create_key in
      let vault = vault_at P H program_id create_key in
      let written = ((create_vault_iff P _ _ payer create_key out).0 ran).1 in
      let apart_of = apart L state vault sb there gone in
      inl (
        stays b0 L _ sb w there (
          ap (λ (o : SpelOutput). commit (take 2 o.accounts) L state) written
          ∙ write_other (write L state sb) state vault [] apart_of
          ∙ write_same L state sb))
  Step-Kept b0 L N e (propose_step sb proposer index action target out small there gone ran) w =
      let state = state_at P H program_id create_key in
      let proposal = proposal_at P H program_id create_key index in
      let x = propose-Proposes P _ _ proposer create_key index action target out ran in
      let is_body : x.body ≡ w.body =
        unwrap (sym x.read ∙ ap P.states.from_slice (unwrap (sym there ∙ w.found)) ∙ w.reads) in
      inl (record {
        data_at = x.state_data;
        body = record x.body { proposal_count = index + 1 };
        found =
            ap (λ (o : SpelOutput). commit (take 2 o.accounts) L state) x.written
            ∙ write_other (write L state x.state_data) state proposal x.proposal_data
                (apart L state proposal sb there gone)
            ∙ write_same L state x.state_data;
        reads = x.counted;
        same =
            ap (λ (r : MultisigState). record r { proposal_count = index + 1 }) (is_body ∙ w.same);
        grown =
            omega
              (arith, w.grown, x.next_index, ap (λ (r : MultisigState). r.proposal_count) is_body);
      })
  Step-Kept b0 L N e
        (approve_step sb pb submitter index nullifier inputs out small there here gone ran) w =
      let state = state_at P H program_id create_key in
      let b = proposal_at P H program_id create_key index in
      let entry = entry_at P H program_id create_key b nullifier in
      let x = approve-Approves P H _ _ _ submitter create_key index nullifier inputs out ran in
      elim (Bool-cases (bytes_eq b state)) [
        | inl equal ↦ inr (inr (index, small, (bytes_eq_iff b state).0 equal))
        | inr differ ↦ inl (
            stays b0 L _ sb w there (
              rewritten L _ sb b x.proposal_data entry []
                (ap (λ (o : SpelOutput). commit (take 3 o.accounts) L) x.written)
                (bytes_ne_of_eq b state differ) (λ q. apart L state entry sb there gone (sym q))))
      ]
  Step-Kept b0 L N e (execute_step sb pb vb submitter index out small there here funds ran) w =
      let state = state_at P H program_id create_key in
      let b = proposal_at P H program_id create_key index in
      let vault = vault_at P H program_id create_key in
      let x = execute-Executes P H _ _ _ submitter create_key index out ran in
      elim (Bool-cases (bytes_eq b state)) [
        | inl equal ↦ inr (inr (index, small, (bytes_eq_iff b state).0 equal))
        | inr differ ↦ elim (Bool-cases (bytes_eq vault state)) [
          | inl equal ↦ inr (inl ((bytes_eq_iff vault state).0 equal))
          | inr away ↦ inl (
              stays b0 L _ sb w there (
                rewritten L _ sb b x.proposal_data vault vb
                  (ap (λ (o : SpelOutput). commit (take 3 o.accounts) L) x.written)
                  (bytes_ne_of_eq b state differ) (bytes_ne_of_eq vault state away)))
        ]
      ]
  Step-Kept b0 L N e (reject_step sb rejector out there ran) w =
      let state = state_at P H program_id create_key in
      let is_out : output (held P H program_id create_key state sb ∷ rejector ∷ []) [] ≡ out =
        ground arith in
      inl (
        stays b0 L _ sb w there (
          ap (λ (o : SpelOutput). commit (take 1 o.accounts) L state) (sym is_out)
          ∙ write_same L state sb))

  -- Take any steps of a multisig from a ledger with its state account, and anything between them
  -- that leaves the multisig's accounts as they are. Then the account still decodes, with the
  -- create key, members root, threshold m and member count n that it had, and a count of proposals
  -- that is no lower. Or the state account's address is that of the vault or of a proposal.
  pub Run-Kept :
      (b0 : MultisigState) (L N : Ledger) (events : List Event)
      → Kept b0 L
      → Run P H program_id create_key L events N
      → Kept b0 N ⊎ Clash
  Run-Kept b0 L N events w start = inl w
  Run-Kept b0 L N events w (then_step before step) = elim (Run-Kept b0 L _ _ w before) [
    | inl kept ↦ Step-Kept b0 _ N _ step kept
    | inr clash ↦ inr clash
  ]
  Run-Kept b0 L N events w (meanwhile before apart_of) = elim (Run-Kept b0 L _ events w before) [
    | inl kept ↦ inl (record {
      data_at = kept.data_at;
      body = kept.body;
      found = apart_of (state_at P H program_id create_key) (own_state refl) ∙ kept.found;
      reads = kept.reads;
      same = kept.same;
      grown = kept.grown;
    })
    | inr clash ↦ inr clash
  ]
