-- ===== src/Sdk/Prover/Quorum/Progress.antt =====
-- What a quorum can do on a ledger: the runs of the approve circuit of m members, submitted one by
-- one to the handler `approve`, and then `execute`.
use private_m_of_n_multisig.Common.{
  ℕ, ◌+◌, ◌^◌, ◌≤◌, ◌<◌, ◌≡◌, ◌≢◌, refl, sym, subst, ap, ◌∙◌, arith, Bool, true, false, none, some,
  List, [], ◌∷◌, ok, length, take,
}
use private_m_of_n_multisig.Common.Bytes.{Bytes, All}
use private_m_of_n_multisig.Crypto.Hash.{Hasher}
use private_m_of_n_multisig.Core.State.{MultisigState, Proposal}
use private_m_of_n_multisig.Circuit.{GuestEnv, main}
use private_m_of_n_multisig.Verifier.Platform.{SpelOutput, Platform}
use private_m_of_n_multisig.Verifier.Handlers.{vault_call}
use private_m_of_n_multisig.Verifier.Storage.{IsStorable}
use private_m_of_n_multisig.Verifier.Approve.{Matches, approve-Approves, approve_accepts}
use private_m_of_n_multisig.Verifier.Execute.{execute-Executes, execute_accepts}
use private_m_of_n_multisig.Verifier.Ledger.{
  Ledger, write, commit, Event, voted, executed_at, held, state_at, proposal_at, vault_at, entry_at,
  Step, approve_step, execute_step, Run, start, then_step, output_of, calls, IsAlone,
}
use private_m_of_n_multisig.Verifier.Ledger.Writes.{unwrap, write_same, write_other, apart}
use private_m_of_n_multisig.Sdk.Prover.Quorum.Discharged.{AreDischarged, IsDischarged}

module _ (P : Platform) (H : Hasher) (E : GuestEnv) (program_id create_key : Bytes) (index : ℕ)
    (state_data vault_data : Bytes) (state_body : MultisigState) (proposal_body : Proposal) where
  abbrev pub body : ℕ → Bool → Proposal
  body count done = record proposal_body { approvals_count = count; executed = done }

  -- The accounts of the multisig, with the proposal open after `count` approvals.
  pub record Ready (L : Ledger) (count : ℕ) : Type 0 where
    pub data_at : Bytes
    pub state_found : L (state_at P H program_id create_key) ≡ some state_data
    pub vault_found : L (vault_at P H program_id create_key) ≡ some vault_data
    pub found : L (proposal_at P H program_id create_key index) ≡ some data_at
    pub reads : P.proposals.from_slice data_at ≡ some (body count false)

  -- A member's approval: a run of the circuit, and that what it committed is for this proposal.
  pub record Ballot : Type 0 where
    pub nullifier : Bytes
    pub inputs : Bytes
    pub input : Bytes
    pub ran : main H E input ≡ ok inputs
    pub matches :
        Matches H
          (held P H program_id create_key (state_at P H program_id create_key) state_data)
          state_body
          proposal_body
          index
          nullifier
          inputs

  abbrev pub entry : Ballot → Bytes
  entry v =
      entry_at P H program_id create_key (proposal_at P H program_id create_key index) v.nullifier

  -- The entry addresses differ.
  abbrev pub AreApart : List Ballot → Type 0
  AreApart [] = Unit
  AreApart (v ∷ vs) = All (λ w. entry v ≢ entry w) vs × AreApart vs

  abbrev pub votes : List Ballot → List Event
  votes [] = []
  votes (v ∷ vs) = voted (proposal_at P H program_id create_key index) v.nullifier ∷ votes vs

  -- The approval of `v` has been accepted.
  pub record Advanced (L : Ledger) (count : ℕ) (v : Ballot) : Type 0 where
    pub ledger : Ledger
    pub step :
        Step P H program_id create_key L
          (voted (proposal_at P H program_id create_key index) v.nullifier)
          ledger
    pub ready : Ready ledger (count + 1)
    pub no_call : (output_of P H program_id create_key step).chained_calls ≡ []
    pub receipts : AreDischarged H E (output_of P H program_id create_key step).assumptions
    pub absent : (x : Bytes) → L x ≡ none → x ≢ entry v → ledger x ≡ none

  -- The approvals of `vs` have been accepted, from the last to the first.
  pub record Approved (L : Ledger) (vs : List Ballot) : Type 0 where
    pub ledger : Ledger
    pub run : Run P H program_id create_key L (votes vs) ledger
    pub ready : Ready ledger (length vs)
    pub no_call : calls P H program_id create_key run ≡ []
    pub alone : IsAlone P H program_id create_key run
    pub receipts : IsDischarged P H E program_id create_key run
    pub absent : (x : Bytes) → L x ≡ none → All (λ w. x ≢ entry w) vs → ledger x ≡ none

  module _ (small : index < 2 ^ 64)
      (not_state : proposal_at P H program_id create_key index ≢ state_at P H program_id create_key)
      (not_vault : proposal_at P H program_id create_key index ≢ vault_at P H program_id create_key)
      (vault_not_state : vault_at P H program_id create_key ≢ state_at P H program_id create_key)
      (state_reads : P.states.from_slice state_data ≡ some state_body) where
    advance :
        (L : Ledger) (count : ℕ) (v : Ballot)
        → Ready L count
        → L (entry v) ≡ none
        → count + 1 < 2 ^ 32
        → IsStorable P P.proposals (body (count + 1) false)
        → Advanced L count v
    advance L count v w gone room stores =
        let state = state_at P H program_id create_key in
        let vault = vault_at P H program_id create_key in
        let a = proposal_at P H program_id create_key index in
        let signer = held P H program_id create_key state [] in
        let (out, ran) =
          approve_accepts P H (held P H program_id create_key state state_data)
            (held P H program_id create_key a w.data_at)
            (held P H program_id create_key (entry v) []) signer create_key index v.nullifier
            v.inputs state_body (body count false) state_reads w.reads
            (record {
              size = v.matches.size;
              same_root = v.matches.same_root;
              same_id = v.matches.same_id;
              same_nullifier = v.matches.same_nullifier;
            })
            room stores in
        let x = approve-Approves P H _ _ _ signer create_key index v.nullifier v.inputs out ran in
        let N = commit (take 3 out.accounts) L in
        let is_N : N ≡ write (write (write L state state_data) a x.proposal_data) (entry v) [] =
          ap (λ (o : SpelOutput). commit (take 3 o.accounts) L) x.written in
        let at : (y : Bytes)
            → y ≢ entry v
            → N y ≡ write (write L state state_data) a x.proposal_data y =
          λ y h.
            ap (λ (M : Ledger). M y) is_N
            ∙ write_other (write (write L state state_data) a x.proposal_data) y (entry v) [] h in
        let same : x.proposal_body ≡ body count false = unwrap (sym x.proposal_read ∙ w.reads) in
        record {
          ledger = N;
          step =
              approve_step state_data w.data_at signer index v.nullifier v.inputs out small
                w.state_found w.found gone ran;
          ready = record {
            data_at = x.proposal_data;
            state_found =
                at state (apart L state (entry v) state_data w.state_found gone)
                ∙ write_other (write L state state_data) state a x.proposal_data
                    (λ e. not_state (sym e))
                ∙ write_same L state state_data;
            vault_found =
                at vault (apart L vault (entry v) vault_data w.vault_found gone)
                ∙ write_other (write L state state_data) vault a x.proposal_data
                    (λ e. not_vault (sym e))
                ∙ write_other L vault state state_data vault_not_state
                ∙ w.vault_found;
            found =
                at a (apart L a (entry v) w.data_at w.found gone)
                ∙ write_same (write L state state_data) a x.proposal_data;
            reads =
                x.counted
                ∙ ap (λ (r : Proposal). some (record r { approvals_count = r.approvals_count + 1 }))
                    same;
          };
          no_call = ap (λ (o : SpelOutput). o.chained_calls) x.written;
          receipts =
              subst (AreDischarged H E) (ap (λ (o : SpelOutput). o.assumptions) (sym x.written))
                (refl, (v.input, v.ran), tt);
          absent = λ y none h.
              at y h
              ∙ write_other (write L state state_data) y a x.proposal_data
                  (λ e. apart L a y w.data_at w.found none (sym e))
              ∙ write_other L y state state_data
                  (λ e. apart L state y state_data w.state_found none (sym e))
              ∙ none;
        }

    approve_all :
        (L : Ledger) (vs : List Ballot)
        → Ready L 0
        → All (λ v. L (entry v) ≡ none) vs
        → AreApart vs
        → length vs < 2 ^ 32
        → ((k : ℕ) → k < 2 ^ 32 → IsStorable P P.proposals (body k false))
        → Approved L vs
    approve_all L [] w fresh differ room stores = record {
      ledger = L;
      run = start;
      ready = w;
      no_call = refl;
      alone = tt;
      receipts = tt;
      absent = λ x none _. none;
    }
    approve_all L (v ∷ vs) w fresh differ room stores =
        let before = approve_all L vs w fresh.1 differ.1 (omega (arith, room)) stores in
        let now =
          advance before.ledger (length vs) v before.ready
            (before.absent (entry v) fresh.0 differ.0) (omega (arith, room))
            (stores (length vs + 1) (omega (arith, room))) in
        record {
          ledger = now.ledger;
          run = then_step before.run now.step;
          ready = subst (Ready now.ledger) (omega arith) now.ready;
          no_call = rw (now.no_call, before.no_call) refl;
          alone = before.alone;
          receipts = (before.receipts, now.receipts);
          absent = λ x none h. now.absent x (before.absent x none h.1) h.0;
        }

    -- Take a ledger with the multisig's state, vault and an open proposal without approvals, and
    -- runs of the circuit, at least m by the threshold of the state and fewer than 2 ^ 32, each of
    -- which has committed the state's root and the proposal's id and a nullifier whose entry
    -- account does not exist, at addresses no two of which are equal. Then there are steps of the
    -- multisig from this ledger, with nothing between them, that accept each of these approvals and
    -- then execute the proposal, all of whose assumptions are discharged, and which make one call
    -- in all, of the proposal's action and target. Afterwards the proposal's account decodes to the
    -- same action and target, one approval for each run, and executed. It is asked that the
    -- addresses of proposal, state and vault differ, and that every body with this action and
    -- target and a 32-bit count can be stored.
    pub quorum_executes :
        (L : Ledger) (vs : List Ballot)
        → Ready L 0
        → All (λ v. L (entry v) ≡ none) vs
        → AreApart vs
        → state_body.m ≤ length vs
        → length vs < 2 ^ 32
        → ((k : ℕ) (done : Bool) → k < 2 ^ 32 → IsStorable P P.proposals (body k done))
        → (N : Ledger) × (run : Run P H program_id create_key L
            (executed_at (proposal_at P H program_id create_key index) ∷ votes vs)
            N)
          × IsAlone P H program_id create_key run
          × IsDischarged P H E program_id create_key run
          × (calls P H program_id create_key run
              ≡ vault_call P H
                  (held P H program_id create_key (vault_at P H program_id create_key) vault_data)
                  create_key
                  proposal_body
                ∷ [])
          × (d : Bytes) × (N (proposal_at P H program_id create_key index) ≡ some d)
          × (P.proposals.from_slice d ≡ some (body (length vs) true))
    quorum_executes L vs w fresh differ met room stores =
        let before = approve_all L vs w fresh differ room (λ k small. stores k false small) in
        let M = before.ledger in
        let state = state_at P H program_id create_key in
        let vault = vault_at P H program_id create_key in
        let a = proposal_at P H program_id create_key index in
        let signer = held P H program_id create_key state [] in
        let (out, ran) =
          execute_accepts P H (held P H program_id create_key state state_data)
            (held P H program_id create_key a before.ready.data_at)
            (held P H program_id create_key vault vault_data) signer create_key index state_body
            (body (length vs) false) state_reads before.ready.reads refl met
            (stores (length vs) true room) in
        let x = execute-Executes P H _ _ _ signer create_key index out ran in
        let same : x.proposal_body ≡ body (length vs) false =
          unwrap (sym x.proposal_read ∙ before.ready.reads) in
        (
          commit (take 3 out.accounts) M,
          then_step before.run (
              execute_step state_data before.ready.data_at vault_data signer index out small
                before.ready.state_found before.ready.found before.ready.vault_found ran),
          before.alone,
          (
            before.receipts,
            subst (AreDischarged H E) (ap (λ (o : SpelOutput). o.assumptions) (sym x.written)) tt,
          ),
          rw (ap (λ (o : SpelOutput). o.chained_calls) x.written, before.no_call, same) refl,
          x.proposal_data,
          ap (λ (o : SpelOutput). commit (take 3 o.accounts) M a) x.written
              ∙ write_other (write (write M state state_data) a x.proposal_data) a vault vault_data
                  not_vault
              ∙ write_same (write M state state_data) a x.proposal_data,
          x.flagged ∙ ap (λ (r : Proposal). some (record r { executed = true })) same,
        )
