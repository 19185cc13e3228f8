-- ===== src/Sdk/Prover/Quorum/Lifecycle.antt =====
-- The whole life of a proposal, from a ledger without the multisig: crates/sdk's builder, the
-- instructions that create the multisig and its first proposal, the members' approvals and the
-- execution.
use private_m_of_n_multisig.Common.{
  ℕ, ◌^◌, ◌≤◌, ◌<◌, ◌≡◌, ◌≢◌, refl, sym, ◌∙◌, arith, Bool, true, false, none, some, List, [], ◌∷◌,
  ◌++◌, ok, length,
}
use private_m_of_n_multisig.Common.Bytes.{Bytes, All}
use private_m_of_n_multisig.Crypto.Hash.{Hasher}
use private_m_of_n_multisig.Crypto.Identity as Identity
use private_m_of_n_multisig.Core.State.{MultisigState, max_action_bytes_len}
use private_m_of_n_multisig.Core.Proof.{derive_proposal_id, from_u64, deployment_chain_id_u64}
use private_m_of_n_multisig.Circuit.{GuestEnv}
use private_m_of_n_multisig.Verifier.Platform.{Platform}
use private_m_of_n_multisig.Verifier.Handlers.{encode, vault_call}
use private_m_of_n_multisig.Verifier.Storage.{IsStorable, encode-from_slice}
use private_m_of_n_multisig.Verifier.Propose.{fresh_proposal}
use private_m_of_n_multisig.Verifier.Ledger.{
  Ledger, write, executed_at, other, held, state_at, proposal_at, vault_at, entry_at, Run, calls,
  IsAlone,
}
use private_m_of_n_multisig.Verifier.Ledger.Writes.{write_same, write_other}
use private_m_of_n_multisig.Verifier.Ledger.Opening.{
  join, join-IsAlone, calls-join, state_with, opened_ledger, opening,
}
use private_m_of_n_multisig.Sdk.Builder.{MultisigBuilder, MultisigFinalized, new_builder, finalize}
use private_m_of_n_multisig.Sdk.Builder.Enrollment.{enroll, finalize_iff}
use private_m_of_n_multisig.Sdk.Prover.Quorum.Discharged.{IsDischarged, join-IsDischarged}
use private_m_of_n_multisig.Sdk.Prover.Quorum.Progress.{Ready, Ballot, AreApart, votes}
use private_m_of_n_multisig.Sdk.Prover.Quorum.Turnout.{Voter, ballots, members_execute}

pub first_index : 0 < 1
first_index = omega arith

module _ (P : Platform) (H : Hasher) (E : GuestEnv) (program_id create_key action target : Bytes)
    (m : ℕ) (cs : List Bytes) (b : MultisigBuilder) (f : MultisigFinalized)
    (enrolled : enroll cs (new_builder H m) ≡ ok b) (frozen : finalize H b ≡ ok f)
    (fits : length action ≤ max_action_bytes_len) where
  -- The account of a member's vote for the first proposal.
  abbrev pub entry_of : Voter H cs → Bytes
  entry_of v = entry_at P H program_id create_key (proposal_at P H program_id create_key 0) (
      Identity.nullifier H v.member.sk (
        derive_proposal_id H (from_u64 deployment_chain_id_u64) (state_at P H program_id create_key)
          0 action target))

  -- A member's entry account is none of the three others, and does not exist.
  pub record IsFree (L : Ledger) (v : Voter H cs) : Type 0 where
    pub absent : L (entry_of v) ≡ none
    pub not_state : entry_of v ≢ state_at P H program_id create_key
    pub not_vault : entry_of v ≢ vault_at P H program_id create_key
    pub not_proposal : entry_of v ≢ proposal_at P H program_id create_key 0

  abbrev pub AreDistinct : List (Voter H cs) → Type 0
  AreDistinct [] = Unit
  AreDistinct (v ∷ vs) = All (λ w. entry_of v ≢ entry_of w) vs × AreDistinct vs

  -- The accounts of the multisig: absent, and at three addresses.
  pub record IsVacant (L : Ledger) : Type 0 where
    pub no_state : L (state_at P H program_id create_key) ≡ none
    pub no_vault : L (vault_at P H program_id create_key) ≡ none
    pub no_proposal : L (proposal_at P H program_id create_key 0) ≡ none
    pub vault_apart : vault_at P H program_id create_key ≢ state_at P H program_id create_key
    pub proposal_apart :
        proposal_at P H program_id create_key 0 ≢ state_at P H program_id create_key
    pub proposal_vault :
        proposal_at P H program_id create_key 0 ≢ vault_at P H program_id create_key

  valid : (1 ≤ f.m) × (f.m ≤ f.n)
  valid = let (low, high, _, same) = (finalize_iff H b f).0 frozen in rw same (low, high)

  -- The state account's body with `count` proposals, and the ledger with the first proposal.
  abbrev pub state_body : ℕ → MultisigState
  state_body count = state_with P H program_id create_key f.members_root action target f.m f.n count

  abbrev pub opened : Ledger → Bytes → Bytes → Bytes → Ledger
  opened = opened_ledger P H program_id create_key f.members_root action target f.m f.n

  -- What the members submit.
  abbrev pub slips :
      (state_data : Bytes) (vs : List (Voter H cs))
      → List (
          Ballot P H E program_id create_key 0 state_data []
            (state_body 1)
            (fresh_proposal action target))
  slips state_data vs =
      ballots P H E program_id create_key 0 state_data [] (state_body 1)
        (fresh_proposal action target) m cs b f enrolled frozen refl first_index fits vs

  opened-absent :
      (L : Ledger) (d1 d2 d3 : Bytes) (v : Voter H cs)
      → IsFree L v
      → opened L d1 d2 d3 (entry_of v) ≡ none
  opened-absent L d1 d2 d3 v w =
      let state = state_at P H program_id create_key in
      let vault = vault_at P H program_id create_key in
      let L1 = write L state d1 in
      let L2 = write (write L1 state d1) vault [] in
      write_other (write L2 state d2) (entry_of v) (proposal_at P H program_id create_key 0) d3
        w.not_proposal
      ∙ write_other L2 (entry_of v) state d2 w.not_state
      ∙ write_other (write L1 state d1) (entry_of v) vault [] w.not_vault
      ∙ write_other L1 (entry_of v) state d1 w.not_state
      ∙ write_other L (entry_of v) state d1 w.not_state
      ∙ w.absent

  entries_absent :
      (L : Ledger) (d1 d2 d3 : Bytes) (vs : List (Voter H cs))
      → All (IsFree L) vs
      → All
          (λ v.
            opened L d1 d2 d3 (
              entry_at P H program_id create_key
                (proposal_at P H program_id create_key 0)
                v.nullifier)
            ≡ none)
          (slips d2 vs)
  entries_absent L d1 d2 d3 [] w = tt
  entries_absent L d1 d2 d3 (v ∷ vs) w =
      (opened-absent L d1 d2 d3 v w.0, entries_absent L d1 d2 d3 vs w.1)

  apart_from :
      (d2 : Bytes) (v : Voter H cs) (vs : List (Voter H cs))
      → All (λ w. entry_of v ≢ entry_of w) vs
      → All
          (λ w.
            entry_of v
            ≢ entry_at P H program_id create_key
                (proposal_at P H program_id create_key 0)
                w.nullifier)
          (slips d2 vs)
  apart_from d2 v [] h = tt
  apart_from d2 v (w ∷ vs) h = (h.0, apart_from d2 v vs h.1)

  slips-AreApart :
      (d2 : Bytes) (vs : List (Voter H cs))
      → AreDistinct vs
      → AreApart P H E program_id create_key 0 d2 []
          (state_body 1)
          (fresh_proposal action target)
          (slips d2 vs)
  slips-AreApart d2 [] h = tt
  slips-AreApart d2 (v ∷ vs) h = (apart_from d2 v vs h.0, slips-AreApart d2 vs h.1)

  opened-Ready :
      (L : Ledger) (d1 d2 d3 : Bytes)
      → IsVacant L
      → encode P P.proposals (fresh_proposal action target) ≡ ok d3
      → Ready P H E program_id create_key 0 d2 []
          (state_body 1)
          (fresh_proposal action target)
          (opened L d1 d2 d3)
          0
  opened-Ready L d1 d2 d3 w e3 =
      let state = state_at P H program_id create_key in
      let vault = vault_at P H program_id create_key in
      let proposal = proposal_at P H program_id create_key 0 in
      let L1 = write L state d1 in
      let L2 = write (write L1 state d1) vault [] in
      record {
        data_at = d3;
        state_found =
            write_other (write L2 state d2) state proposal d3 (λ e. w.proposal_apart (sym e))
            ∙ write_same L2 state d2;
        vault_found =
            write_other (write L2 state d2) vault proposal d3 (λ e. w.proposal_vault (sym e))
            ∙ write_other L2 vault state d2 w.vault_apart
            ∙ write_same (write L1 state d1) vault [];
        found = write_same (write L2 state d2) proposal d3;
        reads = encode-from_slice P P.proposals (fresh_proposal action target) d3 e3;
      }

  -- After successful `add_member` calls for `cs` and a successful `finalize` of a threshold m, take
  -- a ledger without the multisig's state and vault and first proposal, at three different
  -- addresses, and m or more enrolled members, fewer than 2 ^ 32, whose commitments are not all
  -- zero and whose nullifiers' entry accounts do not exist, at addresses no two of which are equal
  -- and which are none of the three. Then there are steps of the multisig from this ledger, with
  -- nothing between them, that create it with the frozen root, threshold and member count, create
  -- its vault, open a proposal of any given target and action that is not too large, accept what
  -- the prover of each member gives, and execute the proposal. Every assumption is discharged by a
  -- run of the circuit, and all these steps make one call, of the given target and action.
  -- Afterwards the proposal's account decodes to this action and target, one approval for each
  -- member, and executed. It is asked that the state's bodies with no and with one proposal, and
  -- the proposal's with a 32-bit count, can be stored.
  pub members_carry :
      (L : Ledger) (vs : List (Voter H cs)) (none_yet : IsStorable P P.states (state_body 0))
      (one : IsStorable P P.states (state_body 1))
      → IsVacant L
      → All (IsFree L) vs
      → AreDistinct vs
      → f.m ≤ length vs
      → length vs < 2 ^ 32
      → ((k : ℕ) (done : Bool)
          → k < 2 ^ 32
          → IsStorable P P.proposals
              (record (fresh_proposal action target) { approvals_count = k; executed = done }))
      → (N : Ledger) × (run : Run P H program_id create_key L
          (executed_at (proposal_at P H program_id create_key 0)
            ∷ (votes P H E program_id create_key 0 one.0 []
                  (state_body 1)
                  (fresh_proposal action target)
                  (slips one.0 vs)
                ++ other ∷ other ∷ other ∷ []))
          N)
        × IsAlone P H program_id create_key run
        × IsDischarged P H E program_id create_key run
        × (calls P H program_id create_key run
            ≡ vault_call P H
                (held P H program_id create_key (vault_at P H program_id create_key) [])
                create_key
                (fresh_proposal action target)
              ∷ [])
        × (d : Bytes) × (N (proposal_at P H program_id create_key 0) ≡ some d)
        × (P.proposals.from_slice d
            ≡ some (record (fresh_proposal action target) {
              approvals_count = length vs;
              executed = true;
            }))
  members_carry L vs (d1, e1) (d2, e2) vacant free distinct met room stores =
      let (d3, e3) = stores 0 false (omega arith) in
      let (before, quiet) =
        opening P H program_id create_key f.members_root action target f.m f.n L d1 d2 d3
          vacant.no_state vacant.no_vault vacant.no_proposal vacant.vault_apart
          vacant.proposal_apart vacant.proposal_vault valid fits e1 e2 e3 in
      let (N, run, alone, receipts, made, d, found, reads) =
        members_execute P H E program_id create_key 0 d2 [] (state_body 1)
          (fresh_proposal action target) m cs b f enrolled frozen refl first_index fits
          (omega arith) vacant.proposal_apart vacant.proposal_vault vacant.vault_apart
          (encode-from_slice P P.states (state_body 1) d2 e2) (opened L d1 d2 d3) vs
          (opened-Ready L d1 d2 d3 vacant e3) (entries_absent L d1 d2 d3 vs free)
          (slips-AreApart d2 vs distinct) met room stores in
      (
        N,
        join P H program_id create_key before run,
        join-IsAlone P H program_id create_key before run quiet alone,
        join-IsDischarged P H E program_id create_key before run quiet receipts,
        calls-join P H program_id create_key before run quiet ∙ made,
        d,
        found,
        reads,
      )
