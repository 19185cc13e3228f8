-- ===== src/Sdk/Prover/Quorum/Turnout.antt =====
-- Every m enrolled members can carry a proposal: from crates/sdk's builder, snapshot and prover,
-- through the approve circuit, to the verifier program's ledger.
use private_m_of_n_multisig.Common.{
  ℕ, suc, ◌^◌, ◌≤◌, ◌<◌, ◌≡◌, ◌≢◌, refl, ap, ◌∙◌, true, none, some, List, [], ◌∷◌, ok, Bool, length,
  get_elem?,
}
use private_m_of_n_multisig.Common.Bytes.{Bytes, All, zeros}
use private_m_of_n_multisig.Crypto.Hash.{Hasher, hash_len}
use private_m_of_n_multisig.Crypto.Identity as Identity
use private_m_of_n_multisig.Crypto.Identity.{Identity, IsIdentity, commitment}
use private_m_of_n_multisig.Crypto.Merkle.{MerkleProof, IsProof}
use private_m_of_n_multisig.Core.State.{MultisigState, Proposal, max_action_bytes_len}
use private_m_of_n_multisig.Core.Proof.{from_u64, deployment_chain_id_u64}
use private_m_of_n_multisig.Core.Proof as Proof
use private_m_of_n_multisig.Circuit.{GuestEnv, main}
use private_m_of_n_multisig.Verifier.Platform.{Platform}
use private_m_of_n_multisig.Verifier.Handlers.{vault_call}
use private_m_of_n_multisig.Verifier.Storage.{IsStorable}
use private_m_of_n_multisig.Verifier.Approve.{Matches}
use private_m_of_n_multisig.Verifier.Ledger.{
  Ledger, executed_at, held, state_at, proposal_at, vault_at, entry_at, Run, calls, IsAlone,
}
use private_m_of_n_multisig.Sdk.Builder.{
  MultisigBuilder, MultisigFinalized, MultisigStateSnapshot, new_builder, finalize, merkle_proof,
  derive_proposal_id,
}
use private_m_of_n_multisig.Sdk.Builder.Enrollment.{enroll}
use private_m_of_n_multisig.Sdk.Builder.Membership.{merkle_proof-verify_proof, length-members_root}
use private_m_of_n_multisig.Sdk.Prover.{
  ApprovalProver, new, nullifier, compute_nullifier, proposal_id, public_inputs_bytes, guest_stream,
}
use private_m_of_n_multisig.Sdk.Prover.EndToEnd.{
  prepared, new_accepts, main-guest_stream, public_inputs_bytes-Matches,
}
use private_m_of_n_multisig.Sdk.Prover.Quorum.Discharged.{IsDischarged}
use private_m_of_n_multisig.Sdk.Prover.Quorum.Progress.{
  Ready, Ballot, AreApart, quorum_executes, votes,
}

-- A member whose commitment was enrolled.
pub record Voter (H : Hasher) (cs : List Bytes) : Type 0 where
  pub place : ℕ
  pub member : Identity
  pub member_sizes : IsIdentity member
  pub listed : get_elem? cs place ≡ some (commitment H member)
  pub not_zero : commitment H member ≢ zeros hash_len

module _ (P : Platform) (H : Hasher) (E : GuestEnv) (program_id create_key : Bytes) (index : ℕ)
    (state_data vault_data : Bytes) (state_body : MultisigState) (proposal_body : Proposal) (m : ℕ)
    (cs : List Bytes) (b : MultisigBuilder) (f : MultisigFinalized)
    (enrolled : enroll cs (new_builder H m) ≡ ok b) (frozen : finalize H b ≡ ok f)
    (same_root : state_body.members_root ≡ f.members_root)
    (below : index < state_body.proposal_count)
    (fits : length proposal_body.action_bytes ≤ max_action_bytes_len) where
  -- What `MultisigStateSnapshot::new` gives for the state account.
  abbrev pub local : MultisigStateSnapshot
  local = record {
    program_id = program_id;
    create_key = create_key;
    members_root = f.members_root;
    m = state_body.m;
    n = state_body.n;
    proposal_count = state_body.proposal_count;
    state_pda = state_at P H program_id create_key;
  }

  -- A voter's prover, with the Merkle proof that the frozen tree gives.
  pub record Prepared (v : Voter H cs) : Type 0 where
    pub proof : MerkleProof
    pub prover : ApprovalProver
    pub proof_sizes : IsProof proof
    pub made : merkle_proof H f (commitment H v.member) ≡ ok proof
    pub accepted :
        new H v.member local index proposal_body.action_bytes proposal_body.target_program proof
        ≡ ok prover
    pub same :
        prover
        ≡ prepared H v.member local index proposal_body.action_bytes proposal_body.target_program
            proof

  pub prepare : (v : Voter H cs) → Prepared v
  prepare v =
      let (proof, made, sizes, accepts) =
        merkle_proof-verify_proof H m cs b f v.place (commitment H v.member) enrolled frozen
          v.listed v.not_zero in
      record {
        proof = proof;
        prover =
            prepared H v.member local index proposal_body.action_bytes proposal_body.target_program
              proof;
        proof_sizes = sizes;
        made = made;
        accepted =
            new_accepts H v.member local index proposal_body.action_bytes
              proposal_body.target_program proof fits below accepts;
        same = refl;
      }

  -- The proposal's id, and a voter's nullifier for it.
  abbrev pub id : Bytes
  id =
      Proof.derive_proposal_id H (from_u64 deployment_chain_id_u64)
        (state_at P H program_id create_key) index proposal_body.action_bytes
        proposal_body.target_program

  abbrev pub nullifier_of : Voter H cs → Bytes
  nullifier_of v = Identity.nullifier H v.member.sk id

  pub voter_ran :
      (v : Voter H cs)
      → let p = (prepare v).prover in
        main H E (guest_stream p (proposal_id H p)) ≡ ok (public_inputs_bytes H p)
  voter_ran v =
      let w = prepare v in
      main-guest_stream H E v.member local index proposal_body.action_bytes
        proposal_body.target_program w.proof w.prover v.member_sizes w.proof_sizes
        (length-members_root H m cs b f enrolled frozen) w.accepted

  pub voter-Matches :
      (v : Voter H cs)
      → Matches H
          (held P H program_id create_key (state_at P H program_id create_key) state_data)
          state_body
          proposal_body
          index
          (nullifier_of v)
          (public_inputs_bytes H (prepare v).prover)
  unfolding nullifier compute_nullifier derive_proposal_id
  voter-Matches v =
      let w = prepare v in
      let q =
        prepared H v.member local index proposal_body.action_bytes proposal_body.target_program
          w.proof in
      let x =
        public_inputs_bytes-Matches H q
          (held P H program_id create_key (state_at P H program_id create_key) state_data)
          state_body proposal_body (length-members_root H m cs b f enrolled frozen) refl same_root
          refl refl in
      rw w.same x

  -- What a voter submits: the prover's public inputs.
  abbrev pub ballot :
      Voter H cs
      → Ballot P H E program_id create_key index state_data vault_data state_body proposal_body
  ballot v = record {
    nullifier = nullifier_of v;
    inputs = public_inputs_bytes H (prepare v).prover;
    input = guest_stream (prepare v).prover (proposal_id H (prepare v).prover);
    ran = voter_ran v;
    matches = voter-Matches v;
  }

  abbrev pub ballots :
      List (Voter H cs)
      → List
          (Ballot P H E program_id create_key index state_data vault_data state_body proposal_body)
  ballots [] = []
  ballots (v ∷ vs) = ballot v ∷ ballots vs

  length-ballots : (vs : List (Voter H cs)) → length (ballots vs) ≡ length vs
  length-ballots [] = refl
  length-ballots (v ∷ vs) = ap suc (length-ballots vs)

  module _ (small : index < 2 ^ 64)
      (not_state : proposal_at P H program_id create_key index ≢ state_at P H program_id create_key)
      (not_vault : proposal_at P H program_id create_key index ≢ vault_at P H program_id create_key)
      (vault_not_state : vault_at P H program_id create_key ≢ state_at P H program_id create_key)
      (state_reads : P.states.from_slice state_data ≡ some state_body) where
    -- After successful `add_member` calls for `cs` and a successful `finalize`, take a ledger whose
    -- state account holds the frozen root and whose proposal is open, without approvals, with an
    -- action that is not too large and an index below the state's count and 2 ^ 64. Take m or more
    -- enrolled members, by the state's threshold m and fewer than 2 ^ 32, whose commitments are not
    -- all zero and whose nullifiers' entry accounts do not exist yet, at addresses no two of which
    -- are equal. Each of them gets a Merkle proof and a prover from the SDK, and there are steps of
    -- the multisig from this ledger, with nothing between them, that accept what each prover gives
    -- and then execute the proposal. Every assumption of the steps is discharged by a run of the
    -- circuit, the steps make one call in all, of the proposal's action and target, and the
    -- proposal's account then decodes to this action and target, one approval for each member, and
    -- executed. It is asked that the addresses of proposal, state and vault differ, and that every
    -- body with this action and target and a 32-bit count can be stored.
    pub members_execute :
        (L : Ledger) (vs : List (Voter H cs))
        → Ready P H E program_id create_key index state_data vault_data state_body proposal_body L 0
        → All
            (λ v.
              L (
                entry_at P H program_id create_key
                  (proposal_at P H program_id create_key index)
                  v.nullifier)
              ≡ none)
            (ballots vs)
        → AreApart P H E program_id create_key index state_data vault_data state_body proposal_body
            (ballots vs)
        → state_body.m ≤ length vs
        → length vs < 2 ^ 32
        → ((k : ℕ) (done : Bool)
            → k < 2 ^ 32
            → IsStorable P P.proposals
                (record proposal_body { approvals_count = k; executed = done }))
        → (N : Ledger) × (run : Run P H program_id create_key L
            (executed_at (proposal_at P H program_id create_key index)
              ∷ votes P H E program_id create_key index state_data vault_data state_body
                  proposal_body
                  (ballots vs))
            N)
          × IsAlone P H program_id create_key run
          × IsDischarged P H E program_id create_key run
          × (calls P H program_id create_key run
              ≡ vault_call P H
                  (held P H program_id create_key (vault_at P H program_id create_key) vault_data)
                  create_key
                  proposal_body
                ∷ [])
          × (d : Bytes) × (N (proposal_at P H program_id create_key index) ≡ some d)
          × (P.proposals.from_slice d
              ≡ some (record proposal_body { approvals_count = length vs; executed = true }))
    members_execute L vs ready fresh differ met room stores =
        let same = length-ballots vs in
        let (N, run, alone, receipts, made, d, found, reads) =
          quorum_executes P H E program_id create_key index state_data vault_data state_body
            proposal_body small not_state not_vault vault_not_state state_reads L (ballots vs) ready
            fresh differ (rw same met) (rw same room) stores in
        (
          N,
          run,
          alone,
          receipts,
          made,
          d,
          found,
          reads
              ∙ ap (λ (k : ℕ). some (record proposal_body { approvals_count = k; executed = true }))
                  same,
        )
