-- ===== src/Verifier/Approve.antt =====
-- The handler `approve` of methods/guest/src/bin/private_multisig.rs.
use private_m_of_n_multisig.Common.{
  ℕ, ◌+◌, ◌^◌, ◌<◌, ◌≡◌, refl, ap, ◌∙◌, not, some, [], ◌∷◌, ok, arith, ◌==◌, fail_if, ok_or,
  >>=-eq-ok, length, slice,
}
use private_m_of_n_multisig.Common.Bytes.{Bytes, bytes_eq, bytes_eq_iff}
use private_m_of_n_multisig.Crypto.Hash.{Hasher}
use private_m_of_n_multisig.Core.Errors.{
  invalid_receipt, root_mismatch, proposal_id_mismatch, arithmetic_overflow,
}
use private_m_of_n_multisig.Core.State.{MultisigState, Proposal}
use private_m_of_n_multisig.Core.Proof.{
  from_bytes, approve_public_inputs_len, deployment_chain_id_u64, from_u64, derive_proposal_id,
}
use private_m_of_n_multisig.Verifier.Platform.{AccountWithMetadata, SpelOutput, SpelError, Platform}
use private_m_of_n_multisig.Verifier.Handlers.{
  approve_circuit_image_id, decode, encode, fail, checked_suc, approve,
}
use private_m_of_n_multisig.Verifier.Storage.{
  Holds, IsStorable, decode-Holds, Holds-decode, encode-from_slice, guard_eq, guard_bytes,
  checked_suc-eq-ok, checked_suc_ok,
}

-- What an approval must commit: the state's root, the id that the accounts give, the nullifier.
pub record Matches (H : Hasher) (state : AccountWithMetadata) (state_body : MultisigState)
    (proposal_body : Proposal) (index : ℕ) (nullifier public_inputs : Bytes) : Type 0 where
  pub size : length public_inputs ≡ approve_public_inputs_len
  pub same_root : (from_bytes public_inputs).members_root ≡ state_body.members_root
  pub same_id :
      (from_bytes public_inputs).proposal_id
      ≡ derive_proposal_id H
          (from_u64 deployment_chain_id_u64)
          state.account_id
          index
          proposal_body.action_bytes
          proposal_body.target_program
  pub same_nullifier : (from_bytes public_inputs).nullifier ≡ nullifier

-- What an accepted approval does to the accounts, given the bodies it read.
pub record Approves (P : Platform) (H : Hasher)
    (state proposal nullifier_entry submitter : AccountWithMetadata) (index : ℕ)
    (nullifier public_inputs : Bytes) (out : SpelOutput) : Type 0 where
  pub state_body : MultisigState
  pub proposal_body : Proposal
  pub proposal_data : Bytes
  pub state_read : Holds P.states state state_body
  pub proposal_read : Holds P.proposals proposal proposal_body
  pub inputs_match : Matches H state state_body proposal_body index nullifier public_inputs
  pub no_overflow : proposal_body.approvals_count + 1 < 2 ^ 32
  pub counted :
      P.proposals.from_slice proposal_data
      ≡ some (record proposal_body { approvals_count = proposal_body.approvals_count + 1 })
  pub written : out ≡ record {
    accounts = state ∷ record proposal { body = proposal_data } ∷ nullifier_entry ∷ submitter ∷ [];
    chained_calls = [];
    assumptions = (approve_circuit_image_id, public_inputs) ∷ [];
  }

-- A successful `approve` was given 96 bytes that carry the state's members root, the proposal id
-- recomputed from the accounts under the deployment chain id, and the nullifier that seeds the
-- entry account. It adds one to the proposal's approvals, with action, target and executed flag as
-- they were, and changes no other body. It calls nothing, and assumes one receipt: of the approve
-- circuit with exactly these bytes as journal.
pub approve-Approves :
    (P : Platform) (H : Hasher) (state proposal nullifier_entry submitter : AccountWithMetadata)
    (create_key : Bytes) (index : ℕ) (nullifier public_inputs : Bytes) (out : SpelOutput)
    → approve P H state proposal nullifier_entry submitter create_key index nullifier public_inputs
      ≡ ok out
    → Approves P H state proposal nullifier_entry submitter index nullifier public_inputs out
unfolding approve from_bytes
approve-Approves P H state proposal entry submitter create_key index nullifier inputs out e =
    let (_, r1, e1) =
      >>=-eq-ok (fail_if (not (length inputs == approve_public_inputs_len)) (fail invalid_receipt))
        _ e in
    let (sb, r2, e2) = >>=-eq-ok (decode P P.states state) _ e1 in
    let (pb, r3, e3) = >>=-eq-ok (decode P P.proposals proposal) _ e2 in
    let (_, r4, e4) =
      >>=-eq-ok (fail_if (not (bytes_eq (slice inputs 0 32) sb.members_root)) (fail root_mismatch))
        _ e3 in
    let id =
      derive_proposal_id H (from_u64 deployment_chain_id_u64) state.account_id index pb.action_bytes
        pb.target_program in
    let (_, r5, e5) =
      >>=-eq-ok (fail_if (not (bytes_eq (slice inputs 32 64) id)) (fail proposal_id_mismatch)) _
        e4 in
    let (_, r6, e6) =
      >>=-eq-ok (fail_if (not (bytes_eq (slice inputs 64 96) nullifier)) (fail invalid_receipt)) _
        e5 in
    let (count, r7, e7) =
      >>=-eq-ok (ok_or (checked_suc 32 pb.approvals_count) (fail arithmetic_overflow)) _ e6 in
    let (pd, r8, e8) =
      >>=-eq-ok (encode P P.proposals (record pb { approvals_count = count })) _ e7 in
    let (up, room) = checked_suc-eq-ok 32 pb.approvals_count count _ r7 in
    record {
      state_body = sb;
      proposal_body = pb;
      proposal_data = pd;
      state_read = decode-Holds P P.states state sb r2;
      proposal_read = decode-Holds P P.proposals proposal pb r3;
      inputs_match = record {
        size = guard_eq _ _ _ r1;
        same_root = guard_bytes _ _ _ r4;
        same_id = guard_bytes _ _ _ r5;
        same_nullifier = guard_bytes _ _ _ r6;
      };
      no_overflow = room;
      counted =
          encode-from_slice P P.proposals _ pd r8
          ∙ ap (λ (c : ℕ). some (record pb { approvals_count = c })) up;
      written = ground arith;
    }

guard_bytes_ok : (x y : Bytes) (e : SpelError) → x ≡ y → fail_if (not (bytes_eq x y)) e ≡ ok tt
guard_bytes_ok x y e h = ground (arith, bytes_eq_iff x y)

guard_eq_ok : (x y : ℕ) (e : SpelError) → x ≡ y → fail_if (not (x == y)) e ≡ ok tt
guard_eq_ok x y e h = ground arith

-- Whenever both accounts decode, the public inputs are 96 bytes that carry the state's root, the
-- recomputed proposal id and the given nullifier, one more approval fits in 32 bits and the new
-- body can be stored, `approve` succeeds: no other test rejects an approval.
pub approve_accepts :
    (P : Platform) (H : Hasher) (state proposal nullifier_entry submitter : AccountWithMetadata)
    (create_key : Bytes) (index : ℕ) (nullifier public_inputs : Bytes) (state_body : MultisigState)
    (proposal_body : Proposal)
    → Holds P.states state state_body
    → Holds P.proposals proposal proposal_body
    → Matches H state state_body proposal_body index nullifier public_inputs
    → proposal_body.approvals_count + 1 < 2 ^ 32
    → IsStorable P P.proposals
        (record proposal_body { approvals_count = proposal_body.approvals_count + 1 })
    → (out : SpelOutput) × (approve P H state proposal nullifier_entry submitter create_key index
          nullifier public_inputs
        ≡ ok out)
unfolding approve from_bytes
approve_accepts P H state proposal entry submitter create_key index nullifier inputs sb pb hs hp w
      room (d, stores) =
    (
      record {
        accounts = state ∷ record proposal { body = d } ∷ entry ∷ submitter ∷ [];
        chained_calls = [];
        assumptions = (approve_circuit_image_id, inputs) ∷ [];
      },
      rw
          (
            guard_eq_ok (length inputs) approve_public_inputs_len (fail invalid_receipt) w.size,
            Holds-decode P P.states state sb hs,
            Holds-decode P P.proposals proposal pb hp,
            guard_bytes_ok _ _ (fail root_mismatch) w.same_root,
            guard_bytes_ok _ _ (fail proposal_id_mismatch) w.same_id,
            guard_bytes_ok _ _ (fail invalid_receipt) w.same_nullifier,
            checked_suc_ok 32 pb.approvals_count room,
            stores,
          )
          refl,
    )
