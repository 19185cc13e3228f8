-- ===== src/Verifier/Propose.antt =====
-- The handler `propose` of methods/guest/src/bin/private_multisig.rs.
use private_m_of_n_multisig.Common.{
  ℕ, ◌+◌, ◌^◌, ◌≤◌, ◌<◌, ◌≡◌, refl, sym, ap, ◌∙◌, true, false, not, ltb, some, [], ◌∷◌, ok, arith,
  ◌==◌, fail_if, ok_or, >>=-eq-ok, length,
}
use private_m_of_n_multisig.Common.Bytes.{Bytes}
use private_m_of_n_multisig.Core.Errors.{proposal_id_mismatch, arithmetic_overflow}
use private_m_of_n_multisig.Core.State.{
  MultisigState, Proposal, max_action_bytes_len, validate_action_bytes,
}
use private_m_of_n_multisig.Verifier.Platform.{AccountWithMetadata, SpelOutput, Platform}
use private_m_of_n_multisig.Verifier.Handlers.{
  decode, encode, fail, checked_suc, map_err, output, propose,
}
use private_m_of_n_multisig.Verifier.Storage.{
  Holds, decode-Holds, encode-from_slice, guard_eq, checked_suc-eq-ok, checked_suc_ok, Holds-decode,
}

abbrev pub fresh_proposal : Bytes → Bytes → Proposal
fresh_proposal action_bytes target_program = record {
  action_bytes = action_bytes;
  target_program = target_program;
  approvals_count = 0;
  executed = false;
}

-- What a successful `propose` requires and does.
pub record Proposes (P : Platform) (state proposal proposer : AccountWithMetadata) (index : ℕ)
    (action_bytes target_program : Bytes) (out : SpelOutput) : Type 0 where
  pub body : MultisigState
  pub state_data : Bytes
  pub proposal_data : Bytes
  pub read : Holds P.states state body
  pub in_cap : length action_bytes ≤ max_action_bytes_len
  pub next_index : index ≡ body.proposal_count
  pub no_overflow : index + 1 < 2 ^ 64
  pub counted : P.states.from_slice state_data ≡ some (record body { proposal_count = index + 1 })
  pub opened :
      P.proposals.from_slice proposal_data ≡ some (fresh_proposal action_bytes target_program)
  pub written :
      out
      ≡ output
          (record state { body = state_data }
            ∷ record proposal { body = proposal_data }
            ∷ proposer
            ∷ [])
          []

in_cap_of :
    (b : Bytes) {u : Unit {0}}
    → map_err (validate_action_bytes b) ≡ ok u
    → length b ≤ max_action_bytes_len
unfolding validate_action_bytes
in_cap_of b h = ground arith

-- A successful `propose` had at most 4096 action bytes and the next free index. It changes two
-- bodies only: the state's count goes up by one, with its key, root and threshold as they were, and
-- the proposal account holds the action and target with no approval, not executed. It calls
-- nothing.
pub propose-Proposes :
    (P : Platform) (state proposal proposer : AccountWithMetadata) (create_key : Bytes) (index : ℕ)
    (action_bytes target_program : Bytes) (out : SpelOutput)
    → propose P state proposal proposer create_key index action_bytes target_program ≡ ok out
    → Proposes P state proposal proposer index action_bytes target_program out
unfolding propose
propose-Proposes P state proposal proposer create_key index action_bytes target_program out e =
    let (_, r1, e1) = >>=-eq-ok (map_err (validate_action_bytes action_bytes)) _ e in
    let (body, r2, e2) = >>=-eq-ok (decode P P.states state) _ e1 in
    let (_, r3, e3) =
      >>=-eq-ok (fail_if (not (index == body.proposal_count)) (fail proposal_id_mismatch)) _ e2 in
    let (count, r4, e4) =
      >>=-eq-ok (ok_or (checked_suc 64 body.proposal_count) (fail arithmetic_overflow)) _ e3 in
    let (sd, r5, e5) =
      >>=-eq-ok (encode P P.states (record body { proposal_count = count })) _ e4 in
    let (pd, r6, e6) =
      >>=-eq-ok (encode P P.proposals (fresh_proposal action_bytes target_program)) _ e5 in
    let next = guard_eq index body.proposal_count _ r3 in
    let (up, room) = checked_suc-eq-ok 64 body.proposal_count count _ r4 in
    record {
      body = body;
      state_data = sd;
      proposal_data = pd;
      read = decode-Holds P P.states state body r2;
      in_cap = in_cap_of action_bytes r1;
      next_index = next;
      no_overflow = omega arith;
      counted =
          encode-from_slice P P.states _ sd r5
          ∙ ap (λ (c : ℕ). some (record body { proposal_count = c }))
              (up ∙ ap (λ (c : ℕ). c + 1) (sym next));
      opened = encode-from_slice P P.proposals _ pd r6;
      written = ground arith;
    }

-- What `propose` returns for new bodies `state_data` and `proposal_data`.
abbrev pub proposed :
    AccountWithMetadata → AccountWithMetadata → AccountWithMetadata → Bytes → Bytes → SpelOutput
proposed state proposal proposer state_data proposal_data =
    output
      (record state { body = state_data }
        ∷ record proposal { body = proposal_data }
        ∷ proposer
        ∷ [])
      []

-- An action that is not too large is accepted at the next free index, while the count fits in 64
-- bits and both new bodies can be stored: no other test rejects a proposal.
pub propose_accepts :
    (P : Platform) (state proposal proposer : AccountWithMetadata) (create_key : Bytes) (index : ℕ)
    (action_bytes target_program state_data proposal_data : Bytes) (body : MultisigState)
    → length action_bytes ≤ max_action_bytes_len
    → Holds P.states state body
    → index ≡ body.proposal_count
    → body.proposal_count + 1 < 2 ^ 64
    → encode P P.states (record body { proposal_count = body.proposal_count + 1 }) ≡ ok state_data
    → encode P P.proposals (fresh_proposal action_bytes target_program) ≡ ok proposal_data
    → propose P state proposal proposer create_key index action_bytes target_program
      ≡ ok (proposed state proposal proposer state_data proposal_data)
unfolding propose validate_action_bytes
propose_accepts P state proposal proposer create_key index action target sd pd body fits reads next
      room stores opens =
    let small : ltb max_action_bytes_len (length action) ≡ false = ground arith in
    let same : (index == body.proposal_count) ≡ true = ground arith in
    rw
      (
        small,
        Holds-decode P P.states state body reads,
        same,
        checked_suc_ok 64 body.proposal_count room,
        stores,
        opens,
      )
      refl
