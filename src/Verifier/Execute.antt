-- ===== src/Verifier/Execute.antt =====
-- The handler `execute` of methods/guest/src/bin/private_multisig.rs.
use private_m_of_n_multisig.Common.{
  ℕ, ◌≤◌, ◌≡◌, refl, sym, ap, ◌∙◌, true, false, some, [], ◌∷◌, ◌++◌, map, if◌then◌else◌, ok, err,
  arith, >>=-eq-ok, inl, inr, Bool-cases, fail_if, ltb, ltb_false→le, le→ltb_false, append-nil,
}
use private_m_of_n_multisig.Common.Bytes.{Bytes}
use private_m_of_n_multisig.Crypto.Hash.{Hasher}
use private_m_of_n_multisig.Core.Errors.{already_executed, threshold_not_met}
use private_m_of_n_multisig.Core.State.{MultisigState, Proposal}
use private_m_of_n_multisig.Core.Pda.{
  seed_vault, pda_input, derive_pda, derive_vault_pda, pad_seed_32,
}
use private_m_of_n_multisig.Verifier.Platform.{AccountWithMetadata, SpelOutput, Platform}
use private_m_of_n_multisig.Verifier.Handlers.{decode, encode, fail, output, vault_call, execute}
use private_m_of_n_multisig.Verifier.Storage.{
  Holds, IsStorable, decode-Holds, Holds-decode, encode-from_slice, guard_false,
}

-- What a successful `execute` requires and does.
pub record Executes (P : Platform) (H : Hasher)
    (state proposal vault submitter : AccountWithMetadata) (create_key : Bytes) (out : SpelOutput)
    : Type 0 where
  pub state_body : MultisigState
  pub proposal_body : Proposal
  pub proposal_data : Bytes
  pub state_read : Holds P.states state state_body
  pub proposal_read : Holds P.proposals proposal proposal_body
  pub pending : proposal_body.executed ≡ false
  pub threshold_met : state_body.m ≤ proposal_body.approvals_count
  pub flagged :
      P.proposals.from_slice proposal_data ≡ some (record proposal_body { executed = true })
  pub written :
      out
      ≡ output
          (state ∷ record proposal { body = proposal_data } ∷ vault ∷ submitter ∷ [])
          (vault_call P H vault create_key proposal_body ∷ [])

-- A successful `execute` read a proposal that was not executed and had at least m approvals. It
-- sets the executed flag and keeps the rest of the proposal, changes no other body, and emits
-- exactly one call: to the proposal's target program, of the proposal's action bytes, on the
-- authorized vault.
pub execute-Executes :
    (P : Platform) (H : Hasher) (state proposal vault submitter : AccountWithMetadata)
    (create_key : Bytes) (index : ℕ) (out : SpelOutput)
    → execute P H state proposal vault submitter create_key index ≡ ok out
    → Executes P H state proposal vault submitter create_key out
unfolding execute
execute-Executes P H state proposal vault submitter create_key index out e =
    let (sb, r1, e1) = >>=-eq-ok (decode P P.states state) _ e in
    let (pb, r2, e2) = >>=-eq-ok (decode P P.proposals proposal) _ e1 in
    let (_, r3, e3) = >>=-eq-ok (fail_if pb.executed (fail already_executed)) _ e2 in
    let (_, r4, e4) =
      >>=-eq-ok (fail_if (ltb pb.approvals_count sb.m) (fail threshold_not_met)) _ e3 in
    let (pd, r5, e5) = >>=-eq-ok (encode P P.proposals (record pb { executed = true })) _ e4 in
    record {
      state_body = sb;
      proposal_body = pb;
      proposal_data = pd;
      state_read = decode-Holds P P.states state sb r1;
      proposal_read = decode-Holds P P.proposals proposal pb r2;
      pending = guard_false _ _ r3;
      threshold_met = ltb_false→le _ _ (guard_false _ _ r4);
      flagged = encode-from_slice P P.proposals _ pd r5;
      written = ground arith;
    }

-- Whenever both accounts decode, the proposal is not executed, it has at least m approvals and its
-- new body can be stored, `execute` succeeds.
pub execute_accepts :
    (P : Platform) (H : Hasher) (state proposal vault submitter : AccountWithMetadata)
    (create_key : Bytes) (index : ℕ) (state_body : MultisigState) (proposal_body : Proposal)
    → Holds P.states state state_body
    → Holds P.proposals proposal proposal_body
    → proposal_body.executed ≡ false
    → state_body.m ≤ proposal_body.approvals_count
    → IsStorable P P.proposals (record proposal_body { executed = true })
    → (out : SpelOutput) × (execute P H state proposal vault submitter create_key index ≡ ok out)
unfolding execute
execute_accepts P H state proposal vault submitter create_key index sb pb hs hp pending met
      (d, stores) =
    (
      output (state ∷ record proposal { body = d } ∷ vault ∷ submitter ∷ [])
          (vault_call P H vault create_key pb ∷ []),
      rw
          (
            Holds-decode P P.states state sb hs,
            Holds-decode P P.proposals proposal pb hp,
            pending,
            le→ltb_false _ _ met,
            stores,
          )
          refl,
    )

-- Where both accounts decode, `execute` fails on an executed proposal with `AlreadyExecuted`, and
-- on one that is not executed and is short of m approvals with `ThresholdNotMet`.
pub execute_rejects :
    (P : Platform) (H : Hasher) (state proposal vault submitter : AccountWithMetadata)
    (create_key : Bytes) (index : ℕ) (state_body : MultisigState) (proposal_body : Proposal)
    → Holds P.states state state_body
    → Holds P.proposals proposal proposal_body
    → ¬ ((proposal_body.executed ≡ false) × (state_body.m ≤ proposal_body.approvals_count))
    → execute P H state proposal vault submitter create_key index
      ≡ err (fail (if proposal_body.executed then already_executed else threshold_not_met))
unfolding execute
execute_rejects P H state proposal vault submitter create_key index sb pb hs hp refuse =
    rw (Holds-decode P P.states state sb hs, Holds-decode P P.proposals proposal pb hp)
      (elim (Bool-cases pb.executed) [
        | inl done ↦ rw done refl
        | inr pending ↦
            let short : ltb pb.approvals_count sb.m ≡ true = ground arith in
            rw (pending, short) refl
      ])

-- Once `execute` has succeeded, running it again with the same state account and key on the
-- proposal account that it wrote fails with `AlreadyExecuted`, under any vault, submitter and
-- index: a proposal's call is made once.
pub execute_once :
    (P : Platform) (H : Hasher) (state proposal vault submitter : AccountWithMetadata)
    (create_key : Bytes) (index : ℕ) (out : SpelOutput) (vault' submitter' : AccountWithMetadata)
    (index' : ℕ)
    → execute P H state proposal vault submitter create_key index ≡ ok out
    → (proposal' : AccountWithMetadata) × (out.accounts
        ≡ state ∷ proposal' ∷ vault ∷ submitter ∷ [])
      × (execute P H state proposal' vault' submitter' create_key index'
          ≡ err (fail already_executed))
unfolding execute
execute_once P H state proposal vault submitter create_key index out vault' submitter' index' e =
    let x = execute-Executes P H state proposal vault submitter create_key index out e in
    let proposal' = record proposal { body = x.proposal_data } in
    (
      proposal',
      ap (λ (o : SpelOutput). o.accounts) x.written,
      rw
          (
            Holds-decode P P.states state x.state_body x.state_read,
            Holds-decode P P.proposals proposal' (record x.proposal_body { executed = true })
                x.flagged,
          )
          refl,
    )

-- The seed that authorizes the vault in the emitted call is the one the vault's address is derived
-- from: hashed with the program id and prefix it gives `derive_vault_pda`.
pub vault_call-pda_seeds :
    (P : Platform) (H : Hasher) (vault : AccountWithMetadata) (create_key program_id : Bytes)
    (body : Proposal)
    → map
        (λ seed. H.hash (pda_input program_id seed))
        (vault_call P H vault create_key body).pda_seeds
      ≡ derive_vault_pda H program_id create_key ∷ []
unfolding derive_vault_pda derive_pda
vault_call-pda_seeds P H vault create_key program_id body =
    ap (λ s. H.hash (pda_input program_id (H.hash s)) ∷ [])
      (ap (λ s. s ++ create_key) (P.seed_from_str-eq seed_vault)
        ∙ ap (λ k. pad_seed_32 seed_vault ++ k) (sym (append-nil create_key)))
