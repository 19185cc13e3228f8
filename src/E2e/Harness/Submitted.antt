-- ===== src/E2e/Harness/Submitted.antt =====
-- What has happened when a method of the harness succeeds, and which program the proposals that it
-- opens call.
use private_m_of_n_multisig.Common.{
  ℕ, ◌^◌, ◌<◌, ◌≡◌, refl, sym, ap, ◌∙◌, Option, none, some, List, [], ◌∷◌, Result, ok, err, ok_or,
  ok_or-eq-ok, >>=-eq-ok, length,
}
use private_m_of_n_multisig.Common.Bytes.{Bytes, All}
use private_m_of_n_multisig.Crypto.Hash.{Hasher}
use private_m_of_n_multisig.Core.Instruction.{Instruction}
use private_m_of_n_multisig.Core.State.{Proposal}
use private_m_of_n_multisig.Verifier.Platform.{
  AccountWithMetadata, ChainedCall, SpelOutput, Platform,
}
use private_m_of_n_multisig.Verifier.Handlers.{program_words, vault_call, execute}
use private_m_of_n_multisig.Verifier.Storage.{Holds}
use private_m_of_n_multisig.Verifier.Execute.{execute-Executes}
use private_m_of_n_multisig.E2e.ProgramId.{
  program_id_to_core_bytes, program_words-program_id_to_core_bytes,
}
use private_m_of_n_multisig.E2e.Harness.{
  MultisigE2eHarness, Sequencer, HarnessError, get_nonces, message_try_new, send, get_tx,
  no_signing_key, context, included_or_bail, submit,
}

-- A transaction with these accounts and this instruction, for the verifier's program id and signed
-- with the signer's key, was sent, and one block later the chain has it.
pub record Included (S : Sequencer) (h : MultisigE2eHarness) (before after : S.Chain)
    (accounts : List Bytes) (ix : Instruction) : Type 0 where
  pub nonces : List ℕ
  pub key : S.Key
  pub message : S.Message
  pub tx_hash : Bytes
  pub sent : S.Chain
  pub transaction : S.Transaction
  pub fresh : S.get_accounts_nonces before (h.signer ∷ []) ≡ ok nonces
  pub signer_key : S.get_account_public_signing_key h.signer ≡ some key
  pub built : S.try_new h.verifier_program_id accounts nonces ix ≡ ok message
  pub acknowledged : S.send_transaction before (S.signed message key) ≡ ok (tx_hash, sent)
  pub waited : after ≡ S.wait_for_block sent
  pub landed : S.get_transaction after tx_hash ≡ ok (some transaction)

module _ (S : Sequencer) where
  context-eq-ok :
      {A : Type 0} (e : Bytes → HarnessError) (r : Result Bytes A) {a : A}
      → context e r ≡ ok a
      → r ≡ ok a
  context-eq-ok e (err m) h = cc
  context-eq-ok e (ok a) h = cc

  included_or_bail-eq-ok :
      {A : Type 0} (o : Option A) {u : Unit {0}}
      → included_or_bail o ≡ ok u
      → (a : A) × (o ≡ some a)
  included_or_bail-eq-ok none h = cc
  included_or_bail-eq-ok (some a) h = (a, refl)

  -- After a `submit` that succeeds, its transaction is on the chain.
  submit-Included :
      (h : MultisigE2eHarness) (before after : S.Chain) (accounts : List Bytes) (ix : Instruction)
      → submit S h before accounts ix ≡ ok after
      → Included S h before after accounts ix
  unfolding submit
  submit-Included h before after accounts ix e =
      let (nonces, n, e1) =
        >>=-eq-ok (context get_nonces (S.get_accounts_nonces before (h.signer ∷ []))) _ e in
      let (key, k, e2) =
        >>=-eq-ok (ok_or (S.get_account_public_signing_key h.signer) no_signing_key) _ e1 in
      let (message, m, e3) =
        >>=-eq-ok (context message_try_new (S.try_new h.verifier_program_id accounts nonces ix)) _
          e2 in
      let ((tx_hash, sent), s, e4) =
        >>=-eq-ok (context send (S.send_transaction before (S.signed message key))) _ e3 in
      let (included, g, e5) =
        >>=-eq-ok (context get_tx (S.get_transaction (S.wait_for_block sent) tx_hash)) _ e4 in
      let (_, i, e6) = >>=-eq-ok (included_or_bail included) _ e5 in
      let (tx, there) = included_or_bail-eq-ok included i in
      let same : after ≡ S.wait_for_block sent = cc in
      record {
        nonces = nonces;
        key = key;
        message = message;
        tx_hash = tx_hash;
        sent = sent;
        transaction = tx;
        fresh = context-eq-ok _ _ n;
        signer_key = ok_or-eq-ok _ _ k;
        built = context-eq-ok _ _ m;
        acknowledged = context-eq-ok _ _ s;
        waited = same;
        landed = ap (λ c. S.get_transaction c tx_hash) same ∙ context-eq-ok _ _ g ∙ ap ok there;
      }

-- Let `execute` succeed on a proposal whose target program is the 32-byte form that the harness
-- makes of an id of eight 32-bit words, as it does for the `noop` program in `propose`. Then the
-- verifier emits one chained call, of the proposal's action bytes, to the program with that very
-- id.
pub execute-program_id :
    (P : Platform) (H : Hasher) (state proposal vault submitter : AccountWithMetadata)
    (create_key : Bytes) (index : ℕ) (out : SpelOutput) (body : Proposal) (id : List ℕ)
    → length id ≡ 8
    → All (λ w. w < 2 ^ 32) id
    → Holds P.proposals proposal body
    → body.target_program ≡ program_id_to_core_bytes id
    → execute P H state proposal vault submitter create_key index ≡ ok out
    → (call : ChainedCall) × (out.chained_calls ≡ call ∷ [])
      × (call.program_id ≡ id)
      × (call.instruction_data ≡ P.serde_to_vec body.action_bytes)
execute-program_id P H state proposal vault submitter create_key index out body id size words holds
      target ran =
    let x = execute-Executes P H state proposal vault submitter create_key index out ran in
    let same : x.proposal_body ≡ body =
      let e : some x.proposal_body ≡ some body = sym x.proposal_read ∙ holds in cc in
    (
      vault_call P H vault create_key x.proposal_body,
      ap (λ (o : SpelOutput). o.chained_calls) x.written,
      ap (λ (b : Proposal). program_words b.target_program 0 8) same
          ∙ ap (λ (t : Bytes). program_words t 0 8) target
          ∙ program_words-program_id_to_core_bytes id size words,
      ap (λ (b : Proposal). P.serde_to_vec b.action_bytes) same,
    )
