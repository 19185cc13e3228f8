-- ===== src/Sdk/Prover/Proving/Receipts.antt =====
-- What `prove` returns and keeps: the receipt in its cache, and its failures.
use private_m_of_n_multisig.Common.{
  arith, ◌≡◌, ◌⊎◌, inl, inr, refl, sym, Bool, true, false, Option, none, some, Result, ok, err,
  >>=-eq-ok, >>=-eq-err, if◌then◌else◌,
}
use private_m_of_n_multisig.Common.Bytes.{Bytes}
use private_m_of_n_multisig.Crypto.Hash.{Hasher}
use private_m_of_n_multisig.Circuit.{GuestEnv}
use private_m_of_n_multisig.Sdk.Errors.{
  SdkError, proof_generation_failed, receipt_verification_failed,
}
use private_m_of_n_multisig.Sdk.Prover.{ApprovalProver, proposal_id, guest_stream}
use private_m_of_n_multisig.Sdk.Prover.Proving.{
  Risc0, image_id, is_dev_mode, failing, run_risc0_prover, prove_encoded, cache, prove_from, prove,
  receipt_bytes,
}

failing-eq-ok :
    {A : Type 0} (e : Bytes → SdkError) (r : Result Bytes A) {a : A} → failing e r ≡ ok a → r ≡ ok a
failing-eq-ok e (err m) h = cc
failing-eq-ok e (ok a) h = cc

failing-eq-err :
    {A : Type 0} (e : Bytes → SdkError) (r : Result Bytes A) {f : SdkError}
    → failing e r ≡ err f
    → (message : Bytes) × (f ≡ e message)
failing-eq-err e (err m) h = (m, cc)
failing-eq-err e (ok a) h = cc

module _ (H : Hasher) (E : GuestEnv) (R : Risc0 H E) (dev_mode : Option Bytes) (elf : Bytes) where
  pub cache-eq-ok :
      (p q : ApprovalProver) (r : Result SdkError Bytes) (bytes : Bytes)
      → cache H E R dev_mode elf p r ≡ (ok bytes, q)
      → (r ≡ ok bytes) × (q ≡ record p { receipt = some bytes })
  cache-eq-ok p q (err e) bytes h = cc
  cache-eq-ok p q (ok b) bytes h = (cc, ground arith)

  cache-eq-err :
      (p q : ApprovalProver) (r : Result SdkError Bytes) (e : SdkError)
      → cache H E R dev_mode elf p r ≡ (err e, q)
      → (r ≡ err e) × (q ≡ p)
  cache-eq-err p q (err f) e h = (cc, cc)
  cache-eq-err p q (ok b) e h = cc

  prove_from-eq-ok :
      (p q : ApprovalProver) (bytes : Bytes) (cached : Option Bytes)
      → p.receipt ≡ cached
      → prove_from H E R dev_mode elf p cached ≡ (ok bytes, q)
      → q ≡ record p { receipt = some bytes }
  prove_from-eq-ok p q bytes none c h =
      (cache-eq-ok p q (prove_encoded H E R dev_mode elf p) bytes h).1
  prove_from-eq-ok p q bytes (some b) c h = ground arith

  -- Once `prove` has succeeded, the prover has changed in its cached receipt only, `receipt_bytes`
  -- returns the bytes that `prove` returned, and a further `prove` returns them again and changes
  -- nothing, whatever the prover and the environment would do then.
  pub prove-prove :
      (p q : ApprovalProver) (bytes : Bytes) (later : Risc0 H E) (later_mode : Option Bytes)
      → prove H E R dev_mode elf p ≡ (ok bytes, q)
      → (q ≡ record p { receipt = some bytes })
        × (receipt_bytes q ≡ ok bytes)
        × (prove H E later later_mode elf q ≡ (ok bytes, q))
  unfolding prove receipt_bytes
  prove-prove p q bytes later later_mode h =
      let same = prove_from-eq-ok p q bytes p.receipt refl h in (same, rw same refl, rw same refl)

  -- The receipt behind the bytes of a first `prove`.
  pub record Proved (p : ApprovalProver) (bytes : Bytes) : Type 0 where
    pub env : R.Env
    pub receipt : R.Receipt
    pub built : R.build (guest_stream p (proposal_id H p)) ≡ ok env
    pub proved : R.prove env elf ≡ ok receipt
    pub serialized : R.serialize receipt ≡ ok bytes
    pub verified : is_dev_mode dev_mode ≡ false → R.verify receipt image_id ≡ ok tt

  verified_lem :
      (b : Bool) (r : Result Bytes (Unit {0})) (u : Unit {0})
      → (if b then ok tt else failing receipt_verification_failed r) ≡ ok u
      → b ≡ false
      → r ≡ ok tt
  verified_lem true r u h e = cc
  verified_lem false r u h e = failing-eq-ok receipt_verification_failed r h

  pub prove_encoded-Proved :
      (p : ApprovalProver) (bytes : Bytes)
      → prove_encoded H E R dev_mode elf p ≡ ok bytes
      → Proved p bytes
  unfolding prove_encoded run_risc0_prover
  prove_encoded-Proved p bytes h =
      let (receipt, run, coded) =
        >>=-eq-ok (run_risc0_prover H E R dev_mode elf p (proposal_id H p)) _ h in
      let (env, b, h1) =
        >>=-eq-ok (failing proof_generation_failed (R.build (guest_stream p (proposal_id H p)))) _
          run in
      let (r, pr, h2) = >>=-eq-ok (failing proof_generation_failed (R.prove env elf)) _ h1 in
      let (u, v, h3) =
        >>=-eq-ok
          (if is_dev_mode dev_mode
            then ok tt
            else failing receipt_verification_failed (R.verify r image_id))
          _ h2 in
      let same : r ≡ receipt = ground arith in
      record {
        env = env;
        receipt = r;
        built = failing-eq-ok _ _ b;
        proved = failing-eq-ok _ _ pr;
        serialized = failing-eq-ok _ _ (rw (sym same) at coded);
        verified = verified_lem (is_dev_mode dev_mode) (R.verify r image_id) u v;
      }

  prove_from-eq-err :
      (p q : ApprovalProver) (e : SdkError) (cached : Option Bytes)
      → p.receipt ≡ cached
      → prove_from H E R dev_mode elf p cached ≡ (err e, q)
      → (p.receipt ≡ none) × (prove_encoded H E R dev_mode elf p ≡ err e) × (q ≡ p)
  prove_from-eq-err p q e none c h =
      let (fails, same) = cache-eq-err p q (prove_encoded H E R dev_mode elf p) e h in
      (c, fails, same)
  prove_from-eq-err p q e (some b) c h = cc

  verify_fails :
      (b : Bool) (r : Result Bytes (Unit {0})) (e : SdkError)
      → (if b then ok tt else failing receipt_verification_failed r) ≡ err e
      → (b ≡ false) × ((message : Bytes) × (e ≡ receipt_verification_failed message))
  verify_fails true r e h = cc
  verify_fails false r e h = (refl, failing-eq-err receipt_verification_failed r h)

  -- A `prove` that fails leaves the prover as it was, had nothing cached, and returns
  -- `ProofGenerationFailed`, or `ReceiptVerificationFailed` unless the environment asks for the
  -- development mode.
  pub prove_fails :
      (p q : ApprovalProver) (e : SdkError)
      → prove H E R dev_mode elf p ≡ (err e, q)
      → (q ≡ p)
        × (p.receipt ≡ none)
        × (((message : Bytes) × (e ≡ proof_generation_failed message))
            ⊎ ((is_dev_mode dev_mode ≡ false)
                × ((message : Bytes) × (e ≡ receipt_verification_failed message))))
  unfolding prove prove_encoded run_risc0_prover
  prove_fails p q e h =
      let (empty, fails, same) = prove_from-eq-err p q e p.receipt refl h in
      (
        same,
        empty,
        elim (>>=-eq-err (run_risc0_prover H E R dev_mode elf p (proposal_id H p)) _ fails) [
          | inr (receipt, _, f) ↦
              inl (failing-eq-err proof_generation_failed (R.serialize receipt) f)
          | inl h1 ↦
              elim (>>=-eq-err
                (failing proof_generation_failed (R.build (guest_stream p (proposal_id H p)))) _
                h1) [
                  | inl f ↦ inl (failing-eq-err proof_generation_failed _ f)
                  | inr (env, _, h2) ↦
                      elim (>>=-eq-err (failing proof_generation_failed (R.prove env elf)) _ h2) [
                        | inl f ↦ inl (failing-eq-err proof_generation_failed _ f)
                        | inr (r, _, h3) ↦
                            elim (>>=-eq-err
                              (if is_dev_mode dev_mode
                                then ok tt
                                else failing receipt_verification_failed (R.verify r image_id))
                              _ h3) [
                                | inl f ↦
                                    inr (
                                      verify_fails (is_dev_mode dev_mode) (R.verify r image_id) e f)
                                | inr (_, _, f) ↦ cc
                              ]
                      ]
                ]
        ],
      )
