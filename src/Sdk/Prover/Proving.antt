-- ===== src/Sdk/Prover/Proving.antt =====
-- sdk/src/prover.rs: `ApprovalProver::prove` with its cache and `run_risc0_prover`, and the harness's
-- `assert_inner_receipt_verifies` of e2e_tests/src/harness.rs. risc0 and bincode are parameters; an
-- error's message is as it is formatted. The ELF that `new` stores is an argument of `prove`.
pub mod Receipts
pub mod Journals
use private_m_of_n_multisig.Common.{
  ℕ, ◌≡◌, ◌||◌, Bool, true, false, not, fail_if, Option, none, some, List, [], ◌∷◌, Result, ok, err,
  ◌>>=◌, ◌>>◌, ok_or, if◌then◌else◌,
}
use private_m_of_n_multisig.Common.Bytes.{Bytes, bytes_eq}
use private_m_of_n_multisig.Crypto.Hash.{Hasher}
use private_m_of_n_multisig.Circuit.{GuestEnv, main}
use private_m_of_n_multisig.Sdk.Errors.{
  SdkError, proof_generation_failed, receipt_verification_failed, session_status_mismatch,
}
use private_m_of_n_multisig.Sdk.Prover.{
  ApprovalProver, proposal_id, guest_stream, public_inputs_bytes,
}

-- `APPROVE_CIRCUIT_IMAGE_ID_PINNED` of sdk/src/lib.rs, which `image_id` returns.
abbrev pub image_id : List ℕ
image_id =
    1683419497 ∷ 2665931562 ∷ 2484565372 ∷ 1634782365 ∷ 3092099954 ∷ 3316541401 ∷ 2039021021
    ∷ 3470376700 ∷ []

-- What the SDK uses of risc0 and bincode.
pub record Risc0 (H : Hasher) (E : GuestEnv) : Type 1 where
  pub Env : Type 0
  pub Receipt : Type 0
  pub approve_circuit_elf : Bytes
  -- `ExecutorEnv::builder()`, with the slices written, and `build`.
  pub build : Bytes → Result Bytes Env
  -- `default_prover().prove(env, elf)`, with the receipt taken out.
  pub prove : Env → Bytes → Result Bytes Receipt
  pub verify : Receipt → List ℕ → Result Bytes (Unit {0})
  pub journal : Receipt → Bytes
  -- `bincode::serialize` and `bincode::deserialize`.
  pub serialize : Receipt → Result Bytes Bytes
  pub deserialize : Bytes → Option Receipt
  pub deserialize-serialize :
      (r : Receipt) (bytes : Bytes) → serialize r ≡ ok bytes → deserialize bytes ≡ some r
  -- A receipt of the approve circuit has the journal that the guest commits on the stream.
  pub journal-prove :
      (stream : Bytes) (env : Env) (r : Receipt)
      → build stream ≡ ok env
      → prove env approve_circuit_elf ≡ ok r
      → main H E stream ≡ ok (journal r)

-- `matches!(env::var("RISC0_DEV_MODE").as_deref(), Ok("1") | Ok("true"))`
abbrev pub is_dev_mode : Option Bytes → Bool
is_dev_mode none = false
is_dev_mode (some var) = bytes_eq var (b'1' ∷ []) || bytes_eq var (b't' ∷ b'r' ∷ b'u' ∷ b'e' ∷ [])

-- `map_err`
abbrev pub failing : {A : Type 0} → (Bytes → SdkError) → Result Bytes A → Result SdkError A
failing e (err message) = err (e message)
failing e (ok a) = ok a

-- The four ways in which the harness's check fails.
pub data CheckError : Type 0 where
  inner_proof : SdkError → CheckError
  decode_receipt : CheckError
  receipt_verify : Bytes → CheckError
  journal_differs : CheckError

abbrev pub checked : Result Bytes (Unit {0}) → Result CheckError (Unit {0})
checked (err message) = err (receipt_verify message)
checked (ok u) = ok u

module _ (H : Hasher) (E : GuestEnv) (R : Risc0 H E) (dev_mode : Option Bytes) (elf : Bytes) where
  unfoldable pub run_risc0_prover : ApprovalProver → Bytes → Result SdkError R.Receipt
  run_risc0_prover p id = do
    env ← failing proof_generation_failed (R.build (guest_stream p id))
    receipt ← failing proof_generation_failed (R.prove env elf)
    if is_dev_mode dev_mode
        then ok tt
        else failing receipt_verification_failed (R.verify receipt image_id)
    ok receipt

  -- `prove` where nothing is cached: the encoded receipt.
  unfoldable pub prove_encoded : ApprovalProver → Result SdkError Bytes
  unfolding run_risc0_prover
  prove_encoded p = do
    receipt ← run_risc0_prover p (proposal_id H p)
    failing proof_generation_failed (R.serialize receipt)

  abbrev pub cache : ApprovalProver → Result SdkError Bytes → Result SdkError Bytes × ApprovalProver
  cache p (ok encoded) = (ok encoded, record p { receipt = some encoded })
  cache p (err e) = (err e, p)

  abbrev pub prove_from : ApprovalProver → Option Bytes → Result SdkError Bytes × ApprovalProver
  prove_from p (some cached) = (ok cached, p)
  prove_from p none = cache p (prove_encoded p)

  unfoldable pub prove : ApprovalProver → Result SdkError Bytes × ApprovalProver
  prove p = prove_from p p.receipt

  -- The check of what `prove` returned, given the image id that the program crate exports.
  abbrev pub check_receipt :
      List ℕ → Result SdkError Bytes × ApprovalProver → Result CheckError (Unit {0})
  check_receipt circuit_id (err e, p) = err (inner_proof e)
  check_receipt circuit_id (ok bytes, p) = do
    receipt ← ok_or (R.deserialize bytes) decode_receipt
    checked (R.verify receipt circuit_id)
    fail_if (not (bytes_eq (R.journal receipt) (public_inputs_bytes H p))) journal_differs

  unfoldable pub assert_inner_receipt_verifies :
      List ℕ → ApprovalProver → Result CheckError (Unit {0})
  assert_inner_receipt_verifies circuit_id p = check_receipt circuit_id (prove p)

-- `receipt_bytes`
unfoldable pub receipt_bytes : ApprovalProver → Result SdkError Bytes
receipt_bytes p = ok_or p.receipt session_status_mismatch
