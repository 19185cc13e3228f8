-- ===== src/E2e/Quickstart.antt =====
-- e2e_tests/src/bin/quickstart.rs: `run_layer_a`. Members' random bytes, risc0 and the ids of the
-- generated methods are parameters. What the program prints about the approvals is its result here;
-- the environment variable is read with its default of the development mode.
pub mod Approvals
pub mod Outcome
pub mod Runs
pub mod Arguments
pub mod Exit
use private_m_of_n_multisig.Common.{
  ℕ, zero, suc, ◌+◌, ◌≡◌, Bool, true, false, not, Option, none, some, List, [], ◌∷◌, ◌++◌, Result,
  ok, err, ◌>>=◌, ◌>>◌, fail_if, ok_or, ltb, leb, ◌==◌, replicate, if◌then◌else◌,
}
use private_m_of_n_multisig.Common.Bytes.{Bytes, bytes_eq}
use private_m_of_n_multisig.Crypto.Hash.{Hasher}
use private_m_of_n_multisig.Crypto.Identity.{Identity}
use private_m_of_n_multisig.Circuit.{GuestEnv}
use private_m_of_n_multisig.Sdk.Errors.{SdkError}
use private_m_of_n_multisig.Sdk.Keystore as Keystore
use private_m_of_n_multisig.Sdk.Builder.{
  MultisigBuilder, MultisigFinalized, MultisigStateSnapshot, contains, add_member, new_builder,
  finalize, merkle_proof, snapshot,
}
use private_m_of_n_multisig.Sdk.Prover as Prover
use private_m_of_n_multisig.Sdk.Prover.{
  ApprovalProver, member_commitment, public_inputs_bytes, nullifier,
}
use private_m_of_n_multisig.Sdk.Prover.Proving.{Risc0, prove}
use private_m_of_n_multisig.E2e.ProgramId.{image_id_to_account_id}

abbrev pub demo_create_key : Bytes
demo_create_key = replicate 32 178

abbrev pub demo_program_id : Bytes
demo_program_id = replicate 32 161

pub data QuickError : Type 0 where
  threshold_zero members_zero threshold_exceeds_members : QuickError
  keygen_panicked empty_members : QuickError
  failed : SdkError → QuickError
  deserialize_receipt : QuickError
  receipt_verify : Bytes → QuickError
  journal_mismatch duplicate_nullifier : QuickError
  too_few_approvals double_vote_model_failed : QuickError

abbrev pub context : {A : Type 0} → Result SdkError A → Result QuickError A
context (err e) = err (failed e)
context (ok a) = ok a

abbrev pub verified : Result Bytes (Unit {0}) → Result QuickError (Unit {0})
verified (err message) = err (receipt_verify message)
verified (ok u) = ok u

abbrev pub keygen : Result Keystore.Failure Identity → Result QuickError Identity
keygen (err e) = err keygen_panicked
keygen (ok member) = ok member

-- `env::set_var("RISC0_DEV_MODE", "1")` where the variable is not set.
abbrev pub mode_or_default : Option Bytes → Option Bytes
mode_or_default none = some (b'1' ∷ [])
mode_or_default (some var) = some var

-- Members 0 to count - 1, each from its random bytes.
unfoldable pub new_members :
    (ℕ → Option Bytes × Option Bytes) → ℕ → ℕ → Result QuickError (List Identity)
new_members random i zero = ok []
new_members random i (suc rounds) = do
  member ← keygen (Keystore.new (random i).0 (random i).1)
  rest ← new_members random (i + 1) rounds
  ok (member ∷ rest)

module _ (H : Hasher) where
  unfoldable pub add_members : List Identity → MultisigBuilder → Result QuickError MultisigBuilder
  add_members [] b = ok b
  add_members (member ∷ rest) b = do
    let (b', r) = add_member b (member_commitment H member)
    context r
    add_members rest b'

-- The multisig and the proposal that the approvals are for.
pub record Demo : Type 0 where
  pub finalized : MultisigFinalized
  pub snapshot : MultisigStateSnapshot
  pub target_program : Bytes
  pub action_bytes : Bytes

module _ (H : Hasher) (E : GuestEnv) (R : Risc0 H E) (dev_mode : Option Bytes)
    (circuit_id : List ℕ) where
  -- The prover that the loop and the replay each build for a member.
  unfoldable pub prover_of : Demo → Identity → Result QuickError ApprovalProver
  prover_of d member = do
    proof ← context (merkle_proof H d.finalized (member_commitment H member))
    context (Prover.new H member d.snapshot 0 d.action_bytes d.target_program proof)

  -- The checks of one receipt, and the nullifier.
  abbrev pub check_receipt : Result SdkError Bytes × ApprovalProver → Result QuickError Bytes
  check_receipt (r, prover) = do
    receipt_bytes ← context r
    receipt ← ok_or (R.deserialize receipt_bytes) deserialize_receipt
    verified (R.verify receipt circuit_id)
    fail_if (not (bytes_eq (R.journal receipt) (public_inputs_bytes H prover))) journal_mismatch
    ok (nullifier H prover)

  -- The loop's body up to the nullifier.
  unfoldable pub approve_one : Demo → Identity → Result QuickError Bytes
  unfolding prover_of
  approve_one d member = do
    prover ← prover_of d member
    check_receipt (prove H E R dev_mode R.approve_circuit_elf prover)

  -- The loop, with the nullifiers so far, the last one first, and `approvals_recorded`.
  unfoldable pub approve_all :
      Demo → ℕ → List Identity → List Bytes → ℕ → Result QuickError (List Bytes × ℕ)
  unfolding approve_one
  approve_all d threshold [] nullifiers count = ok (nullifiers, count)
  approve_all d threshold (member ∷ rest) nullifiers count = do
    nullifier ← approve_one d member
    fail_if (contains nullifiers nullifier) duplicate_nullifier
    let later = approve_all d threshold rest (nullifier ∷ nullifiers) (count + 1)
    if leb threshold (count + 1) then ok (nullifier ∷ nullifiers, count + 1) else later

  -- The double vote of `members[0]`.
  unfoldable pub replay : Demo → List Identity → List Bytes → Result QuickError (Unit {0})
  unfolding prover_of
  replay d [] nullifiers = err empty_members
  replay d (member ∷ rest) nullifiers = do
    prover ← prover_of d member
    fail_if (not (contains nullifiers (nullifier H prover))) double_vote_model_failed

  -- From the approval loop on.
  unfoldable pub run_demo : Demo → ℕ → List Identity → Result QuickError (List Bytes × ℕ)
  unfolding approve_all replay
  run_demo d threshold members = do
    (nullifiers, approvals_recorded) ← approve_all d threshold members [] 0
    fail_if (ltb approvals_recorded threshold) too_few_approvals
    replay d members nullifiers
    ok (nullifiers, approvals_recorded)

unfoldable pub run_layer_a :
    (H : Hasher) (E : GuestEnv)
    → Risc0 H E
    → Option Bytes
    → List ℕ
    → List ℕ
    → (ℕ → Option Bytes × Option Bytes)
    → ℕ
    → ℕ
    → Bytes
    → Result QuickError (List Bytes × ℕ)
unfolding new_members add_members run_demo
run_layer_a H E R var circuit_id noop_id random threshold member_count action = do
  fail_if (threshold == 0) threshold_zero
  fail_if (member_count == 0) members_zero
  fail_if (ltb member_count threshold) threshold_exceeds_members
  members ← new_members random 0 member_count
  builder ← add_members H members (new_builder H threshold)
  finalized ← context (finalize H builder)
  snap ←
      context (
        snapshot H demo_program_id demo_create_key finalized.members_root finalized.m finalized.n 1)
  run_demo H E R (mode_or_default var) circuit_id
      (record {
        finalized = finalized;
        snapshot = snap;
        target_program = image_id_to_account_id noop_id;
        action_bytes = action;
      })
      threshold members
