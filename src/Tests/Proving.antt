-- ===== src/Tests/Proving.antt =====
-- A prover that runs the circuit, and the theorems on Alice's receipts.
use private_m_of_n_multisig.Common.{
  ◌≡◌, refl, ap, ◌∙◌, Option, none, some, [], ◌∷◌, Result, ok, err, if◌then◌else◌,
}
use private_m_of_n_multisig.Common.Bytes.{Bytes, bytes_eq}
use private_m_of_n_multisig.Circuit.{Panic, main}
use private_m_of_n_multisig.Sdk.Prover.{ApprovalProver, public_inputs_bytes}
use private_m_of_n_multisig.Sdk.Prover.Proving.{
  Risc0, image_id, run_risc0_prover, prove_encoded, prove, assert_inner_receipt_verifies,
}
use private_m_of_n_multisig.Sdk.Prover.Proving.Journals.{assert_inner_receipt_verifies-prove}
use private_m_of_n_multisig.Tests.Toy.{hasher, guest_env}
use private_m_of_n_multisig.Tests.Scenario.{
  alice, alice-IsIdentity, alice-IsProof, snapshot, action, target, proof, prover, prover_lem,
  root_size, approved,
}

-- A receipt is its journal.
abbrev pub to_receipt : Result Panic Bytes → Result Bytes Bytes
to_receipt (ok journal) = ok journal
to_receipt (err p) = err []

abbrev pub elf : Bytes
elf = 127 ∷ []

abbrev pub run_elf : Bytes → Bytes → Result Bytes Bytes
run_elf stream program =
    if bytes_eq program elf then to_receipt (main hasher guest_env stream) else err []

pub to_receipt-eq-ok : (r : Result Panic Bytes) (j : Bytes) → to_receipt r ≡ ok j → r ≡ ok j
to_receipt-eq-ok (ok b) j h = cc
to_receipt-eq-ok (err p) j h = cc

pub run_elf_lem :
    (stream env journal : Bytes)
    → ◌≡◌ {A = Result Bytes Bytes} (ok stream) (ok env)
    → run_elf env elf ≡ ok journal
    → main hasher guest_env stream ≡ ok journal
unfolding bytes_eq
run_elf_lem stream env journal built ran =
    let same : stream ≡ env = cc in
    ap (main hasher guest_env) same ∙ to_receipt-eq-ok (main hasher guest_env env) journal ran

pub same_bytes :
    (r b : Bytes)
    → ◌≡◌ {A = Result Bytes Bytes} (ok r) (ok b)
    → ◌≡◌ {A = Option Bytes} (some b) (some r)
same_bytes r b e = cc

abbrev pub risc0 : Risc0 hasher guest_env
risc0 = record {
  Env = Bytes;
  Receipt = Bytes;
  approve_circuit_elf = elf;
  build = λ stream. ok stream;
  prove = run_elf;
  verify = λ r id. ok tt;
  journal = λ r. r;
  serialize = λ r. ok r;
  deserialize = λ b. some b;
  deserialize-serialize = same_bytes;
  journal-prove = run_elf_lem;
}

abbrev proved : ApprovalProver
proved = record prover { receipt = some (public_inputs_bytes hasher prover) }

prove_lem :
    prove hasher guest_env risc0 none elf prover ≡ (ok (public_inputs_bytes hasher prover), proved)
unfolding prove prove_encoded run_risc0_prover bytes_eq
prove_lem = rw (approved.0) refl

assert_inner_receipt_verifies-prove_example :
    assert_inner_receipt_verifies hasher guest_env risc0 none elf image_id prover ≡ ok tt
assert_inner_receipt_verifies-prove_example =
    assert_inner_receipt_verifies-prove hasher guest_env risc0 none elf alice snapshot 0 action
      target proof prover proved (public_inputs_bytes hasher prover) alice-IsIdentity
      (alice-IsProof.2) root_size refl prover_lem prove_lem image_id refl refl
