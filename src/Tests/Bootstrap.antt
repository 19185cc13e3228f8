-- ===== src/Tests/Bootstrap.antt =====
-- The harness brought up on a stack that logs what is asked of it.
use private_m_of_n_multisig.Common.{ℕ, ◌≡◌, refl, List, [], ◌∷◌, ◌++◌, Result, ok}
use private_m_of_n_multisig.Common.Bytes.{Bytes}
use private_m_of_n_multisig.E2e.ProgramId.{program_id_to_core_bytes}
use private_m_of_n_multisig.E2e.Harness.{MultisigE2eHarness}
use private_m_of_n_multisig.E2e.Harness.Bootstrap.{
  Command, deploy_program_command, new_public_account, SubcommandReturnValue, register_account,
  another_value, Stack, BootstrapError, deploy_program, register_public_account, bootstrap,
}
use private_m_of_n_multisig.E2e.Harness.Bootstrap.Deployed.{Bootstrapped, bootstrap-Bootstrapped}

abbrev answer : Command → SubcommandReturnValue
answer (deploy_program_command path) = another_value []
answer new_public_account = register_account (7 ∷ [])

abbrev stack : Stack
stack = record {
  Context = List Bytes;
  test_context = ok [];
  Program = Bytes;
  program_new = λ elf. ok elf;
  id = λ elf. elf;
  tempdir = λ log. ok (1 ∷ [], log);
  join = λ dir name. dir ++ name;
  write = λ log path content. ok (path ∷ log);
  execute_subcommand = λ log c. ok (answer c, log);
  wait_for_block = λ log. [] ∷ log;
}

abbrev harness : MultisigE2eHarness
harness = record {
  verifier_program_id = 5 ∷ [];
  verifier_program_id_bytes = program_id_to_core_bytes (8 ∷ []);
  noop_target_bytes = program_id_to_core_bytes (9 ∷ []);
  signer = 7 ∷ [];
}

abbrev log_of : {A : Type 0} → Result BootstrapError (A × List Bytes) → List Bytes
log_of (ok (a, log)) = log
log_of _ = []

bootstrap_lem :
    bootstrap stack (5 ∷ []) (6 ∷ []) (8 ∷ []) (9 ∷ [])
    ≡ ok (harness, log_of (bootstrap stack (5 ∷ []) (6 ∷ []) (8 ∷ []) (9 ∷ [])))
unfolding bootstrap deploy_program register_public_account
bootstrap_lem = refl

bootstrap-Bootstrapped_example :
    let log = log_of (bootstrap stack (5 ∷ []) (6 ∷ []) (8 ∷ []) (9 ∷ [])) in
    Bootstrapped stack (5 ∷ []) (6 ∷ []) (8 ∷ []) (9 ∷ []) harness log
    × ((id : List ℕ)
        → bootstrap stack (5 ∷ []) (6 ∷ []) id (9 ∷ [])
          ≡ ok (record harness { verifier_program_id_bytes = program_id_to_core_bytes id }, log))
bootstrap-Bootstrapped_example =
    bootstrap-Bootstrapped stack (5 ∷ []) (6 ∷ []) (8 ∷ []) (9 ∷ []) harness _ bootstrap_lem
