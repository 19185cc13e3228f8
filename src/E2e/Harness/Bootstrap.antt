-- ===== src/E2e/Harness/Bootstrap.antt =====
-- e2e_tests/src/harness.rs: `bootstrap` with `deploy_program` and `register_public_account`. The
-- test context, the wallet's commands and the file system are parameters. The ELFs and image ids,
-- which the build generates, are arguments.
pub mod Deployed
use private_m_of_n_multisig.Common.{
  ℕ, ◌≡◌, refl, sym, ap, ◌∙◌, List, [], ◌∷◌, Result, ok, err, ◌>>=◌, >>=-eq-ok,
}
use private_m_of_n_multisig.Common.Bytes.{Bytes}
use private_m_of_n_multisig.E2e.ProgramId.{program_id_to_core_bytes}
use private_m_of_n_multisig.E2e.Harness.{MultisigE2eHarness}

-- The commands of the wallet that the harness issues, and what a command may return.
pub data Command : Type 0 where
  deploy_program_command : Bytes → Command
  new_public_account : Command

pub data SubcommandReturnValue : Type 0 where
  register_account : Bytes → SubcommandReturnValue
  another_value : Bytes → SubcommandReturnValue

pub record Stack : Type 1 where
  -- The test context, with the chain, the wallet and the files.
  pub Context : Type 0
  pub test_context : Result Bytes Context
  pub Program : Type 0
  -- `Program::new` and `Program::id`
  pub program_new : Bytes → Result Bytes Program
  pub id : Program → List ℕ
  pub tempdir : Context → Result Bytes (Bytes × Context)
  -- `dir.path().join(name)`
  pub join : Bytes → Bytes → Bytes
  pub write : Context → Bytes → Bytes → Result Bytes Context
  pub execute_subcommand : Context → Command → Result Bytes (SubcommandReturnValue × Context)
  pub wait_for_block : Context → Context

pub data BootstrapError : Type 0 where
  bring_up verifier_program noop_program temp_dir register : Bytes → BootstrapError
  write_file deploy : Bytes → Bytes → BootstrapError
  not_registered : Bytes → BootstrapError

-- `context` and `with_context`
abbrev pub explain :
    {A : Type 0} → (Bytes → BootstrapError) → Result Bytes A → Result BootstrapError A
explain e (err message) = err (e message)
explain e (ok a) = ok a

-- The names of the files.
abbrev pub verifier_name : Bytes
verifier_name =
    b'p' ∷ b'r' ∷ b'i' ∷ b'v' ∷ b'a' ∷ b't' ∷ b'e' ∷ b'_' ∷ b'm' ∷ b'u' ∷ b'l' ∷ b't' ∷ b'i' ∷ b's'
    ∷ b'i' ∷ b'g' ∷ b'.' ∷ b'b' ∷ b'i' ∷ b'n' ∷ []

abbrev pub noop_name : Bytes
noop_name = b'n' ∷ b'o' ∷ b'o' ∷ b'p' ∷ b'.' ∷ b'b' ∷ b'i' ∷ b'n' ∷ []

module _ (S : Stack) where
  unfoldable pub deploy_program : S.Context → Bytes → Bytes → Result BootstrapError S.Context
  deploy_program ctx name elf = do
    (dir, ctx1) ← explain temp_dir (S.tempdir ctx)
    let path = S.join dir name
    ctx2 ← explain (write_file name) (S.write ctx1 path elf)
    (_, ctx3) ← explain (deploy name) (S.execute_subcommand ctx2 (deploy_program_command path))
    ok ctx3

  -- `match ret`
  abbrev pub account_or_bail :
      SubcommandReturnValue × S.Context → Result BootstrapError (Bytes × S.Context)
  account_or_bail (register_account account_id, ctx) = ok (account_id, ctx)
  account_or_bail (another_value shown, ctx) = err (not_registered shown)

  unfoldable pub register_public_account : S.Context → Result BootstrapError (Bytes × S.Context)
  register_public_account ctx = do
    ret ← explain register (S.execute_subcommand ctx new_public_account)
    account_or_bail ret

  unfoldable pub bootstrap :
      Bytes → Bytes → List ℕ → List ℕ → Result BootstrapError (MultisigE2eHarness × S.Context)
  bootstrap verifier_elf noop_elf verifier_image_id noop_id = do
    ctx ← explain bring_up S.test_context
    verifier ← explain verifier_program (S.program_new verifier_elf)
    _ ← explain noop_program (S.program_new noop_elf)
    ctx1 ← deploy_program ctx verifier_name verifier_elf
    ctx2 ← deploy_program ctx1 noop_name noop_elf
    (signer, ctx3) ← register_public_account (S.wait_for_block ctx2)
    ok (
      record {
        verifier_program_id = S.id verifier;
        verifier_program_id_bytes = program_id_to_core_bytes verifier_image_id;
        noop_target_bytes = program_id_to_core_bytes noop_id;
        signer = signer;
      },
      ctx3,
    )
