-- ===== src/E2e/Harness/Bootstrap/Deployed.antt =====
-- What has happened when `bootstrap` of e2e_tests/src/harness.rs succeeds.
use private_m_of_n_multisig.Common.{ℕ, ◌≡◌, refl, sym, ap, ◌∙◌, List, Result, ok, err, >>=-eq-ok}
use private_m_of_n_multisig.Common.Bytes.{Bytes}
use private_m_of_n_multisig.E2e.ProgramId.{program_id_to_core_bytes}
use private_m_of_n_multisig.E2e.Harness.{MultisigE2eHarness}
use private_m_of_n_multisig.E2e.Harness.Bootstrap.{
  deploy_program_command, new_public_account, SubcommandReturnValue, register_account,
  another_value, Stack, BootstrapError, bring_up, verifier_program, noop_program, temp_dir,
  register, write_file, deploy, explain, verifier_name, noop_name, deploy_program, account_or_bail,
  register_public_account, bootstrap,
}

module _ (S : Stack) where
  -- The ELF was written to a file of a fresh directory, and the wallet deployed this file.
  pub record Deployed (before after : S.Context) (name elf : Bytes) : Type 0 where
    pub dir : Bytes
    pub ctx1 : S.Context
    pub ctx2 : S.Context
    pub answer : SubcommandReturnValue
    pub fresh : S.tempdir before ≡ ok (dir, ctx1)
    pub written : S.write ctx1 (S.join dir name) elf ≡ ok ctx2
    pub ran :
        S.execute_subcommand ctx2 (deploy_program_command (S.join dir name)) ≡ ok (answer, after)

  -- What has happened when `bootstrap` succeeds.
  pub record Bootstrapped (verifier_elf noop_elf : Bytes) (verifier_image_id noop_id : List ℕ)
      (h : MultisigE2eHarness) (after : S.Context) : Type 0 where
    pub ctx : S.Context
    pub ctx1 : S.Context
    pub ctx2 : S.Context
    pub verifier : S.Program
    pub noop : S.Program
    pub up : S.test_context ≡ ok ctx
    pub verifier_made : S.program_new verifier_elf ≡ ok verifier
    pub noop_made : S.program_new noop_elf ≡ ok noop
    pub verifier_deployed : Deployed ctx ctx1 verifier_name verifier_elf
    pub noop_deployed : Deployed ctx1 ctx2 noop_name noop_elf
    pub registered :
        S.execute_subcommand (S.wait_for_block ctx2) new_public_account
        ≡ ok (register_account h.signer, after)
    pub runtime_id : h.verifier_program_id ≡ S.id verifier
    pub core_id : h.verifier_program_id_bytes ≡ program_id_to_core_bytes verifier_image_id
    pub target : h.noop_target_bytes ≡ program_id_to_core_bytes noop_id

  explain-eq-ok :
      {A : Type 0} (e : Bytes → BootstrapError) (r : Result Bytes A) {a : A}
      → explain e r ≡ ok a
      → r ≡ ok a
  explain-eq-ok e (err m) h = cc
  explain-eq-ok e (ok a) h = cc

  deploy_program-Deployed :
      (before after : S.Context) (name elf : Bytes)
      → deploy_program S before name elf ≡ ok after
      → Deployed before after name elf
  unfolding deploy_program
  deploy_program-Deployed before after name elf e =
      let ((dir, ctx1), r1, e1) = >>=-eq-ok (explain temp_dir (S.tempdir before)) _ e in
      let (ctx2, r2, e2) =
        >>=-eq-ok (explain (write_file name) (S.write ctx1 (S.join dir name) elf)) _ e1 in
      let ((answer, ctx3), r3, e3) =
        >>=-eq-ok
          (explain (deploy name)
            (S.execute_subcommand ctx2 (deploy_program_command (S.join dir name))))
          _ e2 in
      let same : ctx3 ≡ after = cc in
      record {
        dir = dir;
        ctx1 = ctx1;
        ctx2 = ctx2;
        answer = answer;
        fresh = explain-eq-ok temp_dir _ r1;
        written = explain-eq-ok (write_file name) _ r2;
        ran = explain-eq-ok (deploy name) _ r3 ∙ ap (λ c. ok (answer, c)) same;
      }

  bailed :
      (r : SubcommandReturnValue × S.Context) (id : Bytes) (after : S.Context)
      → account_or_bail S r ≡ ok (id, after)
      → r ≡ (register_account id, after)
  bailed (register_account x, c) id after e = cc
  bailed (another_value shown, c) id after e = absurd cc

  register_public_account-eq-ok :
      (before after : S.Context) (id : Bytes)
      → register_public_account S before ≡ ok (id, after)
      → S.execute_subcommand before new_public_account ≡ ok (register_account id, after)
  unfolding register_public_account
  register_public_account-eq-ok before after id e =
      let (r, r1, e1) =
        >>=-eq-ok (explain register (S.execute_subcommand before new_public_account)) _ e in
      explain-eq-ok register _ r1 ∙ ap ok (bailed r id after e1)

  bootstrap_runs :
      (verifier_elf noop_elf : Bytes) (image_id noop_id : List ℕ) (ctx ctx1 ctx2 ctx3 : S.Context)
      (verifier noop : S.Program) (signer : Bytes)
      → explain bring_up S.test_context ≡ ok ctx
      → explain verifier_program (S.program_new verifier_elf) ≡ ok verifier
      → explain noop_program (S.program_new noop_elf) ≡ ok noop
      → deploy_program S ctx verifier_name verifier_elf ≡ ok ctx1
      → deploy_program S ctx1 noop_name noop_elf ≡ ok ctx2
      → register_public_account S (S.wait_for_block ctx2) ≡ ok (signer, ctx3)
      → bootstrap S verifier_elf noop_elf image_id noop_id
        ≡ ok (
          record {
            verifier_program_id = S.id verifier;
            verifier_program_id_bytes = program_id_to_core_bytes image_id;
            noop_target_bytes = program_id_to_core_bytes noop_id;
            signer = signer;
          },
          ctx3,
        )
  unfolding bootstrap
  bootstrap_runs verifier_elf noop_elf image_id noop_id ctx ctx1 ctx2 ctx3 verifier noop signer r0
        r1 r2 r3 r4 r5 =
      rw (r0, r1, r2, r3, r4, r5) refl

  -- A successful `bootstrap` brought the context up, made both programs, deployed the verifier and
  -- then the other, each from a file of a fresh directory, waited a block and registered the
  -- account that signs. The id under which transactions are sent is that of the verifier's ELF, and
  -- the one from which addresses are derived is that of the given image id: they are not compared,
  -- since with any other image id `bootstrap` succeeds as well, with other bytes for this second id
  -- only.
  pub bootstrap-Bootstrapped :
      (verifier_elf noop_elf : Bytes) (verifier_image_id noop_id : List ℕ) (h : MultisigE2eHarness)
      (after : S.Context)
      → bootstrap S verifier_elf noop_elf verifier_image_id noop_id ≡ ok (h, after)
      → Bootstrapped verifier_elf noop_elf verifier_image_id noop_id h after
        × ((id : List ℕ)
            → bootstrap S verifier_elf noop_elf id noop_id
              ≡ ok (record h { verifier_program_id_bytes = program_id_to_core_bytes id }, after))
  unfolding bootstrap
  bootstrap-Bootstrapped verifier_elf noop_elf image_id noop_id h after e =
      let (ctx, r0, e0) = >>=-eq-ok (explain bring_up S.test_context) _ e in
      let (verifier, r1, e1) =
        >>=-eq-ok (explain verifier_program (S.program_new verifier_elf)) _ e0 in
      let (noop, r2, e2) = >>=-eq-ok (explain noop_program (S.program_new noop_elf)) _ e1 in
      let (ctx1, r3, e3) = >>=-eq-ok (deploy_program S ctx verifier_name verifier_elf) _ e2 in
      let (ctx2, r4, e4) = >>=-eq-ok (deploy_program S ctx1 noop_name noop_elf) _ e3 in
      let ((signer, ctx3), r5, e5) =
        >>=-eq-ok (register_public_account S (S.wait_for_block ctx2)) _ e4 in
      let same : record {
        verifier_program_id = S.id verifier;
        verifier_program_id_bytes = program_id_to_core_bytes image_id;
        noop_target_bytes = program_id_to_core_bytes noop_id;
        signer = signer;
      }
          ≡ h =
        cc in
      let end : ctx3 ≡ after = cc in
      (
        record {
          ctx = ctx;
          ctx1 = ctx1;
          ctx2 = ctx2;
          verifier = verifier;
          noop = noop;
          up = explain-eq-ok bring_up _ r0;
          verifier_made = explain-eq-ok verifier_program _ r1;
          noop_made = explain-eq-ok noop_program _ r2;
          verifier_deployed = deploy_program-Deployed ctx ctx1 verifier_name verifier_elf r3;
          noop_deployed = deploy_program-Deployed ctx1 ctx2 noop_name noop_elf r4;
          registered =
              register_public_account-eq-ok (S.wait_for_block ctx2) ctx3 signer r5
              ∙ ap (λ (x : MultisigE2eHarness). ok (register_account x.signer, ctx3)) same
              ∙ ap (λ c. ok (register_account h.signer, c)) end;
          runtime_id = ap (λ (x : MultisigE2eHarness). x.verifier_program_id) (sym same);
          core_id = ap (λ (x : MultisigE2eHarness). x.verifier_program_id_bytes) (sym same);
          target = ap (λ (x : MultisigE2eHarness). x.noop_target_bytes) (sym same);
        },
        λ id.
            bootstrap_runs verifier_elf noop_elf id noop_id ctx ctx1 ctx2 ctx3 verifier noop signer
              r0 r1 r2 r3 r4 r5
            ∙ ap
                (λ (x : MultisigE2eHarness).
                  ok (record x { verifier_program_id_bytes = program_id_to_core_bytes id }, ctx3))
                same
            ∙ ap (λ c. ok (record h { verifier_program_id_bytes = program_id_to_core_bytes id }, c))
                end,
      )
