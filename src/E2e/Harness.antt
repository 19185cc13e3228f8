-- ===== src/E2e/Harness.antt =====
-- e2e_tests/src/harness.rs: `MultisigE2eHarness`, the transactions it builds for the instructions,
-- and `submit`. The sequencer, the wallet and the transaction types are parameters; a failing call
-- gives a message. Bringing the stack up, deploying and registering the signer are left out.
pub mod Submitted
pub mod Bootstrap
use private_m_of_n_multisig.Common.{
  ℕ, ◌≡◌, Option, none, some, List, [], ◌∷◌, Result, ok, err, ◌>>=◌, ◌>>◌, ok_or,
}
use private_m_of_n_multisig.Common.Bytes.{Bytes}
use private_m_of_n_multisig.Crypto.Hash.{Hasher}
use private_m_of_n_multisig.Core.Instruction as Instruction
use private_m_of_n_multisig.Core.Instruction.{Instruction}
use private_m_of_n_multisig.Core.Pda.{
  derive_multisig_state_pda, derive_proposal_pda, derive_vault_pda, derive_nullifier_entry_pda,
}

pub record MultisigE2eHarness : Type 0 where
  pub verifier_program_id : List ℕ
  pub verifier_program_id_bytes : Bytes
  pub noop_target_bytes : Bytes
  pub signer : Bytes

-- What `submit` uses of the sequencer and the wallet. `AccountId::new` of a PDA is its bytes.
pub record Sequencer : Type 1 where
  -- The chain, as the client finds it.
  pub Chain : Type 0
  pub Key : Type 0
  pub Transaction : Type 0
  pub get_accounts_nonces : Chain → List Bytes → Result Bytes (List ℕ)
  pub get_account_public_signing_key : Bytes → Option Key
  -- `Message::try_new`, then `WitnessSet::for_message` and `PublicTransaction::new`.
  pub Message : Type 0
  pub try_new : List ℕ → List Bytes → List ℕ → Instruction → Result Bytes Message
  pub signed : Message → Key → Transaction
  pub send_transaction : Chain → Transaction → Result Bytes (Bytes × Chain)
  -- The chain after one block interval.
  pub wait_for_block : Chain → Chain
  pub get_transaction : Chain → Bytes → Result Bytes (Option Transaction)

pub data HarnessError : Type 0 where
  get_nonces message_try_new send get_tx : Bytes → HarnessError
  no_signing_key not_included : HarnessError

-- `context`
abbrev pub context : {A : Type 0} → (Bytes → HarnessError) → Result Bytes A → Result HarnessError A
context e (err message) = err (e message)
context e (ok a) = ok a

-- `included.is_none()`
abbrev pub included_or_bail : {A : Type 0} → Option A → Result HarnessError (Unit {0})
included_or_bail none = err not_included
included_or_bail (some _) = ok tt

module _ (S : Sequencer) where
  unfoldable pub submit :
      MultisigE2eHarness → S.Chain → List Bytes → Instruction → Result HarnessError S.Chain
  submit h chain accounts ix = do
    nonces ← context get_nonces (S.get_accounts_nonces chain (h.signer ∷ []))
    private_key ← ok_or (S.get_account_public_signing_key h.signer) no_signing_key
    message ← context message_try_new (S.try_new h.verifier_program_id accounts nonces ix)
    (tx_hash, sent) ← context send (S.send_transaction chain (S.signed message private_key))
    let waited = S.wait_for_block sent
    included ← context get_tx (S.get_transaction waited tx_hash)
    included_or_bail included
    ok waited

-- The accounts and the instruction that each method hands to `submit`.
module _ (H : Hasher) (h : MultisigE2eHarness) (create_key : Bytes) where
  abbrev state_pda : Bytes
  state_pda = derive_multisig_state_pda H h.verifier_program_id_bytes create_key

  abbrev proposal_pda : ℕ → Bytes
  proposal_pda index = derive_proposal_pda H h.verifier_program_id_bytes create_key index

  abbrev vault_pda : Bytes
  vault_pda = derive_vault_pda H h.verifier_program_id_bytes create_key

  unfoldable pub create_multisig_call : Bytes → ℕ → ℕ → List Bytes × Instruction
  create_multisig_call members_root m n =
      (state_pda ∷ h.signer ∷ [], Instruction.create_multisig create_key members_root m n)

  unfoldable pub create_vault_call : List Bytes × Instruction
  create_vault_call = (state_pda ∷ vault_pda ∷ h.signer ∷ [], Instruction.create_vault create_key)

  unfoldable pub propose_call : ℕ → Bytes → List Bytes × Instruction
  propose_call index action_bytes = (
    state_pda ∷ proposal_pda index ∷ h.signer ∷ [],
    Instruction.propose create_key index action_bytes h.noop_target_bytes,
  )

  unfoldable pub approve_call : ℕ → Bytes → Bytes → List Bytes × Instruction
  approve_call index nullifier public_inputs =
      let nullifier_entry =
        derive_nullifier_entry_pda H h.verifier_program_id_bytes (proposal_pda index) nullifier in
      (
        state_pda ∷ proposal_pda index ∷ nullifier_entry ∷ h.signer ∷ [],
        Instruction.approve create_key index nullifier public_inputs,
      )

  unfoldable pub execute_call : ℕ → List Bytes × Instruction
  execute_call index = (
    state_pda ∷ proposal_pda index ∷ vault_pda ∷ h.signer ∷ [],
    Instruction.execute create_key index,
  )

-- The methods: each submits its call. `propose` also returns the proposal's address.
module _ (S : Sequencer) (H : Hasher) (h : MultisigE2eHarness) (chain : S.Chain)
    (create_key : Bytes) where
  abbrev submitted : List Bytes × Instruction → Result HarnessError S.Chain
  submitted (accounts, ix) = submit S h chain accounts ix

  unfoldable pub create_multisig : Bytes → ℕ → ℕ → Result HarnessError S.Chain
  create_multisig members_root m n =
      submitted (create_multisig_call H h create_key members_root m n)

  unfoldable pub create_vault : Result HarnessError S.Chain
  create_vault = submitted (create_vault_call H h create_key)

  unfoldable pub propose : ℕ → Bytes → Result HarnessError (Bytes × S.Chain)
  propose index action_bytes = do
    after ← submitted (propose_call H h create_key index action_bytes)
    ok (proposal_pda H h create_key index, after)

  unfoldable pub approve : ℕ → Bytes → Bytes → Result HarnessError S.Chain
  approve index nullifier public_inputs =
      submitted (approve_call H h create_key index nullifier public_inputs)

  unfoldable pub execute : ℕ → Result HarnessError S.Chain
  execute index = submitted (execute_call H h create_key index)
