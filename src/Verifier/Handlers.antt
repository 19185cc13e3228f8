-- ===== src/Verifier/Handlers.antt =====
-- methods/guest/src/bin/private_multisig.rs: the six instruction handlers.
-- A handler's accounts come first, in the order of its signature, then its arguments.
use private_m_of_n_multisig.Common.{
  ℕ, zero, suc, ◌+◌, ◌*◌, ◌^◌, true, false, not, Option, none, some, List, [], ◌∷◌, ◌++◌, Result,
  ok, err, ◌>>=◌, ◌>>◌, fail_if, ok_or, length, slice, ltb, ◌==◌, if◌then◌else◌,
}
use private_m_of_n_multisig.Common.Bytes.{Bytes, bytes_eq, from_le_bytes}
use private_m_of_n_multisig.Crypto.Hash.{Hasher}
use private_m_of_n_multisig.Core.Errors.{
  CoreError, code, serialization_error, arithmetic_overflow, invalid_receipt, root_mismatch,
  proposal_id_mismatch, threshold_not_met, already_executed,
}
use private_m_of_n_multisig.Core.State.{Proposal, validate_threshold, validate_action_bytes}
use private_m_of_n_multisig.Core.Proof.{
  approve_public_inputs_len, deployment_chain_id_u64, from_u64, derive_proposal_id,
}
use private_m_of_n_multisig.Core.Pda.{seed_vault}
use private_m_of_n_multisig.Verifier.Platform.{
  AccountWithMetadata, ChainedCall, SpelOutput, SpelError, custom, Borsh, Platform,
}

-- methods/guest/src/approve_circuit_image_id.rs.
abbrev pub approve_circuit_image_id : List ℕ
approve_circuit_image_id =
    1683419497 ∷ 2665931562 ∷ 2484565372 ∷ 1634782365 ∷ 3092099954 ∷ 3316541401 ∷ 2039021021
    ∷ 3470376700 ∷ []

abbrev pub Outcome : Type 0
Outcome = Result SpelError SpelOutput

-- `SpelError::custom(e.code(), _)`
abbrev pub fail : CoreError → SpelError
fail e = custom (code e)

abbrev pub map_err : {A : Type 0} → Result CoreError A → Result SpelError A
map_err (ok a) = ok a
map_err (err e) = err (fail e)

-- `SpelOutput::execute`
abbrev pub output : List AccountWithMetadata → List ChainedCall → SpelOutput
output accounts calls = record { accounts = accounts; chained_calls = calls; assumptions = [] }

-- `checked_add(1)` of an unsigned integer of w bits.
abbrev pub checked_suc : ℕ → ℕ → Option ℕ
checked_suc w x = if ltb (x + 1) (2 ^ w) then some (x + 1) else none

-- The eight little-endian words of a 32-byte program id.
unfoldable pub program_words : Bytes → ℕ → ℕ → List ℕ
program_words bytes i zero = []
program_words bytes i (suc rounds) =
    from_le_bytes (slice bytes (i * 4) (i * 4 + 4)) ∷ program_words bytes (i + 1) rounds

module _ (P : Platform) where
  -- `borsh::from_slice(&account.data)`, and `borsh::to_vec(&body)` then `try_into()`.
  abbrev pub decode : {A : Type 0} → Borsh A → AccountWithMetadata → Result SpelError A
  decode B a = ok_or (B.from_slice a.body) (fail serialization_error)

  abbrev pub encode : {A : Type 0} → Borsh A → A → Result SpelError Bytes
  encode B body = do
    bytes ← ok_or (B.to_vec body) (fail serialization_error)
    ok_or (P.to_data bytes) (fail serialization_error)

  unfoldable pub create_multisig :
      AccountWithMetadata → AccountWithMetadata → Bytes → Bytes → ℕ → ℕ → Outcome
  create_multisig state creator create_key members_root m n = do
    map_err (validate_threshold m n)
    body_data ← encode P.states (record {
      create_key = create_key;
      members_root = members_root;
      m = m;
      n = n;
      proposal_count = 0;
    })
    ok (output (record state { body = body_data } ∷ creator ∷ []) [])

  unfoldable pub create_vault :
      AccountWithMetadata → AccountWithMetadata → AccountWithMetadata → Bytes → Outcome
  create_vault state vault payer create_key = do
    _ ← decode P.states state
    ok (output (state ∷ vault ∷ payer ∷ []) [])

  unfoldable pub propose :
      AccountWithMetadata
      → AccountWithMetadata
      → AccountWithMetadata
      → Bytes
      → ℕ
      → Bytes
      → Bytes
      → Outcome
  propose state proposal proposer create_key index action_bytes target_program = do
    map_err (validate_action_bytes action_bytes)
    state_body ← decode P.states state
    fail_if (not (index == state_body.proposal_count)) (fail proposal_id_mismatch)
    count ← ok_or (checked_suc 64 state_body.proposal_count) (fail arithmetic_overflow)
    state_data ← encode P.states (record state_body { proposal_count = count })
    proposal_data ← encode P.proposals (record {
      action_bytes = action_bytes;
      target_program = target_program;
      approvals_count = 0;
      executed = false;
    })
    ok (
        output
          (record state { body = state_data }
            ∷ record proposal { body = proposal_data }
            ∷ proposer
            ∷ [])
          [])

  unfoldable pub approve :
      Hasher
      → AccountWithMetadata
      → AccountWithMetadata
      → AccountWithMetadata
      → AccountWithMetadata
      → Bytes
      → ℕ
      → Bytes
      → Bytes
      → Outcome
  approve H state proposal nullifier_entry submitter create_key index nullifier public_inputs = do
    fail_if (not (length public_inputs == approve_public_inputs_len)) (fail invalid_receipt)
    let inputs_members_root = slice public_inputs 0 32
    let inputs_proposal_id = slice public_inputs 32 64
    let inputs_nullifier = slice public_inputs 64 96
    state_body ← decode P.states state
    proposal_body ← decode P.proposals proposal
    fail_if (not (bytes_eq inputs_members_root state_body.members_root)) (fail root_mismatch)
    let recomputed_proposal_id =
        derive_proposal_id H (from_u64 deployment_chain_id_u64) state.account_id index
          proposal_body.action_bytes proposal_body.target_program
    fail_if (not (bytes_eq inputs_proposal_id recomputed_proposal_id)) (fail proposal_id_mismatch)
    fail_if (not (bytes_eq inputs_nullifier nullifier)) (fail invalid_receipt)
    count ← ok_or (checked_suc 32 proposal_body.approvals_count) (fail arithmetic_overflow)
    proposal_data ← encode P.proposals (record proposal_body { approvals_count = count })
    ok (record {
      accounts =
          state ∷ record proposal { body = proposal_data } ∷ nullifier_entry ∷ submitter ∷ [];
      chained_calls = [];
      assumptions = (approve_circuit_image_id, public_inputs) ∷ [];
    })

  -- The chained call that `execute` emits.
  abbrev pub vault_call : Hasher → AccountWithMetadata → Bytes → Proposal → ChainedCall
  vault_call H vault create_key body = record {
    program_id = program_words body.target_program 0 8;
    pre_states = record vault { is_authorized = true } ∷ [];
    instruction_data = P.serde_to_vec body.action_bytes;
    pda_seeds = H.hash (P.seed_from_str seed_vault ++ create_key) ∷ [];
  }

  unfoldable pub execute :
      Hasher
      → AccountWithMetadata
      → AccountWithMetadata
      → AccountWithMetadata
      → AccountWithMetadata
      → Bytes
      → ℕ
      → Outcome
  execute H state proposal vault submitter create_key index = do
    state_body ← decode P.states state
    proposal_body ← decode P.proposals proposal
    fail_if proposal_body.executed (fail already_executed)
    fail_if (ltb proposal_body.approvals_count state_body.m) (fail threshold_not_met)
    proposal_data ← encode P.proposals (record proposal_body { executed = true })
    ok (
        output (state ∷ record proposal { body = proposal_data } ∷ vault ∷ submitter ∷ [])
          (vault_call H vault create_key proposal_body ∷ []))

unfoldable pub reject : AccountWithMetadata → AccountWithMetadata → Bytes → Outcome
reject state rejector create_key = ok (output (state ∷ rejector ∷ []) [])
