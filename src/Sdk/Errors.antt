-- ===== src/Sdk/Errors.antt =====
-- sdk/src/error.rs: the errors of the SDK and their codes. Messages are byte strings.
use private_m_of_n_multisig.Common.{ℕ, ◌≡◌, refl, none}
use private_m_of_n_multisig.Common.Bytes.{Bytes}
use private_m_of_n_multisig.Core.Errors.{from_code}

pub data SdkError : Type 0 where
  invalid_secret_key_length invalid_identity_commitment merkle_proof_invalid : SdkError
  nullifier_derivation_failed action_bytes_too_large action_bytes_hash_mismatch : SdkError
  target_program_hash_mismatch proposal_index_mismatch invalid_threshold : SdkError
  -- m, n
  insufficient_members : ℕ → ℕ → SdkError
  threshold_exceeds_members duplicate_member builder_already_finalized : SdkError
  proof_generation_failed receipt_verification_failed session_store_open_failed : Bytes → SdkError
  session_not_found session_corrupted session_status_mismatch : SdkError
  missing_submission_block arithmetic_overflow : SdkError
  keystore_open_failed : Bytes → SdkError
  keystore_decryption_failed keystore_serialization_failed : SdkError
  no_keystore_found : Bytes → SdkError
  borsh_serialization_failed borsh_deserialization_failed home_dir_not_found : SdkError

unfoldable pub code : SdkError → ℕ
code invalid_secret_key_length = 5001
code invalid_identity_commitment = 5002
code merkle_proof_invalid = 5003
code nullifier_derivation_failed = 5004
code action_bytes_too_large = 5010
code action_bytes_hash_mismatch = 5011
code target_program_hash_mismatch = 5012
code proposal_index_mismatch = 5013
code invalid_threshold = 5019
code (insufficient_members m n) = 5020
code threshold_exceeds_members = 5021
code duplicate_member = 5022
code builder_already_finalized = 5023
code (proof_generation_failed _) = 5030
code (receipt_verification_failed _) = 5031
code (session_store_open_failed _) = 5040
code session_not_found = 5041
code session_corrupted = 5042
code session_status_mismatch = 5043
code missing_submission_block = 5044
code arithmetic_overflow = 5045
code (keystore_open_failed _) = 5050
code keystore_decryption_failed = 5051
code keystore_serialization_failed = 5052
code (no_keystore_found _) = 5053
code borsh_serialization_failed = 5060
code borsh_deserialization_failed = 5061
code home_dir_not_found = 5070

-- No code of the SDK decodes as an error of the on-chain catalog.
pub from_code-code-none : (e : SdkError) → from_code (code e) ≡ none
unfolding code from_code
from_code-code-none invalid_secret_key_length = refl
from_code-code-none _ = refl
