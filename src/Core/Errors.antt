-- ===== src/Core/Errors.antt =====
-- private_multisig_core/src/error.rs: the catalog of error codes.
use private_m_of_n_multisig.Common.{
  ℕ, ◌≡◌, refl, ◌↔◌, Option, none, some, arith, ◌==◌, if◌then◌else◌,
}

pub data CoreError : Type 0 where
  instance_not_active proposal_expired_or_executed action_bytes_too_long : CoreError
  invalid_threshold serialization_error arithmetic_overflow : CoreError
  invalid_receipt image_id_mismatch root_mismatch proposal_id_mismatch : CoreError
  nullifier_already_used threshold_not_met already_executed : CoreError

unfoldable pub code : CoreError → ℕ
code instance_not_active = 1000
code proposal_expired_or_executed = 1001
code action_bytes_too_long = 1002
code invalid_threshold = 1003
code serialization_error = 1004
code arithmetic_overflow = 1005
code invalid_receipt = 2000
code image_id_mismatch = 2001
code root_mismatch = 2002
code proposal_id_mismatch = 2003
code nullifier_already_used = 3000
code threshold_not_met = 4000
code already_executed = 4001

unfoldable pub from_code : ℕ → Option CoreError
from_code c =
    if c == 1000
    then some instance_not_active
    else if c == 1001
    then some proposal_expired_or_executed
    else if c == 1002
    then some action_bytes_too_long
    else if c == 1003
    then some invalid_threshold
    else if c == 1004
    then some serialization_error
    else if c == 1005
    then some arithmetic_overflow
    else if c == 2000
    then some invalid_receipt
    else if c == 2001
    then some image_id_mismatch
    else if c == 2002
    then some root_mismatch
    else if c == 2003
    then some proposal_id_mismatch
    else if c == 3000
    then some nullifier_already_used
    else if c == 4000
    then some threshold_not_met
    else if c == 4001
    then some already_executed
    else none

from_code-code : (e : CoreError) → from_code (code e) ≡ some e
unfolding code from_code
from_code-code instance_not_active = refl
from_code-code _ = refl

code_of_from_code : (c : ℕ) (e : CoreError) → from_code c ≡ some e → code e ≡ c
unfolding code from_code
code_of_from_code c e h = ground arith

-- `from_code` is the inverse of `code`: it finds an error exactly at that error's code, so no two
-- errors share a code and no other number decodes.
pub from_code_iff : (c : ℕ) (e : CoreError) → (from_code c ≡ some e) ↔ (code e ≡ c)
from_code_iff c e = (code_of_from_code c e, λ h. rw (← h) (from_code-code e))
