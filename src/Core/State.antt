-- ===== src/Core/State.antt =====
-- private_multisig_core/src/state.rs: the account bodies and their validation.
-- `m` is a u8, `n` and `approvals_count` are u32, `proposal_count` is a u64.
use private_m_of_n_multisig.Common.{
  ℕ, ◌≤◌, ◌≡◌, ◌↔◌, Bool, ◌||◌, arith, ltb, ◌==◌, if◌then◌else◌, Result, ok, err, length,
}
use private_m_of_n_multisig.Common.Bytes.{Bytes}
use private_m_of_n_multisig.Core.Errors.{CoreError, invalid_threshold, action_bytes_too_long}

abbrev pub max_action_bytes_len : ℕ
max_action_bytes_len = 4096

pub record MultisigState : Type 0 where
  pub create_key : Bytes
  pub members_root : Bytes
  pub m : ℕ
  pub n : ℕ
  pub proposal_count : ℕ

pub record Proposal : Type 0 where
  pub action_bytes : Bytes
  pub target_program : Bytes
  pub approvals_count : ℕ
  pub executed : Bool

-- `NullifierEntry`, which has no field, and `Vault`.
pub record NullifierEntry : Type 0 where

pub record Vault : Type 0 where
  pub create_key : Bytes

unfoldable pub validate_threshold : ℕ → ℕ → Result CoreError (Unit {0})
validate_threshold m n = if m == 0 || n == 0 || ltb n m then err invalid_threshold else ok tt

unfoldable pub validate : MultisigState → Result CoreError (Unit {0})
validate s = validate_threshold s.m s.n

unfoldable pub validate_action_bytes : Bytes → Result CoreError (Unit {0})
validate_action_bytes bytes =
    if ltb max_action_bytes_len (length bytes) then err action_bytes_too_long else ok tt

-- `validate_threshold` accepts exactly 1 <= m <= n, and otherwise returns `InvalidThreshold`.
pub validate_threshold_iff :
    (m n : ℕ)
    → ((validate_threshold m n ≡ ok tt) ↔ ((1 ≤ m) × (m ≤ n)))
      × ((validate_threshold m n ≡ err invalid_threshold) ↔ (¬ ((1 ≤ m) × (m ≤ n))))
unfolding validate_threshold
validate_threshold_iff m n =
    ((λ h. ground arith, λ h. ground arith), (λ h p. ground arith, λ h. ground arith))
