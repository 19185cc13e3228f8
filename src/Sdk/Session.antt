-- ===== src/Sdk/Session.antt =====
-- sdk/src/session.rs: the approval session and its state machine.
-- A method on `&mut self` returns the session after the call and the call's result. The clock
-- `current_unix_seconds()` is the argument `now`. The release profile has no overflow checks, so
-- `retry_count`, a u32, wraps.
pub mod Invariant
pub mod Machine
pub mod Transitions
pub mod Resume
use private_m_of_n_multisig.Common.{
  ℕ, ◌+◌, ◌%◌, ◌^◌, Bool, true, false, not, Option, none, some, Result, ok, err, ltb, if◌then◌else◌,
}
use private_m_of_n_multisig.Common.Bytes.{Bytes}
use private_m_of_n_multisig.Sdk.Errors.{
  SdkError, session_status_mismatch, missing_submission_block, arithmetic_overflow,
}

pub data SessionStatus : Type 0 where
  drafted proving proved submitted confirmed failed : SessionStatus

unfoldable pub has_receipt : SessionStatus → Bool
has_receipt proved = true
has_receipt submitted = true
has_receipt confirmed = true
has_receipt _ = false

unfoldable pub can_reprove : SessionStatus → Bool
can_reprove drafted = true
can_reprove proving = true
can_reprove _ = false

unfoldable pub can_resubmit : SessionStatus → Bool
can_resubmit proved = true
can_resubmit submitted = true
can_resubmit _ = false

pub record ApprovalSession : Type 0 where
  pub instance_pda : Bytes
  pub proposal_id : Bytes
  pub member_commitment : Bytes
  pub status : SessionStatus
  pub receipt : Option Bytes
  pub public_inputs : Option Bytes
  pub nullifier : Option Bytes
  pub submission_block : Option ℕ
  pub error_message : Option Bytes
  pub retry_count : ℕ
  pub last_updated : ℕ

unfoldable pub new : ℕ → Bytes → Bytes → Bytes → Bytes → Bytes → ApprovalSession
new now instance_pda proposal_id member_commitment public_inputs nullifier = record {
  instance_pda = instance_pda;
  proposal_id = proposal_id;
  member_commitment = member_commitment;
  status = drafted;
  receipt = none;
  public_inputs = some public_inputs;
  nullifier = some nullifier;
  submission_block = none;
  error_message = none;
  retry_count = 0;
  last_updated = now;
}

-- `call?;` and the rest of the method.
abbrev pub and_then :
    {A B : Type 0}
    → ApprovalSession × Result SdkError A
    → (ApprovalSession → ApprovalSession × Result SdkError B)
    → ApprovalSession × Result SdkError B
and_then (s, ok _) k = k s
and_then (s, err e) k = (s, err e)

-- The `matches!` of `transition_to`.
unfoldable pub valid : SessionStatus → SessionStatus → Bool
valid drafted proving = true
valid proving proved = true
valid proved submitted = true
valid submitted confirmed = true
valid proved proving = true
valid _ _ = false

unfoldable pub transition_to :
    ℕ → SessionStatus → ApprovalSession → ApprovalSession × Result SdkError (Unit {0})
transition_to now next s =
    if not (valid s.status next)
    then (s, err session_status_mismatch)
    else (record s { status = next; last_updated = now }, ok tt)

unfoldable pub mark_proving : ℕ → ApprovalSession → ApprovalSession × Result SdkError (Unit {0})
mark_proving now s = transition_to now proving s

unfoldable pub mark_proved :
    ℕ → Bytes → ApprovalSession → ApprovalSession × Result SdkError (Unit {0})
mark_proved now receipt s =
    and_then (transition_to now proved s) λ s'. (record s' { receipt = some receipt }, ok tt)

unfoldable pub mark_submitted :
    ℕ → ℕ → ApprovalSession → ApprovalSession × Result SdkError (Unit {0})
mark_submitted now block s =
    and_then (transition_to now submitted s)
      λ s'. (record s' { submission_block = some block }, ok tt)

unfoldable pub demote_on_reorg : ℕ → ℕ → ApprovalSession → ApprovalSession
demote_on_reorg now current_block s = elim s.submission_block [
  | some submitted_at ↦
      if ltb current_block submitted_at
      then record s {
        status = proved;
        submission_block = none;
        retry_count = (s.retry_count + 1) % 2 ^ 32;
        last_updated = now;
      }
      else s
  | none ↦ s
]

unfoldable pub force_confirm_unchecked :
    ℕ → ApprovalSession → ApprovalSession × Result SdkError (Unit {0})
force_confirm_unchecked now s = transition_to now confirmed s

abbrev pub is_submitted : SessionStatus → Bool
is_submitted submitted = true
is_submitted _ = false

unfoldable pub try_confirm : ℕ → ℕ → ℕ → ApprovalSession → ApprovalSession × Result SdkError Bool
try_confirm now current_block n_blocks s =
    if not (is_submitted s.status)
    then (s, err session_status_mismatch)
    else elim s.submission_block [
      | none ↦ (s, err missing_submission_block)
      | some submitted_at ↦
          if not (ltb (submitted_at + n_blocks) (2 ^ 64))
          then (s, err arithmetic_overflow)
          else if ltb current_block (submitted_at + n_blocks)
          then (s, ok false)
          else and_then (transition_to now confirmed s) (λ s'. (s', ok true))
    ]

unfoldable pub mark_failed : ℕ → Bytes → ApprovalSession → ApprovalSession
mark_failed now message s = record s {
  status = failed;
  error_message = some message;
  last_updated = now;
}
