-- ===== src/Sdk/Session/Machine.antt =====
-- sdk/src/session.rs: the calls on a session as one step function, and runs of them.
use private_m_of_n_multisig.Common.{
  ℕ, ◌≡◌, Option, none, some, List, [], ◌∷◌, Result, ok, err, arith,
}
use private_m_of_n_multisig.Common.Bytes.{Bytes}
use private_m_of_n_multisig.Sdk.Errors.{SdkError}
use private_m_of_n_multisig.Sdk.Session.{
  ApprovalSession, transition_to, mark_proving, mark_proved, mark_submitted, demote_on_reorg,
  force_confirm_unchecked, try_confirm, mark_failed,
}

pub data Call : Type 0 where
  start force : Call
  -- receipt
  prove : Bytes → Call
  -- block
  submit reorg : ℕ → Call
  -- current_block, n_blocks
  confirm : ℕ → ℕ → Call
  -- message
  fail : Bytes → Call

abbrev error_of : {A : Type 0} → Result SdkError A → Option SdkError
error_of (ok a) = none
error_of (err e) = some e

abbrev with_error :
    {A : Type 0} → ApprovalSession × Result SdkError A → ApprovalSession × Option SdkError
with_error (s, r) = (s, error_of r)

-- The session after a call at the time `now`, and the error it returned, if any.
unfoldable pub step : ℕ → Call → ApprovalSession → ApprovalSession × Option SdkError
step now start s = with_error (mark_proving now s)
step now force s = with_error (force_confirm_unchecked now s)
step now (prove receipt) s = with_error (mark_proved now receipt s)
step now (submit block) s = with_error (mark_submitted now block s)
step now (reorg block) s = (demote_on_reorg now block s, none)
step now (confirm current n) s = with_error (try_confirm now current n s)
step now (fail message) s = (mark_failed now message s, none)

-- A run of timed calls.
unfoldable pub run : List (ℕ × Call) → ApprovalSession → ApprovalSession
run [] s = s
run ((now, c) ∷ cs) s = run cs (step now c s).0

-- A call that returns an error leaves the session as it was, in every field.
pub step-error :
    (now : ℕ) (c : Call) (s : ApprovalSession) (e : SdkError)
    → (step now c s).1 ≡ some e
    → (step now c s).0 ≡ s
unfolding step mark_proving force_confirm_unchecked mark_proved mark_submitted transition_to
    try_confirm
step-error now start s e h = ground arith
step-error now force s e h = ground arith
step-error now (prove receipt) s e h = ground arith
step-error now (submit block) s e h = ground arith
step-error now (reorg block) s e h = cc
step-error now (confirm current n) s e h = ground arith
step-error now (fail message) s e h = cc
