-- ===== src/Sdk/Session/Resume.antt =====
-- sdk/src/session.rs: how a client resumes a session, and what a failed session can still do.
use private_m_of_n_multisig.Common.{
  ℕ, ◌+◌, ◌≤◌, ◌<◌, ◌^◌, ◌≡◌, refl, sym, subst, ◌∙◌, true, false, Option, none, some, List, [], ◌∷◌,
  arith, length, ltb, ◌≢◌,
}
use private_m_of_n_multisig.Common.Bytes.{Bytes}
use private_m_of_n_multisig.Sdk.Session.{
  SessionStatus, drafted, proving, proved, submitted, confirmed, failed, ApprovalSession, new,
  valid, transition_to, mark_proving, mark_proved, mark_submitted, demote_on_reorg,
  force_confirm_unchecked, try_confirm, mark_failed,
}
use private_m_of_n_multisig.Sdk.Session.Machine.{
  Call, start, force, prove, submit, reorg, confirm, fail, step, run,
}
use private_m_of_n_multisig.Sdk.Session.Invariant.{Fits, IsConsistent, run-IsConsistent, run_keeps}

-- The calls that remain, by the status: the prover gives `receipt`, the approval lands in `block`,
-- and after `n` blocks it is final.
abbrev pub remaining : Bytes → ℕ → ℕ → SessionStatus → Option ℕ → List Call
remaining receipt block n drafted at =
    start ∷ prove receipt ∷ submit block ∷ confirm (block + n) n ∷ []
remaining receipt block n proving at = prove receipt ∷ submit block ∷ confirm (block + n) n ∷ []
remaining receipt block n proved at = submit block ∷ confirm (block + n) n ∷ []
remaining receipt block n submitted (some b) = confirm (b + n) n ∷ []
remaining receipt block n submitted none = []
remaining receipt block n confirmed at = []
remaining receipt block n failed at = []

-- The calls at one time.
abbrev pub timed : ℕ → List Call → List (ℕ × Call)
timed now [] = []
timed now (c ∷ cs) = (now, c) ∷ timed now cs

-- A submitted session is confirmed once n blocks have passed.
confirms :
    (now b n : ℕ) (s : ApprovalSession)
    → s.status ≡ submitted
    → s.submission_block ≡ some b
    → b + n < 2 ^ 64
    → (step now (confirm (b + n) n) s).0.status ≡ confirmed
unfolding step try_confirm transition_to valid
confirms now b n s e e' room =
    let h : ltb (b + n) (2 ^ 64) ≡ true = ground arith in
    let k : ltb (b + n) (b + n) ≡ false = ground arith in rw (e, e') (rw (h, k) (rw e refl))

by_status :
    (now : ℕ) (receipt : Bytes) (block n : ℕ) (s : ApprovalSession) (st : SessionStatus)
    (at : Option ℕ)
    → s.status ≡ st
    → s.submission_block ≡ at
    → IsConsistent s
    → st ≢ failed
    → block + n < 2 ^ 64
    → ((b : ℕ) → at ≡ some b → b + n < 2 ^ 64)
    → (length (remaining receipt block n st at) ≤ 4)
      × ((run (timed now (remaining receipt block n st at)) s).status ≡ confirmed)
unfolding run step mark_proving mark_proved mark_submitted transition_to valid
by_status now receipt block n s drafted at e e' w alive room room' =
    (omega arith, rw e (confirms now block n _ refl refl room))
by_status now receipt block n s proving at e e' w alive room room' =
    (omega arith, rw e (confirms now block n _ refl refl room))
by_status now receipt block n s proved at e e' w alive room room' =
    (omega arith, rw e (confirms now block n _ refl refl room))
by_status now receipt block n s submitted none e e' w alive room room' =
    let (_, (b, found)) = subst (λ x. Fits x s.receipt s.submission_block) e w in
    absurd (let q : none ≡ some b = sym e' ∙ found in cc)
by_status now receipt block n s submitted (some b) e e' w alive room room' =
    (omega arith, confirms now b n s e e' (room' b refl))
by_status now receipt block n s confirmed at e e' w alive room room' = (omega arith, e)
by_status now receipt block n s failed at e e' w alive room room' = absurd (alive refl)

-- However a session was used after `new`, if it has not failed and the submission block, old or
-- new, and the finality buffer n add up without overflow of 64 bits: at most four calls, those that
-- remain by its status, make it Confirmed, with a receipt. They are run at one time, and the last
-- of them n blocks after the submission.
pub run-remaining :
    (calls : List (ℕ × Call)) (now t block n : ℕ)
    (receipt pda id commitment inputs nullifier : Bytes)
    → let s = run calls (new t pda id commitment inputs nullifier) in
      s.status ≢ failed
      → block + n < 2 ^ 64
      → ((b : ℕ) → s.submission_block ≡ some b → b + n < 2 ^ 64)
      → let cs = remaining receipt block n s.status s.submission_block in
        (length cs ≤ 4)
        × ((run (timed now cs) s).status ≡ confirmed)
        × ((r : Bytes) × ((run (timed now cs) s).receipt ≡ some r))
run-remaining calls now t block n receipt pda id commitment inputs nullifier alive room room' =
    let s0 = new t pda id commitment inputs nullifier in
    let s = run calls s0 in
    let w = run-IsConsistent calls t pda id commitment inputs nullifier in
    let (short, done) =
      by_status now receipt block n s s.status s.submission_block refl refl w alive room room' in
    let cs = timed now (remaining receipt block n s.status s.submission_block) in
    let w' : IsConsistent (run cs s) = run_keeps cs s w in
    let f : Fits confirmed (run cs s).receipt (run cs s).submission_block =
      subst (λ x. Fits x (run cs s).receipt (run cs s).submission_block) done w' in
    (short, done, f.0)

-- A session that failed with no submission block.
abbrev pub IsLost : ApprovalSession → Type 0
IsLost s = (s.status ≡ failed) × (s.submission_block ≡ none)

step-IsLost : (now : ℕ) (c : Call) (s : ApprovalSession) → IsLost s → IsLost (step now c s).0
unfolding step mark_proving force_confirm_unchecked mark_proved mark_submitted transition_to valid
    try_confirm demote_on_reorg mark_failed
step-IsLost now start s (e, none_yet) = rw e (refl, none_yet)
step-IsLost now force s (e, none_yet) = rw e (refl, none_yet)
step-IsLost now (prove receipt) s (e, none_yet) = rw e (refl, none_yet)
step-IsLost now (submit block) s (e, none_yet) = rw e (refl, none_yet)
step-IsLost now (reorg block) s (e, none_yet) = rw none_yet (e, refl)
step-IsLost now (confirm current n) s (e, none_yet) = rw e (refl, none_yet)
step-IsLost now (fail message) s (e, none_yet) = (refl, none_yet)

-- A session that has failed without a submission block stays so, whatever calls are made.
pub run-IsLost : (cs : List (ℕ × Call)) (s : ApprovalSession) → IsLost s → IsLost (run cs s)
unfolding run
run-IsLost [] s w = w
run-IsLost ((now, c) ∷ cs) s w = run-IsLost cs (step now c s).0 (step-IsLost now c s w)
