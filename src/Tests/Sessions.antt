-- ===== src/Tests/Sessions.antt =====
-- sdk/src/session.rs: the theorems on sessions applied.
use private_m_of_n_multisig.Common.{
  ℕ, ◌≡◌, ◌≢◌, ◌≤◌, ◌∙◌, length, none, sym, refl, arith, true, some, List, [], ◌∷◌, ok,
}
use private_m_of_n_multisig.Common.Bytes.{Bytes, zeros}
use private_m_of_n_multisig.Sdk.Errors.{session_status_mismatch}
use private_m_of_n_multisig.Sdk.Session.{
  ApprovalSession, proved, submitted, failed, confirmed, mark_proving, mark_proved, new, valid,
  transition_to, mark_submitted, mark_failed, demote_on_reorg, can_resubmit,
}
use private_m_of_n_multisig.Sdk.Session.Machine.{Call, start, prove, submit, reorg, step, run}
use private_m_of_n_multisig.Sdk.Session.Invariant.{IsConsistent, run-IsConsistent}
use private_m_of_n_multisig.Sdk.Session.Resume.{remaining, timed, run-remaining}
use private_m_of_n_multisig.Sdk.Session.Transitions.{Edge, step-Edge, demote_on_reorg_revives}

abbrev fresh : ApprovalSession
fresh = new 100 (zeros 32) (zeros 32) (zeros 32) (zeros 96) (zeros 32)

abbrev calls : List (ℕ × Call)
calls = (101, start) ∷ (102, prove (1 ∷ 2 ∷ [])) ∷ (103, submit 50) ∷ (104, reorg 49) ∷ []

abbrev proved_session : ApprovalSession
proved_session = record fresh { status = proved; receipt = some (1 ∷ 2 ∷ []) }

abbrev submitted_session : ApprovalSession
submitted_session = record proved_session { status = submitted; submission_block = some 50 }

run-IsConsistent_example :
    IsConsistent (run calls (new 100 (zeros 32) (zeros 32) (zeros 32) (zeros 96) (zeros 32)))
run-IsConsistent_example =
    run-IsConsistent calls 100 (zeros 32) (zeros 32) (zeros 32) (zeros 96) (zeros 32)

early : (step 7 (submit 50) fresh).1 ≡ some session_status_mismatch
unfolding step mark_submitted transition_to valid new
early = refl

step-Edge_example : Edge submitted_session.status (step 7 (reorg 49) submitted_session).0.status
step-Edge_example = step-Edge 7 (reorg 49) submitted_session refl

submits : (mark_submitted 1 50 proved_session).1 ≡ ok tt
unfolding mark_submitted transition_to valid
submits = refl

demote_on_reorg_revives_example :
    let dead = mark_failed 2 [] (mark_submitted 1 50 proved_session).0 in
    (dead.status ≡ failed)
    × ((demote_on_reorg 3 49 dead).status ≡ proved)
    × (can_resubmit (demote_on_reorg 3 49 dead).status ≡ true)
demote_on_reorg_revives_example =
    demote_on_reorg_revives 1 2 3 50 49 [] proved_session (omega arith) submits

reached : (run calls fresh).status ≡ proved
unfolding run step mark_proving mark_proved mark_submitted transition_to valid demote_on_reorg new
reached = refl

no_block : (run calls fresh).submission_block ≡ none
unfolding run step mark_proving mark_proved mark_submitted transition_to valid demote_on_reorg new
no_block = refl

proved_not_failed : proved ≢ failed
proved_not_failed e = cc

run-remaining_example :
    let s = run calls fresh in
    let cs = remaining (3 ∷ []) 60 32 s.status s.submission_block in
    (length cs ≤ 4)
    × ((run (timed 200 cs) s).status ≡ confirmed)
    × ((r : Bytes) × ((run (timed 200 cs) s).receipt ≡ some r))
run-remaining_example =
    run-remaining calls 200 100 60 32 (3 ∷ []) (zeros 32) (zeros 32) (zeros 32) (zeros 96)
      (zeros 32) (λ e. proved_not_failed (sym reached ∙ e)) (omega arith)
      (λ b found. absurd (let e : none ≡ some b = sym no_block ∙ found in cc))
