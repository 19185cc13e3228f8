-- ===== src/Sdk/Session/Invariant.antt =====
-- sdk/src/session.rs: what holds of every session that the calls can make.
use private_m_of_n_multisig.Common.{
  ℕ, ◌+◌, ◌^◌, ◌≡◌, refl, sym, ◌∙◌, ◌⊎◌, inl, inr, true, Option, none, some, List, [], ◌∷◌, Result,
  ok, ltb, arith, Bool-cases, Option-cases,
}
use private_m_of_n_multisig.Common.Bytes.{Bytes}
use private_m_of_n_multisig.Sdk.Errors.{SdkError}
use private_m_of_n_multisig.Sdk.Session.{
  SessionStatus, and_then, drafted, proving, proved, submitted, confirmed, failed, ApprovalSession,
  new, valid, transition_to, mark_proving, mark_proved, mark_submitted, demote_on_reorg,
  force_confirm_unchecked, is_submitted, try_confirm, mark_failed,
}
use private_m_of_n_multisig.Sdk.Session.Machine.{
  Call, start, force, prove, submit, reorg, confirm, fail, step, run,
}

-- Which receipt and submission block each status comes with.
abbrev pub Fits : SessionStatus → Option Bytes → Option ℕ → Type 0
Fits drafted receipt block = (receipt ≡ none) × (block ≡ none)
Fits proving receipt block = block ≡ none
Fits proved receipt block = ((r : Bytes) × (receipt ≡ some r)) × (block ≡ none)
Fits submitted receipt block = ((r : Bytes) × (receipt ≡ some r)) × ((b : ℕ) × (block ≡ some b))
Fits confirmed receipt block = ((r : Bytes) × (receipt ≡ some r)) × ((b : ℕ) × (block ≡ some b))
Fits failed receipt block = (block ≡ none) ⊎ ((r : Bytes) × (receipt ≡ some r))

abbrev pub IsConsistent : ApprovalSession → Type 0
IsConsistent s = Fits s.status s.receipt s.submission_block

-- With a submission block there is a receipt, in every status.
receipt_of_block :
    (st : SessionStatus) (receipt : Option Bytes) (block : Option ℕ) (b : ℕ)
    → Fits st receipt block
    → block ≡ some b
    → (r : Bytes) × (receipt ≡ some r)
receipt_of_block drafted receipt block b w h = absurd (let e = sym w.1 ∙ h in cc)
receipt_of_block proving receipt block b w h = absurd (let e = sym w ∙ h in cc)
receipt_of_block proved receipt block b w h = w.0
receipt_of_block submitted receipt block b w h = w.0
receipt_of_block confirmed receipt block b w h = w.0
receipt_of_block failed receipt block b w h = elim w [
  | inl e ↦ absurd (let e' = sym e ∙ h in cc)
  | inr r ↦ r
]

failed-Fits :
    (st : SessionStatus) (receipt : Option Bytes) (block : Option ℕ)
    → Fits st receipt block
    → Fits failed receipt block
failed-Fits st receipt none w = inl refl
failed-Fits st receipt (some b) w = inr (receipt_of_block st receipt (some b) b w refl)

reorg_fits :
    (now current : ℕ) (s : ApprovalSession)
    → IsConsistent s
    → IsConsistent (demote_on_reorg now current s)
unfolding demote_on_reorg
reorg_fits now current s w = elim (Option-cases s.submission_block) [
  | inl missing ↦ rw missing (rw missing at w)
  | inr (b, found) ↦ elim (Bool-cases (ltb current b)) [
    | inl reverted ↦
        rw (found, reverted)
          (receipt_of_block s.status s.receipt s.submission_block b w found, refl)
    | inr kept ↦ rw (found, kept) (rw found at w)
  ]
]

-- What a valid transition finds, by the status it leads to.
FoundAt : SessionStatus → Option Bytes → Option ℕ → Type 0
FoundAt proving receipt block = block ≡ none
FoundAt proved receipt block = block ≡ none
FoundAt submitted receipt block = (r : Bytes) × (receipt ≡ some r)
FoundAt confirmed receipt block = Fits confirmed receipt block
FoundAt _ receipt block = ⊥

valid-FoundAt :
    (st next : SessionStatus) (receipt : Option Bytes) (block : Option ℕ)
    → valid st next ≡ true
    → Fits st receipt block
    → FoundAt next receipt block
unfolding valid FoundAt
valid-FoundAt drafted proving receipt block v w = w.1
valid-FoundAt proving proved receipt block v w = w
valid-FoundAt proved submitted receipt block v w = w.0
valid-FoundAt submitted confirmed receipt block v w = w
valid-FoundAt proved proving receipt block v w = w.1
valid-FoundAt _ _ receipt block v w = absurd (ground arith)

module _ (now : ℕ) (s : ApprovalSession) (w : IsConsistent s) where
  -- A transition, followed by a write that completes what it found.
  moved :
      {A : Type 0} (next : SessionStatus) (finish : ApprovalSession → ApprovalSession)
      (k : ApprovalSession → ApprovalSession × Result SdkError A)
      → ((t : ApprovalSession) → (k t).0 ≡ finish t)
      → (FoundAt next s.receipt s.submission_block
          → IsConsistent (finish (record s { status = next; last_updated = now })))
      → IsConsistent (and_then (transition_to now next s) k).0
  unfolding transition_to
  moved next finish k done fits = elim (Bool-cases (valid s.status next)) [
    | inl v ↦
        rw (v, done (record s { status = next; last_updated = now }))
          (fits (valid-FoundAt s.status next s.receipt s.submission_block v w))
    | inr v ↦ rw v w
  ]

  plain :
      (next : SessionStatus)
      → (FoundAt next s.receipt s.submission_block → Fits next s.receipt s.submission_block)
      → IsConsistent (transition_to now next s).0
  unfolding transition_to
  plain next fits = elim (Bool-cases (valid s.status next)) [
    | inl v ↦ rw v (fits (valid-FoundAt s.status next s.receipt s.submission_block v w))
    | inr v ↦ rw v w
  ]

confirm_fits :
    (now current n : ℕ) (s : ApprovalSession)
    → IsConsistent s
    → IsConsistent (try_confirm now current n s).0
unfolding try_confirm FoundAt
confirm_fits now current n s w = elim (Bool-cases (is_submitted s.status)) [
  | inr other ↦ rw other w
  | inl waiting ↦ elim (Option-cases s.submission_block) [
    | inl missing ↦ rw (waiting, missing) w
    | inr (b, found) ↦ elim (Bool-cases (ltb (b + n) (2 ^ 64))) [
      | inr wraps ↦ rw (waiting, found, wraps) w
      | inl bound ↦ elim (Bool-cases (ltb current (b + n))) [
        | inl early ↦ rw (waiting, found, bound, early) w
        | inr final ↦
            rw (waiting, found, bound, final)
              (moved now s w confirmed (λ t. t) (λ t. (t, ok true)) (λ t. refl) (λ f. f))
      ]
    ]
  ]
]

-- Every call, also one that fails, keeps a session consistent.
step-IsConsistent :
    (now : ℕ) (c : Call) (s : ApprovalSession) → IsConsistent s → IsConsistent (step now c s).0
unfolding step mark_proving force_confirm_unchecked mark_proved mark_submitted mark_failed FoundAt
step-IsConsistent now start s w = plain now s w proving (λ f. f)
step-IsConsistent now force s w = plain now s w confirmed (λ f. f)
step-IsConsistent now (prove receipt) s w =
    moved now s w proved (λ t. record t { receipt = some receipt }) _ (λ t. refl)
      (λ f. ((receipt, refl), f))
step-IsConsistent now (submit block) s w =
    moved now s w submitted (λ t. record t { submission_block = some block }) _ (λ t. refl)
      (λ f. (f, (block, refl)))
step-IsConsistent now (reorg block) s w = reorg_fits now block s w
step-IsConsistent now (confirm current n) s w = confirm_fits now current n s w
step-IsConsistent now (fail message) s w = failed-Fits s.status s.receipt s.submission_block w

pub run_keeps :
    (cs : List (ℕ × Call)) (s : ApprovalSession) → IsConsistent s → IsConsistent (run cs s)
unfolding run
run_keeps [] s w = w
run_keeps ((now, c) ∷ cs) s w = run_keeps cs (step now c s).0 (step-IsConsistent now c s w)

-- However a fresh session is used, with calls in any order that succeed or fail, reorgs included:
-- while it is Drafted it has no receipt; while it is Proved, Submitted or Confirmed it has one; a
-- submission block is recorded exactly in Submitted and Confirmed, and in a Failed session only
-- together with a receipt.
pub run-IsConsistent :
    (cs : List (ℕ × Call)) (now : ℕ) (pda id commitment inputs nullifier : Bytes)
    → IsConsistent (run cs (new now pda id commitment inputs nullifier))
unfolding new
run-IsConsistent cs now pda id commitment inputs nullifier = run_keeps cs _ (refl, refl)
