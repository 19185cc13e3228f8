-- ===== src/Sdk/Session/Transitions.antt =====
-- sdk/src/session.rs: which way the calls move a session, and what they leave alone.
use private_m_of_n_multisig.Common.{
  ℕ, ◌+◌, ◌≤◌, ◌<◌, ◌^◌, ◌≡◌, refl, sym, subst, ◌∙◌, ◌⊎◌, inl, inr, Bool, true, false, not, some,
  List, [], ◌∷◌, Result, ok, err, ltb, arith, Bool-cases, Option-cases, ◌↔◌,
}
use private_m_of_n_multisig.Common.Bytes.{Bytes}
use private_m_of_n_multisig.Sdk.Errors.{SdkError, session_status_mismatch}
use private_m_of_n_multisig.Sdk.Session.{
  SessionStatus, and_then, drafted, proving, proved, submitted, confirmed, failed, ApprovalSession,
  valid, transition_to, mark_proving, mark_proved, mark_submitted, demote_on_reorg,
  force_confirm_unchecked, is_submitted, try_confirm, mark_failed, can_resubmit,
}
use private_m_of_n_multisig.Sdk.Session.Machine.{
  Call, start, force, prove, submit, reorg, confirm, fail, step, run,
}

-- What `new` fixes.
pub record SameSession (s t : ApprovalSession) : Type 0 where
  pub instance_pda : t.instance_pda ≡ s.instance_pda
  pub proposal_id : t.proposal_id ≡ s.proposal_id
  pub member_commitment : t.member_commitment ≡ s.member_commitment
  pub public_inputs : t.public_inputs ≡ s.public_inputs
  pub nullifier : t.nullifier ≡ s.nullifier

step-SameSession : (now : ℕ) (c : Call) (s : ApprovalSession) → SameSession s (step now c s).0
unfolding step mark_proving force_confirm_unchecked mark_proved mark_submitted transition_to
    try_confirm demote_on_reorg mark_failed
step-SameSession now start s = ground arith
step-SameSession now force s = ground arith
step-SameSession now (prove receipt) s = ground arith
step-SameSession now (submit block) s = ground arith
step-SameSession now (reorg block) s = ground arith
step-SameSession now (confirm current n) s = ground arith
step-SameSession now (fail message) s = ground arith

SameSession-trans : (s t u : ApprovalSession) → SameSession s t → SameSession t u → SameSession s u
SameSession-trans s t u h k = record {
  instance_pda = k.instance_pda ∙ h.instance_pda;
  proposal_id = k.proposal_id ∙ h.proposal_id;
  member_commitment = k.member_commitment ∙ h.member_commitment;
  public_inputs = k.public_inputs ∙ h.public_inputs;
  nullifier = k.nullifier ∙ h.nullifier;
}

-- No run of calls changes a session's key, its public inputs or its nullifier.
pub run-SameSession : (cs : List (ℕ × Call)) (s : ApprovalSession) → SameSession s (run cs s)
unfolding run
run-SameSession [] s = record {
  instance_pda = refl;
  proposal_id = refl;
  member_commitment = refl;
  public_inputs = refl;
  nullifier = refl;
}
run-SameSession ((now, c) ∷ cs) s =
    SameSession-trans s (step now c s).0 (run cs (step now c s).0) (step-SameSession now c s)
      (run-SameSession cs (step now c s).0)

-- The documented state machine.
pub data Edge : SessionStatus → SessionStatus → Type 0 where
  stay : {a : SessionStatus} → Edge a a
  begin : Edge drafted proving
  finish : Edge proving proved
  send : Edge proved submitted
  settle : Edge submitted confirmed
  retry : Edge proved proving
  demote : Edge submitted proved
  give_up : {a : SessionStatus} → Edge a failed

valid-Edge : (a b : SessionStatus) → valid a b ≡ true → Edge a b
unfolding valid
valid-Edge drafted proving v = begin
valid-Edge proving proved v = finish
valid-Edge proved submitted v = send
valid-Edge submitted confirmed v = settle
valid-Edge proved proving v = retry
valid-Edge _ _ v = absurd (ground arith)

-- A reorg call on a session that is not submitted.
abbrev pub is_stray : Call → ApprovalSession → Bool
is_stray (reorg block) s = not (is_submitted s.status)
is_stray _ s = false

-- The new status is the old one, or a valid transition leads there.
Moves : SessionStatus → SessionStatus → Type 0
Moves a b = (b ≡ a) ⊎ (valid a b ≡ true)

Moves-Edge : (a b : SessionStatus) → Moves a b → Edge a b
unfolding Moves
Moves-Edge a b (inl same) = subst (Edge a) (sym same) stay
Moves-Edge a b (inr v) = valid-Edge a b v

transition_to-Moves :
    (now : ℕ) (next : SessionStatus) (s : ApprovalSession)
    → Moves s.status (transition_to now next s).0.status
unfolding Moves transition_to
transition_to-Moves now next s = elim (Bool-cases (valid s.status next)) [
  | inl v ↦ rw v (inr v)
  | inr v ↦ rw v (inl refl)
]

and_then-status :
    {A B : Type 0} (r : ApprovalSession × Result SdkError A)
    (k : ApprovalSession → ApprovalSession × Result SdkError B)
    → ((t : ApprovalSession) → (k t).0.status ≡ t.status)
    → (and_then r k).0.status ≡ r.0.status
and_then-status (t, ok a) k h = h t
and_then-status (t, err e) k h = refl

is_submitted-eq : (a : SessionStatus) → is_submitted a ≡ true → a ≡ submitted
is_submitted-eq submitted h = refl
is_submitted-eq _ h = absurd (ground arith)

confirm-Moves :
    (now current n : ℕ) (s : ApprovalSession)
    → Moves s.status (try_confirm now current n s).0.status
unfolding Moves try_confirm transition_to
confirm-Moves now current n s = ground (arith, is_submitted-eq s.status)

reorg-Edge :
    (now current : ℕ) (s : ApprovalSession)
    → not (is_submitted s.status) ≡ false
    → Edge s.status (demote_on_reorg now current s).status
unfolding demote_on_reorg
reorg-Edge now current s h =
    let e : s.status ≡ submitted = is_submitted-eq s.status (ground arith) in
    elim (Option-cases s.submission_block) [
      | inl missing ↦ rw missing stay
      | inr (b, found) ↦ elim (Bool-cases (ltb current b)) [
        | inl reverted ↦ rw (found, reverted, e) demote
        | inr kept ↦ rw (found, kept) stay
      ]
    ]

-- Every call moves the status along an edge of the documented machine, or leaves it, unless it is a
-- reorg call on a session that is not Submitted.
pub step-Edge :
    (now : ℕ) (c : Call) (s : ApprovalSession)
    → is_stray c s ≡ false
    → Edge s.status (step now c s).0.status
unfolding step mark_proving force_confirm_unchecked mark_proved mark_submitted mark_failed
step-Edge now start s h = Moves-Edge _ _ (transition_to-Moves now proving s)
step-Edge now force s h = Moves-Edge _ _ (transition_to-Moves now confirmed s)
step-Edge now (prove receipt) s h =
    rw
      (and_then-status (transition_to now proved s)
        (λ t. (record t { receipt = some receipt }, ok tt)) (λ t. refl))
      (Moves-Edge _ _ (transition_to-Moves now proved s))
step-Edge now (submit block) s h =
    rw
      (and_then-status (transition_to now submitted s)
        (λ t. (record t { submission_block = some block }, ok tt)) (λ t. refl))
      (Moves-Edge _ _ (transition_to-Moves now submitted s))
step-Edge now (reorg block) s h = reorg-Edge now block s h
step-Edge now (confirm current n) s h = Moves-Edge _ _ (confirm-Moves now current n s)
step-Edge now (fail message) s h = give_up

-- `try_confirm` answers true exactly for a submitted session with a block from which n blocks have
-- passed, counted without overflow of 64 bits.
pub try_confirm_iff :
    (now current n : ℕ) (s : ApprovalSession)
    → ((try_confirm now current n s).1 ≡ ok true) ↔ (
        (b : ℕ) × (s.status ≡ submitted)
        × (s.submission_block ≡ some b)
        × (b + n ≤ current)
        × (b + n < 2 ^ 64))
unfolding try_confirm transition_to valid
try_confirm_iff now current n s = (
  λ h. elim (Option-cases s.submission_block) [
    | inl missing ↦ absurd (ground arith)
    | inr (b, found) ↦
        (b, is_submitted-eq s.status (ground arith), found, ground arith, ground arith)
  ],
  λ h. let (b, at, found, passed, bound) = h in ground arith,
)

-- A session that was submitted at a block and then failed comes back as Proved, ready to be
-- submitted again, when a reorg call names an earlier block: `Failed` does not end a session.
pub demote_on_reorg_revives :
    (t1 t2 t3 block current : ℕ) (message : Bytes) (s : ApprovalSession)
    → current < block
    → (mark_submitted t1 block s).1 ≡ ok tt
    → let dead = mark_failed t2 message (mark_submitted t1 block s).0 in
      (dead.status ≡ failed)
      × ((demote_on_reorg t3 current dead).status ≡ proved)
      × (can_resubmit (demote_on_reorg t3 current dead).status ≡ true)
unfolding mark_submitted mark_failed demote_on_reorg transition_to can_resubmit
demote_on_reorg_revives t1 t2 t3 block current message s h e =
    elim (Bool-cases (valid s.status submitted)) [
      | inr v ↦ absurd (let e' : err session_status_mismatch ≡ ok tt = rw v at e in cc)
      | inl v ↦
          let earlier : ltb current block ≡ true = ground arith in
          rw (v, earlier) (refl, refl, refl)
    ]
