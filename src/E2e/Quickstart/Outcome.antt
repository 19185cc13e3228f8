-- ===== src/E2e/Quickstart/Outcome.antt =====
-- How a run of the quickstart ends.
use private_m_of_n_multisig.Common.{
  ℕ, zero, suc, ◌+◌, ◌≤◌, ◌<◌, ◌≡◌, refl, sym, ap, ◌∙◌, arith, Bool, true, false, not, Option, none,
  some, List, [], ◌∷◌, Result, ok, err, ◌>>=◌, fail_if, ok_or, >>=-eq-ok, length, leb, le→ltb_false,
  if◌then◌else◌,
}
use private_m_of_n_multisig.Common.Bytes.{Bytes, bytes_eq}
use private_m_of_n_multisig.Crypto.Hash.{Hasher}
use private_m_of_n_multisig.Crypto.Identity.{Identity}
use private_m_of_n_multisig.Circuit.{GuestEnv}
use private_m_of_n_multisig.Sdk.Errors.{SdkError}
use private_m_of_n_multisig.Sdk.Keystore as Keystore
use private_m_of_n_multisig.Sdk.Builder.{MultisigBuilder, contains, add_member, merkle_proof}
use private_m_of_n_multisig.Sdk.Prover.{ApprovalProver, member_commitment, public_inputs_bytes}
use private_m_of_n_multisig.Sdk.Prover.Proving.{Risc0, prove}
use private_m_of_n_multisig.E2e.Quickstart.{
  Demo, QuickError, empty_members, deserialize_receipt, journal_mismatch, duplicate_nullifier,
  too_few_approvals, double_vote_model_failed, context, verified, keygen, new_members, add_members,
  prover_of, check_receipt, approve_one, approve_all, replay, run_demo,
}
use private_m_of_n_multisig.E2e.Quickstart.Approvals.{approve_all_lem, approve_all-contains}

-- The errors that the source calls an inconsistent state of the demo or a failure of its model of
-- double votes, and a panic on a missing first member.
abbrev pub is_inconsistent : QuickError → Bool
is_inconsistent too_few_approvals = true
is_inconsistent double_vote_model_failed = true
is_inconsistent empty_members = true
is_inconsistent _ = false

-- No error of the result is one of them.
abbrev pub IsSafe : {A : Type 0} → Result QuickError A → Type 0
IsSafe r = (e : QuickError) → r ≡ err e → is_inconsistent e ≡ false

pub bind-IsSafe :
    {A B : Type 0} (r : Result QuickError A) (rest : A → Result QuickError B)
    → IsSafe r
    → ((a : A) → r ≡ ok a → IsSafe (rest a))
    → IsSafe (r >>= rest)
bind-IsSafe (err f) rest s k e h = s e cc
bind-IsSafe (ok a) rest s k e h = k a refl e h

ok-IsSafe : {A : Type 0} (a : A) → IsSafe (ok a)
ok-IsSafe a e h = cc

err-IsSafe : {A : Type 0} (f : QuickError) → is_inconsistent f ≡ false → IsSafe {A = A} (err f)
err-IsSafe f s e h = let same : f ≡ e = cc in rw same at s

pub context-IsSafe : {A : Type 0} (r : Result SdkError A) → IsSafe (context r)
context-IsSafe (err f) e h = err-IsSafe _ refl e h
context-IsSafe (ok a) e h = cc

verified-IsSafe : (r : Result Bytes (Unit {0})) → IsSafe (verified r)
verified-IsSafe (err f) e h = err-IsSafe _ refl e h
verified-IsSafe (ok a) e h = cc

keygen-IsSafe : (r : Result Keystore.Failure Identity) → IsSafe (keygen r)
keygen-IsSafe (err f) e h = err-IsSafe _ refl e h
keygen-IsSafe (ok a) e h = cc

pub fail_if-IsSafe : (b : Bool) (f : QuickError) → is_inconsistent f ≡ false → IsSafe (fail_if b f)
fail_if-IsSafe true f s = err-IsSafe f s
fail_if-IsSafe false f s = ok-IsSafe tt

ok_or-IsSafe :
    {A : Type 0} (o : Option A) (f : QuickError) → is_inconsistent f ≡ false → IsSafe (ok_or o f)
ok_or-IsSafe none f s = err-IsSafe f s
ok_or-IsSafe (some a) f s = ok-IsSafe a

if-IsSafe :
    {A : Type 0} (b : Bool) (x y : Result QuickError A)
    → IsSafe x
    → IsSafe y
    → IsSafe (if b then x else y)
if-IsSafe true x y sx sy = sx
if-IsSafe false x y sx sy = sy

pub new_members-IsSafe :
    (random : ℕ → Option Bytes × Option Bytes) (i rounds : ℕ) → IsSafe (new_members random i rounds)
unfolding new_members
new_members-IsSafe random i zero = ok-IsSafe _
new_members-IsSafe random i (suc rounds) =
    bind-IsSafe (keygen (Keystore.new (random i).0 (random i).1)) _ (keygen-IsSafe _) λ member _.
      bind-IsSafe (new_members random (i + 1) rounds) _ (new_members-IsSafe random (i + 1) rounds)
        λ rest _. ok-IsSafe _

pub length-new_members :
    (random : ℕ → Option Bytes × Option Bytes) (i rounds : ℕ) (ms : List Identity)
    → new_members random i rounds ≡ ok ms
    → length ms ≡ rounds
unfolding new_members
length-new_members random i zero ms h =
    let e : [] ≡ ms = cc in ap (λ (l : List Identity). length l) (sym e)
length-new_members random i (suc rounds) ms h =
    let (member, _, h1) = >>=-eq-ok (keygen (Keystore.new (random i).0 (random i).1)) _ h in
    let (rest, r, h2) = >>=-eq-ok (new_members random (i + 1) rounds) _ h1 in
    let e : member ∷ rest ≡ ms = cc in
    ap (λ (l : List Identity). length l) (sym e)
    ∙ ap suc (length-new_members random (i + 1) rounds rest r)

module _ (H : Hasher) where
  pub add_members-IsSafe : (ms : List Identity) (b : MultisigBuilder) → IsSafe (add_members H ms b)
  unfolding add_members
  add_members-IsSafe [] b = ok-IsSafe b
  add_members-IsSafe (m ∷ rest) b =
      let (b', r) = add_member b (member_commitment H m) in
      bind-IsSafe (context r) _ (context-IsSafe r) λ _ _. add_members-IsSafe rest b'

module _ (H : Hasher) (E : GuestEnv) (R : Risc0 H E) (dev_mode : Option Bytes)
    (circuit_id : List ℕ) where
  prover_of-IsSafe : (d : Demo) (m : Identity) → IsSafe (prover_of H E R dev_mode circuit_id d m)
  unfolding prover_of
  prover_of-IsSafe d m =
      bind-IsSafe (context (merkle_proof H d.finalized (member_commitment H m))) _
        (context-IsSafe _) λ proof _. context-IsSafe _

  check_receipt-IsSafe :
      (r : Result SdkError Bytes × ApprovalProver)
      → IsSafe (check_receipt H E R dev_mode circuit_id r)
  check_receipt-IsSafe (r, q) = bind-IsSafe (context r) _ (context-IsSafe r) λ bytes _.
      bind-IsSafe (ok_or (R.deserialize bytes) deserialize_receipt) _ (ok_or-IsSafe _ _ refl)
        λ receipt _.
          bind-IsSafe (verified (R.verify receipt circuit_id)) _ (verified-IsSafe _) λ _ _.
            bind-IsSafe
              (fail_if (not (bytes_eq (R.journal receipt) (public_inputs_bytes H q)))
                journal_mismatch)
              _ (fail_if-IsSafe _ _ refl) λ _ _. ok-IsSafe _

  approve_all-IsSafe :
      (d : Demo) (t : ℕ) (members : List Identity) (ns : List Bytes) (c : ℕ)
      → IsSafe (approve_all H E R dev_mode circuit_id d t members ns c)
  unfolding approve_all approve_one
  approve_all-IsSafe d t [] ns c = ok-IsSafe _
  approve_all-IsSafe d t (m ∷ rest) ns c =
      bind-IsSafe (approve_one H E R dev_mode circuit_id d m) _
        (bind-IsSafe (prover_of H E R dev_mode circuit_id d m) _ (prover_of-IsSafe d m)
          λ p _. check_receipt-IsSafe (prove H E R dev_mode R.approve_circuit_elf p))
        λ n _.
          bind-IsSafe (fail_if (contains ns n) duplicate_nullifier) _ (fail_if-IsSafe _ _ refl)
            λ _ _.
              if-IsSafe (leb t (c + 1)) _ _ (ok-IsSafe _)
                (approve_all-IsSafe d t rest (n ∷ ns) (c + 1))

  pub run_demo-IsSafe :
      (d : Demo) (t : ℕ) (members : List Identity)
      → 0 < t
      → t ≤ length members
      → IsSafe (run_demo H E R dev_mode circuit_id d t members)
  unfolding run_demo replay
  run_demo-IsSafe d t [] positive enough = absurd (omega arith)
  run_demo-IsSafe d t (m ∷ rest) positive enough =
      bind-IsSafe (approve_all H E R dev_mode circuit_id d t (m ∷ rest) [] 0) _
        (approve_all-IsSafe d t (m ∷ rest) [] 0)
        λ (ns, k) ran.
          let (count, _, _) =
            approve_all_lem H E R dev_mode circuit_id d t (m ∷ rest) [] ns 0 k positive
              (omega arith) refl tt ran in
          rw (le→ltb_false k t (omega arith)) (
            bind-IsSafe (replay H E R dev_mode circuit_id d (m ∷ rest) ns) _
              (bind-IsSafe (prover_of H E R dev_mode circuit_id d m) _ (prover_of-IsSafe d m)
                λ p made.
                  rw (approve_all-contains H E R dev_mode circuit_id d t m rest ns k p ran made)
                    (ok-IsSafe tt))
              λ _ _. ok-IsSafe _)
