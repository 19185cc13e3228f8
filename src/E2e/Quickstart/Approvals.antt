-- ===== src/E2e/Quickstart/Approvals.antt =====
-- The approvals that the quickstart collects: as many as the threshold, with different nullifiers.
use private_m_of_n_multisig.Common.{
  ℕ, ◌+◌, ◌≤◌, ◌<◌, ◌≡◌, ◌≢◌, ◌⊎◌, inl, inr, refl, sym, ap, subst, ◌∙◌, arith, true, false, not,
  Option, List, [], ◌∷◌, Result, ok, err, fail_if, fail_if-eq-ok, ok_or, >>=-eq-ok, length, leb,
  leb→le, Bool-cases,
}
use private_m_of_n_multisig.Common.Bytes.{Bytes, All, bytes_eq, bytes_eq_refl, bytes_ne_of_eq}
use private_m_of_n_multisig.Crypto.Hash.{Hasher}
use private_m_of_n_multisig.Crypto.Identity.{Identity}
use private_m_of_n_multisig.Circuit.{GuestEnv}
use private_m_of_n_multisig.Sdk.Errors.{SdkError}
use private_m_of_n_multisig.Sdk.Builder.{contains}
use private_m_of_n_multisig.Sdk.Prover.{
  ApprovalProver, public_inputs_bytes, nullifier, compute_nullifier,
}
use private_m_of_n_multisig.Sdk.Prover.Proving.{Risc0, prove}
use private_m_of_n_multisig.Sdk.Prover.Proving.Receipts.{prove-prove}
use private_m_of_n_multisig.Verifier.Ledger.Tally.{IsDistinct}
use private_m_of_n_multisig.E2e.Quickstart.{
  Demo, deserialize_receipt, journal_mismatch, duplicate_nullifier, context, verified, prover_of,
  check_receipt, approve_one, approve_all,
}

module _ (H : Hasher) (E : GuestEnv) (R : Risc0 H E) (dev_mode : Option Bytes)
    (circuit_id : List ℕ) where
  pub context-eq-ok : {A : Type 0} (r : Result SdkError A) {a : A} → context r ≡ ok a → r ≡ ok a
  context-eq-ok (err e) h = cc
  context-eq-ok (ok b) h = cc

  -- A nullifier that is accepted is that of the prover as it was made.
  check_receipt-eq-ok :
      (p : ApprovalProver) (r : Result SdkError Bytes × ApprovalProver) (n : Bytes)
      → prove H E R dev_mode R.approve_circuit_elf p ≡ r
      → check_receipt H E R dev_mode circuit_id r ≡ ok n
      → n ≡ nullifier H p
  unfolding nullifier compute_nullifier
  check_receipt-eq-ok p (r, q) n e h =
      let (bytes, b, h1) = >>=-eq-ok (context r) _ h in
      let (receipt, d, h2) = >>=-eq-ok (ok_or (R.deserialize bytes) deserialize_receipt) _ h1 in
      let (_, v, h3) = >>=-eq-ok (verified (R.verify receipt circuit_id)) _ h2 in
      let (_, j, h4) =
        >>=-eq-ok
          (fail_if (not (bytes_eq (R.journal receipt) (public_inputs_bytes H q))) journal_mismatch)
          _ h3 in
      let given : n ≡ nullifier H q = cc in
      let changed =
        (prove-prove H E R dev_mode R.approve_circuit_elf p q bytes R dev_mode
          (e ∙ λ i. (context-eq-ok r b i, q))).0 in
      given ∙ ap (nullifier H) changed

  approve_one-eq-ok :
      (d : Demo) (member : Identity) (n : Bytes)
      → approve_one H E R dev_mode circuit_id d member ≡ ok n
      → (p : ApprovalProver) × (prover_of H E R dev_mode circuit_id d member ≡ ok p)
        × (n ≡ nullifier H p)
  unfolding approve_one
  approve_one-eq-ok d member n h =
      let (p, e, h1) = >>=-eq-ok (prover_of H E R dev_mode circuit_id d member) _ h in
      (p, e, check_receipt-eq-ok p (prove H E R dev_mode R.approve_circuit_elf p) n refl h1)

  -- One round of the loop that ends well.
  approve_all-eq-ok :
      (d : Demo) (t : ℕ) (member : Identity) (rest : List Identity) (ns out : List Bytes) (c k : ℕ)
      → approve_all H E R dev_mode circuit_id d t (member ∷ rest) ns c ≡ ok (out, k)
      → (n : Bytes) × (approve_one H E R dev_mode circuit_id d member ≡ ok n)
        × (contains ns n ≡ false)
        × (((t ≤ c + 1) × (out ≡ n ∷ ns) × (k ≡ c + 1))
            ⊎ ((c + 1 < t)
                × (approve_all H E R dev_mode circuit_id d t rest (n ∷ ns) (c + 1) ≡ ok (out, k))))
  unfolding approve_all
  approve_all-eq-ok d t member rest ns out c k h =
      let (n, e, h1) = >>=-eq-ok (approve_one H E R dev_mode circuit_id d member) _ h in
      let (_, f, h2) = >>=-eq-ok (fail_if (contains ns n) duplicate_nullifier) _ h1 in
      (
        n,
        e,
        fail_if-eq-ok (contains ns n) duplicate_nullifier f,
        elim (Bool-cases (leb t (c + 1))) [
          | inl met ↦ inl (
              let q : ok (n ∷ ns, c + 1) ≡ ok (out, k) = rw met at h2 in
              (leb→le t (c + 1) met, cc, cc))
          | inr more ↦ inr (ground arith, rw more at h2)
        ],
      )

  contains-cons :
      (n : Bytes) (ns : List Bytes) (x : Bytes) → contains ns x ≡ true → contains (n ∷ ns) x ≡ true
  unfolding contains
  contains-cons n ns x h = ground (arith, h)

  -- A nullifier that is in the set stays in it.
  approve_all_keeps :
      (d : Demo) (t : ℕ) (members : List Identity) (ns out : List Bytes) (c k : ℕ) (x : Bytes)
      → contains ns x ≡ true
      → approve_all H E R dev_mode circuit_id d t members ns c ≡ ok (out, k)
      → contains out x ≡ true
  unfolding approve_all
  approve_all_keeps d t [] ns out c k x h e = let same : ns ≡ out = cc in rw same at h
  approve_all_keeps d t (member ∷ rest) ns out c k x h e =
      let (n, _, _, ends) = approve_all-eq-ok d t member rest ns out c k e in
      elim ends [
        | inl (_, is_out, _) ↦ rw is_out (contains-cons n ns x h)
        | inr (_, later) ↦
            approve_all_keeps d t rest (n ∷ ns) out (c + 1) k x (contains-cons n ns x h) later
      ]

  contains_fresh : (ns : List Bytes) (n : Bytes) → contains ns n ≡ false → All (λ y. y ≢ n) ns
  unfolding contains
  contains_fresh [] n h = tt
  contains_fresh (x ∷ ns) n h =
      (bytes_ne_of_eq x n (ground arith), contains_fresh ns n (ground arith))

  -- The loop stops at the threshold, if there are enough members.
  pub approve_all_lem :
      (d : Demo) (t : ℕ) (members : List Identity) (ns out : List Bytes) (c k : ℕ)
      → c < t
      → t ≤ c + length members
      → length ns ≡ c
      → IsDistinct ns
      → approve_all H E R dev_mode circuit_id d t members ns c ≡ ok (out, k)
      → (k ≡ t) × (length out ≡ t) × IsDistinct out
  unfolding approve_all
  approve_all_lem d t [] ns out c k below enough size distinct e = absurd (omega arith)
  approve_all_lem d t (member ∷ rest) ns out c k below enough size distinct e =
      let (n, _, fresh, ends) = approve_all-eq-ok d t member rest ns out c k e in
      let distinct' : IsDistinct (n ∷ ns) = (contains_fresh ns n fresh, distinct) in
      elim ends [
        | inl (met, is_out, count) ↦ (
          omega arith,
          ap (λ (l : List Bytes). length l) is_out ∙ omega arith,
          subst IsDistinct (sym is_out) distinct',
        )
        | inr (more, later) ↦
            approve_all_lem d t rest (n ∷ ns) out (c + 1) k more (omega arith) (omega arith)
              distinct' later
      ]

  -- The first member's nullifier is in the set once the loop is over, so that its replay is found.
  pub approve_all-contains :
      (d : Demo) (t : ℕ) (member : Identity) (rest : List Identity) (out : List Bytes) (k : ℕ)
      (p : ApprovalProver)
      → approve_all H E R dev_mode circuit_id d t (member ∷ rest) [] 0 ≡ ok (out, k)
      → prover_of H E R dev_mode circuit_id d member ≡ ok p
      → contains out (nullifier H p) ≡ true
  unfolding approve_all contains
  approve_all-contains d t member rest out k p e made =
      let (n, approved, _, ends) = approve_all-eq-ok d t member rest [] out 0 k e in
      let (q, made', same) = approve_one-eq-ok d member n approved in
      let is_p : q ≡ p = let two : ok q ≡ ok p = sym made' ∙ made in cc in
      let is_n : n ≡ nullifier H p = same ∙ ap (nullifier H) is_p in
      let here : contains (n ∷ []) (nullifier H p) ≡ true =
        rw (is_n, bytes_eq_refl (nullifier H p)) refl in
      elim ends [
        | inl (_, is_out, _) ↦ rw is_out here
        | inr (_, later) ↦ approve_all_keeps d t rest (n ∷ []) out 1 k (nullifier H p) here later
      ]
