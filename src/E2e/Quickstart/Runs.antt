-- ===== src/E2e/Quickstart/Runs.antt =====
-- Whole runs of the quickstart.
use private_m_of_n_multisig.Common.{
  ℕ, ◌≤◌, ◌<◌, ◌≡◌, refl, sym, ap, subst, ◌∙◌, arith, false, Option, List, [], ok, err, fail_if,
  fail_if-eq-ok, >>=-eq-ok, length, ltb, ltb_false→le, ◌==◌,
}
use private_m_of_n_multisig.Common.Bytes.{Bytes}
use private_m_of_n_multisig.Crypto.Hash.{Hasher}
use private_m_of_n_multisig.Crypto.Identity.{Identity}
use private_m_of_n_multisig.Circuit.{GuestEnv}
use private_m_of_n_multisig.Sdk.Builder.{finalize, snapshot, new_builder}
use private_m_of_n_multisig.Sdk.Prover.Proving.{Risc0}
use private_m_of_n_multisig.Verifier.Ledger.Tally.{IsDistinct}
use private_m_of_n_multisig.E2e.Quickstart.{
  Demo, demo_create_key, demo_program_id, QuickError, threshold_zero, members_zero,
  threshold_exceeds_members, too_few_approvals, context, mode_or_default, new_members, add_members,
  approve_all, replay, run_demo, run_layer_a,
}
use private_m_of_n_multisig.E2e.Quickstart.Approvals.{approve_all_lem}
use private_m_of_n_multisig.E2e.Quickstart.Outcome.{
  is_inconsistent, bind-IsSafe, context-IsSafe, fail_if-IsSafe, new_members-IsSafe,
  length-new_members, add_members-IsSafe, run_demo-IsSafe,
}

module _ (H : Hasher) (E : GuestEnv) (R : Risc0 H E) (var : Option Bytes)
    (circuit_id noop_id : List ℕ) (random : ℕ → Option Bytes × Option Bytes)
    (threshold member_count : ℕ) (action : Bytes) where
  positive : (threshold == 0) ≡ false → 0 < threshold
  positive h = ground arith

  -- The members and the demo of a run, once it has come to the approval loop.
  run_layer_a_parts :
      (ns : List Bytes) (k : ℕ)
      → run_layer_a H E R var circuit_id noop_id random threshold member_count action ≡ ok (ns, k)
      → (0 < threshold)
        × (threshold ≤ member_count)
        × ((members : List Identity) × (d : Demo) × (length members ≡ member_count)
            × (run_demo H E R (mode_or_default var) circuit_id d threshold members ≡ ok (ns, k)))
  unfolding run_layer_a
  run_layer_a_parts ns k h =
      let (_, a, h1) = >>=-eq-ok (fail_if (threshold == 0) threshold_zero) _ h in
      let (_, b, h2) = >>=-eq-ok (fail_if (member_count == 0) members_zero) _ h1 in
      let (_, c, h3) =
        >>=-eq-ok (fail_if (ltb member_count threshold) threshold_exceeds_members) _ h2 in
      let (members, m, h4) = >>=-eq-ok (new_members random 0 member_count) _ h3 in
      let (builder, _, h5) = >>=-eq-ok (add_members H members (new_builder H threshold)) _ h4 in
      let (finalized, _, h6) = >>=-eq-ok (context (finalize H builder)) _ h5 in
      let (snap, _, h7) =
        >>=-eq-ok
          (context (
            snapshot H demo_program_id demo_create_key finalized.members_root finalized.m
              finalized.n 1))
          _ h6 in
      (
        positive (fail_if-eq-ok (threshold == 0) threshold_zero a),
        ltb_false→le member_count threshold
            (fail_if-eq-ok (ltb member_count threshold) threshold_exceeds_members c),
        (members, _, length-new_members random 0 member_count members m, h7),
      )

  -- A run of the quickstart that succeeds was asked for a threshold of at least 1 and at most the
  -- number of members, and has recorded just as many approvals as the threshold, with as many
  -- nullifiers, no two of them equal.
  pub run_layer_a-IsDistinct :
      (ns : List Bytes) (k : ℕ)
      → run_layer_a H E R var circuit_id noop_id random threshold member_count action ≡ ok (ns, k)
      → (1 ≤ threshold)
        × (threshold ≤ member_count)
        × (k ≡ threshold)
        × (length ns ≡ threshold)
        × IsDistinct ns
  unfolding run_demo
  run_layer_a-IsDistinct ns k h =
      let (low, high, (members, d, size, ran)) = run_layer_a_parts ns k h in
      let ((ns', k'), a, h1) =
        >>=-eq-ok (approve_all H E R (mode_or_default var) circuit_id d threshold members [] 0) _
          ran in
      let (_, _, h2) = >>=-eq-ok (fail_if (ltb k' threshold) too_few_approvals) _ h1 in
      let (_, _, h3) =
        >>=-eq-ok (replay H E R (mode_or_default var) circuit_id d members ns') _ h2 in
      let (count, total, distinct) =
        approve_all_lem H E R (mode_or_default var) circuit_id d threshold members [] ns' 0 k' low
          (omega arith) refl tt a in
      let same_ns : ns' ≡ ns = cc in
      let same_k : k' ≡ k = cc in
      (
        low,
        high,
        sym same_k ∙ count,
        ap (λ (l : List Bytes). length l) (sym same_ns) ∙ total,
        subst IsDistinct same_ns distinct,
      )

  -- However a run of the quickstart fails, it is not because too few approvals were collected, nor
  -- because the replayed nullifier of the first member was missing from the set, nor in a panic on
  -- a missing first member.
  pub run_layer_a_errors :
      (e : QuickError)
      → run_layer_a H E R var circuit_id noop_id random threshold member_count action ≡ err e
      → is_inconsistent e ≡ false
  unfolding run_layer_a
  run_layer_a_errors =
      bind-IsSafe (fail_if (threshold == 0) threshold_zero) _ (fail_if-IsSafe _ _ refl) λ u a.
        bind-IsSafe (fail_if (member_count == 0) members_zero) _ (fail_if-IsSafe _ _ refl) λ _ _.
          bind-IsSafe (fail_if (ltb member_count threshold) threshold_exceeds_members) _
            (fail_if-IsSafe _ _ refl)
            λ v c.
              bind-IsSafe (new_members random 0 member_count) _
                (new_members-IsSafe random 0 member_count)
                λ members m.
                  bind-IsSafe (add_members H members (new_builder H threshold)) _
                    (add_members-IsSafe H members _)
                    λ builder _.
                      bind-IsSafe (context (finalize H builder)) _ (context-IsSafe _) λ finalized _.
                        bind-IsSafe
                          (context (
                            snapshot H demo_program_id demo_create_key finalized.members_root
                              finalized.m finalized.n 1))
                          _ (context-IsSafe _)
                          λ snap _.
                            run_demo-IsSafe H E R (mode_or_default var) circuit_id _ threshold
                              members (positive (fail_if-eq-ok (threshold == 0) threshold_zero a))
                              (omega (
                                arith,
                                length-new_members random 0 member_count members m,
                                ltb_false→le member_count threshold (
                                    fail_if-eq-ok (ltb member_count threshold)
                                      threshold_exceeds_members c),
                              ))
