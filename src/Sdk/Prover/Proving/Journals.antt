-- ===== src/Sdk/Prover/Proving/Journals.antt =====
-- The journal of the receipts that `prove` returns, and the harness's check of them.
use private_m_of_n_multisig.Common.{
  ℕ, arith, ◌≡◌, refl, sym, subst, ◌∙◌, false, Option, none, some, List, ok, length,
}
use private_m_of_n_multisig.Common.Bytes.{Bytes, bytes_eq_refl}
use private_m_of_n_multisig.Crypto.Hash.{Hasher, hash_len}
use private_m_of_n_multisig.Crypto.Identity.{Identity, IsIdentity}
use private_m_of_n_multisig.Crypto.Merkle.{MerkleProof, IsProof}
use private_m_of_n_multisig.Circuit.{GuestEnv}
use private_m_of_n_multisig.Sdk.Builder.{MultisigStateSnapshot}
use private_m_of_n_multisig.Sdk.Prover.{
  ApprovalProver, new, proposal_id, guest_stream, public_inputs_bytes, public_inputs,
  compute_nullifier,
}
use private_m_of_n_multisig.Sdk.Prover.EndToEnd.{main-guest_stream}
use private_m_of_n_multisig.Sdk.Prover.Proving.{
  Risc0, image_id, is_dev_mode, prove_encoded, prove_from, prove, assert_inner_receipt_verifies,
}
use private_m_of_n_multisig.Sdk.Prover.Proving.Receipts.{
  cache-eq-ok, prove-prove, Proved, prove_encoded-Proved,
}

new-receipt :
    (H : Hasher) (member : Identity) (snap : MultisigStateSnapshot) (index : ℕ)
    (action target : Bytes) (proof : MerkleProof) (p : ApprovalProver)
    → new H member snap index action target proof ≡ ok p
    → p.receipt ≡ none
unfolding new
new-receipt H member snap index action target proof p e = ground arith

module _ (H : Hasher) (E : GuestEnv) (R : Risc0 H E) (dev_mode : Option Bytes) (elf : Bytes) where
  prove_from-Proved :
      (p q : ApprovalProver) (bytes : Bytes) (cached : Option Bytes)
      → cached ≡ none
      → prove_from H E R dev_mode elf p cached ≡ (ok bytes, q)
      → Proved H E R dev_mode elf p bytes
  prove_from-Proved p q bytes none c h =
      prove_encoded-Proved H E R dev_mode elf p bytes
        (cache-eq-ok H E R dev_mode elf p q (prove_encoded H E R dev_mode elf p) bytes h).0
  prove_from-Proved p q bytes (some b) c h = cc

  module _ (member : Identity) (snap : MultisigStateSnapshot) (index : ℕ) (action target : Bytes)
      (proof : MerkleProof) (p q : ApprovalProver) (bytes : Bytes) (wi : IsIdentity member)
      (wp : IsProof proof) (hr : length snap.members_root ≡ hash_len)
      (is_circuit : elf ≡ R.approve_circuit_elf)
      (made : new H member snap index action target proof ≡ ok p)
      (ran : prove H E R dev_mode elf p ≡ (ok bytes, q)) where
    proved_once : Proved H E R dev_mode elf p bytes
    unfolding prove
    proved_once =
        prove_from-Proved p q bytes p.receipt
          (new-receipt H member snap index action target proof p made) ran

    journal_lem : R.journal proved_once.receipt ≡ public_inputs_bytes H p
    journal_lem =
        let w = proved_once in
        let journal =
          R.journal-prove (guest_stream p (proposal_id H p)) w.env w.receipt w.built
            (subst (λ e. R.prove w.env e ≡ ok w.receipt) is_circuit w.proved) in
        let expected =
          main-guest_stream H E member snap index action target proof p wi wp hr made in
        let e : ok (R.journal w.receipt) ≡ ok (public_inputs_bytes H p) = sym journal ∙ expected in
        cc

    -- Let `new` accept a member's 32-byte identity, a Merkle proof of 20 levels and a snapshot with
    -- a 32-byte root, and let `prove` succeed on the approve circuit's ELF. Then the bytes that it
    -- returns decode to a receipt whose journal is the prover's `public_inputs_bytes`.
    pub prove-journal :
        (receipt : R.Receipt) × (R.deserialize bytes ≡ some receipt)
        × (R.journal receipt ≡ public_inputs_bytes H p)
    prove-journal =
        let w = proved_once in
        (w.receipt, R.deserialize-serialize w.receipt bytes w.serialized, journal_lem)

    same_inputs : public_inputs_bytes H q ≡ public_inputs_bytes H p
    unfolding public_inputs_bytes public_inputs compute_nullifier
    same_inputs = rw (prove-prove H E R dev_mode elf p q bytes R dev_mode ran).0 refl

    -- Let `new` accept a member's 32-byte identity, a Merkle proof of 20 levels and a snapshot with
    -- a 32-byte root, and let `prove` succeed on the approve circuit's ELF, outside the development
    -- mode. Then the harness's check of the inner receipt succeeds: the receipt decodes, verifies
    -- against the image id that the program crate exports, if it is the one that the SDK has
    -- pinned, and has the public inputs as its journal.
    pub assert_inner_receipt_verifies-prove :
        (circuit_id : List ℕ)
        → circuit_id ≡ image_id
        → is_dev_mode dev_mode ≡ false
        → assert_inner_receipt_verifies H E R dev_mode elf circuit_id p ≡ ok tt
    unfolding assert_inner_receipt_verifies
    assert_inner_receipt_verifies-prove circuit_id pinned production =
        let w = proved_once in
        rw
          (
            ran,
            R.deserialize-serialize w.receipt bytes w.serialized,
            pinned,
            w.verified production,
            journal_lem,
            same_inputs,
            bytes_eq_refl (public_inputs_bytes H p),
          )
          refl
