-- ===== src/Sdk/Prover/Authorization.antt =====
-- Who can approve: the builder's tree (sdk/src/multisig.rs), the circuit
-- (methods/guest/src/bin/approve_circuit.rs) and the handler `approve` (private_multisig.rs).
use private_m_of_n_multisig.Common.{ℕ, ◌≡◌, sym, ap, ◌∙◌, ◌⊎◌, true, some, List, ok, get_elem?}
use private_m_of_n_multisig.Common.Bytes.{Bytes}
use private_m_of_n_multisig.Crypto.Hash.{Hasher, CollidesIn}
use private_m_of_n_multisig.Crypto.Identity as Identity
use private_m_of_n_multisig.Crypto.Identity.{Identity, IsIdentity, commitment}
use private_m_of_n_multisig.Crypto.Merkle.{MerkleProof, IsProof, verify_proof}
use private_m_of_n_multisig.Crypto.Merkle.Binding.{position, proof_inputs, slot_inputs}
use private_m_of_n_multisig.Core.State.{MultisigState, Proposal}
use private_m_of_n_multisig.Core.Proof as Proof
use private_m_of_n_multisig.Core.Proof.{
  ApprovePublicInputs, IsPublicInputs, to_bytes, from_bytes, from_bytes-to_bytes, from_u64,
  deployment_chain_id_u64,
}
use private_m_of_n_multisig.Circuit.{GuestEnv, main}
use private_m_of_n_multisig.Circuit.Soundness.{read_witness, main-read_witness}
use private_m_of_n_multisig.Verifier.Platform.{AccountWithMetadata, SpelOutput, Platform}
use private_m_of_n_multisig.Verifier.Handlers.{approve}
use private_m_of_n_multisig.Verifier.Storage.{Holds}
use private_m_of_n_multisig.Verifier.Approve.{Matches, approve-Approves}
use private_m_of_n_multisig.Sdk.Builder.{MultisigBuilder, MultisigFinalized, new_builder, finalize}
use private_m_of_n_multisig.Sdk.Builder.Enrollment.{enroll}
use private_m_of_n_multisig.Sdk.Builder.Membership.{verify_proof-enrolled}

some_body : {A : Type 0} {x y : A} → some x ≡ some y → x ≡ y
some_body e = cc

module _ (H : Hasher) where
  -- The inputs of a successful `approve` match the bodies that the accounts hold.
  approve-Matches :
      (P : Platform) (state proposal entry submitter : AccountWithMetadata) (create_key : Bytes)
      (index : ℕ) (seed inputs : Bytes) (out : SpelOutput) (sb : MultisigState) (pb : Proposal)
      → Holds P.states state sb
      → Holds P.proposals proposal pb
      → approve P H state proposal entry submitter create_key index seed inputs ≡ ok out
      → Matches H state sb pb index seed inputs
  approve-Matches P state proposal entry submitter create_key index seed inputs out sb pb hs hp e =
      let x =
        approve-Approves P H state proposal entry submitter create_key index seed inputs out e in
      let s' : x.state_body ≡ sb = some_body (sym x.state_read ∙ hs) in
      let p' : x.proposal_body ≡ pb = some_body (sym x.proposal_read ∙ hp) in
      rw (s', p') at x.inputs_match

  -- Who can approve: `approve` succeeded, its one assumption holds in that the circuit committed
  -- the public inputs on some input stream, and the state account's root is the one that `finalize`
  -- froze after successful `add_member` calls for `cs`. Then the input stream carries an identity
  -- and a Merkle path of the right lengths. The path verifies the identity's commitment against the
  -- state's root, and the identity's secret key gives the nullifier for this proposal's id. And the
  -- commitment stands in `cs` at the position that the path's directions spell, or else that path
  -- and the tree of `cs` hash two different inputs to one digest at some height.
  pub approve-member :
      (P : Platform) (E : GuestEnv) (m : ℕ) (cs : List Bytes) (b : MultisigBuilder)
      (f : MultisigFinalized) (input : Bytes) (state proposal entry submitter : AccountWithMetadata)
      (create_key : Bytes) (index : ℕ) (nullifier_seed inputs : Bytes) (out : SpelOutput)
      (sb : MultisigState) (pb : Proposal)
      → enroll cs (new_builder H m) ≡ ok b
      → finalize H b ≡ ok f
      → Holds P.states state sb
      → Holds P.proposals proposal pb
      → sb.members_root ≡ f.members_root
      → main H E input ≡ ok inputs
      → approve P H state proposal entry submitter create_key index nullifier_seed inputs ≡ ok out
      → (i : Identity) × (q : MerkleProof) × (read_witness E input ≡ ok (i, q))
        × IsIdentity i
        × IsProof q
        × (verify_proof H sb.members_root (commitment H i) q ≡ true)
        × (nullifier_seed
            ≡ Identity.nullifier H i.sk (
                Proof.derive_proposal_id H
                  (from_u64 deployment_chain_id_u64)
                  state.account_id
                  index
                  pb.action_bytes
                  pb.target_program))
        × ((get_elem? cs (position q.indices) ≡ some (commitment H i))
            ⊎ CollidesIn H
                (proof_inputs H (commitment H i) q)
                (slot_inputs H cs (position q.indices)))
  approve-member P E m cs b f input state proposal entry submitter create_key index seed inputs out
        sb pb e1 e2 hs hp same_root ran e =
      let x =
        approve-Matches P state proposal entry submitter create_key index seed inputs out sb pb hs
          hp e in
      let (y, carried) = main-read_witness H E input inputs ran in
      let (_, back) = from_bytes-to_bytes y.inputs y.input_sizes in
      let back' : from_bytes inputs ≡ y.inputs = ap from_bytes y.packed ∙ back in
      let root : y.inputs.members_root ≡ sb.members_root =
        ap (λ (i : ApprovePublicInputs). i.members_root) (sym back') ∙ x.same_root in
      let root' : y.inputs.members_root ≡ f.members_root = root ∙ same_root in
      let id' = ap (λ (i : ApprovePublicInputs). i.proposal_id) (sym back') ∙ x.same_id in
      let seed' = sym x.same_nullifier ∙ ap (λ (i : ApprovePublicInputs). i.nullifier) back' in
      let w = y.witness in
      (
        w.identity,
        w.proof,
        carried,
        w.identity_sizes,
        w.proof_sizes,
        ap (λ r. verify_proof H r (commitment H w.identity) w.proof) (sym root) ∙ w.verifies,
        seed' ∙ y.bound ∙ ap (Identity.nullifier H w.identity.sk) id',
        verify_proof-enrolled H m cs b f (commitment H w.identity) w.proof e1 e2 w.proof_sizes
            (ap (λ r. verify_proof H r (commitment H w.identity) w.proof) (sym root') ∙ w.verifies),
      )
