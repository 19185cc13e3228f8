-- ===== src/Sdk/Prover/EndToEnd.antt =====
-- The parts together: the prover's stream through the circuit to the verifier's `approve`
-- (sdk/src/prover.rs, methods/guest/src/bin/approve_circuit.rs and private_multisig.rs).
use private_m_of_n_multisig.Common.{
  ℕ, ◌+◌, ◌^◌, ◌<◌, ◌≤◌, false, ltb, leb, ◌≡◌, refl, sym, ap, ◌∙◌, true, none, [], ◌∷◌,
  append_assoc, ok, length, arith,
}
use private_m_of_n_multisig.Common.Bytes.{Bytes}
use private_m_of_n_multisig.Crypto.Hash.{Hasher, hash_len}
use private_m_of_n_multisig.Crypto.Identity as Identity
use private_m_of_n_multisig.Crypto.Identity.{Identity, IsIdentity, commitment}
use private_m_of_n_multisig.Crypto.Merkle.{MerkleProof, IsProof, verify_proof}
use private_m_of_n_multisig.Core.State.{MultisigState, Proposal, max_action_bytes_len}
use private_m_of_n_multisig.Core.Proof as Proof
use private_m_of_n_multisig.Core.Proof.{
  ApprovePublicInputs, IsPublicInputs, to_bytes, from_bytes, from_bytes-to_bytes, from_u64,
  deployment_chain_id_u64,
}
use private_m_of_n_multisig.Circuit.{GuestEnv, main, pack_approve_witness}
use private_m_of_n_multisig.Circuit.RoundTrip.{main-pack_approve_witness}
use private_m_of_n_multisig.Verifier.Platform.{AccountWithMetadata, SpelOutput, Platform}
use private_m_of_n_multisig.Verifier.Handlers.{approve_circuit_image_id, approve}
use private_m_of_n_multisig.Verifier.Storage.{Holds, IsStorable}
use private_m_of_n_multisig.Verifier.Approve.{Matches, approve-Approves, approve_accepts}
use private_m_of_n_multisig.Sdk.Builder.{MultisigStateSnapshot, derive_proposal_id}
use private_m_of_n_multisig.Sdk.Prover.{
  ApprovalProver, member_commitment, new, compute_nullifier, proposal_id, public_inputs,
  public_inputs_bytes, nullifier, guest_stream,
}

module _ (H : Hasher) where
  -- What `ApprovalProver::new` has checked and stored.
  abbrev pub prepared :
      Identity → MultisigStateSnapshot → ℕ → Bytes → Bytes → MerkleProof → ApprovalProver
  prepared member snap index action target proof = record {
    sk = member.sk;
    salt = member.salt;
    snapshot = snap;
    siblings_flat = proof.siblings;
    directions_flat = proof.indices;
    index = index;
    action_bytes = action;
    target_program = target;
    receipt = none;
  }

  new-eq :
      (member : Identity) (snap : MultisigStateSnapshot) (index : ℕ) (action target : Bytes)
      (proof : MerkleProof) (p : ApprovalProver)
      → new H member snap index action target proof ≡ ok p
      → (verify_proof H snap.members_root (commitment H member) proof ≡ true)
        × (p ≡ prepared member snap index action target proof)
  unfolding new member_commitment
  new-eq member snap index action target proof p e = (ground arith, ground arith)

  -- `ApprovalProver::new` accepts an action that fits, an index below the count and a proof that
  -- verifies.
  pub new_accepts :
      (member : Identity) (snap : MultisigStateSnapshot) (index : ℕ) (action target : Bytes)
      (proof : MerkleProof)
      → length action ≤ max_action_bytes_len
      → index < snap.proposal_count
      → verify_proof H snap.members_root (commitment H member) proof ≡ true
      → new H member snap index action target proof
        ≡ ok (prepared member snap index action target proof)
  unfolding new member_commitment
  new_accepts member snap index action target proof fits below accepts =
      let e1 : ltb max_action_bytes_len (length action) ≡ false = ground arith in
      let e2 : leb snap.proposal_count index ≡ false = ground arith in rw (e1, e2, accepts) refl

  length-id :
      (s : MultisigStateSnapshot) (index : ℕ) (action target : Bytes)
      → length (derive_proposal_id H s index action target) ≡ hash_len
  unfolding derive_proposal_id Proof.derive_proposal_id
  length-id s index action target = H.length-hash _

  length-nullifier : (sk id : Bytes) → length (Identity.nullifier H sk id) ≡ hash_len
  unfolding Identity.nullifier
  length-nullifier sk id = H.length-hash _

  guest_stream-pack :
      (E : GuestEnv) (member : Identity) (snap : MultisigStateSnapshot) (index : ℕ)
      (action target : Bytes) (proof : MerkleProof) (id : Bytes)
      → guest_stream (prepared member snap index action target proof) id
        ≡ pack_approve_witness member proof snap.members_root id
  unfolding guest_stream pack_approve_witness
  guest_stream-pack E member snap index action target proof id = append_assoc snap.members_root id _

  journal_of_prepared :
      (E : GuestEnv) (member : Identity) (snap : MultisigStateSnapshot) (index : ℕ)
      (action target : Bytes) (proof : MerkleProof)
      → IsIdentity member
      → IsProof proof
      → length snap.members_root ≡ hash_len
      → verify_proof H snap.members_root (commitment H member) proof ≡ true
      → let q = prepared member snap index action target proof in
        main H E (guest_stream q (proposal_id H q)) ≡ ok (public_inputs_bytes H q)
  unfolding public_inputs_bytes public_inputs compute_nullifier
  journal_of_prepared E member snap index action target proof wi wp hr accepts =
      let id = derive_proposal_id H snap index action target in
      let runs =
        main-pack_approve_witness H E member proof snap.members_root id wi wp hr
          (length-id snap index action target) in
      ap (main H E) (guest_stream-pack E member snap index action target proof id)
      ∙ (rw accepts at runs)
      ∙ refl

  -- If `ApprovalProver::new` accepts a member's data, the circuit accepts the stream that the prover
  -- writes, and commits exactly the bytes of `public_inputs_bytes`: proving never fails in the
  -- circuit.
  pub main-guest_stream :
      (E : GuestEnv) (member : Identity) (snap : MultisigStateSnapshot) (index : ℕ)
      (action target : Bytes) (proof : MerkleProof) (p : ApprovalProver)
      → IsIdentity member
      → IsProof proof
      → length snap.members_root ≡ hash_len
      → new H member snap index action target proof ≡ ok p
      → main H E (guest_stream p (proposal_id H p)) ≡ ok (public_inputs_bytes H p)
  main-guest_stream E member snap index action target proof p wi wp hr e =
      let (accepts, same) = new-eq member snap index action target proof p e in
      rw same (journal_of_prepared E member snap index action target proof wi wp hr accepts)

  -- The verifier finds in the prover's public inputs what it looks for.
  pub public_inputs_bytes-Matches :
      (p : ApprovalProver) (state : AccountWithMetadata) (sb : MultisigState) (pb : Proposal)
      → length p.snapshot.members_root ≡ hash_len
      → state.account_id ≡ p.snapshot.state_pda
      → sb.members_root ≡ p.snapshot.members_root
      → pb.action_bytes ≡ p.action_bytes
      → pb.target_program ≡ p.target_program
      → Matches H state sb pb p.index (nullifier H p) (public_inputs_bytes H p)
  unfolding public_inputs_bytes public_inputs compute_nullifier nullifier derive_proposal_id
  public_inputs_bytes-Matches p state sb pb hr at same_root same_action same_target =
      let inputs = public_inputs H p in
      let (size, back) = from_bytes-to_bytes inputs (record {
        root_size = hr;
        id_size = length-id p.snapshot p.index p.action_bytes p.target_program;
        nullifier_size = length-nullifier p.sk (proposal_id H p);
      }) in
      record {
        size = size;
        same_root = ap (λ (i : ApprovePublicInputs). i.members_root) back ∙ sym same_root;
        same_id =
            ap (λ (i : ApprovePublicInputs). i.proposal_id) back
            ∙ rw (at, same_action, same_target) refl;
        same_nullifier = ap (λ (i : ApprovePublicInputs). i.nullifier) back;
      }

  -- From end to end: `ApprovalProver::new` accepted a member's data, all of the sizes that the
  -- types fix, for an index, action and target that the proposal account holds, against the root
  -- that the state account holds and the address it has; one more approval fits in 32 bits and the
  -- new proposal body can be stored. Then the circuit commits the prover's public inputs, and
  -- `approve`, given them and the prover's nullifier, succeeds and assumes exactly that journal.
  pub approve-prover :
      (P : Platform) (E : GuestEnv) (member : Identity) (snap : MultisigStateSnapshot) (index : ℕ)
      (action target : Bytes) (proof : MerkleProof) (p : ApprovalProver)
      (state proposal entry submitter : AccountWithMetadata) (create_key : Bytes)
      (sb : MultisigState) (pb : Proposal)
      → IsIdentity member
      → IsProof proof
      → length snap.members_root ≡ hash_len
      → new H member snap index action target proof ≡ ok p
      → Holds P.states state sb
      → Holds P.proposals proposal pb
      → state.account_id ≡ snap.state_pda
      → sb.members_root ≡ snap.members_root
      → pb.action_bytes ≡ action
      → pb.target_program ≡ target
      → pb.approvals_count + 1 < 2 ^ 32
      → IsStorable P P.proposals (record pb { approvals_count = pb.approvals_count + 1 })
      → (main H E (guest_stream p (proposal_id H p)) ≡ ok (public_inputs_bytes H p))
        × ((out : SpelOutput) × (approve P H state proposal entry submitter create_key index
                (nullifier H p)
                (public_inputs_bytes H p)
              ≡ ok out)
            × (out.assumptions ≡ (approve_circuit_image_id, public_inputs_bytes H p) ∷ []))
  approve-prover P E member snap index action target proof p state proposal entry submitter
        create_key sb pb wi wp hr e hs hp at same_root same_action same_target room stores =
      let (_, same) = new-eq member snap index action target proof p e in
      let q = prepared member snap index action target proof in
      let w = public_inputs_bytes-Matches q state sb pb hr at same_root same_action same_target in
      let w' : Matches H state sb pb index (nullifier H p) (public_inputs_bytes H p) = rw same w in
      let (out, accepted) =
        approve_accepts P H state proposal entry submitter create_key index (nullifier H p)
          (public_inputs_bytes H p) sb pb hs hp w' room stores in
      let x =
        approve-Approves P H state proposal entry submitter create_key index _ _ out accepted in
      (
        main-guest_stream E member snap index action target proof p wi wp hr e,
        (out, accepted, ap (λ (o : SpelOutput). o.assumptions) x.written),
      )
