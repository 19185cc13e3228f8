-- ===== src/Circuit/Soundness.antt =====
-- What the existence of a journal shows: the circuit commits one only from a valid witness.
use private_m_of_n_multisig.Common.{
  ℕ, zero, suc, ◌+◌, ◌*◌, ◌-◌, ◌≤◌, ◌≡◌, inl, inr, refl, sym, ap, ◌∙◌, Bool, true, List, [], ◌∷◌,
  Result, ok, ◌>>=◌, ok_or, arith, length, length-take, length-drop, drop, slice, Bool-cases,
  >>=-eq-ok, ok_or-eq-ok,
}
use private_m_of_n_multisig.Common.Bytes.{Bytes, All}
use private_m_of_n_multisig.Crypto.Hash.{Hasher, hash_len}
use private_m_of_n_multisig.Crypto.Identity.{Identity, IsIdentity, commitment, nullifier}
use private_m_of_n_multisig.Crypto.Merkle.{MerkleProof, IsProof, verify_proof}
use private_m_of_n_multisig.Core.Proof.{ApprovePublicInputs, IsPublicInputs, to_bytes}
use private_m_of_n_multisig.Circuit.{
  GuestEnv, Panic, end_of_input, read_siblings, read_direction, read_directions, approve_with, main,
}

-- A witness with which the circuit accepts a root and a proposal id.
pub record Witness (H : Hasher) (root id : Bytes) : Type 0 where
  pub identity : Identity
  pub proof : MerkleProof
  pub identity_sizes : IsIdentity identity
  pub proof_sizes : IsProof proof
  pub verifies : verify_proof H root (commitment H identity) proof ≡ true

read_siblings-All :
    (buf : Bytes) (rounds level : ℕ)
    → (level + rounds) * hash_len ≤ length buf
    → All (λ s. length s ≡ hash_len) (read_siblings buf level rounds)
unfolding read_siblings
read_siblings-All buf zero level h = tt
read_siblings-All buf (suc rounds) level h = (
  length-take (level * hash_len + hash_len - level * hash_len) (drop (level * hash_len) buf)
      ∙ omega (arith, length-drop (level * hash_len) buf),
  read_siblings-All buf rounds (level + 1) (omega arith),
)

length-read_siblings :
    (buf : Bytes) (rounds level : ℕ) → length (read_siblings buf level rounds) ≡ rounds
unfolding read_siblings
length-read_siblings buf zero level = refl
length-read_siblings buf (suc rounds) level = ap suc (length-read_siblings buf rounds (level + 1))

length-read_directions :
    (bs : Bytes) (bits : List Bool) → read_directions bs ≡ ok bits → length bits ≡ length bs
unfolding read_directions
length-read_directions [] bits e = ground arith
length-read_directions (b ∷ bs) bits e =
    let (bit, _, e1) = >>=-eq-ok (read_direction b) _ e in
    let (rest, r2, e2) = >>=-eq-ok (read_directions bs) _ e1 in
    ground (arith, length-read_directions bs rest r2)

-- What a journal that the circuit committed carries.
pub record Proved (H : Hasher) (journal : Bytes) : Type 0 where
  pub inputs : ApprovePublicInputs
  pub input_sizes : IsPublicInputs inputs
  pub witness : Witness H inputs.members_root inputs.proposal_id
  pub bound : inputs.nullifier ≡ nullifier H witness.identity.sk inputs.proposal_id
  pub packed : journal ≡ to_bytes inputs

-- The identity and the Merkle path that an input stream carries behind the root and the
-- proposal id.
unfoldable pub read_witness : GuestEnv → Bytes → Result Panic (Identity × MerkleProof)
read_witness E input = do
  (public_buf, s1) ← ok_or (E.read_slice 64 input) end_of_input
  (sk, s2) ← ok_or (E.read_slice 32 s1) end_of_input
  (salt, s3) ← ok_or (E.read_slice 32 s2) end_of_input
  (siblings_buf, s4) ← ok_or (E.read_slice 640 s3) end_of_input
  (direction_buf, s5) ← ok_or (E.read_slice 20 s4) end_of_input
  indices ← read_directions direction_buf
  ok (
    record { sk = sk; salt = salt },
    record { siblings = read_siblings siblings_buf 0 20; indices = indices },
  )

read_witness_lem :
    (E : GuestEnv) (input front sk salt flat dirs s1 s2 s3 s4 s5 : Bytes) (bits : List Bool)
    → ok_or (E.read_slice 64 input) end_of_input ≡ ok (front, s1)
    → ok_or (E.read_slice 32 s1) end_of_input ≡ ok (sk, s2)
    → ok_or (E.read_slice 32 s2) end_of_input ≡ ok (salt, s3)
    → ok_or (E.read_slice 640 s3) end_of_input ≡ ok (flat, s4)
    → ok_or (E.read_slice 20 s4) end_of_input ≡ ok (dirs, s5)
    → read_directions dirs ≡ ok bits
    → read_witness E input
      ≡ ok (
        record { sk = sk; salt = salt },
        record { siblings = read_siblings flat 0 20; indices = bits },
      )
unfolding read_witness
read_witness_lem E input front sk salt flat dirs s1 s2 s3 s4 s5 bits r1 r2 r3 r4 r5 r6 =
    rw (r1, r2, r3, r4, r5, r6) refl

module _ (H : Hasher) where
  length-nullifier : (sk pid : Bytes) → length (nullifier H sk pid) ≡ hash_len
  unfolding nullifier
  length-nullifier sk pid = H.length-hash _

  approve_with-Proved :
      (E : GuestEnv) (root id : Bytes) (i : Identity) (p : MerkleProof) (journal : Bytes)
      → length root ≡ hash_len
      → length id ≡ hash_len
      → IsIdentity i
      → IsProof p
      → approve_with H E root id i p ≡ ok journal
      → (y : Proved H journal) × (◌≡◌ {A = Identity × MerkleProof}
          (y.witness.identity, y.witness.proof)
          (i, p))
  unfolding approve_with
  approve_with-Proved E root id i p journal hr hi wi wp e =
      elim (Bool-cases (verify_proof H root (commitment H i) p)) [
        | inr rejects ↦ absurd (ground arith)
        | inl accepts ↦ (
          record {
            inputs = record {
              members_root = root;
              proposal_id = id;
              nullifier = nullifier H i.sk id;
            };
            input_sizes = record {
              root_size = hr;
              id_size = hi;
              nullifier_size = length-nullifier i.sk id;
            };
            witness = record {
              identity = i;
              proof = p;
              identity_sizes = wi;
              proof_sizes = wp;
              verifies = accepts;
            };
            bound = refl;
            packed = ground arith;
          },
          refl,
        )
      ]

  -- The checks from the five buffers on.
  buffers-Proved :
      (E : GuestEnv) (front sk salt flat dirs : Bytes) (bits : List Bool) (journal : Bytes)
      → length front ≡ 64
      → length sk ≡ 32
      → length salt ≡ 32
      → length flat ≡ 640
      → length dirs ≡ 20
      → read_directions dirs ≡ ok bits
      → approve_with H E
          (slice front 0 32)
          (slice front 32 64)
          (record { sk = sk; salt = salt })
          (record { siblings = read_siblings flat 0 20; indices = bits })
        ≡ ok journal
      → (y : Proved H journal) × (◌≡◌ {A = Identity × MerkleProof}
          (y.witness.identity, y.witness.proof)
          (
            record { sk = sk; salt = salt },
            record { siblings = read_siblings flat 0 20; indices = bits },
          ))
  buffers-Proved E front sk salt flat dirs bits journal hf hk hs hl hd hb =
      approve_with-Proved E _ _ _ _ journal
        (omega (arith, length-take 32 (drop 0 front), length-drop 0 front))
        (omega (arith, length-take 32 (drop 32 front), length-drop 32 front))
        (record { sk_size = hk; salt_size = hs })
        (record {
          sibling_count = length-read_siblings flat 20 0;
          index_count = length-read_directions dirs bits hb ∙ hd;
          sibling_size = read_siblings-All flat 20 0 (omega arith);
        })

  read-length :
      (E : GuestEnv) (n : ℕ) (s xs rest : Bytes)
      → ok_or (E.read_slice n s) end_of_input ≡ ok (xs, rest)
      → length xs ≡ n
  read-length E n s xs rest e = E.read_slice_takes n s xs rest (ok_or-eq-ok _ _ e)

  -- The witness of a journal is the one that the circuit read from its input.
  pub main-read_witness :
      (E : GuestEnv) (input journal : Bytes)
      → main H E input ≡ ok journal
      → (y : Proved H journal) × (read_witness E input ≡ ok (y.witness.identity, y.witness.proof))
  unfolding main
  main-read_witness E input journal e =
      let ((front, s1), r1, e1) = >>=-eq-ok (ok_or (E.read_slice 64 input) end_of_input) _ e in
      let ((sk, s2), r2, e2) = >>=-eq-ok (ok_or (E.read_slice 32 s1) end_of_input) _ e1 in
      let ((salt, s3), r3, e3) = >>=-eq-ok (ok_or (E.read_slice 32 s2) end_of_input) _ e2 in
      let ((flat, s4), r4, e4) = >>=-eq-ok (ok_or (E.read_slice 640 s3) end_of_input) _ e3 in
      let ((dirs, s5), r5, e5) = >>=-eq-ok (ok_or (E.read_slice 20 s4) end_of_input) _ e4 in
      let (bits, r6, e6) = >>=-eq-ok (read_directions dirs) _ e5 in
      let (y, same) =
        buffers-Proved E front sk salt flat dirs bits journal (read-length E 64 input front s1 r1)
          (read-length E 32 s1 sk s2 r2) (read-length E 32 s2 salt s3 r3)
          (read-length E 640 s3 flat s4 r4) (read-length E 20 s4 dirs s5 r5) r6 e6 in
      (
        y,
        read_witness_lem E input front sk salt flat dirs s1 s2 s3 s4 s5 bits r1 r2 r3 r4 r5 r6
            ∙ ap ok (sym same),
      )

  -- Whenever the circuit commits a journal, on whatever input stream, the journal is the packing of
  -- a root, a proposal id and a nullifier for which there is a witness: an identity whose
  -- commitment a 20-level Merkle path verifies against the root, and whose secret key the nullifier
  -- was derived from for that proposal.
  pub main-Proved :
      (E : GuestEnv) (input journal : Bytes) → main H E input ≡ ok journal → Proved H journal
  main-Proved E input journal e = (main-read_witness E input journal e).0
