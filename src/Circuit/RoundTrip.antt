-- ===== src/Circuit/RoundTrip.antt =====
-- The circuit on a stream that `pack_approve_witness` wrote.
use private_m_of_n_multisig.Common.{
  ℕ, suc, ◌+◌, ◌*◌, ◌≡◌, refl, sym, ap, ap₂, ◌∙◌, Bool, true, false, List, [], ◌∷◌, ◌++◌, map,
  append-nil, append_assoc, ok, err, arith, length, length-append, slice-prefix, slice-skip,
  slice-all, slice-middle, if◌then◌else◌, some, Bool-cases, inl, inr,
}
use private_m_of_n_multisig.Common.Bytes.{Bytes, All}
use private_m_of_n_multisig.Crypto.Hash.{Hasher, hash_len}
use private_m_of_n_multisig.Crypto.Identity.{
  Identity, IsIdentity, sk_len, salt_len, commitment, nullifier,
}
use private_m_of_n_multisig.Crypto.Merkle.{MerkleProof, IsProof, verify_proof}
use private_m_of_n_multisig.Core.Proof.{to_bytes}
use private_m_of_n_multisig.Circuit.{
  GuestEnv, path_does_not_verify, read_siblings, read_direction, read_directions, approve_with,
  main, approve_witness_len, bit_byte, flatten_siblings, pack_approve_witness,
}

read_siblings-flatten :
    (ss : List Bytes) (pre : Bytes) (level : ℕ)
    → length pre ≡ level * hash_len
    → All (λ s. length s ≡ hash_len) ss
    → read_siblings (pre ++ flatten_siblings ss) level (length ss) ≡ ss
unfolding read_siblings
read_siblings-flatten [] pre level h w = refl
read_siblings-flatten (s ∷ ss) pre level h w =
    ap₂ (λ x (xs : List Bytes). x ∷ xs)
      (slice-middle (level * hash_len) hash_len pre s (flatten_siblings ss) h w.0)
      (ap (λ b. read_siblings b (level + 1) (length ss))
          (sym (append_assoc pre s (flatten_siblings ss)))
        ∙ read_siblings-flatten ss (pre ++ s) (level + 1) (omega (arith, length-append pre s, w.0))
            w.1)

read_directions-map : (bits : List Bool) → read_directions (map bit_byte bits) ≡ ok bits
unfolding read_directions read_direction
read_directions-map [] = refl
read_directions-map (true ∷ bits) = rw (read_directions-map bits)
read_directions-map (false ∷ bits) = rw (read_directions-map bits)

length-flatten :
    (ss : List Bytes)
    → All (λ s. length s ≡ hash_len) ss
    → length (flatten_siblings ss) ≡ length ss * hash_len
length-flatten [] w = refl
length-flatten (s ∷ ss) w =
    omega (arith, length-append s (flatten_siblings ss), length-flatten ss w.1, w.0)

length-bits : (bits : List Bool) → length (map bit_byte bits) ≡ length bits
length-bits [] = refl
length-bits (b ∷ bits) = ap suc (length-bits bits)

module _ (H : Hasher) (E : GuestEnv) where
  main-pack :
      (i : Identity) (p : MerkleProof) (root id : Bytes)
      → IsIdentity i
      → IsProof p
      → length root ≡ hash_len
      → length id ≡ hash_len
      → main H E (pack_approve_witness i p root id) ≡ approve_with H E root id i p
  unfolding main pack_approve_witness
  main-pack i p root id wi wp hr hi =
      let bits = map bit_byte p.indices in
      let flat = flatten_siblings p.siblings in
      let front : length (root ++ id) ≡ 64 = omega (arith, length-append root id, hr, hi) in
      let flat_size : length flat ≡ 640 =
        omega (arith, length-flatten p.siblings wp.sibling_size, wp.sibling_count) in
      let bit_count : length bits ≡ 20 = omega (arith, length-bits p.indices, wp.index_count) in
      let last : E.read_slice 20 bits ≡ some (bits, []) =
        ap (E.read_slice 20) (sym (append-nil bits)) ∙ E.read_slice_fills 20 bits [] bit_count in
      let siblings : read_siblings flat 0 20 ≡ p.siblings =
        ap (read_siblings flat 0) (sym wp.sibling_count)
        ∙ read_siblings-flatten p.siblings [] 0 refl wp.sibling_size in
      rw
        (
          ← append_assoc root id (i.sk ++ (i.salt ++ (flat ++ bits))),
          E.read_slice_fills 64 (root ++ id) (i.sk ++ (i.salt ++ (flat ++ bits))) front,
          E.read_slice_fills sk_len i.sk (i.salt ++ (flat ++ bits)) wi.sk_size,
          E.read_slice_fills salt_len i.salt (flat ++ bits) wi.salt_size,
          E.read_slice_fills 640 flat bits flat_size,
          last,
          read_directions-map p.indices,
          slice-prefix 32 root id hr,
          slice-skip 32 0 32 root id hr ∙ slice-all 32 id hi,
          siblings,
        )
        refl

  -- The circuit, fed a well-formed witness that `pack_approve_witness` packed, commits exactly the
  -- packed public inputs, with the root and proposal id of the witness and the nullifier of its
  -- secret key, if the Merkle path verifies for the identity's commitment; if not, it panics.
  pub main-pack_approve_witness :
      (i : Identity) (p : MerkleProof) (root id : Bytes)
      → IsIdentity i
      → IsProof p
      → length root ≡ hash_len
      → length id ≡ hash_len
      → main H E (pack_approve_witness i p root id) ≡ (
          if verify_proof H root (commitment H i) p
          then ok (
              to_bytes
                (record { members_root = root; proposal_id = id; nullifier = nullifier H i.sk id }))
          else err path_does_not_verify)
  unfolding approve_with
  main-pack_approve_witness i p root id wi wp hr hi =
      main-pack i p root id wi wp hr hi
      ∙ elim (Bool-cases (verify_proof H root (commitment H i) p)) [
        | inl accepts ↦ rw accepts
        | inr rejects ↦ rw rejects
      ]

-- A packed witness has the 788 bytes of `APPROVE_WITNESS_LEN`.
pub length-pack_approve_witness :
    (i : Identity) (p : MerkleProof) (root id : Bytes)
    → IsIdentity i
    → IsProof p
    → length root ≡ hash_len
    → length id ≡ hash_len
    → length (pack_approve_witness i p root id) ≡ approve_witness_len
unfolding pack_approve_witness
length-pack_approve_witness i p root id wi wp hr hi =
    let flat = flatten_siblings p.siblings in
    let bits = map bit_byte p.indices in
    omega (
      arith,
      hr,
      hi,
      wi,
      wp,
      length-append root (id ++ (i.sk ++ (i.salt ++ (flat ++ bits)))),
      length-append id (i.sk ++ (i.salt ++ (flat ++ bits))),
      length-append i.sk (i.salt ++ (flat ++ bits)),
      length-append i.salt (flat ++ bits),
      length-append flat bits,
      length-flatten p.siblings wp.sibling_size,
      length-bits p.indices,
    )
