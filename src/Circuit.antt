-- ===== src/Circuit.antt =====
-- methods/guest/src/bin/approve_circuit.rs: the approval circuit, and the packing of its witness in
-- private_multisig_program/src/lib.rs.
-- `env::read_slice` belongs to risc0: it is a field of `GuestEnv`, with what the guest relies on.
-- The guest's journal is the result; a panic is an error, and no receipt exists for it.
pub mod RoundTrip
pub mod Soundness
use private_m_of_n_multisig.Common.{
  ℕ, zero, suc, ◌+◌, ◌*◌, ◌≡◌, Bool, true, false, not, Option, some, List, [], ◌∷◌, ◌++◌, map,
  Result, ok, err, ◌>>=◌, ◌>>◌, fail_if, ok_or, length, slice, ◌==◌, if◌then◌else◌,
}
use private_m_of_n_multisig.Common.Bytes.{Bytes}
use private_m_of_n_multisig.Crypto.Hash.{Hasher, hash_len}
use private_m_of_n_multisig.Crypto.Identity.{Identity, sk_len, salt_len, commitment, nullifier}
use private_m_of_n_multisig.Crypto.Merkle.{MerkleProof, merkle_depth, verify_proof}
use private_m_of_n_multisig.Core.Proof.{ApprovePublicInputs, to_bytes}

-- `read_slice n s` fills a buffer of n bytes from the stream `s`.
pub record GuestEnv : Type 0 where
  pub read_slice : ℕ → Bytes → Option (Bytes × Bytes)
  pub read_slice_fills :
      (n : ℕ) (xs rest : Bytes) → length xs ≡ n → read_slice n (xs ++ rest) ≡ some (xs, rest)
  pub read_slice_takes :
      (n : ℕ) (s xs rest : Bytes) → read_slice n s ≡ some (xs, rest) → length xs ≡ n

pub data Panic : Type 0 where
  end_of_input invalid_direction_byte path_does_not_verify : Panic

-- The loop that fills `siblings` from `siblings_buf`.
unfoldable pub read_siblings : Bytes → ℕ → ℕ → List Bytes
read_siblings buf level zero = []
read_siblings buf level (suc rounds) =
    slice buf (level * hash_len) (level * hash_len + hash_len)
    ∷ read_siblings buf (level + 1) rounds

-- The match on one direction byte, and the loop over the buffer.
unfoldable pub read_direction : ℕ → Result Panic Bool
read_direction b =
    if b == 0 then ok false else if b == 1 then ok true else err invalid_direction_byte

unfoldable pub read_directions : Bytes → Result Panic (List Bool)
read_directions [] = ok []
read_directions (b ∷ bs) = do bit ← read_direction b; bits ← read_directions bs; ok (bit ∷ bits)

module _ (H : Hasher) (E : GuestEnv) where
  abbrev read : ℕ → Bytes → Result Panic (Bytes × Bytes)
  read n s = ok_or (E.read_slice n s) end_of_input

  -- From `Recompute leaf` on: the witness is in, and the journal is committed.
  unfoldable pub approve_with : Bytes → Bytes → Identity → MerkleProof → Result Panic Bytes
  approve_with members_root proposal_id identity proof = do
    fail_if (not (verify_proof H members_root (commitment H identity) proof)) path_does_not_verify
    ok (
        to_bytes (record {
          members_root = members_root;
          proposal_id = proposal_id;
          nullifier = nullifier H identity.sk proposal_id;
        }))

  unfoldable pub main : Bytes → Result Panic Bytes
  unfolding approve_with
  main input = do
    (public_buf, s1) ← read 64 input
    (sk, s2) ← read sk_len s1
    (salt, s3) ← read salt_len s2
    (siblings_buf, s4) ← read (merkle_depth * hash_len) s3
    (direction_buf, s5) ← read merkle_depth s4
    indices ← read_directions direction_buf
    approve_with (slice public_buf 0 32) (slice public_buf 32 64) (record { sk = sk; salt = salt })
        (record { siblings = read_siblings siblings_buf 0 merkle_depth; indices = indices })

-- private_multisig_program/src/lib.rs.
abbrev pub approve_witness_len : ℕ
approve_witness_len = 788

-- `u8::from(bit)`
abbrev pub bit_byte : Bool → ℕ
bit_byte true = 1
bit_byte false = 0

abbrev pub flatten_siblings : List Bytes → Bytes
flatten_siblings [] = []
flatten_siblings (s ∷ ss) = s ++ flatten_siblings ss

unfoldable pub pack_approve_witness : Identity → MerkleProof → Bytes → Bytes → Bytes
pack_approve_witness identity proof members_root proposal_id =
    members_root
    ++ (proposal_id
        ++ (identity.sk
            ++ (identity.salt ++ (flatten_siblings proof.siblings ++ map bit_byte proof.indices))))
