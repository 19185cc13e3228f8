-- ===== src/Core/Proof/Layout.antt =====
-- private_multisig_core/src/proof.rs: `ApprovePublicInputs`, `ChainId` and `derive_proposal_id`.
use private_m_of_n_multisig.Common.{
  ℕ, ◌≡◌, ◌∙◌, ◌++◌, arith, length, slice, drop, length-append, length-take, length-drop, slice-all,
  slice-prefix, slice-skip, slice-join,
}
use private_m_of_n_multisig.Common.Bytes.{Bytes, zeros, to_le_bytes}
use private_m_of_n_multisig.Crypto.Hash.{Hasher}

abbrev pub approve_public_inputs_len : ℕ
approve_public_inputs_len = 96

pub record ApprovePublicInputs : Type 0 where
  pub members_root : Bytes
  pub proposal_id : Bytes
  pub nullifier : Bytes

-- The lengths that the array types fix.
pub record IsPublicInputs (i : ApprovePublicInputs) : Type 0 where
  pub root_size : length i.members_root ≡ 32
  pub id_size : length i.proposal_id ≡ 32
  pub nullifier_size : length i.nullifier ≡ 32

unfoldable pub to_bytes : ApprovePublicInputs → Bytes
to_bytes i = i.members_root ++ (i.proposal_id ++ i.nullifier)

unfoldable pub from_bytes : Bytes → ApprovePublicInputs
from_bytes bytes = record {
  members_root = slice bytes 0 32;
  proposal_id = slice bytes 32 64;
  nullifier = slice bytes 64 96;
}

abbrev pub deployment_chain_id_u64 : ℕ
deployment_chain_id_u64 = 0xabcd_ef01

-- `ChainId::from_u64`, as its 32 bytes.
unfoldable pub from_u64 : ℕ → Bytes
from_u64 id = to_le_bytes 8 id ++ zeros 24

-- The 136-byte buffer of `derive_proposal_id`, with the two digests put in.
abbrev pub id_input : Bytes → Bytes → ℕ → Bytes → Bytes → Bytes
id_input chain_id state_pda index action_hash target_hash =
    chain_id ++ (state_pda ++ (to_le_bytes 8 index ++ (action_hash ++ target_hash)))

unfoldable pub derive_proposal_id : Hasher → Bytes → Bytes → ℕ → Bytes → Bytes → Bytes
derive_proposal_id H chain_id state_pda index action_bytes target_program =
    let action_hash = H.hash action_bytes in
    let target_hash = H.hash target_program in
    H.hash (id_input chain_id state_pda index action_hash target_hash)

from_bytes-to_bytes_lem : (i : ApprovePublicInputs) → IsPublicInputs i → from_bytes (to_bytes i) ≡ i
unfolding from_bytes to_bytes
from_bytes-to_bytes_lem i w =
    let tail = i.proposal_id ++ i.nullifier in
    let id =
      slice-skip 32 0 32 i.members_root tail w.root_size
      ∙ slice-prefix 32 i.proposal_id i.nullifier w.id_size in
    let last =
      slice-skip 32 32 64 i.members_root tail w.root_size
      ∙ slice-skip 32 0 32 i.proposal_id i.nullifier w.id_size
      ∙ slice-all 32 i.nullifier w.nullifier_size in
    λ k. record {
      members_root = slice-prefix 32 i.members_root tail w.root_size k;
      proposal_id = id k;
      nullifier = last k;
    }

length-to_bytes :
    (i : ApprovePublicInputs) → IsPublicInputs i → length (to_bytes i) ≡ approve_public_inputs_len
unfolding to_bytes
length-to_bytes i w = omega (
  arith,
  w,
  length-append i.members_root (i.proposal_id ++ i.nullifier),
  length-append i.proposal_id i.nullifier,
)

from_bytes-IsPublicInputs :
    (b : Bytes) → length b ≡ approve_public_inputs_len → IsPublicInputs (from_bytes b)
unfolding from_bytes
from_bytes-IsPublicInputs b h = record {
  root_size = omega (arith, length-take 32 (drop 0 b), length-drop 0 b);
  id_size = omega (arith, length-take 32 (drop 32 b), length-drop 32 b);
  nullifier_size = omega (arith, length-take 32 (drop 64 b), length-drop 64 b);
}

-- `to_bytes` packs three 32-byte values into 96 bytes, and `from_bytes` unpacks the same values.
pub from_bytes-to_bytes :
    (i : ApprovePublicInputs)
    → IsPublicInputs i
    → (length (to_bytes i) ≡ approve_public_inputs_len) × (from_bytes (to_bytes i) ≡ i)
from_bytes-to_bytes i w = (length-to_bytes i w, from_bytes-to_bytes_lem i w)

-- Of any 96 bytes `from_bytes` makes three 32-byte values, and `to_bytes` packs them to the same
-- bytes.
pub to_bytes-from_bytes :
    (b : Bytes)
    → length b ≡ approve_public_inputs_len
    → IsPublicInputs (from_bytes b) × (to_bytes (from_bytes b) ≡ b)
unfolding to_bytes from_bytes
to_bytes-from_bytes b h = (from_bytes-IsPublicInputs b h, slice-join 32 32 32 b h)
