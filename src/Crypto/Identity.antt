-- ===== src/Crypto/Identity.antt =====
-- crypto/src/identity.rs and crypto/src/nullifier.rs: identities, their commitments, nullifiers.
pub mod Binding
use private_m_of_n_multisig.Common.{ℕ, ◌≡◌, ◌++◌, length}
use private_m_of_n_multisig.Common.Bytes.{Bytes}
use private_m_of_n_multisig.Crypto.Hash.{Hasher}

abbrev pub sk_len : ℕ
sk_len = 32

abbrev pub salt_len : ℕ
salt_len = 32

pub record Identity : Type 0 where
  pub sk : Bytes
  pub salt : Bytes

-- The lengths that Rust's array types fix.
pub record IsIdentity (i : Identity) : Type 0 where
  pub sk_size : length i.sk ≡ sk_len
  pub salt_size : length i.salt ≡ salt_len

module _ (H : Hasher) where
  -- `Identity::commitment`, as the bytes of the `IdentityCommitment`.
  unfoldable pub commitment : Identity → Bytes
  commitment i = H.hash (i.sk ++ i.salt)

  -- The free function `nullifier`.
  unfoldable pub nullifier : Bytes → Bytes → Bytes
  nullifier sk proposal_id = H.hash (sk ++ proposal_id)

  -- The method `Identity::nullifier`.
  unfoldable pub identity_nullifier : Identity → Bytes → Bytes
  identity_nullifier i proposal_id = nullifier i.sk proposal_id
