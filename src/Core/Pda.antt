-- ===== src/Core/Pda.antt =====
-- private_multisig_core/src/pda.rs: the seeds and the derivation of account addresses.
-- `derive_pda` asserts that there is a seed, so it takes the first one apart from the rest.
-- `pad_seed_32` asserts at most 32 bytes; its callers give 13 and 8.
pub mod Separation
use private_m_of_n_multisig.Common.{ℕ, ◌-◌, ◌≡◌, List, [], ◌∷◌, ◌++◌, length}
use private_m_of_n_multisig.Common.Bytes.{Bytes, zeros, to_le_bytes}
use private_m_of_n_multisig.Crypto.Hash.{Hasher}

-- b"/NSSA/v0.2/AccountId/PDA/" and seven zero bytes.
abbrev pub nssa_public_pda_prefix : Bytes
nssa_public_pda_prefix =
    b'/'
    ∷ b'N'
    ∷ b'S'
    ∷ b'S'
    ∷ b'A'
    ∷ b'/'
    ∷ b'v'
    ∷ b'0'
    ∷ b'.'
    ∷ b'2'
    ∷ b'/'
    ∷ b'A'
    ∷ b'c'
    ∷ b'c'
    ∷ b'o'
    ∷ b'u'
    ∷ b'n'
    ∷ b't'
    ∷ b'I'
    ∷ b'd'
    ∷ b'/'
    ∷ b'P'
    ∷ b'D'
    ∷ b'A'
    ∷ b'/'
    ∷ zeros 7

abbrev seed : Bytes → Bytes
seed name = b'p' ∷ b'm' ∷ b's' ∷ b'i' ∷ b'g' ∷ b'_' ∷ name

-- b"pmsig_state__", b"pmsig_prop___", b"pmsig_vault__" and b"pmsig_nulli__".
abbrev pub seed_multisig_state : Bytes
seed_multisig_state = seed (b's' ∷ b't' ∷ b'a' ∷ b't' ∷ b'e' ∷ b'_' ∷ b'_' ∷ [])

abbrev pub seed_proposal : Bytes
seed_proposal = seed (b'p' ∷ b'r' ∷ b'o' ∷ b'p' ∷ b'_' ∷ b'_' ∷ b'_' ∷ [])

abbrev pub seed_vault : Bytes
seed_vault = seed (b'v' ∷ b'a' ∷ b'u' ∷ b'l' ∷ b't' ∷ b'_' ∷ b'_' ∷ [])

abbrev pub seed_nullifier : Bytes
seed_nullifier = seed (b'n' ∷ b'u' ∷ b'l' ∷ b'l' ∷ b'i' ∷ b'_' ∷ b'_' ∷ [])

abbrev pub pad_seed_32 : Bytes → Bytes
pad_seed_32 input = input ++ zeros (32 - length input)

-- `buf.extend_from_slice` for each seed.
abbrev pub concat_seeds : List Bytes → Bytes
concat_seeds [] = []
concat_seeds (s ∷ ss) = s ++ concat_seeds ss

-- What the address is the digest of.
abbrev pub pda_input : Bytes → Bytes → Bytes
pda_input program_id combined = nssa_public_pda_prefix ++ (program_id ++ combined)

module _ (H : Hasher) where
  -- One seed passes through; several are hashed together.
  abbrev pub combine : Bytes → List Bytes → Bytes
  combine first [] = first
  combine first (s ∷ ss) = H.hash (concat_seeds (first ∷ s ∷ ss))

  unfoldable pub derive_pda : Bytes → Bytes → List Bytes → Bytes
  derive_pda program_id first rest = H.hash (pda_input program_id (combine first rest))

  unfoldable pub derive_multisig_state_pda : Bytes → Bytes → Bytes
  derive_multisig_state_pda program_id create_key =
      derive_pda program_id (pad_seed_32 seed_multisig_state) (create_key ∷ [])

  unfoldable pub derive_proposal_pda : Bytes → Bytes → ℕ → Bytes
  derive_proposal_pda program_id create_key index =
      let index_seed = pad_seed_32 (to_le_bytes 8 index) in
      derive_pda program_id (pad_seed_32 seed_proposal) (create_key ∷ index_seed ∷ [])

  unfoldable pub derive_vault_pda : Bytes → Bytes → Bytes
  derive_vault_pda program_id create_key =
      derive_pda program_id (pad_seed_32 seed_vault) (create_key ∷ [])

  unfoldable pub derive_nullifier_entry_pda : Bytes → Bytes → Bytes → Bytes
  derive_nullifier_entry_pda program_id proposal_pda nullifier =
      derive_pda program_id (pad_seed_32 seed_nullifier) (proposal_pda ∷ nullifier ∷ [])
