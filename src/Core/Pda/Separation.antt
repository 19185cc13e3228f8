-- ===== src/Core/Pda/Separation.antt =====
-- private_multisig_core/src/pda.rs: different accounts have different addresses.
-- An account is named by its class and the values its seeds are made of.
use private_m_of_n_multisig.Common.{
  ℕ, ◌^◌, ◌<◌, ◌≡◌, ◌⊎◌, inl, inr, refl, sym, ap, ◌∙◌, List, [], ◌∷◌, ◌++◌, arith, length, ◌-◌, ap₂,
  get_or, length-append, length-replicate, append-injective,
}
use private_m_of_n_multisig.Common.Bytes.{
  Bytes, zeros, to_le_bytes, length-to_le_bytes, to_le_bytes-injective,
}
use private_m_of_n_multisig.Crypto.Hash.{Hasher, CollidesIn, input-cases}
use private_m_of_n_multisig.Core.Pda.{
  seed_multisig_state, seed_proposal, seed_vault, seed_nullifier, nssa_public_pda_prefix,
  pad_seed_32, concat_seeds, pda_input, derive_pda, derive_multisig_state_pda, derive_proposal_pda,
  derive_vault_pda, derive_nullifier_entry_pda,
}

pub data Account : Type 0 where
  -- create_key
  state_of : Bytes → Account
  -- create_key, index
  proposal_of : Bytes → ℕ → Account
  -- create_key
  vault_of : Bytes → Account
  -- proposal address, nullifier
  nullifier_of : Bytes → Bytes → Account

-- The sizes that Rust's types fix.
abbrev pub IsAccount : Account → Type 0
IsAccount (state_of k) = length k ≡ 32
IsAccount (proposal_of k i) = (length k ≡ 32) × (i < 2 ^ 64)
IsAccount (vault_of k) = length k ≡ 32
IsAccount (nullifier_of p n) = (length p ≡ 32) × (length n ≡ 32)

-- The seeds of each class, concatenated.
abbrev pub seeds_of : Account → Bytes
seeds_of (state_of k) = concat_seeds (pad_seed_32 seed_multisig_state ∷ k ∷ [])
seeds_of (proposal_of k i) =
    concat_seeds (pad_seed_32 seed_proposal ∷ k ∷ pad_seed_32 (to_le_bytes 8 i) ∷ [])
seeds_of (vault_of k) = concat_seeds (pad_seed_32 seed_vault ∷ k ∷ [])
seeds_of (nullifier_of p n) = concat_seeds (pad_seed_32 seed_nullifier ∷ p ∷ n ∷ [])

parts :
    (lit a b c d : Bytes)
    → length a ≡ length c
    → lit ++ (a ++ b) ≡ lit ++ (c ++ d)
    → (a ≡ c) × (b ≡ d)
parts lit a b c d h e = append-injective a b c d h (append-injective lit _ lit _ refl e).1

-- The seventh byte of the literal tells the classes apart.
tag_of : (x y : Bytes) → x ≡ y → get_or x 6 0 ≡ get_or y 6 0
tag_of x y e = ap (λ l. get_or l 6 0) e

padded :
    (i j : ℕ)
    → i < 2 ^ 64
    → j < 2 ^ 64
    → pad_seed_32 (to_le_bytes 8 i) ≡ pad_seed_32 (to_le_bytes 8 j)
    → i ≡ j
padded i j hi hj e =
    to_le_bytes-injective 8 i j hi hj
      (append-injective (to_le_bytes 8 i) _ (to_le_bytes 8 j) _
        (length-to_le_bytes 8 i ∙ sym (length-to_le_bytes 8 j)) e).0

length-padded : (i : ℕ) → length (pad_seed_32 (to_le_bytes 8 i)) ≡ 32
length-padded i = omega (
  arith,
  length-append (to_le_bytes 8 i) (zeros (32 - length (to_le_bytes 8 i))),
  length-replicate {A = ℕ} (32 - length (to_le_bytes 8 i)) 0,
  length-to_le_bytes 8 i,
)

seeds-injective : (a b : Account) → IsAccount a → IsAccount b → seeds_of a ≡ seeds_of b → a ≡ b
seeds-injective (state_of k) (state_of k') ha hb e =
    ap state_of (parts (pad_seed_32 seed_multisig_state) k [] k' [] (ha ∙ sym hb) e).0
seeds-injective (proposal_of k i) (proposal_of k' i') ha hb e =
    let (key, index) = parts (pad_seed_32 seed_proposal) k _ k' _ (ha.0 ∙ sym hb.0) e in
    let index' =
      append-injective (pad_seed_32 (to_le_bytes 8 i)) [] (pad_seed_32 (to_le_bytes 8 i')) []
        (length-padded i ∙ sym (length-padded i')) index in
    ap₂ proposal_of key (padded i i' ha.1 hb.1 index'.0)
seeds-injective (vault_of k) (vault_of k') ha hb e =
    ap vault_of (parts (pad_seed_32 seed_vault) k [] k' [] (ha ∙ sym hb) e).0
seeds-injective (nullifier_of p n) (nullifier_of p' n') ha hb e =
    let (pda, rest) = parts (pad_seed_32 seed_nullifier) p _ p' _ (ha.0 ∙ sym hb.0) e in
    ap₂ nullifier_of pda (append-injective n [] n' [] (ha.1 ∙ sym hb.1) rest).0
seeds-injective a b ha hb e = absurd (omega (arith, tag_of (seeds_of a) (seeds_of b) e))

-- The address that the code derives for an account.
module _ (H : Hasher) (program_id : Bytes) where
  abbrev pub address : Account → Bytes
  address (state_of k) = derive_multisig_state_pda H program_id k
  address (proposal_of k i) = derive_proposal_pda H program_id k i
  address (vault_of k) = derive_vault_pda H program_id k
  address (nullifier_of p n) = derive_nullifier_entry_pda H program_id p n

  -- All that the derivation hashes.
  abbrev pub address_inputs : Account → List Bytes
  address_inputs a = pda_input program_id (H.hash (seeds_of a)) ∷ seeds_of a ∷ []

  address-hash : (a : Account) → address a ≡ H.hash (pda_input program_id (H.hash (seeds_of a)))
  unfolding derive_multisig_state_pda derive_proposal_pda derive_vault_pda
      derive_nullifier_entry_pda derive_pda
  address-hash (state_of k) = refl
  address-hash _ = refl

-- Two accounts of one program, with keys, proposal addresses and nullifiers of 32 bytes and u64
-- indexes, that are given one address are the same account: the same class with the same key,
-- index, proposal and nullifier. Or two corresponding inputs of the derivation's hashes differ and
-- have one digest.
pub address-binding :
    (H : Hasher) (program_id : Bytes) (a b : Account)
    → IsAccount a
    → IsAccount b
    → address H program_id a ≡ address H program_id b
    → (a ≡ b) ⊎ CollidesIn H (address_inputs H program_id a) (address_inputs H program_id b)
address-binding H program_id a b ha hb e =
    elim (input-cases H _ _ (sym (address-hash H program_id a) ∙ e ∙ address-hash H program_id b)) [
      | inr outer ↦ inr (inl outer)
      | inl same ↦
          elim (input-cases H _ _
            (append-injective program_id _ program_id _ refl
              (append-injective nssa_public_pda_prefix _ nssa_public_pda_prefix _ refl same).1).1) [
                | inr inner ↦ inr (inr (inl inner))
                | inl seeds ↦ inl (seeds-injective a b ha hb seeds)
              ]
    ]
