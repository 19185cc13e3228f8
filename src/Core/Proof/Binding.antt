-- ===== src/Core/Proof/Binding.antt =====
-- private_multisig_core/src/proof.rs: what a proposal id and a chain id determine.
use private_m_of_n_multisig.Common.{
  ℕ, ◌^◌, ◌<◌, ◌≡◌, ◌⊎◌, inl, inr, sym, ap, ◌∙◌, List, [], ◌∷◌, length, append-injective,
}
use private_m_of_n_multisig.Common.Bytes.{
  Bytes, zeros, to_le_bytes, length-to_le_bytes, to_le_bytes-injective,
}
use private_m_of_n_multisig.Crypto.Hash.{Hasher, CollidesIn, input-cases}
use private_m_of_n_multisig.Core.Proof.Layout.{from_u64, id_input, derive_proposal_id}

-- What a proposal id is derived from, with the sizes that Rust's types fix.
pub record IdArgs : Type 0 where
  pub chain_id : Bytes
  pub state_pda : Bytes
  pub index : ℕ
  pub action_bytes : Bytes
  pub target_program : Bytes

pub record IsIdArgs (a : IdArgs) : Type 0 where
  pub chain_size : length a.chain_id ≡ 32
  pub pda_size : length a.state_pda ≡ 32
  pub index_fits : a.index < 2 ^ 64

module _ (H : Hasher) where
  abbrev pub id_of : IdArgs → Bytes
  id_of a = derive_proposal_id H a.chain_id a.state_pda a.index a.action_bytes a.target_program

  -- All that `derive_proposal_id` hashes.
  abbrev pub id_inputs : IdArgs → List Bytes
  id_inputs a =
      id_input a.chain_id a.state_pda a.index (H.hash a.action_bytes) (H.hash a.target_program)
      ∷ a.action_bytes
      ∷ a.target_program
      ∷ []

  -- The buffer determines its five parts.
  id_input-injective :
      (a b : IdArgs) (s t u v : Bytes)
      → IsIdArgs a
      → IsIdArgs b
      → length s ≡ length u
      → id_input a.chain_id a.state_pda a.index s t ≡ id_input b.chain_id b.state_pda b.index u v
      → (a.chain_id ≡ b.chain_id)
        × (a.state_pda ≡ b.state_pda)
        × (a.index ≡ b.index)
        × (s ≡ u)
        × (t ≡ v)
  id_input-injective a b s t u v wa wb h e =
      let (chain, r1) =
        append-injective a.chain_id _ b.chain_id _ (wa.chain_size ∙ sym wb.chain_size) e in
      let (pda, r2) =
        append-injective a.state_pda _ b.state_pda _ (wa.pda_size ∙ sym wb.pda_size) r1 in
      let (index, r3) =
        append-injective (to_le_bytes 8 a.index) _ (to_le_bytes 8 b.index) _
          (length-to_le_bytes 8 a.index ∙ sym (length-to_le_bytes 8 b.index)) r2 in
      let (action, target) = append-injective s t u v h r3 in
      (
        chain,
        pda,
        to_le_bytes-injective 8 a.index b.index wa.index_fits wb.index_fits index,
        action,
        target,
      )

  -- Two derivations, each with a 32-byte chain id, a 32-byte state address and a u64 index, that
  -- give one proposal id have the same chain, state address, index, action bytes and target, or two
  -- corresponding inputs of the three hashes differ and have one digest.
  pub derive_proposal_id-binding :
      (a b : IdArgs)
      → IsIdArgs a
      → IsIdArgs b
      → id_of a ≡ id_of b
      → (a ≡ b) ⊎ CollidesIn H (id_inputs a) (id_inputs b)
  unfolding derive_proposal_id
  derive_proposal_id-binding a b wa wb e = elim (input-cases H _ _ e) [
    | inr outer ↦ inr (inl outer)
    | inl same ↦
        let (chain, pda, index, action, target) =
          id_input-injective a b _ _ _ _ wa wb (H.length-hash _ ∙ sym (H.length-hash _)) same in
        elim (input-cases H _ _ action) [
          | inr differ ↦ inr (inr (inl differ))
          | inl action' ↦ elim (input-cases H _ _ target) [
            | inr differ ↦ inr (inr (inr (inl differ)))
            | inl target' ↦ inl (λ i. record {
              chain_id = chain i;
              state_pda = pda i;
              index = index i;
              action_bytes = action' i;
              target_program = target' i;
            })
          ]
        ]
  ]

-- Distinct u64 chain ids have distinct 32-byte forms.
from_u64-injective : (x y : ℕ) → x < 2 ^ 64 → y < 2 ^ 64 → from_u64 x ≡ from_u64 y → x ≡ y
unfolding from_u64
from_u64-injective x y hx hy e =
    to_le_bytes-injective 8 x y hx hy
      (append-injective (to_le_bytes 8 x) (zeros 24) (to_le_bytes 8 y) (zeros 24)
        (length-to_le_bytes 8 x ∙ sym (length-to_le_bytes 8 y)) e).0

-- Under the chain ids made from two different u64 numbers no two derivations, with 32-byte state
-- addresses and u64 indexes, give one proposal id, unless two corresponding hash inputs differ and
-- have one digest.
pub no_cross_chain_replay :
    (H : Hasher) (x y : ℕ) (a b : IdArgs)
    → x < 2 ^ 64
    → y < 2 ^ 64
    → ¬ (x ≡ y)
    → a.chain_id ≡ from_u64 x
    → b.chain_id ≡ from_u64 y
    → IsIdArgs a
    → IsIdArgs b
    → id_of H a ≡ id_of H b
    → CollidesIn H (id_inputs H a) (id_inputs H b)
no_cross_chain_replay H x y a b hx hy ne ca cb wa wb e =
    elim (derive_proposal_id-binding H a b wa wb e) [
      | inr collides ↦ collides
      | inl same ↦
          absurd
            (ne (from_u64-injective x y hx hy (sym ca ∙ ap (λ (r : IdArgs). r.chain_id) same ∙ cb)))
    ]
