-- ===== src/Sdk/Prover/Quorum/Verdict.antt =====
-- What an executed proposal of a ledger says of the members, with nothing assumed of its addresses:
-- two accounts of the multisig that share one give a collision (private_multisig_core/src/pda.rs).
use private_m_of_n_multisig.Common.{
  ℕ, ◌≤◌, ◌<◌, ◌^◌, ◌≡◌, ◌≢◌, ◌⊎◌, inl, inr, ap, List, ok, length, Bool-cases,
}
use private_m_of_n_multisig.Common.Bytes.{Bytes, All, bytes_eq, bytes_eq_iff, bytes_ne_of_eq}
use private_m_of_n_multisig.Common.Pigeonhole.{AreDifferent}
use private_m_of_n_multisig.Crypto.Hash.{Hasher, CollidesIn}
use private_m_of_n_multisig.Core.State.{MultisigState}
use private_m_of_n_multisig.Core.Pda.Separation.{
  Account, state_of, proposal_of, vault_of, IsAccount, address, address_inputs, address-binding,
}
use private_m_of_n_multisig.Core.Proof.{derive_proposal_id, from_u64, deployment_chain_id_u64}
use private_m_of_n_multisig.Circuit.{GuestEnv}
use private_m_of_n_multisig.Verifier.Platform.{Platform}
use private_m_of_n_multisig.Verifier.Ledger.{Ledger, Event, state_at, proposal_at, vault_at, Run}
use private_m_of_n_multisig.Verifier.Ledger.Tally.{executions_at}
use private_m_of_n_multisig.Verifier.Ledger.Votes.{IsOpened}
use private_m_of_n_multisig.Verifier.Ledger.Settings.{Kept, Clash}
use private_m_of_n_multisig.Sdk.Builder.{MultisigBuilder, MultisigFinalized, new_builder, finalize}
use private_m_of_n_multisig.Sdk.Builder.Enrollment.{enroll}
use private_m_of_n_multisig.Sdk.Prover.Quorum.{Approval, places, Placed, IsBroken}
use private_m_of_n_multisig.Sdk.Prover.Quorum.Discharged.{IsDischarged}
use private_m_of_n_multisig.Sdk.Prover.Quorum.Electorate.{executed-by_members}

module _ (P : Platform) (H : Hasher) (E : GuestEnv) (program_id create_key : Bytes)
    (key_size : length create_key ≡ 32) where
  -- An account of the multisig whose address the handlers derive from its key alone, or from its
  -- key and the index of a proposal.
  pub data Part : Type 0 where
    state_part vault_part : Part
    proposal_part : (index : ℕ) → index < 2 ^ 64 → Part

  abbrev pub account : Part → Account
  account state_part = state_of create_key
  account vault_part = vault_of create_key
  account (proposal_part index small) = proposal_of create_key index

  -- The derivations of the addresses of two such accounts hash two different inputs to one digest.
  abbrev pub IsShared : Type 0
  IsShared =
      (x : Part) × (y : Part) × CollidesIn H (address_inputs H program_id (account x))
        (address_inputs H program_id (account y))

  sized : (x : Part) → IsAccount (account x)
  sized state_part = key_size
  sized vault_part = key_size
  sized (proposal_part index small) = (key_size, small)

  shared :
      (x y : Part)
      → account x ≢ account y
      → address H program_id (account x) ≡ address H program_id (account y)
      → IsShared
  shared x y differ e =
      elim (address-binding H program_id (account x) (account y) (sized x) (sized y) e) [
        | inl same ↦ absurd (differ same)
        | inr collides ↦ (x, y, collides)
      ]

  index_of : Account → ℕ
  index_of (proposal_of k i) = i
  index_of _ = 0

  -- An address that the execution's history shares among two accounts.
  Overlap-IsShared :
      (index : ℕ) (small : index < 2 ^ 64)
      → ((j : ℕ) × (j < 2 ^ 64)
          × (j ≢ index)
          × (proposal_at P H program_id create_key j ≡ proposal_at P H program_id create_key index))
        ⊎ Clash P H program_id create_key
      → IsShared
  unfolding index_of
  Overlap-IsShared index small (inl (j, small', differ, e)) =
      shared (proposal_part j small') (proposal_part index small) (λ q. differ (ap index_of q)) e
  Overlap-IsShared index small (inr (inl e)) = shared vault_part state_part (λ q. cc) e
  Overlap-IsShared index small (inr (inr (j, small', e))) =
      shared (proposal_part j small') state_part (λ q. cc) e

  module _ (index : ℕ) (small : index < 2 ^ 64) (L : Ledger)
      (fresh : IsOpened P L (proposal_at P H program_id create_key index)) (b0 : MultisigState)
      (settled : Kept P H program_id create_key b0 L) (m : ℕ) (cs : List Bytes)
      (b : MultisigBuilder) (f : MultisigFinalized) (enrolled : enroll cs (new_builder H m) ≡ ok b)
      (frozen : finalize H b ≡ ok f) (same_root : b0.members_root ≡ f.members_root) where
    -- The proposal's id, from its address, index, action and target.
    abbrev pub opened_id : Bytes
    opened_id =
        derive_proposal_id H (from_u64 deployment_chain_id_u64) (state_at P H program_id create_key)
          index fresh.body.action_bytes fresh.body.target_program

    -- From a ledger in which a proposal has just been opened, whose multisig's state account holds
    -- the root that `finalize` froze after successful `add_member` calls for `cs`, take any steps
    -- of the multisig, and anything between them that leaves the multisig's accounts as they are,
    -- after which the proposal was executed, where each assumption that a step made is of the
    -- approve circuit and the circuit has committed its journal on some input. Then there are
    -- circuit runs for this root and this proposal's id, m or more of them by the threshold m of
    -- the state account, each for an identity whose commitment stands in `cs`, in a place of its
    -- own. Or two given inputs differ and have one digest: of a run's Merkle path and the tree of
    -- `cs`, of the commitments that two of the runs open, or of the addresses of two of the
    -- multisig's accounts. The key has 32 bytes and the index fits in 64 bits.
    pub executed-by_quorum :
        (N : Ledger) (events : List Event) (run : Run P H program_id create_key L events N)
        → IsDischarged P H E program_id create_key run
        → executions_at (proposal_at P H program_id create_key index) events ≡ 1
        → ((xs : List (Approval H E b0.members_root opened_id)) × (b0.m
              ≤ length (places H E b0.members_root opened_id xs))
            × ((All (Placed H E b0.members_root opened_id cs) xs
                  × AreDifferent (places H E b0.members_root opened_id xs))
                ⊎ IsBroken H E b0.members_root opened_id cs xs))
          ⊎ IsShared
    executed-by_quorum N events run d ran =
        let a = proposal_at P H program_id create_key index in
        elim (Bool-cases (bytes_eq a (state_at P H program_id create_key))) [
          | inl state ↦
              inr (
                shared (proposal_part index small) state_part (λ q. cc)
                  ((bytes_eq_iff a _).0 state))
          | inr not_state ↦ elim (Bool-cases (bytes_eq a (vault_at P H program_id create_key))) [
            | inl vault ↦ inr (
                shared (proposal_part index small) vault_part (λ q. cc)
                  ((bytes_eq_iff a _).0 vault))
            | inr not_vault ↦
                elim (executed-by_members P H E program_id create_key index L
                  (bytes_ne_of_eq a _ not_state) (bytes_ne_of_eq a _ not_vault) fresh b0 settled m
                  cs b f enrolled frozen same_root N events run d ran) [
                    | inl quorum ↦ inl quorum
                    | inr overlap ↦ inr (Overlap-IsShared index small overlap)
                  ]
          ]
        ]
