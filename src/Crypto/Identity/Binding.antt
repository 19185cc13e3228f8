-- ===== src/Crypto/Identity/Binding.antt =====
-- crypto/src/identity.rs and crypto/src/nullifier.rs: a member has one nullifier for a proposal.
use private_m_of_n_multisig.Common.{
  ◌≡◌, ◌⊎◌, inl, inr, sym, ap, ◌∙◌, ◌++◌, length, append-injective,
}
use private_m_of_n_multisig.Common.Bytes.{Bytes}
use private_m_of_n_multisig.Crypto.Hash.{Hasher, Collides, input-cases}
use private_m_of_n_multisig.Crypto.Identity.{
  Identity, IsIdentity, commitment, nullifier, identity_nullifier,
}

module _ (H : Hasher) where
  -- Two identities with one commitment are one identity, or the two commitment inputs collide.
  pub commitment-binding :
      (i j : Identity)
      → IsIdentity i
      → IsIdentity j
      → commitment H i ≡ commitment H j
      → (i ≡ j) ⊎ Collides H (i.sk ++ i.salt) (j.sk ++ j.salt)
  unfolding commitment
  commitment-binding i j wi wj e = elim (input-cases H _ _ e) [
    | inr differ ↦ inr differ
    | inl same ↦
        let (sk, salt) =
          append-injective i.sk i.salt j.sk j.salt (wi.sk_size ∙ sym wj.sk_size) same in
        inl (λ k. record { sk = sk k; salt = salt k })
  ]

  -- Two identities with 32-byte secrets and salts that open one commitment give the same nullifier
  -- for a proposal, so whoever opens an enrolled commitment casts one nullifier, whatever secrets
  -- are presented; or the two commitment inputs differ and have one digest.
  pub one_nullifier_per_member :
      (i j : Identity) (proposal_id : Bytes)
      → IsIdentity i
      → IsIdentity j
      → commitment H i ≡ commitment H j
      → (identity_nullifier H i proposal_id ≡ identity_nullifier H j proposal_id)
        ⊎ Collides H (i.sk ++ i.salt) (j.sk ++ j.salt)
  one_nullifier_per_member i j proposal_id wi wj e = elim (commitment-binding i j wi wj e) [
    | inr differ ↦ inr differ
    | inl same ↦ inl (ap (λ (k : Identity). identity_nullifier H k proposal_id) same)
  ]

  -- Of two secret keys of one length: if they give one nullifier for two proposal ids, the keys and
  -- the ids are the same, or the two inputs differ and have one digest. So members do not block one
  -- another, and a vote on one proposal does not count against another.
  pub nullifier-binding :
      (sk sk' proposal_id proposal_id' : Bytes)
      → length sk ≡ length sk'
      → nullifier H sk proposal_id ≡ nullifier H sk' proposal_id'
      → ((sk ≡ sk') × (proposal_id ≡ proposal_id'))
        ⊎ Collides H (sk ++ proposal_id) (sk' ++ proposal_id')
  unfolding nullifier
  nullifier-binding sk sk' pid pid' h e = elim (input-cases H _ _ e) [
    | inr differ ↦ inr differ
    | inl same ↦ inl (append-injective sk pid sk' pid' h same)
  ]
