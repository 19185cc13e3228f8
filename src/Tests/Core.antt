-- ===== src/Tests/Core.antt =====
-- private_multisig_core/src: the theorems on errors, thresholds, public inputs, proposal ids and
-- account addresses applied.
use private_m_of_n_multisig.Common.{ℕ, ◌≡◌, ◌⊎◌, refl, arith, ◌++◌, [], ◌∷◌, replicate}
use private_m_of_n_multisig.Common.Bytes.{zeros, to_le_bytes}
use private_m_of_n_multisig.Crypto.Hash.{CollidesIn}
use private_m_of_n_multisig.Core.Proof.{
  from_u64, derive_proposal_id, IdArgs, IsIdArgs, id_of, id_inputs, derive_proposal_id-binding,
  no_cross_chain_replay,
}
use private_m_of_n_multisig.Core.Pda.Separation.{Account, vault_of, address_inputs, address-binding}
use private_m_of_n_multisig.Tests.Toy.{hasher}

abbrev args : ℕ → IdArgs
args chain = record {
  chain_id = to_le_bytes 8 chain ++ zeros 24;
  state_pda = replicate 32 4;
  index = 0;
  action_bytes = 1 ∷ 2 ∷ [];
  target_program = replicate 32 6;
}

args-IsIdArgs_0 : IsIdArgs (args 0)
unfolding to_le_bytes
args-IsIdArgs_0 = record { chain_size = refl; pda_size = refl; index_fits = omega arith }

args-IsIdArgs_251 : IsIdArgs (args 251)
unfolding to_le_bytes
args-IsIdArgs_251 = record { chain_size = refl; pda_size = refl; index_fits = omega arith }

derive_proposal_id-binding_example :
    (args 0 ≡ args 0) ⊎ CollidesIn hasher (id_inputs hasher (args 0)) (id_inputs hasher (args 0))
derive_proposal_id-binding_example =
    derive_proposal_id-binding hasher (args 0) (args 0) args-IsIdArgs_0 args-IsIdArgs_0 refl

-- The hasher's checksum is taken modulo 251, so these two ids agree.
same_id : id_of hasher (args 0) ≡ id_of hasher (args 251)
unfolding derive_proposal_id to_le_bytes
same_id = refl

chain_0 : (args 0).chain_id ≡ from_u64 0
unfolding from_u64
chain_0 = refl

chain_251 : (args 251).chain_id ≡ from_u64 251
unfolding from_u64
chain_251 = refl

no_cross_chain_replay_example :
    CollidesIn hasher (id_inputs hasher (args 0)) (id_inputs hasher (args 251))
no_cross_chain_replay_example =
    no_cross_chain_replay hasher 0 251 (args 0) (args 251) (omega arith) (omega arith)
      (λ e. absurd (omega (arith, e))) chain_0 chain_251 args-IsIdArgs_0 args-IsIdArgs_251 same_id

abbrev vault : Account
vault = vault_of (replicate 32 4)

address-binding_example :
    (vault ≡ vault)
    ⊎ CollidesIn hasher
        (address_inputs hasher (replicate 32 1) vault)
        (address_inputs hasher (replicate 32 1) vault)
address-binding_example = address-binding hasher (replicate 32 1) vault vault refl refl refl
