-- ===== src/Tests/Turnout.antt =====
-- A ledger with an open proposal of Alice and Bob, both of whom approve it.
use private_m_of_n_multisig.Common.{
  ℕ, ◌^◌, ◌<◌, ◌≡◌, ◌≢◌, refl, ap, arith, Bool, true, false, some, none, List, [], ◌∷◌, replicate,
  get_or,
}
use private_m_of_n_multisig.Common.Bytes.{Bytes, All, zeros, bytes_eq, to_le_bytes}
use private_m_of_n_multisig.Crypto.Hash.{hash_len}
use private_m_of_n_multisig.Crypto.Identity as Identity
use private_m_of_n_multisig.Crypto.Identity.{commitment}
use private_m_of_n_multisig.Core.Proof as Proof
use private_m_of_n_multisig.Core.Proof.{from_u64, deployment_chain_id_u64}
use private_m_of_n_multisig.Core.Pda.{
  derive_pda, derive_multisig_state_pda, derive_proposal_pda, derive_vault_pda,
  derive_nullifier_entry_pda,
}
use private_m_of_n_multisig.Verifier.Handlers.{vault_call}
use private_m_of_n_multisig.Verifier.Storage.{IsStorable}
use private_m_of_n_multisig.Verifier.Ledger.{
  Ledger, write, Event, executed_at, held, state_at, proposal_at, vault_at, entry_at, Run, calls,
  IsAlone,
}
use private_m_of_n_multisig.Sdk.Prover.Quorum.Discharged.{IsDischarged}
use private_m_of_n_multisig.Sdk.Prover.Quorum.Progress.{Ready, Ballot, votes, AreApart}
use private_m_of_n_multisig.Sdk.Prover.Quorum.Turnout.{Voter, ballots, members_execute}
use private_m_of_n_multisig.Tests.Toy.{hasher, guest_env, platform, state_bytes, proposal_bytes}
use private_m_of_n_multisig.Tests.Scenario.{
  alice, bob, alice-IsIdentity, members, builder, enrolled, finalized, finalize_lem, alice_not_zero,
  create_key, state_body, proposal_body,
}

abbrev pub program_id : Bytes
program_id = replicate 32 20

abbrev pub state : Bytes
state = state_at platform hasher program_id create_key

abbrev pub vault : Bytes
vault = vault_at platform hasher program_id create_key

abbrev pub proposal : Bytes
proposal = proposal_at platform hasher program_id create_key 0

abbrev pub before : Ledger
before =
    write (write (write (λ _. none) vault []) proposal (proposal_bytes (proposal_body 0 false)))
      state (state_bytes state_body)

pub not_state : proposal ≢ state
unfolding to_le_bytes derive_multisig_state_pda derive_proposal_pda derive_pda
not_state e = absurd (omega (arith, ap (λ (l : Bytes). get_or l 0 0) e))

pub not_vault : proposal ≢ vault
unfolding to_le_bytes derive_vault_pda derive_proposal_pda derive_pda
not_vault e = absurd (omega (arith, ap (λ (l : Bytes). get_or l 0 0) e))

pub vault_not_state : vault ≢ state
unfolding derive_vault_pda derive_multisig_state_pda derive_pda
vault_not_state e = absurd (omega (arith, ap (λ (l : Bytes). get_or l 0 0) e))

pub bob_not_zero : commitment hasher bob ≢ zeros hash_len
unfolding commitment
bob_not_zero e = absurd (omega (arith, ap (λ (l : Bytes). get_or l 1 0) e))

abbrev pub voters : List (Voter hasher members)
voters =
    record {
      place = 0;
      member = alice;
      member_sizes = alice-IsIdentity;
      listed = refl;
      not_zero = alice_not_zero;
    }
    ∷ record {
      place = 1;
      member = bob;
      member_sizes = record { sk_size = refl; salt_size = refl };
      listed = refl;
      not_zero = bob_not_zero;
    }
    ∷ []

abbrev pub slips : List (
    Ballot platform hasher guest_env program_id create_key 0
      (state_bytes state_body)
      []
      state_body
      (proposal_body 0 false))
slips =
    ballots platform hasher guest_env program_id create_key 0 (state_bytes state_body) [] state_body
      (proposal_body 0 false) 2 members builder finalized enrolled finalize_lem refl (omega arith)
      (omega arith) voters

pub ready :
    Ready platform hasher guest_env program_id create_key 0
      (state_bytes state_body)
      []
      state_body
      (proposal_body 0 false)
      before
      0
unfolding bytes_eq to_le_bytes derive_multisig_state_pda derive_proposal_pda derive_vault_pda
    derive_pda
ready = record {
  data_at = proposal_bytes (proposal_body 0 false);
  state_found = refl;
  vault_found = refl;
  found = refl;
  reads = refl;
}

pub no_entries :
    All
      (λ v. before (entry_at platform hasher program_id create_key proposal v.nullifier) ≡ none)
      slips
unfolding bytes_eq to_le_bytes derive_multisig_state_pda derive_proposal_pda derive_vault_pda
    derive_nullifier_entry_pda derive_pda Proof.derive_proposal_id from_u64 Identity.nullifier
no_entries = (refl, (refl, tt))

pub entries_apart :
    AreApart platform hasher guest_env program_id create_key 0
      (state_bytes state_body)
      []
      state_body
      (proposal_body 0 false)
      slips
unfolding to_le_bytes derive_multisig_state_pda derive_proposal_pda derive_nullifier_entry_pda
    derive_pda Proof.derive_proposal_id from_u64 Identity.nullifier
entries_apart = ((λ e. absurd (omega (arith, ap (λ (l : Bytes). get_or l 0 0) e)), tt), (tt, tt))

pub storable :
    (k : ℕ) (done : Bool)
    → k < 2 ^ 32
    → IsStorable platform platform.proposals (proposal_body k done)
storable k done small = (proposal_bytes (proposal_body k done), refl)

abbrev pub events : List Event
events =
    executed_at proposal
    ∷ votes platform hasher guest_env program_id create_key 0 (state_bytes state_body) [] state_body
        (proposal_body 0 false) slips

members_execute_example :
    (N : Ledger) × (run : Run platform hasher program_id create_key before events N) × IsAlone
      platform hasher program_id create_key run
    × IsDischarged platform hasher guest_env program_id create_key run
    × (calls platform hasher program_id create_key run
        ≡ vault_call platform hasher
            (held platform hasher program_id create_key vault [])
            create_key
            (proposal_body 0 false)
          ∷ [])
    × (d : Bytes) × (N proposal ≡ some d)
    × (platform.proposals.from_slice d ≡ some (proposal_body 2 true))
members_execute_example =
    members_execute platform hasher guest_env program_id create_key 0 (state_bytes state_body) []
      state_body (proposal_body 0 false) 2 members builder finalized enrolled finalize_lem refl
      (omega arith) (omega arith) (omega arith) not_state not_vault vault_not_state refl before
      voters ready no_entries entries_apart (omega arith) (omega arith) storable
