-- ===== src/Verifier/Ledger.antt =====
-- The instructions of methods/guest/src/bin/private_multisig.rs as steps of a ledger, for one
-- multisig. A step asks for what the account attributes of its handler say: an account with `pda`
-- stands at the derived address, one with `mut` and `owner` exists, one with `init` does not. Then
-- the handler runs, and the program's accounts that it returns are written back. An index is a u64.
-- A ledger gives the body of each account that the program owns. The signer is any account.
pub mod Writes
pub mod Tally
pub mod Steps
pub mod Votes
pub mod Settings
pub mod Opening
pub mod Emitted
pub mod Refinement
use private_m_of_n_multisig.Common.{
  ℕ, ◌<◌, ◌^◌, ◌≡◌, Bool, false, Option, none, some, List, [], ◌∷◌, ◌++◌, Result, ok, take,
  if◌then◌else◌,
}
use private_m_of_n_multisig.Common.Bytes.{Bytes, bytes_eq}
use private_m_of_n_multisig.Crypto.Hash.{Hasher}
use private_m_of_n_multisig.Core.Pda.{
  derive_multisig_state_pda, derive_proposal_pda, derive_vault_pda, derive_nullifier_entry_pda,
}
use private_m_of_n_multisig.Verifier.Platform.{
  AccountWithMetadata, ChainedCall, SpelOutput, Platform,
}
use private_m_of_n_multisig.Verifier.Handlers.{
  create_multisig, create_vault, propose, approve, execute, reject,
}

abbrev pub Ledger : Type 0
Ledger = Bytes → Option Bytes

abbrev pub write : Ledger → Bytes → Bytes → Ledger
write L address body x = if bytes_eq x address then some body else L x

-- The accounts that a handler returns, written back.
abbrev pub commit : List AccountWithMetadata → Ledger → Ledger
commit [] L = L
commit (a ∷ rest) L = commit rest (write L a.account_id a.body)

-- What a step does that is worth recording, by the proposal's address.
pub data Event : Type 0 where
  -- proposal address, nullifier
  voted : Bytes → Bytes → Event
  executed_at : Bytes → Event
  other : Event

module _ (P : Platform) (H : Hasher) (program_id create_key : Bytes) where
  abbrev pub held : Bytes → Bytes → AccountWithMetadata
  held address body = record {
    account_id = address;
    program_owner = program_id;
    body = body;
    is_authorized = false;
  }

  abbrev pub state_at : Bytes
  state_at = derive_multisig_state_pda H program_id create_key

  abbrev pub proposal_at : ℕ → Bytes
  proposal_at index = derive_proposal_pda H program_id create_key index

  abbrev pub vault_at : Bytes
  vault_at = derive_vault_pda H program_id create_key

  abbrev pub entry_at : Bytes → Bytes → Bytes
  entry_at proposal nullifier = derive_nullifier_entry_pda H program_id proposal nullifier

  pub data Step (L : Ledger) : Event → Ledger → Type 0 where
    create_step :
        (creator : AccountWithMetadata) (members_root : Bytes) (m n : ℕ) (out : SpelOutput)
        → L state_at ≡ none
        → create_multisig P (held state_at []) creator create_key members_root m n ≡ ok out
        → Step L other (commit (take 1 out.accounts) L)
    vault_step :
        (state_body : Bytes) (payer : AccountWithMetadata) (out : SpelOutput)
        → L state_at ≡ some state_body
        → L vault_at ≡ none
        → create_vault P (held state_at state_body) (held vault_at []) payer create_key ≡ ok out
        → Step L other (commit (take 2 out.accounts) L)
    propose_step :
        (state_body : Bytes) (proposer : AccountWithMetadata) (index : ℕ)
        (action_bytes target_program : Bytes) (out : SpelOutput)
        → index < 2 ^ 64
        → L state_at ≡ some state_body
        → L (proposal_at index) ≡ none
        → propose P
            (held state_at state_body)
            (held (proposal_at index) [])
            proposer
            create_key
            index
            action_bytes
            target_program
          ≡ ok out
        → Step L other (commit (take 2 out.accounts) L)
    approve_step :
        (state_body proposal_body : Bytes) (submitter : AccountWithMetadata) (index : ℕ)
        (nullifier public_inputs : Bytes) (out : SpelOutput)
        → index < 2 ^ 64
        → L state_at ≡ some state_body
        → L (proposal_at index) ≡ some proposal_body
        → L (entry_at (proposal_at index) nullifier) ≡ none
        → approve P H
            (held state_at state_body)
            (held (proposal_at index) proposal_body)
            (held (entry_at (proposal_at index) nullifier) [])
            submitter
            create_key
            index
            nullifier
            public_inputs
          ≡ ok out
        → Step L (voted (proposal_at index) nullifier) (commit (take 3 out.accounts) L)
    execute_step :
        (state_body proposal_body vault_body : Bytes) (submitter : AccountWithMetadata) (index : ℕ)
        (out : SpelOutput)
        → index < 2 ^ 64
        → L state_at ≡ some state_body
        → L (proposal_at index) ≡ some proposal_body
        → L vault_at ≡ some vault_body
        → execute P H
            (held state_at state_body)
            (held (proposal_at index) proposal_body)
            (held vault_at vault_body)
            submitter
            create_key
            index
          ≡ ok out
        → Step L (executed_at (proposal_at index)) (commit (take 3 out.accounts) L)
    reject_step :
        (state_body : Bytes) (rejector : AccountWithMetadata) (out : SpelOutput)
        → L state_at ≡ some state_body
        → reject (held state_at state_body) rejector create_key ≡ ok out
        → Step L other (commit (take 1 out.accounts) L)

  -- The addresses of the multisig's accounts.
  pub data Own (x : Bytes) : Type 0 where
    own_state : x ≡ state_at → Own x
    own_vault : x ≡ vault_at → Own x
    own_proposal : (index : ℕ) → x ≡ proposal_at index → Own x
    own_entry : (index : ℕ) (nullifier : Bytes) → x ≡ entry_at (proposal_at index) nullifier → Own x

  -- A sequence of steps from `L`, with its events, the last one first. Between them anything may
  -- happen that leaves the multisig's accounts as they are: instructions of other multisigs and
  -- other programs.
  pub data Run (L : Ledger) : List Event → Ledger → Type 0 where
    start : Run L [] L
    then_step :
        {events : List Event} {e : Event} {M N : Ledger}
        → Run L events M
        → Step M e N
        → Run L (e ∷ events) N
    meanwhile :
        {events : List Event} {M N : Ledger}
        → Run L events M
        → ((x : Bytes) → Own x → N x ≡ M x)
        → Run L events N

  -- The output of a step's handler.
  abbrev pub output_of : {L N : Ledger} {e : Event} → Step L e N → SpelOutput
  output_of (create_step _ _ _ _ out _ _) = out
  output_of (vault_step _ _ out _ _ _) = out
  output_of (propose_step _ _ _ _ _ out _ _ _ _) = out
  output_of (approve_step _ _ _ _ _ _ out _ _ _ _ _) = out
  output_of (execute_step _ _ _ _ _ out _ _ _ _ _) = out
  output_of (reject_step _ _ out _ _) = out

  -- The calls that the steps make, those of the last step first.
  abbrev pub calls : {L N : Ledger} {events : List Event} → Run L events N → List ChainedCall
  calls start = []
  calls (then_step before step) = (output_of step).chained_calls ++ calls before
  calls (meanwhile before _) = calls before

  -- Nothing happened between the steps.
  abbrev pub IsAlone : {L N : Ledger} {events : List Event} → Run L events N → Type 0
  IsAlone start = Unit
  IsAlone (then_step before step) = IsAlone before
  IsAlone (meanwhile before _) = ⊥
