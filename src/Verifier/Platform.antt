-- ===== src/Verifier/Platform.antt =====
-- What the verifier takes from the SPEL framework, borsh and risc0: the account and call types its
-- handlers build, and the operations they call, with what the handlers rely on.
use private_m_of_n_multisig.Common.{ℕ, ◌≡◌, Bool, Option, some, List}
use private_m_of_n_multisig.Common.Bytes.{Bytes}
use private_m_of_n_multisig.Core.State.{MultisigState, Proposal}
use private_m_of_n_multisig.Core.Pda.{pad_seed_32}

-- `AccountWithMetadata` with `account.data` (here `body`) and `account.program_owner`.
pub record AccountWithMetadata : Type 0 where
  pub account_id : Bytes
  pub program_owner : Bytes
  pub body : Bytes
  pub is_authorized : Bool

pub record ChainedCall : Type 0 where
  pub program_id : List ℕ
  pub pre_states : List AccountWithMetadata
  pub instruction_data : List ℕ
  pub pda_seeds : List Bytes

-- `SpelOutput`, with the assumptions that `env::verify` has registered on the way: an image id and
-- a journal. The runtime accepts the output only if a receipt discharges each of them.
pub record SpelOutput : Type 0 where
  pub accounts : List AccountWithMetadata
  pub chained_calls : List ChainedCall
  pub assumptions : List (List ℕ × Bytes)

-- `SpelError::custom(code, message)`, without its message.
pub data SpelError : Type 0 where
  custom : ℕ → SpelError

-- A derived borsh encoding: `borsh::to_vec` and `borsh::from_slice`.
pub record Borsh (A : Type 0) : Type 0 where
  pub to_vec : A → Option Bytes
  pub from_slice : Bytes → Option A
  pub from_slice-to_vec :
      (a : A) (bytes : Bytes) → to_vec a ≡ some bytes → from_slice bytes ≡ some a

pub record Platform : Type 0 where
  pub states : Borsh MultisigState
  pub proposals : Borsh Proposal
  -- `bytes.try_into()` into account data, which fails past the data cap.
  pub to_data : Bytes → Option Bytes
  pub to_data-eq : (bytes data' : Bytes) → to_data bytes ≡ some data' → data' ≡ bytes
  -- `spel_framework::pda::seed_from_str`, which pads with zeros to 32 bytes.
  pub seed_from_str : Bytes → Bytes
  pub seed_from_str-eq : (s : Bytes) → seed_from_str s ≡ pad_seed_32 s
  -- `risc0_zkvm::serde::to_vec` of a byte vector.
  pub serde_to_vec : Bytes → List ℕ
