-- ===== src/Core/Instruction.antt =====
-- private_multisig_core/src/instructions.rs: the instruction enum, in wire order.
use private_m_of_n_multisig.Common.{ℕ}
use private_m_of_n_multisig.Common.Bytes.{Bytes}

pub data Instruction : Type 0 where
  -- create_key, members_root, m, n
  create_multisig : Bytes → Bytes → ℕ → ℕ → Instruction
  -- create_key, index, action_bytes, target_program
  propose : Bytes → ℕ → Bytes → Bytes → Instruction
  -- create_key, index, nullifier, public_inputs
  approve : Bytes → ℕ → Bytes → Bytes → Instruction
  -- create_key, index
  execute : Bytes → ℕ → Instruction
  -- create_key
  create_vault : Bytes → Instruction
  reject : Bytes → Instruction
