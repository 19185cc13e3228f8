-- ===== src/Core.antt =====
-- The crate `private_multisig_core`: the types that the SDK, the circuit and the verifier share.
pub mod Errors
pub mod State
pub mod Instruction
pub mod Proof
pub mod Pda
