-- ===== src/Sdk.antt =====
-- The crate `sdk`: errors, the session state machine and its store, members' keystores, the
-- multisig builder and the prover.
pub mod Errors
pub mod Session
pub mod Builder
pub mod Prover
pub mod Store
pub mod Keystore
