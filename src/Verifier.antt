-- ===== src/Verifier.antt =====
-- methods/guest/src/bin/private_multisig.rs: the verifier program.
pub mod Platform
pub mod Handlers
pub mod Storage
pub mod Create
pub mod Propose
pub mod Approve
pub mod Execute
pub mod Ledger
