-- ===== src/Tests.antt =====
-- The parameters of the development instantiated, and theorems applied at inputs where their
-- hypotheses hold.
mod Toy
mod Scenario
mod Crypto
mod Core
mod Circuit
mod Verifier
mod Sdk
mod Sessions
mod Ledger
mod Turnout
mod Electorate
mod Lifecycle
mod Store
mod Keystore
mod Scan
mod Proving
mod Quorum
mod E2e
mod Bootstrap
