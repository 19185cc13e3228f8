-- ===== src/Crypto.antt =====
-- The crate `crypto`: hashing with domains, identities and nullifiers, and the Merkle tree.
pub mod Hash
pub mod Identity
pub mod Merkle
