-- ===== src/Core/Proof.antt =====
-- private_multisig_core/src/proof.rs: the public inputs of an approval and the proposal id.
-- `copy_from_slice` into consecutive ranges of a fixed array is concatenation.
mod Layout
mod Binding
unfoldable pub use Layout.*
unfoldable pub use Binding.*
