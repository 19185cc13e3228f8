-- ===== src/E2e.antt =====
-- The crate `e2e_tests`, and `image_id_hex` of private_multisig_program: program ids as words,
-- bytes and text, the harness that submits the instructions, and the quickstart program.
pub mod ProgramId
pub mod Harness
pub mod Quickstart
