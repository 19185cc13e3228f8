-- ===== src/Lib.antt =====
-- A verification library for a private M-of-N multisig: members enroll hash commitments in a Merkle
-- tree, prove in a zero-knowledge circuit that they are enrolled, and an on-chain verifier counts
-- their nullifiers and emits one chained call when the threshold is met.
--
-- The program's parts and the files that model them:
-- * Crypto models the crate `crypto`. Crypto/Hash is crypto/src/hash.rs (the trait `Hasher` with
--   `hash_leaf` and `hash_node`), Crypto/Identity is crypto/src/identity.rs and
--   crypto/src/nullifier.rs, and Crypto/Merkle is crypto/src/merkle.rs (`new`, `insert`, `root`,
--   `proof`, `node_at`, `verify_proof`). Below it, Reference compares the tree with a plain one,
--   Paths is about proofs that the tree makes, Binding about proofs that are accepted, Growth about
--   `insert`.
-- * Core models private_multisig_core/src: Core/Errors (error.rs), Core/State (state.rs),
--   Core/Instruction (instructions.rs), Core/Proof (proof.rs: public inputs, chain ids, proposal
--   ids) and Core/Pda (pda.rs: account addresses, in Separation that different accounts get
--   different ones).
-- * Circuit models methods/guest/src/bin/approve_circuit.rs, whose `main` reads a byte stream and
--   gives a journal or a panic, and `pack_approve_witness` of private_multisig_program/src/lib.rs.
-- * Verifier models methods/guest/src/bin/private_multisig.rs: Verifier/Handlers holds the handlers
--   `create_multisig`, `create_vault`, `propose`, `approve`, `execute` and `reject`, as functions
--   from accounts and arguments to a `SpelOutput` or a `SpelError`; Create, Propose, Approve and
--   Execute are about one handler each. Verifier/Platform is what they take from the SPEL framework
--   and borsh. Verifier/Ledger makes the instructions of one multisig steps of a ledger: an
--   instruction asks for what the account attributes of its handler say (`pda`, `mut` with `owner`,
--   `init`), runs the handler and writes the returned accounts back. Between the steps of a `Run`
--   anything may happen that leaves the multisig's own accounts as they are. Below it, Writes,
--   Tally, Steps and Votes follow one proposal through any steps, Settings follows the state
--   account, Emitted the calls that are made, Opening has the steps that create a multisig and its
--   first proposal, and Refinement compares the steps with an abstract m-of-n proposal.
-- * Sdk models the crate `sdk`: Sdk/Errors (sdk/src/error.rs), Sdk/Session (sdk/src/session.rs, the
--   resumable approval session and its methods), Sdk/Store (sdk/src/session.rs, `SessionStore`; its
--   child Scan is `load_for_proposal` and `open`), Sdk/Keystore (sdk/src/member.rs), Sdk/Builder
--   (sdk/src/multisig.rs) and Sdk/Prover (sdk/src/prover.rs; its child Proving is `prove` with its
--   cache, and the harness's check of a receipt; its child Flatten is `flatten_proof`).
--   Sdk/Prover/EndToEnd and Authorization join the SDK, the circuit and the verifier, and Quorum is
--   about many runs of the circuit for one proposal: its child Discharged is about the receipts
--   behind a run of a ledger, Electorate and Verdict find the members behind its votes, and
--   Progress, Turnout and Lifecycle give the steps by which members carry a proposal.
-- * E2e models the crate `e2e_tests`: E2e/ProgramId holds `program_id_to_core_bytes` of the
--   harness, the conversions of the quickstart and `image_id_hex` of
--   private_multisig_program/src/lib.rs; E2e/Harness is e2e_tests/src/harness.rs (the accounts and
--   the instruction of each method, and `submit`; its child Bootstrap is `bootstrap`),
--   E2e/Quickstart is e2e_tests/src/bin/quickstart.rs: `run_layer_a` joins the builder, the
--   members, the prover and the check of each receipt, and its child Arguments is `parse_args` and
--   `main`, whose result is the exit code.
-- * Common holds Boolean tests, lists over the native numbers, results and byte strings. Tests
--   holds a hasher, a guest environment and a platform, a multisig of two members, and runs on
--   them.
--
-- How the code is modelled. A byte array is a list of numbers, with its fixed length as a
-- hypothesis where it matters. A method on `&mut self` returns the new value beside its result. `?`
-- is a bind of `Result`. Machine integers are native numbers: `checked_add` tests against 2 ^ w,
-- and `retry_count`, a u32 that is added to without a check, is taken modulo 2 ^ 32, as the release
-- profile does. The loops over 20 levels recurse on the number of rounds left, so none needs fuel;
-- `node_at` recurses on its level.
--
-- Hashes. No hash is assumed to be injective. A theorem that needs this ends in: or two given
-- inputs differ and have the same digest. `CollidesIn` says so of two lists of inputs, position by
-- position.
--
-- Parameters, with what is asked of them: the hash function (32-byte digests); `env::read_slice`
-- (`GuestEnv`); borsh, the account data cap, `seed_from_str` and the serde of risc0 (`Platform`);
-- the sled tree under the session store (`Sled`), each of whose calls may fail, and the order of
-- its range scans (`Ranges`); Argon2id, ChaCha20-Poly1305 and the keystore's encoding (`Ciphers`:
-- decryption undoes encryption, and a tag has 16 bytes); the risc0 prover with bincode (`Risc0`: a
-- receipt of the approve circuit has the journal that its `main` commits); the sequencer and the
-- wallet (`Sequencer`), and the test context with its files (`Stack`), of which nothing is asked;
-- random bytes, the environment variable and the clock, which are arguments. An `env::verify` of
-- the verifier is recorded in `assumptions`, and `IsDischarged` says that each one made on the way
-- has a run of the circuit behind it.
--
-- Not modelled: the SPEL macro, whose account checks are the conditions of a ledger's steps, and
-- the runtime that discharges assumptions and executes the chained call; what a risc0 proof
-- guarantees to who verifies it; what the quickstart prints beyond its approvals; the command line,
-- the build scripts, benches and tests; Debug and Display output and zeroizing.
pub mod Common
pub mod Crypto
pub mod Core
pub mod Circuit
pub mod Verifier
pub mod Sdk
pub mod E2e
pub mod Tests
