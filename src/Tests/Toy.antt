-- ===== src/Tests/Toy.antt =====
-- A hasher, a guest environment and a platform that satisfy what the development asks of them.
use private_m_of_n_multisig.Common.{
  ℕ, ◌+◌, ◌*◌, ◌%◌, ◌≡◌, refl, sym, ap, ◌∙◌, Bool, true, false, Option, none, some, [], ◌∷◌, ◌++◌,
  arith, length, length-append, length-take, take, drop, replicate, ltb, ◌==◌, if◌then◌else◌,
  take-append_left, drop-append_left, le→ltb_false, Bool-cases, inl, inr,
}
use private_m_of_n_multisig.Common.Bytes.{Bytes}
use private_m_of_n_multisig.Crypto.Hash.{Hasher}
use private_m_of_n_multisig.Core.State.{MultisigState, Proposal}
use private_m_of_n_multisig.Core.Pda.{pad_seed_32}
use private_m_of_n_multisig.Circuit.{GuestEnv}
use private_m_of_n_multisig.Verifier.Platform.{Platform}

abbrev pub checksum : Bytes → ℕ
checksum [] = 1
checksum (b ∷ bs) = (b + 3 * checksum bs) % 251

abbrev pub hasher : Hasher
hasher = record { hash = λ x. checksum x ∷ replicate 31 7; length-hash = λ x. refl }

abbrev pub read_slice : ℕ → Bytes → Option (Bytes × Bytes)
read_slice n s = if ltb (length s) n then none else some (take n s, drop n s)

pub read_slice_fills :
    (n : ℕ) (xs rest : Bytes) → length xs ≡ n → read_slice n (xs ++ rest) ≡ some (xs, rest)
read_slice_fills n xs rest h =
    rw
      (
        le→ltb_false (length (xs ++ rest)) n (omega (arith, length-append xs rest)),
        take-append_left n xs rest h,
        drop-append_left n xs rest h,
      )
      refl

pub read_slice_takes :
    (n : ℕ) (s xs rest : Bytes) → read_slice n s ≡ some (xs, rest) → length xs ≡ n
read_slice_takes n s xs rest h = elim (Bool-cases (ltb (length s) n)) [
  | inl short ↦ absurd (let e : none ≡ some (xs, rest) = rw short at h in cc)
  | inr enough ↦
      let taken : take n s ≡ xs = ground arith in
      ap length (sym taken) ∙ length-take n s ∙ ground arith
]

abbrev pub guest_env : GuestEnv
guest_env = record {
  read_slice = read_slice;
  read_slice_fills = read_slice_fills;
  read_slice_takes = read_slice_takes;
}

abbrev pub state_bytes : MultisigState → Bytes
state_bytes s =
    s.m ∷ s.n ∷ s.proposal_count ∷ length s.create_key ∷ (s.create_key ++ s.members_root)

abbrev pub read_state : Bytes → Option MultisigState
read_state (m ∷ n ∷ count ∷ k ∷ rest) = some (record {
  create_key = take k rest;
  members_root = drop k rest;
  m = m;
  n = n;
  proposal_count = count;
})
read_state _ = none

pub read_state_lem :
    (s : MultisigState) (b : Bytes) → some (state_bytes s) ≡ some b → read_state b ≡ some s
read_state_lem s b h =
    let e : state_bytes s ≡ b = ground arith in
    ap read_state (sym e) ∙ λ i. some (record s {
      create_key = take-append_left (length s.create_key) s.create_key s.members_root refl i;
      members_root = drop-append_left (length s.create_key) s.create_key s.members_root refl i;
    })

abbrev pub flag : Bool → ℕ
flag true = 1
flag false = 0

abbrev pub proposal_bytes : Proposal → Bytes
proposal_bytes p =
    p.approvals_count
    ∷ flag p.executed
    ∷ length p.action_bytes
    ∷ (p.action_bytes ++ p.target_program)

abbrev pub read_proposal : Bytes → Option Proposal
read_proposal (count ∷ done ∷ k ∷ rest) = some (record {
  action_bytes = take k rest;
  target_program = drop k rest;
  approvals_count = count;
  executed = done == 1;
})
read_proposal _ = none

flag_lem : (b : Bool) → (flag b == 1) ≡ b
flag_lem true = refl
flag_lem false = refl

pub read_proposal_lem :
    (p : Proposal) (b : Bytes) → some (proposal_bytes p) ≡ some b → read_proposal b ≡ some p
read_proposal_lem p b h =
    let e : proposal_bytes p ≡ b = ground arith in
    ap read_proposal (sym e) ∙ λ i. some (record p {
      action_bytes =
          take-append_left (length p.action_bytes) p.action_bytes p.target_program refl i;
      target_program =
          drop-append_left (length p.action_bytes) p.action_bytes p.target_program refl i;
      executed = flag_lem p.executed i;
    })

-- The data cap is 100 KiB.
abbrev pub to_data : Bytes → Option Bytes
to_data b = if ltb 102400 (length b) then none else some b

pub to_data_lem : (b d : Bytes) → to_data b ≡ some d → d ≡ b
to_data_lem b d h = ground arith

abbrev pub platform : Platform
platform = record {
  states = record {
    to_vec = λ s. some (state_bytes s);
    from_slice = read_state;
    from_slice-to_vec = read_state_lem;
  };
  proposals = record {
    to_vec = λ p. some (proposal_bytes p);
    from_slice = read_proposal;
    from_slice-to_vec = read_proposal_lem;
  };
  to_data = to_data;
  to_data-eq = to_data_lem;
  seed_from_str = pad_seed_32;
  seed_from_str-eq = λ s. refl;
  serde_to_vec = λ b. length b ∷ b;
}
