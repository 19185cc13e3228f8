-- ===== src/E2e/Quickstart/Exit.antt =====
-- What the exit code of the quickstart tells.
use private_m_of_n_multisig.Common.{
  ℕ, ◌^◌, ◌≤◌, ◌<◌, ◌≡◌, ◌⊎◌, refl, ap, subst, ◌∙◌, arith, Bool, true, false, Option, none, some,
  List, [], ◌∷◌, Result, ok, err, ok_or, ok_or-eq-ok, >>=-eq-ok, length, ltb→lt, if◌then◌else◌,
  Bool-cases, inl, inr,
}
use private_m_of_n_multisig.Common.Bytes.{Bytes, bytes_eq, bytes_eq_iff}
use private_m_of_n_multisig.Crypto.Hash.{Hasher}
use private_m_of_n_multisig.Circuit.{GuestEnv}
use private_m_of_n_multisig.Sdk.Prover.Proving.{Risc0}
use private_m_of_n_multisig.Verifier.Ledger.Tally.{IsDistinct}
use private_m_of_n_multisig.E2e.Quickstart.{QuickError, keygen_panicked, run_layer_a}
use private_m_of_n_multisig.E2e.Quickstart.Runs.{run_layer_a-IsDistinct}
use private_m_of_n_multisig.E2e.Quickstart.Arguments.{
  layer_a, testnet, mode_flag, action_flag, is_threshold, is_members, is_help, Args, ArgsError,
  unknown_argument, not_an_integer, help_shown, in_range, number, parse, set_option, parse_from,
  parse_args, finish, exit_of, run_mode, main,
}

-- A u8 and a usize.
abbrev InRange : Args → Type 0
InRange a = (a.threshold < 2 ^ 8) × (a.members < 2 ^ 64)

in_range-eq-some : (w : ℕ) (o : Option ℕ) {n : ℕ} → in_range w o ≡ some n → n < 2 ^ w
in_range-eq-some w none h = cc
in_range-eq-some w (some value) h = ground (arith, ltb→lt value (2 ^ w))

parse-eq-ok :
    (w : ℕ) (text : Bytes) {n : ℕ} → ok_or (parse w text) not_an_integer ≡ ok n → n < 2 ^ w
unfolding parse
parse-eq-ok w text h =
    in_range-eq-some w (number text) (ok_or-eq-ok (parse w text) not_an_integer h)

-- The branches of a test.
if-cases :
    {A : Type 0} (P : A → Type 0) (b : Bool) (x y : Result ArgsError A)
    → ((a : A) → x ≡ ok a → P a)
    → ((a : A) → y ≡ ok a → P a)
    → (a : A) → (if b then x else y) ≡ ok a
    → P a
if-cases P true x y px py a h = px a h
if-cases P false x y px py a h = py a h

set_option-InRange :
    (a : Args) (flag value : Bytes)
    → InRange a
    → (b : Args) → set_option a flag value ≡ ok b
    → InRange b
unfolding set_option
set_option-InRange a flag value w =
    if-cases InRange (bytes_eq flag mode_flag) _ _
      (λ b h. let e : record a { mode = value } ≡ b = cc in subst InRange e w)
      (if-cases InRange (is_threshold flag) _ _
        (λ b h.
          let (m, r, h1) = >>=-eq-ok (ok_or (parse 8 value) not_an_integer) _ h in
          let e : record a { threshold = m } ≡ b = cc in
          subst InRange e (parse-eq-ok 8 value r, w.1))
        (if-cases InRange (is_members flag) _ _
          (λ b h.
            let (n, r, h1) = >>=-eq-ok (ok_or (parse 64 value) not_an_integer) _ h in
            let e : record a { members = n } ≡ b = cc in
            subst InRange e (w.0, parse-eq-ok 64 value r))
          (if-cases InRange (bytes_eq flag action_flag) _ _
            (λ b h. let e : record a { action = value } ≡ b = cc in subst InRange e w)
            (if-cases InRange (is_help flag) (err help_shown) (err unknown_argument) (λ b h. cc)
              (λ b h. cc)))))

parse_from-InRange :
    (a : Args) (args : List Bytes) → InRange a → (b : Args) → parse_from a args ≡ ok b → InRange b
unfolding parse_from
parse_from-InRange a [] w b h = let e : a ≡ b = cc in subst InRange e w
parse_from-InRange a (flag ∷ []) w b h = cc
parse_from-InRange a (flag ∷ value ∷ rest) w b h =
    let (a', s, h1) = >>=-eq-ok (set_option a flag value) _ h in
    parse_from-InRange a' rest (set_option-InRange a flag value w a' s) b h1

parse_args-InRange : (args : List Bytes) (b : Args) → parse_args args ≡ ok b → InRange b
unfolding parse_args
parse_args-InRange args b h = parse_from-InRange _ args (omega arith, omega arith) b h

module _ (H : Hasher) (E : GuestEnv) (R : Risc0 H E) (var : Option Bytes)
    (circuit_id noop_id : List ℕ) (random : ℕ → Option Bytes × Option Bytes) where
  -- A run that ended well, and what it has shown.
  pub record Collected (a : Args) : Type 0 where
    pub nullifiers : List Bytes
    pub is_layer_a : a.mode ≡ layer_a
    pub ran :
        run_layer_a H E R var circuit_id noop_id random a.threshold a.members a.action
        ≡ ok (nullifiers, a.threshold)
    pub at_least_one : 1 ≤ a.threshold
    pub in_u8 : a.threshold < 256
    pub reachable : a.threshold ≤ a.members
    pub as_many : length nullifiers ≡ a.threshold
    pub distinct : IsDistinct nullifiers

  finish-Collected :
      (a : Args) (r : Result QuickError (List Bytes × ℕ))
      → run_layer_a H E R var circuit_id noop_id random a.threshold a.members a.action ≡ r
      → a.mode ≡ layer_a
      → InRange a
      → finish r ≡ 0
      → Collected a
  finish-Collected a (err keygen_panicked) ran mode w h = absurd (omega (arith, h))
  finish-Collected a (err _) ran mode w h = absurd (omega (arith, h))
  finish-Collected a (ok (ns, k)) ran mode w h =
      let (low, high, count, size, distinct) =
        run_layer_a-IsDistinct H E R var circuit_id noop_id random a.threshold a.members a.action ns
          k ran in
      record {
        nullifiers = ns;
        is_layer_a = mode;
        ran = ran ∙ ap (λ n. ok (ns, n)) count;
        at_least_one = low;
        in_u8 = omega (arith, w.0);
        reachable = high;
        as_many = size;
        distinct = distinct;
      }

  run_mode-Collected :
      (a : Args) → InRange a → run_mode H E R var circuit_id noop_id random a ≡ 0 → Collected a
  run_mode-Collected a w h = elim (Bool-cases (bytes_eq a.mode layer_a)) [
    | inl same ↦ finish-Collected a _ refl ((bytes_eq_iff a.mode layer_a).0 same) w (rw same at h)
    | inr differ ↦ absurd (elim (Bool-cases (bytes_eq a.mode testnet)) [
      | inl t ↦ let e : ◌≡◌ {A = ℕ} 1 0 = rw (differ, t) at h in omega (arith, e)
      | inr f ↦ let e : ◌≡◌ {A = ℕ} 2 0 = rw (differ, f) at h in omega (arith, e)
    ])
  ]

  exit_of-Collected :
      (r : Result ArgsError Args)
      → ((a : Args) → r ≡ ok a → InRange a)
      → exit_of H E R var circuit_id noop_id random r ≡ 0
      → (r ≡ err help_shown) ⊎ ((a : Args) × (r ≡ ok a) × Collected a)
  exit_of-Collected (ok a) w h = inr (a, refl, run_mode-Collected a (w a refl) h)
  exit_of-Collected (err help_shown) w h = inl refl
  exit_of-Collected (err _) w h = absurd (omega (arith, h))

  -- Exit code 0 of the quickstart means that it showed its help, or that its arguments asked for
  -- the mode layer-a with a threshold from 1 to 255 and no more than the number of members, and
  -- that the run recorded as many approvals as the threshold, with as many nullifiers, no two of
  -- them equal.
  pub main-Collected :
      (args : List Bytes)
      → main H E R var circuit_id noop_id random args ≡ 0
      → (parse_args args ≡ err help_shown) ⊎ ((a : Args) × (parse_args args ≡ ok a) × Collected a)
  unfolding main
  main-Collected args h = exit_of-Collected (parse_args args) (parse_args-InRange args) h
