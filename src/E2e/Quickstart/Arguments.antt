-- ===== src/E2e/Quickstart/Arguments.antt =====
-- e2e_tests/src/bin/quickstart.rs: `parse_args` and `main`, with the exit code as the result. The
-- arguments are those after the program's name. Texts are their bytes.
use private_m_of_n_multisig.Common.{
  ℕ, ◌+◌, ◌-◌, ◌*◌, ◌^◌, Bool, ◌&&◌, ◌||◌, Option, none, some, List, [], ◌∷◌, Result, ok, err,
  ◌>>=◌, ok_or, ltb, leb, if◌then◌else◌,
}
use private_m_of_n_multisig.Common.Bytes.{Bytes, bytes_eq}
use private_m_of_n_multisig.Crypto.Hash.{Hasher}
use private_m_of_n_multisig.Circuit.{GuestEnv}
use private_m_of_n_multisig.Sdk.Prover.Proving.{Risc0}
use private_m_of_n_multisig.E2e.Quickstart.{QuickError, keygen_panicked, run_layer_a}

-- The texts that the program compares with, under the names of what they stand for.
abbrev pub mode_flag : Bytes
mode_flag = b'-' ∷ b'-' ∷ b'm' ∷ b'o' ∷ b'd' ∷ b'e' ∷ []

abbrev pub threshold_flag : Bytes
threshold_flag = b'-' ∷ b'-' ∷ b't' ∷ b'h' ∷ b'r' ∷ b'e' ∷ b's' ∷ b'h' ∷ b'o' ∷ b'l' ∷ b'd' ∷ []

abbrev pub members_flag : Bytes
members_flag = b'-' ∷ b'-' ∷ b'm' ∷ b'e' ∷ b'm' ∷ b'b' ∷ b'e' ∷ b'r' ∷ b's' ∷ []

abbrev pub action_flag : Bytes
action_flag = b'-' ∷ b'-' ∷ b'a' ∷ b'c' ∷ b't' ∷ b'i' ∷ b'o' ∷ b'n' ∷ []

abbrev pub help_flag : Bytes
help_flag = b'-' ∷ b'-' ∷ b'h' ∷ b'e' ∷ b'l' ∷ b'p' ∷ []

abbrev pub layer_a : Bytes
layer_a = b'l' ∷ b'a' ∷ b'y' ∷ b'e' ∷ b'r' ∷ b'-' ∷ b'a' ∷ []

abbrev pub testnet : Bytes
testnet = b't' ∷ b'e' ∷ b's' ∷ b't' ∷ b'n' ∷ b'e' ∷ b't' ∷ []

abbrev pub default_action : Bytes
default_action =
    b'q' ∷ b'u' ∷ b'i' ∷ b'c' ∷ b'k' ∷ b's' ∷ b't' ∷ b'a' ∷ b'r' ∷ b't' ∷ b'-' ∷ b'd' ∷ b'e' ∷ b'm'
    ∷ b'o' ∷ b'-' ∷ b'a' ∷ b'c' ∷ b't' ∷ b'i' ∷ b'o' ∷ b'n' ∷ []

pub record Args : Type 0 where
  pub mode : Bytes
  pub threshold : ℕ
  pub members : ℕ
  pub action : Bytes

pub data ArgsError : Type 0 where
  requires_value not_an_integer unknown_argument : ArgsError
  -- `print_help` and `exit(0)`.
  help_shown : ArgsError

abbrev pub digits : Bytes → ℕ → Option ℕ
digits [] value = some value
digits (c ∷ rest) value =
    if leb b'0' c && leb c b'9' then digits rest (value * 10 + (c - b'0')) else none

abbrev pub number : Bytes → Option ℕ
number [] = none
number (c ∷ []) = digits (c ∷ []) 0
number (c ∷ d ∷ rest) =
    if bytes_eq (c ∷ []) (b'+' ∷ []) then digits (d ∷ rest) 0 else digits (c ∷ d ∷ rest) 0

abbrev pub in_range : ℕ → Option ℕ → Option ℕ
in_range w none = none
in_range w (some value) = if ltb value (2 ^ w) then some value else none

-- `str::parse` into an unsigned integer of w bits.
unfoldable pub parse : ℕ → Bytes → Option ℕ
parse w text = in_range w (number text)

abbrev pub is_threshold : Bytes → Bool
is_threshold flag = bytes_eq flag (b'-' ∷ b'm' ∷ []) || bytes_eq flag threshold_flag

abbrev pub is_members : Bytes → Bool
is_members flag = bytes_eq flag (b'-' ∷ b'n' ∷ []) || bytes_eq flag members_flag

abbrev pub is_help : Bytes → Bool
is_help flag = bytes_eq flag (b'-' ∷ b'h' ∷ []) || bytes_eq flag help_flag

-- One round of the loop, at a flag that has an argument after it.
unfoldable pub set_option : Args → Bytes → Bytes → Result ArgsError Args
set_option a flag value =
    if bytes_eq flag mode_flag
    then ok (record a { mode = value })
    else if is_threshold flag
    then ok_or (parse 8 value) not_an_integer >>= (λ m. ok (record a { threshold = m }))
    else if is_members flag
    then ok_or (parse 64 value) not_an_integer >>= (λ n. ok (record a { members = n }))
    else if bytes_eq flag action_flag
    then ok (record a { action = value })
    else if is_help flag
    then err help_shown
    else err unknown_argument

-- The same at the last argument.
unfoldable pub last_option : Bytes → ArgsError
last_option flag =
    if bytes_eq flag mode_flag || is_threshold flag || is_members flag || bytes_eq flag action_flag
    then requires_value
    else if is_help flag
    then help_shown
    else unknown_argument

unfoldable pub parse_from : Args → List Bytes → Result ArgsError Args
unfolding set_option last_option
parse_from a [] = ok a
parse_from a (flag ∷ []) = err (last_option flag)
parse_from a (flag ∷ value ∷ rest) = set_option a flag value >>= λ a'. parse_from a' rest

unfoldable pub parse_args : List Bytes → Result ArgsError Args
unfolding parse_from
parse_args args =
    parse_from (record { mode = layer_a; threshold = 2; members = 3; action = default_action }) args

-- How a run ends that failed: a panic of `Member::new` leaves `main` with Rust's code 101, any
-- other error is printed.
abbrev pub failure_code : QuickError → ℕ
failure_code keygen_panicked = 101
failure_code _ = 1

-- The exit code of a run of the mode.
abbrev pub finish : {A : Type 0} → Result QuickError A → ℕ
finish (ok a) = 0
finish (err e) = failure_code e

module _ (H : Hasher) (E : GuestEnv) (R : Risc0 H E) (var : Option Bytes)
    (circuit_id noop_id : List ℕ) (random : ℕ → Option Bytes × Option Bytes) where
  abbrev pub layer_a_run : Args → Result QuickError (List Bytes × ℕ)
  layer_a_run a = run_layer_a H E R var circuit_id noop_id random a.threshold a.members a.action

  -- `run_testnet_stub` always fails.
  abbrev pub run_mode : Args → ℕ
  run_mode a =
      if bytes_eq a.mode layer_a
      then finish (layer_a_run a)
      else if bytes_eq a.mode testnet
      then 1
      else 2

  abbrev pub exit_of : Result ArgsError Args → ℕ
  exit_of (ok a) = run_mode a
  exit_of (err help_shown) = 0
  exit_of (err _) = 2

  unfoldable pub main : List Bytes → ℕ
  main args = exit_of (parse_args args)
