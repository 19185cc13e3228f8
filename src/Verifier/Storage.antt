-- ===== src/Verifier/Storage.antt =====
-- What an account holds, and the inversion of the verifier's encoding steps.
use private_m_of_n_multisig.Common.{
  ℕ, ◌+◌, ◌^◌, ◌<◌, ◌≡◌, ap, ◌∙◌, Bool, false, not, some, ok, arith, ◌==◌, fail_if, ok_or,
  ok_or-eq-ok, >>=-eq-ok,
}
use private_m_of_n_multisig.Common.Bytes.{Bytes, bytes_eq, bytes_eq_iff}
use private_m_of_n_multisig.Core.Errors.{serialization_error}
use private_m_of_n_multisig.Verifier.Platform.{AccountWithMetadata, SpelError, Borsh, Platform}
use private_m_of_n_multisig.Verifier.Handlers.{decode, encode, fail, checked_suc}

-- The account holds the encoding of a body.
abbrev pub Holds : {A : Type 0} → Borsh A → AccountWithMetadata → A → Type 0
Holds B a x = B.from_slice a.body ≡ some x

-- A body can be written to an account: it encodes, and fits the data cap.
abbrev pub IsStorable : {A : Type 0} → Platform → Borsh A → A → Type 0
IsStorable P B x = (d : Bytes) × (encode P B x ≡ ok d)

module _ (P : Platform) {A : Type 0} (B : Borsh A) where
  pub decode-Holds : (a : AccountWithMetadata) (x : A) → decode P B a ≡ ok x → Holds B a x
  decode-Holds a x e = ok_or-eq-ok (B.from_slice a.body) _ e

  pub Holds-decode : (a : AccountWithMetadata) (x : A) → Holds B a x → decode P B a ≡ ok x
  Holds-decode a x e = rw e

  -- What has been written is read back.
  pub encode-from_slice : (x : A) (d : Bytes) → encode P B x ≡ ok d → B.from_slice d ≡ some x
  encode-from_slice x d e =
      let (bytes, e1, e2) = >>=-eq-ok (ok_or (B.to_vec x) (fail serialization_error)) _ e in
      ap B.from_slice (P.to_data-eq bytes d (ok_or-eq-ok (P.to_data bytes) _ e2))
      ∙ B.from_slice-to_vec x bytes (ok_or-eq-ok (B.to_vec x) _ e1)

-- The tests of the guards.
pub guard_eq : (x y : ℕ) (e : SpelError) {u : Unit {0}} → fail_if (not (x == y)) e ≡ ok u → x ≡ y
guard_eq x y e h = ground arith

pub guard_bytes :
    (x y : Bytes) (e : SpelError) {u : Unit {0}} → fail_if (not (bytes_eq x y)) e ≡ ok u → x ≡ y
guard_bytes x y e h = ground (arith, bytes_eq_iff x y)

pub guard_false : (b : Bool) (e : SpelError) {u : Unit {0}} → fail_if b e ≡ ok u → b ≡ false
guard_false b e h = ground arith

pub checked_suc-eq-ok :
    (w x y : ℕ) (e : SpelError) → ok_or (checked_suc w x) e ≡ ok y → (y ≡ x + 1) × (x + 1 < 2 ^ w)
checked_suc-eq-ok w x y e h = ground arith

pub checked_suc_ok : (w x : ℕ) → x + 1 < 2 ^ w → checked_suc w x ≡ some (x + 1)
checked_suc_ok w x h = ground arith
