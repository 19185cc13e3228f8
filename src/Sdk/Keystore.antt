-- ===== src/Sdk/Keystore.antt =====
-- sdk/src/member.rs: `Member::new`, `Member::encrypt` and `Member::from_keystore`. A `Member` is its
-- `Identity`. Random bytes are arguments, `none` where the system's generator fails. Argon2id,
-- ChaCha20-Poly1305 and the derived borsh encoding are parameters. Zeroizing is left out.
pub mod RoundTrip
use private_m_of_n_multisig.Common.{
  ℕ, ◌+◌, ◌≡◌, Option, some, ◌∷◌, [], ◌++◌, Result, ok, err, ◌>>=◌, ◌>>◌, fail_if, ok_or, length,
  slice, ltb,
}
use private_m_of_n_multisig.Common.Bytes.{Bytes}
use private_m_of_n_multisig.Crypto.Identity.{Identity}
use private_m_of_n_multisig.Sdk.Errors.{
  SdkError, keystore_serialization_failed, keystore_decryption_failed,
}

pub record Keystore : Type 0 where
  pub argon_salt : Bytes
  pub nonce : Bytes
  pub ciphertext : Bytes

-- The lengths that Rust's array types fix.
pub record IsKeystore (k : Keystore) : Type 0 where
  pub argon_salt_size : length k.argon_salt ≡ 16
  pub nonce_size : length k.nonce ≡ 12

pub record Ciphers : Type 1 where
  -- `argon2::Params` and `argon2::Params::new(m, t, p, None)`.
  pub Params : Type 0
  pub params : ℕ → ℕ → ℕ → Option Params
  -- Argon2id of a password and a salt, into 32 bytes.
  pub hash_password_into : Params → Bytes → Bytes → Option Bytes
  -- ChaCha20-Poly1305 under a key, a nonce and associated bytes: the ciphertext with its tag.
  pub encrypt_in_place : Bytes → Bytes → Bytes → Bytes → Option Bytes
  pub decrypt_in_place : Bytes → Bytes → Bytes → Bytes → Option Bytes
  pub decrypt-encrypt :
      (key nonce aad plaintext ciphertext : Bytes)
      → encrypt_in_place key nonce aad plaintext ≡ some ciphertext
      → decrypt_in_place key nonce aad ciphertext ≡ some plaintext
  pub length-encrypt :
      (key nonce aad plaintext ciphertext : Bytes)
      → encrypt_in_place key nonce aad plaintext ≡ some ciphertext
      → length ciphertext ≡ length plaintext + 16
  -- The derived borsh encoding, read from a cursor: the value and the bytes that are left.
  pub serialize : Keystore → Option Bytes
  pub deserialize : Bytes → Option (Keystore × Bytes)
  pub deserialize-serialize :
      (k : Keystore) (bytes rest : Bytes)
      → IsKeystore k
      → serialize k ≡ some bytes
      → deserialize (bytes ++ rest) ≡ some (k, rest)

-- How a method ends that gives no value: with an error, or in a panic.
pub data Failure : Type 0 where
  returned : SdkError → Failure
  panicked : Failure

-- `b"private-multisig-keystore-v1"`
abbrev pub aad : Bytes
aad =
    b'p' ∷ b'r' ∷ b'i' ∷ b'v' ∷ b'a' ∷ b't' ∷ b'e' ∷ b'-' ∷ b'm' ∷ b'u' ∷ b'l' ∷ b't' ∷ b'i' ∷ b's'
    ∷ b'i' ∷ b'g' ∷ b'-' ∷ b'k' ∷ b'e' ∷ b'y' ∷ b's' ∷ b't' ∷ b'o' ∷ b'r' ∷ b'e' ∷ b'-' ∷ b'v'
    ∷ b'1' ∷ []

-- `Member::new`
unfoldable pub new : Option Bytes → Option Bytes → Result Failure Identity
new random_sk random_salt = do
  sk ← ok_or random_sk panicked
  salt ← ok_or random_salt panicked
  ok (record { sk = sk; salt = salt })

module _ (C : Ciphers) where
  -- The key that both methods derive from the password; every failure is the error `e`.
  abbrev pub derive_kek : Bytes → Bytes → Failure → Result Failure Bytes
  derive_kek password argon_salt e = do
    argon_params ← ok_or (C.params 65536 3 4) e
    ok_or (C.hash_password_into argon_params password argon_salt) e

  unfoldable pub encrypt : Identity → Bytes → Option Bytes → Option Bytes → Result Failure Bytes
  encrypt member password random_salt random_nonce = do
    argon_salt ← ok_or random_salt panicked
    nonce_bytes ← ok_or random_nonce panicked
    kek ← derive_kek password argon_salt (returned keystore_serialization_failed)
    in_out ←
        ok_or (C.encrypt_in_place kek nonce_bytes aad (member.sk ++ member.salt))
          (returned keystore_serialization_failed)
    ok_or
        (C.serialize (record { argon_salt = argon_salt; nonce = nonce_bytes; ciphertext = in_out }))
        (returned keystore_serialization_failed)

  -- The slices of the plaintext panic where it is too short.
  unfoldable pub from_keystore : Bytes → Bytes → Result Failure Identity
  from_keystore blob password = do
    (ks, _) ← ok_or (C.deserialize blob) (returned keystore_decryption_failed)
    kek ← derive_kek password ks.argon_salt (returned keystore_decryption_failed)
    in_out ←
        ok_or (C.decrypt_in_place kek ks.nonce aad ks.ciphertext)
          (returned keystore_decryption_failed)
    fail_if (ltb (length in_out) 64) panicked
    ok (record { sk = slice in_out 0 32; salt = slice in_out 32 64 })
