-- ===== src/Tests/Keystore.antt =====
-- Ciphers and an encoding that satisfy what keystores ask of them, and Alice's keystore.
use private_m_of_n_multisig.Common.{
  ◌+◌, ◌-◌, ◌≡◌, refl, sym, ap, ◌∙◌, arith, Option, none, some, [], ◌∷◌, ◌++◌, append_assoc, ok,
  err, length, length-append, take, drop, take-append_left, drop-append_left, replicate, ltb,
  le→ltb_false, if◌then◌else◌,
}
use private_m_of_n_multisig.Common.Bytes.{Bytes, bytes_eq, bytes_eq_refl}
use private_m_of_n_multisig.Sdk.Errors.{keystore_decryption_failed}
use private_m_of_n_multisig.Sdk.Keystore.{
  Keystore, IsKeystore, Ciphers, returned, panicked, aad, encrypt, from_keystore,
}
use private_m_of_n_multisig.Sdk.Keystore.RoundTrip.{
  Outcome, from_keystore-encrypt, from_keystore-Outcome,
}
use private_m_of_n_multisig.Tests.Toy.{checksum, hasher}
use private_m_of_n_multisig.Tests.Scenario.{alice, alice-IsIdentity}

-- A tag of 16 bytes that depends on all that goes in.
abbrev tag : Bytes → Bytes → Bytes → Bytes → Bytes
tag key nonce aad' plaintext = replicate 16 (checksum (key ++ (nonce ++ (aad' ++ plaintext))))

abbrev seal : Bytes → Bytes → Bytes → Bytes → Option Bytes
seal key nonce aad' plaintext = some (plaintext ++ tag key nonce aad' plaintext)

abbrev unseal : Bytes → Bytes → Bytes → Bytes → Option Bytes
unseal key nonce aad' ciphertext =
    let n = length ciphertext - 16 in
    if bytes_eq (drop n ciphertext) (tag key nonce aad' (take n ciphertext))
    then some (take n ciphertext)
    else none

unwrap : {A : Type 0} {x y : A} → some x ≡ some y → x ≡ y
unwrap e = cc

unseal-seal :
    (key nonce aad' plaintext c : Bytes)
    → seal key nonce aad' plaintext ≡ some c
    → unseal key nonce aad' c ≡ some plaintext
unseal-seal key nonce aad' plaintext c e =
    let t = tag key nonce aad' plaintext in
    let n : length plaintext ≡ length (plaintext ++ t) - 16 =
      omega (arith, length-append plaintext t) in
    ap (unseal key nonce aad') (sym (unwrap e))
    ∙ rw
        (
          take-append_left (length (plaintext ++ t) - 16) plaintext t n,
          drop-append_left (length (plaintext ++ t) - 16) plaintext t n,
          bytes_eq_refl t,
        )
        refl

length-seal :
    (key nonce aad' plaintext c : Bytes)
    → seal key nonce aad' plaintext ≡ some c
    → length c ≡ length plaintext + 16
length-seal key nonce aad' plaintext c e =
    ap (λ (l : Bytes). length l) (sym (unwrap e))
    ∙ length-append plaintext (tag key nonce aad' plaintext)

abbrev serialize : Keystore → Option Bytes
serialize k = some (k.argon_salt ++ (k.nonce ++ (length k.ciphertext ∷ k.ciphertext)))

abbrev sized : Bytes → Bytes → Bytes → Option (Keystore × Bytes)
sized salt nonce [] = none
sized salt nonce (n ∷ rest) =
    if ltb (length rest) n
    then none
    else some (record { argon_salt = salt; nonce = nonce; ciphertext = take n rest }, drop n rest)

abbrev deserialize : Bytes → Option (Keystore × Bytes)
deserialize b = sized (take 16 b) (take 12 (drop 16 b)) (drop 12 (drop 16 b))

deserialize-serialize :
    (k : Keystore) (bytes rest : Bytes)
    → IsKeystore k
    → serialize k ≡ some bytes
    → deserialize (bytes ++ rest) ≡ some (k, rest)
deserialize-serialize k bytes rest w e =
    let c = k.ciphertext in
    let tail = length c ∷ (c ++ rest) in
    let joined : bytes ++ rest ≡ k.argon_salt ++ (k.nonce ++ tail) =
      ap (λ (l : Bytes). l ++ rest) (sym (unwrap e))
      ∙ append_assoc k.argon_salt (k.nonce ++ (length c ∷ c)) rest
      ∙ ap (λ (l : Bytes). k.argon_salt ++ l) (append_assoc k.nonce (length c ∷ c) rest) in
    ap deserialize joined
    ∙ rw
        (
          take-append_left 16 k.argon_salt (k.nonce ++ tail) w.argon_salt_size,
          drop-append_left 16 k.argon_salt (k.nonce ++ tail) w.argon_salt_size,
          take-append_left 12 k.nonce tail w.nonce_size,
          drop-append_left 12 k.nonce tail w.nonce_size,
          le→ltb_false (length (c ++ rest)) (length c) (omega (arith, length-append c rest)),
          take-append_left (length c) c rest refl,
          drop-append_left (length c) c rest refl,
        )
        refl

abbrev ciphers : Ciphers
ciphers = record {
  Params = Unit {0};
  params = λ m t p. some tt;
  hash_password_into = λ p password salt. some (hasher.hash (password ++ salt));
  encrypt_in_place = seal;
  decrypt_in_place = unseal;
  decrypt-encrypt = unseal-seal;
  length-encrypt = length-seal;
  serialize = serialize;
  deserialize = deserialize;
  deserialize-serialize = deserialize-serialize;
}

abbrev password : Bytes
password = b'h' ∷ b'u' ∷ b'n' ∷ b't' ∷ b'e' ∷ b'r' ∷ b'2' ∷ []

abbrev salt : Bytes
salt = replicate 16 5

abbrev nonce : Bytes
nonce = replicate 12 6

abbrev blob : Bytes
blob =
    salt
    ++ (nonce
        ++ (80
            ∷ ((alice.sk ++ alice.salt)
                ++ tag (hasher.hash (password ++ salt)) nonce aad (alice.sk ++ alice.salt))))

encrypt_lem : encrypt ciphers alice password (some salt) (some nonce) ≡ ok blob
unfolding encrypt
encrypt_lem = refl

-- Two more bytes after the blob.
from_keystore-encrypt_example : from_keystore ciphers (blob ++ (0 ∷ 9 ∷ [])) password ≡ ok alice
from_keystore-encrypt_example =
    from_keystore-encrypt ciphers alice password salt nonce blob (0 ∷ 9 ∷ []) alice-IsIdentity refl
      refl encrypt_lem

-- Another password.
wrong_password : from_keystore ciphers blob (1 ∷ []) ≡ err (returned keystore_decryption_failed)
unfolding from_keystore bytes_eq
wrong_password = refl

-- A blob whose ciphertext holds three bytes under the password.
abbrev short_blob : Bytes
short_blob =
    salt
    ++ (nonce
        ++ (19
            ∷ ((1 ∷ 2 ∷ 3 ∷ [])
                ++ tag (hasher.hash (password ++ salt)) nonce aad (1 ∷ 2 ∷ 3 ∷ []))))

short_panics : from_keystore ciphers short_blob password ≡ err panicked
unfolding from_keystore bytes_eq
short_panics = refl

from_keystore-Outcome_example :
    Outcome ciphers short_blob password (from_keystore ciphers short_blob password)
from_keystore-Outcome_example = from_keystore-Outcome ciphers short_blob password
