-- ===== src/Sdk/Keystore/RoundTrip.antt =====
-- Keystores written by `encrypt` and read by `from_keystore`, and all that `from_keystore` can do.
use private_m_of_n_multisig.Common.{
  ◌<◌, ◌≤◌, ltb→lt, [], ◌≡◌, ◌⊎◌, inl, inr, refl, sym, ap, ap₂, ◌∙◌, arith, some, ◌++◌, Result, ok,
  err, length, length-append, slice, slice-prefix, slice-middle, append-nil, >>=-eq-ok, ok_or-eq-ok,
  Bool-cases, Option-cases, le→ltb_false, ltb_false→le, ltb,
}
use private_m_of_n_multisig.Common.Bytes.{Bytes}
use private_m_of_n_multisig.Crypto.Identity.{Identity, IsIdentity}
use private_m_of_n_multisig.Sdk.Errors.{keystore_serialization_failed, keystore_decryption_failed}
use private_m_of_n_multisig.Sdk.Keystore.{
  Keystore, Ciphers, Failure, returned, panicked, aad, derive_kek, encrypt, from_keystore,
}

some_eq : {A : Type 0} {x y : A} → some x ≡ some y → x ≡ y
some_eq e = cc

module _ (C : Ciphers) where
  -- What a blob holds under a password: its keystore, the derived key and the plaintext.
  pub record Opens (blob password : Bytes) : Type 0 where
    pub ks : Keystore
    pub rest : Bytes
    pub params : C.Params
    pub kek : Bytes
    pub in_out : Bytes
    pub decoded : C.deserialize blob ≡ some (ks, rest)
    pub allowed : C.params 65536 3 4 ≡ some params
    pub derived : C.hash_password_into params password ks.argon_salt ≡ some kek
    pub decrypted : C.decrypt_in_place kek ks.nonce aad ks.ciphertext ≡ some in_out

  -- What `encrypt` has written once it succeeds.
  record Written (member : Identity) (password salt nonce blob : Bytes) : Type 0 where
    params : C.Params
    kek : Bytes
    in_out : Bytes
    allowed : C.params 65536 3 4 ≡ some params
    derived : C.hash_password_into params password salt ≡ some kek
    encrypted : C.encrypt_in_place kek nonce aad (member.sk ++ member.salt) ≡ some in_out
    serialized :
        C.serialize (record { argon_salt = salt; nonce = nonce; ciphertext = in_out }) ≡ some blob

  encrypt-Written :
      (member : Identity) (password salt nonce blob : Bytes)
      → encrypt C member password (some salt) (some nonce) ≡ ok blob
      → Written member password salt nonce blob
  unfolding encrypt
  encrypt-Written member password salt nonce blob e =
      let (kek, e1, e2) =
        >>=-eq-ok (derive_kek C password salt (returned keystore_serialization_failed)) _ e in
      let (params, p1, p2) = >>=-eq-ok _ _ e1 in
      let (in_out, c1, c2) = >>=-eq-ok _ _ e2 in
      record {
        params = params;
        kek = kek;
        in_out = in_out;
        allowed = ok_or-eq-ok _ _ p1;
        derived = ok_or-eq-ok _ _ p2;
        encrypted = ok_or-eq-ok _ _ c1;
        serialized = ok_or-eq-ok _ _ c2;
      }

  Opens-from_keystore :
      (blob password : Bytes) (o : Opens blob password)
      → (64 ≤ length o.in_out)
      → from_keystore C blob password
        ≡ ok (record { sk = slice o.in_out 0 32; salt = slice o.in_out 32 64 })
  unfolding from_keystore
  Opens-from_keystore blob password o h =
      rw (o.decoded, o.allowed, o.derived, o.decrypted, le→ltb_false (length o.in_out) 64 h) refl

  -- What `encrypt` returns for a member with a salt of 16 and a nonce of 12 random bytes is the
  -- encoding of a keystore with just that salt and nonce, and its ciphertext has 80 bytes.
  pub encrypt-ciphertext :
      (member : Identity) (password salt nonce blob : Bytes)
      → IsIdentity member
      → length salt ≡ 16
      → length nonce ≡ 12
      → encrypt C member password (some salt) (some nonce) ≡ ok blob
      → (ks : Keystore) × (C.deserialize blob ≡ some (ks, []))
        × (ks.argon_salt ≡ salt)
        × (ks.nonce ≡ nonce)
        × (length ks.ciphertext ≡ 80)
  encrypt-ciphertext member password salt nonce blob i hs hn e =
      let w = encrypt-Written member password salt nonce blob e in
      let ks : Keystore = record { argon_salt = salt; nonce = nonce; ciphertext = w.in_out } in
      (
        ks,
        ap C.deserialize (sym (append-nil blob))
            ∙ C.deserialize-serialize ks blob [] (record { argon_salt_size = hs; nonce_size = hn })
                w.serialized,
        refl,
        refl,
        C.length-encrypt w.kek nonce aad (member.sk ++ member.salt) w.in_out w.encrypted
            ∙ omega (arith, length-append member.sk member.salt, i.sk_size, i.salt_size),
      )

  -- A blob that `encrypt` made for a member with a 16-byte salt and a 12-byte nonce, with any bytes
  -- after it, gives that member back from `from_keystore` with the same password.
  pub from_keystore-encrypt :
      (member : Identity) (password salt nonce blob trailing : Bytes)
      → IsIdentity member
      → length salt ≡ 16
      → length nonce ≡ 12
      → encrypt C member password (some salt) (some nonce) ≡ ok blob
      → from_keystore C (blob ++ trailing) password ≡ ok member
  from_keystore-encrypt member password salt nonce blob trailing i hs hn e =
      let w = encrypt-Written member password salt nonce blob e in
      let ks : Keystore = record { argon_salt = salt; nonce = nonce; ciphertext = w.in_out } in
      let plaintext = member.sk ++ member.salt in
      let size : 64 ≤ length plaintext =
        omega (arith, length-append member.sk member.salt, i.sk_size, i.salt_size) in
      let salt_back : slice plaintext 32 64 ≡ member.salt =
        ap (λ (l : Bytes). slice (member.sk ++ l) 32 64) (sym (append-nil member.salt))
        ∙ slice-middle 32 32 member.sk member.salt [] i.sk_size i.salt_size in
      Opens-from_keystore (blob ++ trailing) password
        (record {
          ks = ks;
          rest = trailing;
          params = w.params;
          kek = w.kek;
          in_out = plaintext;
          decoded =
              C.deserialize-serialize ks blob trailing
                (record { argon_salt_size = hs; nonce_size = hn }) w.serialized;
          allowed = w.allowed;
          derived = w.derived;
          decrypted = C.decrypt-encrypt w.kek nonce aad plaintext w.in_out w.encrypted;
        })
        size
      ∙ λ j.
          ok (record { sk = slice-prefix 32 member.sk member.salt i.sk_size j; salt = salt_back j })

  -- The outcomes of reading a blob with a password.
  pub data Outcome (blob password : Bytes) : Result Failure Identity → Type 0 where
    closed :
        ¬ Opens blob password → Outcome blob password (err (returned keystore_decryption_failed))
    short : (o : Opens blob password) → length o.in_out < 64 → Outcome blob password (err panicked)
    read :
        (o : Opens blob password)
        → 64 ≤ length o.in_out
        → Outcome blob password
            (ok (record { sk = slice o.in_out 0 32; salt = slice o.in_out 32 64 }))

  -- What a blob holds is determined by the results of its steps.
  Opens-steps :
      (blob password : Bytes) (ks : Keystore) (rest : Bytes) (params : C.Params)
      → C.deserialize blob ≡ some (ks, rest)
      → C.params 65536 3 4 ≡ some params
      → (o : Opens blob password)
      → (C.hash_password_into params password ks.argon_salt ≡ some o.kek)
        × (C.decrypt_in_place o.kek ks.nonce aad ks.ciphertext ≡ some o.in_out)
  Opens-steps blob password ks rest params d p o =
      let same_ks : o.ks ≡ ks = ap (λ (r : Keystore × Bytes). r.0) (some_eq (sym o.decoded ∙ d)) in
      let same_params : o.params ≡ params = some_eq (sym o.allowed ∙ p) in
      (
        ap₂ (λ q (k : Keystore). C.hash_password_into q password k.argon_salt) (sym same_params)
              (sym same_ks)
            ∙ o.derived,
        ap (λ (k : Keystore). C.decrypt_in_place o.kek k.nonce aad k.ciphertext) (sym same_ks)
            ∙ o.decrypted,
      )

  -- Either every step up to the decryption succeeds, or one fails and its error is returned.
  Opens-cases :
      (blob password : Bytes)
      → Opens blob password
        ⊎ ((¬ Opens blob password)
            × (from_keystore C blob password ≡ err (returned keystore_decryption_failed)))
  unfolding from_keystore
  Opens-cases blob password = elim (Option-cases (C.deserialize blob)) [
    | inl e ↦ inr (λ o. absurd (let d = o.decoded in cc), rw e refl)
    | inr ((ks, rest), d) ↦ elim (Option-cases (C.params 65536 3 4)) [
      | inl e ↦ inr (λ o. absurd (let p = o.allowed in cc), rw (d, e) refl)
      | inr (params, p) ↦ elim (Option-cases (C.hash_password_into params password ks.argon_salt)) [
        | inl e ↦ inr (
          λ o. absurd (let h = (Opens-steps blob password ks rest params d p o).0 in cc),
          rw (d, p, e) refl,
        )
        | inr (kek, k) ↦ elim (Option-cases (C.decrypt_in_place kek ks.nonce aad ks.ciphertext)) [
          | inl e ↦ inr (
            λ o. absurd (let (h, x) = Opens-steps blob password ks rest params d p o in cc),
            rw (d, p, k, e) refl,
          )
          | inr (in_out, x) ↦ inl (record {
            ks = ks;
            rest = rest;
            params = params;
            kek = kek;
            in_out = in_out;
            decoded = d;
            allowed = p;
            derived = k;
            decrypted = x;
          })
        ]
      ]
    ]
  ]

  -- `from_keystore` returns `KeystoreDecryptionFailed` exactly where the blob does not decode, the
  -- key cannot be derived or the ciphertext does not decrypt. Where all of that succeeds, it panics
  -- on a plaintext of fewer than 64 bytes, and on any other returns the member with the first 32
  -- bytes as its secret key and the next 32 as its salt.
  pub from_keystore-Outcome :
      (blob password : Bytes) → Outcome blob password (from_keystore C blob password)
  unfolding from_keystore
  from_keystore-Outcome blob password = elim (Opens-cases blob password) [
    | inr (shut, e) ↦ rw e (closed shut)
    | inl o ↦ elim (Bool-cases (ltb (length o.in_out) 64)) [
      | inl few ↦
          rw (o.decoded, o.allowed, o.derived, o.decrypted, few)
            (short o (ltb→lt (length o.in_out) 64 few))
      | inr enough ↦
          rw (Opens-from_keystore blob password o (ltb_false→le (length o.in_out) 64 enough))
            (read o (ltb_false→le (length o.in_out) 64 enough))
    ]
  ]
