-- ===== src/Sdk/Store.antt =====
-- sdk/src/session.rs: `SessionKey` and `SessionStore`. The sled tree and the mutex are parameters:
-- a failing call gives a message. A session's borsh encoding is a parameter too.
pub mod Scan
use private_m_of_n_multisig.Common.{
  ◌≡◌, ◌≢◌, refl, sym, ◌∙◌, ◌⊎◌, inl, inr, Option, none, some, ◌++◌, Result, ok, err, ◌>>=◌, ◌>>◌,
  ok_or, ok_or-eq-ok, >>=-eq-ok, Result-cases, length, append-injective,
}
use private_m_of_n_multisig.Common.Bytes.{Bytes}
use private_m_of_n_multisig.Verifier.Platform.{Borsh}
use private_m_of_n_multisig.Sdk.Errors.{
  SdkError, session_store_open_failed, session_not_found, session_corrupted,
  borsh_serialization_failed,
}
use private_m_of_n_multisig.Sdk.Session.{ApprovalSession}

-- Either a call answers so, or it fails.
abbrev pub OrFails : {A : Type 0} → Result Bytes A → A → Type 0
OrFails r a = (r ≡ ok a) ⊎ ((message : Bytes) × (r ≡ err message))

pub record Sled : Type 1 where
  pub Tree : Type 0
  -- Takes the mutex around the tree, which fails once it is poisoned.
  pub lock : Tree → Result Bytes (Unit {0})
  pub insert : Tree → Bytes → Bytes → Result Bytes Tree
  pub get : Tree → Bytes → Result Bytes (Option Bytes)
  pub remove : Tree → Bytes → Result Bytes Tree
  pub get-insert :
      (t t' : Tree) (key value : Bytes)
      → insert t key value ≡ ok t'
      → OrFails (get t' key) (some value)
  pub get-insert_other :
      (t t' : Tree) (key value other : Bytes) (found : Option Bytes)
      → insert t key value ≡ ok t'
      → other ≢ key
      → get t other ≡ ok found
      → OrFails (get t' other) found
  pub get-remove : (t t' : Tree) (key : Bytes) → remove t key ≡ ok t' → OrFails (get t' key) none

-- `SessionKey::to_vec`: three arrays of 32 bytes, in borsh.
unfoldable pub session_key : Bytes → Bytes → Bytes → Bytes
session_key instance_pda proposal_id commitment = instance_pda ++ (proposal_id ++ commitment)

abbrev pub storage : {A : Type 0} → Result Bytes A → Result SdkError A
storage (err message) = err (session_store_open_failed message)
storage (ok a) = ok a

module _ (S : Sled) (B : Borsh ApprovalSession) where
  unfoldable pub save : S.Tree → ApprovalSession → Result SdkError S.Tree
  save t session = do
    let key_bytes = session_key session.instance_pda session.proposal_id session.member_commitment
    value_bytes ← ok_or (B.to_vec session) borsh_serialization_failed
    storage (S.lock t)
    storage (S.insert t key_bytes value_bytes)

  unfoldable pub load : S.Tree → Bytes → Bytes → Bytes → Result SdkError ApprovalSession
  load t instance_pda proposal_id commitment = do
    let key_bytes = session_key instance_pda proposal_id commitment
    storage (S.lock t)
    found ← storage (S.get t key_bytes)
    value_bytes ← ok_or found session_not_found
    ok_or (B.from_slice value_bytes) session_corrupted

  unfoldable pub delete : S.Tree → Bytes → Bytes → Bytes → Result SdkError S.Tree
  delete t instance_pda proposal_id commitment = do
    let key_bytes = session_key instance_pda proposal_id commitment
    storage (S.lock t)
    storage (S.remove t key_bytes)

  -- A result, or an error of the storage layer.
  abbrev pub Answers : {A : Type 0} → Result SdkError A → Result SdkError A → Type 0
  Answers r expected =
      (r ≡ expected) ⊎ ((message : Bytes) × (r ≡ err (session_store_open_failed message)))

  pub storage-eq-ok : {A : Type 0} (r : Result Bytes A) {a : A} → storage r ≡ ok a → r ≡ ok a
  storage-eq-ok (err message) h = cc
  storage-eq-ok (ok a) h = cc

  -- `load`, once it is known what the tree has at the key.
  pub load-Answers :
      (t : S.Tree) (pda id commitment : Bytes) (found : Option Bytes)
      → OrFails (S.get t (session_key pda id commitment)) found
      → Answers
          (load t pda id commitment)
          (ok_or found session_not_found >>= λ v. ok_or (B.from_slice v) session_corrupted)
  unfolding load
  load-Answers t pda id commitment found r = elim (Result-cases (S.lock t)) [
    | inr (m, poisoned) ↦ inr (m, rw poisoned refl)
    | inl (u, locked) ↦ elim r [
      | inl there ↦ inl (rw (locked, there) refl)
      | inr (m, fails) ↦ inr (m, rw (locked, fails) refl)
    ]
  ]

  -- After `save` has succeeded, `load` at the session's key returns that session, or the storage
  -- layer fails.
  pub load-save :
      (t t' : S.Tree) (s : ApprovalSession)
      → save t s ≡ ok t'
      → Answers (load t' s.instance_pda s.proposal_id s.member_commitment) (ok s)
  unfolding save
  load-save t t' s e =
      let key = session_key s.instance_pda s.proposal_id s.member_commitment in
      let (v, r1, e1) = >>=-eq-ok (ok_or (B.to_vec s) borsh_serialization_failed) _ e in
      let (_, r2, e2) = >>=-eq-ok (storage (S.lock t)) _ e1 in
      let back = B.from_slice-to_vec s v (ok_or-eq-ok (B.to_vec s) _ r1) in
      rw back at (
        load-Answers t' s.instance_pda s.proposal_id s.member_commitment (some v)
          (S.get-insert t t' key v (storage-eq-ok (S.insert t key v) e2)))

  -- After `delete` has succeeded, `load` at that key returns `SessionNotFound`, or the storage
  -- layer fails.
  pub load-delete :
      (t t' : S.Tree) (pda id commitment : Bytes)
      → delete t pda id commitment ≡ ok t'
      → Answers (load t' pda id commitment) (err session_not_found)
  unfolding delete
  load-delete t t' pda id commitment e =
      let key = session_key pda id commitment in
      let (_, r2, e2) = >>=-eq-ok (storage (S.lock t)) _ e in
      load-Answers t' pda id commitment none
        (S.get-remove t t' key (storage-eq-ok (S.remove t key) e2))

  -- Keys of 32-byte parts are equal only if their parts are.
  session_key-injective :
      (p i c q j d : Bytes)
      → length p ≡ length q
      → length i ≡ length j
      → session_key p i c ≡ session_key q j d
      → (p ≡ q) × (i ≡ j) × (c ≡ d)
  unfolding session_key
  session_key-injective p i c q j d hp hi e =
      let (same_p, rest) = append-injective p (i ++ c) q (j ++ d) hp e in
      let (same_i, same_c) = append-injective i c j d hi rest in (same_p, same_i, same_c)

  -- Saving a session keeps every session whose instance, proposal or member differs: `load` returns
  -- it as before, or the storage layer fails. The parts of both keys have 32 bytes.
  pub load-save_other :
      (t t' : S.Tree) (s kept : ApprovalSession) (pda id commitment : Bytes)
      → length pda ≡ 32
      → length id ≡ 32
      → length s.instance_pda ≡ 32
      → length s.proposal_id ≡ 32
      → ¬ ((pda ≡ s.instance_pda) × (id ≡ s.proposal_id) × (commitment ≡ s.member_commitment))
      → load t pda id commitment ≡ ok kept
      → save t s ≡ ok t'
      → Answers (load t' pda id commitment) (ok kept)
  unfolding save load
  load-save_other t t' s kept pda id commitment hp hi hsp hsi differ before e =
      let key = session_key s.instance_pda s.proposal_id s.member_commitment in
      let other = session_key pda id commitment in
      let (v, r1, e1) = >>=-eq-ok (ok_or (B.to_vec s) borsh_serialization_failed) _ e in
      let (_, r2, e2) = >>=-eq-ok (storage (S.lock t)) _ e1 in
      let (_, b1, f1) = >>=-eq-ok (storage (S.lock t)) _ before in
      let (found, b2, f2) = >>=-eq-ok (storage (S.get t other)) _ f1 in
      let apart : other ≢ key = λ same. differ (
        session_key-injective pda id commitment s.instance_pda s.proposal_id s.member_commitment
          (hp ∙ sym hsp) (hi ∙ sym hsi) same) in
      rw f2 at (
        load-Answers t' pda id commitment found (
          S.get-insert_other t t' key v other found (storage-eq-ok (S.insert t key v) e2) apart
            (storage-eq-ok (S.get t other) b2)))
