-- ===== src/Sdk/Store/Scan.antt =====
-- sdk/src/session.rs: `SessionStore::load_for_proposal`, which scans the tree from the first key with
-- the proposal's prefix, and `SessionStore::open`. The scan's items and their order are a parameter.
pub mod Found
use private_m_of_n_multisig.Common.{
  ℕ, ◌<◌, ◌≡◌, refl, sym, ap, ◌∙◌, ◌⊎◌, inl, inr, Bool, true, false, not, ◌||◌, Option, none, some,
  List, [], ◌∷◌, ◌++◌, Result, ok, err, ◌>>=◌, ◌>>◌, ok_or, ok_or-eq-ok, ok_or-eq-err, >>=-eq-err,
  >>=-eq-ok, Result-cases, length, slice, ltb, append_assoc, arith, if◌then◌else◌, Bool-cases,
  slice-prefix,
}
use mathlib.Core.List.{Memᴰ}
use private_m_of_n_multisig.Common.Bytes.{Bytes, bytes_eq, bytes_eq_iff}
use private_m_of_n_multisig.Verifier.Platform.{Borsh}
use private_m_of_n_multisig.Sdk.Errors.{
  SdkError, session_store_open_failed, session_not_found, session_corrupted, home_dir_not_found,
}
use private_m_of_n_multisig.Sdk.Session.{ApprovalSession}
use private_m_of_n_multisig.Sdk.Store.{
  Sled, OrFails, Answers, storage, storage-eq-ok, session_key, load, load-Answers,
}

-- The lexicographic order of keys.
abbrev pub LexLe : Bytes → Bytes → Type 0
LexLe [] ys = Unit
LexLe (x ∷ xs) [] = ⊥
LexLe (x ∷ xs) (y ∷ ys) = (x < y) ⊎ ((x ≡ y) × LexLe xs ys)

abbrev pub Item : Type 0
Item = Result Bytes (Bytes × Bytes)

-- Going through the items one comes to the key with the value, past keys that lie between `from`
-- and it, unless an item fails before.
abbrev pub Reaches : Bytes → Bytes → Bytes → List Item → Type 0
Reaches from key value [] = ⊥
Reaches from key value (err message ∷ rest) = Unit
Reaches from key value (ok (k, v) ∷ rest) =
    ((k ≡ key) × (v ≡ value)) ⊎ (LexLe from k × LexLe k key × Reaches from key value rest)

-- `Tree::range(from..)`: what its iterator gives, one item after the other.
pub record Ranges (S : Sled) : Type 0 where
  pub range : S.Tree → Bytes → List Item
  pub range-get :
      (t : S.Tree) (from key value : Bytes)
      → Memᴰ (ok (key, value)) (range t from)
      → OrFails (S.get t key) (some value)
  pub range-Reaches :
      (t : S.Tree) (from key value : Bytes)
      → S.get t key ≡ ok (some value)
      → LexLe from key
      → Reaches from key value (range t from)

-- `key_bytes.len() < prefix.len() || key_bytes[..prefix.len()] != prefix[..]`
abbrev pub lacks_prefix : Bytes → Bytes → Bool
lacks_prefix prefix key =
    ltb (length key) (length prefix) || not (bytes_eq (slice key 0 (length prefix)) prefix)

module _ (B : Borsh ApprovalSession) where
  -- The loop of `load_for_proposal`.
  unfoldable pub scan : Bytes → List Item → Result SdkError (List ApprovalSession)
  scan prefix [] = ok []
  scan prefix (item ∷ rest) = do
    (key_bytes, value_bytes) ← storage item
    if lacks_prefix prefix key_bytes
        then ok []
        else ok_or (B.from_slice value_bytes) session_corrupted >>= λ session.
            scan prefix rest >>= λ sessions. ok (session ∷ sessions)

module _ (S : Sled) (R : Ranges S) (B : Borsh ApprovalSession) where
  unfoldable pub load_for_proposal : S.Tree → Bytes → Bytes → Result SdkError (List ApprovalSession)
  load_for_proposal t instance_pda proposal_id = do
    let prefix = instance_pda ++ proposal_id
    storage (S.lock t)
    scan B prefix (R.range t prefix)

-- The home directory and sled, under `SessionStore::open`. A path is a byte string.
pub record Disk : Type 1 where
  pub Db : Type 0
  pub Tree : Type 0
  pub home_dir : Option Bytes
  pub join : Bytes → Bytes → Bytes
  pub parent : Bytes → Option Bytes
  pub create_dir_all : Bytes → Result Bytes (Unit {0})
  pub open_db : Bytes → Result Bytes Db
  pub open_tree : Db → Bytes → Result Bytes Tree

-- `.private-multisig/state` and `approval_sessions`.
abbrev state_dir : Bytes
state_dir =
    b'.' ∷ b'p' ∷ b'r' ∷ b'i' ∷ b'v' ∷ b'a' ∷ b't' ∷ b'e' ∷ b'-' ∷ b'm' ∷ b'u' ∷ b'l' ∷ b't' ∷ b'i'
    ∷ b's' ∷ b'i' ∷ b'g' ∷ b'/' ∷ b's' ∷ b't' ∷ b'a' ∷ b't' ∷ b'e' ∷ []

abbrev tree_name : Bytes
tree_name =
    b'a' ∷ b'p' ∷ b'p' ∷ b'r' ∷ b'o' ∷ b'v' ∷ b'a' ∷ b'l' ∷ b'_' ∷ b's' ∷ b'e' ∷ b's' ∷ b's' ∷ b'i'
    ∷ b'o' ∷ b'n' ∷ b's' ∷ []

module _ (D : Disk) where
  unfoldable pub db_path : Result SdkError Bytes
  db_path = do home ← ok_or D.home_dir home_dir_not_found; ok (D.join home state_dir)

  abbrev create_parent : Option Bytes → Result SdkError (Unit {0})
  create_parent none = ok tt
  create_parent (some parent) = storage (D.create_dir_all parent)

  unfoldable pub open_store : Result SdkError D.Tree
  unfolding db_path
  open_store = do
    path ← db_path
    create_parent (D.parent path)
    db ← storage (D.open_db path)
    storage (D.open_tree db tree_name)

  storage-err :
      {A : Type 0} (r : Result Bytes A) (e : SdkError)
      → storage r ≡ err e
      → (message : Bytes) × (e ≡ session_store_open_failed message)
  storage-err (err m) e h = (m, cc)
  storage-err (ok a) e h = cc

  create_parent-err :
      (o : Option Bytes) (e : SdkError)
      → create_parent o ≡ err e
      → (message : Bytes) × (e ≡ session_store_open_failed message)
  create_parent-err none e h = cc
  create_parent-err (some p) e h = storage-err (D.create_dir_all p) e h

  -- `open` fails with `HomeDirNotFound` where there is no home directory, and else only with
  -- `SessionStoreOpenFailed`.
  open_store_errors :
      (e : SdkError)
      → open_store ≡ err e
      → ((e ≡ home_dir_not_found) × (D.home_dir ≡ none))
        ⊎ ((message : Bytes) × (e ≡ session_store_open_failed message))
  unfolding open_store
  open_store_errors e h = elim (>>=-eq-err db_path _ h) [
    | inl missing ↦ elim (>>=-eq-err (ok_or D.home_dir home_dir_not_found) _ missing) [
      | inl f ↦ let (n, same) = ok_or-eq-err D.home_dir home_dir_not_found f in inl (same, n)
      | inr (home, _, f) ↦ cc
    ]
    | inr (path, _, h1) ↦ inr (elim (>>=-eq-err (create_parent (D.parent path)) _ h1) [
      | inl f ↦ create_parent-err (D.parent path) e f
      | inr (_, _, h2) ↦ elim (>>=-eq-err (storage (D.open_db path)) _ h2) [
        | inl f ↦ storage-err (D.open_db path) e f
        | inr (db, _, h3) ↦ storage-err (D.open_tree db tree_name) e h3
      ]
    ])
  ]
