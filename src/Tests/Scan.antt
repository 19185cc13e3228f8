-- ===== src/Tests/Scan.antt =====
-- A tree with a place for one key, and the scan for the proposal of a session that is in it.
use private_m_of_n_multisig.Common.{
  ◌≡◌, ◌≢◌, inl, inr, refl, sym, arith, Bool, true, false, ◌&&◌, ◌||◌, Option, none, some, List, [],
  ◌∷◌, Result, ok, err, ltb, ◌==◌, replicate, if◌then◌else◌, Bool-cases,
}
use mathlib.Core.List.{Memᴰ}
use private_m_of_n_multisig.Common.Bytes.{Bytes, zeros, bytes_eq, bytes_eq_iff, bytes_eq_refl}
use private_m_of_n_multisig.Sdk.Store.{Sled, OrFails, session_key, load}
use private_m_of_n_multisig.Sdk.Store.Scan.{LexLe, Item, Reaches, Ranges, scan, load_for_proposal}
use private_m_of_n_multisig.Sdk.Store.Scan.Found.{load-load_for_proposal}
use private_m_of_n_multisig.Tests.Store.{codec, session, to_vec}

abbrev place : Bytes
place = session_key (zeros 32) (zeros 32) (replicate 32 1)

abbrev insert : Option Bytes → Bytes → Bytes → Result Bytes (Option Bytes)
insert t key value = if bytes_eq key place then ok (some value) else err []

abbrev get : Option Bytes → Bytes → Result Bytes (Option Bytes)
get t key = ok (if bytes_eq key place then t else none)

abbrev remove : Option Bytes → Bytes → Result Bytes (Option Bytes)
remove t key = ok (if bytes_eq key place then none else t)

get-insert :
    (t t' : Option Bytes) (key value : Bytes)
    → insert t key value ≡ ok t'
    → OrFails (get t' key) (some value)
get-insert t t' key value h = inl (ground arith)

get-insert_other :
    (t t' : Option Bytes) (key value other : Bytes) (found : Option Bytes)
    → insert t key value ≡ ok t'
    → other ≢ key
    → get t other ≡ ok found
    → OrFails (get t' other) found
get-insert_other t t' key value other found h differ before =
    inl (ground (arith, bytes_eq_iff key place, bytes_eq_iff other place))

get-remove : (t t' : Option Bytes) (key : Bytes) → remove t key ≡ ok t' → OrFails (get t' key) none
get-remove t t' key h = inl (ground arith)

abbrev one_place : Sled
one_place = record {
  Tree = Option Bytes;
  lock = λ t. ok tt;
  insert = insert;
  get = get;
  remove = remove;
  get-insert = get-insert;
  get-insert_other = get-insert_other;
  get-remove = get-remove;
}

lex_le : Bytes → Bytes → Bool
lex_le [] ys = true
lex_le (x ∷ xs) [] = false
lex_le (x ∷ xs) (y ∷ ys) = ltb x y || (x == y && lex_le xs ys)

lex_le_lem : (xs ys : Bytes) → LexLe xs ys → lex_le xs ys ≡ true
unfolding lex_le
lex_le_lem [] ys h = refl
lex_le_lem (x ∷ xs) [] h = absurd h
lex_le_lem (x ∷ xs) (y ∷ ys) (inl lt) = ground (arith, lt)
lex_le_lem (x ∷ xs) (y ∷ ys) (inr (e, h)) = ground (arith, e, lex_le_lem xs ys h)

abbrev items : Option Bytes → List Item
items none = []
items (some value) = ok (place, value) ∷ []

abbrev range : Option Bytes → Bytes → List Item
range t from = if lex_le from place then items t else []

items-get :
    (t : Option Bytes) (key value : Bytes)
    → Memᴰ (ok (key, value)) (items t)
    → OrFails (get t key) (some value)
items-get none key value m = absurd (elim m [ ])
items-get (some v) key value (Memᴰ.head e) =
    let same : key ≡ place = cc in
    let is_v : value ≡ v = cc in inl (rw (same, is_v, bytes_eq_refl place) refl)
items-get (some v) key value (Memᴰ.tail m) = absurd (elim m [ ])

range-get :
    (t : Option Bytes) (from key value : Bytes)
    → Memᴰ (ok (key, value)) (range t from)
    → OrFails (get t key) (some value)
range-get t from key value m = elim (Bool-cases (lex_le from place)) [
  | inl above ↦ items-get t key value (rw above at m)
  | inr below ↦ absurd (let m' : Memᴰ (ok (key, value)) [] = rw below at m in elim m' [ ])
]

items-Reaches :
    (t : Option Bytes) (from key value : Bytes)
    → t ≡ some value
    → key ≡ place
    → Reaches from key value (items t)
items-Reaches none from key value e same = cc
items-Reaches (some v) from key value e same = inl (sym same, cc)

range-Reaches :
    (t : Option Bytes) (from key value : Bytes)
    → get t key ≡ ok (some value)
    → LexLe from key
    → Reaches from key value (range t from)
range-Reaches t from key value h above = elim (Bool-cases (bytes_eq key place)) [
  | inr differ ↦ absurd (let e : ok none ≡ ok (some value) = rw differ at h in cc)
  | inl equal ↦
      let same = (bytes_eq_iff key place).0 equal in
      let there : ok t ≡ ok (some value) = rw equal at h in
      rw (lex_le_lem from place (rw same at above)) (items-Reaches t from key value (cc) same)
]

abbrev ranges : Ranges one_place
ranges = record { range = range; range-get = range-get; range-Reaches = range-Reaches }

load_1 :
    load one_place codec (to_vec (session 1)) (zeros 32) (zeros 32) (replicate 32 1)
    ≡ ok (session 1)
unfolding load session_key bytes_eq
load_1 = refl

listed :
    load_for_proposal one_place ranges codec (to_vec (session 1)) (zeros 32) (zeros 32)
    ≡ ok (session 1 ∷ [])
unfolding load_for_proposal scan lex_le session_key bytes_eq
listed = refl

load-load_for_proposal_example : Memᴰ (session 1) (session 1 ∷ [])
load-load_for_proposal_example =
    load-load_for_proposal one_place ranges codec (to_vec (session 1)) (zeros 32) (zeros 32)
      (replicate 32 1) (session 1 ∷ []) (session 1) load_1 listed
