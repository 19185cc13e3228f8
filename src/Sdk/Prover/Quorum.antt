-- ===== src/Sdk/Prover/Quorum.antt =====
-- Many approvals of one proposal: a quorum is made of different members.
pub mod Discharged
pub mod Electorate
pub mod Progress
pub mod Turnout
pub mod Lifecycle
pub mod Verdict
use private_m_of_n_multisig.Common.{
  ℕ, suc, true, false, ◌≤◌, ◌<◌, ◌≡◌, ◌≢◌, ◌⊎◌, inl, inr, refl, sym, ap, ◌∙◌, arith, none, some,
  List, [], ◌∷◌, ◌++◌, ok, length, get_elem?, get_elem?-ge, ==_iff, ◌==◌, Bool-cases,
}
use mathlib.Core.List.{Memᴰ}
use native.Mathlib.Decide.{dec_lt}
use private_m_of_n_multisig.Common.Bytes.{Bytes, All}
use private_m_of_n_multisig.Common.Pigeonhole.{AreDifferent, pigeonhole}
use private_m_of_n_multisig.Crypto.Hash.{Hasher, Collides, CollidesIn}
use private_m_of_n_multisig.Crypto.Identity as Identity
use private_m_of_n_multisig.Crypto.Identity.{Identity, IsIdentity, commitment}
use private_m_of_n_multisig.Crypto.Identity.Binding.{commitment-binding}
use private_m_of_n_multisig.Crypto.Merkle.{MerkleProof, verify_proof}
use private_m_of_n_multisig.Crypto.Merkle.Binding.{position, proof_inputs, slot_inputs}
use private_m_of_n_multisig.Core.Proof.{ApprovePublicInputs, from_bytes, from_bytes-to_bytes}
use private_m_of_n_multisig.Circuit.{GuestEnv, main}
use private_m_of_n_multisig.Circuit.Soundness.{Proved, main-Proved}
use private_m_of_n_multisig.Verifier.Ledger.Tally.{IsDistinct}
use private_m_of_n_multisig.Sdk.Builder.{MultisigBuilder, MultisigFinalized, new_builder, finalize}
use private_m_of_n_multisig.Sdk.Builder.Enrollment.{enroll}
use private_m_of_n_multisig.Sdk.Builder.Membership.{verify_proof-enrolled}

-- A run of the circuit that has committed a nullifier for a members root and a proposal id.
pub record Approval (H : Hasher) (E : GuestEnv) (root id : Bytes) : Type 0 where
  pub input : Bytes
  pub journal : Bytes
  pub ran : main H E input ≡ ok journal
  pub for_root : (from_bytes journal).members_root ≡ root
  pub for_id : (from_bytes journal).proposal_id ≡ id

unwrap : {A : Type 0} {x y : A} → some x ≡ some y → x ≡ y
unwrap e = cc

-- A place that holds something is within the list.
below : (cs : List Bytes) (i : ℕ) {c : Bytes} → get_elem? cs i ≡ some c → i < length cs
below cs i {c} h = elim (dec_lt i (length cs)) [
  | yes lt ↦ lt
  | no ge ↦ absurd (let e : none ≡ some c = sym (get_elem?-ge cs i (omega (arith, ge))) ∙ h in cc)
]

module _ (H : Hasher) (E : GuestEnv) (root id : Bytes) where
  -- What the run has read and committed.
  abbrev pub proved : (a : Approval H E root id) → Proved H a.journal
  proved a = main-Proved H E a.input a.journal a.ran

  abbrev pub identity : Approval H E root id → Identity
  identity a = (proved a).witness.identity

  abbrev pub path : Approval H E root id → MerkleProof
  path a = (proved a).witness.proof

  abbrev pub place : Approval H E root id → ℕ
  place a = position (path a).indices

  abbrev pub nullifiers : List (Approval H E root id) → List Bytes
  nullifiers [] = []
  nullifiers (a ∷ rest) = (from_bytes a.journal).nullifier ∷ nullifiers rest

  abbrev pub places : List (Approval H E root id) → List ℕ
  places [] = []
  places (a ∷ rest) = place a ∷ places rest

  -- Two given inputs differ and have one digest: those of an approval's proof and the members'
  -- tree, or those of the commitments of two approvals.
  abbrev pub IsBroken : List Bytes → List (Approval H E root id) → Type 0
  IsBroken cs as' =
      ((a : Approval H E root id) × Memᴰ a as'
        × CollidesIn H (proof_inputs H (commitment H (identity a)) (path a))
            (slot_inputs H cs (place a)))
      ⊎ ((a : Approval H E root id) × (b : Approval H E root id) × Memᴰ a as'
          × Memᴰ b as'
          × Collides H ((identity a).sk ++ (identity a).salt)
              ((identity b).sk ++ (identity b).salt))

  IsBroken-among :
      (cs : List Bytes) (xs ys : List (Approval H E root id))
      → ((x : Approval H E root id) → Memᴰ x xs → Memᴰ x ys)
      → IsBroken cs xs
      → IsBroken cs ys
  IsBroken-among cs xs ys f (inl (a, m, c)) = inl (a, f a m, c)
  IsBroken-among cs xs ys f (inr (a, b, m, n, c)) = inr (a, b, f a m, f b n, c)

  skip_second :
      (a b : Approval H E root id) (xs : List (Approval H E root id)) (x : Approval H E root id)
      → Memᴰ x (a ∷ xs)
      → Memᴰ x (a ∷ b ∷ xs)
  skip_second a b xs x (Memᴰ.head e) = Memᴰ.head e
  skip_second a b xs x (Memᴰ.tail m) = Memᴰ.tail (Memᴰ.tail m)

  -- The commitment of the identity stands in the place that the path names.
  abbrev pub Placed : List Bytes → Approval H E root id → Type 0
  Placed cs a = get_elem? cs (place a) ≡ some (commitment H (identity a))

  from_bytes_lem : (a : Approval H E root id) → from_bytes a.journal ≡ (proved a).inputs
  from_bytes_lem a =
      let y = proved a in ap from_bytes y.packed ∙ (from_bytes-to_bytes y.inputs y.input_sizes).1

  nullifier-eq :
      (a : Approval H E root id)
      → (from_bytes a.journal).nullifier ≡ Identity.nullifier H (identity a).sk id
  nullifier-eq a =
      let y = from_bytes_lem a in
      ap (λ (i : ApprovePublicInputs). i.nullifier) y
      ∙ (proved a).bound
      ∙ ap (λ (i : ApprovePublicInputs). Identity.nullifier H (identity a).sk i.proposal_id) (sym y)
      ∙ ap (Identity.nullifier H (identity a).sk) a.for_id

  -- Two placed approvals in one place have one nullifier.
  same_place :
      (cs : List Bytes) (a b : Approval H E root id)
      → Placed cs a
      → Placed cs b
      → place b ≡ place a
      → ((from_bytes b.journal).nullifier ≡ (from_bytes a.journal).nullifier)
        ⊎ Collides H ((identity b).sk ++ (identity b).salt) ((identity a).sk ++ (identity a).salt)
  same_place cs a b pa pb same =
      let one : some (commitment H (identity b)) ≡ some (commitment H (identity a)) =
        sym pb ∙ ap (get_elem? cs) same ∙ pa in
      elim (commitment-binding H (identity b) (identity a) (proved b).witness.identity_sizes
        (proved a).witness.identity_sizes (unwrap one)) [
          | inr differ ↦ inr differ
          | inl i ↦ inl (
              nullifier-eq b
              ∙ ap (λ (x : Identity). Identity.nullifier H x.sk id) i
              ∙ sym (nullifier-eq a))
        ]

  fresh_places :
      (cs : List Bytes) (a : Approval H E root id) (xs : List (Approval H E root id))
      → Placed cs a
      → All (Placed cs) xs
      → All (λ v. v ≢ (from_bytes a.journal).nullifier) (nullifiers xs)
      → All (λ k. k ≢ place a) (places xs) ⊎ IsBroken cs (a ∷ xs)
  fresh_places cs a [] pa ps ds = inl tt
  fresh_places cs a (b ∷ xs) pa ps ds = elim (Bool-cases (place b == place a)) [
    | inl equal ↦ elim (same_place cs a b pa ps.0 ((==_iff (place b) (place a)).0 equal)) [
      | inl same ↦ absurd (ds.0 same)
      | inr differ ↦ inr (inr (b, a, Memᴰ.tail (Memᴰ.head refl), Memᴰ.head refl, differ))
    ]
    | inr apart ↦ elim (fresh_places cs a xs pa ps.1 ds.1) [
      | inl fresh ↦ inl (
        (λ same.
            absurd
              (let e : true ≡ false = sym ((==_iff (place b) (place a)).1 same) ∙ apart in cc)),
        fresh,
      )
      | inr broken ↦ inr (IsBroken-among cs (a ∷ xs) (a ∷ b ∷ xs) (skip_second a b xs) broken)
    ]
  ]

  pub same_length : (xs : List (Approval H E root id)) → length (nullifiers xs) ≡ length (places xs)
  same_length [] = refl
  same_length (a ∷ xs) = ap suc (same_length xs)

  module _ (m : ℕ) (cs : List Bytes) (b : MultisigBuilder) (f : MultisigFinalized)
      (enrolled : enroll cs (new_builder H m) ≡ ok b) (frozen : finalize H b ≡ ok f)
      (same_root : root ≡ f.members_root) where
    place_of :
        (a : Approval H E root id)
        → Placed cs a
          ⊎ CollidesIn H
              (proof_inputs H (commitment H (identity a)) (path a))
              (slot_inputs H cs (place a))
    place_of a =
        verify_proof-enrolled H m cs b f (commitment H (identity a)) (path a) enrolled frozen
          (proved a).witness.proof_sizes
          (ap (λ r. verify_proof H r (commitment H (identity a)) (path a))
              (sym (
                ap (λ (i : ApprovePublicInputs). i.members_root) (sym (from_bytes_lem a))
                ∙ a.for_root
                ∙ same_root))
            ∙ (proved a).witness.verifies)

    -- Approvals with different nullifiers stand in different places of the tree.
    pub places_differ :
        (xs : List (Approval H E root id))
        → IsDistinct (nullifiers xs)
        → (All (Placed cs) xs × AreDifferent (places xs)) ⊎ IsBroken cs xs
    places_differ [] d = inl (tt, tt)
    places_differ (a ∷ xs) d = elim (place_of a) [
      | inr collides ↦ inr (inl (a, Memᴰ.head refl, collides))
      | inl here ↦ elim (places_differ xs d.1) [
        | inr broken ↦ inr (IsBroken-among cs xs (a ∷ xs) (λ x k. Memᴰ.tail k) broken)
        | inl (placed, different) ↦ elim (fresh_places cs a xs here placed d.0) [
          | inr broken ↦ inr broken
          | inl fresh ↦ inl ((here, placed), (fresh, different))
        ]
      ]
    ]

    pub places_below :
        (xs : List (Approval H E root id))
        → All (Placed cs) xs
        → All (λ k. k < length cs) (places xs)
    places_below [] h = tt
    places_below (a ∷ xs) h = (below cs (place a) h.0, places_below xs h.1)

    -- After successful `add_member` calls for `cs` and a successful `finalize`, take any runs of
    -- the circuit that have committed the frozen root and one proposal id, with nullifiers no two
    -- of which are equal. There are at most as many of them as members. Or two given inputs differ
    -- and have one digest: of a run's Merkle path and the tree of `cs`, or of the commitments that
    -- two of the runs open.
    pub quorum-le-members :
        (xs : List (Approval H E root id))
        → IsDistinct (nullifiers xs)
        → (length (nullifiers xs) ≤ length cs) ⊎ IsBroken cs xs
    quorum-le-members xs d = elim (places_differ xs d) [
      | inr broken ↦ inr broken
      | inl (placed, different) ↦ inl (
          omega (
            arith,
            same_length xs,
            pigeonhole (length cs) (places xs) (places_below xs placed) different,
          ))
    ]
