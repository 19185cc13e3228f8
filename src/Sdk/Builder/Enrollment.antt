-- ===== src/Sdk/Builder/Enrollment.antt =====
-- sdk/src/multisig.rs, `add_member` and `finalize`: who is enrolled.
use private_m_of_n_multisig.Common.{
  ℕ, ◌^◌, ◌≤◌, ◌<◌, ◌≡◌, refl, sym, ap, subst, append-nil, append_assoc, ◌∙◌, ◌↔◌, inl, inr, true,
  false, List, [], ◌∷◌, ◌++◌, Result, ok, err, ◌>>◌, >>=-eq-ok, length, ltb, leb, leb→le, arith,
  Bool-cases,
}
use private_m_of_n_multisig.Common.Bytes.{Bytes, bytes_eq, bytes_eq_iff}
use private_m_of_n_multisig.Crypto.Hash.{Hasher}
use private_m_of_n_multisig.Crypto.Merkle.{max_leaves, new, insert, root}
use private_m_of_n_multisig.Crypto.Merkle.Growth.{IsTree, new-IsTree, insert-IsTree}
use private_m_of_n_multisig.Sdk.Errors.{SdkError, threshold_exceeds_members, duplicate_member}
use private_m_of_n_multisig.Sdk.Builder.{
  MultisigBuilder, MultisigFinalized, contains, add_member, new_builder, finalize,
}

-- No entry occurs twice.
unfoldable pub IsDistinct : List Bytes → Type 0
IsDistinct [] = Unit
IsDistinct (c ∷ cs) = (contains cs c ≡ false) × IsDistinct cs

-- A builder all of whose `add_member` calls have succeeded.
pub record IsBuilder (H : Hasher) (b : MultisigBuilder) : Type 0 where
  pub tree_built : IsTree H b.tree
  pub same_members : b.tree.leaves ≡ b.added
  pub distinct : IsDistinct b.added

-- The three outcomes of `add_member`, with the whole builder after each: the commitment was
-- enrolled; it was a duplicate, and nothing changed; or it was new but the tree was full, and the
-- commitment went to `added` alone.
pub data Adds (b : MultisigBuilder) (c : Bytes)
    : MultisigBuilder × Result SdkError (Unit {0}) → Type 0 where
  enrolled :
      contains b.added c ≡ false
      → length b.tree.leaves < max_leaves
      → Adds b c (
        record b {
          added = b.added ++ (c ∷ []);
          tree = record b.tree { leaves = b.tree.leaves ++ (c ∷ []) };
        },
        ok tt,
      )
  duplicate : contains b.added c ≡ true → Adds b c (b, err duplicate_member)
  crowded :
      contains b.added c ≡ false
      → max_leaves ≤ length b.tree.leaves
      → Adds b c (record b { added = b.added ++ (c ∷ []) }, err threshold_exceeds_members)

-- `add_member` rejects a commitment that is already in `added`, full tree or not, with the builder
-- unchanged. A new one it enrolls while the tree has room: behind the others in `added` and in the
-- tree's leaves, with the rest of the builder as it was. A new one on a full tree is answered with
-- an error, but is appended to `added` all the same, while the tree and m stay as they were.
pub add_member-Adds : (b : MultisigBuilder) (c : Bytes) → Adds b c (add_member b c)
unfolding add_member insert
add_member-Adds b c = elim (Bool-cases (contains b.added c)) [
  | inl twice ↦ rw twice (duplicate twice)
  | inr fresh ↦ elim (Bool-cases (leb max_leaves (length b.tree.leaves))) [
    | inl filled ↦ rw (fresh, filled) (crowded fresh (leb→le _ _ filled))
    | inr room ↦ rw (fresh, room) (enrolled fresh (ground arith))
  ]
]

bytes_eq_sym : (x y : Bytes) → bytes_eq x y ≡ false → bytes_eq y x ≡ false
bytes_eq_sym x y h = ground (arith, bytes_eq_iff x y, bytes_eq_iff y x)

contains-append :
    (xs : List Bytes) (x c : Bytes)
    → contains xs x ≡ false
    → bytes_eq c x ≡ false
    → contains (xs ++ (c ∷ [])) x ≡ false
unfolding contains
contains-append [] x c h k = rw k refl
contains-append (y ∷ ys) x c h k = ground (arith, contains-append ys x c)

append-IsDistinct :
    (xs : List Bytes) (c : Bytes)
    → IsDistinct xs
    → contains xs c ≡ false
    → IsDistinct (xs ++ (c ∷ []))
unfolding IsDistinct contains
append-IsDistinct [] c w h = (refl, tt)
append-IsDistinct (x ∷ xs) c w h = (
  contains-append xs x c w.0 (bytes_eq_sym x c (ground arith)),
  append-IsDistinct xs c w.1 (ground arith),
)

module _ (H : Hasher) where
  new_builder-IsBuilder : (m : ℕ) → IsBuilder H (new_builder H m)
  unfolding new_builder new IsDistinct
  new_builder-IsBuilder m = record { tree_built = new-IsTree H; same_members = refl; distinct = tt }

  add_member-IsBuilder :
      (b : MultisigBuilder) (c : Bytes)
      → IsBuilder H b
      → (add_member b c).1 ≡ ok tt
      → IsBuilder H (add_member b c).0
        × ((add_member b c).0.added ≡ b.added ++ (c ∷ []))
        × ((add_member b c).0.m ≡ b.m)
  unfolding add_member insert
  add_member-IsBuilder b c w e = elim (Bool-cases (contains b.added c)) [
    | inl twice ↦ absurd (let e' : err duplicate_member ≡ ok tt = rw twice at e in cc)
    | inr fresh ↦ elim (Bool-cases (leb max_leaves (length b.tree.leaves))) [
      | inl filled ↦
          absurd (let e' : err threshold_exceeds_members ≡ ok tt = rw (fresh, filled) at e in cc)
      | inr room ↦
          rw (fresh, room)
            (
              record {
                tree_built = rw room at (insert-IsTree H b.tree c w.tree_built);
                same_members = ap (λ l. l ++ (c ∷ [])) w.same_members;
                distinct = append-IsDistinct b.added c w.distinct fresh;
              },
              refl,
              refl,
            )
    ]
  ]

-- `builder.add_member(c1)?.add_member(c2)?` and so on.
unfoldable pub enroll : List Bytes → MultisigBuilder → Result SdkError MultisigBuilder
enroll [] b = ok b
enroll (c ∷ cs) b = (add_member b c).1 >> enroll cs (add_member b c).0

module _ (H : Hasher) where
  -- What a chain of successful `add_member` calls has built.
  enroll_lem :
      (cs : List Bytes) (b b' : MultisigBuilder)
      → IsBuilder H b
      → enroll cs b ≡ ok b'
      → IsBuilder H b' × (b'.added ≡ b.added ++ cs) × (b'.m ≡ b.m)
  unfolding enroll
  enroll_lem [] b b' w e =
      let same : b ≡ b' = ground arith in
      (
        subst (IsBuilder H) same w,
        ap (λ (x : MultisigBuilder). x.added) (sym same) ∙ sym (append-nil b.added),
        ap (λ (x : MultisigBuilder). x.m) (sym same),
      )
  enroll_lem (c ∷ cs) b b' w e =
      let (_, r, e') = >>=-eq-ok (add_member b c).1 _ e in
      let (w1, added1, m1) = add_member-IsBuilder H b c w r in
      let (w', added', m') = enroll_lem cs (add_member b c).0 b' w1 e' in
      (w', added' ∙ ap (λ l. l ++ cs) added1 ∙ append_assoc b.added (c ∷ []) cs, m' ∙ m1)

  -- A builder to which all of `cs` were added holds exactly them, in order and each once.
  pub enroll-IsBuilder :
      (m : ℕ) (cs : List Bytes) (b : MultisigBuilder)
      → enroll cs (new_builder H m) ≡ ok b
      → IsBuilder H b × (b.added ≡ cs) × (b.m ≡ m)
  unfolding new_builder
  enroll-IsBuilder m cs b e = enroll_lem cs (new_builder H m) b (new_builder-IsBuilder H m) e

  -- What `finalize` freezes of a builder.
  abbrev pub frozen : MultisigBuilder → MultisigFinalized
  frozen b = record {
    members_root = root H b.tree;
    m = b.m;
    n = length b.added;
    commitments = b.added;
    tree = b.tree;
  }

  -- `finalize` succeeds exactly when 1 <= m <= n and the member count n fits in 32 bits, and then
  -- freezes the tree with its root, the threshold, the count and the commitments in order.
  pub finalize_iff :
      (b : MultisigBuilder) (f : MultisigFinalized)
      → (finalize H b ≡ ok f)
        ↔ ((1 ≤ b.m) × (b.m ≤ length b.added) × (length b.added < 2 ^ 32) × (f ≡ frozen b))
  unfolding finalize
  finalize_iff b f = elim (Bool-cases (ltb (length b.added) (2 ^ 32))) [
    | inr big ↦ rw big (λ h. cc, λ h. absurd (ground arith))
    | inl small ↦
        rw small (λ h. (ground arith, ground arith, ground arith, ground arith), λ h. ground arith)
  ]
