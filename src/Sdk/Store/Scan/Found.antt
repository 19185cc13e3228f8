-- ===== src/Sdk/Store/Scan/Found.antt =====
-- The scan of `load_for_proposal` and `load` find the same sessions.
use private_m_of_n_multisig.Common.{
  ◌-◌, subst, ◌≡◌, refl, sym, ap, ◌∙◌, ◌⊎◌, inl, inr, true, false, some, List, [], ◌∷◌, ◌++◌,
  Result, ok, err, ◌>>=◌, ok_or, ok_or-eq-ok, >>=-eq-ok, length, slice, take, drop, length-append,
  take-append-drop, le→ltb_false, append_assoc, arith, Bool-cases, slice-prefix,
}
use mathlib.Core.List.{Memᴰ}
use private_m_of_n_multisig.Common.Bytes.{Bytes, bytes_eq, bytes_eq_iff, bytes_eq_refl}
use private_m_of_n_multisig.Verifier.Platform.{Borsh}
use private_m_of_n_multisig.Sdk.Errors.{SdkError, session_not_found, session_corrupted}
use private_m_of_n_multisig.Sdk.Session.{ApprovalSession}
use private_m_of_n_multisig.Sdk.Store.{
  Sled, Answers, storage, storage-eq-ok, session_key, load, load-Answers,
}
use private_m_of_n_multisig.Sdk.Store.Scan.{
  LexLe, Item, Reaches, Ranges, lacks_prefix, scan, load_for_proposal,
}

-- A key between a prefix and a key with that prefix has it too.
between : (p k r : Bytes) → LexLe p k → LexLe k (p ++ r) → (s : Bytes) × (k ≡ p ++ s)
between [] k r _ _ = (k, refl)
between (x ∷ p) [] r above below = elim above [ ]
between (x ∷ p) (y ∷ k) r (inl lt) (inl gt) = absurd (omega arith)
between (x ∷ p) (y ∷ k) r (inl lt) (inr (e, _)) = absurd (omega arith)
between (x ∷ p) (y ∷ k) r (inr (e, _)) (inl gt) = absurd (omega arith)
between (x ∷ p) (y ∷ k) r (inr (e, above)) (inr (_, below)) =
    let (s, t) = between p k r above below in (s, λ i. sym e i ∷ t i)

LexLe-append : (p r : Bytes) → LexLe p (p ++ r)
LexLe-append [] r = tt
LexLe-append (x ∷ p) r = inr (refl, LexLe-append p r)

lacks_prefix-append : (p s : Bytes) → lacks_prefix p (p ++ s) ≡ false
lacks_prefix-append p s =
    rw
      (
        le→ltb_false (length (p ++ s)) (length p) (omega (arith, length-append p s)),
        slice-prefix (length p) p s refl,
        bytes_eq_refl p,
      )
      refl

has_prefix : (p k : Bytes) → lacks_prefix p k ≡ false → (s : Bytes) × (k ≡ p ++ s)
has_prefix p k h =
    let n : length p - 0 ≡ length p = omega arith in
    let same : bytes_eq (slice k 0 (length p)) p ≡ true = ground arith in
    let front : take (length p) k ≡ p = (bytes_eq_iff (take (length p) k) p).0 (rw n at same) in
    (
      drop (length p) k,
      sym (take-append-drop (length p) k) ∙ ap (λ (l : Bytes). l ++ drop (length p) k) front,
    )

-- What lies in a list that is known.
not-nil : {s : ApprovalSession} {l : List ApprovalSession} → l ≡ [] → Memᴰ s l → ⊥
not-nil e (Memᴰ.head _) = cc
not-nil e (Memᴰ.tail _) = cc

cases_cons :
    {s y : ApprovalSession} {l rest : List ApprovalSession}
    → l ≡ y ∷ rest
    → Memᴰ s l
    → (s ≡ y) ⊎ Memᴰ s rest
cases_cons e (Memᴰ.head h) = inl cc
cases_cons {s = s} e (Memᴰ.tail m) = inr (subst (Memᴰ s) (cc) m)

unwrap : {A : Type 0} {x y : A} → ◌≡◌ {A = Result SdkError A} (ok x) (ok y) → x ≡ y
unwrap e = cc

session_key-append : (pda id c : Bytes) → session_key pda id c ≡ (pda ++ id) ++ c
unfolding session_key
session_key-append pda id c = sym (append_assoc pda id c)

module _ (B : Borsh ApprovalSession) where
  -- One round of the loop, once the whole loop has succeeded.
  scan-eq-ok :
      (p k v : Bytes) (rest : List Item) (sessions : List ApprovalSession)
      → scan B p (ok (k, v) ∷ rest) ≡ ok sessions
      → ((lacks_prefix p k ≡ true) × (sessions ≡ []))
        ⊎ ((session : ApprovalSession) × (more : List ApprovalSession) × (lacks_prefix p k ≡ false)
            × (B.from_slice v ≡ some session)
            × (scan B p rest ≡ ok more)
            × (sessions ≡ session ∷ more))
  unfolding scan
  scan-eq-ok p k v rest sessions h = elim (Bool-cases (lacks_prefix p k)) [
    | inl lacks ↦ inl (lacks, (let e : ok [] ≡ ok sessions = rw lacks at h in cc))
    | inr has ↦
        let h1 : (ok_or (B.from_slice v) session_corrupted >>= λ session.
        scan B p rest >>= λ sessions. ok (session ∷ sessions))
            ≡ ok sessions =
          rw has at h in
        let (session, r1, h2) = >>=-eq-ok (ok_or (B.from_slice v) session_corrupted) _ h1 in
        let (more, r2, h3) = >>=-eq-ok (scan B p rest) _ h2 in
        inr (session, more, has, ok_or-eq-ok (B.from_slice v) _ r1, r2, cc)
  ]

  scan_finds :
      (p c key value : Bytes) (items : List Item) (sessions : List ApprovalSession)
      (s : ApprovalSession)
      → key ≡ p ++ c
      → B.from_slice value ≡ some s
      → Reaches p key value items
      → scan B p items ≡ ok sessions
      → Memᴰ s sessions
  unfolding scan
  scan_finds p c key value [] sessions s e d there h = absurd there
  scan_finds p c key value (err m ∷ rest) sessions s e d there h = cc
  scan_finds p c key value (ok (k, v) ∷ rest) sessions s e d there h =
      elim (scan-eq-ok p k v rest sessions h) [
        | inl (lacks, _) ↦
            let has : (x : Bytes) × (k ≡ p ++ x) = elim there [
              | inl (same, _) ↦ (c, same ∙ e)
              | inr (above, below, _) ↦ between p k c above (rw e at below)
            ] in
            absurd (
              let q : true ≡ false =
                sym lacks ∙ ap (lacks_prefix p) has.1 ∙ lacks_prefix-append p has.0 in
              cc)
        | inr (session, more, _, decoded, loop, is_list) ↦ elim there [
          | inl (_, same) ↦ rw is_list (Memᴰ.head cc)
          | inr (_, _, later) ↦
              rw is_list (Memᴰ.tail (scan_finds p c key value rest more s e d later loop))
        ]
      ]

  scan_sound :
      (p : Bytes) (items : List Item) (sessions : List ApprovalSession) (s : ApprovalSession)
      → scan B p items ≡ ok sessions
      → Memᴰ s sessions
      → (c : Bytes) × (value : Bytes) × Memᴰ (ok (p ++ c, value)) items
        × (B.from_slice value ≡ some s)
  unfolding scan
  scan_sound p [] sessions s h m = absurd (not-nil (sym (unwrap h)) m)
  scan_sound p (err m ∷ rest) sessions s h _ = cc
  scan_sound p (ok (k, v) ∷ rest) sessions s h m = elim (scan-eq-ok p k v rest sessions h) [
    | inl (lacks, none_left) ↦ absurd (not-nil none_left m)
    | inr (session, more, has, decoded, loop, is_list) ↦ elim (cases_cons is_list m) [
      | inl first ↦
          let (c, e) = has_prefix p k has in
          (c, v, Memᴰ.head (λ i. ok (sym e i, v)), decoded ∙ ap some (sym first))
      | inr later ↦
          let (c, value, there, d) = scan_sound p rest more s loop later in
          (c, value, Memᴰ.tail there, d)
    ]
  ]

module _ (S : Sled) (R : Ranges S) (B : Borsh ApprovalSession) where
  -- A session that `load` returns for a member is in the list that `load_for_proposal` returns,
  -- from the same tree, for the same instance and proposal.
  pub load-load_for_proposal :
      (t : S.Tree) (pda id commitment : Bytes) (sessions : List ApprovalSession)
      (s : ApprovalSession)
      → load S B t pda id commitment ≡ ok s
      → load_for_proposal S R B t pda id ≡ ok sessions
      → Memᴰ s sessions
  unfolding load load_for_proposal
  load-load_for_proposal t pda id commitment sessions s loaded listed =
      let key = session_key pda id commitment in
      let (_, _, l1) = >>=-eq-ok (storage (S.lock t)) _ loaded in
      let (found, l2, l3) = >>=-eq-ok (storage (S.get t key)) _ l1 in
      let (value, l4, l5) = >>=-eq-ok (ok_or found session_not_found) _ l3 in
      let (_, _, loop) = >>=-eq-ok (storage (S.lock t)) _ listed in
      let prefixed = session_key-append pda id commitment in
      scan_finds B (pda ++ id) commitment key value (R.range t (pda ++ id)) sessions s prefixed
        (ok_or-eq-ok (B.from_slice value) _ l5)
        (R.range-Reaches t (pda ++ id) key value
          (storage-eq-ok S B (S.get t key) l2 ∙ ap ok (ok_or-eq-ok found _ l4))
          (rw prefixed (LexLe-append (pda ++ id) commitment)))
        loop

  -- Every session in the list that `load_for_proposal` returns for an instance and a proposal is
  -- what `load` returns from the same tree for them and some member, or the storage layer fails.
  pub load_for_proposal-load :
      (t : S.Tree) (pda id : Bytes) (sessions : List ApprovalSession) (s : ApprovalSession)
      → load_for_proposal S R B t pda id ≡ ok sessions
      → Memᴰ s sessions
      → (commitment : Bytes) × Answers S B (load S B t pda id commitment) (ok s)
  unfolding load_for_proposal
  load_for_proposal-load t pda id sessions s e m =
      let (_, _, loop) = >>=-eq-ok (storage (S.lock t)) _ e in
      let (c, value, there, d) =
        scan_sound B (pda ++ id) (R.range t (pda ++ id)) sessions s loop m in
      let held = R.range-get t (pda ++ id) ((pda ++ id) ++ c) value there in
      (
        c,
        rw d at (load-Answers S B t pda id c (some value) (rw (session_key-append pda id c) held)),
      )
