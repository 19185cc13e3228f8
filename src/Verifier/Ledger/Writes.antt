-- ===== src/Verifier/Ledger/Writes.antt =====
-- Writes to a ledger: what they change, and what stays present.
use private_m_of_n_multisig.Common.{
  ◌≡◌, ◌≢◌, refl, sym, ap, ◌∙◌, none, some, inl, inr, List, [], ◌∷◌, Result, ok, Bool-cases,
}
use private_m_of_n_multisig.Common.Bytes.{Bytes, bytes_eq, bytes_eq_refl, bytes_eq_ne}
use private_m_of_n_multisig.Verifier.Platform.{AccountWithMetadata}
use private_m_of_n_multisig.Verifier.Ledger.{Ledger, write, commit}

-- The ledger has an account at the address.
abbrev pub Present : Ledger → Bytes → Type 0
Present L a = (d : Bytes) × (L a ≡ some d)

pub unwrap : {A : Type 0} {x y : A} → some x ≡ some y → x ≡ y
unwrap e = cc

pub write_same : (L : Ledger) (a d : Bytes) → write L a d a ≡ some d
write_same L a d = rw (bytes_eq_refl a) refl

pub write_other : (L : Ledger) (a b d : Bytes) → a ≢ b → write L b d a ≡ L a
write_other L a b d h = rw (bytes_eq_ne a b h) refl

-- Two writes elsewhere.
pub untouched :
    {a : Bytes} (L : Ledger) (b c d e : Bytes) → a ≢ b → a ≢ c → write (write L b d) c e a ≡ L a
untouched {a = a} L b c d e hb hc = write_other (write L b d) a c e hc ∙ write_other L a b d hb

pub unwrap_ok : {E A : Type 0} {x y : A} → ◌≡◌ {A = Result E A} (ok x) (ok y) → x ≡ y
unwrap_ok e = cc

pub write-Present : (L : Ledger) (a b d : Bytes) → Present L a → Present (write L b d) a
write-Present L a b d (v, e) = elim (Bool-cases (bytes_eq a b)) [
  | inl same ↦ (d, rw same refl)
  | inr differ ↦ (v, rw differ e)
]

pub three_writes :
    (L : Ledger) (a b c d e f x : Bytes)
    → Present L x
    → Present (write (write (write L a d) b e) c f) x
three_writes L a b c d e f x p =
    write-Present (write (write L a d) b e) x c f
      (write-Present (write L a d) x b e (write-Present L x a d p))

pub commit-Present :
    (accounts : List AccountWithMetadata) (L : Ledger) (a : Bytes)
    → Present L a
    → Present (commit accounts L) a
commit-Present [] L a p = p
commit-Present (x ∷ rest) L a p =
    commit-Present rest (write L x.account_id x.body) a (write-Present L a x.account_id x.body p)

-- An address that a ledger has and one that it has not are different.
pub apart : (L : Ledger) (a b d : Bytes) → L a ≡ some d → L b ≡ none → a ≢ b
apart L a b d ha hb same = absurd (let e : some d ≡ none = sym ha ∙ ap L same ∙ hb in cc)
