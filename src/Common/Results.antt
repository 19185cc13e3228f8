-- ===== src/Common/Results.antt =====
-- Fallible code: a `Result` with its error type, chained by `do`.
use mathlib.Core.Path.{◌≡◌, refl}
use mathlib.Core.Logic.{◌⊎◌, inl, inr}
use mathlib.Core.Bool.{Bool, true, false}
use mathlib.Core.Option.{Option, none, some}

pub data Result {ℓ κ} (E : Type ℓ) (A : Type κ) : Type (ℓ ⊔ κ) where
  ok : A → Result E A
  err : E → Result E A

-- `?`: the rest of the method runs on the value, and an error is passed on.
infixl 5 ◌>>=◌ ◌>>◌
abbrev pub ◌>>=◌ {ℓ κ μ} :
    {E : Type ℓ} {A : Type κ} {B : Type μ} → Result E A → (A → Result E B) → Result E B
err reason >>= rest = err reason
ok value >>= rest = rest value

-- The same where the value carries nothing.
abbrev pub ◌>>◌ {ℓ κ} : {E : Type ℓ} {B : Type κ} → Result E (Unit {0}) → Result E B → Result E B
check >> rest = check >>= λ _. rest

-- `if test { return Err(e) }`
abbrev pub fail_if {ℓ} : {E : Type ℓ} → Bool → E → Result E (Unit {0})
fail_if true e = err e
fail_if false e = ok tt

-- `ok_or`, `ok_or_else` and `map_err` on a value that may be missing.
abbrev pub ok_or {ℓ κ} : {E : Type ℓ} {A : Type κ} → Option A → E → Result E A
ok_or none e = err e
ok_or (some a) e = ok a

pub Result-cases {ℓ κ} :
    {E : Type ℓ} {A : Type κ} (r : Result E A) → ((a : A) × (r ≡ ok a)) ⊎ ((e : E) × (r ≡ err e))
Result-cases (ok a) = inl (a, refl)
Result-cases (err e) = inr (e, refl)

-- Inversion of a bind, and of `ok_or`, that succeed.
pub >>=-eq-ok {ℓ κ μ} :
    {E : Type ℓ} {A : Type κ} {B : Type μ} (m : Result E A) (rest : A → Result E B) {b : B}
    → (m >>= rest) ≡ ok b
    → (value : A) × (m ≡ ok value) × (rest value ≡ ok b)
>>=-eq-ok (err reason) rest e = cc
>>=-eq-ok (ok value) rest e = (value, refl, e)

pub ok_or-eq-ok {ℓ κ} :
    {E : Type ℓ} {A : Type κ} (o : Option A) (e : E) {a : A} → ok_or o e ≡ ok a → o ≡ some a
ok_or-eq-ok none e h = cc
ok_or-eq-ok (some a) e h = cc

pub fail_if-eq-ok {ℓ} : {E : Type ℓ} (b : Bool) (e : E) → fail_if b e ≡ ok tt → b ≡ false
fail_if-eq-ok true e h = cc
fail_if-eq-ok false e h = refl

-- The same for a bind, and for `ok_or`, that fail.
pub >>=-eq-err {ℓ κ μ} :
    {E : Type ℓ} {A : Type κ} {B : Type μ} (m : Result E A) (rest : A → Result E B) {e : E}
    → (m >>= rest) ≡ err e
    → (m ≡ err e) ⊎ ((value : A) × (m ≡ ok value) × (rest value ≡ err e))
>>=-eq-err (err reason) rest h = inl cc
>>=-eq-err (ok value) rest h = inr (value, refl, h)

pub ok_or-eq-err {ℓ κ} :
    {E : Type ℓ} {A : Type κ} (o : Option A) (e : E) {f : E}
    → ok_or o e ≡ err f
    → (o ≡ none) × (f ≡ e)
ok_or-eq-err none e h = (refl, cc)
ok_or-eq-err (some a) e h = cc
