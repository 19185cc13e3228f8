-- ===== src/Common/Lists.antt =====
-- Lists measured and indexed by native numbers, under the library's names.
use Prim.Native.Nat.{ℕ, zero, suc, ◌+◌, ◌-◌, ◌≤◌, ◌<◌, min}
use mathlib.Core.Path.{◌≡◌, refl, sym, ap, ap₂, ◌∙◌}
use mathlib.Core.List.{List, [], ◌∷◌, ◌++◌}
use mathlib.Core.Option.{Option, none, some}
use native.Mathlib.Omega.{arith}

module _ {ℓ} {A : Type ℓ} where
  abbrev pub length : List A → ℕ
  length [] = 0
  length (x ∷ xs) = suc (length xs)

  abbrev pub get_elem? : List A → ℕ → Option A
  get_elem? [] i = none
  get_elem? (x ∷ xs) zero = some x
  get_elem? (x ∷ xs) (suc i) = get_elem? xs i

  abbrev pub get_or : List A → ℕ → A → A
  get_or [] i d = d
  get_or (x ∷ xs) zero d = x
  get_or (x ∷ xs) (suc i) d = get_or xs i d

  abbrev pub take : ℕ → List A → List A
  take zero xs = []
  take (suc n) [] = []
  take (suc n) (x ∷ xs) = x ∷ take n xs

  abbrev pub drop : ℕ → List A → List A
  drop zero xs = xs
  drop (suc n) [] = []
  drop (suc n) (x ∷ xs) = drop n xs

  abbrev pub replicate : ℕ → A → List A
  replicate zero a = []
  replicate (suc n) a = a ∷ replicate n a

module _ {ℓ} {A : Type ℓ} where
  -- The slice `xs[from..to]`.
  abbrev pub slice : List A → ℕ → ℕ → List A
  slice xs from to = take (to - from) (drop from xs)

  pub length-append : (xs ys : List A) → length (xs ++ ys) ≡ length xs + length ys
  length-append [] ys = omega arith
  length-append (x ∷ xs) ys = omega (arith, length-append xs ys)

  pub length-take : (n : ℕ) (xs : List A) → length (take n xs) ≡ min n (length xs)
  length-take zero xs = omega arith
  length-take (suc n) [] = omega arith
  length-take (suc n) (x ∷ xs) = omega (arith, length-take n xs)

  pub length-drop : (n : ℕ) (xs : List A) → length (drop n xs) ≡ length xs - n
  length-drop zero xs = omega arith
  length-drop (suc n) [] = omega arith
  length-drop (suc n) (x ∷ xs) = omega (arith, length-drop n xs)

  pub length-replicate : (n : ℕ) (a : A) → length (replicate n a) ≡ n
  length-replicate zero a = refl
  length-replicate (suc n) a = ap suc (length-replicate n a)

  pub take-append-drop : (n : ℕ) (xs : List A) → take n xs ++ drop n xs ≡ xs
  take-append-drop zero xs = refl
  take-append-drop (suc n) [] = refl
  take-append-drop (suc n) (x ∷ xs) = ap (λ l. x ∷ l) (take-append-drop n xs)

  -- A prefix of known length is taken off whole.
  pub take-append_left : (n : ℕ) (xs ys : List A) → length xs ≡ n → take n (xs ++ ys) ≡ xs
  take-append_left zero [] ys h = refl
  take-append_left zero (x ∷ xs) ys h = absurd (omega arith)
  take-append_left (suc n) [] ys h = absurd (omega arith)
  take-append_left (suc n) (x ∷ xs) ys h = ap (λ l. x ∷ l) (take-append_left n xs ys (omega arith))

  pub drop-append_left : (n : ℕ) (xs ys : List A) → length xs ≡ n → drop n (xs ++ ys) ≡ ys
  drop-append_left zero [] ys h = refl
  drop-append_left zero (x ∷ xs) ys h = absurd (omega arith)
  drop-append_left (suc n) [] ys h = absurd (omega arith)
  drop-append_left (suc n) (x ∷ xs) ys h = drop-append_left n xs ys (omega arith)

  drop_nil : (n : ℕ) → drop {A = A} n [] ≡ []
  drop_nil zero = refl
  drop_nil (suc n) = refl

  -- Dropping twice, with the sum given by an equation.
  pub drop-drop : (m n k : ℕ) (xs : List A) → k ≡ m + n → drop n (drop m xs) ≡ drop k xs
  drop-drop zero n k xs h = ap (λ j. drop j xs) (omega arith)
  drop-drop (suc m) n k [] h = drop_nil n ∙ sym (drop_nil k)
  drop-drop (suc m) n zero (x ∷ xs) h = absurd (omega arith)
  drop-drop (suc m) n (suc k) (x ∷ xs) h = drop-drop m n k xs (omega arith)

  take-all : (n : ℕ) (xs : List A) → length xs ≡ n → take n xs ≡ xs
  take-all zero [] h = refl
  take-all zero (x ∷ xs) h = absurd (omega arith)
  take-all (suc n) [] h = refl
  take-all (suc n) (x ∷ xs) h = ap (λ l. x ∷ l) (take-all n xs (omega arith))

  pub slice-all : (n : ℕ) (xs : List A) → length xs ≡ n → slice xs 0 n ≡ xs
  slice-all n xs h = ap (λ k. take k xs) (omega arith) ∙ take-all n xs h

  pub slice-prefix : (n : ℕ) (xs ys : List A) → length xs ≡ n → slice (xs ++ ys) 0 n ≡ xs
  slice-prefix n xs ys h = ap (λ k. take k (xs ++ ys)) (omega arith) ∙ take-append_left n xs ys h

  -- A slice past a prefix of length k is a slice of the rest.
  pub slice-skip :
      (k from to : ℕ) (xs ys : List A)
      → length xs ≡ k
      → slice (xs ++ ys) (k + from) (k + to) ≡ slice ys from to
  slice-skip k from to xs ys h =
      let e : k + to - (k + from) ≡ to - from = omega arith in
      ap₂ take e (
        sym (drop-drop k from (k + from) (xs ++ ys) refl)
        ∙ ap (drop from) (drop-append_left k xs ys h))

  -- The slice that lies between a prefix and the rest.
  pub slice-middle :
      (k n : ℕ) (xs ys zs : List A)
      → length xs ≡ k
      → length ys ≡ n
      → slice (xs ++ (ys ++ zs)) k (k + n) ≡ ys
  slice-middle k n xs ys zs hx hy =
      let e : k + n - k ≡ n = omega arith in
      rw (e, drop-append_left k xs (ys ++ zs) hx) (take-append_left n ys zs hy)

  -- Three consecutive slices that cover a list make it up.
  pub slice-join :
      (a b c : ℕ) (xs : List A)
      → length xs ≡ a + b + c
      → slice xs 0 a ++ (slice xs a (a + b) ++ slice xs (a + b) (a + b + c)) ≡ xs
  slice-join a b c xs h =
      let e1 : a - 0 ≡ a = omega arith in
      let e2 : a + b - a ≡ b = omega arith in
      let e3 : a + b + c - (a + b) ≡ c = omega arith in
      let last = take-all c (drop (a + b) xs) (length-drop (a + b) xs ∙ omega arith) in
      rw (e1, e2, e3, last, ← drop-drop a b (a + b) xs refl)
        (ap (λ l. take a xs ++ l) (take-append-drop b (drop a xs)) ∙ take-append-drop a xs)

module _ {ℓ} {A : Type ℓ} where
  -- Two concatenations agree exactly in their parts, once the first parts are as long.
  pub append-injective :
      (xs ys us vs : List A) → length xs ≡ length us → xs ++ ys ≡ us ++ vs → (xs ≡ us) × (ys ≡ vs)
  append-injective [] ys [] vs h e = (refl, e)
  append-injective [] ys (u ∷ us) vs h e = absurd (omega arith)
  append-injective (x ∷ xs) ys [] vs h e = absurd (omega arith)
  append-injective (x ∷ xs) ys (u ∷ us) vs h e =
      let rest = append-injective xs ys us vs (omega arith) (ground arith) in
      (ground (arith, rest), rest.1)

  pub get_elem?-lt : (xs : List A) (i : ℕ) → i < length xs → (x : A) × (get_elem? xs i ≡ some x)
  get_elem?-lt [] i h = elim h [ ]
  get_elem?-lt (x ∷ xs) zero h = (x, refl)
  get_elem?-lt (x ∷ xs) (suc i) h = get_elem?-lt xs i (omega arith)

  pub get_elem?-ge : (xs : List A) (i : ℕ) → length xs ≤ i → get_elem? xs i ≡ none
  get_elem?-ge [] i h = refl
  get_elem?-ge (x ∷ xs) zero h = elim h [ ]
  get_elem?-ge (x ∷ xs) (suc i) h = get_elem?-ge xs i (omega arith)

  pub get_elem?-append_lt :
      (xs ys : List A) (i : ℕ) → i < length xs → get_elem? (xs ++ ys) i ≡ get_elem? xs i
  get_elem?-append_lt [] ys i h = elim h [ ]
  get_elem?-append_lt (x ∷ xs) ys zero h = refl
  get_elem?-append_lt (x ∷ xs) ys (suc i) h = get_elem?-append_lt xs ys i (omega arith)

  pub get_elem?-append_length :
      (xs ys : List A) (y : A) → get_elem? (xs ++ y ∷ ys) (length xs) ≡ some y
  get_elem?-append_length [] ys y = refl
  get_elem?-append_length (x ∷ xs) ys y = get_elem?-append_length xs ys y
