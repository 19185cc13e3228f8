-- ===== src/Common/Pigeonhole.antt =====
-- As many different numbers below n as a list has: at most n.
use private_m_of_n_multisig.Common.Tests.{◌==◌, ==_iff, Bool-cases, if◌then◌else◌}
use private_m_of_n_multisig.Common.Lists.{length}
use private_m_of_n_multisig.Common.Bytes.{All}
use Prim.Native.Nat.{ℕ, zero, suc, ◌+◌, ◌≤◌, ◌<◌}
use mathlib.Core.Path.{◌≡◌}
use mathlib.Core.Logic.{◌≢◌, inl, inr}
use mathlib.Core.List.{List, [], ◌∷◌}
use native.Mathlib.Omega.{arith}

abbrev pub AreDifferent : List ℕ → Type 0
AreDifferent [] = Unit
AreDifferent (x ∷ xs) = All (λ y. y ≢ x) xs × AreDifferent xs

abbrev remove : ℕ → List ℕ → List ℕ
remove k [] = []
remove k (x ∷ xs) = let rest = remove k xs in if x == k then rest else x ∷ rest

remove-All : (P : ℕ → Type 0) (k : ℕ) (xs : List ℕ) → All P xs → All P (remove k xs)
remove-All P k [] h = tt
remove-All P k (x ∷ xs) h = elim (Bool-cases (x == k)) [
  | inl same ↦ rw same (remove-All P k xs h.1)
  | inr differ ↦ rw differ (h.0, remove-All P k xs h.1)
]

remove-AreDifferent : (k : ℕ) (xs : List ℕ) → AreDifferent xs → AreDifferent (remove k xs)
remove-AreDifferent k [] h = tt
remove-AreDifferent k (x ∷ xs) h = elim (Bool-cases (x == k)) [
  | inl same ↦ rw same (remove-AreDifferent k xs h.1)
  | inr differ ↦ rw differ (remove-All (λ y. y ≢ x) k xs h.0, remove-AreDifferent k xs h.1)
]

remove_below : (n : ℕ) (xs : List ℕ) → All (λ x. x < suc n) xs → All (λ x. x < n) (remove n xs)
remove_below n [] h = tt
remove_below n (x ∷ xs) h = elim (Bool-cases (x == n)) [
  | inl same ↦ rw same (remove_below n xs h.1)
  | inr differ ↦ rw differ (ground (arith, h.0), remove_below n xs h.1)
]

length-remove_absent :
    (k : ℕ) (xs : List ℕ) → All (λ y. y ≢ k) xs → length xs ≤ length (remove k xs)
length-remove_absent k [] h = omega arith
length-remove_absent k (x ∷ xs) h = ground (arith, h.0, length-remove_absent k xs h.1)

length-remove : (k : ℕ) (xs : List ℕ) → AreDifferent xs → length xs ≤ length (remove k xs) + 1
length-remove k [] h = omega arith
length-remove k (x ∷ xs) h = elim (Bool-cases (x == k)) [
  | inl same ↦
      let e : x ≡ k = (==_iff x k).0 same in
      rw same (omega (arith, length-remove_absent k xs (rw e at (h.0))))
  | inr differ ↦ rw differ (omega (arith, length-remove k xs h.1))
]

pub pigeonhole : (n : ℕ) (xs : List ℕ) → All (λ x. x < n) xs → AreDifferent xs → length xs ≤ n
pigeonhole zero [] below d = omega arith
pigeonhole zero (x ∷ xs) below d = absurd (omega (arith, below.0))
pigeonhole (suc n) xs below d = omega (
  arith,
  length-remove n xs d,
  pigeonhole n (remove n xs) (remove_below n xs below) (remove-AreDifferent n xs d),
)
