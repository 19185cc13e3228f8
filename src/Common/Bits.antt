-- ===== src/Common/Bits.antt =====
-- The two bit operations of the Merkle code at variables: `x & 1` and `x ^ 1`.
use Prim.Native.Nat.{
  ℕ, zero, suc, ◌+◌, ◌-◌, ◌*◌, ◌/◌, ◌%◌, ◌≤◌, ◌<◌, min, bit_and, bit_xor, digits, differ,
  bit_and-bitwise, bit_xor-bitwise,
}
use mathlib.Core.Path.{◌≡◌, refl}
use native.Mathlib.Omega.{arith}

and_digits-zero : (n a : ℕ) → digits (λ b. zero) min n a 0 ≡ 0
and_digits-zero zero a = refl
and_digits-zero (suc n) zero = refl
and_digits-zero (suc n) (suc a) = omega (arith, and_digits-zero n (suc a / 2))

pub bit_and-one : (a : ℕ) → bit_and a 1 ≡ a % 2
bit_and-one zero = refl
bit_and-one (suc a) = omega (arith, bit_and-bitwise (suc a) 1, and_digits-zero a (suc a / 2))

differ-zero : (x : ℕ) → differ x 0 ≡ x
differ-zero zero = refl
differ-zero (suc x) = refl

differ-one : (x : ℕ) → x < 2 → differ x 1 ≡ 1 - x
differ-one zero h = refl
differ-one (suc zero) h = refl
differ-one (suc (suc x)) h = absurd (omega arith)

xor_digits-zero : (n a : ℕ) → a ≤ n → digits (λ b. b) differ n a 0 ≡ a
xor_digits-zero zero zero h = refl
xor_digits-zero zero (suc a) h = absurd (omega arith)
xor_digits-zero (suc n) zero h = refl
xor_digits-zero (suc n) (suc a) h =
    omega (arith, xor_digits-zero n (suc a / 2) (omega arith), differ-zero (suc a % 2))

-- `x ^ 1` keeps the upper bits and flips the lowest.
pub bit_xor-one : (a : ℕ) → bit_xor a 1 ≡ a / 2 * 2 + (1 - a % 2)
bit_xor-one zero = refl
bit_xor-one (suc a) = omega (
  arith,
  bit_xor-bitwise (suc a) 1,
  xor_digits-zero a (suc a / 2) (omega arith),
  differ-one (suc a % 2) (omega arith),
)
