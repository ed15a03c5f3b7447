-- ===== src/Prelude/Bits.antt =====
-- Facts about `&` at variables.
use Prim.Native.Nat.{ℕ, zero, suc, ◌/◌, ◌≤◌, min, bit_and, digits, bit_and-bitwise}
use native.Mathlib.Omega.{arith}

abbrev conjunction : ℕ → ℕ → ℕ → ℕ
conjunction n a b = digits (λ d. zero) min n a b

conjunction-le : (n a b : ℕ) → conjunction n a b ≤ b
conjunction-le zero a b = omega arith
conjunction-le (suc n) zero b = omega arith
conjunction-le (suc n) (suc a) b = omega (arith, conjunction-le n (suc a / 2) (b / 2))

-- A masked number is at most the mask.
pub bit_and-le : (a b : ℕ) → bit_and a b ≤ b
bit_and-le a b = omega (arith, bit_and-bitwise a b, conjunction-le a a b)
