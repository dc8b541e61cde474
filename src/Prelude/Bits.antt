-- ===== src/Prelude/Bits.antt =====
-- The lowest digits of the bitwise operations, and flags as masks.
use Prim.Native.Nat.{
  ℕ, zero, suc, ◌/◌, ◌%◌, min, max, bit_and, bit_or, digits, bit_and-bitwise, bit_or-bitwise,
}
use mathlib.Core.Path.{◌≡◌, refl}
use mathlib.Core.Bool.{Bool, not}
use native.Mathlib.Omega.{arith}
use peos.Prelude.Tests.{◌==◌}

pub bit_and_low : (a b : ℕ) → bit_and a b % 2 ≡ min (a % 2) (b % 2)
bit_and_low zero b = omega (arith, bit_and-bitwise 0 b)
bit_and_low (suc a) b = omega (arith, bit_and-bitwise (suc a) b)

pub bit_or_low : (a b : ℕ) → bit_or a b % 2 ≡ max (a % 2) (b % 2)
bit_or_low zero b = omega (arith, bit_or-bitwise 0 b)
bit_or_low (suc a) b = omega (arith, bit_or-bitwise (suc a) b)

digits-zero : (n a : ℕ) → digits (λ b. zero) min n a 0 ≡ 0
digits-zero zero a = refl
digits-zero (suc n) zero = refl
digits-zero (suc n) (suc a) = omega (arith, digits-zero n (suc a / 2))

pub bit_and-one : (a : ℕ) → bit_and a 1 ≡ a % 2
bit_and-one zero = omega (arith, bit_and-bitwise 0 1)
bit_and-one (suc a) = omega (arith, bit_and-bitwise (suc a) 1, digits-zero a (suc a / 2))

-- `flags & mask` as a condition.
abbrev pub has : ℕ → ℕ → Bool
has flags mask = not (bit_and flags mask == 0)
