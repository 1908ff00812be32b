-- ===== src/Bits/Step.antt =====
-- One equation for the lowest digit of each bit operation, from the digits that it stands for.
use Prim.Native.Nat.{max, digits, bit_and-bitwise, bit_or-bitwise, bit_xor-bitwise, differ}
use native.Mathlib.Nat.{le_refl}
use go_astits.Base.{
  ℕ, zero, suc, ◌+◌, ◌*◌, ◌/◌, ◌%◌, ◌≤◌, min, bit_and, bit_or, bit_xor, ◌≡◌, refl, arith, ap,
}

module _ (z : ℕ → ℕ) (f : ℕ → ℕ → ℕ) where
  -- Fuel above the number itself changes nothing.
  spare : (fuel more a b : ℕ) → a ≤ fuel → a ≤ more → digits z f fuel a b ≡ digits z f more a b
  spare zero zero a b p q = refl
  spare zero (suc m) zero b p q = refl
  spare (suc n) zero zero b p q = refl
  spare (suc n) (suc m) zero b p q = refl
  spare zero (suc m) (suc a) b p q = absurd (omega arith)
  spare (suc n) zero (suc a) b p q = absurd (omega arith)
  spare (suc n) (suc m) (suc a) b p q =
      ap (λ t. t * 2 + f (suc a % 2) (b % 2))
        (spare n m (suc a / 2) (b / 2) (omega arith) (omega arith))

  low_digit :
      (a b : ℕ)
      → digits z f (suc a) (suc a) b
        ≡ digits z f (suc a / 2) (suc a / 2) (b / 2) * 2 + f (suc a % 2) (b % 2)
  low_digit a b =
      ap (λ t. t * 2 + f (suc a % 2) (b % 2))
        (spare a (suc a / 2) (suc a / 2) (b / 2) (omega arith) (le_refl _))

pub and_low : (x y : ℕ) → bit_and x y ≡ min (x % 2) (y % 2) + 2 * bit_and (x / 2) (y / 2)
and_low zero y = simp bit_and-bitwise (omega arith)
and_low (suc x) y = simp bit_and-bitwise (omega (arith, low_digit (λ t. 0) min x y))

pub or_low : (x y : ℕ) → bit_or x y ≡ max (x % 2) (y % 2) + 2 * bit_or (x / 2) (y / 2)
or_low zero y = simp bit_or-bitwise (omega arith)
or_low (suc x) y = simp bit_or-bitwise (omega (arith, low_digit (λ t. t) max x y))

differ-zero : (b : ℕ) → differ 0 b ≡ b
differ-zero b = refl

pub xor_low : (x y : ℕ) → bit_xor x y ≡ differ (x % 2) (y % 2) + 2 * bit_xor (x / 2) (y / 2)
xor_low zero y = simp (bit_xor-bitwise, differ-zero) (omega arith)
xor_low (suc x) y = simp bit_xor-bitwise (omega (arith, low_digit (λ t. t) differ x y))

pub differ-le : (x y : ℕ) → x ≤ 1 → y ≤ 1 → differ x y ≤ 1
differ-le zero y p q = q
differ-le (suc x) zero p q = p
differ-le (suc zero) (suc zero) p q = omega arith
differ-le (suc zero) (suc (suc y)) p q = absurd (omega arith)
differ-le (suc (suc x)) (suc y) p q = absurd (omega arith)
