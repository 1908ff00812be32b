-- ===== src/Bits.antt =====
-- The bit operations of Go on unsigned numbers, as arithmetic: masks, shifts and fields that do
-- not overlap. `x >> k` is `x / 2 ^ k`, and `x << k` of a `w`-bit number is `x * 2 ^ k % 2 ^ w`.
mod Step
use Step.{and_low, or_low, xor_low, differ-le}
use Prim.Native.Nat.{differ}
use native.Mathlib.Nat.{pow-suc, one-le-pow}
use go_astits.Base.{
  ℕ, zero, suc, ◌+◌, ◌-◌, ◌*◌, ◌/◌, ◌%◌, ◌^◌, ◌<◌, ◌≤◌, bit_and, bit_or, bit_xor, ◌≡◌, refl, ap,
  arith, Bool, true, false, ltb,
}

double_field : (q k : ℕ) → q * 2 ^ suc k ≡ 2 * (q * 2 ^ k)
double_field q k = omega (arith, ap (λ (t : ℕ). q * t) (pow-suc 2 k))

half_of_double : (x r : ℕ) → (2 * x + r) / 2 ≡ x + r / 2
half_of_double x r = omega arith

-- The digits below the mask's own do not matter.
and_above : (k q r m : ℕ) → r < 2 ^ k → bit_and (q * 2 ^ k + r) (m * 2 ^ k) ≡ bit_and q m * 2 ^ k
and_above zero q r m h =
    let e : q * 1 + r ≡ q = omega arith in
    let e' : m * 1 ≡ m = omega arith in
    let e'' : bit_and q m * 1 ≡ bit_and q m = omega arith in ground arith
and_above (suc k) q r m h = ground (
  arith,
  double_field q k,
  double_field m k,
  double_field (bit_and q m) k,
  and_low (q * 2 ^ suc k + r) (m * 2 ^ suc k),
  and_above k q (r / 2) m (omega (arith, pow-suc 2 k)),
)

-- `a & (m << k)` keeps what `m` keeps of `a >> k`.
pub bit_and_shifted : (k a m : ℕ) → bit_and a (m * 2 ^ k) ≡ bit_and (a / 2 ^ k) m * 2 ^ k
bit_and_shifted k a m = ground (arith, one-le-pow k 2, and_above k (a / 2 ^ k) (a % 2 ^ k) m)

bit_and-zero : (n a : ℕ) → a ≤ n → bit_and a 0 ≡ 0
bit_and-zero n zero h = refl
bit_and-zero zero (suc a) h = absurd (omega arith)
bit_and-zero (suc n) (suc a) h =
    ground (arith, and_low (suc a) 0, bit_and-zero n (suc a / 2) (omega arith))

bit_or-zero : (n a : ℕ) → a ≤ n → bit_or a 0 ≡ a
bit_or-zero n zero h = refl
bit_or-zero zero (suc a) h = absurd (omega arith)
bit_or-zero (suc n) (suc a) h =
    ground (arith, or_low (suc a) 0, bit_or-zero n (suc a / 2) (omega arith))

low_mask : (k q r : ℕ) → r < 2 ^ k → bit_and (q * 2 ^ k + r) (2 ^ k - 1) ≡ r
low_mask zero q r h = ground (arith, bit_and-zero (q * 1 + r) (q * 1 + r))
low_mask (suc k) q r h = ground (
  arith,
  double_field q k,
  pow-suc 2 k,
  one-le-pow k 2,
  and_low (q * 2 ^ suc k + r) (2 ^ suc k - 1),
  low_mask k q (r / 2) (omega (arith, pow-suc 2 k)),
)

-- `a & (1 << k - 1)` is the remainder by `2 ^ k`.
pub bit_and_mask : (k a : ℕ) → bit_and a (2 ^ k - 1) ≡ a % 2 ^ k
bit_and_mask k a = ground (arith, one-le-pow k 2, low_mask k (a / 2 ^ k) (a % 2 ^ k))

or_below : (k q r : ℕ) → r < 2 ^ k → bit_or (q * 2 ^ k) r ≡ q * 2 ^ k + r
or_below zero q r h = ground (arith, bit_or-zero (q * 1) (q * 1))
or_below (suc k) q r h = ground (
  arith,
  double_field q k,
  or_low (q * 2 ^ suc k) r,
  or_below k q (r / 2) (omega (arith, pow-suc 2 k)),
)

-- `a | r` is a sum where `r` stays below the digits of `a`.
pub bit_or_disjoint : (k a r : ℕ) → a % 2 ^ k ≡ 0 → r < 2 ^ k → bit_or a r ≡ a + r
bit_or_disjoint k a r e h = ground (arith, one-le-pow k 2, or_below k (a / 2 ^ k) r)

-- `a & m > 0`
pub has_bit : ℕ → ℕ → Bool
has_bit a m = ltb 0 (bit_and a m)

-- A flag as the digit that it is written as.
abbrev pub digit : Bool → ℕ
digit true = 1
digit false = 0

pub digit-le : (b : Bool) → digit b < 2
digit-le true = omega arith
digit-le false = omega arith

bit_and-one : (a : ℕ) → bit_and a 1 ≡ a % 2
bit_and-one a = bit_and_mask 1 a

le-mul-one : (x : ℕ) → 1 * x ≡ x
le-mul-one x = omega arith

pub has_bit-digit : (k a : ℕ) (t : Bool) → a / 2 ^ k % 2 ≡ digit t → has_bit a (2 ^ k) ≡ t
unfolding has_bit
has_bit-digit k a true h =
    ground
      (arith, bit_and_shifted k a 1, bit_and-one (a / 2 ^ k), one-le-pow k 2, le-mul-one (2 ^ k))
has_bit-digit k a false h = ground (arith, bit_and_shifted k a 1, bit_and-one (a / 2 ^ k))

pub bit_xor-lt : (k a b : ℕ) → a < 2 ^ k → b < 2 ^ k → bit_xor a b < 2 ^ k
bit_xor-lt zero a b p q =
    let e : a ≡ 0 = omega arith in let e' : b ≡ 0 = omega arith in rw (e, e') (omega arith)
bit_xor-lt (suc k) a b p q = omega (
  arith,
  pow-suc 2 k,
  xor_low a b,
  differ-le (a % 2) (b % 2) (omega arith) (omega arith),
  bit_xor-lt k (a / 2) (b / 2) (omega (arith, pow-suc 2 k)) (omega (arith, pow-suc 2 k)),
)

-- `a | b`, as loose as Go's.
infixl 60 ◌<|>◌
abbrev pub ◌<|>◌ : ℕ → ℕ → ℕ
a <|> b = bit_or a b

-- One more field under those that are there.
pub or_next : {a s : ℕ} (k x : ℕ) → a ≡ s → s % 2 ^ k ≡ 0 → x < 2 ^ k → (a <|> x) ≡ s + x
or_next {s} k x e h l = rw e (bit_or_disjoint k s x h l)
