-- ===== src/Base/Int.antt =====
-- Go's `int` where the code lets it go below zero. `negsuc n` is -(n + 1).
use Prim.Native.Nat.{ℕ, ◌-◌, ◌%◌}
use go_astits.Base.Tests.{leb, if◌then◌else◌}

pub data ℤ : Type 0 where
  pos : ℕ → ℤ
  negsuc : ℕ → ℤ

-- `a - b` of two numbers.
abbrev pub sub_ℕ : ℕ → ℕ → ℤ
sub_ℕ a b = if leb b a then pos (a - b) else negsuc (b - a - 1)

abbrev pub pos_part : ℤ → ℕ
pos_part (pos n) = n
pos_part (negsuc n) = 0

-- `uint8(z)`
abbrev pub uint8 : ℤ → ℕ
uint8 (pos n) = n % 256
uint8 (negsuc n) = 255 - n % 256
