-- ===== src/Crc32.antt =====
-- `crc32.go`: the CRC of a PSI section, bit by bit.
use go_astits.Base.{
  ℕ, zero, suc, ◌*◌, ◌%◌, ◌^◌, bit_xor, Bool, true, false, if◌then◌else◌, leb, List, [], ◌∷◌,
}
pub mod Residue

abbrev pub crc32_polynomial : ℕ
crc32_polynomial = 0xffffffff

-- `a != b` on Boolean values
abbrev pub differs : Bool → Bool → Bool
differs true true = false
differs true false = true
differs false b = b

-- The body of the inner loop, at the current digit of `b`.
unfoldable pub shift_bit : ℕ → ℕ → ℕ
shift_bit crc32 b =
    let shifted = crc32 * 2 % 2 ^ 32 in
    if differs (leb 0x80000000 crc32) (leb 0x80 b) then bit_xor shifted 0x04C11DB7 else shifted

-- The inner loop, `n` digits of the byte.
unfoldable pub shift_bits : ℕ → ℕ → ℕ → ℕ
shift_bits zero crc32 b = crc32
shift_bits (suc n) crc32 b = shift_bits n (shift_bit crc32 b) (b * 2 % 2 ^ 8)

unfoldable pub update_crc32 : ℕ → List ℕ → ℕ
update_crc32 crc32 [] = crc32
update_crc32 crc32 (b ∷ bs) = update_crc32 (shift_bits 8 crc32 b) bs

unfoldable pub compute_crc32 : List ℕ → ℕ
compute_crc32 bs = update_crc32 crc32_polynomial bs
