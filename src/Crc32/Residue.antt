-- ===== src/Crc32/Residue.antt =====
-- What a checksum is good for: a list that ends in its own CRC has the CRC 0.
use go_astits.Base.{
  ℕ, zero, suc, ◌*◌, ◌/◌, ◌%◌, ◌^◌, ◌<◌, ◌≡◌, refl, ◌∙◌, arith, false, leb, List, [], ◌∷◌, ◌++◌,
}
use go_astits.Bits.{bit_xor-lt}
use go_astits.Crc32.{crc32_polynomial, differs, shift_bit, shift_bits, update_crc32, compute_crc32}

-- The four bytes of a checksum, as `WriteN(crc, 32)` puts them out.
abbrev pub checksum_bytes : ℕ → List ℕ
checksum_bytes c = c / 2 ^ 24 ∷ c / 2 ^ 16 % 256 ∷ c / 256 % 256 ∷ c % 256 ∷ []

-- The CRC of a list goes on from the CRC of its beginning.
pub update_crc32-append :
    (c : ℕ) (xs ys : List ℕ) → update_crc32 c (xs ++ ys) ≡ update_crc32 (update_crc32 c xs) ys
unfolding update_crc32
update_crc32-append c [] ys = refl
update_crc32-append c (x ∷ xs) ys = update_crc32-append (shift_bits 8 c x) xs ys

shift_bit-lt : (c b : ℕ) → shift_bit c b < 2 ^ 32
unfolding shift_bit
shift_bit-lt c b =
    ground (arith, bit_xor-lt 32 (c * 2 % 2 ^ 32) 0x04C11DB7 (omega arith) (omega arith))

shift_bits-lt : (n c b : ℕ) → c < 2 ^ 32 → shift_bits n c b < 2 ^ 32
unfolding shift_bits
shift_bits-lt zero c b h = h
shift_bits-lt (suc n) c b h = shift_bits-lt n (shift_bit c b) (b * 2 % 2 ^ 8) (shift_bit-lt c b)

pub update_crc32-lt : (c : ℕ) (bs : List ℕ) → c < 2 ^ 32 → update_crc32 c bs < 2 ^ 32
unfolding update_crc32
update_crc32-lt c [] h = h
update_crc32-lt c (b ∷ bs) h = update_crc32-lt (shift_bits 8 c b) bs (shift_bits-lt 8 c b h)

-- The next `n` digits of the byte are those of the register.
abbrev SameTop : ℕ → ℕ → ℕ → Type 0
SameTop zero c b = Unit
SameTop (suc n) c b =
    (differs (leb 0x80000000 c) (leb 0x80 b) ≡ false) × SameTop n (c * 2 % 2 ^ 32) (b * 2 % 2 ^ 8)

abbrev doubled : ℕ → ℕ → ℕ
doubled zero c = c
doubled (suc n) c = doubled n (c * 2 % 2 ^ 32)

-- Then nothing is folded in.
shift_bits-SameTop : (n c b : ℕ) → SameTop n c b → shift_bits n c b ≡ doubled n c
unfolding shift_bits shift_bit
shift_bits-SameTop zero c b h = refl
shift_bits-SameTop (suc n) c b h =
    rw h.0 (shift_bits-SameTop n (c * 2 % 2 ^ 32) (b * 2 % 2 ^ 8) h.1)

top_byte : (c : ℕ) → c < 2 ^ 32 → SameTop 8 c (c / 2 ^ 24)
top_byte c h = (
  ground arith,
  (
    ground arith,
    (
      ground arith,
      (ground arith, (ground arith, (ground arith, (ground arith, (ground arith, tt))))),
    ),
  ),
)

doubled_byte : (c : ℕ) → doubled 8 c ≡ c * 2 ^ 8 % 2 ^ 32
doubled_byte c = omega arith

shift_bits-top : (c b : ℕ) → c < 2 ^ 32 → b ≡ c / 2 ^ 24 → shift_bits 8 c b ≡ c * 2 ^ 8 % 2 ^ 32
shift_bits-top c b h e = rw e (shift_bits-SameTop 8 c (c / 2 ^ 24) (top_byte c h) ∙ doubled_byte c)

checksum_read : (c : ℕ) → c < 2 ^ 32 → update_crc32 c (checksum_bytes c) ≡ 0
unfolding update_crc32
checksum_read c h =
    rw
      (
        shift_bits-top c (c / 2 ^ 24) h refl,
        shift_bits-top (c * 2 ^ 8 % 2 ^ 32) (c / 2 ^ 16 % 256) (omega arith) (omega arith),
        shift_bits-top (c * 2 ^ 8 % 2 ^ 32 * 2 ^ 8 % 2 ^ 32) (c / 256 % 256) (omega arith)
            (omega arith),
        shift_bits-top (c * 2 ^ 8 % 2 ^ 32 * 2 ^ 8 % 2 ^ 32 * 2 ^ 8 % 2 ^ 32) (c % 256)
            (omega arith) (omega arith),
      )
      (omega arith)

-- A list of bytes followed by the four bytes of its own CRC, the highest first, has the CRC 0.
pub compute_crc32-checksum_bytes :
    (bs : List ℕ) → compute_crc32 (bs ++ checksum_bytes (compute_crc32 bs)) ≡ 0
unfolding compute_crc32
compute_crc32-checksum_bytes bs =
    update_crc32-append crc32_polynomial bs (checksum_bytes (compute_crc32 bs))
    ∙ checksum_read (compute_crc32 bs) (update_crc32-lt crc32_polynomial bs (omega arith))
