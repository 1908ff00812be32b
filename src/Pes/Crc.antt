-- ===== src/Pes/Crc.antt =====
-- The checksum of the previous packet in a PES header.
use go_astits.Base.{ℕ, ◌/◌, ◌^◌, ◌<◌, ◌≡◌, refl, arith, [], ◌∷◌}
use go_astits.Bits.{◌<|>◌, bit_or_disjoint}
use go_astits.Astikit.{BytesIterator, IsBytesIterator}
use go_astits.Codec.{Reads, Reads-bind, Reads-bytes, Reads-return}
use go_astits.Pes.Parse.{parse_crc}

high_byte_lost : (x y : ℕ) → x < 256 → y < 256 → (x / 2 ^ 8 <|> y) ≡ y
high_byte_lost x y p q =
    let e : x / 2 ^ 8 ≡ 0 = omega arith in
    rw e (omega (arith, bit_or_disjoint 8 0 y (omega arith) q))

module _ {r : BytesIterator} (ir : IsBytesIterator r) where
  -- Of the two bytes of a checksum, the value that is read is the second byte alone.
  pub parse_crc-Reads : (x y : ℕ) → x < 256 → y < 256 → Reads ir (parse_crc r) (x ∷ y ∷ []) y
  unfolding parse_crc
  parse_crc-Reads x y p q =
      Reads-bind ir _ (x ∷ y ∷ []) [] (Reads-bytes ir 2 (x ∷ y ∷ []) (omega arith) refl)
        (Reads-return ir _ _ (high_byte_lost x y p q))
