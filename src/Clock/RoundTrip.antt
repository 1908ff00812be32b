-- ===== src/Clock/RoundTrip.antt =====
-- What is written of a clock reference reads back.
use go_astits.Base.{
  ℕ, ◌+◌, ◌*◌, ◌/◌, ◌%◌, ◌^◌, ◌<◌, ◌≡◌, refl, List, [], ◌∷◌, append_assoc, arith, ◌>>=◌,
}
use go_astits.Bits.{bit_or_disjoint, or_next, bit_and_mask}
use go_astits.Astikit.{BytesIterator, IsBytesIterator, BitsWriter, IsBitsWriter}
use go_astits.Codec.{Reads, Reads-bytes, Reads-bind, Reads-return, Writes}
use go_astits.Clock.{
  ClockReference, parse_pcr, parse_pts_or_dts, parse_escr, write_pcr, write_pts_or_dts, write_escr,
  pcr_bytes_size, pts_or_dts_byte_length, escr_length, pcr_of_bytes, pts_or_dts_of_bytes,
  escr_of_bytes,
}

-- The layout of a PCR: 33 bits of base, 6 ones, 9 bits of extension.
unfoldable pub pcr_bytes : ClockReference → List ℕ
pcr_bytes cr =
    cr.base / 2 ^ 25
    ∷ cr.base / 2 ^ 17 % 256
    ∷ cr.base / 2 ^ 9 % 256
    ∷ cr.base / 2 % 256
    ∷ (cr.base % 2 * 128 + 126 + cr.extension / 256)
    ∷ cr.extension % 256
    ∷ []

-- The layout of a PTS or a DTS: a flag of 4 bits, then 3, 15 and 15 bits, each with a marker bit.
unfoldable pub pts_or_dts_bytes : ℕ → ClockReference → List ℕ
pts_or_dts_bytes flag cr =
    (flag * 16 + cr.base / 2 ^ 30 * 2 + 1)
    ∷ cr.base / 2 ^ 22 % 256
    ∷ (cr.base / 2 ^ 15 % 128 * 2 + 1)
    ∷ cr.base / 2 ^ 7 % 256
    ∷ (cr.base % 128 * 2 + 1)
    ∷ []

-- The layout of an ESCR: two ones, 3, 15 and 15 bits of base and 9 of extension, with marker bits.
unfoldable pub escr_bytes : ClockReference → List ℕ
escr_bytes cr =
    (192 + cr.base / 2 ^ 30 * 8 + 4 + cr.base / 2 ^ 28 % 4)
    ∷ cr.base / 2 ^ 20 % 256
    ∷ (cr.base / 2 ^ 15 % 32 * 8 + 4 + cr.base / 2 ^ 13 % 4)
    ∷ cr.base / 2 ^ 5 % 256
    ∷ (cr.base % 32 * 8 + 4 + cr.extension / 128)
    ∷ (cr.extension % 128 * 2 + 1)
    ∷ []

-- 33 bits of base and 9 of extension.
abbrev pub IsClock : ClockReference → Type 0
IsClock cr = (cr.base < 2 ^ 33) × (cr.extension < 2 ^ 9)

-- A PTS or a DTS has no extension.
abbrev pub IsTimestamp : ClockReference → Type 0
IsTimestamp cr = (cr.base < 2 ^ 33) × (cr.extension ≡ 0)

clock_ext : (a b : ClockReference) → a.base ≡ b.base → a.extension ≡ b.extension → a ≡ b
clock_ext a b p q = λ i. record { base = p i; extension = q i }

pcr_of_bytes-pcr_bytes : (cr : ClockReference) → IsClock cr → pcr_of_bytes (pcr_bytes cr) ≡ cr
unfolding pcr_of_bytes pcr_bytes
pcr_of_bytes-pcr_bytes cr h =
    let b0 = cr.base / 2 ^ 25 in
    let b1 = cr.base / 2 ^ 17 % 256 in
    let b2 = cr.base / 2 ^ 9 % 256 in
    let b3 = cr.base / 2 % 256 in
    let b4 = cr.base % 2 * 128 + 126 + cr.extension / 256 in
    let p1 = bit_or_disjoint 40 (b0 * 2 ^ 40) (b1 * 2 ^ 32) (omega arith) (omega arith) in
    let p2 = or_next 32 (b2 * 2 ^ 24) p1 (omega arith) (omega arith) in
    let p3 = or_next 24 (b3 * 2 ^ 16) p2 (omega arith) (omega arith) in
    let p4 = or_next 16 (b4 * 2 ^ 8) p3 (omega arith) (omega arith) in
    let p5 = or_next 8 (cr.extension % 256) p4 (omega arith) (omega arith) in
    clock_ext _ _ (rw p5 (omega arith)) (rw (p5, bit_and_mask 9) (omega arith))

pts_or_dts_of_bytes-pts_or_dts_bytes :
    (flag : ℕ) (cr : ClockReference)
    → flag < 16
    → IsTimestamp cr
    → pts_or_dts_of_bytes (pts_or_dts_bytes flag cr) ≡ cr
unfolding pts_or_dts_of_bytes pts_or_dts_bytes
pts_or_dts_of_bytes-pts_or_dts_bytes flag cr hf h =
    let b0 = (flag * 16 + cr.base / 2 ^ 30 * 2 + 1) / 2 % 8 in
    let b1 = cr.base / 2 ^ 22 % 256 in
    let b2 = (cr.base / 2 ^ 15 % 128 * 2 + 1) / 2 % 128 in
    let b3 = cr.base / 2 ^ 7 % 256 in
    let p1 = bit_or_disjoint 30 (b0 * 2 ^ 30) (b1 * 2 ^ 22) (omega arith) (omega arith) in
    let p2 = or_next 22 (b2 * 2 ^ 15) p1 (omega arith) (omega arith) in
    let p3 = or_next 15 (b3 * 2 ^ 7) p2 (omega arith) (omega arith) in
    let p4 = or_next 7 ((cr.base % 128 * 2 + 1) / 2 % 128) p3 (omega arith) (omega arith) in
    clock_ext _ _
      (rw
        (
          bit_and_mask 3 ((flag * 16 + cr.base / 2 ^ 30 * 2 + 1) / 2),
          bit_and_mask 7 ((cr.base / 2 ^ 15 % 128 * 2 + 1) / 2),
          bit_and_mask 7 ((cr.base % 128 * 2 + 1) / 2),
          p4,
        )
        (omega arith))
      (omega arith)

escr_of_bytes-escr_bytes : (cr : ClockReference) → IsClock cr → escr_of_bytes (escr_bytes cr) ≡ cr
unfolding escr_of_bytes escr_bytes
escr_of_bytes-escr_bytes cr h =
    let b0 = 192 + cr.base / 2 ^ 30 * 8 + 4 + cr.base / 2 ^ 28 % 4 in
    let b1 = cr.base / 2 ^ 20 % 256 in
    let b2 = cr.base / 2 ^ 15 % 32 * 8 + 4 + cr.base / 2 ^ 13 % 4 in
    let b3 = cr.base / 2 ^ 5 % 256 in
    let b4 = cr.base % 32 * 8 + 4 + cr.extension / 128 in
    let b5 = cr.extension % 128 * 2 + 1 in
    let p1 =
      bit_or_disjoint 39 (b0 / 8 % 8 * 2 ^ 39) (b0 % 4 * 2 ^ 37) (omega arith) (omega arith) in
    let p2 = or_next 37 (b1 * 2 ^ 29) p1 (omega arith) (omega arith) in
    let p3 = or_next 29 (b2 / 8 * 2 ^ 24) p2 (omega arith) (omega arith) in
    let p4 = or_next 24 (b2 % 4 * 2 ^ 22) p3 (omega arith) (omega arith) in
    let p5 = or_next 22 (b3 * 2 ^ 14) p4 (omega arith) (omega arith) in
    let p6 = or_next 14 (b4 / 8 * 2 ^ 9) p5 (omega arith) (omega arith) in
    let p7 = or_next 9 (b4 % 4 * 2 ^ 7) p6 (omega arith) (omega arith) in
    let p8 = or_next 7 (b5 / 2) p7 (omega arith) (omega arith) in
    clock_ext _ _
      (rw (bit_and_mask 3 (b0 / 8), bit_and_mask 2 b0, bit_and_mask 2 b2, bit_and_mask 2 b4, p8)
        (omega arith))
      (rw
        (
          bit_and_mask 3 (b0 / 8),
          bit_and_mask 2 b0,
          bit_and_mask 2 b2,
          bit_and_mask 2 b4,
          p8,
          bit_and_mask 9,
        )
        (omega arith))

module _ {w : BitsWriter} (iw : IsBitsWriter w) where
  pub write_pcr-Writes :
      (cr : ClockReference) → IsClock cr → Writes iw (write_pcr w cr) (pcr_bytes cr) pcr_bytes_size
  unfolding write_pcr pcr_bytes
  write_pcr-Writes cr h = record {
    run = λ out. simp (iw.write_n-at, write_pcr, ◌>>=◌, append_assoc) (ground arith);
  }

  pub write_pts_or_dts-Writes :
      (flag : ℕ) (cr : ClockReference)
      → flag < 16
      → IsTimestamp cr
      → Writes iw (write_pts_or_dts w flag cr) (pts_or_dts_bytes flag cr) pts_or_dts_byte_length
  unfolding write_pts_or_dts pts_or_dts_bytes
  write_pts_or_dts-Writes flag cr hf h = record {
    run = λ out.
        simp (iw.write_n-at, iw.write_bool-at, write_pts_or_dts, ◌>>=◌, append_assoc)
          (ground arith);
  }

  pub write_escr-Writes :
      (cr : ClockReference) → IsClock cr → Writes iw (write_escr w cr) (escr_bytes cr) escr_length
  unfolding write_escr escr_bytes
  write_escr-Writes cr h = record {
    run = λ out.
        simp (iw.write_n-at, iw.write_bool-at, write_escr, ◌>>=◌, append_assoc) (ground arith);
  }

module _ {r : BytesIterator} (ir : IsBytesIterator r) where
  pub parse_pcr-Reads :
      (cr : ClockReference) → IsClock cr → Reads ir (parse_pcr r) (pcr_bytes cr) cr
  unfolding parse_pcr pcr_bytes
  parse_pcr-Reads cr h =
      Reads-bind ir _ (pcr_bytes cr) [] (Reads-bytes ir 6 (pcr_bytes cr) (omega arith) refl)
        (Reads-return ir _ _ (pcr_of_bytes-pcr_bytes cr h))

  pub parse_pts_or_dts-Reads :
      (flag : ℕ) (cr : ClockReference)
      → flag < 16
      → IsTimestamp cr
      → Reads ir (parse_pts_or_dts r) (pts_or_dts_bytes flag cr) cr
  unfolding parse_pts_or_dts pts_or_dts_bytes
  parse_pts_or_dts-Reads flag cr hf h =
      Reads-bind ir _ (pts_or_dts_bytes flag cr) []
        (Reads-bytes ir 5 (pts_or_dts_bytes flag cr) (omega arith) refl)
        (Reads-return ir _ _ (pts_or_dts_of_bytes-pts_or_dts_bytes flag cr hf h))

  pub parse_escr-Reads :
      (cr : ClockReference) → IsClock cr → Reads ir (parse_escr r) (escr_bytes cr) cr
  unfolding parse_escr escr_bytes
  parse_escr-Reads cr h =
      Reads-bind ir _ (escr_bytes cr) [] (Reads-bytes ir 6 (escr_bytes cr) (omega arith) refl)
        (Reads-return ir _ _ (escr_of_bytes-escr_bytes cr h))
