-- ===== src/Packet/Parts.antt =====
-- The parts of an adaptation field's extension: their layouts, written by
-- `writePacketAdaptationFieldExtension` and read by the last part of `parsePacketAdaptationField`.
use go_astits.Base.{
  ℕ, ◌+◌, ◌*◌, ◌/◌, ◌%◌, ◌^◌, ◌<◌, ◌≡◌, refl, List, [], ◌∷◌, append_assoc, arith, ◌>>=◌, ◌>>◌, Bool,
  true, false, Option, none, some, pair_path, deref, when, length, sym,
}
use go_astits.Bits.{
  digit, digit-le, has_bit-digit, or_next, bit_or_disjoint, bit_and_mask, bit_and_shifted,
}
use go_astits.Astikit.{BytesIterator, IsBytesIterator, BitsWriter, IsBitsWriter}
use go_astits.Codec.{Reads, Reads-bytes, Reads-bind, Reads-return, Writes, Writes-return}
use go_astits.Clock.{ClockReference, write_pts_or_dts}
use go_astits.Clock.RoundTrip.{
  IsTimestamp, pts_or_dts_bytes, parse_pts_or_dts-Reads, write_pts_or_dts-Writes,
}
use go_astits.Packet.{PacketAdaptationExtensionField}
use go_astits.Packet.Parse.{parse_legal_time_window, parse_piecewise_rate, parse_seamless_splice}
use go_astits.Packet.Write.{write_legal_time_window, write_piecewise_rate, write_seamless_splice}

unfoldable pub window_bytes : Bool → Bool → ℕ → List ℕ
window_bytes true valid offset = (digit valid * 128 + offset / 256) ∷ offset % 256 ∷ []
window_bytes false valid offset = []

unfoldable pub rate_bytes : Bool → ℕ → List ℕ
rate_bytes true rate = (192 + rate / 2 ^ 16) ∷ rate / 256 % 256 ∷ rate % 256 ∷ []
rate_bytes false rate = []

unfoldable pub splice_bytes : Bool → ℕ → Option ClockReference → List ℕ
splice_bytes true kind (some dts) = pts_or_dts_bytes kind dts
splice_bytes true kind none = []
splice_bytes false kind dts = []

-- A field that a flag announces fits its width; one that is not announced is zero.
abbrev pub IsWindow : Bool → Bool → ℕ → Type 0
IsWindow true valid offset = offset < 2 ^ 15
IsWindow false valid offset = (valid ≡ false) × (offset ≡ 0)

abbrev pub IsRate : Bool → ℕ → Type 0
IsRate true rate = rate < 2 ^ 22
IsRate false rate = rate ≡ 0

abbrev pub IsSplice : Bool → ℕ → Option ClockReference → Type 0
IsSplice true kind (some dts) = (kind < 16) × IsTimestamp dts
IsSplice true kind none = ⊥
IsSplice false kind dts = (kind ≡ 0) × (dts ≡ none)

module _ {w : BitsWriter} (iw : IsBitsWriter w) (afe : PacketAdaptationExtensionField) where
  window-written :
      afe.legal_time_window_offset < 2 ^ 15
      → Writes iw
          (write_legal_time_window w afe)
          (window_bytes true afe.legal_time_window_is_valid afe.legal_time_window_offset)
          2
  unfolding write_legal_time_window window_bytes
  window-written h =
      let v = digit-le afe.legal_time_window_is_valid in
      record {
        run = λ out.
            simp
              (iw.write_n-at, iw.write_bool-at, write_legal_time_window, ◌>>=◌, ◌>>◌, append_assoc)
              (ground arith);
      }

  rate-written :
      afe.piecewise_rate < 2 ^ 22
      → Writes iw (write_piecewise_rate w afe) (rate_bytes true afe.piecewise_rate) 3
  unfolding write_piecewise_rate rate_bytes
  rate-written h = record {
    run =
        λ out. simp (iw.write_n-at, write_piecewise_rate, ◌>>=◌, ◌>>◌, append_assoc) (ground arith);
  }

  splice-written :
      (o : Option ClockReference)
      → IsSplice true afe.splice_type o
      → Writes iw
          (deref o >>= write_pts_or_dts w afe.splice_type)
          (splice_bytes true afe.splice_type o)
          (length (splice_bytes true afe.splice_type o))
  unfolding splice_bytes pts_or_dts_bytes
  splice-written none h = absurd h
  splice-written (some dts) h = write_pts_or_dts-Writes iw afe.splice_type dts h.0 h.1

  pub window-Writes :
      (b : Bool)
      → IsWindow b afe.legal_time_window_is_valid afe.legal_time_window_offset
      → let bytes = window_bytes b afe.legal_time_window_is_valid afe.legal_time_window_offset in
        Writes iw (when b 0 (write_legal_time_window w afe)) bytes (length bytes)
  unfolding window_bytes
  window-Writes true h = window-written h
  window-Writes false h = Writes-return iw 0 0 refl

  pub rate-Writes :
      (b : Bool)
      → IsRate b afe.piecewise_rate
      → let bytes = rate_bytes b afe.piecewise_rate in
        Writes iw (when b 0 (write_piecewise_rate w afe)) bytes (length bytes)
  unfolding rate_bytes
  rate-Writes true h = rate-written h
  rate-Writes false h = Writes-return iw 0 0 refl

  pub splice-Writes :
      (b : Bool)
      → IsSplice b afe.splice_type afe.dts_next_access_unit
      → let bytes = splice_bytes b afe.splice_type afe.dts_next_access_unit in
        Writes iw (when b 0 (write_seamless_splice w afe)) bytes (length bytes)
  unfolding splice_bytes write_seamless_splice
  splice-Writes true h = splice-written afe.dts_next_access_unit h
  splice-Writes false h = Writes-return iw 0 0 refl

module _ {r : BytesIterator} (ir : IsBytesIterator r) where
  window-read :
      (valid : Bool) (offset : ℕ)
      → offset < 2 ^ 15
      → Reads ir (parse_legal_time_window r) (window_bytes true valid offset) (valid, offset)
  unfolding parse_legal_time_window window_bytes
  window-read valid offset h =
      let v = digit-le valid in
      let b = digit valid * 128 + offset / 256 in
      Reads-bind ir _ (window_bytes true valid offset) []
        (Reads-bytes ir 2 (window_bytes true valid offset) (omega arith) refl)
        (Reads-return ir _ _ (
          pair_path (has_bit-digit 7 b valid (omega arith)) (
            rw
              (
                bit_and_mask 7 b,
                bit_or_disjoint 8 (b % 128 * 256) (offset % 256) (omega arith) (omega arith),
              )
              (omega arith))))

  rate-read :
      (rate : ℕ) → rate < 2 ^ 22 → Reads ir (parse_piecewise_rate r) (rate_bytes true rate) rate
  unfolding parse_piecewise_rate rate_bytes
  rate-read rate h =
      let b = 192 + rate / 2 ^ 16 in
      let p1 =
        bit_or_disjoint 16 (b % 64 * 2 ^ 16) (rate / 256 % 256 * 2 ^ 8) (omega arith)
          (omega arith) in
      let p2 = or_next 8 (rate % 256) p1 (omega arith) (omega arith) in
      Reads-bind ir _ (rate_bytes true rate) []
        (Reads-bytes ir 3 (rate_bytes true rate) (omega arith) refl)
        (Reads-return ir _ _ (rw (bit_and_mask 6 b, p2) (omega arith)))

  splice-read :
      (kind : ℕ) (dts : ClockReference)
      → kind < 16
      → IsTimestamp dts
      → Reads ir (parse_seamless_splice r) (splice_bytes true kind (some dts)) (kind, some dts)
  unfolding parse_seamless_splice splice_bytes pts_or_dts_bytes
  splice-read kind dts hk h =
      let b = kind * 16 + dts.base / 2 ^ 30 * 2 + 1 in
      record {
        run = λ rest bs o e.
            rw
              (
                ir.next_byte-at _ _ bs o e,
                parse_seamless_splice,
                ◌>>=◌,
                ir.skip_back-at 1 bs o,
                (parse_pts_or_dts-Reads ir kind dts hk h).run rest bs o e,
                bit_and_shifted 4 b 15,
                bit_and_mask 4 (b / 16),
              )
              (ground arith);
      }

  pub window-Reads :
      (b valid : Bool) (offset : ℕ)
      → IsWindow b valid offset
      → Reads ir
          (when b (false, 0) (parse_legal_time_window r))
          (window_bytes b valid offset)
          (valid, offset)
  unfolding window_bytes
  window-Reads true valid offset h = window-read valid offset h
  window-Reads false valid offset h = Reads-return ir _ _ (pair_path (sym h.0) (sym h.1))

  pub rate-Reads :
      (b : Bool) (rate : ℕ)
      → IsRate b rate
      → Reads ir (when b 0 (parse_piecewise_rate r)) (rate_bytes b rate) rate
  unfolding rate_bytes
  rate-Reads true rate h = rate-read rate h
  rate-Reads false rate h = Reads-return ir _ _ (sym h)

  pub splice-Reads :
      (b : Bool) (kind : ℕ) (dts : Option ClockReference)
      → IsSplice b kind dts
      → Reads ir (when b (0, none) (parse_seamless_splice r)) (splice_bytes b kind dts) (kind, dts)
  unfolding splice_bytes
  splice-Reads true kind (some dts) h = splice-read kind dts h.0 h.1
  splice-Reads true kind none h = absurd h
  splice-Reads false kind dts h = Reads-return ir _ _ (pair_path (sym h.0) (sym h.1))
