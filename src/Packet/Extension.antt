-- ===== src/Packet/Extension.antt =====
-- The extension of an adaptation field: its layout, written by
-- `writePacketAdaptationFieldExtension` and read by the last part of `parsePacketAdaptationField`.
use go_astits.Base.{
  ℕ, ◌+◌, ◌*◌, ◌<◌, ◌≡◌, List, [], ◌∷◌, ◌++◌, length, append_assoc, arith, ◌>>=◌, ◌>>◌, lt→ltb,
  length-append,
}
use go_astits.Bits.{digit, digit-le, has_bit-digit}
use go_astits.Astikit.{BytesIterator, IsBytesIterator, BitsWriter, IsBitsWriter}
use go_astits.Codec.{
  Reads, Reads-byte, Reads-bind, Reads-return, Reads-when, Writes, Writes-step, Writes-return,
}
use go_astits.Packet.{PacketAdaptationExtensionField}
use go_astits.Packet.Parts.{
  window_bytes, rate_bytes, splice_bytes, IsWindow, IsRate, IsSplice, window-Writes, rate-Writes,
  splice-Writes, window-Reads, rate-Reads, splice-Reads,
}
use go_astits.Packet.Parse.{parse_adaptation_extension_content, parse_adaptation_extension}
use go_astits.Packet.Write.{
  calc_packet_adaptation_field_extension_length, write_extension_head,
  write_packet_adaptation_field_extension,
}

unfoldable pub extension_flags : PacketAdaptationExtensionField → ℕ
extension_flags afe =
    digit afe.has_legal_time_window * 128
    + digit afe.has_piecewise_rate * 64
    + digit afe.has_seamless_splice * 32
    + 31

unfoldable pub extension_parts : PacketAdaptationExtensionField → List ℕ
extension_parts afe =
    window_bytes afe.has_legal_time_window afe.legal_time_window_is_valid
      afe.legal_time_window_offset
    ++ (rate_bytes afe.has_piecewise_rate afe.piecewise_rate
        ++ (splice_bytes afe.has_seamless_splice afe.splice_type afe.dts_next_access_unit ++ []))

-- Length, flags, and the parts that are announced.
unfoldable pub extension_bytes : PacketAdaptationExtensionField → List ℕ
unfolding extension_flags extension_parts
extension_bytes afe = afe.length ∷ extension_flags afe ∷ extension_parts afe

pub record IsExtension (afe : PacketAdaptationExtensionField) : Type 0 where
  pub window :
      IsWindow afe.has_legal_time_window afe.legal_time_window_is_valid afe.legal_time_window_offset
  pub rate : IsRate afe.has_piecewise_rate afe.piecewise_rate
  pub splice : IsSplice afe.has_seamless_splice afe.splice_type afe.dts_next_access_unit
  -- the length that the writer calculates
  pub measured : afe.length ≡ calc_packet_adaptation_field_extension_length afe

pub extension_length-pos :
    (afe : PacketAdaptationExtensionField) → 0 < calc_packet_adaptation_field_extension_length afe
unfolding calc_packet_adaptation_field_extension_length
extension_length-pos afe = ground arith

module _ {w : BitsWriter} (iw : IsBitsWriter w) where
  write_extension_head-Writes :
      (afe : PacketAdaptationExtensionField)
      → IsExtension afe
      → Writes iw (write_extension_head w afe) (afe.length ∷ extension_flags afe ∷ []) 2
  unfolding write_extension_head extension_flags
  write_extension_head-Writes afe h =
      let l = digit-le afe.has_legal_time_window in
      let p = digit-le afe.has_piecewise_rate in
      let s = digit-le afe.has_seamless_splice in
      record {
        run = λ out.
            simp
              (
                iw.write_n-at,
                iw.write_bool-at,
                iw.write_uint8-at,
                ← h.measured,
                write_extension_head,
                ◌>>=◌,
                ◌>>◌,
                append_assoc,
              )
              (ground arith);
      }

  pub write_extension-Writes :
      (afe : PacketAdaptationExtensionField)
      → IsExtension afe
      → Writes iw
          (write_packet_adaptation_field_extension w afe)
          (extension_bytes afe)
          (length (extension_bytes afe))
  unfolding write_packet_adaptation_field_extension extension_bytes
  write_extension-Writes afe h =
      Writes-step iw _ (afe.length ∷ extension_flags afe ∷ []) _ (write_extension_head-Writes afe h)
        (Writes-step iw _ _ _ (window-Writes iw afe _ h.window) (
          Writes-step iw _ _ _ (rate-Writes iw afe _ h.rate) (
            Writes-step iw _ _ _ (splice-Writes iw afe _ h.splice)
              (Writes-return iw _ _ (omega (arith, length-append {0}))))))

module _ {r : BytesIterator} (ir : IsBytesIterator r) where
  extension_content-Reads :
      (afe : PacketAdaptationExtensionField)
      → IsExtension afe
      → Reads ir
          (parse_adaptation_extension_content r afe.length)
          (extension_flags afe ∷ extension_parts afe)
          afe
  unfolding parse_adaptation_extension_content extension_parts extension_flags
  extension_content-Reads afe h =
      let l = digit-le afe.has_legal_time_window in
      let p = digit-le afe.has_piecewise_rate in
      let s = digit-le afe.has_seamless_splice in
      let e7 = has_bit-digit 7 (extension_flags afe) afe.has_legal_time_window (omega arith) in
      let e6 = has_bit-digit 6 (extension_flags afe) afe.has_piecewise_rate (omega arith) in
      let e5 = has_bit-digit 5 (extension_flags afe) afe.has_seamless_splice (omega arith) in
      Reads-bind ir _ (extension_flags afe ∷ []) _ (Reads-byte ir (extension_flags afe)) (
        Reads-bind ir _ _ _ (Reads-when ir _ _ e7 (window-Reads ir _ _ _ h.window)) (
          Reads-bind ir _ _ _ (Reads-when ir _ _ e6 (rate-Reads ir _ _ h.rate)) (
            Reads-bind ir _ _ _ (Reads-when ir _ _ e5 (splice-Reads ir _ _ _ h.splice)) (
              Reads-return ir _ _ λ i. record afe {
                has_legal_time_window = e7 i;
                has_piecewise_rate = e6 i;
                has_seamless_splice = e5 i;
              }))))

  pub parse_extension-Reads :
      (afe : PacketAdaptationExtensionField)
      → IsExtension afe
      → Reads ir (parse_adaptation_extension r) (extension_bytes afe) afe
  unfolding parse_adaptation_extension extension_bytes
  parse_extension-Reads afe h = Reads-bind ir _ (afe.length ∷ []) _ (Reads-byte ir afe.length) (
      Reads-when ir _ _ (lt→ltb 0 afe.length (omega (arith, extension_length-pos afe, h.measured)))
        (extension_content-Reads afe h))
