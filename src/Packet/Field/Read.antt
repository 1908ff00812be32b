-- ===== src/Packet/Field/Read.antt =====
-- `parsePacketAdaptationField` reads the layout back.
use go_astits.Base.{
  uint8, ap, ℕ, ◌+◌, ◌-◌, ◌≡◌, refl, sym, List, [], ◌∷◌, ◌++◌, length, arith, Bool, true, false,
  Option, none, some, ℤ, Result, ok, pos, pos_part, sub_ℕ, lt→ltb, le→ltb, when, optional,
  pair_path, ◌>>=◌, ◌∙◌,
}
use go_astits.Bits.{digit-le, has_bit-digit}
use go_astits.Astikit.{BytesIterator, IsBytesIterator}
use go_astits.Codec.{
  behind, Reads, Reads-byte, Reads-bytes, Reads-bind, Reads-last, Reads-return, Reads-when,
  Reads-optional, Reads-some,
}
use go_astits.Clock.{ClockReference, parse_pcr}
use go_astits.Clock.RoundTrip.{IsClock, pcr_bytes, parse_pcr-Reads}
use go_astits.Packet.{PacketAdaptationField, PacketAdaptationExtensionField, empty_adaptation_field}
use go_astits.Packet.Extension.{extension_bytes, IsExtension, parse_extension-Reads}
use go_astits.Packet.Field.Layout.{
  unsigned, IsPart, IsField, IsCountdown, IsPrivate, part_bytes, countdown_bytes, private_bytes,
  field_flags, field_parts, field_bytes,
}
use go_astits.Packet.Parse.{
  parse_adaptation_extension, parse_transport_private_data, parse_adaptation_content,
  parse_packet_adaptation_field,
}

left_over : (l d k : ℕ) → l ≡ d + k → sub_ℕ l d ≡ pos k
left_over l d k h = ground arith

module _ {r : BytesIterator} (ir : IsBytesIterator r) where
  pcr_part-Reads :
      (b : Bool) (o : Option ClockReference)
      → IsPart IsClock b o
      → Reads ir (optional b (parse_pcr r)) (part_bytes pcr_bytes b o) o
  unfolding part_bytes
  pcr_part-Reads true (some cr) h = Reads-some ir (pcr_bytes cr) cr (parse_pcr-Reads ir cr h)
  pcr_part-Reads true none h = absurd h
  pcr_part-Reads false o h = Reads-return ir _ _ (sym h)

  countdown-Reads :
      (b : Bool) (n : ℤ)
      → IsCountdown b n
      → Reads ir (when b 0 r.next_byte) (countdown_bytes b n) (uint8 n)
  unfolding countdown_bytes
  countdown-Reads true n h = Reads-byte ir (uint8 n)
  countdown-Reads false n h = Reads-return ir _ _ (sym (ap uint8 h))

  private-Reads :
      (b : Bool) (n : ℕ) (bs : List ℕ)
      → IsPrivate b n bs
      → Reads ir (when b (0, []) (parse_transport_private_data r)) (private_bytes b n bs) (n, bs)
  unfolding private_bytes parse_transport_private_data
  private-Reads true n [] h = Reads-bind ir _ (n ∷ []) [] (Reads-byte ir n) (
      Reads-last ir _ (Reads-when ir _ _ (le→ltb 0 n (omega arith)) (Reads-return ir [] [] refl))
        (Reads-return ir _ _ refl))
  private-Reads true n (x ∷ bs) h = Reads-bind ir _ (n ∷ []) _ (Reads-byte ir n) (
      Reads-last ir _
        (Reads-when ir _ _ (lt→ltb 0 n (omega arith))
          (Reads-bytes ir n (x ∷ bs) (omega arith) (sym h.0)))
        (Reads-return ir _ _ refl))
  private-Reads false n bs h = Reads-return ir _ _ (pair_path (sym h.0) (sym h.1))

  extension-Reads :
      (b : Bool) (o : Option PacketAdaptationExtensionField)
      → IsPart IsExtension b o
      → Reads ir (optional b (parse_adaptation_extension r)) (part_bytes extension_bytes b o) o
  unfolding part_bytes
  extension-Reads true (some afe) h =
      Reads-some ir (extension_bytes afe) afe (parse_extension-Reads ir afe h)
  extension-Reads true none h = absurd h
  extension-Reads false o h = Reads-return ir _ _ (sym h)

  content-Reads :
      (af : PacketAdaptationField)
      → IsField af
      → Reads ir
          (parse_adaptation_content r af.length)
          (field_flags af ∷ field_parts af)
          (record (unsigned af) { stuffing_length = pos 0 })
  unfolding parse_adaptation_content field_parts field_flags
  content-Reads af h =
      let d7 = digit-le af.discontinuity_indicator in
      let d6 = digit-le af.random_access_indicator in
      let d5 = digit-le af.elementary_stream_priority_indicator in
      let d4 = digit-le af.has_pcr in
      let d3 = digit-le af.has_opcr in
      let d2 = digit-le af.has_splicing_countdown in
      let d1 = digit-le af.has_transport_private_data in
      let d0 = digit-le af.has_adaptation_extension_field in
      let flat = sym h.plain in
      let b = field_flags af in
      let e7 = has_bit-digit 7 b af.discontinuity_indicator (omega arith) in
      let e6 = has_bit-digit 6 b af.random_access_indicator (omega arith) in
      let e5 = has_bit-digit 5 b af.elementary_stream_priority_indicator (omega arith) in
      let e4 = has_bit-digit 4 b af.has_pcr (omega arith) in
      let e3 = has_bit-digit 3 b af.has_opcr (omega arith) in
      let e2 = has_bit-digit 2 b af.has_splicing_countdown (omega arith) in
      let e1 = has_bit-digit 1 b af.has_transport_private_data (omega arith) in
      let e0 = has_bit-digit 0 b af.has_adaptation_extension_field (omega arith) in
      Reads-bind ir _ (b ∷ []) _ (Reads-byte ir b) (
        Reads-bind ir _ _ _ (Reads-optional ir _ e4 (pcr_part-Reads _ _ h.pcr_part)) (
          Reads-bind ir _ _ _ (Reads-optional ir _ e3 (pcr_part-Reads _ _ h.opcr_part)) (
            Reads-bind ir _ _ _ (Reads-when ir _ _ e2 (countdown-Reads _ _ h.countdown)) (
              Reads-bind ir _ _ _ (Reads-when ir _ _ e1 (private-Reads _ _ _ h.private)) (
                Reads-bind ir _ _ _ (Reads-optional ir _ e0 (extension-Reads _ _ h.extension)) (
                  Reads-return ir _ _ λ i. record (unsigned af) {
                    discontinuity_indicator = e7 i;
                    random_access_indicator = e6 i;
                    elementary_stream_priority_indicator = e5 i;
                    has_pcr = e4 i;
                    has_opcr = e3 i;
                    has_splicing_countdown = e2 i;
                    has_transport_private_data = e1 i;
                    has_adaptation_extension_field = e0 i;
                    is_one_byte_stuffing = flat i;
                    stuffing_length = pos 0;
                  }))))))

  field_path :
      (af : PacketAdaptationField) (bs : List ℕ) {z : ℤ} {p q : ℕ}
      → z ≡ af.stuffing_length
      → p ≡ q
      → ◌≡◌ {A = Result (PacketAdaptationField × r.Iter)}
          (ok (record af { stuffing_length = z }, ir.at bs p))
          (ok (af, ir.at bs q))
  field_path af bs e f = λ i. ok (record af { stuffing_length = e i }, ir.at bs (f i))

  -- The stuffing is left unread; its length is what the length byte leaves over.
  pub parse_field-Reads :
      (af : PacketAdaptationField)
      → IsField af
      → Reads ir (parse_packet_adaptation_field r) (field_bytes af) (unsigned af)
  unfolding parse_packet_adaptation_field field_bytes
  parse_field-Reads af h = record {
    run = λ rest bs o e.
        let content = field_flags af ∷ field_parts af in
        let e' = behind (af.length ∷ []) (content ++ rest) bs o e in
        let c =
          (Reads-when ir empty_adaptation_field (parse_adaptation_content r af.length)
              (lt→ltb 0 af.length (omega (arith, h.measured))) (content-Reads af h)).run
            rest bs (o + 1) e' in
        rw
          (
            ir.next_byte-at af.length (content ++ rest) bs o e,
            parse_packet_adaptation_field,
            ◌>>=◌,
            c,
            ir.offset-at bs (o + 1),
            ir.offset-at bs (o + 1 + length content),
          )
          (field_path (unsigned af) bs
            (left_over af.length (o + 1 + length content - (o + 1)) (pos_part af.stuffing_length)
                (omega (arith, h.measured))
              ∙ sym h.stuffing)
            (omega arith));
  }
