-- ===== src/Packet/Field/Written.antt =====
-- `writePacketAdaptationField` puts out the layout, and `calcPacketAdaptationFieldLength` tells
-- its length beforehand.
use go_astits.Base.{
  uint8, ℤ, ℕ, zero, suc, ◌+◌, ◌%◌, ◌≡◌, refl, ap, List, [], ◌∷◌, ◌++◌, length, replicate, arith,
  Bool, true, false, Option, none, some, pos_part, uint8, length-append, ok, Result, ◌>>=◌, ◌>>◌,
  when, deref, pure, append_assoc, append-nil, Bool-cases, inl, inr, ltb,
}
use go_astits.Astikit.{BitsWriter, IsBitsWriter}
use go_astits.Codec.{Writes, Writes-step, Writes-return, Writes-bytes, Writes-if_false}
use go_astits.Clock.{ClockReference, write_pcr}
use go_astits.Clock.RoundTrip.{IsClock, pcr_bytes, write_pcr-Writes}
use go_astits.Packet.{PacketAdaptationField, PacketAdaptationExtensionField}
use go_astits.Packet.Extension.{extension_bytes, IsExtension, write_extension-Writes}
use go_astits.Packet.Field.Layout.{
  IsPart, IsField, IsCountdown, IsPrivate, part_bytes, countdown_bytes, private_bytes, field_flags,
  field_parts, field_bytes, stuffed_bytes, length-extension, length-pcr_part, length-countdown,
  length-private, length-field_parts,
}
use go_astits.Packet.Write.{
  calc_packet_adaptation_field_length, calc_packet_adaptation_field_extension_length,
  write_adaptation_head, write_transport_private_data, write_stuffing,
  write_packet_adaptation_field, write_packet_adaptation_field_extension,
}

extension_count :
    {S : Type 0} (b : Bool) (o : Option PacketAdaptationExtensionField) (s : S)
    → IsPart IsExtension b o
    → when b 0 (do afe ← deref o; pure (1 + calc_packet_adaptation_field_extension_length afe)) s
      ≡ ok (length (part_bytes extension_bytes b o), s)
unfolding part_bytes
extension_count true (some afe) s h = rw (length-extension afe h)
extension_count true none s h = absurd h
extension_count false o s h = refl

uint8-pos :
    (af : PacketAdaptationField)
    → IsField af
    → uint8 af.stuffing_length ≡ pos_part af.stuffing_length % 256
uint8-pos af h = rw h.stuffing

-- Of a well-formed adaptation field, the calculated length is the one that the field states: its sums
-- of bytes do not wrap.
pub calc_packet_adaptation_field_length_lem :
    {S : Type 0} (af : PacketAdaptationField) (s : S)
    → IsField af
    → calc_packet_adaptation_field_length af s ≡ ok (af.length, s)
unfolding calc_packet_adaptation_field_length
calc_packet_adaptation_field_length_lem af s h =
    rw
      (
        extension_count af.has_adaptation_extension_field af.adaptation_extension_field s
            h.extension,
        calc_packet_adaptation_field_length,
        ◌>>=◌,
        ← length-pcr_part af.has_pcr af.pcr h.pcr_part,
        ← length-pcr_part af.has_opcr af.opcr h.opcr_part,
        ← length-countdown af.has_splicing_countdown af.splice_countdown,
        ← length-private af.has_transport_private_data af.transport_private_data_length
            af.transport_private_data,
        uint8-pos af h,
      )
      (ap (λ n. ok (n, s)) (omega (arith, length-field_parts af, h.measured, h.length_lt)))

length-zero : (xs : List ℕ) → length xs ≡ 0 → xs ≡ []
length-zero [] h = refl
length-zero (x ∷ xs) h = absurd (omega arith)

stuffed_shape :
    (af : PacketAdaptationField)
    → af.length
        ∷ field_flags af
        ∷ (part_bytes pcr_bytes af.has_pcr af.pcr
            ++ (part_bytes pcr_bytes af.has_opcr af.opcr
                ++ (countdown_bytes af.has_splicing_countdown af.splice_countdown
                    ++ (private_bytes af.has_transport_private_data af.transport_private_data_length
                          af.transport_private_data
                        ++ (part_bytes extension_bytes af.has_adaptation_extension_field
                              af.adaptation_extension_field
                            ++ (replicate (pos_part af.stuffing_length) 0xff ++ []))))))
      ≡ stuffed_bytes af
unfolding stuffed_bytes
stuffed_shape af = simp (append_assoc, append-nil)

stuffed_count :
    (af : PacketAdaptationField)
    → 2
        + length (part_bytes pcr_bytes af.has_pcr af.pcr)
        + length (part_bytes pcr_bytes af.has_opcr af.opcr)
        + length (countdown_bytes af.has_splicing_countdown af.splice_countdown)
        + length (
            private_bytes af.has_transport_private_data af.transport_private_data_length
              af.transport_private_data)
        + length (
            part_bytes extension_bytes af.has_adaptation_extension_field
              af.adaptation_extension_field)
        + length {A = ℕ} (replicate (pos_part af.stuffing_length) 0xff)
      ≡ length (stuffed_bytes af)
unfolding stuffed_bytes
stuffed_count af = omega (
  arith,
  length-field_parts af,
  length-append (field_parts af) (replicate (pos_part af.stuffing_length) 0xff),
)

module _ {w : BitsWriter} (iw : IsBitsWriter w) where
  pcr_part-Writes :
      (b : Bool) (o : Option ClockReference)
      → IsPart IsClock b o
      → Writes iw
          (when b 0 (do cr ← deref o; write_pcr w cr))
          (part_bytes pcr_bytes b o)
          (length (part_bytes pcr_bytes b o))
  unfolding part_bytes pcr_bytes
  pcr_part-Writes true (some cr) h = write_pcr-Writes iw cr h
  pcr_part-Writes true none h = absurd h
  pcr_part-Writes false o h = Writes-return iw 0 0 refl

  countdown-Writes :
      (b : Bool) (n : ℤ)
      → IsCountdown b n
      → Writes iw
          (when b 0 (do w.write_uint8 (uint8 n); pure 1))
          (countdown_bytes b n)
          (length (countdown_bytes b n))
  unfolding countdown_bytes
  countdown-Writes true n h = record {
    run = λ out. rw (iw.write_uint8-at (uint8 n) out, ◌>>=◌) refl;
  }
  countdown-Writes false n h = Writes-return iw 0 0 refl

  private-written :
      (af : PacketAdaptationField)
      → IsPrivate true af.transport_private_data_length af.transport_private_data
      → Writes iw
          (write_transport_private_data w af)
          (private_bytes true af.transport_private_data_length af.transport_private_data)
          (suc (length af.transport_private_data))
  unfolding write_transport_private_data private_bytes
  private-written af h =
      let n = af.transport_private_data_length in
      let bs = af.transport_private_data in
      let e : n % 256 ≡ n = omega arith in
      record {
        run = λ out. elim (Bool-cases (ltb 0 n)) [
          | inl more ↦
              rw
                (
                  iw.write_uint8-at (n % 256) out,
                  write_transport_private_data,
                  ◌>>=◌,
                  more,
                  iw.write_bytes-at bs (out ++ (n % 256 ∷ [])),
                  e,
                  append_assoc,
                )
                refl
          | inr less ↦
              rw
                (
                  iw.write_uint8-at (n % 256) out,
                  write_transport_private_data,
                  ◌>>=◌,
                  less,
                  e,
                  length-zero bs (ground arith),
                )
                refl
        ];
      }

  private-Writes :
      (af : PacketAdaptationField) (b : Bool)
      → IsPrivate b af.transport_private_data_length af.transport_private_data
      → let bytes = private_bytes b af.transport_private_data_length af.transport_private_data in
        Writes iw (when b 0 (write_transport_private_data w af)) bytes (length bytes)
  unfolding private_bytes
  private-Writes af true h = private-written af h
  private-Writes af false h = Writes-return iw 0 0 refl

  extension-Writes :
      (b : Bool) (o : Option PacketAdaptationExtensionField)
      → IsPart IsExtension b o
      → Writes iw
          (when b 0 (do afe ← deref o; write_packet_adaptation_field_extension w afe))
          (part_bytes extension_bytes b o)
          (length (part_bytes extension_bytes b o))
  unfolding part_bytes
  extension-Writes true (some afe) h = write_extension-Writes iw afe h
  extension-Writes true none h = absurd h
  extension-Writes false o h = Writes-return iw 0 0 refl

  pub write_stuffing-Writes :
      (n : ℕ)
      → Writes iw (write_stuffing w n) (replicate n 0xff) (length {A = ℕ} (replicate n 0xff))
  unfolding write_stuffing
  write_stuffing-Writes zero = Writes-return iw 0 0 refl
  write_stuffing-Writes (suc n) = record {
    run = λ out.
        rw
          (
            iw.write_uint8-at 0xff out,
            write_stuffing,
            ◌>>=◌,
            (write_stuffing-Writes n).run (out ++ (0xff ∷ [])),
            append_assoc,
          )
          (ground arith);
  }

  head_path :
      (out : List ℕ) (l : ℕ) {x y v : ℕ}
      → x ≡ y
      → v ≡ 0
      → ◌≡◌ {A = Result (ℕ × w.Writer)}
          (ok (2, iw.at (out ++ l ∷ x ∷ []) v 0))
          (ok (2, iw.at (out ++ l ∷ y ∷ []) 0 0))
  head_path out l p q = λ i. ok (2, iw.at (out ++ l ∷ p i ∷ []) (q i) 0)

  write_adaptation_head-Writes :
      (af : PacketAdaptationField)
      → IsField af
      → Writes iw (write_adaptation_head w af) (af.length ∷ field_flags af ∷ []) 2
  unfolding write_adaptation_head field_flags
  write_adaptation_head-Writes af h = record {
    run = λ out.
        rw
          (
            calc_packet_adaptation_field_length_lem af (iw.at out 0 0) h,
            write_adaptation_head,
            ◌>>=◌,
          )
          (simp (iw.write_bool-at, iw.write_uint8-at, ◌>>=◌, ◌>>◌, append_assoc)
            (head_path out _ (omega arith) (omega arith)));
  }

  -- A well-formed adaptation field is written as its length, its flags, the parts that they announce,
  -- in order, and 0xff for the stuffing, and the number returned is that of the bytes.
  pub write_field-Writes :
      (af : PacketAdaptationField)
      → IsField af
      → Writes iw
          (write_packet_adaptation_field w af)
          (stuffed_bytes af)
          (length (stuffed_bytes af))
  unfolding write_packet_adaptation_field stuffed_bytes field_bytes field_parts
  write_field-Writes af h = Writes-if_false iw _ h.plain (
      Writes-bytes iw (stuffed_shape af) (
        Writes-step iw _ (af.length ∷ field_flags af ∷ []) _ (write_adaptation_head-Writes af h) (
          Writes-step iw _ _ _ (pcr_part-Writes _ _ h.pcr_part) (
            Writes-step iw _ _ _ (pcr_part-Writes _ _ h.opcr_part) (
              Writes-step iw _ _ _ (countdown-Writes _ _ h.countdown) (
                Writes-step iw _ _ _ (private-Writes af _ h.private) (
                  Writes-step iw _ _ _ (extension-Writes _ _ h.extension) (
                    Writes-step iw _ _ _ (write_stuffing-Writes (pos_part af.stuffing_length))
                      (Writes-return iw _ _ (stuffed_count af))))))))))
