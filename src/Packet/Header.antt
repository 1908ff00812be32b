-- ===== src/Packet/Header.antt =====
-- The packet header: its layout in three bytes, written by `writePacketHeader` and read by
-- `parsePacketHeader`.
use go_astits.Base.{
  ℕ, ◌+◌, ◌*◌, ◌/◌, ◌%◌, ◌^◌, ◌<◌, ◌≡◌, refl, List, [], ◌∷◌, append_assoc, arith, ◌>>=◌, ◌>>◌,
}
use go_astits.Bits.{digit, digit-le, has_bit-digit, bit_or_disjoint, bit_and_mask}
use go_astits.Astikit.{BytesIterator, IsBytesIterator, BitsWriter, IsBitsWriter}
use go_astits.Codec.{Reads, Reads-bytes, Reads-bind, Reads-return, Writes}
use go_astits.Packet.{PacketHeader}
use go_astits.Packet.Parse.{parse_packet_header, header_of_bytes}
use go_astits.Packet.Write.{write_packet_header}

-- Three flags and 13 bits of PID; then scrambling control, two flags and the counter.
unfoldable pub header_bytes : PacketHeader → List ℕ
header_bytes h =
    (digit h.transport_error_indicator * 128
      + digit h.payload_unit_start_indicator * 64
      + digit h.transport_priority * 32
      + h.pid / 256)
    ∷ h.pid % 256
    ∷ (h.transport_scrambling_control * 64
        + digit h.has_adaptation_field * 32
        + digit h.has_payload * 16
        + h.continuity_counter)
    ∷ []

-- The numbers fit the widths of their fields.
pub record IsHeader (h : PacketHeader) : Type 0 where
  pub pid_lt : h.pid < 2 ^ 13
  pub scrambling_lt : h.transport_scrambling_control < 4
  pub counter_lt : h.continuity_counter < 16

header_ext :
    (a b : PacketHeader)
    → a.continuity_counter ≡ b.continuity_counter
    → a.has_adaptation_field ≡ b.has_adaptation_field
    → a.has_payload ≡ b.has_payload
    → a.payload_unit_start_indicator ≡ b.payload_unit_start_indicator
    → a.pid ≡ b.pid
    → a.transport_error_indicator ≡ b.transport_error_indicator
    → a.transport_priority ≡ b.transport_priority
    → a.transport_scrambling_control ≡ b.transport_scrambling_control
    → a ≡ b
header_ext a b p0 p1 p2 p3 p4 p5 p6 p7 = λ i. record {
  continuity_counter = p0 i;
  has_adaptation_field = p1 i;
  has_payload = p2 i;
  payload_unit_start_indicator = p3 i;
  pid = p4 i;
  transport_error_indicator = p5 i;
  transport_priority = p6 i;
  transport_scrambling_control = p7 i;
}

header_of_bytes-header_bytes :
    (h : PacketHeader) → IsHeader h → header_of_bytes (header_bytes h) ≡ h
unfolding header_of_bytes header_bytes
header_of_bytes-header_bytes h v =
    let t = digit-le h.transport_error_indicator in
    let u = digit-le h.payload_unit_start_indicator in
    let p = digit-le h.transport_priority in
    let a = digit-le h.has_adaptation_field in
    let l = digit-le h.has_payload in
    let first =
      digit h.transport_error_indicator * 128
      + digit h.payload_unit_start_indicator * 64
      + digit h.transport_priority * 32
      + h.pid / 256 in
    header_ext _ _ (rw (bit_and_mask 4) (omega arith)) (has_bit-digit 5 _ _ (omega arith))
      (has_bit-digit 4 _ _ (omega arith)) (has_bit-digit 6 _ _ (omega arith))
      (rw
        (
          bit_and_mask 5 first,
          bit_or_disjoint 8 (first % 32 * 256) (h.pid % 256) (omega arith) (omega arith),
        )
        (omega arith))
      (has_bit-digit 7 _ _ (omega arith)) (has_bit-digit 5 _ _ (omega arith))
      (rw (bit_and_mask 2) (omega arith))

module _ {w : BitsWriter} (iw : IsBitsWriter w) where
  pub write_packet_header-Writes :
      (h : PacketHeader) → IsHeader h → Writes iw (write_packet_header w h) (header_bytes h) 3
  unfolding write_packet_header header_bytes
  write_packet_header-Writes h v =
      let t = digit-le h.transport_error_indicator in
      let u = digit-le h.payload_unit_start_indicator in
      let p = digit-le h.transport_priority in
      let a = digit-le h.has_adaptation_field in
      let l = digit-le h.has_payload in
      record {
        run = λ out.
            simp (iw.write_n-at, iw.write_bool-at, write_packet_header, ◌>>=◌, ◌>>◌, append_assoc)
              (ground arith);
      }

module _ {r : BytesIterator} (ir : IsBytesIterator r) where
  pub parse_packet_header-Reads :
      (h : PacketHeader) → IsHeader h → Reads ir (parse_packet_header r) (header_bytes h) h
  unfolding parse_packet_header header_bytes
  parse_packet_header-Reads h v =
      Reads-bind ir _ (header_bytes h) [] (Reads-bytes ir 3 (header_bytes h) (omega arith) refl)
        (Reads-return ir _ _ (header_of_bytes-header_bytes h v))
