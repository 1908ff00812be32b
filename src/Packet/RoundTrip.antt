-- ===== src/Packet/RoundTrip.antt =====
-- `parsePacket` reads back what `writePacket` put out.
use go_astits.Base.{
  ℕ, ◌+◌, ◌-◌, ◌≤◌, ◌≡◌, refl, sym, ap, ◌∙◌, List, [], ◌∷◌, ◌++◌, length, drop, arith, Bool, true,
  false, Option, none, some, le→ltb, when, optional, ◌>>=◌, ◌>>◌, if◌then◌else◌, ok, length-append,
  append_assoc, drop-append, drop-drop, suc,
}
use go_astits.Astikit.{BytesIterator, IsBytesIterator, BitsWriter, IsBitsWriter}
use go_astits.Codec.{behind, Reads, Reads-return, Reads-some}
use go_astits.Packet.{Packet, PacketHeader, PacketAdaptationField, sync_byte}
use go_astits.Packet.Header.{header_bytes, parse_packet_header-Reads}
use go_astits.Packet.Field.Layout.{
  unsigned_part, unsigned, IsPart, IsField, part_bytes, field_bytes, stuffed_bytes,
}
use go_astits.Packet.Field.Read.{parse_field-Reads}
use go_astits.Packet.Layout.{IsPacket, size, padding, packet_bytes, head_bytes, write_packet-Writes}
use go_astits.Packet.Parse.{
  parse_packet, parse_packet_content, parse_packet_adaptation_field, payload_offset,
}
use go_astits.Packet.Write.{write_packet}
use go_astits.Packet.Body.{
  stated_length, field_stuffing, stuffed_split, padded, body_bytes, length-body_bytes, with_junk,
}

-- Where the reader stops: at the end of a payload, or behind the field.
pub read_to : Packet → List ℕ → ℕ → ℕ
read_to p bs start =
    if p.header.has_payload
    then length bs
    else start
      + 3
      + length (part_bytes field_bytes p.header.has_adaptation_field p.adaptation_field)

module _ {r : BytesIterator} (ir : IsBytesIterator r) where
  field-Reads :
      (b : Bool) (o : Option PacketAdaptationField)
      → IsPart IsField b o
      → Reads ir
          (optional b (parse_packet_adaptation_field r))
          (part_bytes field_bytes b o)
          (unsigned_part o)
  unfolding part_bytes
  field-Reads true (some af) h =
      Reads-some ir (field_bytes af) (unsigned af) (parse_field-Reads ir af h)
  field-Reads true none h = absurd h
  field-Reads false o h = Reads-return ir _ _ (sym (ap unsigned_part h))

  -- The payload of a packet is what stands from its offset to the end.
  tail_read :
      (b : Bool) (start : ℕ) (h : PacketHeader) (a : Option PacketAdaptationField) (to : ℕ)
      (bs pl : List ℕ) (o : ℕ)
      → payload_offset start h a (ir.at bs o) ≡ ok (to, ir.at bs o)
      → drop to bs ≡ pl
      → to ≤ length bs
      → when b [] (do to ← payload_offset start h a; r.seek to; r.dump) (ir.at bs o)
        ≡ ok ((if b then pl else []), ir.at bs (if b then length bs else o))
  tail_read true start h a to bs pl o e d l =
      rw (e, ◌>>=◌, ir.seek-at to bs o, ir.dump-at bs to l, d) refl
  tail_read false start h a to bs pl o e d l = refl

  content_read :
      (p : Packet) (bs : List ℕ) (start : ℕ)
      → IsPacket p
      → drop start bs ≡ body_bytes p 188
      → start + 187 ≡ length bs
      → size p ≤ 188
      → parse_packet_content r (ir.at bs start) ≡ ok (padded p 188, ir.at bs (read_to p bs start))
  unfolding parse_packet_content body_bytes padded header_bytes size head_bytes read_to
  content_read p bs start v e n l =
      let h = p.header in
      let b = h.has_adaptation_field in
      let taken = part_bytes field_bytes b p.adaptation_field in
      let left = field_stuffing b p.adaptation_field in
      let field = part_bytes stuffed_bytes b p.adaptation_field in
      let pl = p.payload ++ padding p 188 in
      let split : field ++ pl ≡ taken ++ (left ++ pl) =
        ap (λ t. t ++ pl) (stuffed_split b p.adaptation_field) ∙ append_assoc taken left pl in
      let at_field : drop (start + 3) bs ≡ field ++ pl =
        behind (header_bytes h) (field ++ pl) bs start e in
      let o = start + 3 + length taken in
      let to = start + 3 + length field in
      let q =
        tail_read h.has_payload start h (unsigned_part p.adaptation_field) to bs pl o
          (stated_length b p.adaptation_field h start (ir.at bs o) v.field_fits refl)
          (drop-drop (length field) (start + 3) bs
            ∙ ap (drop (length field)) at_field
            ∙ drop-append field pl)
          (omega arith) in
      rw
        (
          (parse_packet_header-Reads ir h v.header_fits).run (field ++ pl) bs start e,
          parse_packet_content,
          ◌>>=◌,
          (field-Reads b p.adaptation_field v.field_fits).run (left ++ pl) bs (start + 3)
              (at_field ∙ split),
          ir.offset-at bs start,
          q,
        )
        refl

  -- Of a buffer of 188 bytes or more that starts with the sync byte and ends in the rest of a
  -- well-formed packet that fits, `parsePacket` gives the packet, with the padding at the end of its
  -- payload, if it has one, and with the byte of its splice countdown as a number without a sign, so
  -- that a countdown is as it was from 0 to 255 only: the bytes between the sync byte and the last
  -- 187 are passed over.
  pub parse_packet-with_junk :
      (p : Packet) (junk : List ℕ)
      → IsPacket p
      → size p ≤ 188
      → parse_packet r (r.new (with_junk junk p 188))
        ≡ ok (
          padded p 188,
          ir.at (with_junk junk p 188) (read_to p (with_junk junk p 188) (suc (length junk))),
        )
  unfolding parse_packet with_junk
  parse_packet-with_junk p junk v l =
      let bs = with_junk junk p 188 in
      let n : length bs ≡ length junk + 188 =
        omega (arith, length-append junk (body_bytes p 188), length-body_bytes p l) in
      let start : length bs + 1 - 188 ≡ suc (length junk) = omega arith in
      let q =
        content_read p bs (suc (length junk)) v (drop-append junk (body_bytes p 188)) (omega arith)
          l in
      rw
        (
          ir.new-at bs,
          ir.next_byte-at sync_byte (junk ++ body_bytes p 188) bs 0 refl,
          parse_packet,
          ◌>>=◌,
          ir.len-at bs 1,
          le→ltb (length bs + 1) 188 (omega arith),
          ir.seek-at (length bs + 1 - 188) bs 1,
          start,
          q,
        )
        refl

packet_bytes-with_junk : (p : Packet) → with_junk [] p 188 ≡ packet_bytes p 188
unfolding with_junk body_bytes packet_bytes head_bytes
packet_bytes-with_junk p =
    ap (λ t. sync_byte ∷ t)
      (sym (
        append_assoc (header_bytes p.header)
          (part_bytes stuffed_bytes p.header.has_adaptation_field p.adaptation_field)
          (p.payload ++ padding p 188)))

module _ {r : BytesIterator} (ir : IsBytesIterator r) {w : BitsWriter} (iw : IsBitsWriter w) where
  -- A well-formed packet that fits is written as 188 bytes, whatever its splice countdown, and
  -- `parsePacket` reads these back as the packet, with the padding at the end of its payload, if it
  -- has one, and with the byte of the countdown as a number without a sign: a countdown from 0 to 255
  -- is as it was, and -1 has become 255.
  pub parse_packet-write_packet :
      (p : Packet) (out : List ℕ)
      → IsPacket p
      → size p ≤ 188
      → (bs : List ℕ) × (write_packet w p 188 (iw.at out 0 0) ≡ ok (188, iw.at (out ++ bs) 0 0))
        × (length bs ≡ 188)
        × ((i : r.Iter) × (parse_packet r (r.new bs) ≡ ok (padded p 188, i)))
  unfolding with_junk
  parse_packet-write_packet p out v l =
      let bs = with_junk [] p 188 in
      (
        bs,
        rw (packet_bytes-with_junk p) ((write_packet-Writes iw p 188 v l).run out),
        ap suc (length-body_bytes p l),
        (_, parse_packet-with_junk ir p [] v l),
      )
