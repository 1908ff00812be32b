-- ===== src/Packet/Body.antt =====
-- What stands behind the sync byte of a written packet, and how long it is.
use go_astits.Base.{
  ℕ, ◌+◌, ◌-◌, ◌≤◌, ◌≡◌, refl, sym, ap, List, [], ◌∷◌, ◌++◌, length, replicate, arith, Bool, true,
  false, Option, none, some, if◌then◌else◌, ok, length-append, length-replicate, pos_part,
}
use go_astits.Packet.{Packet, PacketHeader, PacketAdaptationField, sync_byte}
use go_astits.Packet.Header.{header_bytes}
use go_astits.Packet.Field.Layout.{
  unsigned_part, IsPart, IsField, part_bytes, field_bytes, stuffed_bytes, field_parts,
}
use go_astits.Packet.Layout.{size, padding, head_bytes}
use go_astits.Packet.Parse.{payload_offset}

length-stuffed :
    (af : PacketAdaptationField) → IsField af → length (stuffed_bytes af) ≡ 1 + af.length
unfolding stuffed_bytes
length-stuffed af v = omega (
  arith,
  v.measured,
  length-append (field_parts af) (replicate (pos_part af.stuffing_length) 0xff),
  length-replicate {0} {A = ℕ} (pos_part af.stuffing_length) 0xff,
)

-- The stuffing is part of the length that the field states.
pub stated_length :
    (b : Bool) (o : Option PacketAdaptationField) {S : Type 0} (h : PacketHeader) (start : ℕ)
    (s : S)
    → IsPart IsField b o
    → h.has_adaptation_field ≡ b
    → payload_offset start h (unsigned_part o) s
      ≡ ok (start + 3 + length (part_bytes stuffed_bytes b o), s)
unfolding payload_offset part_bytes stuffed_bytes
stated_length true (some af) h start s v e =
    rw (e, payload_offset) (ap (λ n. ok (start + 3 + n, s)) (sym (length-stuffed af v)))
stated_length true none h start s v e = absurd v
stated_length false o h start s v e =
    rw (e, payload_offset) (ap (λ n. ok (n, s)) {y = start + 3 + 0} (omega arith))

-- What the stuffed field has behind what the reader takes.
pub field_stuffing : Bool → Option PacketAdaptationField → List ℕ
field_stuffing true (some af) = replicate (pos_part af.stuffing_length) 0xff
field_stuffing true none = []
field_stuffing false o = []

pub stuffed_split :
    (b : Bool) (o : Option PacketAdaptationField)
    → part_bytes stuffed_bytes b o ≡ part_bytes field_bytes b o ++ field_stuffing b o
unfolding part_bytes stuffed_bytes field_stuffing
stuffed_split true (some af) = refl
stuffed_split true none = refl
stuffed_split false o = refl

-- A packet as the reader sees it: the padding belongs to the payload, if there is one, and a splice
-- countdown has no sign.
unfoldable pub padded : Packet → ℕ → Packet
padded p target = record p {
  adaptation_field = unsigned_part p.adaptation_field;
  payload = if p.header.has_payload then p.payload ++ padding p target else [];
}

-- What stands behind the sync byte.
unfoldable pub body_bytes : Packet → ℕ → List ℕ
body_bytes p target =
    header_bytes p.header
    ++ (part_bytes stuffed_bytes p.header.has_adaptation_field p.adaptation_field
        ++ (p.payload ++ padding p target))

pub length-body_bytes : (p : Packet) → size p ≤ 188 → length (body_bytes p 188) ≡ 187
unfolding body_bytes header_bytes size head_bytes padding
length-body_bytes p l =
    let field = part_bytes stuffed_bytes p.header.has_adaptation_field p.adaptation_field in
    omega (
      arith,
      length-append field (p.payload ++ padding p 188),
      length-append p.payload (padding p 188),
      length-replicate {0} {A = ℕ} (188 - size p) 0xff,
    )

-- The packet behind its sync byte, with `junk` before it.
unfoldable pub with_junk : List ℕ → Packet → ℕ → List ℕ
with_junk junk p target = sync_byte ∷ (junk ++ body_bytes p target)
