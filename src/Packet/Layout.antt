-- ===== src/Packet/Layout.antt =====
-- The layout of a whole packet, and `writePacket`, which puts it out.
use go_astits.Base.{
  ℕ, ◌+◌, ◌-◌, ◌<◌, ◌≤◌, ◌≡◌, refl, sym, subst, List, [], ◌∷◌, ◌++◌, length, replicate, arith, Bool,
  true, false, Option, none, some, ltb, le→ltb, lt→ltb, when, deref, ◌>>=◌, ◌>>◌, err,
  payload_too_big, pure, length-replicate, append-nil,
}
use go_astits.Astikit.{BitsWriter, IsBitsWriter}
use go_astits.Codec.{
  Writes, Writes-step, Writes-bind, Writes-return, Writes-bytes, Writes-uint8, Writes-if_false,
}
use go_astits.Packet.{Packet, PacketAdaptationField, sync_byte}
use go_astits.Packet.Header.{header_bytes, IsHeader, write_packet_header-Writes}
use go_astits.Packet.Field.Layout.{IsPart, IsField, part_bytes, stuffed_bytes}
use go_astits.Packet.Field.Written.{write_field-Writes, write_stuffing-Writes}
use go_astits.Packet.Write.{write_packet, write_packet_adaptation_field}

-- What stands before the payload.
unfoldable pub head_bytes : Packet → List ℕ
head_bytes p =
    sync_byte
    ∷ (header_bytes p.header
        ++ part_bytes stuffed_bytes p.header.has_adaptation_field p.adaptation_field)

abbrev pub IsPayload : Bool → List ℕ → Type 0
IsPayload true bs = Unit
IsPayload false bs = bs ≡ []

pub record IsPacket (p : Packet) : Type 0 where
  pub header_fits : IsHeader p.header
  pub field_fits : IsPart IsField p.header.has_adaptation_field p.adaptation_field
  -- a packet with no payload has no payload bytes
  pub payload_fits : IsPayload p.header.has_payload p.payload

-- The bytes of a packet without padding.
unfoldable pub size : Packet → ℕ
size p = length (head_bytes p) + length p.payload

unfoldable pub padding : Packet → ℕ → List ℕ
padding p target = replicate (target - size p) 0xff

-- A packet filled up with 0xff.
unfoldable pub packet_bytes : Packet → ℕ → List ℕ
packet_bytes p target = head_bytes p ++ (p.payload ++ padding p target)

packet_shape :
    (p : Packet) (target : ℕ)
    → let field = part_bytes stuffed_bytes p.header.has_adaptation_field p.adaptation_field in
      sync_byte
        ∷ (header_bytes p.header
            ++ (field
                ++ (p.payload
                    ++ (replicate (target - (1 + 3 + length field + length p.payload)) 0xff
                        ++ []))))
      ≡ packet_bytes p target
unfolding packet_bytes padding size head_bytes header_bytes
packet_shape p target =
    let field = part_bytes stuffed_bytes p.header.has_adaptation_field p.adaptation_field in
    let e : target - (1 + 3 + length field + length p.payload) ≡ target - size p = omega arith in
    rw (e, append-nil) refl

module _ {w : BitsWriter} (iw : IsBitsWriter w) where
  field-Writes :
      (b : Bool) (o : Option PacketAdaptationField)
      → IsPart IsField b o
      → Writes iw
          (when b 0 (do af ← deref o; write_packet_adaptation_field w af))
          (part_bytes stuffed_bytes b o)
          (length (part_bytes stuffed_bytes b o))
  unfolding part_bytes
  field-Writes true (some af) h = write_field-Writes iw af h
  field-Writes true none h = absurd h
  field-Writes false o h = Writes-return iw 0 0 refl

  payload-Writes :
      (b : Bool) (bs : List ℕ)
      → IsPayload b bs
      → Writes iw (when b 0 (do w.write_bytes bs; pure (length bs))) bs (length bs)
  payload-Writes true bs h = record { run = λ out. rw (iw.write_bytes-at bs out, ◌>>=◌) refl }
  payload-Writes false bs h =
      subst (λ t. Writes iw (pure 0) t (length t)) (sym h) (Writes-return iw 0 0 refl)

  -- A well-formed packet that fits the target size is written as its head, its payload and 0xff up to
  -- the target size, and the number of bytes returned is the target size.
  pub write_packet-Writes :
      (p : Packet) (target : ℕ)
      → IsPacket p
      → size p ≤ target
      → Writes iw (write_packet w p target) (packet_bytes p target) target
  unfolding write_packet header_bytes size head_bytes
  write_packet-Writes p target v h =
      let field = part_bytes stuffed_bytes p.header.has_adaptation_field p.adaptation_field in
      let room : ltb target (1 + 3 + length field + length p.payload) ≡ false =
        le→ltb target (1 + 3 + length field + length p.payload) (omega arith) in
      let left = target - (1 + 3 + length field + length p.payload) in
      Writes-bytes iw (packet_shape p target) (
        Writes-bind iw _ (sync_byte ∷ []) _ (Writes-uint8 iw sync_byte) (
          Writes-step iw _ (header_bytes p.header) _
            (write_packet_header-Writes iw p.header v.header_fits)
            (Writes-step iw _ field _ (field-Writes _ _ v.field_fits) (
              Writes-bind iw _ [] _ (Writes-if_false iw _ room (Writes-return iw tt tt refl)) (
                Writes-step iw _ p.payload _ (payload-Writes _ _ v.payload_fits) (
                  Writes-step iw _ (replicate left 0xff) _ (write_stuffing-Writes iw left) (
                    Writes-return iw _ _
                      (omega (arith, length-replicate {0} {A = ℕ} left 0xff)))))))))

  -- A well-formed packet that does not fit the target size is refused.
  pub write_packet_too_big :
      (p : Packet) (target : ℕ) (out : List ℕ)
      → IsPacket p
      → target < size p
      → write_packet w p target (iw.at out 0 0) ≡ err payload_too_big
  unfolding write_packet header_bytes size head_bytes
  write_packet_too_big p target out v h =
      let field = part_bytes stuffed_bytes p.header.has_adaptation_field p.adaptation_field in
      rw
        (
          iw.write_uint8-at sync_byte out,
          write_packet,
          ◌>>=◌,
          (write_packet_header-Writes iw p.header v.header_fits).run (out ++ (sync_byte ∷ [])),
          (field-Writes p.header.has_adaptation_field p.adaptation_field v.field_fits).run
              (out ++ (sync_byte ∷ []) ++ header_bytes p.header),
          lt→ltb target (1 + 3 + length field + length p.payload) (omega arith),
        )
        refl
