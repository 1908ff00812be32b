-- ===== src/Muxer/Data.antt =====
-- `WriteData` and `WritePacket`.
use go_astits.Base.{
  ℕ, zero, suc, ◌+◌, ◌-◌, Bool, true, false, leb, ltb, ◌==◌, ◌&&◌, if◌then◌else◌, Option, none,
  some, List, [], ◌∷◌, drop, insert, lookup, Result, ok, err, pos, M, Map, pid_not_found,
}
use go_astits.Astikit.{BitsWriter, Buffer}
use go_astits.WrappingCounter.{get}
use go_astits.ProgramMap.{ProgramMap}
use go_astits.Pmt.StreamType.{to_pes_stream_id}
use go_astits.Packet.{
  Packet, PacketAdaptationField, mpeg_ts_packet_size, mpeg_ts_packet_header_size,
}
use go_astits.Packet.Write.{
  write_packet, calc_packet_adaptation_field_length, new_stuffing_adaptation_field,
}
use go_astits.Pes.{PesHeader, PesData, pes_header_length}
use go_astits.Pes.Write.{calc_pes_optional_header_length, write_pes_data}
use go_astits.Muxer.Monad.{Op, ◌>>=◌, pure, throw, fault, exhausted, gets, outcome}
use go_astits.Muxer.{Muxer, EsContext, in_buffer, to_out}
use go_astits.Muxer.Tables.{retransmit_tables}

pub record MuxerData : Type 0 where
  pub pid : ℕ
  pub adaptation_field : Option PacketAdaptationField
  pub pes : Option PesData

unfoldable pub with_stuffing : ℕ → PacketAdaptationField → PacketAdaptationField
with_stuffing n af = record af { stuffing_length = pos n }

-- The field that takes up `rest` bytes: a new one, or the one there is with the stuffing.
unfoldable pub stuffed : ℕ → Option PacketAdaptationField → Option PacketAdaptationField
stuffed zero af = af
stuffed (suc rest) none = some (new_stuffing_adaptation_field (suc rest))
stuffed (suc rest) (some af) = some (with_stuffing (suc rest) af)

abbrev pub is_some {ℓ} : {A : Type ℓ} → Option A → Bool
is_some none = false
is_some (some a) = true

unfoldable pub data_packet : ℕ → ℕ → Bool → Option PacketAdaptationField → List ℕ → Packet
data_packet pid counter start field payload = record {
  adaptation_field = field;
  header = record {
    continuity_counter = counter;
    has_adaptation_field = is_some field;
    has_payload = true;
    payload_unit_start_indicator = start;
    pid = pid;
    transport_error_indicator = false;
    transport_priority = false;
    transport_scrambling_control = 0;
  };
  payload = payload;
}

unfoldable pub with_stream_id : ℕ → PesHeader → PesHeader
with_stream_id stream_type h =
    if h.stream_id == 0 then (record h { stream_id = to_pes_stream_id stream_type }) else h

-- Where a packet starts the PES packet, its header has to fit.
unfoldable pub has_room : Bool → PesHeader → ℕ → Bool
has_room start h available =
    if start
    then leb (pes_header_length + calc_pes_optional_header_length h.optional_header) available
    else true

unfoldable pub forces_tables : {Out Time : Type 0} → MuxerData → Muxer Out Time → Bool
forces_tables d m = force d.adaptation_field
  where
    force : Option PacketAdaptationField → Bool
    force none = false
    force (some af) = af.random_access_indicator && (d.pid == m.pmt.pcr_pid)

-- At the end the stuffing of the caller's field is set to 0.
unfoldable pub without_stuffing : Option PacketAdaptationField → Option PacketAdaptationField
without_stuffing none = none
without_stuffing (some af) = some (with_stuffing 0 af)

-- `ctx.cc.get()`, of the context that stands in the map under `pid`. Nothing takes it away while the
-- data are written.
unfoldable pub next_counter : {Out Time : Type 0} → ℕ → Op (Muxer Out Time) ℕ
next_counter {Out} {Time} pid m = count (lookup m.es_contexts pid)
  where
    count : Option (EsContext Time) → Result ℕ × Muxer Out Time
    count none = (err pid_not_found, m)
    count (some c) = (
      ok (get c.cc).0,
      record m { es_contexts = insert m.es_contexts pid (record c { cc = (get c.cc).1 }) },
    )

module _ (w : BitsWriter) (b : Buffer w) {Time : Type 0} where
  -- `1 + calcPacketAdaptationFieldLength`, where a field is to be written.
  unfoldable pub field_size : Option PacketAdaptationField → Op (Muxer w.Writer Time) ℕ
  field_size none = pure 0
  field_size (some af) = do n ← to_out w b (calc_packet_adaptation_field_length af); pure (1 + n)

  -- A packet with room for payload. What it gives: the number of bytes of it, and of the data in it.
  unfoldable pub send_payload :
      ℕ
      → PesHeader
      → ℕ
      → Bool
      → Option PacketAdaptationField
      → List ℕ
      → ℕ
      → Op (Muxer w.Writer Time) (ℕ × ℕ)
  send_payload pid h counter start field left available = do
    ((total, sent), payload) ← outcome (in_buffer w b (write_pes_data w h left start available))
    n ← to_out w b (
        write_packet w (data_packet pid counter start (stuffed (available - total) field) payload)
          mpeg_ts_packet_size)
    pure (n, sent)

  -- The loop over packets, on fuel; a loop without turns left is unfinished. `field` is the field
  -- that is still to be written and `left` the data that are; `written` counts the bytes put out. A
  -- field that leaves no room for the header of the PES packet is dropped, with its packet. The room
  -- behind a field of more than a packet is below zero there and 0 here: no header fits in either.
  -- The result has the header, whose stream id a packet may have set.
  unfoldable pub write_packets :
      ℕ
      → ℕ
      → ℕ
      → PesHeader
      → Bool
      → Option PacketAdaptationField
      → List ℕ
      → ℕ
      → Op (Muxer w.Writer Time) (ℕ × PesHeader)
  write_packets fuel pid stream_type h start field [] written = pure (written, h)
  write_packets zero pid stream_type h start field (x ∷ left) written = exhausted
  write_packets (suc fuel) pid stream_type h start field (x ∷ left) written = do
    counter ← next_counter pid
    size ← field_size field
    let available = mpeg_ts_packet_size - (1 + mpeg_ts_packet_header_size + size)
    let h' = with_stream_id stream_type h
    (if has_room start h available
        then (do
          (n, sent) ← send_payload pid h' counter start field (x ∷ left) available
          write_packets fuel pid stream_type h' false none (drop sent (x ∷ left)) (written + n))
        else write_packets fuel pid stream_type h start none (x ∷ left) written)

  -- One packet may go without data for a field that is too long, and one for a header that fills it.
  unfoldable pub write_pes :
      MuxerData → EsContext Time → ℕ → Option PesData → Op (Muxer w.Writer Time) (ℕ × MuxerData)
  write_pes d ctx tables none = fault
  write_pes d ctx tables (some p) = do
    let fuel = go_astits.Base.length p.data_bytes + 2
    (n, h) ←
        write_packets fuel d.pid ctx.es.stream_type p.header true d.adaptation_field p.data_bytes
          tables
    pure (
      n,
      record d {
        adaptation_field = without_stuffing d.adaptation_field;
        pes = some (record p { header = h });
      },
    )

  -- `WritePacket`
  unfoldable pub write_packet_as_is : Packet → Op (Muxer w.Writer Time) ℕ
  write_packet_as_is p = to_out w b (write_packet w p mpeg_ts_packet_size)

module _ (w : BitsWriter) (b : Buffer w) {Time : Type 0} (write_dvb_time : Time → M w.Writer ℕ)
    (order : ProgramMap → List (ℕ × ℕ)) where
  unfoldable pub write_data_of :
      MuxerData → Option (EsContext Time) → Op (Muxer w.Writer Time) (ℕ × MuxerData)
  write_data_of d none = throw pid_not_found
  write_data_of d (some ctx) = do
    forced ← gets (forces_tables d)
    tables ← retransmit_tables w b write_dvb_time order forced
    write_pes w b d ctx tables d.pes

  -- The number of bytes, and the data as the call leaves them.
  unfoldable pub write_data : MuxerData → Op (Muxer w.Writer Time) (ℕ × MuxerData)
  write_data d = do ctx ← gets (λ m. lookup m.es_contexts d.pid); write_data_of d ctx
