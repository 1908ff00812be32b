-- ===== src/Packet/Parse.antt =====
-- The parsing half of `packet.go`. A field that the source sets on `a` step by step is bound here,
-- and the record is built at the end.
use go_astits.Base.{
  ℕ, ◌+◌, ◌-◌, ◌*◌, ◌/◌, ◌^◌, Bool, false, ◌==◌, ltb, if◌then◌else◌, bit_and, Option, none, some,
  List, [], pos, sub_ℕ, M, ok, pure, fail, deref, ◌>>=◌, ◌>>◌, when, optional,
  packet_must_start_with_a_sync_byte,
}
use go_astits.Bits.{has_bit, ◌<|>◌}
use go_astits.Astikit.{BytesIterator}
use go_astits.Clock.{ClockReference, byte_at, parse_pcr, parse_pts_or_dts}
use go_astits.Packet.{
  Packet, PacketHeader, PacketAdaptationField, PacketAdaptationExtensionField,
  empty_adaptation_field, empty_adaptation_extension_field, mpeg_ts_packet_size, sync_byte,
}

unfoldable pub header_of_bytes : List ℕ → PacketHeader
header_of_bytes bs = record {
  continuity_counter = bit_and (byte_at bs 2) 0xf;
  has_adaptation_field = has_bit (byte_at bs 2) 0x20;
  has_payload = has_bit (byte_at bs 2) 0x10;
  payload_unit_start_indicator = has_bit (byte_at bs 0) 0x40;
  pid = bit_and (byte_at bs 0) 0x1f * 2 ^ 8 <|> byte_at bs 1;
  transport_error_indicator = has_bit (byte_at bs 0) 0x80;
  transport_priority = has_bit (byte_at bs 0) 0x20;
  transport_scrambling_control = bit_and (byte_at bs 2 / 2 ^ 6) 0x3;
}

-- `payloadOffset`: the pointer is followed only where the header says that there is a field.
unfoldable pub payload_offset {ℓ} :
    {S : Type ℓ} → ℕ → PacketHeader → Option PacketAdaptationField → M S ℕ
payload_offset offset_start h a =
    if h.has_adaptation_field
    then (do af ← deref a; pure (offset_start + 3 + (1 + af.length)))
    else pure (offset_start + 3)

module _ (r : BytesIterator) where
  open r use {Iter, next_byte, next_bytes, seek, seek_below, skip_back, offset, len, dump}

  offset_now : M Iter ℕ
  offset_now i = ok (offset i, i)

  len_now : M Iter ℕ
  len_now i = ok (len i, i)

  unfoldable pub parse_packet_header : M Iter PacketHeader
  parse_packet_header = do bs ← next_bytes 3; pure (header_of_bytes bs)

  -- Flag and 15 bits of offset.
  unfoldable pub parse_legal_time_window : M Iter (Bool × ℕ)
  parse_legal_time_window = do
    bs ← next_bytes 2
    pure (has_bit (byte_at bs 0) 0x80, bit_and (byte_at bs 0) 0x7f * 2 ^ 8 <|> byte_at bs 1)

  unfoldable pub parse_piecewise_rate : M Iter ℕ
  parse_piecewise_rate = do
    bs ← next_bytes 3
    pure (bit_and (byte_at bs 0) 0x3f * 2 ^ 16 <|> byte_at bs 1 * 2 ^ 8 <|> byte_at bs 2)

  -- The high half of the first byte; the byte is read again as the time stamp's.
  unfoldable pub parse_seamless_splice : M Iter (ℕ × Option ClockReference)
  parse_seamless_splice = do
    b ← next_byte
    skip_back 1
    dts ← parse_pts_or_dts r
    pure (bit_and b 0xf0 / 2 ^ 4, some dts)

  unfoldable pub parse_adaptation_extension_content : ℕ → M Iter PacketAdaptationExtensionField
  unfolding parse_legal_time_window parse_piecewise_rate parse_seamless_splice
  parse_adaptation_extension_content length = do
    b ← next_byte
    let ltw = has_bit b 0x80
    let rate = has_bit b 0x40
    let splice = has_bit b 0x20
    window ← when ltw (false, 0) parse_legal_time_window
    piecewise ← when rate 0 parse_piecewise_rate
    join ← when splice (0, none) parse_seamless_splice
    pure (record {
      dts_next_access_unit = join.1;
      has_legal_time_window = ltw;
      has_piecewise_rate = rate;
      has_seamless_splice = splice;
      legal_time_window_is_valid = window.0;
      legal_time_window_offset = window.1;
      length = length;
      piecewise_rate = piecewise;
      splice_type = join.0;
    })

  unfoldable pub parse_adaptation_extension : M Iter PacketAdaptationExtensionField
  unfolding parse_adaptation_extension_content
  parse_adaptation_extension = do
    length ← next_byte
    when (ltb 0 length) empty_adaptation_extension_field (parse_adaptation_extension_content length)

  unfoldable pub parse_transport_private_data : M Iter (ℕ × List ℕ)
  parse_transport_private_data = do
    n ← next_byte
    bs ← when (ltb 0 n) [] (next_bytes n)
    pure (n, bs)

  -- What stands in a field whose length is above zero.
  unfoldable pub parse_adaptation_content : ℕ → M Iter PacketAdaptationField
  unfolding parse_transport_private_data parse_adaptation_extension
  parse_adaptation_content length = do
    b ← next_byte
    let has_pcr = has_bit b 0x10
    let has_opcr = has_bit b 0x08
    let has_countdown = has_bit b 0x04
    let has_private = has_bit b 0x02
    let has_extension = has_bit b 0x01
    pcr ← optional has_pcr (parse_pcr r)
    opcr ← optional has_opcr (parse_pcr r)
    countdown ← when has_countdown 0 next_byte
    private ← when has_private (0, []) parse_transport_private_data
    extension ← optional has_extension parse_adaptation_extension
    pure (record {
      adaptation_extension_field = extension;
      discontinuity_indicator = has_bit b 0x80;
      elementary_stream_priority_indicator = has_bit b 0x20;
      has_adaptation_extension_field = has_extension;
      has_opcr = has_opcr;
      has_pcr = has_pcr;
      has_transport_private_data = has_private;
      has_splicing_countdown = has_countdown;
      length = length;
      is_one_byte_stuffing = false;
      stuffing_length = pos 0;
      opcr = opcr;
      pcr = pcr;
      random_access_indicator = has_bit b 0x40;
      splice_countdown = pos countdown;
      transport_private_data_length = private.0;
      transport_private_data = private.1;
    })

  -- The offset does not go back behind `start`, so the inner difference is one of numbers.
  unfoldable pub parse_packet_adaptation_field : M Iter PacketAdaptationField
  unfolding offset_now parse_adaptation_content
  parse_packet_adaptation_field = do
    length ← next_byte
    start ← offset_now
    a ← when (ltb 0 length) empty_adaptation_field (parse_adaptation_content length)
    stop ← offset_now
    pure (record a { stuffing_length = sub_ℕ length (stop - start) })

  -- From the header on.
  unfoldable pub parse_packet_content : M Iter Packet
  unfolding offset_now
  parse_packet_content = do
    offset_start ← offset_now
    header ← parse_packet_header
    a ← optional header.has_adaptation_field parse_packet_adaptation_field
    payload ←
        when header.has_payload [] (do to ← payload_offset offset_start header a; seek to; dump)
    pure (record { adaptation_field = a; header = header; payload = payload })

  -- Of a packet shorter than 187 bytes, the seek is below zero.
  unfoldable pub parse_packet : M Iter Packet
  unfolding len_now
  parse_packet = do
    b ← next_byte
    if b == sync_byte then pure tt else fail packet_must_start_with_a_sync_byte
    n ← len_now
    (if ltb (n + 1) mpeg_ts_packet_size
        then seek_below (mpeg_ts_packet_size - (n + 1))
        else seek (n + 1 - mpeg_ts_packet_size))
    parse_packet_content
