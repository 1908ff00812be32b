-- ===== src/Packet/Write.antt =====
-- The writing half of `packet.go`. Each function gives the number of bytes that it has written.
-- The counts that the source returns beside an error are not modelled.
use go_astits.Base.{
  ignore_error, ℕ, zero, suc, ◌+◌, ◌-◌, ◌%◌, true, ◌==◌, ltb, if◌then◌else◌, length, sub_ℕ,
  pos_part, uint8, M, pure, fail, deref, ◌>>=◌, ◌>>◌, when, payload_too_big,
}
use go_astits.Astikit.{BitsWriter}
use go_astits.Clock.{write_pcr, write_pts_or_dts, pcr_bytes_size, pts_or_dts_byte_length}
use go_astits.Packet.{
  Packet, PacketHeader, PacketAdaptationField, PacketAdaptationExtensionField,
  empty_adaptation_field, mpeg_ts_packet_header_size, sync_byte,
}

-- Sums of `uint8` wrap at 256; one wrap at the end gives the same as one at each step.
unfoldable pub calc_packet_adaptation_field_extension_length : PacketAdaptationExtensionField → ℕ
calc_packet_adaptation_field_extension_length afe =
    (1
      + (if afe.has_legal_time_window then 2 else 0)
      + (if afe.has_piecewise_rate then 3 else 0)
      + (if afe.has_seamless_splice then pts_or_dts_byte_length else 0))
    % 256

unfoldable pub calc_packet_adaptation_field_length : {S : Type 0} → PacketAdaptationField → M S ℕ
unfolding calc_packet_adaptation_field_extension_length
calc_packet_adaptation_field_length af = do
  extension ← when af.has_adaptation_extension_field 0 (do
    afe ← deref af.adaptation_extension_field
    pure (1 + calc_packet_adaptation_field_extension_length afe))
  pure (
      (1
        + (if af.has_pcr then pcr_bytes_size else 0)
        + (if af.has_opcr then pcr_bytes_size else 0)
        + (if af.has_splicing_countdown then 1 else 0)
        + (if af.has_transport_private_data then 1 + length af.transport_private_data else 0)
        + extension
        + uint8 af.stuffing_length)
      % 256)

unfoldable pub new_stuffing_adaptation_field : ℕ → PacketAdaptationField
new_stuffing_adaptation_field bytes_to_stuff =
    if bytes_to_stuff == 1
    then (record empty_adaptation_field { is_one_byte_stuffing = true })
    else (record empty_adaptation_field { stuffing_length = sub_ℕ bytes_to_stuff 2 })

module _ (w : BitsWriter) where
  open w use {Writer, write_bool, write_uint8, write_bytes, write_n}

  unfoldable pub write_packet_header : PacketHeader → M Writer ℕ
  write_packet_header h = do
    write_bool h.transport_error_indicator
    write_bool h.payload_unit_start_indicator
    write_bool h.transport_priority
    write_n h.pid 13
    write_n h.transport_scrambling_control 2
    write_bool h.has_adaptation_field
    write_bool h.has_payload
    write_n h.continuity_counter 4
    pure mpeg_ts_packet_header_size

  unfoldable pub write_legal_time_window : PacketAdaptationExtensionField → M Writer ℕ
  write_legal_time_window afe = do
    write_bool afe.legal_time_window_is_valid
    write_n afe.legal_time_window_offset 15
    pure 2

  unfoldable pub write_piecewise_rate : PacketAdaptationExtensionField → M Writer ℕ
  write_piecewise_rate afe = do write_n 0xff 2; write_n afe.piecewise_rate 22; pure 3

  unfoldable pub write_seamless_splice : PacketAdaptationExtensionField → M Writer ℕ
  write_seamless_splice afe = do
    dts ← deref afe.dts_next_access_unit
    write_pts_or_dts w afe.splice_type dts

  -- The length byte and the flags.
  unfoldable pub write_extension_head : PacketAdaptationExtensionField → M Writer ℕ
  write_extension_head afe = do
    write_uint8 (calc_packet_adaptation_field_extension_length afe)
    write_bool afe.has_legal_time_window
    write_bool afe.has_piecewise_rate
    write_bool afe.has_seamless_splice
    write_n 0xff 5
    pure 2

  unfoldable pub write_packet_adaptation_field_extension :
      PacketAdaptationExtensionField → M Writer ℕ
  unfolding write_extension_head write_legal_time_window write_piecewise_rate write_seamless_splice
  write_packet_adaptation_field_extension afe = do
    head ← write_extension_head afe
    window ← when afe.has_legal_time_window 0 (write_legal_time_window afe)
    rate ← when afe.has_piecewise_rate 0 (write_piecewise_rate afe)
    splice ← when afe.has_seamless_splice 0 (write_seamless_splice afe)
    pure (head + window + rate + splice)

  -- The length byte and the flags.
  unfoldable pub write_adaptation_head : PacketAdaptationField → M Writer ℕ
  write_adaptation_head af = do
    length ← calc_packet_adaptation_field_length af
    write_uint8 length
    write_bool af.discontinuity_indicator
    write_bool af.random_access_indicator
    write_bool af.elementary_stream_priority_indicator
    write_bool af.has_pcr
    write_bool af.has_opcr
    write_bool af.has_splicing_countdown
    write_bool af.has_transport_private_data
    write_bool af.has_adaptation_extension_field
    pure 2

  -- The length is the field of the record; what is counted is the data.
  unfoldable pub write_transport_private_data : PacketAdaptationField → M Writer ℕ
  write_transport_private_data af = do
    write_uint8 (af.transport_private_data_length % 256)
    if ltb 0 af.transport_private_data_length
        then write_bytes af.transport_private_data
        else pure tt
    pure (suc (length af.transport_private_data))

  -- `for i := 0; i < n; i++`
  unfoldable pub write_stuffing : ℕ → M Writer ℕ
  write_stuffing zero = pure 0
  write_stuffing (suc n) = do write_uint8 0xff; rest ← write_stuffing n; pure (1 + rest)

  -- The one byte of stuffing goes out with no look at the writer's error.
  unfoldable pub write_packet_adaptation_field : PacketAdaptationField → M Writer ℕ
  unfolding write_adaptation_head write_transport_private_data write_stuffing
      write_packet_adaptation_field_extension
  write_packet_adaptation_field af =
      if af.is_one_byte_stuffing then (do ignore_error (write_uint8 0); pure 1) else (do
        head ← write_adaptation_head af
        pcr ← when af.has_pcr 0 (do cr ← deref af.pcr; write_pcr w cr)
        opcr ← when af.has_opcr 0 (do cr ← deref af.opcr; write_pcr w cr)
        countdown ←
            when af.has_splicing_countdown 0 (do write_uint8 (uint8 af.splice_countdown); pure 1)
        private ← when af.has_transport_private_data 0 (write_transport_private_data af)
        extension ← when af.has_adaptation_extension_field 0 (do
          afe ← deref af.adaptation_extension_field
          write_packet_adaptation_field_extension afe)
        stuffing ← write_stuffing (pos_part af.stuffing_length)
        pure (head + pcr + opcr + countdown + private + extension + stuffing))

  unfoldable pub write_packet : Packet → ℕ → M Writer ℕ
  unfolding write_packet_header write_packet_adaptation_field write_stuffing
  write_packet p target_packet_size = do
    write_uint8 sync_byte
    header ← write_packet_header p.header
    field ←
        when p.header.has_adaptation_field 0
          (do af ← deref p.adaptation_field; write_packet_adaptation_field af)
    let written = 1 + header + field
    if ltb target_packet_size (written + length p.payload) then fail payload_too_big else pure tt
    payload ← when p.header.has_payload 0 (do write_bytes p.payload; pure (length p.payload))
    padding ← write_stuffing (target_packet_size - (written + payload))
    pure (written + payload + padding)
