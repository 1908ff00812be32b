-- ===== src/Pes/Parse.antt =====
-- The parsing half of `data_pes.go`. A field that the source sets on `h` step by step is bound here,
-- and the record is built at the end.
use go_astits.Base.{
  ℕ, ◌+◌, ◌-◌, ◌*◌, ◌/◌, ◌^◌, Bool, false, ◌==◌, ◌||◌, ltb, if◌then◌else◌, bit_and, Option, none,
  some, List, [], M, ok, pure, ◌>>=◌, ◌>>◌, when, optional,
}
use go_astits.Bits.{has_bit, ◌<|>◌}
use go_astits.Astikit.{BytesIterator}
use go_astits.Clock.{ClockReference, byte_at, parse_pts_or_dts, parse_escr}
use go_astits.Pes.{
  DsmTrickMode, PesOptionalHeader, PesHeader, PesData, has_pes_optional_header,
  pts_dts_indicator_both_present, pts_dts_indicator_only_pts, trick_mode_control_fast_forward,
  trick_mode_control_fast_reverse, trick_mode_control_freeze_frame, trick_mode_control_slow_motion,
  trick_mode_control_slow_reverse,
}

abbrev pub is_fast : ℕ → Bool
is_fast c = (c == trick_mode_control_fast_forward) || (c == trick_mode_control_fast_reverse)

abbrev pub is_slow : ℕ → Bool
is_slow c = (c == trick_mode_control_slow_motion) || (c == trick_mode_control_slow_reverse)

-- `&DSMTrickMode{}` with its control set
abbrev pub trick_mode : ℕ → DsmTrickMode
trick_mode c = record {
  field_id = 0;
  frequency_truncation = 0;
  intra_slice_refresh = 0;
  repeat_control = 0;
  trick_mode_control = c;
}

unfoldable pub parse_dsm_trick_mode : ℕ → DsmTrickMode
parse_dsm_trick_mode i =
    let control = i / 2 ^ 5 in
    if is_fast control
    then record (trick_mode control) {
      field_id = bit_and (i / 2 ^ 3) 0x3;
      intra_slice_refresh = bit_and (i / 2 ^ 2) 0x1;
      frequency_truncation = bit_and i 0x3;
    }
    else if control == trick_mode_control_freeze_frame
    then record (trick_mode control) { field_id = bit_and (i / 2 ^ 3) 0x3 }
    else if is_slow control
    then record (trick_mode control) { repeat_control = bit_and i 0x1f }
    else trick_mode control

-- What the extension sets on the header.
pub record Extension : Type 0 where
  pub extension2_data : List ℕ
  pub extension2_length : ℕ
  pub has_extension2 : Bool
  pub has_pack_header_field : Bool
  pub has_private_data : Bool
  pub has_program_packet_sequence_counter : Bool
  pub has_pstd_buffer : Bool
  pub mpeg1_or_mpeg2_id : ℕ
  pub original_stuffing_length : ℕ
  pub packet_sequence_counter : ℕ
  pub pack_field : ℕ
  pub private_data : List ℕ
  pub pstd_buffer_scale : ℕ
  pub pstd_buffer_size : ℕ

-- A header with no extension.
abbrev pub no_extension : Extension
no_extension = record {
  extension2_data = [];
  extension2_length = 0;
  has_extension2 = false;
  has_pack_header_field = false;
  has_private_data = false;
  has_program_packet_sequence_counter = false;
  has_pstd_buffer = false;
  mpeg1_or_mpeg2_id = 0;
  original_stuffing_length = 0;
  packet_sequence_counter = 0;
  pack_field = 0;
  private_data = [];
  pstd_buffer_scale = 0;
  pstd_buffer_size = 0;
}

module _ (r : BytesIterator) where
  open r use {Iter, next_byte, next_bytes, next_bytes_below, seek, offset, len}

  -- `PTS` and `DTS`
  unfoldable pub parse_timestamps : ℕ → M Iter (Option ClockReference × Option ClockReference)
  parse_timestamps indicator = do
    pts ←
        optional
          ((indicator == pts_dts_indicator_only_pts)
            || (indicator == pts_dts_indicator_both_present))
          (parse_pts_or_dts r)
    dts ← optional (indicator == pts_dts_indicator_both_present) (parse_pts_or_dts r)
    pure (pts, dts)

  unfoldable pub parse_es_rate : M Iter ℕ
  parse_es_rate = do
    bs ← next_bytes 3
    pure (bit_and (byte_at bs 0) 0x7f * 2 ^ 15 <|> byte_at bs 1 * 2 ^ 7 <|> byte_at bs 2 / 2)

  -- `bs[0]` is shifted to the right, and so lost.
  unfoldable pub parse_crc : M Iter ℕ
  parse_crc = do bs ← next_bytes 2; pure (byte_at bs 0 / 2 ^ 8 <|> byte_at bs 1)

  -- Counter, MPEG1 or MPEG2, and the original stuffing length.
  unfoldable pub parse_sequence_counter : M Iter (ℕ × ℕ × ℕ)
  parse_sequence_counter = do
    bs ← next_bytes 2
    pure (
      bit_and (byte_at bs 0) 0x7f,
      bit_and (byte_at bs 1 / 2 ^ 6) 0x1,
      bit_and (byte_at bs 1) 0x3f,
    )

  -- Scale and size.
  unfoldable pub parse_pstd_buffer : M Iter (ℕ × ℕ)
  parse_pstd_buffer = do
    bs ← next_bytes 2
    pure (bit_and (byte_at bs 0 / 2 ^ 5) 0x1, bit_and (byte_at bs 0) 0x1f * 2 ^ 8 <|> byte_at bs 1)

  unfoldable pub parse_extension2 : M Iter (ℕ × List ℕ)
  parse_extension2 = do b ← next_byte; bs ← next_bytes (bit_and b 0x7f); pure (bit_and b 0x7f, bs)

  unfoldable pub parse_extension : M Iter Extension
  parse_extension = do
    b ← next_byte
    private ← when (has_bit b 0x80) [] (next_bytes 16)
    pack ← when (has_bit b 0x40) 0 next_byte
    sequence ← when (has_bit b 0x20) (0, 0, 0) parse_sequence_counter
    pstd ← when (has_bit b 0x10) (0, 0) parse_pstd_buffer
    second ← when (has_bit b 0x1) (0, []) parse_extension2
    pure (record {
      extension2_data = second.1;
      extension2_length = second.0;
      has_extension2 = has_bit b 0x1;
      has_pack_header_field = has_bit b 0x40;
      has_private_data = has_bit b 0x80;
      has_program_packet_sequence_counter = has_bit b 0x20;
      has_pstd_buffer = has_bit b 0x10;
      mpeg1_or_mpeg2_id = sequence.1;
      original_stuffing_length = sequence.2;
      packet_sequence_counter = sequence.0;
      pack_field = pack;
      private_data = private;
      pstd_buffer_scale = pstd.0;
      pstd_buffer_size = pstd.1;
    })

  offset_now : M Iter ℕ
  offset_now i = ok (offset i, i)

  len_now : M Iter ℕ
  len_now i = ok (len i, i)

  -- The header, and where the data starts.
  unfoldable pub parse_pes_optional_header : M Iter (PesOptionalHeader × ℕ)
  unfolding offset_now
  parse_pes_optional_header = do
    a ← next_byte
    b ← next_byte
    header_length ← next_byte
    here ← offset_now
    let indicator = bit_and (b / 2 ^ 6) 0x3
    stamps ← parse_timestamps indicator
    escr ← optional (has_bit b 0x20) (parse_escr r)
    es_rate ← when (has_bit b 0x10) 0 parse_es_rate
    dsm ← optional (has_bit b 0x8) (do c ← next_byte; pure (parse_dsm_trick_mode c))
    info ← when (has_bit b 0x4) 0 (do c ← next_byte; pure (bit_and c 0x7f))
    crc ← when (has_bit b 0x2) 0 parse_crc
    extension ← when (has_bit b 0x1) no_extension parse_extension
    pure (
      record {
        additional_copy_info = info;
        crc = crc;
        data_alignment_indicator = has_bit a 0x4;
        dsm_trick_mode = dsm;
        dts = stamps.1;
        escr = escr;
        es_rate = es_rate;
        extension2_data = extension.extension2_data;
        extension2_length = extension.extension2_length;
        has_additional_copy_info = has_bit b 0x4;
        has_crc = has_bit b 0x2;
        has_dsm_trick_mode = has_bit b 0x8;
        has_escr = has_bit b 0x20;
        has_es_rate = has_bit b 0x10;
        has_extension = has_bit b 0x1;
        has_extension2 = extension.has_extension2;
        has_optional_fields = false;
        has_pack_header_field = extension.has_pack_header_field;
        has_private_data = extension.has_private_data;
        has_program_packet_sequence_counter = extension.has_program_packet_sequence_counter;
        has_pstd_buffer = extension.has_pstd_buffer;
        header_length = header_length;
        is_copyrighted = has_bit a 0x2;
        is_original = has_bit a 0x1;
        marker_bits = a / 2 ^ 6;
        mpeg1_or_mpeg2_id = extension.mpeg1_or_mpeg2_id;
        original_stuffing_length = extension.original_stuffing_length;
        packet_sequence_counter = extension.packet_sequence_counter;
        pack_field = extension.pack_field;
        priority = has_bit a 0x8;
        private_data = extension.private_data;
        pstd_buffer_scale = extension.pstd_buffer_scale;
        pstd_buffer_size = extension.pstd_buffer_size;
        pts = stamps.0;
        pts_dts_indicator = indicator;
        scrambling_control = bit_and (a / 2 ^ 4) 0x3;
      },
      here + header_length,
    )

  -- `h.OptionalHeader` and `dataStart`
  unfoldable pub parse_optional_part : ℕ → M Iter (Option PesOptionalHeader × ℕ)
  unfolding offset_now
  parse_optional_part stream_id =
      if has_pes_optional_header stream_id
      then (do p ← parse_pes_optional_header; pure (some p.0, p.1))
      else (do o ← offset_now; pure (none, o))

  -- The header, and where the data starts and ends.
  unfoldable pub parse_pes_header : M Iter (PesHeader × ℕ × ℕ)
  unfolding offset_now len_now
  parse_pes_header = do
    stream_id ← next_byte
    bs ← next_bytes 2
    let packet_length = byte_at bs 0 * 2 ^ 8 <|> byte_at bs 1
    here ← offset_now
    all ← len_now
    let data_end = if ltb 0 packet_length then here + packet_length else all
    part ← parse_optional_part stream_id
    pure (
      record { optional_header = part.0; packet_length = packet_length; stream_id = stream_id },
      part.1,
      data_end,
    )

  -- The header says where the data starts, which may be behind its end.
  unfoldable pub parse_pes_data : M Iter PesData
  parse_pes_data = do
    seek 3
    h ← parse_pes_header
    seek h.1
    let data_start = h.1
    let data_end = h.2
    bs ←
        (if ltb data_end data_start
          then next_bytes_below (data_start - data_end)
          else next_bytes (data_end - data_start))
    pure (record { data_bytes = bs; header = h.0 })
