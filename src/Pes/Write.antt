-- ===== src/Pes/Write.antt =====
-- The writing half of `data_pes.go`.
use go_astits.Base.{
  ℕ, ◌+◌, ◌*◌, ◌%◌, ◌^◌, Bool, true, false, ◌==◌, ltb, if◌then◌else◌, Option, none, some, List,
  length, take, ℤ, pos, negsuc, sub_ℕ, M, pure, fault, deref, ◌>>=◌, ◌>>◌, when,
}
use go_astits.Astikit.{BitsWriter}
use go_astits.Clock.{write_pts_or_dts, write_escr, pts_or_dts_byte_length, escr_length}
use go_astits.Pes.{
  DsmTrickMode, PesOptionalHeader, PesHeader, is_video_stream, has_pes_optional_header,
  pts_dts_indicator_both_present, pts_dts_indicator_only_pts, trick_mode_control_freeze_frame,
  pes_header_length, dsm_trick_mode_length,
}
use go_astits.Pes.Parse.{is_fast, is_slow}

-- The sum wraps at a byte; as all its terms are numbers, it does so once, at the end.
unfoldable pub calc_pes_optional_header_data_length : PesOptionalHeader → ℕ
calc_pes_optional_header_data_length h =
    let stamps =
      (if h.pts_dts_indicator == pts_dts_indicator_only_pts
        then pts_or_dts_byte_length
        else if h.pts_dts_indicator == pts_dts_indicator_both_present
        then 2 * pts_or_dts_byte_length
        else 0) in
    let extension =
      (if h.has_extension
        then 1
          + (if h.has_private_data then 16 else 0)
          + (if h.has_program_packet_sequence_counter then 2 else 0)
          + (if h.has_pstd_buffer then 2 else 0)
          + (if h.has_extension2 then 1 + length h.extension2_data else 0)
        else 0) in
    (stamps
      + (if h.has_escr then escr_length else 0)
      + (if h.has_es_rate then 3 else 0)
      + (if h.has_dsm_trick_mode then dsm_trick_mode_length else 0)
      + (if h.has_additional_copy_info then 1 else 0)
      + extension)
    % 2 ^ 8

unfoldable pub calc_pes_optional_header_length : Option PesOptionalHeader → ℕ
calc_pes_optional_header_length none = 0
calc_pes_optional_header_length (some h) = (3 + calc_pes_optional_header_data_length h) % 2 ^ 8

-- `a - b` of Go's `int`, and the smaller of two
abbrev pub minus : ℕ → ℕ → ℤ
minus a b = sub_ℕ a b

abbrev pub at_most : ℤ → ℕ → ℤ
at_most (pos a) b = if ltb b a then pos b else pos a
at_most (negsuc a) b = negsuc a

-- All bytes of the header, and the bytes of the payload, which fall below zero where the header
-- does not fit.
unfoldable pub calc_pes_data_length : PesHeader → List ℕ → Bool → ℕ → ℕ × ℤ
calc_pes_data_length h payload_left is_payload_start bytes_available =
    let total =
      pes_header_length
      + (if is_payload_start then calc_pes_optional_header_length h.optional_header else 0) in
    (total, at_most (minus bytes_available total) (length payload_left))

module _ (w : BitsWriter) where
  open w use {Writer, write_bool, write_uint8, write_uint16, write_bytes, write_bytes_n, write_n}

  -- The five bits behind the control.
  unfoldable pub write_trick_mode_fields : DsmTrickMode → M Writer (Unit {0})
  write_trick_mode_fields m =
      if is_fast m.trick_mode_control
      then (do
        write_n m.field_id 2
        write_bool (m.intra_slice_refresh == 1)
        write_n m.frequency_truncation 2)
      else if m.trick_mode_control == trick_mode_control_freeze_frame
      then (do write_n m.field_id 2; write_n 0xff 3)
      else if is_slow m.trick_mode_control
      then write_n m.repeat_control 5
      else write_n 0xff 5

  unfoldable pub write_dsm_trick_mode : DsmTrickMode → M Writer ℕ
  write_dsm_trick_mode m = do
    write_n m.trick_mode_control 3
    write_trick_mode_fields m
    pure dsm_trick_mode_length

  -- Marker bits to header length.
  unfoldable pub write_optional_head : PesOptionalHeader → M Writer ℕ
  write_optional_head h = do
    write_n 0b10 2
    write_n h.scrambling_control 2
    write_bool h.priority
    write_bool h.data_alignment_indicator
    write_bool h.is_copyrighted
    write_bool h.is_original
    write_n h.pts_dts_indicator 2
    write_bool h.has_escr
    write_bool h.has_es_rate
    write_bool h.has_dsm_trick_mode
    write_bool h.has_additional_copy_info
    write_bool false
    write_bool h.has_extension
    write_uint8 (calc_pes_optional_header_data_length h)
    pure 3

  unfoldable pub write_timestamps : PesOptionalHeader → M Writer ℕ
  write_timestamps h =
      if h.pts_dts_indicator == pts_dts_indicator_only_pts
      then (do pts ← deref h.pts; write_pts_or_dts w 0b0010 pts)
      else if h.pts_dts_indicator == pts_dts_indicator_both_present
      then (do
        pts ← deref h.pts
        n ← write_pts_or_dts w 0b0011 pts
        dts ← deref h.dts
        k ← write_pts_or_dts w 0b0001 dts
        pure (n + k))
      else pure 0

  unfoldable pub write_es_rate : PesOptionalHeader → M Writer ℕ
  write_es_rate h = do write_bool true; write_n h.es_rate 22; write_bool true; pure 3

  unfoldable pub write_additional_copy_info : PesOptionalHeader → M Writer ℕ
  write_additional_copy_info h = do write_bool true; write_n h.additional_copy_info 7; pure 1

  unfoldable pub write_extension_flags : PesOptionalHeader → M Writer ℕ
  write_extension_flags h = do
    write_bool h.has_private_data
    write_bool false
    write_bool h.has_program_packet_sequence_counter
    write_bool h.has_pstd_buffer
    write_n 0xff 3
    write_bool h.has_extension2
    pure 1

  unfoldable pub write_private_data : PesOptionalHeader → M Writer ℕ
  write_private_data h = do write_bytes_n h.private_data 16 0; pure 16

  unfoldable pub write_sequence_counter : PesOptionalHeader → M Writer ℕ
  write_sequence_counter h = do
    write_bool true
    write_n h.packet_sequence_counter 7
    write_bool true
    write_n h.mpeg1_or_mpeg2_id 1
    write_n h.original_stuffing_length 6
    pure 2

  unfoldable pub write_pstd_buffer : PesOptionalHeader → M Writer ℕ
  write_pstd_buffer h = do
    write_n 0b01 2
    write_n h.pstd_buffer_scale 1
    write_n h.pstd_buffer_size 13
    pure 2

  unfoldable pub write_extension2_head : PesOptionalHeader → M Writer (Unit {0})
  write_extension2_head h = do write_bool true; write_n (length h.extension2_data % 2 ^ 8) 7

  unfoldable pub write_extension2 : PesOptionalHeader → M Writer ℕ
  write_extension2 h = do
    write_extension2_head h
    write_bytes h.extension2_data
    pure (1 + length h.extension2_data)

  unfoldable pub write_extension : PesOptionalHeader → M Writer ℕ
  write_extension h = do
    a ← write_extension_flags h
    b ← when h.has_private_data 0 (write_private_data h)
    c ← when h.has_program_packet_sequence_counter 0 (write_sequence_counter h)
    d ← when h.has_pstd_buffer 0 (write_pstd_buffer h)
    e ← when h.has_extension2 0 (write_extension2 h)
    pure (a + b + c + d + e)

  -- The parts behind the header length.
  unfoldable pub write_optional_parts : PesOptionalHeader → M Writer ℕ
  write_optional_parts h = do
    a ← write_timestamps h
    b ← when h.has_escr 0 (do escr ← deref h.escr; write_escr w escr)
    c ← when h.has_es_rate 0 (write_es_rate h)
    d ← when h.has_dsm_trick_mode 0 (do m ← deref h.dsm_trick_mode; write_dsm_trick_mode m)
    e ← when h.has_additional_copy_info 0 (write_additional_copy_info h)
    f ← when h.has_extension 0 (write_extension h)
    pure (a + b + c + d + e + f)

  unfoldable pub write_pes_optional_header : Option PesOptionalHeader → M Writer ℕ
  write_pes_optional_header none = pure 0
  write_pes_optional_header (some h) = do
    a ← write_optional_head h
    b ← write_optional_parts h
    pure (a + b)

  -- The length that is written: zero for a video stream, and where it would not fit.
  unfoldable pub pes_packet_length : PesHeader → ℕ → ℕ
  pes_packet_length h payload_size =
      let length =
        payload_size
        + (if has_pes_optional_header h.stream_id
            then calc_pes_optional_header_length h.optional_header
            else 0) in
      if is_video_stream h then 0 else if ltb 0xffff length then 0 else length

  unfoldable pub write_pes_header : PesHeader → ℕ → M Writer ℕ
  write_pes_header h payload_size = do
    write_n 0x000001 24
    write_uint8 h.stream_id
    write_uint16 (pes_packet_length h payload_size % 2 ^ 16)
    n ← when (has_pes_optional_header h.stream_id) 0 (write_pes_optional_header h.optional_header)
    pure (pes_header_length + n)

  -- `w.Write(payloadLeft[:n])`: a bound below zero is a fault.
  unfoldable pub write_payload : List ℕ → ℤ → M Writer ℕ
  write_payload payload_left (pos n) = do write_bytes (take n payload_left); pure n
  write_payload payload_left (negsuc n) = fault

  -- All bytes, and the bytes of the payload.
  unfoldable pub write_pes_data : PesHeader → List ℕ → Bool → ℕ → M Writer (ℕ × ℕ)
  write_pes_data h payload_left is_payload_start bytes_available = do
    n ← when is_payload_start 0 (write_pes_header h (length payload_left))
    k ← write_payload payload_left (at_most (minus bytes_available n) (length payload_left))
    pure (n + k, k)
