-- ===== src/Pes.antt =====
-- `data_pes.go`: packetized elementary stream packets.
pub mod Parse
pub mod Write
pub mod TrickMode
pub mod Length
pub mod Crc
use go_astits.Base.{ℕ, Bool, true, false, not, ◌||◌, ◌&&◌, ◌==◌, Option, none, List, []}
use go_astits.Clock.{ClockReference}

abbrev pub pts_dts_indicator_both_present : ℕ
pts_dts_indicator_both_present = 3

abbrev pub pts_dts_indicator_only_pts : ℕ
pts_dts_indicator_only_pts = 2

abbrev pub stream_id_padding_stream : ℕ
stream_id_padding_stream = 190

abbrev pub stream_id_private_stream2 : ℕ
stream_id_private_stream2 = 191

abbrev pub trick_mode_control_fast_forward : ℕ
trick_mode_control_fast_forward = 0

abbrev pub trick_mode_control_slow_motion : ℕ
trick_mode_control_slow_motion = 1

abbrev pub trick_mode_control_freeze_frame : ℕ
trick_mode_control_freeze_frame = 2

abbrev pub trick_mode_control_fast_reverse : ℕ
trick_mode_control_fast_reverse = 3

abbrev pub trick_mode_control_slow_reverse : ℕ
trick_mode_control_slow_reverse = 4

abbrev pub pes_header_length : ℕ
pes_header_length = 6

abbrev pub dsm_trick_mode_length : ℕ
dsm_trick_mode_length = 1

pub record DsmTrickMode : Type 0 where
  pub field_id : ℕ
  pub frequency_truncation : ℕ
  pub intra_slice_refresh : ℕ
  pub repeat_control : ℕ
  pub trick_mode_control : ℕ

pub record PesOptionalHeader : Type 0 where
  pub additional_copy_info : ℕ
  pub crc : ℕ
  pub data_alignment_indicator : Bool
  pub dsm_trick_mode : Option DsmTrickMode
  pub dts : Option ClockReference
  pub escr : Option ClockReference
  pub es_rate : ℕ
  pub extension2_data : List ℕ
  pub extension2_length : ℕ
  pub has_additional_copy_info : Bool
  pub has_crc : Bool
  pub has_dsm_trick_mode : Bool
  pub has_escr : Bool
  pub has_es_rate : Bool
  pub has_extension : Bool
  pub has_extension2 : Bool
  pub has_optional_fields : Bool
  pub has_pack_header_field : Bool
  pub has_private_data : Bool
  pub has_program_packet_sequence_counter : Bool
  pub has_pstd_buffer : Bool
  pub header_length : ℕ
  pub is_copyrighted : Bool
  pub is_original : Bool
  pub marker_bits : ℕ
  pub mpeg1_or_mpeg2_id : ℕ
  pub original_stuffing_length : ℕ
  pub packet_sequence_counter : ℕ
  pub pack_field : ℕ
  pub priority : Bool
  pub private_data : List ℕ
  pub pstd_buffer_scale : ℕ
  pub pstd_buffer_size : ℕ
  pub pts : Option ClockReference
  pub pts_dts_indicator : ℕ
  pub scrambling_control : ℕ

pub record PesHeader : Type 0 where
  pub optional_header : Option PesOptionalHeader
  pub packet_length : ℕ
  pub stream_id : ℕ

pub record PesData : Type 0 where
  pub data_bytes : List ℕ
  pub header : PesHeader

unfoldable pub is_video_stream : PesHeader → Bool
is_video_stream h = (h.stream_id == 0xe0) || (h.stream_id == 0xfd)

unfoldable pub has_pes_optional_header : ℕ → Bool
has_pes_optional_header stream_id =
    not (stream_id == stream_id_padding_stream) && not (stream_id == stream_id_private_stream2)
