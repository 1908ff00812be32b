-- ===== src/Tests/Streams.antt =====
-- Runs of the writers and readers of PES packets.
use go_astits.Base.{ℕ, ◌≡◌, refl, arith, [], ◌∷◌, true, false, some}
use go_astits.Astikit.Lists.{
  list_iterator, list_iterator-IsBytesIterator, list_writer, list_writer-IsBitsWriter,
}
use go_astits.Codec.{Reads, Writes}
use go_astits.Tests.{clock, clock-IsClock, timestamp, timestamp-IsTimestamp}
use go_astits.Pes.{PesOptionalHeader}
use go_astits.Pes.Parse.{parse_dsm_trick_mode, parse_crc}
use go_astits.Pes.TrickMode.{
  IsTrickMode, fast_mode, fast, parse_dsm_trick_mode-write_dsm_trick_mode,
}
use go_astits.Pes.Write.{
  write_dsm_trick_mode, write_optional_parts, calc_pes_optional_header_data_length,
}
use go_astits.Pes.Length.{IsWritable, Emits, write_optional_parts-Emits}
use go_astits.Pes.Crc.{parse_crc-Reads}

fast-IsTrickMode : IsTrickMode (fast_mode 3 2 1 3)
fast-IsTrickMode = fast 3 2 1 3 (omega arith) refl (omega arith) (omega arith) (omega arith)

parse_dsm_trick_mode-write_dsm_trick_mode_example :
    (b : ℕ) × Writes list_writer-IsBitsWriter
      (write_dsm_trick_mode list_writer (fast_mode 3 2 1 3))
      (b ∷ [])
      1
    × (parse_dsm_trick_mode b ≡ fast_mode 3 2 1 3)
parse_dsm_trick_mode-write_dsm_trick_mode_example =
    parse_dsm_trick_mode-write_dsm_trick_mode list_writer-IsBitsWriter (fast_mode 3 2 1 3)
      fast-IsTrickMode

abbrev pub optional_header : PesOptionalHeader
optional_header = record {
  additional_copy_info = 5;
  crc = 0;
  data_alignment_indicator = true;
  dsm_trick_mode = some (fast_mode 3 2 1 3);
  dts = some timestamp;
  escr = some clock;
  es_rate = 1398101;
  extension2_data = 1 ∷ 2 ∷ 3 ∷ [];
  extension2_length = 3;
  has_additional_copy_info = true;
  has_crc = false;
  has_dsm_trick_mode = true;
  has_escr = true;
  has_es_rate = true;
  has_extension = true;
  has_extension2 = true;
  has_optional_fields = false;
  has_pack_header_field = false;
  has_private_data = true;
  has_program_packet_sequence_counter = true;
  has_pstd_buffer = true;
  header_length = 0;
  is_copyrighted = false;
  is_original = true;
  marker_bits = 2;
  mpeg1_or_mpeg2_id = 1;
  original_stuffing_length = 21;
  packet_sequence_counter = 85;
  pack_field = 0;
  priority = true;
  private_data = 7 ∷ 8 ∷ [];
  pstd_buffer_scale = 1;
  pstd_buffer_size = 5461;
  pts = some timestamp;
  pts_dts_indicator = 3;
  scrambling_control = 1;
}

optional_header-IsWritable : IsWritable optional_header
optional_header-IsWritable = record {
  pts_part = timestamp-IsTimestamp;
  dts_part = timestamp-IsTimestamp;
  escr_part = clock-IsClock;
  trick_part = fast-IsTrickMode;
  extension2_fits = omega arith;
}

write_optional_parts-Emits_example :
    Emits list_writer-IsBitsWriter
      (write_optional_parts list_writer optional_header)
      (calc_pes_optional_header_data_length optional_header)
      (calc_pes_optional_header_data_length optional_header)
write_optional_parts-Emits_example =
    write_optional_parts-Emits list_writer-IsBitsWriter optional_header optional_header-IsWritable

parse_crc-Reads_example :
    Reads list_iterator-IsBytesIterator (parse_crc list_iterator) (18 ∷ 52 ∷ []) 52
parse_crc-Reads_example =
    parse_crc-Reads list_iterator-IsBytesIterator 18 52 (omega arith) (omega arith)
