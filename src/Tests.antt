-- ===== src/Tests.antt =====
-- Runs of the model at concrete inputs, on the iterator and the writer over lists: clocks and
-- packets.
mod Tables
mod Streams
mod Descriptors
mod Sections
mod Muxer
use go_astits.Base.{
  ℕ, suc, ◌+◌, ◌*◌, ◌%◌, ◌^◌, ◌≡◌, refl, arith, List, [], ◌∷◌, ◌++◌, length, drop, replicate, All,
  lookup, insert, if◌then◌else◌, Bool, true, false, Option, none, some, pos, pos_part, ok, err,
  payload_too_big, ◌==◌, get_last?,
}
use go_astits.Astikit.Lists.{
  list_iterator, list_iterator-IsBytesIterator, list_writer, list_writer-IsBitsWriter,
}
use go_astits.Codec.{RoundTrips, Writes}
use go_astits.Clock.{
  ClockReference, parse_pcr, write_pcr, parse_pts_or_dts, write_pts_or_dts, parse_escr, write_escr,
}
use go_astits.Clock.RoundTrip.{IsClock, IsTimestamp, pcr_bytes, pts_or_dts_bytes}
use go_astits.Packet.{
  Packet, PacketHeader, PacketAdaptationField, PacketAdaptationExtensionField,
  empty_adaptation_field, empty_adaptation_extension_field,
}
use go_astits.Packet.Header.{IsHeader, header_bytes}
use go_astits.Packet.Extension.{IsExtension, extension_bytes, extension_parts}
use go_astits.Packet.Parts.{window_bytes, rate_bytes, splice_bytes}
use go_astits.Packet.Field.Layout.{
  IsField, stuffed_bytes, field_bytes, field_parts, part_bytes, countdown_bytes, private_bytes,
}
use go_astits.Packet.Field.Written.{write_field-Writes, calc_packet_adaptation_field_length_lem}
use go_astits.Packet.Layout.{
  IsPacket, size, head_bytes, packet_bytes, write_packet-Writes, write_packet_too_big,
}
use go_astits.Packet.Body.{padded, with_junk}
use go_astits.Packet.RoundTrip.{parse_packet-write_packet, parse_packet-with_junk, read_to}
use go_astits.Packet.Parse.{parse_packet, parse_packet_header, parse_adaptation_extension}
use go_astits.Packet.Write.{
  write_packet, write_packet_header, write_packet_adaptation_field,
  write_packet_adaptation_field_extension, calc_packet_adaptation_field_length,
  calc_packet_adaptation_field_extension_length,
}
use go_astits.Pat.{
  PatProgram, PatData, calc_pat_section_length, parse_pat_section, write_pat_section,
}
use go_astits.Pat.RoundTrip.{IsProgram}
use go_astits.RoundTrips.{
  parse_pcr-write_pcr, parse_pts_or_dts-write_pts_or_dts, parse_escr-write_escr,
  parse_packet_header-write_packet_header, parse_extension-write_extension,
  parse_pat_section-write_pat_section,
}
use go_astits.Crc32.{compute_crc32, update_crc32}
use go_astits.Crc32.Residue.{checksum_bytes, compute_crc32-checksum_bytes}
use go_astits.WrappingCounter.{get_after, new_wrapping_counter, get_after-new}
use go_astits.ProgramMap.{ProgramMap, exists, set, unset}
use go_astits.PacketPool.{PacketPool, add, is_same_as_previous}
use go_astits.PacketPool.Units.{IsKept, counter_goes_on}
use go_astits.PacketPool.Reassembly.{add_all, unit_comes_out}
use go_astits.PacketPool.Duplicates.{add-duplicate, is_same_as_previous-unreachable}

abbrev pub clock : ClockReference
clock = record { base = 5726623061; extension = 341 }

pub clock-IsClock : IsClock clock
clock-IsClock = (omega arith, omega arith)

parse_pcr-write_pcr_example :
    RoundTrips list_writer-IsBitsWriter list_iterator-IsBytesIterator
      (write_pcr list_writer clock)
      6
      (parse_pcr list_iterator)
      clock
parse_pcr-write_pcr_example =
    parse_pcr-write_pcr list_writer-IsBitsWriter list_iterator-IsBytesIterator clock clock-IsClock

abbrev pub timestamp : ClockReference
timestamp = record { base = 5726623061; extension = 0 }

pub timestamp-IsTimestamp : IsTimestamp timestamp
timestamp-IsTimestamp = (omega arith, refl)

parse_pts_or_dts-write_pts_or_dts_example :
    RoundTrips list_writer-IsBitsWriter list_iterator-IsBytesIterator
      (write_pts_or_dts list_writer 3 timestamp)
      5
      (parse_pts_or_dts list_iterator)
      timestamp
parse_pts_or_dts-write_pts_or_dts_example =
    parse_pts_or_dts-write_pts_or_dts list_writer-IsBitsWriter list_iterator-IsBytesIterator 3
      timestamp (omega arith) timestamp-IsTimestamp

parse_escr-write_escr_example :
    RoundTrips list_writer-IsBitsWriter list_iterator-IsBytesIterator
      (write_escr list_writer clock)
      6
      (parse_escr list_iterator)
      clock
parse_escr-write_escr_example =
    parse_escr-write_escr list_writer-IsBitsWriter list_iterator-IsBytesIterator clock clock-IsClock

abbrev pub header : PacketHeader
header = record {
  continuity_counter = 10;
  has_adaptation_field = true;
  has_payload = true;
  payload_unit_start_indicator = true;
  pid = 5461;
  transport_error_indicator = false;
  transport_priority = true;
  transport_scrambling_control = 1;
}

header-IsHeader : IsHeader header
header-IsHeader = record {
  pid_lt = omega arith;
  scrambling_lt = omega arith;
  counter_lt = omega arith;
}

parse_packet_header-write_packet_header_example :
    RoundTrips list_writer-IsBitsWriter list_iterator-IsBytesIterator
      (write_packet_header list_writer header)
      3
      (parse_packet_header list_iterator)
      header
parse_packet_header-write_packet_header_example =
    parse_packet_header-write_packet_header list_writer-IsBitsWriter list_iterator-IsBytesIterator
      header header-IsHeader

-- A legal time window, a rate and a splice with its time stamp.
abbrev extension : PacketAdaptationExtensionField
extension = record {
  dts_next_access_unit = some timestamp;
  has_legal_time_window = true;
  has_piecewise_rate = true;
  has_seamless_splice = true;
  legal_time_window_is_valid = true;
  legal_time_window_offset = 10922;
  length = 11;
  piecewise_rate = 1398101;
  splice_type = 2;
}

extension-IsExtension : IsExtension extension
unfolding calc_packet_adaptation_field_extension_length
extension-IsExtension = record {
  window = omega arith;
  rate = omega arith;
  splice = (omega arith, timestamp-IsTimestamp);
  measured = refl;
}

parse_extension-write_extension_example :
    RoundTrips list_writer-IsBitsWriter list_iterator-IsBytesIterator
      (write_packet_adaptation_field_extension list_writer extension)
      (1 + calc_packet_adaptation_field_extension_length extension)
      (parse_adaptation_extension list_iterator)
      extension
parse_extension-write_extension_example =
    parse_extension-write_extension list_writer-IsBitsWriter list_iterator-IsBytesIterator extension
      extension-IsExtension

-- A PCR, a countdown, private data, the extension and two bytes of stuffing.
abbrev field : PacketAdaptationField
field = record empty_adaptation_field {
  adaptation_extension_field = some extension;
  has_adaptation_extension_field = true;
  has_pcr = true;
  has_transport_private_data = true;
  has_splicing_countdown = true;
  length = 26;
  stuffing_length = pos 2;
  pcr = some clock;
  random_access_indicator = true;
  splice_countdown = pos 7;
  transport_private_data_length = 3;
  transport_private_data = 1 ∷ 2 ∷ 3 ∷ [];
}

field-IsField : IsField field
unfolding field_parts part_bytes countdown_bytes private_bytes pcr_bytes extension_bytes
    extension_parts window_bytes rate_bytes splice_bytes pts_or_dts_bytes
field-IsField = record {
  plain = refl;
  pcr_part = clock-IsClock;
  opcr_part = refl;
  countdown = omega arith;
  private = (refl, omega arith);
  extension = extension-IsExtension;
  stuffing = refl;
  measured = refl;
  length_lt = omega arith;
}

calc_packet_adaptation_field_length_lem_example :
    calc_packet_adaptation_field_length {S = ℕ} field 0 ≡ ok (26, 0)
calc_packet_adaptation_field_length_lem_example =
    calc_packet_adaptation_field_length_lem field 0 field-IsField

write_field-Writes_example :
    Writes list_writer-IsBitsWriter
      (write_packet_adaptation_field list_writer field)
      (stuffed_bytes field)
      (length (stuffed_bytes field))
write_field-Writes_example = write_field-Writes list_writer-IsBitsWriter field field-IsField

abbrev packet : Packet
packet = record { adaptation_field = some field; header = header; payload = 5 ∷ 6 ∷ [] }

packet-IsPacket : IsPacket packet
packet-IsPacket = record {
  header_fits = header-IsHeader;
  field_fits = field-IsField;
  payload_fits = tt;
}

-- Too long by one byte.
abbrev long_packet : Packet
long_packet = record packet { payload = replicate 158 0 }

long_packet-IsPacket : IsPacket long_packet
long_packet-IsPacket = record {
  header_fits = header-IsHeader;
  field_fits = field-IsField;
  payload_fits = tt;
}

size-packet : size packet ≡ 33
unfolding size head_bytes header_bytes stuffed_bytes field_bytes field_parts part_bytes
    countdown_bytes private_bytes pcr_bytes extension_bytes extension_parts window_bytes rate_bytes
    splice_bytes pts_or_dts_bytes
size-packet = refl

size-long_packet : size long_packet ≡ 189
unfolding size head_bytes header_bytes stuffed_bytes field_bytes field_parts part_bytes
    countdown_bytes private_bytes pcr_bytes extension_bytes extension_parts window_bytes rate_bytes
    splice_bytes pts_or_dts_bytes
size-long_packet = refl

write_packet-Writes_example :
    Writes list_writer-IsBitsWriter
      (write_packet list_writer packet 188)
      (packet_bytes packet 188)
      188
write_packet-Writes_example =
    write_packet-Writes list_writer-IsBitsWriter packet 188 packet-IsPacket
      (omega (arith, size-packet))

write_packet_too_big_example :
    write_packet list_writer long_packet 188 ([], 0, 0) ≡ err payload_too_big
unfolding list_writer-IsBitsWriter list_iterator-IsBytesIterator
write_packet_too_big_example =
    write_packet_too_big list_writer-IsBitsWriter long_packet 188 [] long_packet-IsPacket
      (omega (arith, size-long_packet))

parse_packet-with_junk_example :
    parse_packet list_iterator (with_junk (1 ∷ 2 ∷ 3 ∷ 4 ∷ []) packet 188, 0)
    ≡ ok (
      padded packet 188,
      (
        with_junk (1 ∷ 2 ∷ 3 ∷ 4 ∷ []) packet 188,
        read_to packet (with_junk (1 ∷ 2 ∷ 3 ∷ 4 ∷ []) packet 188) 5,
      ),
    )
unfolding list_writer-IsBitsWriter list_iterator-IsBytesIterator
parse_packet-with_junk_example =
    parse_packet-with_junk list_iterator-IsBytesIterator packet (1 ∷ 2 ∷ 3 ∷ 4 ∷ []) packet-IsPacket
      (omega (arith, size-packet))

parse_packet-write_packet_example :
    (bs : List ℕ) × (write_packet list_writer packet 188 ([], 0, 0) ≡ ok (188, (bs, 0, 0)))
    × (length bs ≡ 188)
    × ((i : List ℕ × ℕ) × (parse_packet list_iterator (bs, 0) ≡ ok (padded packet 188, i)))
unfolding list_writer-IsBitsWriter list_iterator-IsBytesIterator
parse_packet-write_packet_example =
    parse_packet-write_packet list_iterator-IsBytesIterator list_writer-IsBitsWriter packet []
      packet-IsPacket (omega (arith, size-packet))
