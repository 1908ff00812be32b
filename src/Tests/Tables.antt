-- ===== src/Tests/Tables.antt =====
-- Runs of the tables, the checksum and the pool.
use go_astits.Codec.{RoundTrips, Writes}
use go_astits.Dvb.{
  second, minute, parse_dvb_duration_seconds, write_dvb_duration_seconds,
  parse_dvb_duration_minutes, write_dvb_duration_minutes,
}
use go_astits.Dvb.Durations.{
  parse_dvb_duration_seconds-write_dvb_duration_seconds,
  parse_dvb_duration_minutes-write_dvb_duration_minutes,
}
use go_astits.Psi.{
  PsiSectionSyntaxHeader, has_psi_syntax_header, has_crc32, should_stop_psi_parsing, is_eit,
  is_nit_or_sdt, parse_psi_section_syntax_header, write_psi_section_syntax_header,
}
use go_astits.Psi.SyntaxHeader.{
  has_psi_syntax_header-has_crc32, has_crc32-should_stop_psi_parsing,
  parse_psi_section_syntax_header-write_psi_section_syntax_header,
}
use go_astits.Base.{
  ◌*◌, ℕ, ◌+◌, ◌≡◌, refl, arith, List, [], ◌∷◌, ◌++◌, drop, All, lookup, Bool, true, false, none,
  some, ok,
}
use go_astits.Astikit.Lists.{
  list_iterator, list_iterator-IsBytesIterator, list_writer, list_writer-IsBitsWriter,
}
use go_astits.Packet.{Packet}
use go_astits.Pat.{PatData, calc_pat_section_length, parse_pat_section, write_pat_section}
use go_astits.Pat.RoundTrip.{IsProgram}
use go_astits.RoundTrips.{parse_pat_section-write_pat_section}
use go_astits.Tests.{header}
use go_astits.Crc32.{compute_crc32}
use go_astits.Crc32.Residue.{checksum_bytes, compute_crc32-checksum_bytes}
use go_astits.WrappingCounter.{get_after, new_wrapping_counter, get_after-new}
use go_astits.PacketPool.{PacketPool, add, is_same_as_previous}
use go_astits.PacketPool.Frame.{Keeps, add-Keeps}
use go_astits.PacketPool.Units.{IsKept, counter_goes_on}
use go_astits.PacketPool.Reassembly.{add_all, unit_comes_out}
use go_astits.PacketPool.Duplicates.{add-duplicate, is_same_as_previous-unreachable}

abbrev programs : PatData
programs = record {
  programs =
      record { program_map_id = 4096; program_number = 1 }
      ∷ record { program_map_id = 8000; program_number = 65535 }
      ∷ [];
  transport_stream_id = 7;
}

programs-fit : All IsProgram programs.programs
programs-fit = (
  record { program_map_id_fits = omega arith; program_number_fits = omega arith },
  (record { program_map_id_fits = omega arith; program_number_fits = omega arith }, tt),
)

parse_pat_section-write_pat_section_example :
    let n = calc_pat_section_length programs in
    (bytes : List ℕ) × Writes list_writer-IsBitsWriter
      (write_pat_section list_writer programs)
      bytes
      n
    × ((rest bs : List ℕ) (o : ℕ)
        → drop o bs ≡ bytes ++ rest
        → parse_pat_section list_iterator (o + n) 7 (bs, o) ≡ ok (programs, (bs, o + n)))
unfolding list_writer-IsBitsWriter list_iterator-IsBytesIterator
parse_pat_section-write_pat_section_example =
    parse_pat_section-write_pat_section list_writer-IsBitsWriter list_iterator-IsBytesIterator
      programs programs-fit (omega arith)

compute_crc32-checksum_bytes_example :
    compute_crc32 (0 ∷ 176 ∷ 13 ∷ checksum_bytes (compute_crc32 (0 ∷ 176 ∷ 13 ∷ []))) ≡ 0
compute_crc32-checksum_bytes_example = compute_crc32-checksum_bytes (0 ∷ 176 ∷ 13 ∷ [])

get_after-new_example : get_after 20 (new_wrapping_counter 15) ≡ 4
get_after-new_example = get_after-new 20 15

-- Packets of the PID 5461: one that starts a unit, two that go on, and the next unit's first.
abbrev numbered : Bool → ℕ → Packet
numbered starts n = record {
  adaptation_field = none;
  header = record header {
    has_adaptation_field = false;
    payload_unit_start_indicator = starts;
    continuity_counter = n;
  };
  payload = n ∷ [];
}

numbered-IsKept : (starts : Bool) (n : ℕ) → IsKept 5461 (numbered starts n)
numbered-IsKept starts n = record { same_pid = refl; no_error = refl; payload = refl }

unit_comes_out_example :
    (m : PacketPool) × (add_all
        (numbered true 14 ∷ numbered false 15 ∷ numbered false 0 ∷ numbered true 1 ∷ [])
        []
      ≡ ok ((numbered true 14 ∷ numbered false 15 ∷ numbered false 0 ∷ []) ∷ [], m))
    × (lookup m 5461 ≡ some (numbered true 1 ∷ []))
unit_comes_out_example =
    unit_comes_out 5461 (numbered true 1) (numbered-IsKept true 1) refl refl (numbered true 14)
      (numbered false 15 ∷ numbered false 0 ∷ []) [] refl
      (
        numbered-IsKept true 14,
        refl,
        (numbered-IsKept false 15, refl, refl, (numbered-IsKept false 0, refl, refl, tt)),
      )
      (refl, (refl, (refl, tt))) refl

add-duplicate_example :
    add (numbered false 14) ((5461, numbered true 14 ∷ []) ∷ []) ≡ ok ([], (5461, []) ∷ [])
add-duplicate_example =
    add-duplicate 5461 (numbered false 14) (numbered true 14) (numbered true 14 ∷ [])
      ((5461, numbered true 14 ∷ []) ∷ []) (numbered-IsKept false 14) refl refl refl refl

is_same_as_previous-unreachable_example :
    is_same_as_previous (numbered true 14 ∷ []) (numbered false 15) ≡ false
is_same_as_previous-unreachable_example =
    is_same_as_previous-unreachable (numbered true 14 ∷ []) (numbered false 15) refl
      (counter_goes_on (numbered true 14) (numbered false 15) refl refl)

abbrev syntax_header : PsiSectionSyntaxHeader
syntax_header = record {
  current_next_indicator = true;
  last_section_number = 3;
  section_number = 2;
  table_id_extension = 4660;
  version_number = 21;
}

parse_psi_section_syntax_header-write_psi_section_syntax_header_example :
    RoundTrips list_writer-IsBitsWriter list_iterator-IsBytesIterator
      (write_psi_section_syntax_header list_writer syntax_header)
      5
      (parse_psi_section_syntax_header list_iterator)
      syntax_header
parse_psi_section_syntax_header-write_psi_section_syntax_header_example =
    parse_psi_section_syntax_header-write_psi_section_syntax_header list_writer-IsBitsWriter
      list_iterator-IsBytesIterator syntax_header
      (record { extension_lt = omega arith; version_lt = omega arith })

has_crc32-should_stop_psi_parsing_example : should_stop_psi_parsing 115 ≡ false
unfolding has_crc32
has_crc32-should_stop_psi_parsing_example = has_crc32-should_stop_psi_parsing 115 refl

has_psi_syntax_header-has_crc32_example : has_crc32 80 ≡ true
unfolding has_psi_syntax_header is_eit is_nit_or_sdt
has_psi_syntax_header-has_crc32_example = has_psi_syntax_header-has_crc32 80 refl

-- 12:34:56
parse_dvb_duration_seconds-write_dvb_duration_seconds_example :
    RoundTrips list_writer-IsBitsWriter list_iterator-IsBytesIterator
      (write_dvb_duration_seconds list_writer (45296 * second))
      3
      (parse_dvb_duration_seconds list_iterator)
      (45296 * second)
parse_dvb_duration_seconds-write_dvb_duration_seconds_example =
    parse_dvb_duration_seconds-write_dvb_duration_seconds list_writer-IsBitsWriter
      list_iterator-IsBytesIterator 45296 (omega arith)

parse_dvb_duration_minutes-write_dvb_duration_minutes_example :
    RoundTrips list_writer-IsBitsWriter list_iterator-IsBytesIterator
      (write_dvb_duration_minutes list_writer (754 * minute))
      2
      (parse_dvb_duration_minutes list_iterator)
      (754 * minute)
parse_dvb_duration_minutes-write_dvb_duration_minutes_example =
    parse_dvb_duration_minutes-write_dvb_duration_minutes list_writer-IsBitsWriter
      list_iterator-IsBytesIterator 754 (omega arith)

abbrev other_pool : PacketPool
other_pool = (256, numbered true 3 ∷ []) ∷ []

add-Keeps_example : Keeps 256 other_pool (add (numbered true 14) other_pool)
add-Keeps_example = add-Keeps 256 (numbered true 14) (λ h. omega arith) other_pool
