-- ===== src/Tests/Sections.antt =====
-- Runs of the writer and reader of sections.
use go_astits.Base.{ℕ, arith, [], ◌∷◌, Option, none, true, M, pure, All}
use go_astits.Astikit.Lists.{list_iterator, list_iterator-IsBytesIterator, list_writer-IsBitsWriter}
use go_astits.Codec.{RoundTrips}
use go_astits.Tests.Descriptors.{a_program, program_size, times, write_time, parse_time}
use go_astits.Pat.{PatData}
use go_astits.Pat.RoundTrip.{IsProgram}
use go_astits.Psi.{PsiSectionSyntaxHeader}
use go_astits.Psi.SyntaxHeader.{IsSyntaxHeader}
use go_astits.Psi.Section.RoundTrip.{Table}
use go_astits.Psi.Section.Tables.{PatOrPmt, pat, pmt, table_of}

-- No other tables.
abbrev no_other : ℕ → Option PsiSectionSyntaxHeader → ℕ → M list_iterator.Iter (Option (Unit {0}))
no_other id sh e = pure none

abbrev one_program : PatData
one_program = record {
  programs = record { program_map_id = 4096; program_number = 1 } ∷ [];
  transport_stream_id = 7;
}

abbrev one_program-IsProgram : All IsProgram one_program.programs
one_program-IsProgram =
    (record { program_map_id_fits = omega arith; program_number_fits = omega arith }, tt)

abbrev a_pat : PatOrPmt times no_other
a_pat = pat one_program one_program-IsProgram (omega arith)

abbrev a_table :
    Table list_writer-IsBitsWriter list_iterator-IsBytesIterator parse_time write_time no_other
a_table = table_of times no_other a_pat

abbrev a_pmt : PatOrPmt times no_other
a_pmt = pmt a_program program_size

abbrev a_map :
    Table list_writer-IsBitsWriter list_iterator-IsBytesIterator parse_time write_time no_other
a_map = table_of times no_other a_pmt

abbrev map_header : PsiSectionSyntaxHeader
map_header = record {
  current_next_indicator = true;
  last_section_number = 0;
  section_number = 0;
  table_id_extension = 1;
  version_number = 31;
}

abbrev map_header-IsSyntaxHeader : IsSyntaxHeader map_header
map_header-IsSyntaxHeader = record { extension_lt = omega arith; version_lt = omega arith }

abbrev a_header : PsiSectionSyntaxHeader
a_header = record {
  current_next_indicator = true;
  last_section_number = 0;
  section_number = 0;
  table_id_extension = 7;
  version_number = 3;
}

abbrev a_header-IsSyntaxHeader : IsSyntaxHeader a_header
a_header-IsSyntaxHeader = record { extension_lt = omega arith; version_lt = omega arith }
