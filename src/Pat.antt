-- ===== src/Pat.antt =====
-- `data_pat.go`: the program association table.
use go_astits.Base.{
  ℕ, zero, suc, ◌+◌, ◌-◌, ◌*◌, ◌%◌, ◌^◌, List, [], ◌∷◌, ltb, if◌then◌else◌, bit_and, M, ok, pure,
  fault, exhausted, ◌>>=◌, ◌>>◌, length,
}
use go_astits.Bits.{◌<|>◌}
use go_astits.Astikit.{BytesIterator, BitsWriter}
use go_astits.Clock.{byte_at}
pub mod RoundTrip

pub record PatProgram : Type 0 where
  pub program_map_id : ℕ
  pub program_number : ℕ

pub record PatData : Type 0 where
  pub programs : List PatProgram
  pub transport_stream_id : ℕ

abbrev pub pat_section_entry_bytes_size : ℕ
pat_section_entry_bytes_size = 4

-- `uint16(4 * len(d.Programs))`
unfoldable pub calc_pat_section_length : PatData → ℕ
calc_pat_section_length d = 4 * length d.programs % 2 ^ 16

unfoldable pub program_of_bytes : List ℕ → PatProgram
program_of_bytes bs = record {
  program_map_id = bit_and (byte_at bs 2) 0x1f * 2 ^ 8 <|> byte_at bs 3;
  program_number = byte_at bs 0 * 2 ^ 8 <|> byte_at bs 1;
}

module _ (r : BytesIterator) where
  open r use {Iter, next_bytes, offset}

  -- The loop, on fuel: a turn takes four bytes, so the bytes up to the end are turns enough.
  unfoldable pub parse_programs : ℕ → ℕ → M Iter (List PatProgram)
  parse_programs zero offset_sections_end i =
      if ltb (offset i) offset_sections_end then exhausted i else pure [] i
  parse_programs (suc fuel) offset_sections_end i =
      if ltb (offset i) offset_sections_end
      then (do
        bs ← next_bytes 4
        programs ← parse_programs fuel offset_sections_end
        pure (program_of_bytes bs ∷ programs))
          i
      else pure [] i

  unfoldable pub parse_pat_section : ℕ → ℕ → M Iter PatData
  parse_pat_section offset_sections_end table_id_extension i =
      (do
        programs ← parse_programs (offset_sections_end - offset i) offset_sections_end
        pure (record { programs = programs; transport_stream_id = table_id_extension }))
        i

module _ (w : BitsWriter) where
  open w use {Writer, write_uint16, write_n}

  -- The body of the loop.
  unfoldable pub write_program : PatProgram → M Writer (Unit {0})
  write_program p = do write_uint16 p.program_number; write_n 0xff 3; write_n p.program_map_id 13

  unfoldable pub write_programs : List PatProgram → M Writer (Unit {0})
  write_programs [] = pure tt
  write_programs (p ∷ ps) = do write_program p; write_programs ps

  unfoldable pub write_pat_section : PatData → M Writer ℕ
  write_pat_section d = do
    write_programs d.programs
    pure (length d.programs * pat_section_entry_bytes_size)
