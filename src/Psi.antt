-- ===== src/Psi.antt =====
-- `data_psi.go`: the kinds of tables, and the header of a section's syntax.
pub mod SyntaxHeader
pub mod Section
pub mod Data
use go_astits.Base.{
  ℕ, ◌+◌, ◌*◌, ◌/◌, ◌%◌, ◌^◌, ◌==◌, leb, Bool, true, false, not, ◌||◌, ◌&&◌, bit_and, List, M, pure,
  ◌>>=◌, ◌>>◌,
}
use go_astits.Bits.{has_bit, ◌<|>◌}
use go_astits.Astikit.{BytesIterator, BitsWriter}
use go_astits.Clock.{byte_at}

-- `PSITableIDEITStart` to `PSITableIDEITEnd`
unfoldable pub is_eit : ℕ → Bool
is_eit t = leb 0x4e t && leb t 0x6f

-- Variants 1 and 2 of the NIT and of the SDT
unfoldable pub is_nit_or_sdt : ℕ → Bool
is_nit_or_sdt t = (t == 0x40) || ((t == 0x41) || ((t == 0x42) || (t == 0x46)))

-- PAT, PMT, NIT, SDT, EIT
unfoldable pub has_psi_syntax_header : ℕ → Bool
unfolding is_eit is_nit_or_sdt
has_psi_syntax_header t = (t == 0x00) || ((t == 0x02) || (is_nit_or_sdt t || is_eit t))

-- these, and the TOT
unfoldable pub has_crc32 : ℕ → Bool
unfolding is_eit is_nit_or_sdt
has_crc32 t = (t == 0x00) || ((t == 0x02) || ((t == 0x73) || (is_nit_or_sdt t || is_eit t)))

-- BAT, DIT, null, PAT, PMT, RST, SIT, ST, TDT, TOT
unfoldable pub is_listed : ℕ → Bool
is_listed t =
    (t == 0x4a)
    || ((t == 0x7e)
        || ((t == 0xff)
            || ((t == 0x00)
                || ((t == 0x02)
                    || ((t == 0x71)
                        || ((t == 0x7f) || ((t == 0x72) || ((t == 0x70) || (t == 0x73)))))))))

unfoldable pub is_unknown : ℕ → Bool
unfolding is_eit is_nit_or_sdt is_listed
is_unknown t = not (is_listed t || (is_nit_or_sdt t || is_eit t))

unfoldable pub should_stop_psi_parsing : ℕ → Bool
unfolding is_unknown
should_stop_psi_parsing t = (t == 0xff) || is_unknown t

pub record PsiSectionSyntaxHeader : Type 0 where
  pub current_next_indicator : Bool
  pub last_section_number : ℕ
  pub section_number : ℕ
  pub table_id_extension : ℕ
  pub version_number : ℕ

module _ (r : BytesIterator) where
  open r use {Iter, next_byte, next_bytes}

  unfoldable pub parse_crc32 : M Iter ℕ
  parse_crc32 = do
    bs ← next_bytes 4
    pure (byte_at bs 0 * 2 ^ 24 <|> byte_at bs 1 * 2 ^ 16 <|> byte_at bs 2 * 2 ^ 8 <|> byte_at bs 3)

  unfoldable pub parse_psi_section_syntax_header : M Iter PsiSectionSyntaxHeader
  parse_psi_section_syntax_header = do
    bs ← next_bytes 2
    b ← next_byte
    section ← next_byte
    last ← next_byte
    pure (record {
      current_next_indicator = has_bit b 0x1;
      last_section_number = last;
      section_number = section;
      table_id_extension = byte_at bs 0 * 2 ^ 8 <|> byte_at bs 1;
      version_number = bit_and b 0x3f / 2;
    })

module _ (w : BitsWriter) where
  open w use {Writer, write_bool, write_uint8, write_uint16, write_n}

  -- Behind the table's id: the version between its reserved bits and the indicator.
  unfoldable pub write_version : PsiSectionSyntaxHeader → M Writer (Unit {0})
  write_version h = do
    write_n 0xff 2
    write_n h.version_number 5
    write_bool h.current_next_indicator

  unfoldable pub write_psi_section_syntax_header : PsiSectionSyntaxHeader → M Writer ℕ
  write_psi_section_syntax_header h = do
    write_uint16 h.table_id_extension
    write_version h
    write_uint8 h.section_number
    write_uint8 h.last_section_number
    pure 5
