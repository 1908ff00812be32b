-- ===== src/Psi/Section.antt =====
-- The sections of `data_psi.go`: the header, the syntax, and the CRC. Of the tables, the PAT and the
-- PMT are modelled; the parsers of the others are a parameter.
pub mod RoundTrip
pub mod Tables
use go_astits.Base.{
  ℕ, zero, suc, ◌+◌, ◌-◌, ◌*◌, ◌%◌, ◌^◌, Bool, true, false, not, ◌==◌, ◌&&◌, ◌||◌, ltb,
  if◌then◌else◌, bit_and, Option, none, some, List, [], ◌∷◌, length, drop, Result, ok, err, panic,
  unfinished, M, pure, fail, fault, deref, when, optional, ◌>>=◌, ◌>>◌, crc32_mismatch,
  table_not_implemented,
}
use go_astits.Bits.{has_bit, ◌<|>◌}
use go_astits.Astikit.{BytesIterator, BitsWriter, Buffer}
use go_astits.Clock.{byte_at}
use go_astits.Crc32.{crc32_polynomial, update_crc32, compute_crc32}
use go_astits.Pat.{PatData, calc_pat_section_length, parse_pat_section, write_pat_section}
use go_astits.Base.{lift}
use go_astits.Pmt.{
  PmtData, calc_pmt_section_length, parse_pmt_section, write_pmt_section, add_length,
}
use go_astits.Psi.{
  PsiSectionSyntaxHeader, has_psi_syntax_header, has_crc32, should_stop_psi_parsing, parse_crc32,
  parse_psi_section_syntax_header, write_psi_section_syntax_header,
}

-- `PSITableIDPAT` and `PSITableIDPMT`
abbrev pub psi_table_id_pat : ℕ
psi_table_id_pat = 0x00

abbrev pub psi_table_id_pmt : ℕ
psi_table_id_pmt = 0x02

-- The name of the table's type, for printing, is left out.
pub record PsiSectionHeader : Type 0 where
  pub private_bit : Bool
  pub section_length : ℕ
  pub section_syntax_indicator : Bool
  pub table_id : ℕ

-- `other` stands for the tables that are not modelled.
pub record PsiSectionSyntaxData (Time Other : Type 0) : Type 0 where
  pub other : Option Other
  pub pat : Option PatData
  pub pmt : Option (PmtData Time)

pub record PsiSectionSyntax (Time Other : Type 0) : Type 0 where
  pub data_of : PsiSectionSyntaxData Time Other
  pub header : Option PsiSectionSyntaxHeader

pub record PsiSection (Time Other : Type 0) : Type 0 where
  pub crc32 : ℕ
  pub header : PsiSectionHeader
  pub syntax : Option (PsiSectionSyntax Time Other)

module _ (r : BytesIterator) where
  -- `i.Offset()`
  unfoldable pub get_offset : M r.Iter ℕ
  get_offset i = ok (r.offset i, i)

module _ (r : BytesIterator) {Time Other : Type 0} (parse_dvb_time : M r.Iter Time)
    (parse_other : ℕ → Option PsiSectionSyntaxHeader → ℕ → M r.Iter (Option Other)) where
  open r use {Iter, next_byte, next_bytes, seek}

  -- Behind the id of a table at which the parsing does not stop.
  unfoldable pub parse_header_fields : ℕ → M Iter PsiSectionHeader
  parse_header_fields table_id = do
    bs ← next_bytes 2
    pure (record {
      private_bit = has_bit (byte_at bs 0) 0x40;
      section_length = bit_and (byte_at bs 0) 0xf * 2 ^ 8 <|> byte_at bs 1;
      section_syntax_indicator = has_bit (byte_at bs 0) 0x80;
      table_id = table_id;
    })

  unfoldable pub parse_psi_section_syntax_data :
      ℕ → Option PsiSectionSyntaxHeader → ℕ → M Iter (PsiSectionSyntaxData Time Other)
  parse_psi_section_syntax_data table_id sh offset_sections_end =
      if table_id == psi_table_id_pat
      then (do
        h ← deref sh
        pat ← parse_pat_section r offset_sections_end h.table_id_extension
        pure (record { other = none; pat = some pat; pmt = none }))
      else if table_id == psi_table_id_pmt
      then (do
        h ← deref sh
        pmt ← parse_pmt_section r parse_dvb_time offset_sections_end h.table_id_extension
        pure (record { other = none; pat = none; pmt = some pmt }))
      else (do
        other ← parse_other table_id sh offset_sections_end
        pure (record { other = other; pat = none; pmt = none }))

  unfoldable pub parse_psi_section_syntax : ℕ → ℕ → M Iter (PsiSectionSyntax Time Other)
  parse_psi_section_syntax table_id offset_sections_end = do
    sh ← optional (has_psi_syntax_header table_id) (parse_psi_section_syntax_header r)
    d ← parse_psi_section_syntax_data table_id sh offset_sections_end
    pure (record { data_of = d; header = sh })

  -- The CRC that stands behind the section, against that of the section's bytes.
  unfoldable pub check_crc32 : ℕ → ℕ → M Iter ℕ
  check_crc32 offset_start offset_sections_end = do
    seek offset_sections_end
    crc32 ← parse_crc32 r
    seek offset_start
    crc32_data ← next_bytes (offset_sections_end - offset_start)
    (if compute_crc32 crc32_data == crc32 then pure crc32 else fail crc32_mismatch)

  -- The sections' end is four bytes before the section's where there is a CRC; with a section length
  -- of 0 it is not used.
  unfoldable pub sections_end : ℕ → ℕ → ℕ
  sections_end table_id offset_end = if has_crc32 table_id then offset_end - 4 else offset_end

  unfoldable pub parse_section_content : ℕ → PsiSectionHeader → M Iter (PsiSection Time Other)
  parse_section_content offset_start h = do
    offset_sections_start ← get_offset r
    syntax ← optional (ltb 0 h.section_length) (
        parse_psi_section_syntax h.table_id
          (sections_end h.table_id (offset_sections_start + h.section_length)))
    crc32 ← when (ltb 0 h.section_length && has_crc32 h.table_id) 0 (
        check_crc32 offset_start
          (sections_end h.table_id (offset_sections_start + h.section_length)))
    seek (offset_sections_start + h.section_length)
    pure (record { crc32 = crc32; header = h; syntax = syntax })

  -- A header of which only the table's id is known.
  abbrev pub stopped : ℕ → PsiSection Time Other
  stopped table_id = record {
    crc32 = 0;
    header = record {
      private_bit = false;
      section_length = 0;
      section_syntax_indicator = false;
      table_id = table_id;
    };
    syntax = none;
  }

  -- Behind the table's id: the section, and whether the parsing stops.
  unfoldable pub parse_section_of : ℕ → ℕ → M Iter (PsiSection Time Other × Bool)
  parse_section_of offset_start table_id =
      if should_stop_psi_parsing table_id then pure (stopped table_id, true) else (do
        h ← parse_header_fields table_id
        s ← parse_section_content offset_start h
        pure (s, false))

  unfoldable pub parse_psi_section : M Iter (PsiSection Time Other × Bool)
  parse_psi_section = do
    offset_start ← get_offset r
    table_id ← next_byte
    parse_section_of offset_start table_id

-- `ret += n` once more
abbrev pub plus_length : Result ℕ → ℕ → Result ℕ
plus_length (ok ret) n = ok ((ret + n) % 2 ^ 16)
plus_length (err e) n = err e
plus_length panic n = panic
plus_length unfinished n = unfinished

module _ {Time Other : Type 0} where
  -- `s.Syntax.Data.PAT` and `s.Syntax.Data.PMT`, which panic where a pointer is nil.
  abbrev pub table_length : PsiSectionSyntaxData Time Other → ℕ → Result ℕ
  table_length d table_id =
      if table_id == psi_table_id_pat
      then elim d.pat [ none ↦ panic | some p ↦ ok (calc_pat_section_length p) ]
      else if table_id == psi_table_id_pmt
      then elim d.pmt [ none ↦ panic | some p ↦ calc_pmt_section_length p ]
      else ok 0

  abbrev pub syntax_length : Option (PsiSectionSyntax Time Other) → ℕ → Result ℕ
  syntax_length none table_id =
      if (table_id == psi_table_id_pat) || (table_id == psi_table_id_pmt) then panic else ok 0
  syntax_length (some s) table_id = table_length s.data_of table_id

  unfoldable pub calc_psi_section_length : PsiSection Time Other → Result ℕ
  calc_psi_section_length s =
      let id = s.header.table_id in
      plus_length
        (add_length (if has_psi_syntax_header id then 5 else 0) (syntax_length s.syntax id))
        (if has_crc32 id then 4 else 0)

module _ (w : BitsWriter) (b : Buffer w) where
  open w use {Writer}

  unfoldable pub get_written : M Writer ℕ
  get_written i = ok (length (b.written i), i)

  -- What the callback has made of the bytes that were written since it was set.
  abbrev pub section_crc32 : ℕ → M Writer ℕ
  section_crc32 start i = ok (update_crc32 crc32_polynomial (drop start (b.written i)), i)

module _ (w : BitsWriter) where
  open w use {Writer, write_bool, write_n}

  -- The flags, two reserved bits, and the length.
  unfoldable pub write_section_length : PsiSectionHeader → ℕ → M Writer (Unit {0})
  write_section_length h section_length = do
    write_bool h.section_syntax_indicator
    write_bool h.private_bit
    write_n 0xff 2
    write_n section_length 12

module _ (w : BitsWriter) {Time Other : Type 0} (write_dvb_time : Time → M w.Writer ℕ) where
  open w use {Writer}

  unfoldable pub write_psi_section_syntax_data : PsiSectionSyntaxData Time Other → ℕ → M Writer ℕ
  write_psi_section_syntax_data d table_id =
      if table_id == psi_table_id_pat
      then (do p ← deref d.pat; write_pat_section w p)
      else if table_id == psi_table_id_pmt
      then (do p ← deref d.pmt; write_pmt_section w write_dvb_time p)
      else pure 0

  unfoldable pub write_psi_section_syntax : PsiSectionSyntax Time Other → ℕ → M Writer ℕ
  write_psi_section_syntax s table_id = do
    n ←
        when (has_psi_syntax_header table_id) 0
          (do h ← deref s.header; write_psi_section_syntax_header w h)
    k ← write_psi_section_syntax_data s.data_of table_id
    pure (n + k)

module _ (w : BitsWriter) (b : Buffer w) {Time Other : Type 0}
    (write_dvb_time : Time → M w.Writer ℕ) where
  open w use {Writer, write_uint8, write_uint32}

  -- The syntax and the CRC.
  unfoldable pub write_section_content : PsiSection Time Other → ℕ → M Writer ℕ
  write_section_content s start = do
    syntax ← deref s.syntax
    n ← write_psi_section_syntax w write_dvb_time syntax s.header.table_id
    crc32 ← section_crc32 w b start
    k ← when (has_crc32 s.header.table_id) 0 (do write_uint32 crc32; pure 4)
    pure (n + k)

  -- Behind the test of the table's id.
  unfoldable pub write_table_section : PsiSection Time Other → M Writer ℕ
  write_table_section s = do
    section_length ← lift (calc_psi_section_length s)
    start ← get_written w b
    write_uint8 s.header.table_id
    write_section_length w s.header section_length
    n ← when (ltb 0 s.header.section_length) 0 (write_section_content s start)
    pure (3 + n)

  unfoldable pub write_psi_section : PsiSection Time Other → M Writer ℕ
  write_psi_section s =
      if not (s.header.table_id == psi_table_id_pat) && not (s.header.table_id == psi_table_id_pmt)
      then fail table_not_implemented
      else write_table_section s
