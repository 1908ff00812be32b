-- ===== src/Psi/Section/Tables.antt =====
-- The PAT and the PMT as tables of a section.
use go_astits.Base.{
  ℕ, ◌*◌, ◌%◌, ◌^◌, ◌<◌, ◌≡◌, refl, ap, Option, none, some, length, All, M, ok, arith,
}
use go_astits.Astikit.{BytesIterator, IsBytesIterator, BitsWriter, IsBitsWriter}
use go_astits.Cursor.Reads.{ReadsTo, ReadsTo-last}
use go_astits.Pat.{PatData, calc_pat_section_length, parse_pat_section}
use go_astits.Pat.RoundTrip.{
  IsProgram, programs_bytes, length-programs_bytes, write_pat_section-Writes, parse_pat_section-at,
}
use go_astits.Descriptor.LocalTime.RoundTrip.{IsDvbTimes}
use go_astits.Pmt.{parse_pmt_section}
use go_astits.Pmt.RoundTrip.{
  DescribedPmt, pmt_value, pmt_bytes, parse_pmt_section-write_pmt_section,
}
use go_astits.Psi.{
  PsiSectionSyntaxHeader, has_psi_syntax_header, has_crc32, should_stop_psi_parsing, is_unknown,
  is_listed, is_nit_or_sdt, is_eit,
}
use go_astits.Psi.Section.{parse_psi_section_syntax_data, write_psi_section_syntax_data}
use go_astits.Psi.Section.RoundTrip.{Table}

module _ {w : BitsWriter} {iw : IsBitsWriter w} {r : BytesIterator} {ir : IsBytesIterator r}
    {Time Other : Type 0} {parse_dvb_time : M r.Iter Time} {write_dvb_time : Time → M w.Writer ℕ}
    (times : IsDvbTimes iw ir parse_dvb_time write_dvb_time)
    (parse_other : ℕ → Option PsiSectionSyntaxHeader → ℕ → M r.Iter (Option Other)) where
  pub pat-ReadsTo :
      (d : PatData) (extension : ℕ)
      → All IsProgram d.programs
      → extension ≡ d.transport_stream_id
      → (e : ℕ) → ReadsTo ir e (parse_pat_section r e extension) (programs_bytes d.programs) d
  pat-ReadsTo d extension v x e = record {
    run = λ rest bs o h k. rw (x, ← k) (parse_pat_section-at ir d rest bs o v h);
  }

  unfoldable pub pat_table :
      (d : PatData)
      → All IsProgram d.programs
      → length d.programs < 1000
      → Table iw ir parse_dvb_time write_dvb_time parse_other
  unfolding should_stop_psi_parsing has_psi_syntax_header has_crc32 is_unknown is_listed
      is_nit_or_sdt is_eit calc_pat_section_length write_psi_section_syntax_data
      parse_psi_section_syntax_data
  pat_table d v l = record {
    id = 0;
    extension = d.transport_stream_id;
    contents = record { other = none; pat = some d; pmt = none };
    bytes = programs_bytes d.programs;
    fits = omega (arith, length-programs_bytes d.programs);
    goes_on = refl;
    has_syntax = refl;
    has_crc = refl;
    implemented = refl;
    calculated =
        ap (λ (k : ℕ). ok k) {x = 4 * length d.programs % 2 ^ 16}
          (omega (arith, length-programs_bytes d.programs));
    put = write_pat_section-Writes iw d v;
    get = λ sh e x. ReadsTo-last ir e _ (pat-ReadsTo d sh.table_id_extension v x e) refl;
  }

  pub pmt-ReadsTo_of :
      (d : DescribedPmt times) (extension e : ℕ)
      → extension ≡ d.number
      → ReadsTo ir e
          (parse_pmt_section r parse_dvb_time e d.number)
          (pmt_bytes times d)
          (pmt_value times d)
      → ReadsTo ir e
          (parse_pmt_section r parse_dvb_time e extension)
          (pmt_bytes times d)
          (pmt_value times d)
  pmt-ReadsTo_of d extension e x g = rw x g

  unfoldable pub pmt_table :
      (d : DescribedPmt times)
      → length (pmt_bytes times d) < 4000
      → Table iw ir parse_dvb_time write_dvb_time parse_other
  unfolding should_stop_psi_parsing has_psi_syntax_header has_crc32 is_unknown is_listed
      is_nit_or_sdt is_eit write_psi_section_syntax_data parse_psi_section_syntax_data
  pmt_table d l =
      let (c, u, g) = parse_pmt_section-write_pmt_section times d (omega arith) in
      record {
        id = 2;
        extension = d.number;
        contents = record { other = none; pat = none; pmt = some (pmt_value times d) };
        bytes = pmt_bytes times d;
        fits = l;
        goes_on = refl;
        has_syntax = refl;
        has_crc = refl;
        implemented = refl;
        calculated = c;
        put = u;
        get = λ sh e x. ReadsTo-last ir e _ (pmt-ReadsTo_of d sh.table_id_extension e x (g e)) refl;
      }

  -- A PAT of fewer than 1000 programs whose numbers fit, or a PMT of fewer than 4000 bytes.
  pub data PatOrPmt : Type 0 where
    pat : (d : PatData) → All IsProgram d.programs → length d.programs < 1000 → PatOrPmt
    pmt : (d : DescribedPmt times) → length (pmt_bytes times d) < 4000 → PatOrPmt

  abbrev pub table_of : PatOrPmt → Table iw ir parse_dvb_time write_dvb_time parse_other
  table_of (pat d v l) = pat_table d v l
  table_of (pmt d l) = pmt_table d l
