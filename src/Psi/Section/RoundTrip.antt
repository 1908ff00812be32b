-- ===== src/Psi/Section/RoundTrip.antt =====
-- A section of a PAT or a PMT, written with its CRC and read back.
use go_astits.Base.{
  ℕ, ◌+◌, ◌-◌, ◌*◌, ◌/◌, ◌%◌, ◌^◌, ◌<◌, ◌≡◌, refl, sym, ap, subst, ◌∙◌, Bool, true, false, not,
  ◌==◌, ◌&&◌, Option, some, List, [], ◌∷◌, ◌++◌, length, drop, drop-append, length-append,
  append_assoc, arith, M, ok, err, pure, ◌>>=◌, ◌>>◌, when, optional, ltb, lt→ltb, bit_and,
  if◌then◌else◌, Runs, runs, Runs-ok, Runs-err, if_true, if_false, Bool-cases, inl, inr, ==_refl,
  crc32_mismatch,
}
use go_astits.Bits.{◌<|>◌, digit, digit-le, has_bit, has_bit-digit, bit_and_mask, bit_or_disjoint}
use go_astits.Astikit.{BytesIterator, IsBytesIterator, BitsWriter, IsBitsWriter, Buffer, IsBuffer}
use go_astits.Codec.{
  RoundTrips, behind, Reads, Reads-bytes, Reads-last, Reads-pure, Writes, Writes-bind, Writes-last,
  Writes-if_false, Writes-return,
}
use go_astits.Cursor.Reads.{ReadsTo, ReadsTo-bind, ReadsTo-last}
use go_astits.Base.{lift}
use go_astits.Crc32.{crc32_polynomial, update_crc32, compute_crc32}
use go_astits.Crc32.Residue.{checksum_bytes, update_crc32-lt}
use go_astits.Psi.{
  PsiSectionSyntaxHeader, has_psi_syntax_header, has_crc32, should_stop_psi_parsing,
}
use go_astits.Psi.SyntaxHeader.{
  IsSyntaxHeader, syntax_header_bytes, syntax_header-Writes, syntax_header-Reads, parse_crc32-Reads,
}
use go_astits.Psi.Section.{
  parse_section_of, get_written, get_offset, psi_table_id_pat, psi_table_id_pmt, PsiSectionHeader,
  PsiSectionSyntaxData, PsiSectionSyntax, PsiSection, parse_header_fields,
  parse_psi_section_syntax_data, parse_psi_section_syntax, check_crc32, sections_end,
  parse_section_content, parse_psi_section, table_length, calc_psi_section_length,
  write_psi_section_syntax_data, write_psi_section_syntax, write_table_section,
  write_section_length, write_section_content, write_psi_section,
}

module _ {w : BitsWriter} (iw : IsBitsWriter w) {r : BytesIterator} (ir : IsBytesIterator r)
    {Time Other : Type 0} (parse_dvb_time : M r.Iter Time) (write_dvb_time : Time → M w.Writer ℕ)
    (parse_other : ℕ → Option PsiSectionSyntaxHeader → ℕ → M r.Iter (Option Other)) where
  -- A table that is written and read: a PAT or a PMT, with the extension of its id.
  pub record Table : Type 0 where
    pub id : ℕ
    pub extension : ℕ
    pub contents : PsiSectionSyntaxData Time Other
    pub bytes : List ℕ
    pub fits : length bytes < 4000
    pub goes_on : should_stop_psi_parsing id ≡ false
    pub has_syntax : has_psi_syntax_header id ≡ true
    pub has_crc : has_crc32 id ≡ true
    pub implemented : (not (id == psi_table_id_pat) && not (id == psi_table_id_pmt)) ≡ false
    pub calculated : table_length contents id ≡ ok (length bytes)
    pub put :
        Writes iw (write_psi_section_syntax_data w write_dvb_time contents id) bytes (length bytes)
    pub get :
        (sh : PsiSectionSyntaxHeader) (e : ℕ)
        → sh.table_id_extension ≡ extension
        → ReadsTo ir e
            (parse_psi_section_syntax_data r parse_dvb_time parse_other id (some sh) e)
            bytes
            contents

get_offset-at :
    {r : BytesIterator} (ir : IsBytesIterator r) (bs : List ℕ) (o : ℕ)
    → get_offset r (ir.at bs o) ≡ ok (o, ir.at bs o)
unfolding get_offset
get_offset-at ir bs o = rw (ir.offset-at bs o) refl

module _ {r : BytesIterator} (ir : IsBytesIterator r) {Time Other : Type 0}
    (parse_dvb_time : M r.Iter Time)
    (parse_other : ℕ → Option PsiSectionSyntaxHeader → ℕ → M r.Iter (Option Other)) where
  open ir use {at}

  -- The checksum `c` behind `xs` is read, compared with the one of `xs`, and refused if they differ.
  pub check_crc32-at :
      (xs rest bs : List ℕ) (o n c : ℕ)
      → 0 < length xs
      → c < 2 ^ 32
      → drop o bs ≡ xs ++ (checksum_bytes c ++ rest)
      → check_crc32 r parse_dvb_time parse_other o (o + length xs) (at bs n)
        ≡ (if compute_crc32 xs == c then ok (c, at bs (o + length xs)) else err crc32_mismatch)
  unfolding check_crc32
  check_crc32-at xs rest bs o n c l h d =
      let e = o + length xs in
      let k : e - o ≡ length xs = omega arith in
      let g = compute_crc32 xs == c in
      rw
        (
          ir.seek-at e bs n,
          ◌>>◌,
          ◌>>=◌,
          (parse_crc32-Reads ir c h).run rest bs e (behind xs (checksum_bytes c ++ rest) bs o d),
          ir.seek-at o bs (e + 4),
          k,
          ir.next_bytes-at xs (checksum_bytes c ++ rest) bs o l d,
        )
        (elim (Bool-cases g) [ inl y ↦ rw y refl | inr y ↦ rw y refl ])

module _ {w : BitsWriter} {iw : IsBitsWriter w} {r : BytesIterator} {ir : IsBytesIterator r}
    {Time Other : Type 0} {parse_dvb_time : M r.Iter Time} {write_dvb_time : Time → M w.Writer ℕ}
    {parse_other : ℕ → Option PsiSectionSyntaxHeader → ℕ → M r.Iter (Option Other)}
    (t : Table iw ir parse_dvb_time write_dvb_time parse_other) (sh : PsiSectionSyntaxHeader)
    (private_bit indicator : Bool) where
  open ir use {at}

  -- The length of the syntax header, the table and the CRC.
  abbrev pub content_length : ℕ
  content_length = 5 + length t.bytes + 4

  unfoldable pub length_byte : ℕ
  length_byte = digit indicator * 128 + digit private_bit * 64 + 48 + content_length / 256

  abbrev head_bytes : List ℕ
  head_bytes = t.id ∷ length_byte ∷ content_length % 256 ∷ []

  abbrev syntax_bytes : List ℕ
  syntax_bytes = syntax_header_bytes sh ++ t.bytes

  -- What the CRC is of.
  unfoldable pub covered_bytes : List ℕ
  covered_bytes = head_bytes ++ syntax_bytes

  unfoldable pub section_bytes : List ℕ
  section_bytes = covered_bytes ++ checksum_bytes (compute_crc32 covered_bytes)

  abbrev pub section_header : PsiSectionHeader
  section_header = record {
    private_bit = private_bit;
    section_length = content_length;
    section_syntax_indicator = indicator;
    table_id = t.id;
  }

  unfoldable pub section_of : PsiSection Time Other
  section_of = record {
    crc32 = compute_crc32 covered_bytes;
    header = section_header;
    syntax = some (record { data_of = t.contents; header = some sh });
  }

  syntax_size : length syntax_bytes ≡ 5 + length t.bytes
  unfolding syntax_header_bytes
  syntax_size = omega arith

  length-covered_bytes : length covered_bytes ≡ 8 + length t.bytes
  unfolding covered_bytes
  length-covered_bytes = omega (arith, syntax_size)

  pub length-section_bytes : length section_bytes ≡ 3 + content_length
  unfolding section_bytes
  length-section_bytes = omega (
    arith,
    length-append covered_bytes (checksum_bytes (compute_crc32 covered_bytes)),
    length-covered_bytes,
  )

  module _ (b : Buffer w) (ib : IsBuffer iw b) (v : IsSyntaxHeader sh) where
    calculated : calc_psi_section_length section_of ≡ ok content_length
    unfolding calc_psi_section_length section_of
    calculated =
        let f = t.fits in
        let m : (5 + length t.bytes) % 2 ^ 16 ≡ 5 + length t.bytes = omega arith in
        let n : content_length % 2 ^ 16 ≡ content_length = omega arith in
        rw (calc_psi_section_length, t.has_syntax, t.has_crc, t.calculated, m, n) refl

    syntax-Writes :
        Writes iw
          (write_psi_section_syntax w write_dvb_time
            (record { data_of = t.contents; header = some sh })
            t.id)
          syntax_bytes
          (5 + length t.bytes)
    unfolding write_psi_section_syntax
    syntax-Writes = rw t.has_syntax (
        Writes-bind iw _ (syntax_header_bytes sh) t.bytes (syntax_header-Writes iw sh v)
          (Writes-last iw _ t.put (Writes-return iw _ _ refl)))

    flags-Writes :
        Writes iw
          (write_section_length w section_header content_length)
          (length_byte ∷ content_length % 256 ∷ [])
          tt
    unfolding write_section_length length_byte
    flags-Writes =
        let p = digit-le private_bit in
        let q = digit-le indicator in
        let f = t.fits in
        record {
          run = λ out.
              simp
                (iw.write_n-at, iw.write_bool-at, write_section_length, ◌>>=◌, ◌>>◌, append_assoc)
                (ground arith);
        }

    content-at :
        (out : List ℕ)
        → write_section_content w b write_dvb_time section_of
            (length out)
            (iw.at (out ++ head_bytes) 0 0)
          ≡ ok (content_length, iw.at (out ++ section_bytes) 0 0)
    unfolding write_section_content section_of section_bytes compute_crc32 covered_bytes
    content-at out =
        let crc = update_crc32 crc32_polynomial covered_bytes in
        let whole : (out ++ head_bytes) ++ syntax_bytes ≡ out ++ covered_bytes =
          append_assoc out head_bytes syntax_bytes in
        rw
          (
            syntax-Writes.run (out ++ head_bytes),
            whole,
            ◌>>=◌,
            ib.written-at (out ++ covered_bytes),
            drop-append out covered_bytes,
            t.has_crc,
            iw.write_uint32-at crc (out ++ covered_bytes),
            append_assoc out covered_bytes (checksum_bytes crc),
          )
          refl

    started : (out : List ℕ) → get_written w b (iw.at out 0 0) ≡ ok (length out, iw.at out 0 0)
    unfolding get_written
    started out = rw (ib.written-at out) refl

    table_section-Writes :
        Writes iw
          (write_table_section w b write_dvb_time section_of)
          section_bytes
          (3 + content_length)
    unfolding write_table_section section_of
    table_section-Writes = record {
      run = λ out.
          let both : (out ++ (t.id ∷ [])) ++ (length_byte ∷ content_length % 256 ∷ [])
              ≡ out ++ head_bytes =
            append_assoc out (t.id ∷ []) (length_byte ∷ content_length % 256 ∷ []) in
          let n = ap (λ q. lift q (iw.at out 0 0)) calculated in
          let flags = flags-Writes.run (out ++ (t.id ∷ [])) ∙ ap (λ q. ok (tt, iw.at q 0 0)) both in
          let some_bytes = lt→ltb 0 content_length (omega arith) in
          let content : Runs
              (when (ltb 0 content_length) 0
                (write_section_content w b write_dvb_time section_of (length out)))
              (iw.at (out ++ head_bytes) 0 0)
              (ok (content_length, iw.at (out ++ section_bytes) 0 0)) =
            rw some_bytes (
              runs (write_section_content w b write_dvb_time section_of (length out))
                (content-at out)) in
          let written : Runs (write_table_section w b write_dvb_time section_of) (iw.at out 0 0)
              (ok (3 + content_length, iw.at (out ++ section_bytes) 0 0)) =
            Runs-ok _ (runs (lift (calc_psi_section_length section_of)) n) (
              Runs-ok _ (runs (get_written w b) (started out)) (
                Runs-ok _ (runs (w.write_uint8 t.id) (iw.write_uint8-at t.id out)) (
                  Runs-ok _ (runs (write_section_length w section_header content_length) flags)
                    (Runs-ok _ content (runs (pure _) refl))))) in
          written.run;
    }

    guard :
        (not (section_of.header.table_id == psi_table_id_pat)
          && not (section_of.header.table_id == psi_table_id_pmt))
        ≡ false
    unfolding section_of
    guard = t.implemented

    -- A section of a PAT or a PMT is written by `writePSISection` with the length that
    -- `calcPSISectionLength` gives, which is that of the bytes behind it, and with the CRC of its
    -- bytes, as many bytes as it says.
    pub write_psi_section-Writes :
        (calc_psi_section_length section_of ≡ ok content_length)
        × Writes iw
            (write_psi_section w b write_dvb_time section_of)
            section_bytes
            (length section_bytes)
    unfolding write_psi_section
    write_psi_section-Writes =
        let n = length-section_bytes in
        (
          calculated,
          subst (λ k. Writes iw (write_psi_section w b write_dvb_time section_of) section_bytes k)
              (sym n) (Writes-if_false iw _ guard table_section-Writes),
        )

  -- The section with the checksum `c`.
  unfoldable pub bytes_with : ℕ → List ℕ
  bytes_with c = covered_bytes ++ checksum_bytes c

  unfoldable pub section_with : ℕ → PsiSection Time Other
  section_with c = record {
    crc32 = c;
    header = section_header;
    syntax = some (record { data_of = t.contents; header = some sh });
  }

  fields-Reads :
      Reads ir
        (parse_header_fields r parse_dvb_time parse_other t.id)
        (length_byte ∷ content_length % 256 ∷ [])
        section_header
  unfolding parse_header_fields length_byte
  fields-Reads =
      let p = digit-le private_bit in
      let q = digit-le indicator in
      let f = t.fits in
      let x = length_byte in
      let h7 : has_bit x 0x80 ≡ indicator = has_bit-digit 7 x indicator (omega arith) in
      let h6 : has_bit x 0x40 ≡ private_bit = has_bit-digit 6 x private_bit (omega arith) in
      let n : (bit_and x 0xf * 2 ^ 8 <|> content_length % 256) ≡ content_length =
        rw (bit_and_mask 4 x) (
          bit_or_disjoint 8 (x % 2 ^ 4 * 2 ^ 8) (content_length % 256) (omega arith) (omega arith)
          ∙ omega arith) in
      Reads-last ir _ (Reads-bytes ir 2 (x ∷ content_length % 256 ∷ []) (omega arith) refl)
        (rw (h7, h6, n) (Reads-pure ir section_header))

  syntax-ReadsTo :
      IsSyntaxHeader sh
      → sh.table_id_extension ≡ t.extension
      → (e : ℕ)
      → ReadsTo ir e
          (parse_psi_section_syntax r parse_dvb_time parse_other t.id e)
          syntax_bytes
          (record { data_of = t.contents; header = some sh })
  unfolding parse_psi_section_syntax
  syntax-ReadsTo v x e = rw t.has_syntax (
      ReadsTo-bind ir e _ (syntax_header_bytes sh) t.bytes
        (Reads-last ir _ (syntax_header-Reads ir sh v) (Reads-pure ir (some sh)))
        (ReadsTo-last ir e _ (t.get sh e x) refl))

  module _ (v : IsSyntaxHeader sh) (x : sh.table_id_extension ≡ t.extension) where
    content-read :
        (c : ℕ) (rest bs : List ℕ) (o : ℕ)
        → c < 2 ^ 32
        → drop o bs ≡ bytes_with c ++ rest
        → parse_section_content r parse_dvb_time parse_other o section_header (at bs (o + 3)) ≡ (
            if compute_crc32 covered_bytes == c
            then ok (section_with c, at bs (o + (3 + content_length)))
            else err crc32_mismatch)
    unfolding parse_section_content sections_end section_with bytes_with covered_bytes
    content-read c rest bs o h d =
        let n = length-covered_bytes in
        let z = syntax_size in
        let after = checksum_bytes c ++ rest in
        let d' : drop o bs ≡ covered_bytes ++ after =
          d ∙ append_assoc covered_bytes (checksum_bytes c) rest in
        let e : o + 3 + content_length - 4 ≡ o + length covered_bytes = omega arith in
        let d3 : drop (o + 3) bs ≡ syntax_bytes ++ after =
          behind head_bytes (syntax_bytes ++ after) bs o
            (d' ∙ append_assoc head_bytes syntax_bytes after) in
        let g = compute_crc32 covered_bytes == c in
        let end = o + 3 + content_length in
        let e' : o + (3 + content_length) ≡ end = omega arith in
        let begun = get_offset-at ir bs (o + 3) in
        let stop : sections_end r parse_dvb_time parse_other t.id end ≡ o + length covered_bytes =
          rw t.has_crc e in
        let some_bytes = lt→ltb 0 content_length (omega arith) in
        let section : PsiSectionSyntax Time Other = record {
          data_of = t.contents;
          header = some sh;
        } in
        let parsed : Runs
            (optional (ltb 0 content_length) (
              parse_psi_section_syntax r parse_dvb_time parse_other t.id
                (sections_end r parse_dvb_time parse_other t.id end)))
            (at bs (o + 3)) (ok (some section, at bs (o + length covered_bytes))) =
          rw (some_bytes, stop)
            (Runs-ok _
              (runs
                (parse_psi_section_syntax r parse_dvb_time parse_other t.id
                  (o + length covered_bytes))
                ((syntax-ReadsTo v x (o + length covered_bytes)).run after bs (o + 3) d3
                  (omega arith)))
              (runs (pure _) refl)) in
        let checked : Runs
            (when (ltb 0 content_length && has_crc32 t.id) 0 (
              check_crc32 r parse_dvb_time parse_other o
                (sections_end r parse_dvb_time parse_other t.id end)))
            (at bs (o + length covered_bytes))
            (if g then ok (c, at bs (o + length covered_bytes)) else err crc32_mismatch) =
          rw (some_bytes, t.has_crc, e)
            (runs (check_crc32 r parse_dvb_time parse_other o (o + length covered_bytes)) (
              check_crc32-at ir parse_dvb_time parse_other covered_bytes rest bs o
                (o + length covered_bytes) c (omega arith) h d')) in
        let read : Runs (parse_section_content r parse_dvb_time parse_other o section_header)
            (at bs (o + 3)) (if g then ok (section_with c, at bs end) else err crc32_mismatch) =
          Runs-ok _ (runs (get_offset r) begun) (
            Runs-ok _ parsed (elim (Bool-cases g) [
              | inl y ↦ rw y (
                  Runs-ok _
                    (runs
                      (when (ltb 0 content_length && has_crc32 t.id) 0 (
                        check_crc32 r parse_dvb_time parse_other o
                          (sections_end r parse_dvb_time parse_other t.id end)))
                      (checked.run ∙ if_true _ _ y))
                    (Runs-ok _ (runs (r.seek end) (ir.seek-at end bs (o + length covered_bytes)))
                      (runs (pure _) refl)))
              | inr y ↦ rw y (
                  Runs-err _ (
                    runs
                      (when (ltb 0 content_length && has_crc32 t.id) 0 (
                        check_crc32 r parse_dvb_time parse_other o
                          (sections_end r parse_dvb_time parse_other t.id end)))
                      (checked.run ∙ if_false _ _ y)))
            ])) in
        rw e' read.run

    -- A section of a PAT or a PMT with the checksum `c` behind it, wherever it stands, is read by
    -- `parsePSISection` as it was written if `c` is the checksum of its bytes; otherwise the parsing
    -- fails with the error of the CRC.
    pub parse_psi_section-checks :
        (c : ℕ) (rest bs : List ℕ) (o : ℕ)
        → c < 2 ^ 32
        → drop o bs ≡ bytes_with c ++ rest
        → parse_psi_section r parse_dvb_time parse_other (at bs o) ≡ (
            if compute_crc32 covered_bytes == c
            then ok ((section_with c, false), at bs (o + (3 + content_length)))
            else err crc32_mismatch)
    unfolding parse_psi_section parse_section_of bytes_with covered_bytes
    parse_psi_section-checks c rest bs o h d =
        let g = compute_crc32 covered_bytes == c in
        let begun = get_offset-at ir bs o in
        let behind_id = syntax_bytes ++ (checksum_bytes c ++ rest) in
        let d0 : drop o bs
            ≡ (t.id ∷ []) ++ ((length_byte ∷ content_length % 256 ∷ []) ++ behind_id) =
          d
          ∙ append_assoc covered_bytes (checksum_bytes c) rest
          ∙ append_assoc head_bytes syntax_bytes (checksum_bytes c ++ rest) in
        let fields =
          fields-Reads.run behind_id bs (o + 1)
            (behind (t.id ∷ []) ((length_byte ∷ content_length % 256 ∷ []) ++ behind_id) bs o d0) in
        let three : o + 1 + 2 ≡ o + 3 = omega arith in
        let after_id : Runs (parse_section_of r parse_dvb_time parse_other o t.id) (at bs (o + 1)) (
            if g
            then ok ((section_with c, false), at bs (o + (3 + content_length)))
            else err crc32_mismatch) =
          rw t.goes_on (
            Runs-ok _
              (runs (parse_header_fields r parse_dvb_time parse_other t.id)
                (fields ∙ ap (λ n. ok (section_header, at bs n)) three))
              (elim (Bool-cases g) [
                | inl y ↦ rw y (
                    Runs-ok _
                      (runs (parse_section_content r parse_dvb_time parse_other o section_header)
                        (content-read c rest bs o h d ∙ if_true _ _ y))
                      (runs (pure _) refl))
                | inr y ↦ rw y (
                    Runs-err _ (
                      runs (parse_section_content r parse_dvb_time parse_other o section_header)
                        (content-read c rest bs o h d ∙ if_false _ _ y)))
              ])) in
        let parsed : Runs (parse_psi_section r parse_dvb_time parse_other) (at bs o) (
            if g
            then ok ((section_with c, false), at bs (o + (3 + content_length)))
            else err crc32_mismatch) =
          Runs-ok _ (runs (get_offset r) begun) (
            Runs-ok _
              (runs r.next_byte (
                ir.next_byte-at t.id ((length_byte ∷ content_length % 256 ∷ []) ++ behind_id) bs o
                  d0))
              after_id) in
        parsed.run

  -- A section of a PAT or a PMT, whose syntax header fits its fields and has the extension of the
  -- table's id, is written in as many bytes as `writePSISection` says, and `parsePSISection` reads it
  -- back, its CRC being that of its bytes.
  pub parse_psi_section-write_psi_section :
      (b : Buffer w)
      → IsBuffer iw b
      → IsSyntaxHeader sh
      → sh.table_id_extension ≡ t.extension
      → RoundTrips iw ir
          (write_psi_section w b write_dvb_time section_of)
          (3 + content_length)
          (parse_psi_section r parse_dvb_time parse_other)
          (section_of, false)
  unfolding RoundTrips compute_crc32 section_bytes section_of bytes_with section_with
  parse_psi_section-write_psi_section b ib v x =
      let c = compute_crc32 covered_bytes in
      let n = length-section_bytes in
      (
        section_bytes,
        n,
        subst (λ k. Writes iw (write_psi_section w b write_dvb_time section_of) section_bytes k) n
            (write_psi_section-Writes b ib v).1,
        record {
          run = λ rest bs o d.
              parse_psi_section-checks v x c rest bs o
                (update_crc32-lt crc32_polynomial covered_bytes (omega arith)) d
              ∙ if_true _ _ (==_refl c)
              ∙ ap (λ k. ok ((section_with c, false), at bs k)) {x = o + (3 + content_length)}
                  {y = o + length section_bytes} (omega arith);
        },
      )
