-- ===== src/Psi/SyntaxHeader.antt =====
-- The header of a section's syntax, written and read, and the tables that have one.
use go_astits.Base.{
  ℕ, ◌+◌, ◌*◌, ◌/◌, ◌%◌, ◌^◌, ◌<◌, ◌≡◌, refl, ◌∙◌, arith, true, false, List, [], ◌∷◌, ◌++◌, ◌>>=◌,
  ◌>>◌, bit_and,
}
use go_astits.Bits.{◌<|>◌, digit, digit-le, has_bit-digit, bit_and_mask, bit_or_disjoint, or_next}
use go_astits.Astikit.{BytesIterator, IsBytesIterator, BitsWriter, IsBitsWriter}
use go_astits.Codec.{
  RoundTrips, Reads, Reads-bind, Reads-byte, Reads-bytes, Reads-return, Writes, Writes-bind,
  Writes-uint8, Writes-uint16, Writes-return,
}
use go_astits.Crc32.Residue.{checksum_bytes}
use go_astits.Psi.{
  PsiSectionSyntaxHeader, has_psi_syntax_header, has_crc32, should_stop_psi_parsing, is_unknown,
  is_eit, is_nit_or_sdt, is_listed, parse_crc32, parse_psi_section_syntax_header, write_version,
  write_psi_section_syntax_header,
}

-- Every table with a syntax header has a CRC.
pub has_psi_syntax_header-has_crc32 : (t : ℕ) → has_psi_syntax_header t ≡ true → has_crc32 t ≡ true
unfolding has_psi_syntax_header has_crc32
has_psi_syntax_header-has_crc32 t h = ground arith

-- The parsing of sections does not stop at a table that has a CRC.
pub has_crc32-should_stop_psi_parsing :
    (t : ℕ) → has_crc32 t ≡ true → should_stop_psi_parsing t ≡ false
unfolding has_crc32 should_stop_psi_parsing is_unknown is_listed is_nit_or_sdt is_eit
has_crc32-should_stop_psi_parsing t h = ground arith

-- The numbers fit the widths of their fields.
pub record IsSyntaxHeader (h : PsiSectionSyntaxHeader) : Type 0 where
  pub extension_lt : h.table_id_extension < 2 ^ 16
  pub version_lt : h.version_number < 2 ^ 5

version_byte : PsiSectionSyntaxHeader → ℕ
version_byte h = 192 + h.version_number * 2 + digit h.current_next_indicator

unfoldable pub syntax_header_bytes : PsiSectionSyntaxHeader → List ℕ
unfolding version_byte
syntax_header_bytes h =
    (h.table_id_extension / 256 ∷ h.table_id_extension % 256 ∷ [])
    ++ (version_byte h ∷ h.section_number ∷ h.last_section_number ∷ [])

header_ext :
    (a b : PsiSectionSyntaxHeader)
    → a.current_next_indicator ≡ b.current_next_indicator
    → a.last_section_number ≡ b.last_section_number
    → a.section_number ≡ b.section_number
    → a.table_id_extension ≡ b.table_id_extension
    → a.version_number ≡ b.version_number
    → a ≡ b
header_ext a b p q s t u = λ i. record {
  current_next_indicator = p i;
  last_section_number = q i;
  section_number = s i;
  table_id_extension = t i;
  version_number = u i;
}

extension_bytes : (x : ℕ) → x < 2 ^ 16 → (x / 256 * 2 ^ 8 <|> x % 256) ≡ x
extension_bytes x h =
    bit_or_disjoint 8 (x / 256 * 2 ^ 8) (x % 256) (omega arith) (omega arith) ∙ omega arith

version_read :
    (h : PsiSectionSyntaxHeader)
    → IsSyntaxHeader h
    → bit_and (version_byte h) 0x3f / 2 ≡ h.version_number
unfolding version_byte
version_read h v =
    let d = digit-le h.current_next_indicator in omega (arith, bit_and_mask 6 (version_byte h))

module _ {w : BitsWriter} (iw : IsBitsWriter w) where
  version-Writes :
      (h : PsiSectionSyntaxHeader)
      → IsSyntaxHeader h
      → Writes iw (write_version w h) (version_byte h ∷ []) tt
  unfolding write_version version_byte
  version-Writes h v =
      let d = digit-le h.current_next_indicator in
      record {
        run = λ out.
            simp (iw.write_n-at, iw.write_bool-at, write_version, ◌>>=◌, ◌>>◌) (ground arith);
      }

  pub syntax_header-Writes :
      (h : PsiSectionSyntaxHeader)
      → IsSyntaxHeader h
      → Writes iw (write_psi_section_syntax_header w h) (syntax_header_bytes h) 5
  unfolding write_psi_section_syntax_header syntax_header_bytes
  syntax_header-Writes h v =
      let x = h.table_id_extension in
      Writes-bind iw _ (x / 256 ∷ x % 256 ∷ []) _ (Writes-uint16 iw x) (
        Writes-bind iw _ (version_byte h ∷ []) _ (version-Writes h v) (
          Writes-bind iw _ (h.section_number ∷ []) _ (Writes-uint8 iw h.section_number) (
            Writes-bind iw _ (h.last_section_number ∷ []) _ (Writes-uint8 iw h.last_section_number)
              (Writes-return iw 5 5 refl))))

module _ {r : BytesIterator} (ir : IsBytesIterator r) where
  pub syntax_header-Reads :
      (h : PsiSectionSyntaxHeader)
      → IsSyntaxHeader h
      → Reads ir (parse_psi_section_syntax_header r) (syntax_header_bytes h) h
  unfolding parse_psi_section_syntax_header syntax_header_bytes version_byte
  syntax_header-Reads h v =
      let x = h.table_id_extension in
      Reads-bind ir _ (x / 256 ∷ x % 256 ∷ []) _
        (Reads-bytes ir 2 (x / 256 ∷ x % 256 ∷ []) (omega arith) refl)
        (Reads-bind ir _ (version_byte h ∷ []) _ (Reads-byte ir (version_byte h)) (
          Reads-bind ir _ (h.section_number ∷ []) _ (Reads-byte ir h.section_number) (
            Reads-bind ir _ (h.last_section_number ∷ []) [] (Reads-byte ir h.last_section_number) (
              Reads-return ir _ _ (
                header_ext _ _
                  (has_bit-digit 0 _ _ (omega (arith, digit-le h.current_next_indicator))) refl refl
                  (extension_bytes x v.extension_lt) (version_read h v))))))

  -- The four bytes of a checksum are read back as the checksum.
  pub parse_crc32-Reads : (c : ℕ) → c < 2 ^ 32 → Reads ir (parse_crc32 r) (checksum_bytes c) c
  unfolding parse_crc32
  parse_crc32-Reads c h =
      let p1 =
        bit_or_disjoint 24 (c / 2 ^ 24 * 2 ^ 24) (c / 2 ^ 16 % 256 * 2 ^ 16) (omega arith)
          (omega arith) in
      let p2 = or_next 16 (c / 256 % 256 * 2 ^ 8) p1 (omega arith) (omega arith) in
      let p3 = or_next 8 (c % 256) p2 (omega arith) (omega arith) in
      Reads-bind ir _ (checksum_bytes c) [] (Reads-bytes ir 4 (checksum_bytes c) (omega arith) refl)
        (Reads-return ir _ _ (p3 ∙ omega arith))

module _ {w : BitsWriter} (iw : IsBitsWriter w) {r : BytesIterator} (ir : IsBytesIterator r) where
  -- A syntax header whose table id extension and version fit 16 and 5 bits is written in five bytes,
  -- and `parsePSISectionSyntaxHeader` reads it back.
  pub parse_psi_section_syntax_header-write_psi_section_syntax_header :
      (h : PsiSectionSyntaxHeader)
      → IsSyntaxHeader h
      → RoundTrips iw ir
          (write_psi_section_syntax_header w h)
          5
          (parse_psi_section_syntax_header r)
          h
  unfolding RoundTrips syntax_header_bytes
  parse_psi_section_syntax_header-write_psi_section_syntax_header h v =
      (syntax_header_bytes h, refl, syntax_header-Writes iw h v, syntax_header-Reads ir h v)
