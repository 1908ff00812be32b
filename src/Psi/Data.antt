-- ===== src/Psi/Data.antt =====
-- The payload of PSI packets: the pointer field and the sections.
use go_astits.Base.{
  ℕ, zero, suc, ◌+◌, ◌-◌, ◌%◌, ◌^◌, Bool, true, false, if◌then◌else◌, Option, List, [], ◌∷◌, M,
  pure, exhausted, ◌>>=◌, ◌>>◌,
}
use go_astits.Astikit.{BytesIterator, BitsWriter, Buffer}
use go_astits.Psi.{PsiSectionSyntaxHeader}
use go_astits.Psi.Section.{PsiSection, parse_psi_section, write_psi_section}

pub record PsiData (Time Other : Type 0) : Type 0 where
  pub pointer_field : ℕ
  pub sections : List (PsiSection Time Other)

module _ (r : BytesIterator) {Time Other : Type 0} (parse_dvb_time : M r.Iter Time)
    (parse_other : ℕ → Option PsiSectionSyntaxHeader → ℕ → M r.Iter (Option Other)) where
  open r use {Iter, next_byte, skip, has_bytes_left, len, offset}

  -- The loop, on fuel: a section takes a byte or more, so the bytes that are left are turns enough.
  unfoldable pub parse_sections : ℕ → Bool → M Iter (List (PsiSection Time Other))
  parse_sections fuel true i = pure [] i
  parse_sections zero false i = if has_bytes_left i then exhausted i else pure [] i
  parse_sections (suc fuel) false i =
      if has_bytes_left i
      then (do
        (s, stop) ← parse_psi_section r parse_dvb_time parse_other
        rest ← parse_sections fuel stop
        pure (s ∷ rest))
          i
      else pure [] i

  unfoldable pub parse_psi_data : M Iter (PsiData Time Other)
  parse_psi_data = do
    b ← next_byte
    skip b
    sections ← (λ i. parse_sections (len i - offset i) false i)
    pure (record { pointer_field = b; sections = sections })

module _ (w : BitsWriter) where
  open w use {Writer, write_uint8}

  -- The filler bytes that the pointer points over.
  unfoldable pub write_filler : ℕ → M Writer (Unit {0})
  write_filler zero = pure tt
  write_filler (suc n) = do write_uint8 0x00; write_filler n

module _ (w : BitsWriter) (b : Buffer w) {Time Other : Type 0}
    (write_dvb_time : Time → M w.Writer ℕ) where
  open w use {Writer, write_uint8}

  unfoldable pub write_sections : List (PsiSection Time Other) → ℕ → M Writer ℕ
  write_sections [] bytes_written = pure bytes_written
  write_sections (s ∷ ss) bytes_written = do
    n ← write_psi_section w b write_dvb_time s
    write_sections ss (bytes_written + n)

  unfoldable pub write_psi_data : PsiData Time Other → M Writer ℕ
  write_psi_data d = do
    write_uint8 (d.pointer_field % 2 ^ 8)
    write_filler w d.pointer_field
    write_sections d.sections (1 + d.pointer_field)
