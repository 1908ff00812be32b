-- ===== src/Pat/RoundTrip.antt =====
-- A PAT section that was written is read back.
use go_astits.Base.{
  ℕ, zero, suc, ◌+◌, ◌-◌, ◌*◌, ◌/◌, ◌%◌, ◌^◌, ◌<◌, ◌≤◌, ◌≡◌, refl, ◌∙◌, List, [], ◌∷◌, ◌++◌, length,
  drop, arith, ok, ◌>>=◌, ◌>>◌, lt→ltb, le→ltb, append_assoc, All,
}
use go_astits.Bits.{bit_and_mask, bit_or_disjoint}
use go_astits.Astikit.{BytesIterator, IsBytesIterator, BitsWriter, IsBitsWriter}
use go_astits.Codec.{behind, Writes, Writes-bind, Writes-return, Writes-last}
use go_astits.Pat.{
  PatProgram, PatData, program_of_bytes, parse_programs, parse_pat_section, write_program,
  write_programs, write_pat_section,
}

-- The numbers are within the fields' bits.
pub record IsProgram (p : PatProgram) : Type 0 where
  pub program_map_id_fits : p.program_map_id < 2 ^ 13
  pub program_number_fits : p.program_number < 2 ^ 16

unfoldable pub program_bytes : PatProgram → List ℕ
program_bytes p =
    p.program_number / 256
    ∷ p.program_number % 256
    ∷ (0xe0 + p.program_map_id / 256)
    ∷ p.program_map_id % 256
    ∷ []

unfoldable pub programs_bytes : List PatProgram → List ℕ
programs_bytes [] = []
programs_bytes (p ∷ ps) = program_bytes p ++ programs_bytes ps

pub length-programs_bytes : (ps : List PatProgram) → length (programs_bytes ps) ≡ 4 * length ps
unfolding programs_bytes program_bytes
length-programs_bytes [] = refl
length-programs_bytes (p ∷ ps) = omega (arith, length-programs_bytes ps)

program_ext :
    (a b : PatProgram)
    → a.program_map_id ≡ b.program_map_id
    → a.program_number ≡ b.program_number
    → a ≡ b
program_ext a b p q = λ i. record { program_map_id = p i; program_number = q i }

program_of_bytes-program_bytes :
    (p : PatProgram) → IsProgram p → program_of_bytes (program_bytes p) ≡ p
unfolding program_of_bytes program_bytes
program_of_bytes-program_bytes p v =
    let high = 0xe0 + p.program_map_id / 256 in
    program_ext _ _
      (rw
        (
          bit_and_mask 5 high,
          bit_or_disjoint 8 (high % 32 * 256) (p.program_map_id % 256) (omega arith) (omega arith),
        )
        (omega arith))
      (rw
        (bit_or_disjoint 8 (p.program_number / 256 * 256) (p.program_number % 256) (omega arith)
          (omega arith))
        (omega arith))

module _ {w : BitsWriter} (iw : IsBitsWriter w) where
  write_program-Writes :
      (p : PatProgram) → IsProgram p → Writes iw (write_program w p) (program_bytes p) tt
  unfolding write_program program_bytes
  write_program-Writes p v = record {
    run = λ out.
        simp (iw.write_uint16-at, iw.write_n-at, write_program, ◌>>=◌, ◌>>◌, append_assoc)
          (ground arith);
  }

  write_programs-Writes :
      (ps : List PatProgram)
      → All IsProgram ps
      → Writes iw (write_programs w ps) (programs_bytes ps) tt
  unfolding write_programs programs_bytes
  write_programs-Writes [] v = Writes-return iw tt tt refl
  write_programs-Writes (p ∷ ps) v =
      Writes-bind iw _ (program_bytes p) (programs_bytes ps) (write_program-Writes p v.0)
        (write_programs-Writes ps v.1)

  -- `writePATSection` puts out as many bytes as it says.
  pub write_pat_section-Writes :
      (d : PatData)
      → All IsProgram d.programs
      → Writes iw
          (write_pat_section w d)
          (programs_bytes d.programs)
          (length (programs_bytes d.programs))
  unfolding write_pat_section
  write_pat_section-Writes d v =
      Writes-last iw _ (write_programs-Writes d.programs v)
        (Writes-return iw _ _ (omega (arith, length-programs_bytes d.programs)))

module _ {r : BytesIterator} (ir : IsBytesIterator r) where
  parse_programs-at :
      (fuel : ℕ) (ps : List PatProgram) (rest bs : List ℕ) (o stop : ℕ)
      → All IsProgram ps
      → drop o bs ≡ programs_bytes ps ++ rest
      → stop ≡ o + 4 * length ps
      → stop ≤ o + fuel
      → parse_programs r fuel stop (ir.at bs o) ≡ ok (ps, ir.at bs stop)
  unfolding parse_programs programs_bytes program_bytes
  parse_programs-at zero [] rest bs o stop v e l h =
      let here : stop ≡ o = omega arith in
      rw (ir.offset-at bs o, le→ltb o stop (omega arith), here) refl
  parse_programs-at (suc fuel) [] rest bs o stop v e l h =
      let here : stop ≡ o = omega arith in
      rw (ir.offset-at bs o, le→ltb o stop (omega arith), here) refl
  parse_programs-at zero (p ∷ ps) rest bs o stop v e l h = absurd (omega arith)
  parse_programs-at (suc fuel) (p ∷ ps) rest bs o stop v e l h =
      let e' = e ∙ append_assoc (program_bytes p) (programs_bytes ps) rest in
      rw
        (
          ir.offset-at bs o,
          lt→ltb o stop (omega arith),
          ir.next_bytes-at (program_bytes p) (programs_bytes ps ++ rest) bs o (omega arith) e',
          parse_programs,
          ◌>>=◌,
          parse_programs-at fuel ps rest bs (o + 4) stop v.1
              (behind (program_bytes p) (programs_bytes ps ++ rest) bs o e') (omega arith)
              (omega arith),
          program_of_bytes-program_bytes p v.0,
        )
        refl

  pub parse_pat_section-at :
      (d : PatData) (rest bs : List ℕ) (o : ℕ)
      → All IsProgram d.programs
      → drop o bs ≡ programs_bytes d.programs ++ rest
      → let stop = o + length (programs_bytes d.programs) in
        parse_pat_section r stop d.transport_stream_id (ir.at bs o) ≡ ok (d, ir.at bs stop)
  unfolding parse_pat_section
  parse_pat_section-at d rest bs o v e =
      let stop = o + length (programs_bytes d.programs) in
      rw
        (
          ir.offset-at bs o,
          parse_programs-at (stop - o) d.programs rest bs o stop v e
              (omega (arith, length-programs_bytes d.programs)) (omega arith),
          parse_pat_section,
          ◌>>=◌,
        )
        refl
