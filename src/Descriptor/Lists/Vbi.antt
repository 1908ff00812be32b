-- ===== src/Descriptor/Lists/Vbi.antt =====
-- The VBI data descriptor, written and read.
use go_astits.Base.{
  ℕ, ◌+◌, ◌*◌, ◌%◌, ◌<◌, ◌≡◌, refl, ap, ◌∙◌, true, false, List, [], ◌∷◌, ◌++◌, length, arith, ◌>>=◌,
  ◌>>◌, All, zero, suc, map, ◌≢◌, unfinished, lt→ltb, All-map, bit_and,
}
use go_astits.Bits.{has_bit, digit, digit-le, has_bit-digit, bit_and_mask}
use go_astits.Astikit.{BytesIterator, IsBytesIterator, BitsWriter, IsBitsWriter}
use go_astits.Codec.{
  Reads, Reads-bind, Reads-last, Reads-return, Reads-pure, Reads-byte, Writes, Writes-bind,
  Writes-last, Writes-last, Writes-uint8, Writes-return,
}
use go_astits.Cursor.Reads.{bytes_of, items_to-ReadsTo}
use go_astits.Descriptor.Frame.{Carries}
use go_astits.Descriptor.Frame.{write_each-Writes}
use go_astits.Cursor.{until}
use go_astits.Descriptor.Lists.Items.{IsItem, list-Carries}
use go_astits.Descriptor.Lists.{
  DescriptorVbiDataDescriptor, DescriptorVbiDataService, DescriptorVbiData, is_line_service, concat,
  vbi_data_descriptor, vbi_data_descriptor_of, vbi_data_descriptors, vbi_data_service,
  new_descriptor_vbi_data, calc_descriptor_vbi_data_length, write_each, write_vbi_data_descriptor,
  write_vbi_data_service, write_descriptor_vbi_data,
}

abbrev pub IsLine : DescriptorVbiDataDescriptor → Type 0
IsLine d = d.line_offset < 32

-- A service with lines, as many as a byte counts.
pub record IsLineService (s : DescriptorVbiDataService) : Type 0 where
  pub line_service : is_line_service s.data_service_id ≡ true
  pub lines : All IsLine s.descriptors
  pub fits : length s.descriptors < 256

pub record IsOneLineService (s : DescriptorVbiDataService) : Type 0 where
  pub service : IsLineService s
  pub one : length s.descriptors ≡ 1

line_byte : DescriptorVbiDataDescriptor → ℕ
line_byte d = 192 + digit d.field_parity * 32 + d.line_offset

abbrev line_bytes : DescriptorVbiDataDescriptor → List ℕ
line_bytes d = line_byte d ∷ []

-- A turn of the loop reads one descriptor.
abbrev turn_bytes : List DescriptorVbiDataDescriptor → List ℕ
turn_bytes [] = 0 ∷ []
turn_bytes (d ∷ ds) = line_byte d ∷ []

turn_bytes-le : (a : List DescriptorVbiDataDescriptor) → 0 < length (turn_bytes a)
turn_bytes-le [] = omega arith
turn_bytes-le (d ∷ ds) = omega arith

abbrev turns : List DescriptorVbiDataDescriptor → List (List DescriptorVbiDataDescriptor)
turns ds = map (λ d. d ∷ []) ds

concat-turns : (ds : List DescriptorVbiDataDescriptor) → concat (turns ds) ≡ ds
concat-turns [] = refl
concat-turns (d ∷ ds) = ap (λ t. d ∷ t) (concat-turns ds)

turns_bytes :
    (ds : List DescriptorVbiDataDescriptor)
    → bytes_of turn_bytes (turns ds) ≡ bytes_of line_bytes ds
turns_bytes [] = refl
turns_bytes (d ∷ ds) = ap (λ t. line_byte d ∷ t) (turns_bytes ds)

length-lines : (ds : List DescriptorVbiDataDescriptor) → length (bytes_of line_bytes ds) ≡ length ds
length-lines [] = refl
length-lines (d ∷ ds) = ap suc (length-lines ds)

service_bytes : DescriptorVbiDataService → List ℕ
service_bytes s =
    (s.data_service_id ∷ []) ++ ((length s.descriptors ∷ []) ++ bytes_of line_bytes s.descriptors)

length-service_bytes :
    (s : DescriptorVbiDataService) → length (service_bytes s) ≡ 2 + length s.descriptors
unfolding service_bytes
length-service_bytes s = omega (arith, length-lines s.descriptors)

module _ {w : BitsWriter} (iw : IsBitsWriter w) where
  line-Writes :
      (d : DescriptorVbiDataDescriptor)
      → IsLine d
      → Writes iw (write_vbi_data_descriptor w d) (line_bytes d) tt
  unfolding write_vbi_data_descriptor line_byte
  line-Writes d l =
      let p = digit-le d.field_parity in
      record {
        run = λ out.
            simp (iw.write_n-at, iw.write_bool-at, write_vbi_data_descriptor, ◌>>=◌, ◌>>◌)
              (ground arith);
      }

  service-Writes :
      (s : DescriptorVbiDataService)
      → IsLineService s
      → Writes iw (write_vbi_data_service w s) (service_bytes s) tt
  unfolding write_vbi_data_service service_bytes
  service-Writes s v =
      let f = v.fits in
      let n : length s.descriptors % 256 ≡ length s.descriptors = omega arith in
      Writes-bind iw _ (s.data_service_id ∷ []) _ (Writes-uint8 iw s.data_service_id) (
        rw (v.line_service, n)
          (Writes-bind iw _ (length s.descriptors ∷ []) _ (Writes-uint8 iw (length s.descriptors)) (
            write_each-Writes iw (write_vbi_data_descriptor w) line_bytes s.descriptors
              (All-map line-Writes s.descriptors v.lines))))

  -- A VBI data descriptor with one service of lines is written in two bytes and one for each line,
  -- but `calcDescriptorVBIDataLength`, which is written before it, says three: the two differ
  -- unless there is one line.
  pub write_descriptor_vbi_data-miscounts :
      (s : DescriptorVbiDataService)
      → IsLineService s
      → length s.descriptors ≢ 1
      → (bs : List ℕ) × Writes iw (write_descriptor_vbi_data w (record { services = s ∷ [] })) bs tt
        × (length bs ≡ 2 + length s.descriptors)
        × (length bs ≢ calc_descriptor_vbi_data_length (record { services = s ∷ [] }))
  unfolding write_descriptor_vbi_data write_each calc_descriptor_vbi_data_length
  write_descriptor_vbi_data-miscounts s v h =
      let e = length-service_bytes s in
      (
        service_bytes s,
        Writes-last iw _ (service-Writes s v) (Writes-return iw tt tt refl),
        e,
        λ c. h (omega arith),
      )

module _ {r : BytesIterator} (ir : IsBytesIterator r) where
  turn-Reads :
      (id : ℕ)
      → is_line_service id ≡ true
      → (d : DescriptorVbiDataDescriptor) → IsLine d
      → Reads ir (vbi_data_descriptor_of r id) (turn_bytes (d ∷ [])) (d ∷ [])
  unfolding vbi_data_descriptor_of vbi_data_descriptor line_byte
  turn-Reads id t d l =
      let p = digit-le d.field_parity in
      let x = line_byte d in
      let h : has_bit x 0x20 ≡ d.field_parity = has_bit-digit 5 x _ (omega arith) in
      let k : bit_and x 0x1f ≡ d.line_offset = bit_and_mask 5 x ∙ omega arith in
      rw t (
        Reads-last ir _ (Reads-last ir _ (Reads-byte ir x) (rw (h, k) (Reads-pure ir d)))
          (Reads-pure ir (d ∷ [])))

  turns-Reads :
      (id : ℕ)
      → is_line_service id ≡ true
      → (ds : List DescriptorVbiDataDescriptor) → All IsLine ds
      → All (λ a. Reads ir (vbi_data_descriptor_of r id) (turn_bytes a) a) (turns ds)
  turns-Reads id t [] v = tt
  turns-Reads id t (d ∷ ds) v = (turn-Reads id t d v.0, turns-Reads id t ds v.1)

  lines-Reads :
      (id : ℕ)
      → is_line_service id ≡ true
      → (ds : List DescriptorVbiDataDescriptor) → All IsLine ds
      → Reads ir (vbi_data_descriptors r id (length ds)) (bytes_of line_bytes ds) (turns ds)
  unfolding vbi_data_descriptors
  lines-Reads id t ds v = record {
    run = λ rest bs o h.
        rw (ir.offset-at bs o, length-lines ds)
          ((items_to-ReadsTo ir (vbi_data_descriptor_of r id) turn_bytes turn_bytes-le
              (o + length ds) (turns ds) (turns-Reads id t ds v)).run
            rest bs o (rw (turns_bytes ds) h)
            (omega (arith, ap length (turns_bytes ds), length-lines ds)));
  }

  service-Reads :
      (s : DescriptorVbiDataService)
      → IsLineService s
      → Reads ir (vbi_data_service r) (service_bytes s) s
  unfolding vbi_data_service service_bytes
  service-Reads s v = Reads-bind ir _ (s.data_service_id ∷ []) _ (Reads-byte ir s.data_service_id) (
      Reads-bind ir _ (length s.descriptors ∷ []) _ (Reads-byte ir (length s.descriptors)) (
        Reads-last ir _ (lines-Reads s.data_service_id v.line_service s.descriptors v.lines) (
          Reads-return ir _ _ (
            ap (λ t. record { data_service_id = s.data_service_id; descriptors = t })
              (concat-turns s.descriptors)))))

  -- For a service whose id is not that of lines and an end that is not reached at the start, the inner
  -- loop of `newDescriptorVBIData` is unfinished after any number of turns: no turn fails or panics,
  -- and none reads a byte.
  pub vbi_data_descriptor_of-never_ends :
      (id : ℕ)
      → is_line_service id ≡ false
      → (turns o n : ℕ) (bs : List ℕ) → o < n
      → until r turns n (vbi_data_descriptor_of r id) (ir.at bs o) ≡ unfinished
  unfolding until vbi_data_descriptor_of
  vbi_data_descriptor_of-never_ends id t zero o n bs l = rw (ir.offset-at bs o, lt→ltb o n l) refl
  vbi_data_descriptor_of-never_ends id t (suc turns) o n bs l =
      rw
        (
          ir.offset-at bs o,
          lt→ltb o n l,
          t,
          ◌>>=◌,
          vbi_data_descriptor_of-never_ends id t turns o n bs l,
        )
        refl

module _ {w : BitsWriter} (iw : IsBitsWriter w) {r : BytesIterator} (ir : IsBytesIterator r) where
  service-IsItem :
      (s : DescriptorVbiDataService)
      → IsOneLineService s
      → IsItem iw ir 3 (write_vbi_data_service w) (vbi_data_service r) service_bytes s
  service-IsItem s v = record {
    size = omega (arith, length-service_bytes s, v.one);
    put = service-Writes iw s v.service;
    get = service-Reads ir s v.service;
  }

  -- With one line in each service the length is right.
  pub vbi_data-Carries :
      (d : DescriptorVbiData)
      → All IsOneLineService d.services
      → 3 * length d.services < 256
      → Carries iw ir
          (write_descriptor_vbi_data w d)
          (calc_descriptor_vbi_data_length d)
          (new_descriptor_vbi_data r)
          d
  unfolding write_descriptor_vbi_data calc_descriptor_vbi_data_length new_descriptor_vbi_data
  vbi_data-Carries d v l =
      list-Carries iw ir 3 (write_vbi_data_service w) (vbi_data_service r) service_bytes d.services
        (λ services. record { services = services }) (λ a. omega (arith, length-service_bytes a))
        (All-map service-IsItem d.services v) l
