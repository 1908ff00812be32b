-- ===== src/Descriptor/Dispatch/RoundTrip.antt =====
-- A list of descriptors, written with its length and read back.
use go_astits.Base.{
  ℕ, ◌+◌, ◌*◌, ◌/◌, ◌%◌, ◌^◌, ◌<◌, ◌≡◌, refl, ap, subst, ◌∙◌, List, [], ◌∷◌, ◌++◌, map, length,
  append_assoc, length-append, arith, M, ok, ◌>>=◌, ◌>>◌, All, bit_and, lt→ltb,
}
use go_astits.Bits.{◌<|>◌, bit_and_mask, bit_or_disjoint}
use go_astits.Astikit.{BytesIterator, IsBytesIterator, BitsWriter, IsBitsWriter}
use go_astits.Codec.{
  RoundTrips, Reads, Reads-bind, Reads-bytes, Reads-pure, Writes, Writes-bind, Writes-uint8,
  Writes-last, Writes-return, Writes-bytes,
}
use go_astits.Cursor.Reads.{bytes_of}
use go_astits.Descriptor.LocalTime.RoundTrip.{IsDvbTimes}
use go_astits.Cursor.Reads.{values-ReadsTo}
use go_astits.Descriptor.Kind.{
  DescriptorKind, kind_length, kind_tag, descriptor_of, IsDescriptorKind,
}
use go_astits.Descriptor.Kind.Content.{kind-Carries, calc_descriptor_length-kind_length, tag_of}
use go_astits.Descriptor.Dispatch.{
  Descriptor, parse_descriptor_content, parse_descriptor, descriptors_of_length, parse_descriptors,
}
use go_astits.Descriptor.Dispatch.Lengths.{calc_descriptors_length_loop, calc_descriptors_length}
use go_astits.Descriptor.Dispatch.Write.{
  write_descriptor, write_descriptors_loop, write_descriptors, write_length,
  write_descriptors_with_length,
}

module _ {w : BitsWriter} {iw : IsBitsWriter w} {r : BytesIterator} {ir : IsBytesIterator r}
    {Time : Type 0} {parse_dvb_time : M r.Iter Time} {write_dvb_time : Time → M w.Writer ℕ}
    (times : IsDvbTimes iw ir parse_dvb_time write_dvb_time) where
  open ir use {at}

  -- A descriptor whose part is there and fits its fields.
  pub record Described : Type 0 where
    pub kind : DescriptorKind Time
    pub valid : IsDescriptorKind times kind

  unfoldable pub value : Described → Descriptor Time
  value d = descriptor_of d.kind

  -- The tag, the length, and the part.
  unfoldable pub described_bytes : Described → List ℕ
  described_bytes d =
      (kind_tag d.kind ∷ kind_length d.kind ∷ []) ++ (kind-Carries times d.kind d.valid.kind).bytes

  length-described_bytes : (d : Described) → length (described_bytes d) ≡ kind_length d.kind + 2
  unfolding described_bytes
  length-described_bytes d = omega (arith, (kind-Carries times d.kind d.valid.kind).counted)

  abbrev pub list_size : List Described → ℕ
  list_size ds = length (bytes_of described_bytes ds)

  pub list_size-cons :
      (d : Described) (ds : List Described)
      → list_size (d ∷ ds) ≡ kind_length d.kind + 2 + list_size ds
  list_size-cons d ds = omega (
    arith,
    length-append (described_bytes d) (bytes_of described_bytes ds),
    length-described_bytes d,
  )

  described-Writes :
      (d : Described)
      → Writes iw
          (write_descriptor w write_dvb_time (value d))
          (described_bytes d)
          (kind_length d.kind + 2)
  unfolding write_descriptor value described_bytes
  described-Writes d =
      let c = kind-Carries times d.kind d.valid.kind in
      let t = (descriptor_of d.kind).tag in
      rw (calc_descriptor_length-kind_length times d.kind d.valid.kind) (
        Writes-bytes iw (ap (λ x. (x ∷ kind_length d.kind ∷ []) ++ c.bytes) (tag_of times d.kind)) (
          Writes-bind iw _ (t ∷ []) _ (Writes-uint8 iw t) (
            Writes-bind iw _ (kind_length d.kind ∷ []) _ (Writes-uint8 iw (kind_length d.kind))
              (Writes-last iw _ c.written (Writes-return iw _ _ refl)))))

  loop-Writes :
      (ds : List Described) (n : ℕ)
      → Writes iw
          (write_descriptors_loop w write_dvb_time (map value ds) n)
          (bytes_of described_bytes ds)
          (n + list_size ds)
  unfolding write_descriptors_loop
  loop-Writes [] n = Writes-return iw _ _ (omega arith)
  loop-Writes (d ∷ ds) n =
      subst
        (λ k.
          Writes iw (write_descriptors_loop w write_dvb_time (map value (d ∷ ds)) n)
            (bytes_of described_bytes (d ∷ ds)) k)
        {x = n + (kind_length d.kind + 2) + list_size ds} (omega (arith, list_size-cons d ds))
        (Writes-bind iw _ (described_bytes d) _ (described-Writes d)
          (loop-Writes ds (n + (kind_length d.kind + 2))))

  loop-length :
      (ds : List Described) (n : ℕ)
      → n + list_size ds < 2 ^ 16
      → calc_descriptors_length_loop (map value ds) n ≡ ok (n + list_size ds)
  unfolding calc_descriptors_length_loop value
  loop-length [] n l = ap (λ (k : ℕ). ok k) {x = n} {y = n + 0} (omega arith)
  loop-length (d ∷ ds) n l =
      let s = list_size-cons d ds in
      let m : (n + 2 + kind_length d.kind) % 2 ^ 16 ≡ n + 2 + kind_length d.kind = omega arith in
      rw
        (
          calc_descriptors_length_loop,
          calc_descriptor_length-kind_length times d.kind d.valid.kind,
          m,
        )
        (loop-length ds (n + 2 + kind_length d.kind) (omega arith)
          ∙ ap (λ (k : ℕ). ok k) {x = n + 2 + kind_length d.kind + list_size ds}
              {y = n + list_size (d ∷ ds)} (omega arith))

  -- The length that is calculated for a list of descriptors is the number of bytes that they take.
  pub calc_descriptors_length-written :
      (ds : List Described)
      → list_size ds < 2 ^ 16
      → calc_descriptors_length (map value ds) ≡ ok (list_size ds)
  unfolding calc_descriptors_length
  calc_descriptors_length-written ds l =
      loop-length ds 0 (omega arith)
      ∙ ap (λ (k : ℕ). ok k) {x = 0 + list_size ds} {y = list_size ds} (omega arith)

  content-Reads :
      (d : Described)
      → Reads ir
          (parse_descriptor_content r parse_dvb_time (kind_tag d.kind) (kind_length d.kind))
          (kind-Carries times d.kind d.valid.kind).bytes
          (value d)
  unfolding parse_descriptor_content value
  content-Reads d =
      let c = kind-Carries times d.kind d.valid.kind in
      record {
        run = λ rest bs o h.
            let n = c.counted in
            rw
              (
                lt→ltb 0 (kind_length d.kind) d.valid.some_bytes,
                ir.offset-at bs o,
                ◌>>=◌,
                (c.read (o + kind_length d.kind)).run rest bs o h (omega arith),
                ir.offset-at bs o,
                ◌>>◌,
                ir.seek-at (o + kind_length d.kind) bs (o + kind_length d.kind),
                n,
              )
              refl;
      }

  described-Reads :
      (d : Described) → Reads ir (parse_descriptor r parse_dvb_time) (described_bytes d) (value d)
  unfolding parse_descriptor described_bytes
  described-Reads d =
      Reads-bind ir _ (kind_tag d.kind ∷ kind_length d.kind ∷ []) _
        (Reads-bytes ir 2 (kind_tag d.kind ∷ kind_length d.kind ∷ []) (omega arith) refl)
        (content-Reads d)

  every_described :
      (ds : List Described)
      → All (λ d. Reads ir (parse_descriptor r parse_dvb_time) (described_bytes d) (value d)) ds
  every_described [] = tt
  every_described (d ∷ ds) = (described-Reads d, every_described ds)

  list-Reads :
      (ds : List Described)
      → Reads ir
          (descriptors_of_length r parse_dvb_time (list_size ds))
          (bytes_of described_bytes ds)
          (map value ds)
  unfolding descriptors_of_length
  list-Reads [] = Reads-pure ir []
  list-Reads (d ∷ ds) = record {
    run = λ rest bs o h.
        let n = list_size-cons d ds in
        rw (lt→ltb 0 (list_size (d ∷ ds)) (omega arith), ir.offset-at bs o)
          ((values-ReadsTo ir (parse_descriptor r parse_dvb_time) value described_bytes
              (λ a. omega (arith, length-described_bytes a)) (o + list_size (d ∷ ds)) (d ∷ ds)
              (every_described (d ∷ ds))).run
            rest bs o h refl);
  }

  abbrev length_bytes : ℕ → List ℕ
  length_bytes n = (240 + n / 256) ∷ n % 256 ∷ []

  length-Writes :
      (n : ℕ) → n < 2 ^ 12 → Writes iw (write_length w write_dvb_time n) (length_bytes n) tt
  unfolding write_length
  length-Writes n l = record {
    run = λ out. simp (iw.write_n-at, write_length, ◌>>=◌, ◌>>◌, append_assoc) (ground arith);
  }

  length_of_bytes : (n : ℕ) → n < 2 ^ 12 → (bit_and (240 + n / 256) 0xf * 2 ^ 8 <|> n % 256) ≡ n
  length_of_bytes n l = rw (bit_and_mask 4 (240 + n / 256)) (
      bit_or_disjoint 8 ((240 + n / 256) % 2 ^ 4 * 2 ^ 8) (n % 256) (omega arith) (omega arith)
      ∙ omega arith)

  -- The length in two bytes, and the descriptors.
  unfoldable pub descriptors_bytes : List Described → List ℕ
  descriptors_bytes ds = length_bytes (list_size ds) ++ bytes_of described_bytes ds

  pub length-descriptors_bytes :
      (ds : List Described) → length (descriptors_bytes ds) ≡ list_size ds + 2
  unfolding descriptors_bytes
  length-descriptors_bytes ds = omega arith

  pub descriptors-Writes :
      (ds : List Described)
      → list_size ds < 2 ^ 12
      → Writes iw
          (write_descriptors_with_length w write_dvb_time (map value ds))
          (descriptors_bytes ds)
          (list_size ds + 2)
  unfolding write_descriptors_with_length write_descriptors descriptors_bytes
  descriptors-Writes ds l =
      let n = list_size ds in
      rw (calc_descriptors_length-written ds (omega arith)) (
        Writes-bind iw _ (length_bytes n) _ (length-Writes n l)
          (Writes-last iw _ (loop-Writes ds 0) (Writes-return iw _ _ (omega arith))))

  pub descriptors-Reads :
      (ds : List Described)
      → list_size ds < 2 ^ 12
      → Reads ir (parse_descriptors r parse_dvb_time) (descriptors_bytes ds) (map value ds)
  unfolding parse_descriptors descriptors_bytes
  descriptors-Reads ds l =
      let n = list_size ds in
      Reads-bind ir _ (length_bytes n) _ (Reads-bytes ir 2 (length_bytes n) (omega arith) refl)
        (rw (length_of_bytes n l) (list-Reads ds))

  -- Descriptors of any kinds whose numbers and lists fit their fields, of 4095 bytes at most, are
  -- written behind their length, in as many bytes as `writeDescriptorsWithLength` says, and
  -- `parseDescriptors` reads them back as they were.
  pub parse_descriptors-write_descriptors_with_length :
      (ds : List Described)
      → list_size ds < 2 ^ 12
      → RoundTrips iw ir
          (write_descriptors_with_length w write_dvb_time (map value ds))
          (list_size ds + 2)
          (parse_descriptors r parse_dvb_time)
          (map value ds)
  unfolding RoundTrips
  parse_descriptors-write_descriptors_with_length ds l = (
    descriptors_bytes ds,
    length-descriptors_bytes ds,
    descriptors-Writes ds l,
    descriptors-Reads ds l,
  )
