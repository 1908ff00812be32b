-- ===== src/Pmt/RoundTrip.antt =====
-- A PMT section, written and read.
use go_astits.Base.{
  ℕ, ◌+◌, ◌*◌, ◌/◌, ◌%◌, ◌^◌, ◌<◌, ◌≡◌, refl, sym, ap, subst, ◌∙◌, List, [], ◌∷◌, ◌++◌, map, length,
  append_assoc, length-append, arith, M, ok, ◌>>=◌, ◌>>◌, All,
}
use go_astits.Bits.{bit_and_mask, bit_or_disjoint}
use go_astits.Astikit.{BytesIterator, IsBytesIterator, BitsWriter, IsBitsWriter}
use go_astits.Codec.{
  Reads, Reads-bind, Reads-byte, Reads-bytes, Reads-last, Reads-pure, Writes, Writes-bind,
  Writes-uint8, Writes-return, Writes-bytes,
}
use go_astits.Cursor.Reads.{ReadsTo, ReadsTo-bind, ReadsTo-last, bytes_of}
use go_astits.Cursor.Reads.{values-ReadsTo}
use go_astits.Descriptor.LocalTime.RoundTrip.{IsDvbTimes}
use go_astits.Descriptor.Dispatch.RoundTrip.{
  Described, value, list_size, calc_descriptors_length-written, descriptors_bytes,
  descriptors-Writes, descriptors-Reads, length-descriptors_bytes,
}
use go_astits.Pmt.{
  PmtElementaryStream, PmtData, pid_of_bytes, parse_elementary_stream, parse_pmt_section,
  calc_streams_length, calc_pmt_section_length, write_reserved_pid, write_elementary_streams,
  write_pmt_section,
}

abbrev pid_bytes : ℕ → List ℕ
pid_bytes x = (224 + x / 256) ∷ x % 256 ∷ []

pid_of_bytes-pid_bytes : (x : ℕ) → x < 2 ^ 13 → pid_of_bytes (pid_bytes x) ≡ x
unfolding pid_of_bytes
pid_of_bytes-pid_bytes x l = rw (bit_and_mask 5 (224 + x / 256)) (
    bit_or_disjoint 8 ((224 + x / 256) % 2 ^ 5 * 2 ^ 8) (x % 256) (omega arith) (omega arith)
    ∙ omega arith)

module _ {w : BitsWriter} {iw : IsBitsWriter w} {r : BytesIterator} {ir : IsBytesIterator r}
    {Time : Type 0} {parse_dvb_time : M r.Iter Time} {write_dvb_time : Time → M w.Writer ℕ}
    (times : IsDvbTimes iw ir parse_dvb_time write_dvb_time) where
  open ir use {at}

  -- A stream and a table whose numbers and lists fit their fields.
  pub record DescribedStream : Type 0 where
    pub pid : ℕ
    pub pid_fits : pid < 2 ^ 13
    pub stream_type : ℕ
    pub descriptors : List (Described times)
    pub descriptors_fit : list_size times descriptors < 2 ^ 12

  pub record DescribedPmt : Type 0 where
    pub streams : List DescribedStream
    pub pcr_pid : ℕ
    pub pcr_pid_fits : pcr_pid < 2 ^ 13
    pub descriptors : List (Described times)
    pub descriptors_fit : list_size times descriptors < 2 ^ 12
    pub number : ℕ

  unfoldable pub stream_value : DescribedStream → PmtElementaryStream Time
  stream_value s = record {
    elementary_pid = s.pid;
    elementary_stream_descriptors = map (value times) s.descriptors;
    stream_type = s.stream_type;
  }

  unfoldable pub pmt_value : DescribedPmt → PmtData Time
  pmt_value d = record {
    elementary_streams = map stream_value d.streams;
    pcr_pid = d.pcr_pid;
    program_descriptors = map (value times) d.descriptors;
    program_number = d.number;
  }

  unfoldable pub stream_bytes : DescribedStream → List ℕ
  stream_bytes s =
      (s.stream_type ∷ []) ++ (pid_bytes s.pid ++ descriptors_bytes times s.descriptors)

  unfoldable pub pmt_bytes : DescribedPmt → List ℕ
  pmt_bytes d =
      pid_bytes d.pcr_pid
      ++ (descriptors_bytes times d.descriptors ++ bytes_of stream_bytes d.streams)

  length-stream_bytes :
      (s : DescribedStream) → length (stream_bytes s) ≡ 5 + list_size times s.descriptors
  unfolding stream_bytes
  length-stream_bytes s = omega (arith, length-descriptors_bytes times s.descriptors)

  pub streams_size-cons :
      (s : DescribedStream) (ss : List DescribedStream)
      → length (bytes_of stream_bytes (s ∷ ss))
        ≡ 5 + list_size times s.descriptors + length (bytes_of stream_bytes ss)
  streams_size-cons s ss =
      omega
        (arith, length-append (stream_bytes s) (bytes_of stream_bytes ss), length-stream_bytes s)

  pub length-pmt_bytes :
      (d : DescribedPmt)
      → length (pmt_bytes d)
        ≡ 4 + list_size times d.descriptors + length (bytes_of stream_bytes d.streams)
  unfolding pmt_bytes
  length-pmt_bytes d = omega (
    arith,
    length-append (descriptors_bytes times d.descriptors) (bytes_of stream_bytes d.streams),
    length-descriptors_bytes times d.descriptors,
  )

  pid-Writes :
      (x : ℕ) → x < 2 ^ 13 → Writes iw (write_reserved_pid w write_dvb_time x) (pid_bytes x) tt
  unfolding write_reserved_pid
  pid-Writes x l = record {
    run = λ out. simp (iw.write_n-at, write_reserved_pid, ◌>>=◌, ◌>>◌, append_assoc) (ground arith);
  }

  streams-Writes :
      (ss : List DescribedStream) (n : ℕ)
      → Writes iw
          (write_elementary_streams w write_dvb_time (map stream_value ss) n)
          (bytes_of stream_bytes ss)
          (n + length (bytes_of stream_bytes ss))
  unfolding write_elementary_streams stream_value stream_bytes
  streams-Writes [] n = Writes-return iw _ _ (omega arith)
  streams-Writes (s ∷ ss) n =
      let k = n + 3 + (list_size times s.descriptors + 2) in
      let rest = bytes_of stream_bytes ss in
      let body = descriptors_bytes times s.descriptors in
      Writes-bytes iw (sym (append_assoc ((s.stream_type ∷ []) ++ pid_bytes s.pid) body rest)) (
        subst
          (λ m.
            Writes iw (write_elementary_streams w write_dvb_time (map stream_value (s ∷ ss)) n)
              ((s.stream_type ∷ []) ++ (pid_bytes s.pid ++ (body ++ rest))) m)
          {x = k + length rest} (omega (arith, streams_size-cons s ss))
          (Writes-bind iw _ (s.stream_type ∷ []) _ (Writes-uint8 iw s.stream_type) (
            Writes-bind iw _ (pid_bytes s.pid) _ (pid-Writes s.pid s.pid_fits) (
              Writes-bind iw _ body _ (descriptors-Writes times s.descriptors s.descriptors_fit)
                (streams-Writes ss k)))))

  pmt-Writes_sum :
      (d : DescribedPmt)
      → Writes iw
          (write_pmt_section w write_dvb_time (pmt_value d))
          (pmt_bytes d)
          (2 + (list_size times d.descriptors + 2) + length (bytes_of stream_bytes d.streams))
  unfolding write_pmt_section pmt_value pmt_bytes
  pmt-Writes_sum d =
      Writes-bind iw _ (pid_bytes d.pcr_pid) _ (pid-Writes d.pcr_pid d.pcr_pid_fits) (
        Writes-bind iw _ (descriptors_bytes times d.descriptors) _
          (descriptors-Writes times d.descriptors d.descriptors_fit)
          (streams-Writes d.streams (2 + (list_size times d.descriptors + 2))))

  pmt-Writes :
      (d : DescribedPmt)
      → Writes iw
          (write_pmt_section w write_dvb_time (pmt_value d))
          (pmt_bytes d)
          (length (pmt_bytes d))
  pmt-Writes d =
      let k = 2 + (list_size times d.descriptors + 2) in
      subst (λ m. Writes iw (write_pmt_section w write_dvb_time (pmt_value d)) (pmt_bytes d) m)
        {x = k + length (bytes_of stream_bytes d.streams)} (omega (arith, length-pmt_bytes d))
        (pmt-Writes_sum d)

  streams_length :
      (ss : List DescribedStream) (n : ℕ)
      → n + length (bytes_of stream_bytes ss) < 2 ^ 16
      → calc_streams_length (map stream_value ss) (ok n)
        ≡ ok (n + length (bytes_of stream_bytes ss))
  unfolding calc_streams_length stream_value
  streams_length [] n l = ap (λ (k : ℕ). ok k) {x = n} {y = n + 0} (omega arith)
  streams_length (s ∷ ss) n l =
      let c = streams_size-cons s ss in
      let f = s.descriptors_fit in
      let k = n + 5 + list_size times s.descriptors in
      let m : k % 2 ^ 16 ≡ k = omega arith in
      rw (calc_streams_length, calc_descriptors_length-written times s.descriptors (omega arith), m)
        (streams_length ss k (omega arith)
          ∙ ap (λ (k : ℕ). ok k) {x = k + length (bytes_of stream_bytes ss)}
              {y = n + length (bytes_of stream_bytes (s ∷ ss))} (omega arith))

  section_length :
      (d : DescribedPmt)
      → length (pmt_bytes d) < 2 ^ 16
      → calc_pmt_section_length (pmt_value d) ≡ ok (length (pmt_bytes d))
  unfolding calc_pmt_section_length pmt_value
  section_length d l =
      let c = length-pmt_bytes d in
      let f = d.descriptors_fit in
      let k = 4 + list_size times d.descriptors in
      let m : k % 2 ^ 16 ≡ k = omega arith in
      rw (calc_descriptors_length-written times d.descriptors (omega arith), m)
        (streams_length d.streams k (omega arith)
          ∙ ap (λ (k : ℕ). ok k) {x = k + length (bytes_of stream_bytes d.streams)}
              {y = length (pmt_bytes d)} (omega arith))

  stream-Reads :
      (s : DescribedStream)
      → Reads ir (parse_elementary_stream r parse_dvb_time) (stream_bytes s) (stream_value s)
  unfolding parse_elementary_stream stream_bytes stream_value
  stream-Reads s = Reads-bind ir _ (s.stream_type ∷ []) _ (Reads-byte ir s.stream_type) (
      Reads-bind ir _ (pid_bytes s.pid) _ (Reads-bytes ir 2 (pid_bytes s.pid) (omega arith) refl) (
        rw (pid_of_bytes-pid_bytes s.pid s.pid_fits) (
          Reads-last ir _ (descriptors-Reads times s.descriptors s.descriptors_fit)
            (Reads-pure ir _))))

  every_stream :
      (ss : List DescribedStream)
      → All
          (λ s.
            Reads ir (parse_elementary_stream r parse_dvb_time) (stream_bytes s) (stream_value s))
          ss
  every_stream [] = tt
  every_stream (s ∷ ss) = (stream-Reads s, every_stream ss)

  pmt-ReadsTo :
      (d : DescribedPmt) (e : ℕ)
      → ReadsTo ir e (parse_pmt_section r parse_dvb_time e d.number) (pmt_bytes d) (pmt_value d)
  unfolding parse_pmt_section pmt_bytes pmt_value
  pmt-ReadsTo d e =
      ReadsTo-bind ir e _ (pid_bytes d.pcr_pid) _
        (Reads-bytes ir 2 (pid_bytes d.pcr_pid) (omega arith) refl)
        (rw (pid_of_bytes-pid_bytes d.pcr_pid d.pcr_pid_fits) (
          ReadsTo-bind ir e _ (descriptors_bytes times d.descriptors) _
            (descriptors-Reads times d.descriptors d.descriptors_fit)
            (ReadsTo-last ir e _
              (values-ReadsTo ir (parse_elementary_stream r parse_dvb_time) stream_value
                stream_bytes (λ s. omega (arith, length-stream_bytes s)) e d.streams
                (every_stream d.streams))
              refl)))

  -- A program map whose numbers and descriptors fit their fields, of fewer than 65536 bytes, is
  -- written by `writePMTSection` in as many bytes as it says and as `calcPMTSectionLength` says, and
  -- `parsePMTSection`, told where they end, reads it back.
  pub parse_pmt_section-write_pmt_section :
      (d : DescribedPmt)
      → length (pmt_bytes d) < 2 ^ 16
      → (calc_pmt_section_length (pmt_value d) ≡ ok (length (pmt_bytes d)))
        × Writes iw
            (write_pmt_section w write_dvb_time (pmt_value d))
            (pmt_bytes d)
            (length (pmt_bytes d))
        × ((e : ℕ)
            → ReadsTo ir e
                (parse_pmt_section r parse_dvb_time e d.number)
                (pmt_bytes d)
                (pmt_value d))
  parse_pmt_section-write_pmt_section d l = (section_length d l, pmt-Writes d, pmt-ReadsTo d)
