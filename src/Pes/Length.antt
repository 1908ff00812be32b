-- ===== src/Pes/Length.antt =====
-- The length that the optional header states against the bytes that are written behind it.
use go_astits.Base.{
  ℕ, ◌+◌, ◌-◌, ◌*◌, ◌/◌, ◌%◌, ◌^◌, ◌<◌, ◌≤◌, ◌≡◌, refl, sym, ◌∙◌, arith, Bool, true, false, ◌==◌,
  ◌||◌, if◌then◌else◌, Option, none, some, List, [], ◌∷◌, ◌++◌, length, take, replicate,
  length-append, length-take, length-replicate, append_assoc, M, pure, when, deref, ◌>>=◌, ◌>>◌,
}
use go_astits.Bits.{digit, digit-le}
use go_astits.Astikit.{BitsWriter, IsBitsWriter}
use go_astits.Codec.{Writes, Writes-bind, Writes-return}
use go_astits.Clock.{ClockReference, write_pts_or_dts, write_escr}
use go_astits.Clock.RoundTrip.{
  IsClock, IsTimestamp, pts_or_dts_bytes, escr_bytes, write_pts_or_dts-Writes, write_escr-Writes,
}
use go_astits.Packet.Field.Layout.{IsPart}
use go_astits.Pes.{
  DsmTrickMode, PesOptionalHeader, pts_dts_indicator_only_pts, pts_dts_indicator_both_present,
}
use go_astits.Pes.TrickMode.{IsTrickMode, parse_dsm_trick_mode-write_dsm_trick_mode}
use go_astits.Pes.Write.{
  calc_pes_optional_header_data_length, write_dsm_trick_mode, write_timestamps, write_es_rate,
  write_additional_copy_info, write_extension_flags, write_private_data, write_sequence_counter,
  write_pstd_buffer, write_extension2, write_extension2_head, write_extension, write_optional_parts,
}

-- The pointers that the flags announce are set, to values that can be written, and the data of the
-- second extension fits its length of seven bits.
pub record IsWritable (h : PesOptionalHeader) : Type 0 where
  pub pts_part :
      IsPart IsTimestamp
        ((h.pts_dts_indicator == pts_dts_indicator_only_pts)
          || (h.pts_dts_indicator == pts_dts_indicator_both_present))
        h.pts
  pub dts_part : IsPart IsTimestamp (h.pts_dts_indicator == pts_dts_indicator_both_present) h.dts
  pub escr_part : IsPart IsClock h.has_escr h.escr
  pub trick_part : IsPart IsTrickMode h.has_dsm_trick_mode h.dsm_trick_mode
  pub extension2_fits : length h.extension2_data < 2 ^ 7

abbrev pub part_size : Bool → ℕ → ℕ
part_size true n = n
part_size false n = 0

abbrev pub stamps_size : Bool → Bool → ℕ
stamps_size true b = 5
stamps_size false b = part_size b 10

part_size-if : (b : Bool) (n : ℕ) → (if b then n else 0) ≡ part_size b n
part_size-if true n = refl
part_size-if false n = refl

stamps_size-if : (a b : Bool) → ◌≡◌ {A = ℕ} (if a then 5 else if b then 10 else 0) (stamps_size a b)
stamps_size-if true b = refl
stamps_size-if false true = refl
stamps_size-if false false = refl

part_size-le : (b : Bool) (n : ℕ) → part_size b n ≤ n
part_size-le true n = omega arith
part_size-le false n = omega arith

stamps_size-le : (a b : Bool) → stamps_size a b ≤ 10
stamps_size-le true b = omega arith
stamps_size-le false b = part_size-le b 10

module _ {w : BitsWriter} (iw : IsBitsWriter w) where
  -- `m` puts out `k` bytes, and gives `a`.
  pub record Emits {ℓ} {A : Type ℓ} (m : M w.Writer A) (k : ℕ) (a : A) : Type ℓ where
    pub bytes : List ℕ
    pub counted : length bytes ≡ k
    pub written : Writes iw m bytes a

  emits {ℓ} :
      {A : Type ℓ} {m : M w.Writer A} {k : ℕ} {a : A} (bs : List ℕ)
      → length bs ≡ k
      → Writes iw m bs a
      → Emits m k a
  emits bs e h = record { bytes = bs; counted = e; written = h }

  Emits-bind {ℓ κ} :
      {A : Type ℓ} {B : Type κ} {m : M w.Writer A} (f : A → M w.Writer B) {k n : ℕ} {a : A} {b : B}
      → Emits m k a
      → Emits (f a) n b
      → Emits (m >>= f) (k + n) b
  Emits-bind f {k} {n} x y = record {
    bytes = x.bytes ++ y.bytes;
    counted = omega (arith, length-append x.bytes y.bytes, x.counted, y.counted);
    written = Writes-bind iw f x.bytes y.bytes x.written y.written;
  }

  Emits-pure {ℓ} : {A : Type ℓ} (a : A) → Emits (pure a) 0 a
  Emits-pure a = emits [] refl (Writes-return iw a a refl)

  timestamps-Emits :
      (a b : Bool) (pts dts : Option ClockReference)
      → IsPart IsTimestamp (a || b) pts
      → IsPart IsTimestamp b dts
      → Emits
          (if a
            then (do p ← deref pts; write_pts_or_dts w 0b0010 p)
            else if b
            then (do
              p ← deref pts
              n ← write_pts_or_dts w 0b0011 p
              d ← deref dts
              k ← write_pts_or_dts w 0b0001 d
              pure (n + k))
            else pure 0)
          (stamps_size a b)
          (stamps_size a b)
  unfolding pts_or_dts_bytes
  timestamps-Emits true b (some p) dts h g =
      emits (pts_or_dts_bytes 2 p) refl (write_pts_or_dts-Writes iw 2 p (omega arith) h)
  timestamps-Emits true b none dts h g = absurd h
  timestamps-Emits false true (some p) (some d) h g =
      Emits-bind _
        (emits (pts_or_dts_bytes 3 p) refl (write_pts_or_dts-Writes iw 3 p (omega arith) h))
        (Emits-bind _
          (emits (pts_or_dts_bytes 1 d) refl (write_pts_or_dts-Writes iw 1 d (omega arith) g))
          (Emits-pure 10))
  timestamps-Emits false true none dts h g = absurd h
  timestamps-Emits false true (some p) none h g = absurd g
  timestamps-Emits false false pts dts h g = Emits-pure 0

  escr-Emits :
      (b : Bool) (o : Option ClockReference)
      → IsPart IsClock b o
      → Emits (when b 0 (do escr ← deref o; write_escr w escr)) (part_size b 6) (part_size b 6)
  unfolding escr_bytes
  escr-Emits true (some cr) h = emits (escr_bytes cr) refl (write_escr-Writes iw cr h)
  escr-Emits true none h = absurd h
  escr-Emits false o h = Emits-pure 0

  trick-Emits :
      (b : Bool) (o : Option DsmTrickMode)
      → IsPart IsTrickMode b o
      → Emits (when b 0 (do m ← deref o; write_dsm_trick_mode w m)) (part_size b 1) (part_size b 1)
  trick-Emits true (some m) h =
      let (b, u, e) = parse_dsm_trick_mode-write_dsm_trick_mode iw m h in emits (b ∷ []) refl u
  trick-Emits true none h = absurd h
  trick-Emits false o h = Emits-pure 0

  when-Emits :
      (b : Bool) {m : M w.Writer ℕ} {n : ℕ}
      → Emits m n n
      → Emits (when b 0 m) (part_size b n) (part_size b n)
  when-Emits true e = e
  when-Emits false e = Emits-pure 0

  -- The same bytes, counted another way.
  again {ℓ} : {A : Type ℓ} {m : M w.Writer A} {k n : ℕ} {a : A} → Emits m k a → k ≡ n → Emits m n a
  again x e = record { bytes = x.bytes; counted = x.counted ∙ e; written = x.written }

  module _ (h : PesOptionalHeader) where
    es_rate-Emits : Emits (write_es_rate w h) 3 3
    unfolding write_es_rate
    es_rate-Emits =
        let x = h.es_rate % 2 ^ 22 in
        emits ((128 + x / 2 ^ 15) ∷ x / 2 ^ 7 % 256 ∷ (x % 128 * 2 + 1) ∷ []) (refl) (record {
          run = λ out.
              simp (iw.write_n-at, iw.write_bool-at, write_es_rate, ◌>>=◌, ◌>>◌, append_assoc)
                (ground arith);
        })

    info-Emits : Emits (write_additional_copy_info w h) 1 1
    unfolding write_additional_copy_info
    info-Emits = emits ((128 + h.additional_copy_info % 128) ∷ []) refl (record {
      run = λ out.
          simp
            (iw.write_n-at, iw.write_bool-at, write_additional_copy_info, ◌>>=◌, ◌>>◌, append_assoc)
            (ground arith);
    })

    flags-Emits : Emits (write_extension_flags w h) 1 1
    unfolding write_extension_flags
    flags-Emits =
        let p = digit-le h.has_private_data in
        let q = digit-le h.has_program_packet_sequence_counter in
        let s = digit-le h.has_pstd_buffer in
        let t = digit-le h.has_extension2 in
        emits
          ((digit h.has_private_data * 128
              + digit h.has_program_packet_sequence_counter * 32
              + digit h.has_pstd_buffer * 16
              + 14
              + digit h.has_extension2)
            ∷ [])
          (refl)
          (record {
            run = λ out.
                simp
                  (
                    iw.write_n-at, iw.write_bool-at, write_extension_flags, ◌>>=◌, ◌>>◌,
                    append_assoc,
                  )
                  (ground arith);
          })

    private-Emits : Emits (write_private_data w h) 16 16
    unfolding write_private_data
    private-Emits =
        let xs = h.private_data in
        emits (take 16 xs ++ replicate (16 - length xs) 0)
          (omega (
            arith,
            length-append (take 16 xs) (replicate (16 - length xs) 0),
            length-take 16 xs,
            length-replicate {0} {A = ℕ} (16 - length xs) 0,
          ))
          (record { run = λ out. rw (iw.write_bytes_n-at xs 16 0 out, ◌>>=◌) refl })

    sequence-Emits : Emits (write_sequence_counter w h) 2 2
    unfolding write_sequence_counter
    sequence-Emits =
        emits
          ((128 + h.packet_sequence_counter % 128)
            ∷ (128 + h.mpeg1_or_mpeg2_id % 2 * 64 + h.original_stuffing_length % 64)
            ∷ [])
          refl
          (record {
            run = λ out.
                simp
                  (
                    iw.write_n-at, iw.write_bool-at, write_sequence_counter, ◌>>=◌, ◌>>◌,
                    append_assoc,
                  )
                  (ground arith);
          })

    pstd-Emits : Emits (write_pstd_buffer w h) 2 2
    unfolding write_pstd_buffer
    pstd-Emits =
        let x = h.pstd_buffer_size % 2 ^ 13 in
        emits ((64 + h.pstd_buffer_scale % 2 * 32 + x / 256) ∷ x % 256 ∷ []) (refl) (record {
          run = λ out.
              simp (iw.write_n-at, write_pstd_buffer, ◌>>=◌, ◌>>◌, append_assoc) (ground arith);
        })

    extension2_head-Writes :
        length h.extension2_data < 2 ^ 7
        → Writes iw (write_extension2_head w h) ((128 + length h.extension2_data) ∷ []) tt
    unfolding write_extension2_head
    extension2_head-Writes l = record {
      run = λ out.
          simp (iw.write_n-at, iw.write_bool-at, write_extension2_head, ◌>>=◌, ◌>>◌) (ground arith);
    }

    extension2-Emits :
        length h.extension2_data < 2 ^ 7
        → Emits (write_extension2 w h) (1 + length h.extension2_data) (1 + length h.extension2_data)
    unfolding write_extension2
    extension2-Emits l =
        emits ((128 + length h.extension2_data) ∷ h.extension2_data) (omega arith) (
          Writes-bind iw _ ((128 + length h.extension2_data) ∷ []) h.extension2_data
            (extension2_head-Writes l)
            (record { run = λ out. rw (iw.write_bytes-at h.extension2_data out, ◌>>=◌) refl }))

    abbrev extension_size : ℕ
    extension_size =
        1
        + part_size h.has_private_data 16
        + part_size h.has_program_packet_sequence_counter 2
        + part_size h.has_pstd_buffer 2
        + part_size h.has_extension2 (1 + length h.extension2_data)

    extension-Emits : IsWritable h → Emits (write_extension w h) extension_size extension_size
    unfolding write_extension
    extension-Emits v =
        again
          (Emits-bind _ flags-Emits (
            Emits-bind _ (when-Emits h.has_private_data private-Emits) (
              Emits-bind _ (when-Emits h.has_program_packet_sequence_counter sequence-Emits) (
                Emits-bind _ (when-Emits h.has_pstd_buffer pstd-Emits) (
                  Emits-bind _ (when-Emits h.has_extension2 (extension2-Emits v.extension2_fits))
                    (Emits-pure extension_size))))))
          (omega arith)

    abbrev parts_size : ℕ
    parts_size =
        stamps_size (h.pts_dts_indicator == pts_dts_indicator_only_pts)
          (h.pts_dts_indicator == pts_dts_indicator_both_present)
        + part_size h.has_escr 6
        + part_size h.has_es_rate 3
        + part_size h.has_dsm_trick_mode 1
        + part_size h.has_additional_copy_info 1
        + part_size h.has_extension extension_size

    parts_size-calc : IsWritable h → parts_size ≡ calc_pes_optional_header_data_length h
    unfolding calc_pes_optional_header_data_length
    parts_size-calc v =
        let second = 1 + length h.extension2_data in
        sym (
          rw
            (
              stamps_size-if (h.pts_dts_indicator == 2) (h.pts_dts_indicator == 3),
              part_size-if h.has_escr 6,
              part_size-if h.has_es_rate 3,
              part_size-if h.has_dsm_trick_mode 1,
              part_size-if h.has_additional_copy_info 1,
              part_size-if h.has_private_data 16,
              part_size-if h.has_program_packet_sequence_counter 2,
              part_size-if h.has_pstd_buffer 2,
              part_size-if h.has_extension2 second,
              part_size-if h.has_extension extension_size,
            )
            (omega (
              arith,
              stamps_size-le (h.pts_dts_indicator == 2) (h.pts_dts_indicator == 3),
              part_size-le h.has_escr 6,
              part_size-le h.has_es_rate 3,
              part_size-le h.has_dsm_trick_mode 1,
              part_size-le h.has_additional_copy_info 1,
              part_size-le h.has_private_data 16,
              part_size-le h.has_program_packet_sequence_counter 2,
              part_size-le h.has_pstd_buffer 2,
              part_size-le h.has_extension2 second,
              part_size-le h.has_extension extension_size,
            )))

    -- Of an optional header that can be written, the length that is calculated, and written before
    -- the parts, is the number of bytes that the parts take, and the number that is returned.
    pub write_optional_parts-Emits :
        IsWritable h
        → Emits
            (write_optional_parts w h)
            (calc_pes_optional_header_data_length h)
            (calc_pes_optional_header_data_length h)
    unfolding write_optional_parts write_timestamps
    write_optional_parts-Emits v = rw (← parts_size-calc v) (
        again
          (Emits-bind _
            (timestamps-Emits (h.pts_dts_indicator == pts_dts_indicator_only_pts)
              (h.pts_dts_indicator == pts_dts_indicator_both_present) h.pts h.dts v.pts_part
              v.dts_part)
            (Emits-bind _ (escr-Emits h.has_escr h.escr v.escr_part) (
              Emits-bind _ (when-Emits h.has_es_rate es_rate-Emits) (
                Emits-bind _ (trick-Emits h.has_dsm_trick_mode h.dsm_trick_mode v.trick_part) (
                  Emits-bind _ (when-Emits h.has_additional_copy_info info-Emits) (
                    Emits-bind _ (when-Emits h.has_extension (extension-Emits v))
                      (Emits-pure parts_size)))))))
          (omega arith))
