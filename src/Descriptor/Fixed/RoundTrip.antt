-- ===== src/Descriptor/Fixed/RoundTrip.antt =====
-- The descriptors of a fixed shape, written and read.
use go_astits.Base.{
  ℕ, ◌+◌, ◌*◌, ◌/◌, ◌%◌, ◌^◌, ◌<◌, ◌≡◌, refl, ap, ◌∙◌, List, [], ◌∷◌, ◌++◌, length, append_assoc,
  length-append, arith, ◌>>=◌, ◌>>◌, M, some, bit_and,
}
use go_astits.Bits.{has_bit, digit, digit-le, has_bit-digit, bit_and_mask, bit_or_disjoint, or_next}
use go_astits.Astikit.{BytesIterator, IsBytesIterator, BitsWriter, IsBitsWriter}
use go_astits.Codec.{
  Reads, Reads-bind, Reads-last, Reads-return, Reads-pure, Reads-byte, Reads-bytes, Writes,
  Writes-bind, Writes-uint8,
}
use go_astits.Cursor.Reads.{
  ReadsTo, Reads-ReadsTo, ReadsTo-bind, ReadsTo-last, bytes_left-ReadsTo, bytes_to-ReadsTo,
}
use go_astits.Descriptor.Frame.{Carries, carries, Writes-plain, Writes-padded}
use go_astits.Descriptor.Frame.{uint32_bytes, uint32_of_bytes-uint32_bytes, Writes-uint32}
use go_astits.Descriptor.Fixed.{
  DescriptorAvcVideo, DescriptorDataStreamAlignment, DescriptorIso639LanguageAndAudioType,
  DescriptorPrivateDataIndicator, DescriptorPrivateDataSpecifier, DescriptorRegistration,
  DescriptorStreamIdentifier, split_last, new_descriptor_avc_video,
  new_descriptor_data_stream_alignment, new_descriptor_iso639_language_and_audio_type,
  new_descriptor_maximum_bitrate, new_descriptor_private_data_indicator,
  new_descriptor_private_data_specifier, new_descriptor_registration,
  new_descriptor_stream_identifier, calc_descriptor_registration_length, write_avc_constraints,
  write_avc_flags, write_descriptor_avc_video, write_descriptor_data_stream_alignment,
  write_descriptor_iso639_language_and_audio_type, write_descriptor_maximum_bitrate,
  write_descriptor_private_data_indicator, write_descriptor_private_data_specifier,
  write_descriptor_registration, write_descriptor_stream_identifier,
}

constraints_byte : DescriptorAvcVideo → ℕ
constraints_byte d =
    digit d.constraint_set0_flag * 128
    + digit d.constraint_set1_flag * 64
    + digit d.constraint_set2_flag * 32
    + d.compatible_flags

still_byte : DescriptorAvcVideo → ℕ
still_byte d = digit d.avc_still_present * 128 + digit d.avc_24_hour_picture_flag * 64 + 63

abbrev avc_bytes : DescriptorAvcVideo → List ℕ
avc_bytes d = d.profile_idc ∷ constraints_byte d ∷ d.level_idc ∷ still_byte d ∷ []

bitrate_bytes : ℕ → List ℕ
bitrate_bytes k = (192 + k / 2 ^ 16) ∷ k / 2 ^ 8 % 256 ∷ k % 256 ∷ []

split_last-append : (xs : List ℕ) (x : ℕ) → split_last (xs ++ (x ∷ [])) ≡ some (xs, x)
unfolding split_last
split_last-append [] x = refl
split_last-append (y ∷ xs) x = rw (split_last-append xs x) refl

module _ {w : BitsWriter} (iw : IsBitsWriter w) where
  constraints-Writes :
      (d : DescriptorAvcVideo)
      → d.compatible_flags < 32
      → Writes iw (write_avc_constraints w d) (constraints_byte d ∷ []) tt
  unfolding write_avc_constraints constraints_byte
  constraints-Writes d v =
      let a = digit-le d.constraint_set0_flag in
      let b = digit-le d.constraint_set1_flag in
      let c = digit-le d.constraint_set2_flag in
      record {
        run = λ out.
            simp (iw.write_n-at, iw.write_bool-at, write_avc_constraints, ◌>>=◌, ◌>>◌)
              (ground arith);
      }

  still-Writes : (d : DescriptorAvcVideo) → Writes iw (write_avc_flags w d) (still_byte d ∷ []) tt
  unfolding write_avc_flags still_byte
  still-Writes d =
      let a = digit-le d.avc_still_present in
      let b = digit-le d.avc_24_hour_picture_flag in
      record {
        run = λ out.
            simp (iw.write_n-at, iw.write_bool-at, write_avc_flags, ◌>>=◌, ◌>>◌) (ground arith);
      }

  bitrate-Writes :
      (k : ℕ)
      → k < 2 ^ 22
      → Writes iw
          (write_descriptor_maximum_bitrate w (record { bitrate = k * 50 }))
          (bitrate_bytes k)
          tt
  unfolding write_descriptor_maximum_bitrate bitrate_bytes
  bitrate-Writes k l =
      let q : k * 50 / 50 ≡ k = omega arith in
      record {
        run = λ out.
            simp (iw.write_n-at, write_descriptor_maximum_bitrate, ◌>>=◌, ◌>>◌, append_assoc)
              (ground arith);
      }

module _ {r : BytesIterator} (ir : IsBytesIterator r) where
  avc-Reads :
      (d : DescriptorAvcVideo)
      → d.compatible_flags < 32
      → Reads ir (new_descriptor_avc_video r) (avc_bytes d) d
  unfolding new_descriptor_avc_video constraints_byte still_byte
  avc-Reads d v =
      let a = digit-le d.constraint_set0_flag in
      let b = digit-le d.constraint_set1_flag in
      let c = digit-le d.constraint_set2_flag in
      let f = digit-le d.avc_still_present in
      let g = digit-le d.avc_24_hour_picture_flag in
      let x = constraints_byte d in
      let y = still_byte d in
      let h0 : has_bit x 0x80 ≡ d.constraint_set0_flag = has_bit-digit 7 x _ (omega arith) in
      let h1 : has_bit x 0x40 ≡ d.constraint_set1_flag = has_bit-digit 6 x _ (omega arith) in
      let h2 : has_bit x 0x20 ≡ d.constraint_set2_flag = has_bit-digit 5 x _ (omega arith) in
      let h3 : bit_and x 0x1f ≡ d.compatible_flags = bit_and_mask 5 x ∙ omega arith in
      let h4 : has_bit y 0x80 ≡ d.avc_still_present = has_bit-digit 7 y _ (omega arith) in
      let h5 : has_bit y 0x40 ≡ d.avc_24_hour_picture_flag = has_bit-digit 6 y _ (omega arith) in
      Reads-bind ir _ (d.profile_idc ∷ []) _ (Reads-byte ir d.profile_idc) (
        Reads-bind ir _ (x ∷ []) _ (Reads-byte ir x) (
          Reads-bind ir _ (d.level_idc ∷ []) _ (Reads-byte ir d.level_idc)
            (Reads-last ir _ (Reads-byte ir y) (rw (h0, h1, h2, h3, h4, h5) (Reads-pure ir d)))))

  bitrate-Reads :
      (k : ℕ)
      → k < 2 ^ 22
      → Reads ir (new_descriptor_maximum_bitrate r) (bitrate_bytes k) (record { bitrate = k * 50 })
  unfolding new_descriptor_maximum_bitrate bitrate_bytes
  bitrate-Reads k l =
      let x = 192 + k / 2 ^ 16 in
      let p1 =
        bit_or_disjoint 16 (x % 64 * 2 ^ 16) (k / 2 ^ 8 % 256 * 2 ^ 8) (omega arith)
          (omega arith) in
      let p2 = or_next 8 (k % 256) p1 (omega arith) (omega arith) in
      Reads-last ir _ (Reads-bytes ir 3 (bitrate_bytes k) (omega arith) refl) (
        Reads-return ir _ _
          (ap (λ n. record { bitrate = n }) (rw (bit_and_mask 6 x, p2) (omega arith))))

module _ {w : BitsWriter} (iw : IsBitsWriter w) {r : BytesIterator} (ir : IsBytesIterator r) where
  -- A part that does not look where it ends.
  same :
      {A : Type 0} {p : M r.Iter A} {xs : List ℕ} {a : A}
      → Reads ir p xs a
      → (e : ℕ) → ReadsTo ir e p xs a
  same h e = Reads-ReadsTo ir e h

  pub avc_video-Carries :
      (d : DescriptorAvcVideo)
      → d.compatible_flags < 32
      → Carries iw ir (write_descriptor_avc_video w d) 4 (λ e. new_descriptor_avc_video r) d
  unfolding write_descriptor_avc_video
  avc_video-Carries d v =
      carries iw ir (avc_bytes d) refl
        (Writes-bind iw _ (d.profile_idc ∷ []) _ (Writes-uint8 iw d.profile_idc) (
          Writes-bind iw _ (constraints_byte d ∷ []) _ (constraints-Writes iw d v) (
            Writes-bind iw _ (d.level_idc ∷ []) _ (Writes-uint8 iw d.level_idc)
              (still-Writes iw d))))
        (same (avc-Reads ir d v))

  pub data_stream_alignment-Carries :
      (d : DescriptorDataStreamAlignment)
      → Carries iw ir
          (write_descriptor_data_stream_alignment w d)
          1
          (λ e. new_descriptor_data_stream_alignment r)
          d
  unfolding write_descriptor_data_stream_alignment new_descriptor_data_stream_alignment
  data_stream_alignment-Carries d =
      let x = d.alignment_type in
      carries iw ir (x ∷ []) refl (Writes-uint8 iw x)
        (same (Reads-last ir _ (Reads-byte ir x) (Reads-pure ir d)))

  pub stream_identifier-Carries :
      (d : DescriptorStreamIdentifier)
      → Carries iw ir
          (write_descriptor_stream_identifier w d)
          1
          (λ e. new_descriptor_stream_identifier r)
          d
  unfolding write_descriptor_stream_identifier new_descriptor_stream_identifier
  stream_identifier-Carries d =
      let x = d.component_tag in
      carries iw ir (x ∷ []) refl (Writes-uint8 iw x)
        (same (Reads-last ir _ (Reads-byte ir x) (Reads-pure ir d)))

  pub iso639-Carries :
      (d : DescriptorIso639LanguageAndAudioType)
      → length d.language ≡ 3
      → Carries iw ir
          (write_descriptor_iso639_language_and_audio_type w d)
          4
          (new_descriptor_iso639_language_and_audio_type r)
          d
  unfolding write_descriptor_iso639_language_and_audio_type
      new_descriptor_iso639_language_and_audio_type
  iso639-Carries d v =
      let xs = d.language ++ (d.audio_type ∷ []) in
      let n : length xs ≡ 4 = omega (arith, length-append d.language (d.audio_type ∷ [])) in
      carries iw ir xs n
        (Writes-bind iw _ d.language _ (Writes-padded iw 3 d.language v)
          (Writes-uint8 iw d.audio_type))
        (λ e.
          ReadsTo-last ir e _ (bytes_to-ReadsTo ir e xs (omega arith))
            (rw (split_last-append d.language d.audio_type) refl))

  pub maximum_bitrate-Carries :
      (k : ℕ)
      → k < 2 ^ 22
      → Carries iw ir
          (write_descriptor_maximum_bitrate w (record { bitrate = k * 50 }))
          3
          (λ e. new_descriptor_maximum_bitrate r)
          (record { bitrate = k * 50 })
  unfolding bitrate_bytes
  maximum_bitrate-Carries k l =
      carries iw ir (bitrate_bytes k) refl (bitrate-Writes iw k l) (same (bitrate-Reads ir k l))

  pub private_data_indicator-Carries :
      (d : DescriptorPrivateDataIndicator)
      → d.indicator < 2 ^ 32
      → Carries iw ir
          (write_descriptor_private_data_indicator w d)
          4
          (λ e. new_descriptor_private_data_indicator r)
          d
  unfolding write_descriptor_private_data_indicator new_descriptor_private_data_indicator
      uint32_bytes
  private_data_indicator-Carries d l =
      let x = d.indicator in
      carries iw ir (uint32_bytes x) refl (Writes-uint32 iw x) (
        same (
          Reads-last ir _ (Reads-bytes ir 4 (uint32_bytes x) (omega arith) refl)
            (rw (uint32_of_bytes-uint32_bytes x l) (Reads-pure ir d))))

  pub private_data_specifier-Carries :
      (d : DescriptorPrivateDataSpecifier)
      → d.specifier < 2 ^ 32
      → Carries iw ir
          (write_descriptor_private_data_specifier w d)
          4
          (λ e. new_descriptor_private_data_specifier r)
          d
  unfolding write_descriptor_private_data_specifier new_descriptor_private_data_specifier
      uint32_bytes
  private_data_specifier-Carries d l =
      let x = d.specifier in
      carries iw ir (uint32_bytes x) refl (Writes-uint32 iw x) (
        same (
          Reads-last ir _ (Reads-bytes ir 4 (uint32_bytes x) (omega arith) refl)
            (rw (uint32_of_bytes-uint32_bytes x l) (Reads-pure ir d))))

  pub registration-Carries :
      (d : DescriptorRegistration)
      → d.format_identifier < 2 ^ 32
      → length d.additional_identification_info < 252
      → Carries iw ir
          (write_descriptor_registration w d)
          (calc_descriptor_registration_length d)
          (new_descriptor_registration r)
          d
  unfolding write_descriptor_registration new_descriptor_registration
      calc_descriptor_registration_length uint32_bytes
  registration-Carries d l k =
      let x = d.format_identifier in
      let info = d.additional_identification_info in
      carries iw ir (uint32_bytes x ++ info) (omega arith)
        (Writes-bind iw _ (uint32_bytes x) _ (Writes-uint32 iw x) (Writes-plain iw info))
        (λ e.
          ReadsTo-bind ir e _ (uint32_bytes x) _
            (Reads-bytes ir 4 (uint32_bytes x) (omega arith) refl)
            (rw (uint32_of_bytes-uint32_bytes x l)
              (ReadsTo-last ir e _ (bytes_left-ReadsTo ir e info) refl)))
