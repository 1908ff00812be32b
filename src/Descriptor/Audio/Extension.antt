-- ===== src/Descriptor/Audio/Extension.antt =====
-- The extension descriptor, with supplementary audio or as it is, written and read.
use go_astits.Base.{
  ℕ, ◌+◌, ◌*◌, ◌/◌, ◌%◌, ◌^◌, ◌<◌, ◌≤◌, ◌≡◌, refl, ◌∙◌, Bool, true, false, List, [], ◌∷◌, ◌++◌,
  length, length-append, arith, ◌>>=◌, ◌>>◌, when, ◌==◌, none, some, bit_and,
}
use go_astits.Bits.{has_bit, digit, digit-le, has_bit-digit, bit_and_mask}
use go_astits.Astikit.{BytesIterator, IsBytesIterator, BitsWriter, IsBitsWriter}
use go_astits.Codec.{
  Reads, Reads-byte, Reads-bytes, Reads-pure, Writes-if_false, Writes, Writes-bind, Writes-uint8,
  Writes-return,
}
use go_astits.Cursor.Reads.{
  ReadsTo, ReadsTo-bind, ReadsTo-last, bytes_left-ReadsTo, bytes_to-ReadsTo,
}
use go_astits.Descriptor.Frame.{Carries, carries, Writes-plain, Writes-padded}
use go_astits.Descriptor.Audio.{
  if_set, DescriptorExtensionSupplementaryAudio, DescriptorExtension,
  new_descriptor_extension_supplementary_audio, new_descriptor_extension,
  calc_descriptor_extension_supplementary_audio_length, write_supplementary_audio_flags,
  write_descriptor_extension_supplementary_audio, write_unknown_extension,
  write_descriptor_extension,
}

-- A language code of three bytes, or none, as the flag says.
pub record IsSupplementaryAudio (d : DescriptorExtensionSupplementaryAudio) : Type 0 where
  pub code_set : length d.language_code ≡ if_set d.has_language_code 3
  pub classification_fits : d.editorial_classification < 32
  pub fits : length d.private_data < 251

abbrev audio_flags : DescriptorExtensionSupplementaryAudio → ℕ
audio_flags d =
    digit d.mix_type * 128 + d.editorial_classification * 4 + 2 + digit d.has_language_code

abbrev audio_bytes : DescriptorExtensionSupplementaryAudio → List ℕ
audio_bytes d = (audio_flags d ∷ []) ++ (d.language_code ++ d.private_data)

if_set-le : (b : Bool) → if_set b 3 ≤ 3
if_set-le true = omega arith
if_set-le false = omega arith

no_bytes : (xs : List ℕ) → length xs ≡ 0 → xs ≡ []
no_bytes [] h = refl
no_bytes (x ∷ xs) h = absurd (omega arith)

module _ {w : BitsWriter} (iw : IsBitsWriter w) where
  code-Writes :
      (b : Bool) (xs : List ℕ)
      → length xs ≡ if_set b 3
      → Writes iw (when b tt (w.write_bytes_n xs 3 0)) xs tt
  code-Writes true xs h = Writes-padded iw 3 xs h
  code-Writes false xs h = rw (no_bytes xs h) (Writes-return iw tt tt refl)

  audio_flags-Writes :
      (d : DescriptorExtensionSupplementaryAudio)
      → IsSupplementaryAudio d
      → Writes iw (write_supplementary_audio_flags w d) (audio_flags d ∷ []) tt
  unfolding write_supplementary_audio_flags
  audio_flags-Writes d v =
      let a = digit-le d.mix_type in
      let b = digit-le d.has_language_code in
      let c = v.classification_fits in
      record {
        run = λ out.
            simp (iw.write_n-at, iw.write_bool-at, write_supplementary_audio_flags, ◌>>=◌, ◌>>◌)
              (ground arith);
      }

  audio-Writes :
      (d : DescriptorExtensionSupplementaryAudio)
      → IsSupplementaryAudio d
      → Writes iw (write_descriptor_extension_supplementary_audio w d) (audio_bytes d) tt
  unfolding write_descriptor_extension_supplementary_audio
  audio-Writes d v = Writes-bind iw _ (audio_flags d ∷ []) _ (audio_flags-Writes d v) (
      Writes-bind iw _ d.language_code _
        (code-Writes d.has_language_code d.language_code v.code_set)
        (Writes-plain iw d.private_data))

module _ {r : BytesIterator} (ir : IsBytesIterator r) where
  code-Reads :
      (b : Bool) (xs : List ℕ)
      → length xs ≡ if_set b 3
      → Reads ir (when b [] (r.next_bytes 3)) xs xs
  code-Reads true xs h = Reads-bytes ir 3 xs (omega arith) h
  code-Reads false xs h = rw (no_bytes xs h) (Reads-pure ir [])

  audio-ReadsTo :
      (d : DescriptorExtensionSupplementaryAudio)
      → IsSupplementaryAudio d
      → (e : ℕ) → ReadsTo ir e (new_descriptor_extension_supplementary_audio r e) (audio_bytes d) d
  unfolding new_descriptor_extension_supplementary_audio
  audio-ReadsTo d v e =
      let a = digit-le d.mix_type in
      let b = digit-le d.has_language_code in
      let c = v.classification_fits in
      let x = audio_flags d in
      let m : has_bit x 0x80 ≡ d.mix_type = has_bit-digit 7 x d.mix_type (omega arith) in
      let h : has_bit x 0x1 ≡ d.has_language_code =
        has_bit-digit 0 x d.has_language_code (omega arith) in
      let k : bit_and (x / 2 ^ 2) 0x1f ≡ d.editorial_classification =
        bit_and_mask 5 (x / 2 ^ 2) ∙ omega arith in
      ReadsTo-bind ir e _ (x ∷ []) _ (Reads-byte ir x) (
        rw (m, h, k)
          (ReadsTo-bind ir e _ d.language_code _
            (code-Reads d.has_language_code d.language_code v.code_set)
            (ReadsTo-last ir e _ (bytes_left-ReadsTo ir e d.private_data) refl)))

abbrev pub audio_extension : DescriptorExtensionSupplementaryAudio → DescriptorExtension
audio_extension a = record { supplementary_audio = some a; tag = 6; unknown = none }

abbrev pub unknown_extension : ℕ → List ℕ → DescriptorExtension
unknown_extension tag bs = record { supplementary_audio = none; tag = tag; unknown = some bs }

-- The length of the extension, which is there.
abbrev pub audio_extension_length : DescriptorExtensionSupplementaryAudio → ℕ
audio_extension_length a = (1 + calc_descriptor_extension_supplementary_audio_length a) % 256

module _ {w : BitsWriter} (iw : IsBitsWriter w) {r : BytesIterator} (ir : IsBytesIterator r) where
  pub audio_extension-Carries :
      (a : DescriptorExtensionSupplementaryAudio)
      → IsSupplementaryAudio a
      → Carries iw ir
          (write_descriptor_extension w (audio_extension a))
          (audio_extension_length a)
          (new_descriptor_extension r)
          (audio_extension a)
  unfolding write_descriptor_extension new_descriptor_extension
      calc_descriptor_extension_supplementary_audio_length
  audio_extension-Carries a v =
      let f = v.fits in
      let c = v.code_set in
      let s : if_set a.has_language_code 3 ≤ 3 = if_set-le a.has_language_code in
      carries iw ir (6 ∷ audio_bytes a)
        (omega (arith, length-append a.language_code a.private_data))
        (Writes-bind iw _ (6 ∷ []) _ (Writes-uint8 iw 6) (audio-Writes iw a v))
        (λ e.
          ReadsTo-bind ir e _ (6 ∷ []) (audio_bytes a) (Reads-byte ir 6)
            (ReadsTo-last ir e _ (audio-ReadsTo ir a v e) refl))

  pub unknown_extension-Carries :
      (tag : ℕ) (bs : List ℕ)
      → (tag == 6) ≡ false
      → 0 < length bs
      → length bs < 255
      → Carries iw ir
          (write_descriptor_extension w (unknown_extension tag bs))
          ((1 + length bs) % 256)
          (new_descriptor_extension r)
          (unknown_extension tag bs)
  unfolding write_descriptor_extension new_descriptor_extension write_unknown_extension
  unknown_extension-Carries tag bs n l h =
      carries iw ir (tag ∷ bs) (omega arith)
        (Writes-bind iw _ (tag ∷ []) _ (Writes-uint8 iw tag)
          (Writes-if_false iw _ n (Writes-plain iw bs)))
        (λ e.
          ReadsTo-bind ir e _ (tag ∷ []) bs (Reads-byte ir tag)
            (rw n (ReadsTo-last ir e _ (bytes_to-ReadsTo ir e bs l) refl)))
