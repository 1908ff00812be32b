-- ===== src/Descriptor/Kind/Content.antt =====
-- The part of a descriptor of every kind, written and read by its tag.
use go_astits.Base.{ℕ, ◌+◌, ◌%◌, ◌≡◌, refl, ◌∙◌, some, List, length, arith, M, ok, pure, ◌>>=◌}
use go_astits.Astikit.{BytesIterator, IsBytesIterator, BitsWriter, IsBitsWriter}
use go_astits.Codec.{Reads-bytes, Reads-last, Reads-pure}
use go_astits.Cursor.Reads.{Reads-ReadsTo, ReadsTo-last}
use go_astits.Descriptor.Frame.{Carries, carries, Writes-plain}
use go_astits.Descriptor.Audio.{
  calc_descriptor_ac3_length, calc_descriptor_enhanced_ac3_length, calc_descriptor_extension_length,
}
use go_astits.Descriptor.Audio.RoundTrip.{ac3-Carries}
use go_astits.Descriptor.Audio.EnhancedRoundTrip.{enhanced_ac3-Carries}
use go_astits.Descriptor.Audio.Extension.{
  audio_extension_length, audio_extension-Carries, unknown_extension-Carries,
}
use go_astits.Descriptor.Fixed.{
  calc_descriptor_avc_video_length, calc_descriptor_data_stream_alignment_length,
  calc_descriptor_iso639_language_and_audio_type_length,
  calc_descriptor_private_data_indicator_length, calc_descriptor_private_data_specifier_length,
  calc_descriptor_registration_length, calc_descriptor_stream_identifier_length,
}
use go_astits.Descriptor.Fixed.RoundTrip.{
  avc_video-Carries, data_stream_alignment-Carries, stream_identifier-Carries, iso639-Carries,
  maximum_bitrate-Carries, private_data_indicator-Carries, private_data_specifier-Carries,
  registration-Carries,
}
use go_astits.Descriptor.Text.{
  DescriptorUnknown, calc_descriptor_component_length, calc_descriptor_extended_event_length,
  calc_descriptor_network_name_length, calc_descriptor_service_length,
  calc_descriptor_short_event_length, calc_descriptor_unknown_length,
  calc_descriptor_user_defined_length, write_descriptor_user_defined,
}
use go_astits.Descriptor.Text.RoundTrip.{
  component-Carries, extended_event-Carries, network_name-Carries, service-Carries,
  short_event-Carries, unknown-Carries,
}
use go_astits.Descriptor.Lists.{
  calc_descriptor_content_length, calc_descriptor_parental_rating_length,
  calc_descriptor_subtitling_length, calc_descriptor_teletext_length,
  calc_descriptor_vbi_data_length,
}
use go_astits.Descriptor.Lists.RoundTrip.{
  content-Carries, parental_rating-Carries, subtitling-Carries, teletext-Carries,
}
use go_astits.Descriptor.Lists.Vbi.{vbi_data-Carries}
use go_astits.Descriptor.LocalTime.{calc_descriptor_local_time_offset_length}
use go_astits.Descriptor.LocalTime.RoundTrip.{IsDvbTimes, local_time_offset-Carries}
use go_astits.Descriptor.Kind.{
  DescriptorKind, kind_length, kind_tag, put_part, descriptor_of, IsKind, ac3, avc_video, component,
  content, data_stream_alignment, enhanced_ac3, extended_event, iso639_language_and_audio_type,
  local_time_offset, maximum_bitrate, network_name, parental_rating, private_data_indicator,
  private_data_specifier, registration, service, short_event, stream_identifier, subtitling,
  teletext, vbi_data, vbi_teletext, supplementary_audio, other_extension, unknown, user_defined,
}
use go_astits.Descriptor.Dispatch.{blank, is_user_defined, parse_known, parse_descriptor_body}
use go_astits.Descriptor.Dispatch.Lengths.{calc_descriptor_length}
use go_astits.Descriptor.Dispatch.Write.{write_descriptor_content_of}

module _ {w : BitsWriter} {iw : IsBitsWriter w} {r : BytesIterator} {ir : IsBytesIterator r} where
  -- A part, put in its place.
  part :
      {A B : Type 0} {m : M w.Writer (Unit {0})} {n : ℕ} {p : ℕ → M r.Iter A} {a : A} (f : A → B)
      → Carries iw ir m n p a
      → Carries iw ir m n (λ e. do x ← p e; pure (f x)) (f a)
  part f c = carries iw ir c.bytes c.counted c.written (λ e. ReadsTo-last ir e _ (c.read e) refl)

module _ {w : BitsWriter} {iw : IsBitsWriter w} {r : BytesIterator} {ir : IsBytesIterator r}
    {Time : Type 0} {parse_dvb_time : M r.Iter Time} {write_dvb_time : Time → M w.Writer ℕ}
    (times : IsDvbTimes iw ir parse_dvb_time write_dvb_time) where
  abbrev CarriesKind : DescriptorKind Time → Type 0
  CarriesKind k =
      Carries iw ir (write_descriptor_content_of w write_dvb_time (descriptor_of k)) (kind_length k)
        (parse_descriptor_body r parse_dvb_time (kind_tag k) (kind_length k)) (descriptor_of k)

  user_defined-Carries :
      (tag : ℕ) (x : List ℕ) → IsKind times (user_defined tag x) → CarriesKind (user_defined tag x)
  unfolding write_descriptor_content_of parse_descriptor_body kind_length kind_tag descriptor_of
      put_part IsKind calc_descriptor_user_defined_length write_descriptor_user_defined
  user_defined-Carries tag x (u, l, h) =
      let n : length x % 256 ≡ length x = omega arith in
      carries iw ir x (omega arith) (rw u (Writes-plain iw x)) (λ e.
        rw (u, n)
          (Reads-ReadsTo ir e
            (Reads-last ir _ (Reads-bytes ir (length x) x l refl) (Reads-pure ir _))))

  unknown_part-Carries :
      (x : DescriptorUnknown) → IsKind times (unknown x) → CarriesKind (unknown x)
  unfolding write_descriptor_content_of parse_descriptor_body parse_known kind_length kind_tag
      descriptor_of put_part IsKind calc_descriptor_unknown_length
  unknown_part-Carries x (u, v, l, h) =
      let n : length x.content % 256 ≡ length x.content = omega arith in
      let c = unknown-Carries iw ir x l h in
      carries iw ir c.bytes (c.counted ∙ omega arith)
        (rw
          (
            u, v.0, v.1.0, v.1.1.0, v.1.1.1.0, v.1.1.1.1.0, v.1.1.1.1.1.0, v.1.1.1.1.1.1.0,
            v.1.1.1.1.1.1.1.0, v.1.1.1.1.1.1.1.1.0, v.1.1.1.1.1.1.1.1.1.0, v.1.1.1.1.1.1.1.1.1.1.0,
            v.1.1.1.1.1.1.1.1.1.1.1.0, v.1.1.1.1.1.1.1.1.1.1.1.1.0, v.1.1.1.1.1.1.1.1.1.1.1.1.1.0,
            v.1.1.1.1.1.1.1.1.1.1.1.1.1.1.0, v.1.1.1.1.1.1.1.1.1.1.1.1.1.1.1.0,
            v.1.1.1.1.1.1.1.1.1.1.1.1.1.1.1.1.0, v.1.1.1.1.1.1.1.1.1.1.1.1.1.1.1.1.1.0,
            v.1.1.1.1.1.1.1.1.1.1.1.1.1.1.1.1.1.1.0, v.1.1.1.1.1.1.1.1.1.1.1.1.1.1.1.1.1.1.1.0,
            v.1.1.1.1.1.1.1.1.1.1.1.1.1.1.1.1.1.1.1.1.0,
            v.1.1.1.1.1.1.1.1.1.1.1.1.1.1.1.1.1.1.1.1.1.0,
            v.1.1.1.1.1.1.1.1.1.1.1.1.1.1.1.1.1.1.1.1.1.1.0,
          )
          c.written)
        (λ e.
          rw
            (
              u, n, v.0, v.1.0, v.1.1.0, v.1.1.1.0, v.1.1.1.1.0, v.1.1.1.1.1.0, v.1.1.1.1.1.1.0,
              v.1.1.1.1.1.1.1.0, v.1.1.1.1.1.1.1.1.0, v.1.1.1.1.1.1.1.1.1.0,
              v.1.1.1.1.1.1.1.1.1.1.0, v.1.1.1.1.1.1.1.1.1.1.1.0, v.1.1.1.1.1.1.1.1.1.1.1.1.0,
              v.1.1.1.1.1.1.1.1.1.1.1.1.1.0, v.1.1.1.1.1.1.1.1.1.1.1.1.1.1.0,
              v.1.1.1.1.1.1.1.1.1.1.1.1.1.1.1.0, v.1.1.1.1.1.1.1.1.1.1.1.1.1.1.1.1.0,
              v.1.1.1.1.1.1.1.1.1.1.1.1.1.1.1.1.1.0, v.1.1.1.1.1.1.1.1.1.1.1.1.1.1.1.1.1.1.0,
              v.1.1.1.1.1.1.1.1.1.1.1.1.1.1.1.1.1.1.1.0,
              v.1.1.1.1.1.1.1.1.1.1.1.1.1.1.1.1.1.1.1.1.0,
              v.1.1.1.1.1.1.1.1.1.1.1.1.1.1.1.1.1.1.1.1.1.0,
              v.1.1.1.1.1.1.1.1.1.1.1.1.1.1.1.1.1.1.1.1.1.1.0,
            )
            (ReadsTo-last ir e _ (c.read e) refl))

  -- The part of every kind takes as many bytes as is said, and is read back.
  pub kind-Carries : (k : DescriptorKind Time) → IsKind times k → CarriesKind k
  unfolding write_descriptor_content_of parse_descriptor_body parse_known kind_length kind_tag
      descriptor_of put_part IsKind is_user_defined
  kind-Carries (ac3 x) v =
      part (λ y. record (blank 0x6a (calc_descriptor_ac3_length x)) { ac3 = some y })
        (ac3-Carries iw ir x v)
  kind-Carries (avc_video x) v =
      part (λ y. record (blank 0x28 (calc_descriptor_avc_video_length)) { avc_video = some y })
        (avc_video-Carries iw ir x v)
  kind-Carries (component x) v =
      part (λ y. record (blank 0x50 (calc_descriptor_component_length x)) { component = some y })
        (component-Carries iw ir x v)
  kind-Carries (content x) v =
      part (λ y. record (blank 0x54 (calc_descriptor_content_length x)) { content = some y })
        (content-Carries iw ir x v.0 v.1)
  kind-Carries (data_stream_alignment x) v =
      part
        (λ y. record (blank 0x6 (calc_descriptor_data_stream_alignment_length)) {
          data_stream_alignment = some y;
        })
        (data_stream_alignment-Carries iw ir x)
  kind-Carries (enhanced_ac3 x) v =
      part
        (λ y. record (blank 0x7a (calc_descriptor_enhanced_ac3_length x)) { enhanced_ac3 = some y })
        (enhanced_ac3-Carries iw ir x v)
  kind-Carries (extended_event x) v =
      part
        (λ y. record (blank 0x4e ((calc_descriptor_extended_event_length x).0)) {
          extended_event = some y;
        })
        (extended_event-Carries iw ir x v)
  kind-Carries (supplementary_audio x) v =
      part (λ y. record (blank 0x7f (audio_extension_length x)) { extension = some y })
        (audio_extension-Carries iw ir x v)
  kind-Carries (other_extension tag x) (n, l, h) =
      part (λ y. record (blank 0x7f ((1 + length x) % 256)) { extension = some y })
        (unknown_extension-Carries iw ir tag x n l h)
  kind-Carries (iso639_language_and_audio_type x) v =
      part
        (λ y. record (blank 0xa (calc_descriptor_iso639_language_and_audio_type_length)) {
          iso639_language_and_audio_type = some y;
        })
        (iso639-Carries iw ir x v)
  kind-Carries (local_time_offset x) v =
      part
        (λ y. record (blank 0x58 (calc_descriptor_local_time_offset_length x)) {
          local_time_offset = some y;
        })
        (local_time_offset-Carries times x v.0 v.1)
  kind-Carries (maximum_bitrate x) v =
      part (λ y. record (blank 0xe 3) { maximum_bitrate = some y })
        (maximum_bitrate-Carries iw ir x v)
  kind-Carries (network_name x) v =
      part
        (λ y. record (blank 0x40 (calc_descriptor_network_name_length x)) { network_name = some y })
        (network_name-Carries iw ir x v.0 v.1)
  kind-Carries (parental_rating x) v =
      part
        (λ y. record (blank 0x55 (calc_descriptor_parental_rating_length x)) {
          parental_rating = some y;
        })
        (parental_rating-Carries iw ir x v.0 v.1)
  kind-Carries (private_data_indicator x) v =
      part
        (λ y. record (blank 0xf (calc_descriptor_private_data_indicator_length)) {
          private_data_indicator = some y;
        })
        (private_data_indicator-Carries iw ir x v)
  kind-Carries (private_data_specifier x) v =
      part
        (λ y. record (blank 0x5f (calc_descriptor_private_data_specifier_length)) {
          private_data_specifier = some y;
        })
        (private_data_specifier-Carries iw ir x v)
  kind-Carries (registration x) v =
      part
        (λ y. record (blank 0x5 (calc_descriptor_registration_length x)) { registration = some y })
        (registration-Carries iw ir x v.0 v.1)
  kind-Carries (service x) v =
      part (λ y. record (blank 0x48 (calc_descriptor_service_length x)) { service = some y })
        (service-Carries iw ir x v)
  kind-Carries (short_event x) v =
      part
        (λ y. record (blank 0x4d (calc_descriptor_short_event_length x)) { short_event = some y })
        (short_event-Carries iw ir x v)
  kind-Carries (stream_identifier x) v =
      part
        (λ y. record (blank 0x52 (calc_descriptor_stream_identifier_length)) {
          stream_identifier = some y;
        })
        (stream_identifier-Carries iw ir x)
  kind-Carries (subtitling x) v =
      part (λ y. record (blank 0x59 (calc_descriptor_subtitling_length x)) { subtitling = some y })
        (subtitling-Carries iw ir x v.0 v.1)
  kind-Carries (teletext x) v =
      part (λ y. record (blank 0x56 (calc_descriptor_teletext_length x)) { teletext = some y })
        (teletext-Carries iw ir x v.0 v.1)
  kind-Carries (vbi_data x) v =
      part (λ y. record (blank 0x45 (calc_descriptor_vbi_data_length x)) { vbi_data = some y })
        (vbi_data-Carries iw ir x v.0 v.1)
  kind-Carries (vbi_teletext x) v =
      part (λ y. record (blank 0x46 (calc_descriptor_teletext_length x)) { vbi_teletext = some y })
        (teletext-Carries iw ir x v.0 v.1)
  kind-Carries (unknown x) v = unknown_part-Carries x v
  kind-Carries (user_defined tag x) v = user_defined-Carries tag x v

  -- The length that is calculated is that of the part.
  pub calc_descriptor_length-kind_length :
      (k : DescriptorKind Time)
      → IsKind times k
      → calc_descriptor_length (descriptor_of k) ≡ ok (kind_length k)
  unfolding calc_descriptor_length kind_length kind_tag descriptor_of put_part IsKind
      is_user_defined calc_descriptor_extension_length
  calc_descriptor_length-kind_length (ac3 x) v = refl
  calc_descriptor_length-kind_length (avc_video x) v = refl
  calc_descriptor_length-kind_length (component x) v = refl
  calc_descriptor_length-kind_length (content x) v = refl
  calc_descriptor_length-kind_length (data_stream_alignment x) v = refl
  calc_descriptor_length-kind_length (enhanced_ac3 x) v = refl
  calc_descriptor_length-kind_length (extended_event x) v = refl
  calc_descriptor_length-kind_length (supplementary_audio x) v = refl
  calc_descriptor_length-kind_length (other_extension tag x) v = rw v.0 refl
  calc_descriptor_length-kind_length (iso639_language_and_audio_type x) v = refl
  calc_descriptor_length-kind_length (local_time_offset x) v = refl
  calc_descriptor_length-kind_length (maximum_bitrate x) v = refl
  calc_descriptor_length-kind_length (network_name x) v = refl
  calc_descriptor_length-kind_length (parental_rating x) v = refl
  calc_descriptor_length-kind_length (private_data_indicator x) v = refl
  calc_descriptor_length-kind_length (private_data_specifier x) v = refl
  calc_descriptor_length-kind_length (registration x) v = refl
  calc_descriptor_length-kind_length (service x) v = refl
  calc_descriptor_length-kind_length (short_event x) v = refl
  calc_descriptor_length-kind_length (stream_identifier x) v = refl
  calc_descriptor_length-kind_length (subtitling x) v = refl
  calc_descriptor_length-kind_length (teletext x) v = refl
  calc_descriptor_length-kind_length (vbi_data x) v = refl
  calc_descriptor_length-kind_length (vbi_teletext x) v = refl
  calc_descriptor_length-kind_length (unknown x) (u, v, l, h) =
      rw
        (
          u, v.0, v.1.0, v.1.1.0, v.1.1.1.0, v.1.1.1.1.0, v.1.1.1.1.1.0, v.1.1.1.1.1.1.0,
          v.1.1.1.1.1.1.1.0, v.1.1.1.1.1.1.1.1.0, v.1.1.1.1.1.1.1.1.1.0, v.1.1.1.1.1.1.1.1.1.1.0,
          v.1.1.1.1.1.1.1.1.1.1.1.0, v.1.1.1.1.1.1.1.1.1.1.1.1.0, v.1.1.1.1.1.1.1.1.1.1.1.1.1.0,
          v.1.1.1.1.1.1.1.1.1.1.1.1.1.1.0, v.1.1.1.1.1.1.1.1.1.1.1.1.1.1.1.0,
          v.1.1.1.1.1.1.1.1.1.1.1.1.1.1.1.1.0, v.1.1.1.1.1.1.1.1.1.1.1.1.1.1.1.1.1.0,
          v.1.1.1.1.1.1.1.1.1.1.1.1.1.1.1.1.1.1.0, v.1.1.1.1.1.1.1.1.1.1.1.1.1.1.1.1.1.1.1.0,
          v.1.1.1.1.1.1.1.1.1.1.1.1.1.1.1.1.1.1.1.1.0,
          v.1.1.1.1.1.1.1.1.1.1.1.1.1.1.1.1.1.1.1.1.1.0,
          v.1.1.1.1.1.1.1.1.1.1.1.1.1.1.1.1.1.1.1.1.1.1.0,
        )
        refl
  calc_descriptor_length-kind_length (user_defined tag x) (u, l, h) = rw u refl

  pub tag_of : (k : DescriptorKind Time) → (descriptor_of k).tag ≡ kind_tag k
  unfolding descriptor_of put_part
  tag_of (ac3 x) = refl
  tag_of (avc_video x) = refl
  tag_of (component x) = refl
  tag_of (content x) = refl
  tag_of (data_stream_alignment x) = refl
  tag_of (enhanced_ac3 x) = refl
  tag_of (extended_event x) = refl
  tag_of (supplementary_audio x) = refl
  tag_of (other_extension tag x) = refl
  tag_of (iso639_language_and_audio_type x) = refl
  tag_of (local_time_offset x) = refl
  tag_of (maximum_bitrate x) = refl
  tag_of (network_name x) = refl
  tag_of (parental_rating x) = refl
  tag_of (private_data_indicator x) = refl
  tag_of (private_data_specifier x) = refl
  tag_of (registration x) = refl
  tag_of (service x) = refl
  tag_of (short_event x) = refl
  tag_of (stream_identifier x) = refl
  tag_of (subtitling x) = refl
  tag_of (teletext x) = refl
  tag_of (vbi_data x) = refl
  tag_of (vbi_teletext x) = refl
  tag_of (unknown x) = refl
  tag_of (user_defined tag x) = refl
