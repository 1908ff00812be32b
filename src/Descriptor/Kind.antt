-- ===== src/Descriptor/Kind.antt =====
-- The kinds of descriptors: for each tag the part that it says is there, as one tagged union, and
-- what the numbers of a part must satisfy to fit their fields.
pub mod Content
use go_astits.Base.{
  ℕ, zero, suc, ◌+◌, ◌-◌, ◌*◌, ◌/◌, ◌%◌, ◌^◌, ◌<◌, ◌≤◌, ◌≡◌, refl, sym, ap, subst, ◌∙◌, Bool, true,
  false, ◌==◌, Option, none, some, List, [], ◌∷◌, ◌++◌, map, length, append_assoc, append-nil,
  length-append, arith, M, Result, ok, panic, pure, deref, ◌>>=◌, ◌>>◌, All, All-map, bit_and, ltb,
  lt→ltb, drop, if◌then◌else◌,
}
use go_astits.Bits.{◌<|>◌, bit_and_mask, bit_or_disjoint}
use go_astits.Clock.{byte_at}
use go_astits.Astikit.{BytesIterator, IsBytesIterator, BitsWriter, IsBitsWriter}
use go_astits.Codec.{
  behind, RoundTrips, Reads, Reads-bind, Reads-byte, Reads-bytes, Reads-last, Reads-pure,
  Reads-return, Writes, Writes-bind, Writes-uint8, Writes-last, Writes-return, Writes-bytes,
}
use go_astits.Cursor.Reads.{
  ReadsTo, Reads-ReadsTo, ReadsTo-bind, ReadsTo-last, bytes_of, items_to-ReadsTo,
}
use go_astits.Descriptor.Frame.{Carries, carries, Writes-plain}
use go_astits.Descriptor.Audio.{
  DescriptorAc3, DescriptorEnhancedAc3, DescriptorExtensionSupplementaryAudio,
  calc_descriptor_ac3_length, calc_descriptor_enhanced_ac3_length, calc_descriptor_extension_length,
}
use go_astits.Descriptor.Audio.RoundTrip.{IsAc3, ac3-Carries}
use go_astits.Descriptor.Audio.EnhancedRoundTrip.{IsEnhancedAc3, enhanced_ac3-Carries}
use go_astits.Descriptor.Audio.Extension.{
  IsSupplementaryAudio, audio_extension, unknown_extension, audio_extension_length,
  audio_extension-Carries, unknown_extension-Carries,
}
use go_astits.Descriptor.Fixed.{
  DescriptorAvcVideo, DescriptorDataStreamAlignment, DescriptorIso639LanguageAndAudioType,
  DescriptorPrivateDataIndicator, DescriptorPrivateDataSpecifier, DescriptorRegistration,
  DescriptorStreamIdentifier, calc_descriptor_avc_video_length,
  calc_descriptor_data_stream_alignment_length,
  calc_descriptor_iso639_language_and_audio_type_length, calc_descriptor_maximum_bitrate_length,
  calc_descriptor_private_data_indicator_length, calc_descriptor_private_data_specifier_length,
  calc_descriptor_registration_length, calc_descriptor_stream_identifier_length,
}
use go_astits.Descriptor.Fixed.RoundTrip.{
  avc_video-Carries, data_stream_alignment-Carries, stream_identifier-Carries, iso639-Carries,
  maximum_bitrate-Carries, private_data_indicator-Carries, private_data_specifier-Carries,
  registration-Carries,
}
use go_astits.Descriptor.Text.{
  DescriptorComponent, DescriptorExtendedEvent, DescriptorNetworkName, DescriptorService,
  DescriptorShortEvent, DescriptorUnknown, calc_descriptor_component_length,
  calc_descriptor_extended_event_length, calc_descriptor_network_name_length,
  calc_descriptor_service_length, calc_descriptor_short_event_length,
  calc_descriptor_unknown_length, calc_descriptor_user_defined_length,
  write_descriptor_user_defined,
}
use go_astits.Descriptor.Text.RoundTrip.{
  IsComponent, IsExtendedEvent, IsShortEvent, component-Carries, extended_event-Carries,
  network_name-Carries, service-Carries, short_event-Carries, unknown-Carries,
}
use go_astits.Descriptor.Lists.{
  DescriptorContent, DescriptorParentalRating, DescriptorSubtitling, DescriptorTeletext,
  DescriptorVbiData, calc_descriptor_content_length, calc_descriptor_parental_rating_length,
  calc_descriptor_subtitling_length, calc_descriptor_teletext_length,
  calc_descriptor_vbi_data_length,
}
use go_astits.Descriptor.Lists.RoundTrip.{
  IsContentItem, IsRatingItem, IsSubtitlingItem, IsTeletextItem, content-Carries,
  parental_rating-Carries, subtitling-Carries, teletext-Carries,
}
use go_astits.Descriptor.Lists.Vbi.{IsOneLineService, vbi_data-Carries}
use go_astits.Descriptor.LocalTime.{
  DescriptorLocalTimeOffset, calc_descriptor_local_time_offset_length,
}
use go_astits.Descriptor.LocalTime.RoundTrip.{IsDvbTimes, IsOffsetItem, local_time_offset-Carries}
use go_astits.Descriptor.Dispatch.{Descriptor, blank, is_user_defined}

pub data DescriptorKind (Time : Type 0) : Type 0 where
  ac3 : DescriptorAc3 → DescriptorKind Time
  avc_video : DescriptorAvcVideo → DescriptorKind Time
  component : DescriptorComponent → DescriptorKind Time
  content : DescriptorContent → DescriptorKind Time
  data_stream_alignment : DescriptorDataStreamAlignment → DescriptorKind Time
  enhanced_ac3 : DescriptorEnhancedAc3 → DescriptorKind Time
  extended_event : DescriptorExtendedEvent → DescriptorKind Time
  supplementary_audio : DescriptorExtensionSupplementaryAudio → DescriptorKind Time
  other_extension : ℕ → List ℕ → DescriptorKind Time
  iso639_language_and_audio_type : DescriptorIso639LanguageAndAudioType → DescriptorKind Time
  local_time_offset : DescriptorLocalTimeOffset Time → DescriptorKind Time
  -- 50 bytes a second for each unit
  maximum_bitrate : ℕ → DescriptorKind Time
  network_name : DescriptorNetworkName → DescriptorKind Time
  parental_rating : DescriptorParentalRating → DescriptorKind Time
  private_data_indicator : DescriptorPrivateDataIndicator → DescriptorKind Time
  private_data_specifier : DescriptorPrivateDataSpecifier → DescriptorKind Time
  registration : DescriptorRegistration → DescriptorKind Time
  service : DescriptorService → DescriptorKind Time
  short_event : DescriptorShortEvent → DescriptorKind Time
  stream_identifier : DescriptorStreamIdentifier → DescriptorKind Time
  subtitling : DescriptorSubtitling → DescriptorKind Time
  teletext : DescriptorTeletext → DescriptorKind Time
  vbi_data : DescriptorVbiData → DescriptorKind Time
  vbi_teletext : DescriptorTeletext → DescriptorKind Time
  unknown : DescriptorUnknown → DescriptorKind Time
  user_defined : ℕ → List ℕ → DescriptorKind Time

-- The tags of the switch.
abbrev pub known_tags : List ℕ
known_tags =
    0x6a ∷ 0x28 ∷ 0x50 ∷ 0x54 ∷ 0x6 ∷ 0x7a ∷ 0x4e ∷ 0x7f ∷ 0xa ∷ 0x58 ∷ 0xe ∷ 0x40 ∷ 0x55 ∷ 0xf
    ∷ 0x5f ∷ 0x5 ∷ 0x48 ∷ 0x4d ∷ 0x52 ∷ 0x59 ∷ 0x56 ∷ 0x45 ∷ 0x46 ∷ []

unfoldable pub kind_length : {Time : Type 0} → DescriptorKind Time → ℕ
kind_length (ac3 x) = calc_descriptor_ac3_length x
kind_length (avc_video x) = calc_descriptor_avc_video_length
kind_length (component x) = calc_descriptor_component_length x
kind_length (content x) = calc_descriptor_content_length x
kind_length (data_stream_alignment x) = calc_descriptor_data_stream_alignment_length
kind_length (enhanced_ac3 x) = calc_descriptor_enhanced_ac3_length x
kind_length (extended_event x) = (calc_descriptor_extended_event_length x).0
kind_length (supplementary_audio x) = audio_extension_length x
kind_length (other_extension tag x) = (1 + length x) % 256
kind_length (iso639_language_and_audio_type x) =
    calc_descriptor_iso639_language_and_audio_type_length
kind_length (local_time_offset x) = calc_descriptor_local_time_offset_length x
kind_length (maximum_bitrate x) = calc_descriptor_maximum_bitrate_length
kind_length (network_name x) = calc_descriptor_network_name_length x
kind_length (parental_rating x) = calc_descriptor_parental_rating_length x
kind_length (private_data_indicator x) = calc_descriptor_private_data_indicator_length
kind_length (private_data_specifier x) = calc_descriptor_private_data_specifier_length
kind_length (registration x) = calc_descriptor_registration_length x
kind_length (service x) = calc_descriptor_service_length x
kind_length (short_event x) = calc_descriptor_short_event_length x
kind_length (stream_identifier x) = calc_descriptor_stream_identifier_length
kind_length (subtitling x) = calc_descriptor_subtitling_length x
kind_length (teletext x) = calc_descriptor_teletext_length x
kind_length (vbi_data x) = calc_descriptor_vbi_data_length x
kind_length (vbi_teletext x) = calc_descriptor_teletext_length x
kind_length (unknown x) = calc_descriptor_unknown_length x
kind_length (user_defined tag x) = calc_descriptor_user_defined_length x

unfoldable pub kind_tag : {Time : Type 0} → DescriptorKind Time → ℕ
kind_tag (ac3 x) = 0x6a
kind_tag (avc_video x) = 0x28
kind_tag (component x) = 0x50
kind_tag (content x) = 0x54
kind_tag (data_stream_alignment x) = 0x6
kind_tag (enhanced_ac3 x) = 0x7a
kind_tag (extended_event x) = 0x4e
kind_tag (supplementary_audio x) = 0x7f
kind_tag (other_extension tag x) = 0x7f
kind_tag (iso639_language_and_audio_type x) = 0xa
kind_tag (local_time_offset x) = 0x58
kind_tag (maximum_bitrate x) = 0xe
kind_tag (network_name x) = 0x40
kind_tag (parental_rating x) = 0x55
kind_tag (private_data_indicator x) = 0xf
kind_tag (private_data_specifier x) = 0x5f
kind_tag (registration x) = 0x5
kind_tag (service x) = 0x48
kind_tag (short_event x) = 0x4d
kind_tag (stream_identifier x) = 0x52
kind_tag (subtitling x) = 0x59
kind_tag (teletext x) = 0x56
kind_tag (vbi_data x) = 0x45
kind_tag (vbi_teletext x) = 0x46
kind_tag (unknown x) = x.tag
kind_tag (user_defined tag x) = tag

-- The part in its place.
unfoldable pub put_part : {Time : Type 0} → DescriptorKind Time → Descriptor Time → Descriptor Time
put_part (ac3 x) d = record d { ac3 = some x }
put_part (avc_video x) d = record d { avc_video = some x }
put_part (component x) d = record d { component = some x }
put_part (content x) d = record d { content = some x }
put_part (data_stream_alignment x) d = record d { data_stream_alignment = some x }
put_part (enhanced_ac3 x) d = record d { enhanced_ac3 = some x }
put_part (extended_event x) d = record d { extended_event = some x }
put_part (supplementary_audio x) d = record d { extension = some (audio_extension x) }
put_part (other_extension tag x) d = record d { extension = some (unknown_extension tag x) }
put_part (iso639_language_and_audio_type x) d = record d { iso639_language_and_audio_type = some x }
put_part (local_time_offset x) d = record d { local_time_offset = some x }
put_part (maximum_bitrate x) d = record d { maximum_bitrate = some (record { bitrate = x * 50 }) }
put_part (network_name x) d = record d { network_name = some x }
put_part (parental_rating x) d = record d { parental_rating = some x }
put_part (private_data_indicator x) d = record d { private_data_indicator = some x }
put_part (private_data_specifier x) d = record d { private_data_specifier = some x }
put_part (registration x) d = record d { registration = some x }
put_part (service x) d = record d { service = some x }
put_part (short_event x) d = record d { short_event = some x }
put_part (stream_identifier x) d = record d { stream_identifier = some x }
put_part (subtitling x) d = record d { subtitling = some x }
put_part (teletext x) d = record d { teletext = some x }
put_part (vbi_data x) d = record d { vbi_data = some x }
put_part (vbi_teletext x) d = record d { vbi_teletext = some x }
put_part (unknown x) d = record d { unknown = some x }
put_part (user_defined tag x) d = record d { user_defined = x }

-- The descriptor of a kind.
unfoldable pub descriptor_of : {Time : Type 0} → DescriptorKind Time → Descriptor Time
descriptor_of k = put_part k (blank (kind_tag k) (kind_length k))

module _ {w : BitsWriter} {iw : IsBitsWriter w} {r : BytesIterator} {ir : IsBytesIterator r}
    {Time : Type 0} {parse_dvb_time : M r.Iter Time} {write_dvb_time : Time → M w.Writer ℕ}
    (times : IsDvbTimes iw ir parse_dvb_time write_dvb_time) where
  -- The numbers and the lists fit their fields.
  unfoldable pub IsKind : DescriptorKind Time → Type 0
  IsKind (ac3 x) = IsAc3 x
  IsKind (avc_video x) = x.compatible_flags < 32
  IsKind (component x) = IsComponent x
  IsKind (content x) = All IsContentItem x.items × 2 * length x.items < 256
  IsKind (data_stream_alignment x) = Unit
  IsKind (enhanced_ac3 x) = IsEnhancedAc3 x
  IsKind (extended_event x) = IsExtendedEvent x
  IsKind (supplementary_audio x) = IsSupplementaryAudio x
  IsKind (other_extension tag x) = ((tag == 6) ≡ false) × (0 < length x) × length x < 255
  IsKind (iso639_language_and_audio_type x) = length x.language ≡ 3
  IsKind (local_time_offset x) = All (IsOffsetItem times) x.items × 13 * length x.items < 256
  IsKind (maximum_bitrate x) = x < 2 ^ 22
  IsKind (network_name x) = 0 < length x.name × length x.name < 256
  IsKind (parental_rating x) = All IsRatingItem x.items × 4 * length x.items < 256
  IsKind (private_data_indicator x) = x.indicator < 2 ^ 32
  IsKind (private_data_specifier x) = x.specifier < 2 ^ 32
  IsKind (registration x) =
      x.format_identifier < 2 ^ 32 × length x.additional_identification_info < 252
  IsKind (service x) = length x.name + length x.provider < 253
  IsKind (short_event x) = IsShortEvent x
  IsKind (stream_identifier x) = Unit
  IsKind (subtitling x) = All IsSubtitlingItem x.items × 8 * length x.items < 256
  IsKind (teletext x) = All IsTeletextItem x.items × 5 * length x.items < 256
  IsKind (vbi_data x) = All IsOneLineService x.services × 3 * length x.services < 256
  IsKind (vbi_teletext x) = All IsTeletextItem x.items × 5 * length x.items < 256
  IsKind (unknown x) =
      (is_user_defined x.tag ≡ false)
      × All (λ t. (x.tag == t) ≡ false) known_tags
      × (0 < length x.content)
      × length x.content < 256
  IsKind (user_defined tag x) = (is_user_defined tag ≡ true) × (0 < length x) × length x < 256

  -- A part that is there.
  pub record IsDescriptorKind (k : DescriptorKind Time) : Type 0 where
    pub kind : IsKind k
    pub some_bytes : 0 < kind_length k
