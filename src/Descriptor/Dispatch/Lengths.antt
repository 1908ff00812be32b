-- ===== src/Descriptor/Dispatch/Lengths.antt =====
-- `calcDescriptorLength` and `calcDescriptorsLength`.
use go_astits.Base.{
  ℕ, ◌+◌, ◌%◌, ◌^◌, ◌==◌, if◌then◌else◌, Option, none, some, List, [], ◌∷◌, length, Result, ok, err,
  panic, unfinished,
}
use go_astits.Descriptor.Audio.{
  calc_descriptor_ac3_length, calc_descriptor_enhanced_ac3_length, calc_descriptor_extension_length,
}
use go_astits.Descriptor.Fixed.{
  calc_descriptor_avc_video_length, calc_descriptor_data_stream_alignment_length,
  calc_descriptor_iso639_language_and_audio_type_length, calc_descriptor_maximum_bitrate_length,
  calc_descriptor_private_data_indicator_length, calc_descriptor_private_data_specifier_length,
  calc_descriptor_registration_length, calc_descriptor_stream_identifier_length,
}
use go_astits.Descriptor.Text.{
  calc_descriptor_component_length, calc_descriptor_extended_event_length,
  calc_descriptor_network_name_length, calc_descriptor_service_length,
  calc_descriptor_short_event_length, calc_descriptor_unknown_length,
  calc_descriptor_user_defined_length,
}
use go_astits.Descriptor.LocalTime.{calc_descriptor_local_time_offset_length}
use go_astits.Descriptor.Lists.{
  calc_descriptor_content_length, calc_descriptor_parental_rating_length,
  calc_descriptor_subtitling_length, calc_descriptor_teletext_length,
  calc_descriptor_vbi_data_length,
}
use go_astits.Descriptor.Dispatch.{
  Descriptor, is_user_defined, descriptor_tag_ac3, descriptor_tag_avc_video,
  descriptor_tag_component, descriptor_tag_content, descriptor_tag_data_stream_alignment,
  descriptor_tag_enhanced_ac3, descriptor_tag_extended_event, descriptor_tag_extension,
  descriptor_tag_iso639_language_and_audio_type, descriptor_tag_local_time_offset,
  descriptor_tag_maximum_bitrate, descriptor_tag_network_name, descriptor_tag_parental_rating,
  descriptor_tag_private_data_indicator, descriptor_tag_private_data_specifier,
  descriptor_tag_registration, descriptor_tag_service, descriptor_tag_short_event,
  descriptor_tag_stream_identifier, descriptor_tag_subtitling, descriptor_tag_teletext,
  descriptor_tag_vbi_data, descriptor_tag_vbi_teletext,
}

-- A length that is taken of a part through its pointer.
abbrev pub length_of : {A : Type 0} → (A → ℕ) → Option A → Result ℕ
length_of f none = panic
length_of f (some x) = ok (f x)

abbrev pub result_of : {A : Type 0} → (A → Result ℕ) → Option A → Result ℕ
result_of f none = panic
result_of f (some x) = f x

module _ {Time : Type 0} where
  -- A length that is constant does not look at the part.
  unfoldable pub calc_descriptor_length : Descriptor Time → Result ℕ
  calc_descriptor_length d =
      if is_user_defined d.tag
      then ok (calc_descriptor_user_defined_length d.user_defined)
      else if d.tag == descriptor_tag_ac3
      then length_of calc_descriptor_ac3_length d.ac3
      else if d.tag == descriptor_tag_avc_video
      then ok calc_descriptor_avc_video_length
      else if d.tag == descriptor_tag_component
      then length_of calc_descriptor_component_length d.component
      else if d.tag == descriptor_tag_content
      then length_of calc_descriptor_content_length d.content
      else if d.tag == descriptor_tag_data_stream_alignment
      then ok calc_descriptor_data_stream_alignment_length
      else if d.tag == descriptor_tag_enhanced_ac3
      then length_of calc_descriptor_enhanced_ac3_length d.enhanced_ac3
      else if d.tag == descriptor_tag_extended_event
      then length_of (λ e. (calc_descriptor_extended_event_length e).0) d.extended_event
      else if d.tag == descriptor_tag_extension
      then result_of calc_descriptor_extension_length d.extension
      else if d.tag == descriptor_tag_iso639_language_and_audio_type
      then ok calc_descriptor_iso639_language_and_audio_type_length
      else if d.tag == descriptor_tag_local_time_offset
      then length_of calc_descriptor_local_time_offset_length d.local_time_offset
      else if d.tag == descriptor_tag_maximum_bitrate
      then ok calc_descriptor_maximum_bitrate_length
      else if d.tag == descriptor_tag_network_name
      then length_of calc_descriptor_network_name_length d.network_name
      else if d.tag == descriptor_tag_parental_rating
      then length_of calc_descriptor_parental_rating_length d.parental_rating
      else if d.tag == descriptor_tag_private_data_indicator
      then ok calc_descriptor_private_data_indicator_length
      else if d.tag == descriptor_tag_private_data_specifier
      then ok calc_descriptor_private_data_specifier_length
      else if d.tag == descriptor_tag_registration
      then length_of calc_descriptor_registration_length d.registration
      else if d.tag == descriptor_tag_service
      then length_of calc_descriptor_service_length d.service
      else if d.tag == descriptor_tag_short_event
      then length_of calc_descriptor_short_event_length d.short_event
      else if d.tag == descriptor_tag_stream_identifier
      then ok calc_descriptor_stream_identifier_length
      else if d.tag == descriptor_tag_subtitling
      then length_of calc_descriptor_subtitling_length d.subtitling
      else if d.tag == descriptor_tag_teletext
      then length_of calc_descriptor_teletext_length d.teletext
      else if d.tag == descriptor_tag_vbi_data
      then length_of calc_descriptor_vbi_data_length d.vbi_data
      else if d.tag == descriptor_tag_vbi_teletext
      then length_of calc_descriptor_teletext_length d.vbi_teletext
      else length_of calc_descriptor_unknown_length d.unknown

  -- The sum of a loop, as a `uint16`.
  unfoldable pub calc_descriptors_length_loop : List (Descriptor Time) → ℕ → Result ℕ
  calc_descriptors_length_loop [] length = ok length
  calc_descriptors_length_loop (d ∷ ds) length = elim (calc_descriptor_length d) [
    | ok n ↦ calc_descriptors_length_loop ds ((length + 2 + n) % 2 ^ 16)
    | err e ↦ err e
    | panic ↦ panic
    | unfinished ↦ unfinished
  ]

  unfoldable pub calc_descriptors_length : List (Descriptor Time) → Result ℕ
  calc_descriptors_length ds = calc_descriptors_length_loop ds 0
