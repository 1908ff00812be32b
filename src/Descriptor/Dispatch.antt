-- ===== src/Descriptor/Dispatch.antt =====
-- A descriptor of any kind, and the readers: its tag says which of its parts is there.
pub mod Lengths
pub mod Write
pub mod RoundTrip
use go_astits.Base.{
  ℕ, zero, suc, ◌+◌, ◌-◌, ◌*◌, ◌/◌, ◌%◌, ◌^◌, ◌<◌, ◌≤◌, ◌≡◌, refl, sym, ap, subst, ◌∙◌, Bool, true,
  false, ◌==◌, ◌||◌, ◌&&◌, ltb, leb, if◌then◌else◌, bit_and, Option, none, some, List, [], ◌∷◌,
  ◌++◌, map, length, take, replicate, append_assoc, append-nil, length-append, arith, M, Result, ok,
  err, panic, pure, fail, fault, deref, ◌>>=◌, ◌>>◌, when, optional, All,
}
use go_astits.Bits.{has_bit, ◌<|>◌}
use go_astits.Astikit.{BytesIterator, BitsWriter}
use go_astits.Clock.{byte_at}
use go_astits.Cursor.{bytes_to, bytes_left, counted_bytes, items_to}
use go_astits.Descriptor.Audio.{
  DescriptorAc3, new_descriptor_ac3, calc_descriptor_ac3_length, write_descriptor_ac3,
  DescriptorEnhancedAc3, new_descriptor_enhanced_ac3, calc_descriptor_enhanced_ac3_length,
  write_descriptor_enhanced_ac3, DescriptorExtension, new_descriptor_extension,
  calc_descriptor_extension_length, write_descriptor_extension,
}
use go_astits.Descriptor.Fixed.{
  DescriptorAvcVideo, new_descriptor_avc_video, calc_descriptor_avc_video_length,
  write_descriptor_avc_video, DescriptorDataStreamAlignment, new_descriptor_data_stream_alignment,
  calc_descriptor_data_stream_alignment_length, write_descriptor_data_stream_alignment,
  DescriptorIso639LanguageAndAudioType, new_descriptor_iso639_language_and_audio_type,
  calc_descriptor_iso639_language_and_audio_type_length,
  write_descriptor_iso639_language_and_audio_type, DescriptorMaximumBitrate,
  new_descriptor_maximum_bitrate, calc_descriptor_maximum_bitrate_length,
  write_descriptor_maximum_bitrate, DescriptorPrivateDataIndicator,
  new_descriptor_private_data_indicator, calc_descriptor_private_data_indicator_length,
  write_descriptor_private_data_indicator, DescriptorPrivateDataSpecifier,
  new_descriptor_private_data_specifier, calc_descriptor_private_data_specifier_length,
  write_descriptor_private_data_specifier, DescriptorRegistration, new_descriptor_registration,
  calc_descriptor_registration_length, write_descriptor_registration, DescriptorStreamIdentifier,
  new_descriptor_stream_identifier, calc_descriptor_stream_identifier_length,
  write_descriptor_stream_identifier,
}
use go_astits.Descriptor.Text.{
  DescriptorComponent, new_descriptor_component, calc_descriptor_component_length,
  write_descriptor_component, DescriptorExtendedEvent, new_descriptor_extended_event,
  calc_descriptor_extended_event_length, write_descriptor_extended_event, DescriptorNetworkName,
  new_descriptor_network_name, calc_descriptor_network_name_length, write_descriptor_network_name,
  DescriptorService, new_descriptor_service, calc_descriptor_service_length,
  write_descriptor_service, DescriptorShortEvent, new_descriptor_short_event,
  calc_descriptor_short_event_length, write_descriptor_short_event, DescriptorUnknown,
  new_descriptor_unknown, calc_descriptor_unknown_length, write_descriptor_unknown,
  calc_descriptor_user_defined_length, write_descriptor_user_defined,
}
use go_astits.Descriptor.LocalTime.{
  DescriptorLocalTimeOffset, new_descriptor_local_time_offset,
  calc_descriptor_local_time_offset_length, write_descriptor_local_time_offset,
}
use go_astits.Descriptor.Lists.{
  DescriptorContent, new_descriptor_content, calc_descriptor_content_length,
  write_descriptor_content, DescriptorParentalRating, new_descriptor_parental_rating,
  calc_descriptor_parental_rating_length, write_descriptor_parental_rating, DescriptorSubtitling,
  new_descriptor_subtitling, calc_descriptor_subtitling_length, write_descriptor_subtitling,
  DescriptorTeletext, new_descriptor_teletext, calc_descriptor_teletext_length,
  write_descriptor_teletext, DescriptorVbiData, new_descriptor_vbi_data,
  calc_descriptor_vbi_data_length, write_descriptor_vbi_data,
}

-- The tags. `descriptor_tag_vbi_data` and its kin are `DescriptorTagVBIData` and its kin.
abbrev pub descriptor_tag_ac3 : ℕ
descriptor_tag_ac3 = 0x6a

abbrev pub descriptor_tag_avc_video : ℕ
descriptor_tag_avc_video = 0x28

abbrev pub descriptor_tag_component : ℕ
descriptor_tag_component = 0x50

abbrev pub descriptor_tag_content : ℕ
descriptor_tag_content = 0x54

abbrev pub descriptor_tag_data_stream_alignment : ℕ
descriptor_tag_data_stream_alignment = 0x6

abbrev pub descriptor_tag_enhanced_ac3 : ℕ
descriptor_tag_enhanced_ac3 = 0x7a

abbrev pub descriptor_tag_extended_event : ℕ
descriptor_tag_extended_event = 0x4e

abbrev pub descriptor_tag_extension : ℕ
descriptor_tag_extension = 0x7f

abbrev pub descriptor_tag_iso639_language_and_audio_type : ℕ
descriptor_tag_iso639_language_and_audio_type = 0xa

abbrev pub descriptor_tag_local_time_offset : ℕ
descriptor_tag_local_time_offset = 0x58

abbrev pub descriptor_tag_maximum_bitrate : ℕ
descriptor_tag_maximum_bitrate = 0xe

abbrev pub descriptor_tag_network_name : ℕ
descriptor_tag_network_name = 0x40

abbrev pub descriptor_tag_parental_rating : ℕ
descriptor_tag_parental_rating = 0x55

abbrev pub descriptor_tag_private_data_indicator : ℕ
descriptor_tag_private_data_indicator = 0xf

abbrev pub descriptor_tag_private_data_specifier : ℕ
descriptor_tag_private_data_specifier = 0x5f

abbrev pub descriptor_tag_registration : ℕ
descriptor_tag_registration = 0x5

abbrev pub descriptor_tag_service : ℕ
descriptor_tag_service = 0x48

abbrev pub descriptor_tag_short_event : ℕ
descriptor_tag_short_event = 0x4d

abbrev pub descriptor_tag_stream_identifier : ℕ
descriptor_tag_stream_identifier = 0x52

abbrev pub descriptor_tag_subtitling : ℕ
descriptor_tag_subtitling = 0x59

abbrev pub descriptor_tag_teletext : ℕ
descriptor_tag_teletext = 0x56

abbrev pub descriptor_tag_vbi_data : ℕ
descriptor_tag_vbi_data = 0x45

abbrev pub descriptor_tag_vbi_teletext : ℕ
descriptor_tag_vbi_teletext = 0x46

-- A pointer that may be nil is an option; a slice that is nil has no bytes.
pub record Descriptor (Time : Type 0) : Type 0 where
  pub ac3 : Option DescriptorAc3
  pub avc_video : Option DescriptorAvcVideo
  pub component : Option DescriptorComponent
  pub content : Option DescriptorContent
  pub data_stream_alignment : Option DescriptorDataStreamAlignment
  pub enhanced_ac3 : Option DescriptorEnhancedAc3
  pub extended_event : Option DescriptorExtendedEvent
  pub extension : Option DescriptorExtension
  pub iso639_language_and_audio_type : Option DescriptorIso639LanguageAndAudioType
  pub length_byte : ℕ
  pub local_time_offset : Option (DescriptorLocalTimeOffset Time)
  pub maximum_bitrate : Option DescriptorMaximumBitrate
  pub network_name : Option DescriptorNetworkName
  pub parental_rating : Option DescriptorParentalRating
  pub private_data_indicator : Option DescriptorPrivateDataIndicator
  pub private_data_specifier : Option DescriptorPrivateDataSpecifier
  pub registration : Option DescriptorRegistration
  pub service : Option DescriptorService
  pub short_event : Option DescriptorShortEvent
  pub stream_identifier : Option DescriptorStreamIdentifier
  pub subtitling : Option DescriptorSubtitling
  pub tag : ℕ
  pub teletext : Option DescriptorTeletext
  pub unknown : Option DescriptorUnknown
  pub user_defined : List ℕ
  pub vbi_data : Option DescriptorVbiData
  pub vbi_teletext : Option DescriptorTeletext

-- `&Descriptor{Length: length, Tag: tag}`
abbrev pub blank : {Time : Type 0} → ℕ → ℕ → Descriptor Time
blank tag length = record {
  ac3 = none;
  avc_video = none;
  component = none;
  content = none;
  data_stream_alignment = none;
  enhanced_ac3 = none;
  extended_event = none;
  extension = none;
  iso639_language_and_audio_type = none;
  length_byte = length;
  local_time_offset = none;
  maximum_bitrate = none;
  network_name = none;
  parental_rating = none;
  private_data_indicator = none;
  private_data_specifier = none;
  registration = none;
  service = none;
  short_event = none;
  stream_identifier = none;
  subtitling = none;
  tag = tag;
  teletext = none;
  unknown = none;
  user_defined = [];
  vbi_data = none;
  vbi_teletext = none;
}

-- `d.Tag >= 0x80 && d.Tag <= 0xfe`
unfoldable pub is_user_defined : ℕ → Bool
is_user_defined tag = leb 0x80 tag && leb tag 0xfe

module _ (r : BytesIterator) {Time : Type 0} (parse_dvb_time : M r.Iter Time) where
  open r use {Iter, next_bytes, seek, offset}

  -- The switch on the tag.
  unfoldable pub parse_known : ℕ → ℕ → ℕ → M Iter (Descriptor Time)
  parse_known tag length offset_end =
      let d = blank tag length in
      if tag == descriptor_tag_ac3
      then (do x ← new_descriptor_ac3 r offset_end; pure (record d { ac3 = some x }))
      else if tag == descriptor_tag_avc_video
      then (do x ← new_descriptor_avc_video r; pure (record d { avc_video = some x }))
      else if tag == descriptor_tag_component
      then (do x ← new_descriptor_component r offset_end; pure (record d { component = some x }))
      else if tag == descriptor_tag_content
      then (do x ← new_descriptor_content r offset_end; pure (record d { content = some x }))
      else if tag == descriptor_tag_data_stream_alignment
      then (do
        x ← new_descriptor_data_stream_alignment r
        pure (record d { data_stream_alignment = some x }))
      else if tag == descriptor_tag_enhanced_ac3
      then (do
        x ← new_descriptor_enhanced_ac3 r offset_end
        pure (record d { enhanced_ac3 = some x }))
      else if tag == descriptor_tag_extended_event
      then (do x ← new_descriptor_extended_event r; pure (record d { extended_event = some x }))
      else if tag == descriptor_tag_extension
      then (do x ← new_descriptor_extension r offset_end; pure (record d { extension = some x }))
      else if tag == descriptor_tag_iso639_language_and_audio_type
      then (do
        x ← new_descriptor_iso639_language_and_audio_type r offset_end
        pure (record d { iso639_language_and_audio_type = some x }))
      else if tag == descriptor_tag_local_time_offset
      then (do
        x ← new_descriptor_local_time_offset r parse_dvb_time offset_end
        pure (record d { local_time_offset = some x }))
      else if tag == descriptor_tag_maximum_bitrate
      then (do x ← new_descriptor_maximum_bitrate r; pure (record d { maximum_bitrate = some x }))
      else if tag == descriptor_tag_network_name
      then (do
        x ← new_descriptor_network_name r offset_end
        pure (record d { network_name = some x }))
      else if tag == descriptor_tag_parental_rating
      then (do
        x ← new_descriptor_parental_rating r offset_end
        pure (record d { parental_rating = some x }))
      else if tag == descriptor_tag_private_data_indicator
      then (do
        x ← new_descriptor_private_data_indicator r
        pure (record d { private_data_indicator = some x }))
      else if tag == descriptor_tag_private_data_specifier
      then (do
        x ← new_descriptor_private_data_specifier r
        pure (record d { private_data_specifier = some x }))
      else if tag == descriptor_tag_registration
      then (do
        x ← new_descriptor_registration r offset_end
        pure (record d { registration = some x }))
      else if tag == descriptor_tag_service
      then (do x ← new_descriptor_service r; pure (record d { service = some x }))
      else if tag == descriptor_tag_short_event
      then (do x ← new_descriptor_short_event r; pure (record d { short_event = some x }))
      else if tag == descriptor_tag_stream_identifier
      then (do
        x ← new_descriptor_stream_identifier r
        pure (record d { stream_identifier = some x }))
      else if tag == descriptor_tag_subtitling
      then (do x ← new_descriptor_subtitling r offset_end; pure (record d { subtitling = some x }))
      else if tag == descriptor_tag_teletext
      then (do x ← new_descriptor_teletext r offset_end; pure (record d { teletext = some x }))
      else if tag == descriptor_tag_vbi_data
      then (do x ← new_descriptor_vbi_data r offset_end; pure (record d { vbi_data = some x }))
      else if tag == descriptor_tag_vbi_teletext
      then (do x ← new_descriptor_teletext r offset_end; pure (record d { vbi_teletext = some x }))
      else (do x ← new_descriptor_unknown r tag length; pure (record d { unknown = some x }))

  unfoldable pub parse_descriptor_body : ℕ → ℕ → ℕ → M Iter (Descriptor Time)
  parse_descriptor_body tag length offset_end =
      if is_user_defined tag
      then (do x ← next_bytes length; pure (record (blank tag length) { user_defined = x }))
      else parse_known tag length offset_end

  -- `if d.Length > 0`: the part, and the seek to its end, wherever the part's parsing stopped.
  unfoldable pub parse_descriptor_content : ℕ → ℕ → M Iter (Descriptor Time)
  parse_descriptor_content tag length i =
      if ltb 0 length
      then (do
        d ← parse_descriptor_body tag length (offset i + length)
        seek (offset i + length)
        pure d)
          i
      else pure (blank tag length) i

  -- The body of the loop.
  unfoldable pub parse_descriptor : M Iter (Descriptor Time)
  parse_descriptor = do bs ← next_bytes 2; parse_descriptor_content (byte_at bs 0) (byte_at bs 1)

  unfoldable pub descriptors_of_length : ℕ → M Iter (List (Descriptor Time))
  descriptors_of_length length i =
      if ltb 0 length then items_to r (offset i + length) parse_descriptor i else pure [] i

  unfoldable pub parse_descriptors : M Iter (List (Descriptor Time))
  parse_descriptors = do
    bs ← next_bytes 2
    descriptors_of_length (bit_and (byte_at bs 0) 0xf * 2 ^ 8 <|> byte_at bs 1)
