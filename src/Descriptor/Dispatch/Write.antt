-- ===== src/Descriptor/Dispatch/Write.antt =====
-- The writers of descriptors of any kind.
use go_astits.Base.{
  ℕ, ◌+◌, ◌==◌, if◌then◌else◌, List, [], ◌∷◌, length, M, lift, pure, deref, ◌>>=◌, ◌>>◌,
}
use go_astits.Astikit.{BitsWriter}
use go_astits.Descriptor.Audio.{
  write_descriptor_ac3, write_descriptor_enhanced_ac3, write_descriptor_extension,
}
use go_astits.Descriptor.Fixed.{
  write_descriptor_avc_video, write_descriptor_data_stream_alignment,
  write_descriptor_iso639_language_and_audio_type, write_descriptor_maximum_bitrate,
  write_descriptor_private_data_indicator, write_descriptor_private_data_specifier,
  write_descriptor_registration, write_descriptor_stream_identifier,
}
use go_astits.Descriptor.Text.{
  write_descriptor_component, write_descriptor_extended_event, write_descriptor_network_name,
  write_descriptor_service, write_descriptor_short_event, write_descriptor_unknown,
  write_descriptor_user_defined,
}
use go_astits.Descriptor.LocalTime.{write_descriptor_local_time_offset}
use go_astits.Descriptor.Lists.{
  write_descriptor_content, write_descriptor_parental_rating, write_descriptor_subtitling,
  write_descriptor_teletext, write_descriptor_vbi_data,
}
use go_astits.Descriptor.Dispatch.{
  Descriptor, is_user_defined, descriptor_tag_ac3, descriptor_tag_avc_video,
  descriptor_tag_component, descriptor_tag_content, descriptor_tag_data_stream_alignment,
  descriptor_tag_enhanced_ac3, descriptor_tag_extended_event, descriptor_tag_extension,
  descriptor_tag_iso639_language_and_audio_type, descriptor_tag_local_time_offset,
  descriptor_tag_maximum_bitrate, descriptor_tag_network_name, descriptor_tag_parental_rating,
  descriptor_tag_private_data_indicator, descriptor_tag_private_data_specifier,
  descriptor_tag_registration, descriptor_tag_service, descriptor_tag_short_event,
  descriptor_tag_stream_identifier, descriptor_tag_subtitling, descriptor_tag_teletext,
  descriptor_tag_vbi_data, descriptor_tag_vbi_teletext,
}
use go_astits.Descriptor.Dispatch.Lengths.{calc_descriptor_length, calc_descriptors_length}

module _ (w : BitsWriter) {Time : Type 0} (write_dvb_time : Time → M w.Writer ℕ) where
  open w use {Writer, write_uint8, write_n}

  -- The parts by their tags.
  unfoldable pub write_descriptor_content_of : Descriptor Time → M Writer (Unit {0})
  write_descriptor_content_of d =
      if is_user_defined d.tag
      then write_descriptor_user_defined w d.user_defined
      else if d.tag == descriptor_tag_ac3
      then (do x ← deref d.ac3; write_descriptor_ac3 w x)
      else if d.tag == descriptor_tag_avc_video
      then (do x ← deref d.avc_video; write_descriptor_avc_video w x)
      else if d.tag == descriptor_tag_component
      then (do x ← deref d.component; write_descriptor_component w x)
      else if d.tag == descriptor_tag_content
      then (do x ← deref d.content; write_descriptor_content w x)
      else if d.tag == descriptor_tag_data_stream_alignment
      then (do x ← deref d.data_stream_alignment; write_descriptor_data_stream_alignment w x)
      else if d.tag == descriptor_tag_enhanced_ac3
      then (do x ← deref d.enhanced_ac3; write_descriptor_enhanced_ac3 w x)
      else if d.tag == descriptor_tag_extended_event
      then (do x ← deref d.extended_event; write_descriptor_extended_event w x)
      else if d.tag == descriptor_tag_extension
      then (do x ← deref d.extension; write_descriptor_extension w x)
      else if d.tag == descriptor_tag_iso639_language_and_audio_type
      then (do
        x ← deref d.iso639_language_and_audio_type
        write_descriptor_iso639_language_and_audio_type w x)
      else if d.tag == descriptor_tag_local_time_offset
      then (do x ← deref d.local_time_offset; write_descriptor_local_time_offset w write_dvb_time x)
      else if d.tag == descriptor_tag_maximum_bitrate
      then (do x ← deref d.maximum_bitrate; write_descriptor_maximum_bitrate w x)
      else if d.tag == descriptor_tag_network_name
      then (do x ← deref d.network_name; write_descriptor_network_name w x)
      else if d.tag == descriptor_tag_parental_rating
      then (do x ← deref d.parental_rating; write_descriptor_parental_rating w x)
      else if d.tag == descriptor_tag_private_data_indicator
      then (do x ← deref d.private_data_indicator; write_descriptor_private_data_indicator w x)
      else if d.tag == descriptor_tag_private_data_specifier
      then (do x ← deref d.private_data_specifier; write_descriptor_private_data_specifier w x)
      else if d.tag == descriptor_tag_registration
      then (do x ← deref d.registration; write_descriptor_registration w x)
      else if d.tag == descriptor_tag_service
      then (do x ← deref d.service; write_descriptor_service w x)
      else if d.tag == descriptor_tag_short_event
      then (do x ← deref d.short_event; write_descriptor_short_event w x)
      else if d.tag == descriptor_tag_stream_identifier
      then (do x ← deref d.stream_identifier; write_descriptor_stream_identifier w x)
      else if d.tag == descriptor_tag_subtitling
      then (do x ← deref d.subtitling; write_descriptor_subtitling w x)
      else if d.tag == descriptor_tag_teletext
      then (do x ← deref d.teletext; write_descriptor_teletext w x)
      else if d.tag == descriptor_tag_vbi_data
      then (do x ← deref d.vbi_data; write_descriptor_vbi_data w x)
      else if d.tag == descriptor_tag_vbi_teletext
      then (do x ← deref d.vbi_teletext; write_descriptor_teletext w x)
      else (do x ← deref d.unknown; write_descriptor_unknown w x)

  unfoldable pub write_descriptor : Descriptor Time → M Writer ℕ
  write_descriptor d = do
    length ← lift (calc_descriptor_length d)
    write_uint8 d.tag
    write_uint8 length
    write_descriptor_content_of d
    pure (length + 2)

  unfoldable pub write_descriptors_loop : List (Descriptor Time) → ℕ → M Writer ℕ
  write_descriptors_loop [] written = pure written
  write_descriptors_loop (d ∷ ds) written = do
    n ← write_descriptor d
    write_descriptors_loop ds (written + n)

  unfoldable pub write_descriptors : List (Descriptor Time) → M Writer ℕ
  write_descriptors ds = write_descriptors_loop ds 0

  unfoldable pub write_length : ℕ → M Writer (Unit {0})
  write_length length = do write_n 0xff 4; write_n length 12

  unfoldable pub write_descriptors_with_length : List (Descriptor Time) → M Writer ℕ
  write_descriptors_with_length ds = do
    length ← lift (calc_descriptors_length ds)
    write_length length
    written ← write_descriptors ds
    pure (written + 2)
