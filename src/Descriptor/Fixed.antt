-- ===== src/Descriptor/Fixed.antt =====
-- The descriptors of a fixed shape: identifiers, indicators and rates.
pub mod RoundTrip
use go_astits.Base.{
  ℕ, zero, suc, ◌+◌, ◌-◌, ◌*◌, ◌/◌, ◌%◌, ◌^◌, ◌<◌, ◌≤◌, ◌≡◌, refl, sym, ap, subst, ◌∙◌, Bool, true,
  false, ◌==◌, ◌||◌, ◌&&◌, ltb, leb, if◌then◌else◌, bit_and, Option, none, some, List, [], ◌∷◌,
  ◌++◌, map, length, take, replicate, append_assoc, append-nil, length-append, arith, M, Result, ok,
  err, panic, pure, fail, fault, deref, ◌>>=◌, ◌>>◌, when, optional, All,
}
use go_astits.Bits.{has_bit, ◌<|>◌}
use go_astits.Astikit.{BytesIterator, BitsWriter}
use go_astits.Clock.{byte_at}
use go_astits.Cursor.{bytes_to, bytes_left, counted_bytes, items_to}

pub record DescriptorAvcVideo : Type 0 where
  pub avc_24_hour_picture_flag : Bool
  pub avc_still_present : Bool
  pub compatible_flags : ℕ
  pub constraint_set0_flag : Bool
  pub constraint_set1_flag : Bool
  pub constraint_set2_flag : Bool
  pub level_idc : ℕ
  pub profile_idc : ℕ

-- The field `Type`.
pub record DescriptorDataStreamAlignment : Type 0 where
  pub alignment_type : ℕ

-- The field `Type` is `audio_type`.
pub record DescriptorIso639LanguageAndAudioType : Type 0 where
  pub language : List ℕ
  pub audio_type : ℕ

pub record DescriptorMaximumBitrate : Type 0 where
  pub bitrate : ℕ

pub record DescriptorPrivateDataIndicator : Type 0 where
  pub indicator : ℕ

pub record DescriptorPrivateDataSpecifier : Type 0 where
  pub specifier : ℕ

pub record DescriptorRegistration : Type 0 where
  pub additional_identification_info : List ℕ
  pub format_identifier : ℕ

pub record DescriptorStreamIdentifier : Type 0 where
  pub component_tag : ℕ

-- `uint32(bs[0])<<24 | uint32(bs[1])<<16 | uint32(bs[2])<<8 | uint32(bs[3])`
unfoldable pub uint32_of_bytes : List ℕ → ℕ
uint32_of_bytes bs =
    byte_at bs 0 * 2 ^ 24 <|> byte_at bs 1 * 2 ^ 16 <|> byte_at bs 2 * 2 ^ 8 <|> byte_at bs 3

-- `bs[0:len(bs)-1]` and `bs[len(bs)-1]`, which panic where there are no bytes.
unfoldable pub split_last : List ℕ → Option (List ℕ × ℕ)
split_last [] = none
split_last (x ∷ xs) = elim (split_last xs) [ none ↦ some ([], x) | some (ys, y) ↦ some (x ∷ ys, y) ]

module _ (r : BytesIterator) where
  open r use {Iter, next_byte, next_bytes}

  unfoldable pub new_descriptor_avc_video : M Iter DescriptorAvcVideo
  new_descriptor_avc_video = do
    profile_idc ← next_byte
    flags ← next_byte
    level_idc ← next_byte
    b ← next_byte
    pure (record {
      avc_24_hour_picture_flag = has_bit b 0x40;
      avc_still_present = has_bit b 0x80;
      compatible_flags = bit_and flags 0x1f;
      constraint_set0_flag = has_bit flags 0x80;
      constraint_set1_flag = has_bit flags 0x40;
      constraint_set2_flag = has_bit flags 0x20;
      level_idc = level_idc;
      profile_idc = profile_idc;
    })

  unfoldable pub new_descriptor_data_stream_alignment : M Iter DescriptorDataStreamAlignment
  new_descriptor_data_stream_alignment = do b ← next_byte; pure (record { alignment_type = b })

  unfoldable pub new_descriptor_iso639_language_and_audio_type :
      ℕ → M Iter DescriptorIso639LanguageAndAudioType
  new_descriptor_iso639_language_and_audio_type offset_end = do
    bs ← bytes_to r offset_end
    (language, audio_type) ← deref (split_last bs)
    pure (record { language = language; audio_type = audio_type })

  -- The product is a `uint32`.
  unfoldable pub new_descriptor_maximum_bitrate : M Iter DescriptorMaximumBitrate
  new_descriptor_maximum_bitrate = do
    bs ← next_bytes 3
    pure (record {
      bitrate =
          (bit_and (byte_at bs 0) 0x3f * 2 ^ 16 <|> byte_at bs 1 * 2 ^ 8 <|> byte_at bs 2)
          * 50
          % 2 ^ 32;
    })

  unfoldable pub new_descriptor_private_data_indicator : M Iter DescriptorPrivateDataIndicator
  new_descriptor_private_data_indicator = do
    bs ← next_bytes 4
    pure (record { indicator = uint32_of_bytes bs })

  unfoldable pub new_descriptor_private_data_specifier : M Iter DescriptorPrivateDataSpecifier
  new_descriptor_private_data_specifier = do
    bs ← next_bytes 4
    pure (record { specifier = uint32_of_bytes bs })

  unfoldable pub new_descriptor_registration : ℕ → M Iter DescriptorRegistration
  new_descriptor_registration offset_end = do
    bs ← next_bytes 4
    info ← bytes_left r offset_end
    pure (record { additional_identification_info = info; format_identifier = uint32_of_bytes bs })

  unfoldable pub new_descriptor_stream_identifier : M Iter DescriptorStreamIdentifier
  new_descriptor_stream_identifier = do b ← next_byte; pure (record { component_tag = b })

unfoldable pub calc_descriptor_registration_length : DescriptorRegistration → ℕ
calc_descriptor_registration_length d = (4 + length d.additional_identification_info) % 256

-- The lengths that are fixed, in bytes.
abbrev pub calc_descriptor_avc_video_length : ℕ
calc_descriptor_avc_video_length = 4

abbrev pub calc_descriptor_data_stream_alignment_length : ℕ
calc_descriptor_data_stream_alignment_length = 1

abbrev pub calc_descriptor_iso639_language_and_audio_type_length : ℕ
calc_descriptor_iso639_language_and_audio_type_length = 4

abbrev pub calc_descriptor_maximum_bitrate_length : ℕ
calc_descriptor_maximum_bitrate_length = 3

abbrev pub calc_descriptor_private_data_indicator_length : ℕ
calc_descriptor_private_data_indicator_length = 4

abbrev pub calc_descriptor_private_data_specifier_length : ℕ
calc_descriptor_private_data_specifier_length = 4

abbrev pub calc_descriptor_stream_identifier_length : ℕ
calc_descriptor_stream_identifier_length = 1

module _ (w : BitsWriter) where
  open w use {Writer, write_bool, write_uint8, write_uint32, write_bytes, write_bytes_n, write_n}

  unfoldable pub write_avc_constraints : DescriptorAvcVideo → M Writer (Unit {0})
  write_avc_constraints d = do
    write_bool d.constraint_set0_flag
    write_bool d.constraint_set1_flag
    write_bool d.constraint_set2_flag
    write_n d.compatible_flags 5

  unfoldable pub write_avc_flags : DescriptorAvcVideo → M Writer (Unit {0})
  write_avc_flags d = do
    write_bool d.avc_still_present
    write_bool d.avc_24_hour_picture_flag
    write_n 0xff 6

  unfoldable pub write_descriptor_avc_video : DescriptorAvcVideo → M Writer (Unit {0})
  write_descriptor_avc_video d = do
    write_uint8 d.profile_idc
    write_avc_constraints d
    write_uint8 d.level_idc
    write_avc_flags d

  unfoldable pub write_descriptor_data_stream_alignment :
      DescriptorDataStreamAlignment → M Writer (Unit {0})
  write_descriptor_data_stream_alignment d = write_uint8 d.alignment_type

  unfoldable pub write_descriptor_iso639_language_and_audio_type :
      DescriptorIso639LanguageAndAudioType → M Writer (Unit {0})
  write_descriptor_iso639_language_and_audio_type d = do
    write_bytes_n d.language 3 0
    write_uint8 d.audio_type

  unfoldable pub write_descriptor_maximum_bitrate : DescriptorMaximumBitrate → M Writer (Unit {0})
  write_descriptor_maximum_bitrate d = do write_n 0xff 2; write_n (d.bitrate / 50) 22

  unfoldable pub write_descriptor_private_data_indicator :
      DescriptorPrivateDataIndicator → M Writer (Unit {0})
  write_descriptor_private_data_indicator d = write_uint32 d.indicator

  unfoldable pub write_descriptor_private_data_specifier :
      DescriptorPrivateDataSpecifier → M Writer (Unit {0})
  write_descriptor_private_data_specifier d = write_uint32 d.specifier

  unfoldable pub write_descriptor_registration : DescriptorRegistration → M Writer (Unit {0})
  write_descriptor_registration d = do
    write_uint32 d.format_identifier
    write_bytes d.additional_identification_info

  unfoldable pub write_descriptor_stream_identifier :
      DescriptorStreamIdentifier → M Writer (Unit {0})
  write_descriptor_stream_identifier d = write_uint8 d.component_tag
