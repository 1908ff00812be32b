-- ===== src/Descriptor/Audio.antt =====
-- The descriptors of sound: AC-3, enhanced AC-3, and the extension with supplementary audio.
pub mod RoundTrip
pub mod EnhancedRoundTrip
pub mod Extension
use go_astits.Base.{
  ℕ, zero, suc, ◌+◌, ◌-◌, ◌*◌, ◌/◌, ◌%◌, ◌^◌, ◌<◌, ◌≤◌, ◌≡◌, refl, sym, ap, subst, ◌∙◌, Bool, true,
  false, ◌==◌, ◌||◌, ◌&&◌, ltb, leb, if◌then◌else◌, bit_and, Option, none, some, List, [], ◌∷◌,
  ◌++◌, map, length, take, replicate, append_assoc, append-nil, length-append, arith, M, Result, ok,
  err, panic, pure, fail, fault, deref, ◌>>=◌, ◌>>◌, when, optional, All,
}
use go_astits.Bits.{has_bit, ◌<|>◌}
use go_astits.Astikit.{BytesIterator, BitsWriter}
use go_astits.Clock.{byte_at}
use go_astits.Cursor.{bytes_to, bytes_left, counted_bytes, items_to}

pub record DescriptorAc3 : Type 0 where
  pub additional_info : List ℕ
  pub asvc : ℕ
  pub bsid : ℕ
  pub component_type : ℕ
  pub has_asvc : Bool
  pub has_bsid : Bool
  pub has_component_type : Bool
  pub has_main_id : Bool
  pub main_id : ℕ

pub record DescriptorEnhancedAc3 : Type 0 where
  pub additional_info : List ℕ
  pub asvc : ℕ
  pub bsid : ℕ
  pub component_type : ℕ
  pub has_asvc : Bool
  pub has_bsid : Bool
  pub has_component_type : Bool
  pub has_main_id : Bool
  pub has_sub_stream1 : Bool
  pub has_sub_stream2 : Bool
  pub has_sub_stream3 : Bool
  pub main_id : ℕ
  pub mix_info_exists : Bool
  pub sub_stream1 : ℕ
  pub sub_stream2 : ℕ
  pub sub_stream3 : ℕ

pub record DescriptorExtensionSupplementaryAudio : Type 0 where
  pub editorial_classification : ℕ
  pub has_language_code : Bool
  pub language_code : List ℕ
  pub mix_type : Bool
  pub private_data : List ℕ

pub record DescriptorExtension : Type 0 where
  pub supplementary_audio : Option DescriptorExtensionSupplementaryAudio
  pub tag : ℕ
  pub unknown : Option (List ℕ)

abbrev pub descriptor_tag_extension_supplementary_audio : ℕ
descriptor_tag_extension_supplementary_audio = 0x6

module _ (r : BytesIterator) where
  open r use {Iter, next_byte, next_bytes, offset}

  unfoldable pub new_descriptor_ac3 : ℕ → M Iter DescriptorAc3
  new_descriptor_ac3 offset_end = do
    b ← next_byte
    component_type ← when (has_bit b 0x80) 0 next_byte
    bsid ← when (has_bit b 0x40) 0 next_byte
    main_id ← when (has_bit b 0x20) 0 next_byte
    asvc ← when (has_bit b 0x10) 0 next_byte
    additional_info ← bytes_left r offset_end
    pure (record {
      additional_info = additional_info;
      asvc = asvc;
      bsid = bsid;
      component_type = component_type;
      has_asvc = has_bit b 0x10;
      has_bsid = has_bit b 0x40;
      has_component_type = has_bit b 0x80;
      has_main_id = has_bit b 0x20;
      main_id = main_id;
    })

  unfoldable pub new_descriptor_enhanced_ac3 : ℕ → M Iter DescriptorEnhancedAc3
  new_descriptor_enhanced_ac3 offset_end = do
    b ← next_byte
    component_type ← when (has_bit b 0x80) 0 next_byte
    bsid ← when (has_bit b 0x40) 0 next_byte
    main_id ← when (has_bit b 0x20) 0 next_byte
    asvc ← when (has_bit b 0x10) 0 next_byte
    sub_stream1 ← when (has_bit b 0x4) 0 next_byte
    sub_stream2 ← when (has_bit b 0x2) 0 next_byte
    sub_stream3 ← when (has_bit b 0x1) 0 next_byte
    additional_info ← bytes_left r offset_end
    pure (record {
      additional_info = additional_info;
      asvc = asvc;
      bsid = bsid;
      component_type = component_type;
      has_asvc = has_bit b 0x10;
      has_bsid = has_bit b 0x40;
      has_component_type = has_bit b 0x80;
      has_main_id = has_bit b 0x20;
      has_sub_stream1 = has_bit b 0x4;
      has_sub_stream2 = has_bit b 0x2;
      has_sub_stream3 = has_bit b 0x1;
      main_id = main_id;
      mix_info_exists = has_bit b 0x8;
      sub_stream1 = sub_stream1;
      sub_stream2 = sub_stream2;
      sub_stream3 = sub_stream3;
    })

  unfoldable pub new_descriptor_extension_supplementary_audio :
      ℕ → M Iter DescriptorExtensionSupplementaryAudio
  new_descriptor_extension_supplementary_audio offset_end = do
    b ← next_byte
    language_code ← when (has_bit b 0x1) [] (next_bytes 3)
    private_data ← bytes_left r offset_end
    pure (record {
      editorial_classification = bit_and (b / 2 ^ 2) 0x1f;
      has_language_code = has_bit b 0x1;
      language_code = language_code;
      mix_type = has_bit b 0x80;
      private_data = private_data;
    })

  unfoldable pub new_descriptor_extension : ℕ → M Iter DescriptorExtension
  new_descriptor_extension offset_end = do
    b ← next_byte
    (if b == descriptor_tag_extension_supplementary_audio
        then (do
          d ← new_descriptor_extension_supplementary_audio offset_end
          pure (record { supplementary_audio = some d; tag = b; unknown = none }))
        else (do
          bs ← bytes_to r offset_end
          pure (record { supplementary_audio = none; tag = b; unknown = some bs })))

-- `if c { ret += n }`
abbrev pub if_set : Bool → ℕ → ℕ
if_set true n = n
if_set false n = 0

unfoldable pub calc_descriptor_ac3_length : DescriptorAc3 → ℕ
calc_descriptor_ac3_length d =
    (1
      + if_set d.has_component_type 1
      + if_set d.has_bsid 1
      + if_set d.has_main_id 1
      + if_set d.has_asvc 1
      + length d.additional_info)
    % 256

unfoldable pub calc_descriptor_enhanced_ac3_length : DescriptorEnhancedAc3 → ℕ
calc_descriptor_enhanced_ac3_length d =
    (1
      + if_set d.has_component_type 1
      + if_set d.has_bsid 1
      + if_set d.has_main_id 1
      + if_set d.has_asvc 1
      + if_set d.has_sub_stream1 1
      + if_set d.has_sub_stream2 1
      + if_set d.has_sub_stream3 1
      + length d.additional_info)
    % 256

unfoldable pub calc_descriptor_extension_supplementary_audio_length :
    DescriptorExtensionSupplementaryAudio → ℕ
calc_descriptor_extension_supplementary_audio_length d =
    1 + if_set d.has_language_code 3 + length d.private_data

-- `len(*d.Unknown)`, if it is there.
abbrev pub unknown_length : Option (List ℕ) → ℕ
unknown_length none = 0
unknown_length (some bs) = length bs

-- `d.HasLanguageCode` of a supplementary audio that is not there panics.
unfoldable pub calc_descriptor_extension_length : DescriptorExtension → Result ℕ
calc_descriptor_extension_length d =
    if d.tag == descriptor_tag_extension_supplementary_audio
    then elim d.supplementary_audio [
      | none ↦ panic
      | some a ↦ ok ((1 + calc_descriptor_extension_supplementary_audio_length a) % 256)
    ]
    else ok ((1 + unknown_length d.unknown) % 256)

module _ (w : BitsWriter) where
  open w use {Writer, write_bool, write_uint8, write_bytes, write_bytes_n, write_n}

  unfoldable pub write_ac3_flags : DescriptorAc3 → M Writer (Unit {0})
  write_ac3_flags d = do
    write_bool d.has_component_type
    write_bool d.has_bsid
    write_bool d.has_main_id
    write_bool d.has_asvc
    write_n 0xff 4

  unfoldable pub write_descriptor_ac3 : DescriptorAc3 → M Writer (Unit {0})
  write_descriptor_ac3 d = do
    write_ac3_flags d
    when d.has_component_type tt (write_uint8 d.component_type)
    when d.has_bsid tt (write_uint8 d.bsid)
    when d.has_main_id tt (write_uint8 d.main_id)
    when d.has_asvc tt (write_uint8 d.asvc)
    write_bytes d.additional_info

  unfoldable pub write_enhanced_ac3_flags : DescriptorEnhancedAc3 → M Writer (Unit {0})
  write_enhanced_ac3_flags d = do
    write_bool d.has_component_type
    write_bool d.has_bsid
    write_bool d.has_main_id
    write_bool d.has_asvc
    write_bool d.mix_info_exists
    write_bool d.has_sub_stream1
    write_bool d.has_sub_stream2
    write_bool d.has_sub_stream3

  unfoldable pub write_descriptor_enhanced_ac3 : DescriptorEnhancedAc3 → M Writer (Unit {0})
  write_descriptor_enhanced_ac3 d = do
    write_enhanced_ac3_flags d
    when d.has_component_type tt (write_uint8 d.component_type)
    when d.has_bsid tt (write_uint8 d.bsid)
    when d.has_main_id tt (write_uint8 d.main_id)
    when d.has_asvc tt (write_uint8 d.asvc)
    when d.has_sub_stream1 tt (write_uint8 d.sub_stream1)
    when d.has_sub_stream2 tt (write_uint8 d.sub_stream2)
    when d.has_sub_stream3 tt (write_uint8 d.sub_stream3)
    write_bytes d.additional_info

  unfoldable pub write_supplementary_audio_flags :
      DescriptorExtensionSupplementaryAudio → M Writer (Unit {0})
  write_supplementary_audio_flags d = do
    write_bool d.mix_type
    write_n d.editorial_classification 5
    write_bool true
    write_bool d.has_language_code

  unfoldable pub write_descriptor_extension_supplementary_audio :
      DescriptorExtensionSupplementaryAudio → M Writer (Unit {0})
  write_descriptor_extension_supplementary_audio d = do
    write_supplementary_audio_flags d
    when d.has_language_code tt (write_bytes_n d.language_code 3 0)
    write_bytes d.private_data

  unfoldable pub write_unknown_extension : Option (List ℕ) → M Writer (Unit {0})
  write_unknown_extension none = pure tt
  write_unknown_extension (some bs) = write_bytes bs

  unfoldable pub write_descriptor_extension : DescriptorExtension → M Writer (Unit {0})
  write_descriptor_extension d = do
    write_uint8 d.tag
    (if d.tag == descriptor_tag_extension_supplementary_audio
        then (do a ← deref d.supplementary_audio; write_descriptor_extension_supplementary_audio a)
        else write_unknown_extension d.unknown)
