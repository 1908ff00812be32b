-- ===== src/Descriptor/Lists.antt =====
-- The descriptors that are lists of items of one shape.
pub mod Items
pub mod RoundTrip
pub mod Vbi
use go_astits.Base.{
  ℕ, zero, suc, ◌+◌, ◌-◌, ◌*◌, ◌/◌, ◌%◌, ◌^◌, ◌<◌, ◌≤◌, ◌≡◌, refl, sym, ap, subst, ◌∙◌, Bool, true,
  false, ◌==◌, ◌||◌, ◌&&◌, ltb, leb, if◌then◌else◌, bit_and, Option, none, some, List, [], ◌∷◌,
  ◌++◌, map, length, take, replicate, append_assoc, append-nil, length-append, arith, M, Result, ok,
  err, panic, pure, fail, fault, deref, ◌>>=◌, ◌>>◌, when, optional, All,
}
use go_astits.Bits.{has_bit, ◌<|>◌}
use go_astits.Astikit.{BytesIterator, BitsWriter}
use go_astits.Clock.{byte_at}
use go_astits.Cursor.{bytes_to, bytes_left, counted_bytes, items_to}
use go_astits.Descriptor.Text.{write_nibbles}
use go_astits.Dvb.{parse_dvb_duration_minutes, write_dvb_duration_minutes}

pub record DescriptorContentItem : Type 0 where
  pub content_nibble_level1 : ℕ
  pub content_nibble_level2 : ℕ
  pub user_byte : ℕ

pub record DescriptorContent : Type 0 where
  pub items : List DescriptorContentItem

pub record DescriptorParentalRatingItem : Type 0 where
  pub country_code : List ℕ
  pub rating : ℕ

pub record DescriptorParentalRating : Type 0 where
  pub items : List DescriptorParentalRatingItem

-- The field `Type` is `subtitling_type`.
pub record DescriptorSubtitlingItem : Type 0 where
  pub ancillary_page_id : ℕ
  pub composition_page_id : ℕ
  pub language : List ℕ
  pub subtitling_type : ℕ

pub record DescriptorSubtitling : Type 0 where
  pub items : List DescriptorSubtitlingItem

-- The field `Type` is `teletext_type`.
pub record DescriptorTeletextItem : Type 0 where
  pub language : List ℕ
  pub magazine : ℕ
  pub page : ℕ
  pub teletext_type : ℕ

pub record DescriptorTeletext : Type 0 where
  pub items : List DescriptorTeletextItem

pub record DescriptorVbiDataDescriptor : Type 0 where
  pub field_parity : Bool
  pub line_offset : ℕ

pub record DescriptorVbiDataService : Type 0 where
  pub data_service_id : ℕ
  pub descriptors : List DescriptorVbiDataDescriptor

pub record DescriptorVbiData : Type 0 where
  pub services : List DescriptorVbiDataService

-- `MinimumAge`
unfoldable pub minimum_age : DescriptorParentalRatingItem → ℕ
minimum_age d = if (d.rating == 0) || ltb 0x10 d.rating then 0 else d.rating + 3

-- The services whose data is lines of a field: closed captioning, teletext, inverted teletext,
-- monochrome samples, VPS and WSS.
unfoldable pub is_line_service : ℕ → Bool
is_line_service id =
    (id == 0x6) || ((id == 0x1) || ((id == 0x2) || ((id == 0x7) || ((id == 0x4) || (id == 0x5)))))

-- What the turns of the inner loop add.
abbrev pub concat {ℓ} : {A : Type ℓ} → List (List A) → List A
concat [] = []
concat (x ∷ xs) = x ++ concat xs

module _ (r : BytesIterator) where
  open r use {Iter, next_byte, next_bytes, offset}

  unfoldable pub content_item : M Iter DescriptorContentItem
  content_item = do
    bs ← next_bytes 2
    pure (record {
      content_nibble_level1 = byte_at bs 0 / 2 ^ 4;
      content_nibble_level2 = bit_and (byte_at bs 0) 0xf;
      user_byte = byte_at bs 1;
    })

  unfoldable pub new_descriptor_content : ℕ → M Iter DescriptorContent
  new_descriptor_content offset_end = do
    items ← items_to r offset_end content_item
    pure (record { items = items })

  unfoldable pub parental_rating_item : M Iter DescriptorParentalRatingItem
  parental_rating_item = do
    bs ← next_bytes 4
    pure (record { country_code = take 3 bs; rating = byte_at bs 3 })

  unfoldable pub new_descriptor_parental_rating : ℕ → M Iter DescriptorParentalRating
  new_descriptor_parental_rating offset_end = do
    items ← items_to r offset_end parental_rating_item
    pure (record { items = items })

  unfoldable pub subtitling_item : M Iter DescriptorSubtitlingItem
  subtitling_item = do
    language ← next_bytes 3
    b ← next_byte
    page ← next_bytes 2
    ancillary ← next_bytes 2
    pure (record {
      ancillary_page_id = byte_at ancillary 0 * 2 ^ 8 <|> byte_at ancillary 1;
      composition_page_id = byte_at page 0 * 2 ^ 8 <|> byte_at page 1;
      language = language;
      subtitling_type = b;
    })

  unfoldable pub new_descriptor_subtitling : ℕ → M Iter DescriptorSubtitling
  new_descriptor_subtitling offset_end = do
    items ← items_to r offset_end subtitling_item
    pure (record { items = items })

  -- The page is two decimal digits, summed as a `uint8`.
  unfoldable pub teletext_item : M Iter DescriptorTeletextItem
  teletext_item = do
    language ← next_bytes 3
    b ← next_byte
    page ← next_byte
    pure (record {
      language = language;
      magazine = bit_and b 0x7;
      page = (page / 2 ^ 4 * 10 + bit_and page 0xf) % 256;
      teletext_type = b / 2 ^ 3;
    })

  unfoldable pub new_descriptor_teletext : ℕ → M Iter DescriptorTeletext
  new_descriptor_teletext offset_end = do
    items ← items_to r offset_end teletext_item
    pure (record { items = items })

  unfoldable pub vbi_data_descriptor : M Iter DescriptorVbiDataDescriptor
  vbi_data_descriptor = do
    b ← next_byte
    pure (record { field_parity = has_bit b 0x20; line_offset = bit_and b 0x1f })

  -- The body of the inner loop. Of another service it reads nothing, and adds nothing.
  unfoldable pub vbi_data_descriptor_of : ℕ → M Iter (List DescriptorVbiDataDescriptor)
  vbi_data_descriptor_of id =
      if is_line_service id then (do d ← vbi_data_descriptor; pure (d ∷ [])) else pure []

  unfoldable pub vbi_data_descriptors : ℕ → ℕ → M Iter (List (List DescriptorVbiDataDescriptor))
  vbi_data_descriptors id descriptor_length i =
      items_to r (offset i + descriptor_length) (vbi_data_descriptor_of id) i

  unfoldable pub vbi_data_service : M Iter DescriptorVbiDataService
  vbi_data_service = do
    id ← next_byte
    descriptor_length ← next_byte
    descriptors ← vbi_data_descriptors id descriptor_length
    pure (record { data_service_id = id; descriptors = concat descriptors })

  unfoldable pub new_descriptor_vbi_data : ℕ → M Iter DescriptorVbiData
  new_descriptor_vbi_data offset_end = do
    services ← items_to r offset_end vbi_data_service
    pure (record { services = services })

unfoldable pub calc_descriptor_content_length : DescriptorContent → ℕ
calc_descriptor_content_length d = 2 * length d.items % 256

unfoldable pub calc_descriptor_parental_rating_length : DescriptorParentalRating → ℕ
calc_descriptor_parental_rating_length d = 4 * length d.items % 256

unfoldable pub calc_descriptor_subtitling_length : DescriptorSubtitling → ℕ
calc_descriptor_subtitling_length d = 8 * length d.items % 256

unfoldable pub calc_descriptor_teletext_length : DescriptorTeletext → ℕ
calc_descriptor_teletext_length d = 5 * length d.items % 256

unfoldable pub calc_descriptor_vbi_data_length : DescriptorVbiData → ℕ
calc_descriptor_vbi_data_length d = 3 * length d.services % 256

module _ (w : BitsWriter) where
  open w use {Writer, write_bool, write_uint8, write_uint16, write_bytes_n, write_n}

  -- `for _, item := range items`
  unfoldable pub write_each {ℓ} :
      {A : Type ℓ} → (A → M Writer (Unit {0})) → List A → M Writer (Unit {0})
  write_each f [] = pure tt
  write_each f (a ∷ rest) = do f a; write_each f rest

  unfoldable pub write_content_item : DescriptorContentItem → M Writer (Unit {0})
  write_content_item item = do
    write_nibbles w item.content_nibble_level1 item.content_nibble_level2
    write_uint8 item.user_byte

  unfoldable pub write_descriptor_content : DescriptorContent → M Writer (Unit {0})
  write_descriptor_content d = write_each write_content_item d.items

  unfoldable pub write_parental_rating_item : DescriptorParentalRatingItem → M Writer (Unit {0})
  write_parental_rating_item item = do write_bytes_n item.country_code 3 0; write_uint8 item.rating

  unfoldable pub write_descriptor_parental_rating : DescriptorParentalRating → M Writer (Unit {0})
  write_descriptor_parental_rating d = write_each write_parental_rating_item d.items

  unfoldable pub write_subtitling_item : DescriptorSubtitlingItem → M Writer (Unit {0})
  write_subtitling_item item = do
    write_bytes_n item.language 3 0
    write_uint8 item.subtitling_type
    write_uint16 item.composition_page_id
    write_uint16 item.ancillary_page_id

  unfoldable pub write_descriptor_subtitling : DescriptorSubtitling → M Writer (Unit {0})
  write_descriptor_subtitling d = write_each write_subtitling_item d.items

  unfoldable pub write_teletext_type : DescriptorTeletextItem → M Writer (Unit {0})
  write_teletext_type item = do write_n item.teletext_type 5; write_n item.magazine 3

  unfoldable pub write_teletext_item : DescriptorTeletextItem → M Writer (Unit {0})
  write_teletext_item item = do
    write_bytes_n item.language 3 0
    write_teletext_type item
    write_nibbles w (item.page / 10) (item.page % 10)

  unfoldable pub write_descriptor_teletext : DescriptorTeletext → M Writer (Unit {0})
  write_descriptor_teletext d = write_each write_teletext_item d.items

  unfoldable pub write_vbi_data_descriptor : DescriptorVbiDataDescriptor → M Writer (Unit {0})
  write_vbi_data_descriptor d = do
    write_n 0xff 2
    write_bool d.field_parity
    write_n d.line_offset 5

  unfoldable pub write_vbi_data_service : DescriptorVbiDataService → M Writer (Unit {0})
  write_vbi_data_service item = do
    write_uint8 item.data_service_id
    (if is_line_service item.data_service_id
        then (do
          write_uint8 (length item.descriptors % 256)
          write_each write_vbi_data_descriptor item.descriptors)
        else (do write_uint8 1; write_uint8 0xff))

  unfoldable pub write_descriptor_vbi_data : DescriptorVbiData → M Writer (Unit {0})
  write_descriptor_vbi_data d = write_each write_vbi_data_service d.services
