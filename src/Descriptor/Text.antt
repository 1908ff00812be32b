-- ===== src/Descriptor/Text.antt =====
-- The descriptors that carry text or bytes as they are.
pub mod RoundTrip
use go_astits.Base.{
  ℕ, zero, suc, ◌+◌, ◌-◌, ◌*◌, ◌/◌, ◌%◌, ◌^◌, ◌<◌, ◌≤◌, ◌≡◌, refl, sym, ap, subst, ◌∙◌, Bool, true,
  false, ◌==◌, ◌||◌, ◌&&◌, ltb, leb, if◌then◌else◌, bit_and, Option, none, some, List, [], ◌∷◌,
  ◌++◌, map, length, take, replicate, append_assoc, append-nil, length-append, arith, M, Result, ok,
  err, panic, pure, fail, fault, deref, ◌>>=◌, ◌>>◌, when, optional, All,
}
use go_astits.Bits.{has_bit, ◌<|>◌}
use go_astits.Astikit.{BytesIterator, BitsWriter}
use go_astits.Clock.{byte_at}
use go_astits.Cursor.{bytes_to, bytes_left, counted_bytes, items_to}

pub record DescriptorComponent : Type 0 where
  pub component_tag : ℕ
  pub component_type : ℕ
  pub iso639_language_code : List ℕ
  pub stream_content : ℕ
  pub stream_content_ext : ℕ
  pub text : List ℕ

pub record DescriptorExtendedEventItem : Type 0 where
  pub content : List ℕ
  pub description : List ℕ

pub record DescriptorExtendedEvent : Type 0 where
  pub iso639_language_code : List ℕ
  pub items : List DescriptorExtendedEventItem
  pub last_descriptor_number : ℕ
  pub number : ℕ
  pub text : List ℕ

pub record DescriptorNetworkName : Type 0 where
  pub name : List ℕ

-- The field `Type` is `service_type`.
pub record DescriptorService : Type 0 where
  pub name : List ℕ
  pub provider : List ℕ
  pub service_type : ℕ

pub record DescriptorShortEvent : Type 0 where
  pub event_name : List ℕ
  pub language : List ℕ
  pub text : List ℕ

pub record DescriptorUnknown : Type 0 where
  pub content : List ℕ
  pub tag : ℕ

module _ (r : BytesIterator) where
  open r use {Iter, next_byte, next_bytes, offset}

  unfoldable pub new_descriptor_component : ℕ → M Iter DescriptorComponent
  new_descriptor_component offset_end = do
    b ← next_byte
    component_type ← next_byte
    component_tag ← next_byte
    code ← next_bytes 3
    text ← bytes_left r offset_end
    pure (record {
      component_tag = component_tag;
      component_type = component_type;
      iso639_language_code = code;
      stream_content = bit_and b 0xf;
      stream_content_ext = b / 2 ^ 4;
      text = text;
    })

  unfoldable pub new_descriptor_extended_event_item : M Iter DescriptorExtendedEventItem
  new_descriptor_extended_event_item = do
    description ← counted_bytes r
    content ← counted_bytes r
    pure (record { content = content; description = description })

  -- The items end `items_length` bytes behind the offset at which they begin.
  unfoldable pub extended_event_items : ℕ → M Iter (List DescriptorExtendedEventItem)
  extended_event_items items_length i =
      items_to r (offset i + items_length) new_descriptor_extended_event_item i

  unfoldable pub new_descriptor_extended_event : M Iter DescriptorExtendedEvent
  new_descriptor_extended_event = do
    b ← next_byte
    code ← next_bytes 3
    items_length ← next_byte
    items ← extended_event_items items_length
    text ← counted_bytes r
    pure (record {
      iso639_language_code = code;
      items = items;
      last_descriptor_number = bit_and b 0xf;
      number = b / 2 ^ 4;
      text = text;
    })

  unfoldable pub new_descriptor_network_name : ℕ → M Iter DescriptorNetworkName
  new_descriptor_network_name offset_end = do
    name ← bytes_to r offset_end
    pure (record { name = name })

  unfoldable pub new_descriptor_service : M Iter DescriptorService
  new_descriptor_service = do
    service_type ← next_byte
    provider ← counted_bytes r
    name ← counted_bytes r
    pure (record { name = name; provider = provider; service_type = service_type })

  unfoldable pub new_descriptor_short_event : M Iter DescriptorShortEvent
  new_descriptor_short_event = do
    language ← next_bytes 3
    event_name ← counted_bytes r
    text ← counted_bytes r
    pure (record { event_name = event_name; language = language; text = text })

  unfoldable pub new_descriptor_unknown : ℕ → ℕ → M Iter DescriptorUnknown
  new_descriptor_unknown tag length = do
    content ← next_bytes length
    pure (record { content = content; tag = tag })

unfoldable pub calc_descriptor_user_defined_length : List ℕ → ℕ
calc_descriptor_user_defined_length d = length d % 256

unfoldable pub calc_descriptor_component_length : DescriptorComponent → ℕ
calc_descriptor_component_length d = (6 + length d.text) % 256

-- The loop over the items, which counts the description, the content, and their lengths.
unfoldable pub calc_items_length : List DescriptorExtendedEventItem → ℕ
calc_items_length [] = 0
calc_items_length (item ∷ items) =
    1 + length item.description + 1 + length item.content + calc_items_length items

unfoldable pub calc_descriptor_extended_event_length : DescriptorExtendedEvent → ℕ × ℕ
calc_descriptor_extended_event_length d =
    let items_ret = calc_items_length d.items in
    ((5 + items_ret + 1 + length d.text) % 256, items_ret % 256)

unfoldable pub calc_descriptor_network_name_length : DescriptorNetworkName → ℕ
calc_descriptor_network_name_length d = length d.name % 256

unfoldable pub calc_descriptor_service_length : DescriptorService → ℕ
calc_descriptor_service_length d = (3 + length d.name + length d.provider) % 256

unfoldable pub calc_descriptor_short_event_length : DescriptorShortEvent → ℕ
calc_descriptor_short_event_length d = (3 + 1 + 1 + length d.event_name + length d.text) % 256

unfoldable pub calc_descriptor_unknown_length : DescriptorUnknown → ℕ
calc_descriptor_unknown_length d = length d.content % 256

module _ (w : BitsWriter) where
  open w use {Writer, write_uint8, write_bytes, write_bytes_n, write_n}

  -- `uint8(len(bs))` and the bytes
  unfoldable pub write_counted : List ℕ → M Writer (Unit {0})
  write_counted bs = do write_uint8 (length bs % 256); write_bytes bs

  -- Two numbers of four bits in a byte.
  unfoldable pub write_nibbles : ℕ → ℕ → M Writer (Unit {0})
  write_nibbles high low = do write_n high 4; write_n low 4

  unfoldable pub write_descriptor_user_defined : List ℕ → M Writer (Unit {0})
  write_descriptor_user_defined d = write_bytes d

  unfoldable pub write_descriptor_component : DescriptorComponent → M Writer (Unit {0})
  write_descriptor_component d = do
    write_nibbles d.stream_content_ext d.stream_content
    write_uint8 d.component_type
    write_uint8 d.component_tag
    write_bytes_n d.iso639_language_code 3 0
    write_bytes d.text

  unfoldable pub write_event_items : List DescriptorExtendedEventItem → M Writer (Unit {0})
  write_event_items [] = pure tt
  write_event_items (item ∷ items) = do
    write_counted item.description
    write_counted item.content
    write_event_items items

  unfoldable pub write_descriptor_extended_event : DescriptorExtendedEvent → M Writer (Unit {0})
  write_descriptor_extended_event d = do
    write_nibbles d.number d.last_descriptor_number
    write_bytes_n d.iso639_language_code 3 0
    write_uint8 (calc_descriptor_extended_event_length d).1
    write_event_items d.items
    write_counted d.text

  unfoldable pub write_descriptor_network_name : DescriptorNetworkName → M Writer (Unit {0})
  write_descriptor_network_name d = write_bytes d.name

  unfoldable pub write_descriptor_service : DescriptorService → M Writer (Unit {0})
  write_descriptor_service d = do
    write_uint8 d.service_type
    write_counted d.provider
    write_counted d.name

  unfoldable pub write_descriptor_short_event : DescriptorShortEvent → M Writer (Unit {0})
  write_descriptor_short_event d = do
    write_bytes_n d.language 3 0
    write_counted d.event_name
    write_counted d.text

  unfoldable pub write_descriptor_unknown : DescriptorUnknown → M Writer (Unit {0})
  write_descriptor_unknown d = write_bytes d.content
