-- ===== src/Descriptor/Text/RoundTrip.antt =====
-- The descriptors that carry text, written and read.
use go_astits.Base.{
  ℕ, ◌+◌, ◌*◌, ◌%◌, ◌<◌, ◌≡◌, refl, sym, List, [], ◌∷◌, ◌++◌, length, append_assoc, length-append,
  arith, All,
}
use go_astits.Astikit.{BytesIterator, IsBytesIterator, BitsWriter, IsBitsWriter}
use go_astits.Codec.{
  Reads, Reads-bind, Reads-last, Reads-pure, Reads-byte, Reads-bytes, Writes, Writes-bind,
  Writes-uint8, Writes-return, Writes-bytes,
}
use go_astits.Cursor.Reads.{
  ReadsTo, Reads-ReadsTo, ReadsTo-bind, ReadsTo-last, bytes_left-ReadsTo, bytes_of,
  items_to-ReadsTo, counted_bytes-Reads, bytes_to-ReadsTo,
}
use go_astits.Descriptor.Frame.{Carries, carries, Writes-plain, Writes-padded}
use go_astits.Descriptor.Frame.{write_counted-Writes, write_nibbles-Writes, high_nibble, low_nibble}
use go_astits.Descriptor.Text.{
  DescriptorComponent, DescriptorExtendedEventItem, DescriptorExtendedEvent, DescriptorNetworkName,
  DescriptorService, DescriptorShortEvent, DescriptorUnknown, new_descriptor_component,
  new_descriptor_extended_event_item, extended_event_items, new_descriptor_extended_event,
  new_descriptor_network_name, new_descriptor_service, new_descriptor_short_event,
  new_descriptor_unknown, calc_descriptor_component_length, calc_items_length,
  calc_descriptor_extended_event_length, calc_descriptor_network_name_length,
  calc_descriptor_service_length, calc_descriptor_short_event_length,
  calc_descriptor_unknown_length, write_descriptor_component, write_event_items,
  write_descriptor_extended_event, write_descriptor_network_name, write_descriptor_service,
  write_descriptor_short_event, write_descriptor_unknown,
}

-- The length of a text is a byte that stands before it.
abbrev counted : List ℕ → List ℕ
counted xs = length xs ∷ xs

pub record IsComponent (d : DescriptorComponent) : Type 0 where
  pub code : length d.iso639_language_code ≡ 3
  pub stream_content_fits : d.stream_content < 16
  pub stream_content_ext_fits : d.stream_content_ext < 16
  pub fits : length d.text < 250

pub record IsExtendedEvent (d : DescriptorExtendedEvent) : Type 0 where
  pub code : length d.iso639_language_code ≡ 3
  pub number_fits : d.number < 16
  pub last_fits : d.last_descriptor_number < 16
  pub fits : calc_items_length d.items + length d.text < 250

abbrev pub IsShortEvent : DescriptorShortEvent → Type 0
IsShortEvent d = (length d.language ≡ 3) × length d.event_name + length d.text < 251

abbrev component_bytes : DescriptorComponent → List ℕ
component_bytes d =
    ((d.stream_content_ext * 16 + d.stream_content) ∷ [])
    ++ ((d.component_type ∷ []) ++ ((d.component_tag ∷ []) ++ (d.iso639_language_code ++ d.text)))

abbrev item_bytes : DescriptorExtendedEventItem → List ℕ
item_bytes item = counted item.description ++ counted item.content

length-items_bytes :
    (items : List DescriptorExtendedEventItem)
    → length (bytes_of item_bytes items) ≡ calc_items_length items
unfolding calc_items_length
length-items_bytes [] = refl
length-items_bytes (item ∷ items) = omega (
  arith,
  length-append (item_bytes item) (bytes_of item_bytes items),
  length-append (counted item.description) (counted item.content),
  length-items_bytes items,
)

abbrev event_bytes : DescriptorExtendedEvent → List ℕ
event_bytes d =
    ((d.number * 16 + d.last_descriptor_number) ∷ [])
    ++ (d.iso639_language_code
        ++ ((length (bytes_of item_bytes d.items) ∷ [])
            ++ (bytes_of item_bytes d.items ++ counted d.text)))

-- The texts of the items are short if the items are.
items_short :
    (item : DescriptorExtendedEventItem) (items : List DescriptorExtendedEventItem) (n : ℕ)
    → calc_items_length (item ∷ items) < n
    → (length item.description < n) × (length item.content < n) × calc_items_length items < n
unfolding calc_items_length
items_short item items n l = (omega arith, omega arith, omega arith)

module _ {w : BitsWriter} (iw : IsBitsWriter w) where
  items-Writes :
      (items : List DescriptorExtendedEventItem)
      → calc_items_length items < 256
      → Writes iw (write_event_items w items) (bytes_of item_bytes items) tt
  unfolding write_event_items
  items-Writes [] l = Writes-return iw tt tt refl
  items-Writes (item ∷ items) l =
      let (p, q, s) = items_short item items 256 l in
      Writes-bytes iw
        (sym (
          append_assoc (counted item.description) (counted item.content)
            (bytes_of item_bytes items)))
        (Writes-bind iw _ (counted item.description) _ (write_counted-Writes iw item.description p)
          (Writes-bind iw _ (counted item.content) _ (write_counted-Writes iw item.content q)
            (items-Writes items s)))

  event-Writes :
      (d : DescriptorExtendedEvent)
      → IsExtendedEvent d
      → Writes iw (write_descriptor_extended_event w d) (event_bytes d) tt
  unfolding write_descriptor_extended_event calc_descriptor_extended_event_length
  event-Writes d v =
      let f = v.fits in
      let n : calc_items_length d.items % 256 ≡ length (bytes_of item_bytes d.items) =
        omega (arith, length-items_bytes d.items) in
      rw n (
        Writes-bind iw _ ((d.number * 16 + d.last_descriptor_number) ∷ []) _
          (write_nibbles-Writes iw d.number d.last_descriptor_number v.number_fits v.last_fits)
          (Writes-bind iw _ d.iso639_language_code _
            (Writes-padded iw 3 d.iso639_language_code v.code)
            (Writes-bind iw _ (length (bytes_of item_bytes d.items) ∷ []) _
              (Writes-uint8 iw (length (bytes_of item_bytes d.items)))
              (Writes-bind iw _ (bytes_of item_bytes d.items) _ (items-Writes d.items (omega arith))
                (write_counted-Writes iw d.text (omega arith))))))

module _ {r : BytesIterator} (ir : IsBytesIterator r) where
  item-Reads :
      (item : DescriptorExtendedEventItem)
      → Reads ir (new_descriptor_extended_event_item r) (item_bytes item) item
  unfolding new_descriptor_extended_event_item
  item-Reads item =
      Reads-bind ir _ (counted item.description) _ (counted_bytes-Reads ir item.description)
        (Reads-last ir _ (counted_bytes-Reads ir item.content) (Reads-pure ir item))

  every_item :
      (items : List DescriptorExtendedEventItem)
      → All (λ a. Reads ir (new_descriptor_extended_event_item r) (item_bytes a) a) items
  every_item [] = tt
  every_item (item ∷ items) = (item-Reads item, every_item items)

  items-Reads :
      (items : List DescriptorExtendedEventItem)
      → Reads ir
          (extended_event_items r (length (bytes_of item_bytes items)))
          (bytes_of item_bytes items)
          items
  unfolding extended_event_items
  items-Reads items = record {
    run = λ rest bs o h. rw (ir.offset-at bs o) (
        (items_to-ReadsTo ir (new_descriptor_extended_event_item r) item_bytes (λ a. omega arith)
            (o + length (bytes_of item_bytes items)) items (every_item items)).run
          rest bs o h refl);
  }

  event-Reads :
      (d : DescriptorExtendedEvent)
      → IsExtendedEvent d
      → Reads ir (new_descriptor_extended_event r) (event_bytes d) d
  unfolding new_descriptor_extended_event
  event-Reads d v =
      let l = v.last_fits in
      let hi = high_nibble d.number d.last_descriptor_number l in
      let lo = low_nibble d.number d.last_descriptor_number l in
      Reads-bind ir _ ((d.number * 16 + d.last_descriptor_number) ∷ []) _
        (Reads-byte ir (d.number * 16 + d.last_descriptor_number))
        (rw (hi, lo)
          (Reads-bind ir _ d.iso639_language_code _
            (Reads-bytes ir 3 d.iso639_language_code (omega arith) v.code)
            (Reads-bind ir _ (length (bytes_of item_bytes d.items) ∷ []) _
              (Reads-byte ir (length (bytes_of item_bytes d.items)))
              (Reads-bind ir _ (bytes_of item_bytes d.items) _ (items-Reads d.items)
                (Reads-last ir _ (counted_bytes-Reads ir d.text) (Reads-pure ir d))))))

  component-ReadsTo :
      (d : DescriptorComponent)
      → IsComponent d
      → (e : ℕ) → ReadsTo ir e (new_descriptor_component r e) (component_bytes d) d
  unfolding new_descriptor_component
  component-ReadsTo d v e =
      let l = v.stream_content_fits in
      let hi = high_nibble d.stream_content_ext d.stream_content l in
      let lo = low_nibble d.stream_content_ext d.stream_content l in
      ReadsTo-bind ir e _ ((d.stream_content_ext * 16 + d.stream_content) ∷ []) _
        (Reads-byte ir (d.stream_content_ext * 16 + d.stream_content))
        (rw (hi, lo)
          (ReadsTo-bind ir e _ (d.component_type ∷ []) _ (Reads-byte ir d.component_type) (
            ReadsTo-bind ir e _ (d.component_tag ∷ []) _ (Reads-byte ir d.component_tag) (
              ReadsTo-bind ir e _ d.iso639_language_code _
                (Reads-bytes ir 3 d.iso639_language_code (omega arith) v.code)
                (ReadsTo-last ir e _ (bytes_left-ReadsTo ir e d.text) refl)))))

module _ {w : BitsWriter} (iw : IsBitsWriter w) {r : BytesIterator} (ir : IsBytesIterator r) where
  pub component-Carries :
      (d : DescriptorComponent)
      → IsComponent d
      → Carries iw ir
          (write_descriptor_component w d)
          (calc_descriptor_component_length d)
          (new_descriptor_component r)
          d
  unfolding write_descriptor_component calc_descriptor_component_length
  component-Carries d v =
      let f = v.fits in
      let c = v.code in
      carries iw ir (component_bytes d) (omega (arith, length-append d.iso639_language_code d.text))
        (Writes-bind iw _ ((d.stream_content_ext * 16 + d.stream_content) ∷ []) _
          (write_nibbles-Writes iw d.stream_content_ext d.stream_content v.stream_content_ext_fits
            v.stream_content_fits)
          (Writes-bind iw _ (d.component_type ∷ []) _ (Writes-uint8 iw d.component_type) (
            Writes-bind iw _ (d.component_tag ∷ []) _ (Writes-uint8 iw d.component_tag) (
              Writes-bind iw _ d.iso639_language_code _
                (Writes-padded iw 3 d.iso639_language_code c) (Writes-plain iw d.text)))))
        (component-ReadsTo ir d v)

  pub extended_event-Carries :
      (d : DescriptorExtendedEvent)
      → IsExtendedEvent d
      → Carries iw ir
          (write_descriptor_extended_event w d)
          (calc_descriptor_extended_event_length d).0
          (λ e. new_descriptor_extended_event r)
          d
  unfolding calc_descriptor_extended_event_length
  extended_event-Carries d v =
      let f = v.fits in
      let c = v.code in
      carries iw ir (event_bytes d)
        (omega (
          arith,
          length-items_bytes d.items,
          length-append (bytes_of item_bytes d.items) (counted d.text),
          length-append d.iso639_language_code (
              (length (bytes_of item_bytes d.items) ∷ [])
              ++ (bytes_of item_bytes d.items ++ counted d.text)),
        ))
        (event-Writes iw d v) (λ e. Reads-ReadsTo ir e (event-Reads ir d v))

  pub network_name-Carries :
      (d : DescriptorNetworkName)
      → 0 < length d.name
      → length d.name < 256
      → Carries iw ir
          (write_descriptor_network_name w d)
          (calc_descriptor_network_name_length d)
          (new_descriptor_network_name r)
          d
  unfolding write_descriptor_network_name calc_descriptor_network_name_length
      new_descriptor_network_name
  network_name-Carries d l k =
      carries iw ir d.name (omega arith) (Writes-plain iw d.name)
        (λ e. ReadsTo-last ir e _ (bytes_to-ReadsTo ir e d.name l) refl)

  pub service-Carries :
      (d : DescriptorService)
      → length d.name + length d.provider < 253
      → Carries iw ir
          (write_descriptor_service w d)
          (calc_descriptor_service_length d)
          (λ e. new_descriptor_service r)
          d
  unfolding write_descriptor_service calc_descriptor_service_length new_descriptor_service
  service-Carries d l =
      carries iw ir (d.service_type ∷ (counted d.provider ++ counted d.name))
        (omega (arith, length-append (counted d.provider) (counted d.name)))
        (Writes-bind iw _ (d.service_type ∷ []) _ (Writes-uint8 iw d.service_type) (
          Writes-bind iw _ (counted d.provider) _ (write_counted-Writes iw d.provider (omega arith))
            (write_counted-Writes iw d.name (omega arith))))
        (λ e. Reads-ReadsTo ir e (
          Reads-bind ir _ (d.service_type ∷ []) _ (Reads-byte ir d.service_type) (
            Reads-bind ir _ (counted d.provider) _ (counted_bytes-Reads ir d.provider)
              (Reads-last ir _ (counted_bytes-Reads ir d.name) (Reads-pure ir d)))))

  pub short_event-Carries :
      (d : DescriptorShortEvent)
      → IsShortEvent d
      → Carries iw ir
          (write_descriptor_short_event w d)
          (calc_descriptor_short_event_length d)
          (λ e. new_descriptor_short_event r)
          d
  unfolding write_descriptor_short_event calc_descriptor_short_event_length
      new_descriptor_short_event
  short_event-Carries d v =
      let c = v.0 in
      let f = v.1 in
      carries iw ir (d.language ++ (counted d.event_name ++ counted d.text))
        (omega (
          arith,
          length-append d.language (counted d.event_name ++ counted d.text),
          length-append (counted d.event_name) (counted d.text),
        ))
        (Writes-bind iw _ d.language _ (Writes-padded iw 3 d.language c) (
          Writes-bind iw _ (counted d.event_name) _
            (write_counted-Writes iw d.event_name (omega arith))
            (write_counted-Writes iw d.text (omega arith))))
        (λ e. Reads-ReadsTo ir e (
          Reads-bind ir _ d.language _ (Reads-bytes ir 3 d.language (omega arith) c) (
            Reads-bind ir _ (counted d.event_name) _ (counted_bytes-Reads ir d.event_name)
              (Reads-last ir _ (counted_bytes-Reads ir d.text) (Reads-pure ir d)))))

  pub unknown-Carries :
      (d : DescriptorUnknown)
      → 0 < length d.content
      → length d.content < 256
      → Carries iw ir
          (write_descriptor_unknown w d)
          (calc_descriptor_unknown_length d)
          (λ e. new_descriptor_unknown r d.tag (length d.content))
          d
  unfolding write_descriptor_unknown calc_descriptor_unknown_length new_descriptor_unknown
  unknown-Carries d l k = carries iw ir d.content (omega arith) (Writes-plain iw d.content) (λ e.
      Reads-ReadsTo ir e
        (Reads-last ir _ (Reads-bytes ir (length d.content) d.content l refl) (Reads-pure ir d)))
