-- ===== src/Descriptor/Lists/RoundTrip.antt =====
-- The descriptors that are lists of items, written and read.
use go_astits.Base.{
  ℕ, ◌+◌, ◌*◌, ◌/◌, ◌%◌, ◌^◌, ◌<◌, ◌≡◌, refl, ◌∙◌, take, List, [], ◌∷◌, ◌++◌, length, length-append,
  arith, ◌>>=◌, ◌>>◌, All, All-map, bit_and,
}
use go_astits.Bits.{◌<|>◌, bit_and_mask}
use go_astits.Clock.{byte_at}
use go_astits.Astikit.{BytesIterator, IsBytesIterator, BitsWriter, IsBitsWriter}
use go_astits.Codec.{
  Reads-bind, Reads-last, Reads-pure, Reads-byte, Reads-bytes, Writes, Writes-bind, Writes-uint8,
  Writes-uint16,
}
use go_astits.Descriptor.Frame.{Carries, Writes-padded}
use go_astits.Descriptor.Frame.{write_nibbles-Writes, high_nibble, low_nibble, numbers_of}
use go_astits.Descriptor.Lists.Items.{IsItem, list-Carries}
use go_astits.Descriptor.Lists.{
  DescriptorContentItem, DescriptorContent, DescriptorParentalRatingItem, DescriptorParentalRating,
  DescriptorSubtitlingItem, DescriptorSubtitling, DescriptorTeletextItem, DescriptorTeletext,
  content_item, new_descriptor_content, parental_rating_item, new_descriptor_parental_rating,
  subtitling_item, new_descriptor_subtitling, teletext_item, new_descriptor_teletext,
  calc_descriptor_content_length, calc_descriptor_parental_rating_length,
  calc_descriptor_subtitling_length, calc_descriptor_teletext_length, write_content_item,
  write_descriptor_content, write_parental_rating_item, write_descriptor_parental_rating,
  write_subtitling_item, write_descriptor_subtitling, write_teletext_type, write_teletext_item,
  write_descriptor_teletext,
}

pub record IsContentItem (item : DescriptorContentItem) : Type 0 where
  pub level1_fits : item.content_nibble_level1 < 16
  pub level2_fits : item.content_nibble_level2 < 16

pub record IsSubtitlingItem (item : DescriptorSubtitlingItem) : Type 0 where
  pub language_code : length item.language ≡ 3
  pub composition_fits : item.composition_page_id < 2 ^ 16
  pub ancillary_fits : item.ancillary_page_id < 2 ^ 16

-- The page is two decimal digits.
pub record IsTeletextItem (item : DescriptorTeletextItem) : Type 0 where
  pub language_code : length item.language ≡ 3
  pub type_fits : item.teletext_type < 32
  pub magazine_fits : item.magazine < 8
  pub page_fits : item.page < 100

abbrev pub IsRatingItem : DescriptorParentalRatingItem → Type 0
IsRatingItem item = length item.country_code ≡ 3

abbrev content_bytes : DescriptorContentItem → List ℕ
content_bytes item =
    (item.content_nibble_level1 * 16 + item.content_nibble_level2) ∷ item.user_byte ∷ []

abbrev rating_bytes : DescriptorParentalRatingItem → List ℕ
rating_bytes item = item.country_code ++ (item.rating ∷ [])

abbrev subtitling_bytes : DescriptorSubtitlingItem → List ℕ
subtitling_bytes item =
    item.language
    ++ ((item.subtitling_type ∷ [])
        ++ ((item.composition_page_id / 256 ∷ item.composition_page_id % 256 ∷ [])
            ++ (item.ancillary_page_id / 256 ∷ item.ancillary_page_id % 256 ∷ [])))

abbrev teletext_bytes : DescriptorTeletextItem → List ℕ
teletext_bytes item =
    item.language
    ++ ((item.teletext_type * 8 + item.magazine) ∷ (item.page / 10 * 16 + item.page % 10) ∷ [])

three_bytes :
    (xs : List ℕ) (x : ℕ)
    → length xs ≡ 3
    → (take 3 (xs ++ (x ∷ [])) ≡ xs) × (byte_at (xs ++ (x ∷ [])) 3 ≡ x)
three_bytes [] x h = absurd (omega arith)
three_bytes (a ∷ []) x h = absurd (omega arith)
three_bytes (a ∷ b ∷ []) x h = absurd (omega arith)
three_bytes (a ∷ b ∷ c ∷ []) x h = (refl, refl)
three_bytes (a ∷ b ∷ c ∷ d ∷ xs) x h = absurd (omega arith)

module _ {w : BitsWriter} (iw : IsBitsWriter w) {r : BytesIterator} (ir : IsBytesIterator r) where
  content-IsItem :
      (item : DescriptorContentItem)
      → IsContentItem item
      → IsItem iw ir 2 (write_content_item w) (content_item r) content_bytes item
  unfolding write_content_item content_item
  content-IsItem item v =
      let a = item.content_nibble_level1 in
      let b = item.content_nibble_level2 in
      let hi = high_nibble a b v.level2_fits in
      let lo = low_nibble a b v.level2_fits in
      record {
        size = refl;
        put =
            Writes-bind iw _ ((a * 16 + b) ∷ []) _
              (write_nibbles-Writes iw a b v.level1_fits v.level2_fits)
              (Writes-uint8 iw item.user_byte);
        get =
            Reads-last ir _ (Reads-bytes ir 2 (content_bytes item) (omega arith) refl)
              (rw (hi, lo) (Reads-pure ir item));
      }

  pub content-Carries :
      (d : DescriptorContent)
      → All IsContentItem d.items
      → 2 * length d.items < 256
      → Carries iw ir
          (write_descriptor_content w d)
          (calc_descriptor_content_length d)
          (new_descriptor_content r)
          d
  unfolding write_descriptor_content calc_descriptor_content_length new_descriptor_content
  content-Carries d v l =
      list-Carries iw ir 2 (write_content_item w) (content_item r) content_bytes d.items
        (λ items. record { items = items }) (λ a. omega arith) (All-map content-IsItem d.items v) l

  rating-IsItem :
      (item : DescriptorParentalRatingItem)
      → IsRatingItem item
      → IsItem iw ir 4 (write_parental_rating_item w) (parental_rating_item r) rating_bytes item
  unfolding write_parental_rating_item parental_rating_item
  rating-IsItem item v =
      let n : length (rating_bytes item) ≡ 4 =
        omega (arith, length-append item.country_code (item.rating ∷ [])) in
      let (t, b) = three_bytes item.country_code item.rating v in
      record {
        size = n;
        put =
            Writes-bind iw _ item.country_code _ (Writes-padded iw 3 item.country_code v)
              (Writes-uint8 iw item.rating);
        get =
            Reads-last ir _ (Reads-bytes ir 4 (rating_bytes item) (omega arith) n)
              (rw (t, b) (Reads-pure ir item));
      }

  pub parental_rating-Carries :
      (d : DescriptorParentalRating)
      → All IsRatingItem d.items
      → 4 * length d.items < 256
      → Carries iw ir
          (write_descriptor_parental_rating w d)
          (calc_descriptor_parental_rating_length d)
          (new_descriptor_parental_rating r)
          d
  unfolding write_descriptor_parental_rating calc_descriptor_parental_rating_length
      new_descriptor_parental_rating
  parental_rating-Carries d v l =
      list-Carries iw ir 4 (write_parental_rating_item w) (parental_rating_item r) rating_bytes
        d.items (λ items. record { items = items })
        (λ a. omega (arith, length-append a.country_code (a.rating ∷ [])))
        (All-map rating-IsItem d.items v) l

  subtitling-IsItem :
      (item : DescriptorSubtitlingItem)
      → IsSubtitlingItem item
      → IsItem iw ir 8 (write_subtitling_item w) (subtitling_item r) subtitling_bytes item
  unfolding write_subtitling_item subtitling_item
  subtitling-IsItem item v =
      let c = v.language_code in
      let x = item.composition_page_id in
      let y = item.ancillary_page_id in
      let hx : (x / 256 * 2 ^ 8 <|> x % 256) ≡ x =
        numbers_of (x / 256) (x % 256) (omega arith) ∙ omega arith in
      let hy : (y / 256 * 2 ^ 8 <|> y % 256) ≡ y =
        numbers_of (y / 256) (y % 256) (omega arith) ∙ omega arith in
      record {
        size = omega (
          arith,
          length-append item.language (
              (item.subtitling_type ∷ [])
              ++ ((x / 256 ∷ x % 256 ∷ []) ++ (y / 256 ∷ y % 256 ∷ []))),
        );
        put = Writes-bind iw _ item.language _ (Writes-padded iw 3 item.language c) (
            Writes-bind iw _ (item.subtitling_type ∷ []) _ (Writes-uint8 iw item.subtitling_type) (
              Writes-bind iw _ (x / 256 ∷ x % 256 ∷ []) _ (Writes-uint16 iw x)
                (Writes-uint16 iw y)));
        get = Reads-bind ir _ item.language _ (Reads-bytes ir 3 item.language (omega arith) c) (
            Reads-bind ir _ (item.subtitling_type ∷ []) _ (Reads-byte ir item.subtitling_type) (
              Reads-bind ir _ (x / 256 ∷ x % 256 ∷ []) _
                (Reads-bytes ir 2 (x / 256 ∷ x % 256 ∷ []) (omega arith) refl)
                (Reads-last ir _ (Reads-bytes ir 2 (y / 256 ∷ y % 256 ∷ []) (omega arith) refl)
                  (rw (hx, hy) (Reads-pure ir item)))));
      }

  pub subtitling-Carries :
      (d : DescriptorSubtitling)
      → All IsSubtitlingItem d.items
      → 8 * length d.items < 256
      → Carries iw ir
          (write_descriptor_subtitling w d)
          (calc_descriptor_subtitling_length d)
          (new_descriptor_subtitling r)
          d
  unfolding write_descriptor_subtitling calc_descriptor_subtitling_length new_descriptor_subtitling
  subtitling-Carries d v l =
      list-Carries iw ir 8 (write_subtitling_item w) (subtitling_item r) subtitling_bytes d.items
        (λ items. record { items = items })
        (λ a. omega (
          arith,
          length-append a.language (
              (a.subtitling_type ∷ [])
              ++ ((a.composition_page_id / 256 ∷ a.composition_page_id % 256 ∷ [])
                  ++ (a.ancillary_page_id / 256 ∷ a.ancillary_page_id % 256 ∷ []))),
        ))
        (All-map subtitling-IsItem d.items v) l

  teletext_type-Writes :
      (item : DescriptorTeletextItem)
      → IsTeletextItem item
      → Writes iw (write_teletext_type w item) ((item.teletext_type * 8 + item.magazine) ∷ []) tt
  unfolding write_teletext_type
  teletext_type-Writes item v =
      let p = v.type_fits in
      let q = v.magazine_fits in
      record { run = λ out. simp (iw.write_n-at, write_teletext_type, ◌>>=◌, ◌>>◌) (ground arith) }

  teletext-IsItem :
      (item : DescriptorTeletextItem)
      → IsTeletextItem item
      → IsItem iw ir 5 (write_teletext_item w) (teletext_item r) teletext_bytes item
  unfolding write_teletext_item teletext_item
  teletext-IsItem item v =
      let c = v.language_code in
      let p = v.type_fits in
      let q = v.magazine_fits in
      let s = v.page_fits in
      let x = item.teletext_type * 8 + item.magazine in
      let y = item.page / 10 * 16 + item.page % 10 in
      let hx : x / 2 ^ 3 ≡ item.teletext_type = omega arith in
      let lx : bit_and x 0x7 ≡ item.magazine = bit_and_mask 3 x ∙ omega arith in
      let hy : (y / 2 ^ 4 * 10 + bit_and y 0xf) % 256 ≡ item.page =
        rw (bit_and_mask 4 y) (omega arith) in
      record {
        size = omega (arith, length-append item.language (x ∷ y ∷ []));
        put = Writes-bind iw _ item.language _ (Writes-padded iw 3 item.language c) (
            Writes-bind iw _ (x ∷ []) _ (teletext_type-Writes item v) (
              write_nibbles-Writes iw (item.page / 10) (item.page % 10) (omega arith)
                (omega arith)));
        get = Reads-bind ir _ item.language _ (Reads-bytes ir 3 item.language (omega arith) c) (
            Reads-bind ir _ (x ∷ []) _ (Reads-byte ir x)
              (Reads-last ir _ (Reads-byte ir y) (rw (hx, lx, hy) (Reads-pure ir item))));
      }

  pub teletext-Carries :
      (d : DescriptorTeletext)
      → All IsTeletextItem d.items
      → 5 * length d.items < 256
      → Carries iw ir
          (write_descriptor_teletext w d)
          (calc_descriptor_teletext_length d)
          (new_descriptor_teletext r)
          d
  unfolding write_descriptor_teletext calc_descriptor_teletext_length new_descriptor_teletext
  teletext-Carries d v l =
      list-Carries iw ir 5 (write_teletext_item w) (teletext_item r) teletext_bytes d.items
        (λ items. record { items = items })
        (λ a. omega (
          arith,
          length-append a.language
              ((a.teletext_type * 8 + a.magazine) ∷ (a.page / 10 * 16 + a.page % 10) ∷ []),
        ))
        (All-map teletext-IsItem d.items v) l
