-- ===== src/Packet/Field/Layout.antt =====
-- The layout of an adaptation field, and the fields that have one.
use go_astits.Base.{
  uint8, ℤ, ℕ, ◌+◌, ◌*◌, ◌<◌, ◌≡◌, refl, List, [], ◌∷◌, ◌++◌, length, replicate, arith, Bool, true,
  false, if◌then◌else◌, Option, none, some, pos, pos_part, length-append,
}
use go_astits.Bits.{digit}
use go_astits.Clock.{ClockReference}
use go_astits.Clock.RoundTrip.{IsClock, pcr_bytes, pts_or_dts_bytes}
use go_astits.Packet.{PacketAdaptationField, PacketAdaptationExtensionField}
use go_astits.Packet.Parts.{window_bytes, rate_bytes, splice_bytes, IsSplice}
use go_astits.Packet.Extension.{extension_bytes, IsExtension}
use go_astits.Packet.Write.{calc_packet_adaptation_field_extension_length}

-- A part that a flag announces, and one that it does not.
unfoldable pub part_bytes : {A : Type 0} → (A → List ℕ) → Bool → Option A → List ℕ
part_bytes f true (some a) = f a
part_bytes f true none = []
part_bytes f false o = []

abbrev pub IsPart : {A : Type 0} → (A → Type 0) → Bool → Option A → Type 0
IsPart P true (some a) = P a
IsPart P true none = ⊥
IsPart P false o = o ≡ none

unfoldable pub countdown_bytes : Bool → ℤ → List ℕ
countdown_bytes true n = uint8 n ∷ []
countdown_bytes false n = []

-- A countdown that is not written is 0.
abbrev pub IsCountdown : Bool → ℤ → Type 0
IsCountdown true n = Unit
IsCountdown false n = n ≡ pos 0

-- What the reader makes of a field: it takes the byte of the countdown as a number without a sign.
abbrev pub unsigned : PacketAdaptationField → PacketAdaptationField
unsigned af = record af { splice_countdown = pos (uint8 af.splice_countdown) }

abbrev pub unsigned_part : Option PacketAdaptationField → Option PacketAdaptationField
unsigned_part none = none
unsigned_part (some af) = some (unsigned af)

unfoldable pub private_bytes : Bool → ℕ → List ℕ → List ℕ
private_bytes true n bs = n ∷ bs
private_bytes false n bs = []

abbrev pub IsPrivate : Bool → ℕ → List ℕ → Type 0
IsPrivate true n bs = (n ≡ length bs) × (n < 256)
IsPrivate false n bs = (n ≡ 0) × (bs ≡ [])

unfoldable pub field_flags : PacketAdaptationField → ℕ
field_flags af =
    digit af.discontinuity_indicator * 128
    + digit af.random_access_indicator * 64
    + digit af.elementary_stream_priority_indicator * 32
    + digit af.has_pcr * 16
    + digit af.has_opcr * 8
    + digit af.has_splicing_countdown * 4
    + digit af.has_transport_private_data * 2
    + digit af.has_adaptation_extension_field

unfoldable pub field_parts : PacketAdaptationField → List ℕ
unfolding part_bytes countdown_bytes private_bytes
field_parts af =
    part_bytes pcr_bytes af.has_pcr af.pcr
    ++ (part_bytes pcr_bytes af.has_opcr af.opcr
        ++ (countdown_bytes af.has_splicing_countdown af.splice_countdown
            ++ (private_bytes af.has_transport_private_data af.transport_private_data_length
                  af.transport_private_data
                ++ (part_bytes extension_bytes af.has_adaptation_extension_field
                      af.adaptation_extension_field
                    ++ []))))

-- What the reader takes: the length, the flags and the parts.
unfoldable pub field_bytes : PacketAdaptationField → List ℕ
unfolding field_flags field_parts
field_bytes af = af.length ∷ field_flags af ∷ field_parts af

-- What the writer puts out: the same, and the stuffing.
unfoldable pub stuffed_bytes : PacketAdaptationField → List ℕ
unfolding field_bytes
stuffed_bytes af = field_bytes af ++ replicate (pos_part af.stuffing_length) 0xff

-- A field that the format can hold, more than one byte long.
pub record IsField (af : PacketAdaptationField) : Type 0 where
  pub plain : af.is_one_byte_stuffing ≡ false
  pub pcr_part : IsPart IsClock af.has_pcr af.pcr
  pub opcr_part : IsPart IsClock af.has_opcr af.opcr
  pub countdown : IsCountdown af.has_splicing_countdown af.splice_countdown
  pub private :
      IsPrivate af.has_transport_private_data af.transport_private_data_length
        af.transport_private_data
  pub extension : IsPart IsExtension af.has_adaptation_extension_field af.adaptation_extension_field
  pub stuffing : af.stuffing_length ≡ pos (pos_part af.stuffing_length)
  -- the length is that of what follows it, and fits a byte
  pub measured : af.length ≡ 1 + length (field_parts af) + pos_part af.stuffing_length
  pub length_lt : af.length < 256

length-window : (b valid : Bool) (n : ℕ) → length (window_bytes b valid n) ≡ (if b then 2 else 0)
unfolding window_bytes
length-window true valid n = refl
length-window false valid n = refl

length-rate : (b : Bool) (n : ℕ) → length (rate_bytes b n) ≡ (if b then 3 else 0)
unfolding rate_bytes
length-rate true n = refl
length-rate false n = refl

length-splice :
    (b : Bool) (n : ℕ) (o : Option ClockReference)
    → IsSplice b n o
    → length (splice_bytes b n o) ≡ (if b then 5 else 0)
unfolding splice_bytes pts_or_dts_bytes
length-splice true n (some c) h = refl
length-splice true n none h = absurd h
length-splice false n o h = refl

-- The writer's length of an extension is the number of bytes behind the length byte.
pub length-extension :
    (afe : PacketAdaptationExtensionField)
    → IsExtension afe
    → length (extension_bytes afe) ≡ 1 + calc_packet_adaptation_field_extension_length afe
unfolding extension_bytes calc_packet_adaptation_field_extension_length
length-extension afe h = ground (
  arith,
  length-append
      (window_bytes afe.has_legal_time_window afe.legal_time_window_is_valid
        afe.legal_time_window_offset)
      (rate_bytes afe.has_piecewise_rate afe.piecewise_rate
        ++ (splice_bytes afe.has_seamless_splice afe.splice_type afe.dts_next_access_unit ++ [])),
  length-append (rate_bytes afe.has_piecewise_rate afe.piecewise_rate)
      (splice_bytes afe.has_seamless_splice afe.splice_type afe.dts_next_access_unit ++ []),
  length-append (splice_bytes afe.has_seamless_splice afe.splice_type afe.dts_next_access_unit) [],
  length-window afe.has_legal_time_window afe.legal_time_window_is_valid
      afe.legal_time_window_offset,
  length-rate afe.has_piecewise_rate afe.piecewise_rate,
  length-splice afe.has_seamless_splice afe.splice_type afe.dts_next_access_unit h.splice,
)

pub length-pcr_part :
    (b : Bool) (o : Option ClockReference)
    → IsPart IsClock b o
    → length (part_bytes pcr_bytes b o) ≡ (if b then 6 else 0)
unfolding part_bytes pcr_bytes
length-pcr_part true (some cr) h = refl
length-pcr_part true none h = absurd h
length-pcr_part false o h = refl

pub length-countdown : (b : Bool) (n : ℤ) → length (countdown_bytes b n) ≡ (if b then 1 else 0)
unfolding countdown_bytes
length-countdown true n = refl
length-countdown false n = refl

pub length-private :
    (b : Bool) (n : ℕ) (bs : List ℕ)
    → length (private_bytes b n bs) ≡ (if b then 1 + length bs else 0)
unfolding private_bytes
length-private true n bs = omega arith
length-private false n bs = refl

pub length-field_parts :
    (af : PacketAdaptationField)
    → length (field_parts af)
      ≡ length (part_bytes pcr_bytes af.has_pcr af.pcr)
        + length (part_bytes pcr_bytes af.has_opcr af.opcr)
        + length (countdown_bytes af.has_splicing_countdown af.splice_countdown)
        + length (
            private_bytes af.has_transport_private_data af.transport_private_data_length
              af.transport_private_data)
        + length (
            part_bytes extension_bytes af.has_adaptation_extension_field
              af.adaptation_extension_field)
unfolding field_parts
length-field_parts af = omega (arith, length-append {0})
