-- ===== src/Descriptor/LocalTime.antt =====
-- The local time offset descriptor. Its times are read and written by `parseDVBTime` and
-- `writeDVBTime` of `dvb.go`, which are parameters here, with the type of the times.
pub mod RoundTrip
use go_astits.Base.{
  ℕ, zero, suc, ◌+◌, ◌-◌, ◌*◌, ◌/◌, ◌%◌, ◌^◌, ◌<◌, ◌≤◌, ◌≡◌, refl, sym, ap, subst, ◌∙◌, Bool, true,
  false, ◌==◌, ◌||◌, ◌&&◌, ltb, leb, if◌then◌else◌, bit_and, Option, none, some, List, [], ◌∷◌,
  ◌++◌, map, length, take, replicate, append_assoc, append-nil, length-append, arith, M, Result, ok,
  err, panic, pure, fail, fault, deref, ◌>>=◌, ◌>>◌, when, optional, All,
}
use go_astits.Bits.{has_bit, ◌<|>◌}
use go_astits.Astikit.{BytesIterator, BitsWriter}
use go_astits.Clock.{byte_at}
use go_astits.Cursor.{bytes_to, bytes_left, counted_bytes, items_to}
use go_astits.Descriptor.Lists.{write_each}
use go_astits.Dvb.{parse_dvb_duration_minutes, write_dvb_duration_minutes}

pub record DescriptorLocalTimeOffsetItem (Time : Type 0) : Type 0 where
  pub country_code : List ℕ
  pub country_region_id : ℕ
  pub local_time_offset : ℕ
  pub local_time_offset_polarity : Bool
  pub next_time_offset : ℕ
  pub time_of_change : Time

pub record DescriptorLocalTimeOffset (Time : Type 0) : Type 0 where
  pub items : List (DescriptorLocalTimeOffsetItem Time)

module _ (r : BytesIterator) {Time : Type 0} (parse_dvb_time : M r.Iter Time) where
  open r use {Iter, next_byte, next_bytes}

  unfoldable pub local_time_offset_item : M Iter (DescriptorLocalTimeOffsetItem Time)
  local_time_offset_item = do
    country_code ← next_bytes 3
    b ← next_byte
    local_time_offset ← parse_dvb_duration_minutes r
    time_of_change ← parse_dvb_time
    next_time_offset ← parse_dvb_duration_minutes r
    pure (record {
      country_code = country_code;
      country_region_id = b / 2 ^ 2;
      local_time_offset = local_time_offset;
      local_time_offset_polarity = has_bit b 0x1;
      next_time_offset = next_time_offset;
      time_of_change = time_of_change;
    })

  unfoldable pub new_descriptor_local_time_offset : ℕ → M Iter (DescriptorLocalTimeOffset Time)
  new_descriptor_local_time_offset offset_end = do
    items ← items_to r offset_end local_time_offset_item
    pure (record { items = items })

unfoldable pub calc_descriptor_local_time_offset_length :
    {Time : Type 0} → DescriptorLocalTimeOffset Time → ℕ
calc_descriptor_local_time_offset_length d = 13 * length d.items % 256

module _ (w : BitsWriter) {Time : Type 0} (write_dvb_time : Time → M w.Writer ℕ) where
  open w use {Writer, write_bool, write_bytes_n, write_n}

  unfoldable pub write_region : DescriptorLocalTimeOffsetItem Time → M Writer (Unit {0})
  write_region item = do
    write_n item.country_region_id 6
    write_n 0xff 1
    write_bool item.local_time_offset_polarity

  unfoldable pub write_local_time_offset_item :
      DescriptorLocalTimeOffsetItem Time → M Writer (Unit {0})
  write_local_time_offset_item item = do
    write_bytes_n item.country_code 3 0
    write_region item
    _ ← write_dvb_duration_minutes w item.local_time_offset
    _ ← write_dvb_time item.time_of_change
    _ ← write_dvb_duration_minutes w item.next_time_offset
    pure tt

  unfoldable pub write_descriptor_local_time_offset :
      DescriptorLocalTimeOffset Time → M Writer (Unit {0})
  write_descriptor_local_time_offset d = write_each w write_local_time_offset_item d.items
