-- ===== src/Descriptor/LocalTime/RoundTrip.antt =====
-- The local time offset descriptor, written and read, over a reader and a writer of times.
use go_astits.Base.{
  ℕ, ◌+◌, ◌*◌, ◌/◌, ◌^◌, ◌<◌, ◌≡◌, refl, List, [], ◌∷◌, ◌++◌, length, length-append, arith, ◌>>=◌,
  ◌>>◌, M, All, All-map,
}
use go_astits.Bits.{has_bit, digit, digit-le, has_bit-digit}
use go_astits.Astikit.{BytesIterator, IsBytesIterator, BitsWriter, IsBitsWriter}
use go_astits.Codec.{
  Reads, Reads-bind, Reads-last, Reads-pure, Reads-byte, Reads-bytes, Writes, Writes-bind,
  Writes-last, Writes-return,
}
use go_astits.Descriptor.Frame.{Carries, Writes-padded}
use go_astits.Dvb.{minute, parse_dvb_duration_minutes}
use go_astits.Dvb.Durations.{minutes_bytes, minutes-Writes, minutes-Reads}
use go_astits.Descriptor.Lists.Items.{IsItem, list-Carries}
use go_astits.Descriptor.LocalTime.{
  DescriptorLocalTimeOffsetItem, DescriptorLocalTimeOffset, local_time_offset_item,
  new_descriptor_local_time_offset, calc_descriptor_local_time_offset_length, write_region,
  write_local_time_offset_item, write_descriptor_local_time_offset,
}

-- What the reader and the writer of times are to satisfy: five bytes, that are read back.
pub record IsDvbTimes {w : BitsWriter} (iw : IsBitsWriter w) {r : BytesIterator}
    (ir : IsBytesIterator r) {Time : Type 0} (parse_dvb_time : M r.Iter Time)
    (write_dvb_time : Time → M w.Writer ℕ) : Type 1 where
  pub IsTime : Time → Type 0
  pub time_bytes : Time → List ℕ
  pub size : (t : Time) → length (time_bytes t) ≡ 5
  pub put : (t : Time) → IsTime t → Writes iw (write_dvb_time t) (time_bytes t) 5
  pub get : (t : Time) → IsTime t → Reads ir parse_dvb_time (time_bytes t) t

-- A duration of whole minutes below 160 hours.
pub record IsMinutes (d : ℕ) : Type 0 where
  pub minutes : ℕ
  pub below : minutes < 160 * 60
  pub total : d ≡ minutes * minute

module _ {w : BitsWriter} {iw : IsBitsWriter w} {r : BytesIterator} {ir : IsBytesIterator r}
    {Time : Type 0} {parse_dvb_time : M r.Iter Time} {write_dvb_time : Time → M w.Writer ℕ}
    (times : IsDvbTimes iw ir parse_dvb_time write_dvb_time) where
  pub record IsOffsetItem (item : DescriptorLocalTimeOffsetItem Time) : Type 0 where
    pub country_code : length item.country_code ≡ 3
    pub region_fits : item.country_region_id < 64
    pub offset_minutes : IsMinutes item.local_time_offset
    pub next_minutes : IsMinutes item.next_time_offset
    pub time : times.IsTime item.time_of_change

  region_byte : DescriptorLocalTimeOffsetItem Time → ℕ
  region_byte item = item.country_region_id * 4 + 2 + digit item.local_time_offset_polarity

  unfoldable item_bytes : DescriptorLocalTimeOffsetItem Time → List ℕ
  item_bytes item =
      item.country_code
      ++ ((region_byte item ∷ [])
          ++ (minutes_bytes item.local_time_offset
              ++ (times.time_bytes item.time_of_change ++ minutes_bytes item.next_time_offset)))

  length-item_bytes :
      (item : DescriptorLocalTimeOffsetItem Time)
      → length (item_bytes item) ≡ length item.country_code + 10
  unfolding item_bytes minutes_bytes
  length-item_bytes item =
      let t = times.time_bytes item.time_of_change in
      omega (
        arith,
        times.size item.time_of_change,
        length-append t (minutes_bytes item.next_time_offset),
        length-append item.country_code (
            (region_byte item ∷ [])
            ++ (minutes_bytes item.local_time_offset
                ++ (t ++ minutes_bytes item.next_time_offset))),
      )

  region-Writes :
      (item : DescriptorLocalTimeOffsetItem Time)
      → item.country_region_id < 64
      → Writes iw (write_region w write_dvb_time item) (region_byte item ∷ []) tt
  unfolding write_region region_byte
  region-Writes item l =
      let d = digit-le item.local_time_offset_polarity in
      record {
        run =
            λ out. simp (iw.write_n-at, iw.write_bool-at, write_region, ◌>>=◌, ◌>>◌) (ground arith);
      }

  minutes-Reads_of :
      (d : ℕ) → IsMinutes d → Reads ir (parse_dvb_duration_minutes r) (minutes_bytes d) d
  minutes-Reads_of d v = rw v.total (minutes-Reads ir v.minutes v.below)

  item-Writes :
      (item : DescriptorLocalTimeOffsetItem Time)
      → IsOffsetItem item
      → Writes iw (write_local_time_offset_item w write_dvb_time item) (item_bytes item) tt
  unfolding write_local_time_offset_item item_bytes
  item-Writes item v =
      Writes-bind iw _ item.country_code _ (Writes-padded iw 3 item.country_code v.country_code) (
        Writes-bind iw _ (region_byte item ∷ []) _ (region-Writes item v.region_fits) (
          Writes-bind iw _ (minutes_bytes item.local_time_offset) _
            (minutes-Writes iw item.local_time_offset)
            (Writes-bind iw _ (times.time_bytes item.time_of_change) _
              (times.put item.time_of_change v.time)
              (Writes-last iw _ (minutes-Writes iw item.next_time_offset)
                (Writes-return iw tt tt refl)))))

  item-Reads :
      (item : DescriptorLocalTimeOffsetItem Time)
      → IsOffsetItem item
      → Reads ir (local_time_offset_item r parse_dvb_time) (item_bytes item) item
  unfolding local_time_offset_item item_bytes region_byte
  item-Reads item v =
      let d = digit-le item.local_time_offset_polarity in
      let x = region_byte item in
      let h : x / 2 ^ 2 ≡ item.country_region_id = omega arith in
      let b : has_bit x 0x1 ≡ item.local_time_offset_polarity = has_bit-digit 0 x _ (omega arith) in
      Reads-bind ir _ item.country_code _
        (Reads-bytes ir 3 item.country_code (omega (arith, v.country_code)) v.country_code)
        (Reads-bind ir _ (x ∷ []) _ (Reads-byte ir x) (
          rw (h, b)
            (Reads-bind ir _ (minutes_bytes item.local_time_offset) _
              (minutes-Reads_of item.local_time_offset v.offset_minutes)
              (Reads-bind ir _ (times.time_bytes item.time_of_change) _
                (times.get item.time_of_change v.time)
                (Reads-last ir _ (minutes-Reads_of item.next_time_offset v.next_minutes)
                  (Reads-pure ir item))))))

  offset-IsItem :
      (item : DescriptorLocalTimeOffsetItem Time)
      → IsOffsetItem item
      → IsItem iw ir 13
          (write_local_time_offset_item w write_dvb_time)
          (local_time_offset_item r parse_dvb_time)
          item_bytes
          item
  offset-IsItem item v = record {
    size = omega (arith, length-item_bytes item, v.country_code);
    put = item-Writes item v;
    get = item-Reads item v;
  }

  pub local_time_offset-Carries :
      (d : DescriptorLocalTimeOffset Time)
      → All IsOffsetItem d.items
      → 13 * length d.items < 256
      → Carries iw ir
          (write_descriptor_local_time_offset w write_dvb_time d)
          (calc_descriptor_local_time_offset_length d)
          (new_descriptor_local_time_offset r parse_dvb_time)
          d
  unfolding write_descriptor_local_time_offset calc_descriptor_local_time_offset_length
      new_descriptor_local_time_offset
  local_time_offset-Carries d v l =
      list-Carries iw ir 13 (write_local_time_offset_item w write_dvb_time)
        (local_time_offset_item r parse_dvb_time) item_bytes d.items
        (λ items. record { items = items }) (λ a. omega (arith, length-item_bytes a))
        (All-map offset-IsItem d.items v) l
