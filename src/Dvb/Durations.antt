-- ===== src/Dvb/Durations.antt =====
-- Durations in binary coded decimal, written and read.
use go_astits.Base.{
  ℕ, ◌+◌, ◌*◌, ◌/◌, ◌%◌, ◌^◌, ◌<◌, ◌≡◌, refl, arith, List, [], ◌∷◌, append_assoc, ◌>>=◌, ◌>>◌,
}
use go_astits.Bits.{◌<|>◌, bit_and_mask, bit_or_disjoint}
use go_astits.Astikit.{BytesIterator, IsBytesIterator, BitsWriter, IsBitsWriter}
use go_astits.Codec.{Writes, Reads, RoundTrips, Reads-bind, Reads-bytes, Reads-return}
use go_astits.Dvb.{
  second, minute, hour, parse_dvb_duration_byte, dvb_duration_byte_representation,
  parse_dvb_duration_minutes, parse_dvb_duration_seconds, write_dvb_duration_minutes,
  write_dvb_duration_seconds,
}

unfoldable pub duration_byte : ℕ → ℕ
duration_byte n = dvb_duration_byte_representation n

parse_duration_byte : (n : ℕ) → n < 160 → parse_dvb_duration_byte (duration_byte n) ≡ n
unfolding parse_dvb_duration_byte dvb_duration_byte_representation duration_byte
parse_duration_byte n h =
    let tens = n / 10 * 2 ^ 4 % 2 ^ 8 in
    let b : (tens <|> n % 10) ≡ tens + n % 10 =
      bit_or_disjoint 4 tens (n % 10) (omega arith) (omega arith) in
    rw b (omega (arith, bit_and_mask 4 (tens + n % 10)))

unfoldable pub minutes_bytes : ℕ → List ℕ
unfolding duration_byte
minutes_bytes d = duration_byte (d / hour % 256) ∷ duration_byte (d / minute % 60) ∷ []

pub minutes-Writes :
    {w : BitsWriter} (iw : IsBitsWriter w) (d : ℕ)
    → Writes iw (write_dvb_duration_minutes w d) (minutes_bytes d) 2
unfolding write_dvb_duration_minutes duration_byte minutes_bytes
minutes-Writes iw d = record {
  run = λ out. simp (iw.write_uint8-at, ◌>>=◌, ◌>>◌, append_assoc) refl;
}

pub minutes-Reads :
    {r : BytesIterator} (ir : IsBytesIterator r) (s : ℕ)
    → s < 160 * 60
    → Reads ir (parse_dvb_duration_minutes r) (minutes_bytes (s * minute)) (s * minute)
unfolding parse_dvb_duration_minutes minutes_bytes
minutes-Reads ir s l =
    let d = s * minute in
    Reads-bind ir _ (minutes_bytes d) [] (Reads-bytes ir 2 (minutes_bytes d) (omega arith) refl) (
      Reads-return ir _ _ (
        rw
          (
            parse_duration_byte (d / hour % 256) (omega arith),
            parse_duration_byte (d / minute % 60) (omega arith),
          )
          (omega arith)))

unfoldable pub seconds_bytes : ℕ → List ℕ
unfolding duration_byte
seconds_bytes d =
    duration_byte (d / hour % 256)
    ∷ duration_byte (d / minute % 60)
    ∷ duration_byte (d / second % 60)
    ∷ []

pub seconds-Writes :
    {w : BitsWriter} (iw : IsBitsWriter w) (d : ℕ)
    → Writes iw (write_dvb_duration_seconds w d) (seconds_bytes d) 3
unfolding write_dvb_duration_seconds duration_byte seconds_bytes
seconds-Writes iw d = record {
  run = λ out. simp (iw.write_uint8-at, ◌>>=◌, ◌>>◌, append_assoc) refl;
}

pub seconds-Reads :
    {r : BytesIterator} (ir : IsBytesIterator r) (s : ℕ)
    → s < 160 * 3600
    → Reads ir (parse_dvb_duration_seconds r) (seconds_bytes (s * second)) (s * second)
unfolding parse_dvb_duration_seconds seconds_bytes
seconds-Reads ir s l =
    let d = s * second in
    Reads-bind ir _ (seconds_bytes d) [] (Reads-bytes ir 3 (seconds_bytes d) (omega arith) refl) (
      Reads-return ir _ _ (
        rw
          (
            parse_duration_byte (d / hour % 256) (omega arith),
            parse_duration_byte (d / minute % 60) (omega arith),
            parse_duration_byte (d / second % 60) (omega arith),
          )
          (omega arith)))

module _ {w : BitsWriter} (iw : IsBitsWriter w) {r : BytesIterator} (ir : IsBytesIterator r) where
  -- A duration of whole seconds below 160 hours is written in three bytes, and
  -- `parseDVBDurationSeconds` reads it back.
  pub parse_dvb_duration_seconds-write_dvb_duration_seconds :
      (s : ℕ)
      → s < 160 * 3600
      → RoundTrips iw ir
          (write_dvb_duration_seconds w (s * second))
          3
          (parse_dvb_duration_seconds r)
          (s * second)
  unfolding RoundTrips seconds_bytes
  parse_dvb_duration_seconds-write_dvb_duration_seconds s l =
      (seconds_bytes (s * second), refl, seconds-Writes iw (s * second), seconds-Reads ir s l)

  -- A duration of whole minutes below 160 hours is written in two bytes, and
  -- `parseDVBDurationMinutes` reads it back.
  pub parse_dvb_duration_minutes-write_dvb_duration_minutes :
      (s : ℕ)
      → s < 160 * 60
      → RoundTrips iw ir
          (write_dvb_duration_minutes w (s * minute))
          2
          (parse_dvb_duration_minutes r)
          (s * minute)
  unfolding RoundTrips minutes_bytes
  parse_dvb_duration_minutes-write_dvb_duration_minutes s l =
      (minutes_bytes (s * minute), refl, minutes-Writes iw (s * minute), minutes-Reads ir s l)
