-- ===== src/Dvb.antt =====
-- The durations of `dvb.go`. A duration is a number of nanoseconds. `Hours` and its kin are floats
-- that the code cuts off: below a thousand hours this is the quotient.
pub mod Durations
pub mod Dates
use go_astits.Base.{ℕ, ◌+◌, ◌*◌, ◌/◌, ◌%◌, ◌^◌, bit_and, List, M, pure, ◌>>=◌, ◌>>◌}
use go_astits.Bits.{◌<|>◌}
use go_astits.Astikit.{BytesIterator, BitsWriter}
use go_astits.Clock.{byte_at}

-- `time.Second`, `time.Minute` and `time.Hour`
abbrev pub second : ℕ
second = 1000000000

abbrev pub minute : ℕ
minute = 60000000000

abbrev pub hour : ℕ
hour = 3600000000000

unfoldable pub parse_dvb_duration_byte : ℕ → ℕ
parse_dvb_duration_byte i = i / 2 ^ 4 * 10 + bit_and i 0xf

unfoldable pub dvb_duration_byte_representation : ℕ → ℕ
dvb_duration_byte_representation n = n / 10 * 2 ^ 4 % 2 ^ 8 <|> n % 10

module _ (r : BytesIterator) where
  open r use {Iter, next_bytes}

  unfoldable pub parse_dvb_duration_minutes : M Iter ℕ
  parse_dvb_duration_minutes = do
    bs ← next_bytes 2
    pure (
        parse_dvb_duration_byte (byte_at bs 0) * hour
        + parse_dvb_duration_byte (byte_at bs 1) * minute)

  unfoldable pub parse_dvb_duration_seconds : M Iter ℕ
  parse_dvb_duration_seconds = do
    bs ← next_bytes 3
    pure (
        parse_dvb_duration_byte (byte_at bs 0) * hour
        + parse_dvb_duration_byte (byte_at bs 1) * minute
        + parse_dvb_duration_byte (byte_at bs 2) * second)

module _ (w : BitsWriter) where
  open w use {Writer, write_uint8}

  unfoldable pub write_dvb_duration_minutes : ℕ → M Writer ℕ
  write_dvb_duration_minutes d = do
    write_uint8 (dvb_duration_byte_representation (d / hour % 2 ^ 8))
    write_uint8 (dvb_duration_byte_representation (d / minute % 60))
    pure 2

  unfoldable pub write_dvb_duration_seconds : ℕ → M Writer ℕ
  write_dvb_duration_seconds d = do
    write_uint8 (dvb_duration_byte_representation (d / hour % 2 ^ 8))
    write_uint8 (dvb_duration_byte_representation (d / minute % 60))
    write_uint8 (dvb_duration_byte_representation (d / second % 60))
    pure 3
