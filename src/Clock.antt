-- ===== src/Clock.antt =====
-- Clock references and their encodings: `clock_reference.go`, `parsePCR` and `writePCR` of
-- `packet.go`, `parsePTSOrDTS`, `writePTSOrDTS`, `parseESCR` and `writeESCR` of `data_pes.go`.
pub mod RoundTrip
use go_astits.Base.{
  ℕ, ◌+◌, ◌*◌, ◌/◌, ◌%◌, ◌^◌, Bool, true, bit_and, List, get_or, M, pure, ◌>>=◌, ◌>>◌,
}
use go_astits.Bits.{◌<|>◌}
use go_astits.Astikit.{BytesIterator, BitsWriter}

-- `Base` and `Extension` are `int64`; the code reads and writes no negative ones.
pub record ClockReference : Type 0 where
  pub base : ℕ
  pub extension : ℕ

-- `bs[i]` of a slice whose length the iterator fixed.
abbrev pub byte_at : List ℕ → ℕ → ℕ
byte_at bs i = get_or bs i 0

abbrev pub pcr_bytes_size : ℕ
pcr_bytes_size = 6

abbrev pub pts_or_dts_byte_length : ℕ
pts_or_dts_byte_length = 5

abbrev pub escr_length : ℕ
escr_length = 6

-- 33 bits of base, 6 reserved bits, 9 bits of extension.
pub pcr_of_bytes : List ℕ → ClockReference
pcr_of_bytes bs =
    let pcr =
      byte_at bs 0 * 2 ^ 40
      <|> byte_at bs 1 * 2 ^ 32
      <|> byte_at bs 2 * 2 ^ 24
      <|> byte_at bs 3 * 2 ^ 16
      <|> byte_at bs 4 * 2 ^ 8
      <|> byte_at bs 5 in
    record { base = pcr / 2 ^ 15; extension = bit_and pcr 0x1ff }

pub pts_or_dts_of_bytes : List ℕ → ClockReference
pts_or_dts_of_bytes bs = record {
  base =
      bit_and (byte_at bs 0 / 2) 0x7 * 2 ^ 30
      <|> byte_at bs 1 * 2 ^ 22
      <|> bit_and (byte_at bs 2 / 2) 0x7f * 2 ^ 15
      <|> byte_at bs 3 * 2 ^ 7
      <|> bit_and (byte_at bs 4 / 2) 0x7f;
  extension = 0;
}

pub escr_of_bytes : List ℕ → ClockReference
escr_of_bytes bs =
    let escr =
      bit_and (byte_at bs 0 / 2 ^ 3) 0x7 * 2 ^ 39
      <|> bit_and (byte_at bs 0) 0x3 * 2 ^ 37
      <|> byte_at bs 1 * 2 ^ 29
      <|> byte_at bs 2 / 2 ^ 3 * 2 ^ 24
      <|> bit_and (byte_at bs 2) 0x3 * 2 ^ 22
      <|> byte_at bs 3 * 2 ^ 14
      <|> byte_at bs 4 / 2 ^ 3 * 2 ^ 9
      <|> bit_and (byte_at bs 4) 0x3 * 2 ^ 7
      <|> byte_at bs 5 / 2 in
    record { base = escr / 2 ^ 9; extension = bit_and escr 0x1ff }

module _ (r : BytesIterator) where
  open r use {Iter, next_bytes}

  pub parse_pcr : M Iter ClockReference
  parse_pcr = do bs ← next_bytes 6; pure (pcr_of_bytes bs)

  pub parse_pts_or_dts : M Iter ClockReference
  parse_pts_or_dts = do bs ← next_bytes 5; pure (pts_or_dts_of_bytes bs)

  pub parse_escr : M Iter ClockReference
  parse_escr = do bs ← next_bytes 6; pure (escr_of_bytes bs)

module _ (w : BitsWriter) where
  open w use {Writer, write_bool, write_n}

  pub write_pcr : ClockReference → M Writer ℕ
  write_pcr cr = do write_n cr.base 33; write_n 0xff 6; write_n cr.extension 9; pure pcr_bytes_size

  pub write_pts_or_dts : ℕ → ClockReference → M Writer ℕ
  write_pts_or_dts flag cr = do
    write_n flag 4
    write_n (cr.base / 2 ^ 30) 3
    write_bool true
    write_n (cr.base / 2 ^ 15) 15
    write_bool true
    write_n cr.base 15
    write_bool true
    pure pts_or_dts_byte_length

  pub write_escr : ClockReference → M Writer ℕ
  write_escr cr = do
    write_n 0xff 2
    write_n (cr.base / 2 ^ 30) 3
    write_bool true
    write_n (cr.base / 2 ^ 15) 15
    write_bool true
    write_n cr.base 15
    write_bool true
    write_n cr.extension 9
    write_bool true
    pure escr_length
