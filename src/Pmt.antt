-- ===== src/Pmt.antt =====
-- `data_pmt.go`: the program map table, over the descriptors that it holds.
pub mod StreamType
pub mod RoundTrip
use go_astits.Base.{
  ℕ, ◌+◌, ◌*◌, ◌%◌, ◌^◌, List, [], ◌∷◌, Result, ok, err, panic, unfinished, M, pure, bit_and, ◌>>=◌,
  ◌>>◌,
}
use go_astits.Bits.{◌<|>◌}
use go_astits.Astikit.{BytesIterator, BitsWriter}
use go_astits.Clock.{byte_at}
use go_astits.Cursor.{items_to}
use go_astits.Descriptor.Dispatch.{Descriptor, parse_descriptors}
use go_astits.Descriptor.Dispatch.Lengths.{calc_descriptors_length}
use go_astits.Descriptor.Dispatch.Write.{write_descriptors_with_length}

pub record PmtElementaryStream (Time : Type 0) : Type 0 where
  pub elementary_pid : ℕ
  pub elementary_stream_descriptors : List (Descriptor Time)
  pub stream_type : ℕ

pub record PmtData (Time : Type 0) : Type 0 where
  pub elementary_streams : List (PmtElementaryStream Time)
  pub pcr_pid : ℕ
  pub program_descriptors : List (Descriptor Time)
  pub program_number : ℕ

-- `uint16(bs[0]&0x1f)<<8 | uint16(bs[1])`
unfoldable pub pid_of_bytes : List ℕ → ℕ
pid_of_bytes bs = bit_and (byte_at bs 0) 0x1f * 2 ^ 8 <|> byte_at bs 1

module _ (r : BytesIterator) {Time : Type 0} (parse_dvb_time : M r.Iter Time) where
  open r use {Iter, next_byte, next_bytes}

  -- The body of the loop.
  unfoldable pub parse_elementary_stream : M Iter (PmtElementaryStream Time)
  parse_elementary_stream = do
    b ← next_byte
    bs ← next_bytes 2
    descriptors ← parse_descriptors r parse_dvb_time
    pure (record {
      elementary_pid = pid_of_bytes bs;
      elementary_stream_descriptors = descriptors;
      stream_type = b;
    })

  unfoldable pub parse_pmt_section : ℕ → ℕ → M Iter (PmtData Time)
  parse_pmt_section offset_sections_end table_id_extension = do
    bs ← next_bytes 2
    program_descriptors ← parse_descriptors r parse_dvb_time
    streams ← items_to r offset_sections_end parse_elementary_stream
    pure (record {
      elementary_streams = streams;
      pcr_pid = pid_of_bytes bs;
      program_descriptors = program_descriptors;
      program_number = table_id_extension;
    })

-- `ret += n`, as a `uint16`, where the calculation of `n` may panic
abbrev pub add_length : ℕ → Result ℕ → Result ℕ
add_length ret (ok n) = ok ((ret + n) % 2 ^ 16)
add_length ret (err e) = err e
add_length ret panic = panic
add_length ret unfinished = unfinished

module _ {Time : Type 0} where
  unfoldable pub calc_streams_length : List (PmtElementaryStream Time) → Result ℕ → Result ℕ
  calc_streams_length [] ret = ret
  calc_streams_length (es ∷ rest) (ok ret) =
      calc_streams_length rest
        (add_length (ret + 5) (calc_descriptors_length es.elementary_stream_descriptors))
  calc_streams_length (es ∷ rest) (err e) = err e
  calc_streams_length (es ∷ rest) panic = panic
  calc_streams_length (es ∷ rest) unfinished = unfinished

  unfoldable pub calc_pmt_program_info_length : PmtData Time → Result ℕ
  calc_pmt_program_info_length d =
      calc_streams_length d.elementary_streams
        (add_length 2 (calc_descriptors_length d.program_descriptors))

  unfoldable pub calc_pmt_section_length : PmtData Time → Result ℕ
  calc_pmt_section_length d =
      calc_streams_length d.elementary_streams
        (add_length 4 (calc_descriptors_length d.program_descriptors))

module _ (w : BitsWriter) {Time : Type 0} (write_dvb_time : Time → M w.Writer ℕ) where
  open w use {Writer, write_uint8, write_n}

  -- Three reserved bits and a PID.
  unfoldable pub write_reserved_pid : ℕ → M Writer (Unit {0})
  write_reserved_pid pid = do write_n 0xff 3; write_n pid 13

  unfoldable pub write_elementary_streams : List (PmtElementaryStream Time) → ℕ → M Writer ℕ
  write_elementary_streams [] bytes_written = pure bytes_written
  write_elementary_streams (es ∷ rest) bytes_written = do
    write_uint8 es.stream_type
    write_reserved_pid es.elementary_pid
    n ← write_descriptors_with_length w write_dvb_time es.elementary_stream_descriptors
    write_elementary_streams rest (bytes_written + 3 + n)

  unfoldable pub write_pmt_section : PmtData Time → M Writer ℕ
  write_pmt_section d = do
    write_reserved_pid d.pcr_pid
    n ← write_descriptors_with_length w write_dvb_time d.program_descriptors
    write_elementary_streams d.elementary_streams (2 + n)
