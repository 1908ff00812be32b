-- ===== src/Tests/Muxer.antt =====
-- Runs of a muxer, over lists of bytes.
use go_astits.Base.{arith, replicate, ℕ, ◌≡◌, refl, [], List, none, some, Result, ok}
use go_astits.Astikit.Lists.{list_writer, list_buffer}
use go_astits.ProgramMap.{ProgramMap}
use go_astits.Pmt.{PmtElementaryStream}
use go_astits.Tests.Descriptors.{write_time}
use go_astits.Muxer.{
  has_pid, with_pcr_pid, append_stream, Muxer, new_muxer, add_elementary_stream,
  remove_elementary_stream, set_pcr_pid,
}
use go_astits.Tests.Streams.{optional_header}
use go_astits.Pes.{PesHeader}
use go_astits.Muxer.Data.{MuxerData, write_data}
use go_astits.Muxer.Streams.{remove_elementary_stream-add_elementary_stream}
use go_astits.Muxer.Monad.{◌>>◌, ◌>>=◌, gets, modify}
use go_astits.Muxer.Invariant.{IsConsistent}
use go_astits.Muxer.Reach.{Reached-IsConsistent, started, added, pcr_set, data_written}

abbrev order : ProgramMap → List (ℕ × ℕ)
order m = m

abbrev State : Type 0
State = Muxer list_writer.Writer ℕ

abbrev a_stream : ℕ → PmtElementaryStream ℕ
a_stream pid = record { elementary_pid = pid; elementary_stream_descriptors = []; stream_type = 27 }

abbrev empty_muxer : State
empty_muxer = new_muxer ([], 0, 0) 40

abbrev one_stream : State
one_stream = (add_elementary_stream (a_stream 257) empty_muxer).1

abbrev with_streams : State
with_streams = (add_elementary_stream (a_stream 300) one_stream).1

abbrev with_pcr : State
with_pcr = (set_pcr_pid 257 with_streams).1

with_pcr-IsConsistent : IsConsistent with_pcr
with_pcr-IsConsistent = Reached-IsConsistent list_writer list_buffer write_time order with_pcr (
    pcr_set 257 with_streams
      (added (a_stream 300) one_stream (added (a_stream 257) empty_muxer (started ([], 0, 0) 40))))

abbrev some_bytes : ℕ → List ℕ
some_bytes n = replicate n 7

abbrev some_data : ℕ → ℕ → MuxerData
some_data pid n = record {
  adaptation_field = none;
  pes = some (record {
    data_bytes = some_bytes n;
    header = record { optional_header = none; packet_length = 0; stream_id = 0 };
  });
  pid = pid;
}

abbrev write : ℕ → ℕ → State → Result (ℕ × MuxerData) × State
write pid n = write_data list_writer list_buffer write_time order (some_data pid n)

Reached-IsConsistent_example : IsConsistent (write 257 200 with_pcr).1
Reached-IsConsistent_example =
    Reached-IsConsistent list_writer list_buffer write_time order (write 257 200 with_pcr).1 (
      data_written (some_data 257 200) with_pcr (
        pcr_set 257 with_streams (
          added (a_stream 300) one_stream
            (added (a_stream 257) empty_muxer (started ([], 0, 0) 40)))))

remove_elementary_stream-add_elementary_stream_example :
    (add_elementary_stream (a_stream 259) >> remove_elementary_stream 259) with_pcr
    ≡ (ok tt, record with_pcr { pmt_bytes = [] })
unfolding add_elementary_stream new_muxer set_pcr_pid has_pid modify with_pcr_pid ◌>>=◌ gets
    append_stream
remove_elementary_stream-add_elementary_stream_example =
    remove_elementary_stream-add_elementary_stream (a_stream 259) with_pcr with_pcr-IsConsistent
      (omega arith) refl

-- Extension data of 180 bytes, more than the 127 that their length can say.
abbrev long_header : PesHeader
long_header = record {
  optional_header = some (record optional_header { extension2_data = replicate 180 0 });
  packet_length = 0;
  stream_id = 0xe0;
}
