-- ===== src/Muxer.antt =====
-- `muxer.go`: the state of a muxer, and its methods. What is written goes to `m.w` by whole bytes, so
-- the writes past `m.bitsWriter` are writes of the same writer; the buffers `m.buf` and the writers
-- over them start empty each time. What a write that fails has put out is not kept, and a failed call
-- does not tell how its argument was changed.
pub mod Monad
pub mod Tables
pub mod Data
pub mod TooLong
pub mod Invariant
pub mod Reach
pub mod Streams
use go_astits.Base.{
  ℕ, ◌+◌, ◌*◌, ◌%◌, ◌^◌, Bool, true, false, not, ◌==◌, if◌then◌else◌, Option, none, some, List, [],
  ◌∷◌, ◌++◌, map, Map, lookup, insert, remove, Result, ok, err, panic, unfinished, M, pid_not_found,
  pid_already_exists,
}
use go_astits.Astikit.{BitsWriter, Buffer}
use go_astits.WrappingCounter.{WrappingCounter, new_wrapping_counter}
use go_astits.ProgramMap.{ProgramMap, new_program_map, set}
use go_astits.Pmt.{PmtElementaryStream, PmtData}
use go_astits.Muxer.Monad.{Op, ◌>>=◌, ◌>>◌, pure, throw, gets, modify}

abbrev pub pmt_start_pid : ℕ
pmt_start_pid = 0x1000

abbrev pub program_number_start : ℕ
program_number_start = 1

pub record EsContext (Time : Type 0) : Type 0 where
  pub es : PmtElementaryStream Time
  pub cc : WrappingCounter

-- `Out` is the state of the writer.
pub record Muxer (Out Time : Type 0) : Type 0 where
  pub out : Out
  pub tables_retransmit_period : ℕ
  pub pm : ProgramMap
  pub pmt : PmtData Time
  pub next_pid : ℕ
  pub pat_version : WrappingCounter
  pub pmt_version : WrappingCounter
  pub pat_bytes : List ℕ
  pub pmt_bytes : List ℕ
  pub es_contexts : Map (EsContext Time)
  pub tables_retransmit_counter : ℕ

module _ {Time : Type 0} where
  unfoldable pub new_es_context : PmtElementaryStream Time → EsContext Time
  new_es_context es = record { es = es; cc = new_wrapping_counter 0b1111 }

  -- The loops that look for a stream by its id.
  unfoldable pub has_pid : List (PmtElementaryStream Time) → ℕ → Bool
  has_pid [] pid = false
  has_pid (es ∷ rest) pid = if es.elementary_pid == pid then true else has_pid rest pid

  -- The streams without the first one of the id.
  unfoldable pub without : List (PmtElementaryStream Time) → ℕ → List (PmtElementaryStream Time)
  without [] pid = []
  without (es ∷ rest) pid =
      let less = without rest pid in if es.elementary_pid == pid then rest else es ∷ less

module _ {Out Time : Type 0} where
  -- With the period 40, unless an option sets another.
  unfoldable pub new_muxer : Out → ℕ → Muxer Out Time
  new_muxer out period = record {
    out = out;
    tables_retransmit_period = period;
    pm = set new_program_map pmt_start_pid program_number_start;
    pmt = record {
      elementary_streams = [];
      pcr_pid = 0;
      program_descriptors = [];
      program_number = program_number_start;
    };
    next_pid = 0;
    pat_version = new_wrapping_counter 0b11111;
    pmt_version = new_wrapping_counter 0b11111;
    pat_bytes = [];
    pmt_bytes = [];
    es_contexts = [];
    tables_retransmit_counter = period;
  }

  -- A stream at the end of the list, its context, and the cached table thrown away.
  unfoldable pub append_stream : PmtElementaryStream Time → Muxer Out Time → Muxer Out Time
  append_stream es m = record m {
    pmt = record m.pmt { elementary_streams = m.pmt.elementary_streams ++ (es ∷ []) };
    es_contexts = insert m.es_contexts es.elementary_pid (new_es_context es);
    pmt_bytes = [];
  }

  unfoldable pub with_next_pid :
      PmtElementaryStream Time → Muxer Out Time → PmtElementaryStream Time
  with_next_pid es m = record es { elementary_pid = m.next_pid }

  unfoldable pub take_next_pid : Muxer Out Time → Muxer Out Time
  take_next_pid m = record m { next_pid = (m.next_pid + 1) % 2 ^ 16 }

  unfoldable pub add_elementary_stream : PmtElementaryStream Time → Op (Muxer Out Time) (Unit {0})
  add_elementary_stream es =
      if not (es.elementary_pid == 0)
      then (do
        exists ← gets (λ m. has_pid m.pmt.elementary_streams es.elementary_pid)
        (if exists then throw pid_already_exists else modify (append_stream es)))
      else (do es' ← gets (with_next_pid es); modify take_next_pid; modify (append_stream es'))

  unfoldable pub drop_stream : ℕ → Muxer Out Time → Muxer Out Time
  drop_stream pid m = record m {
    pmt = record m.pmt { elementary_streams = without m.pmt.elementary_streams pid };
    es_contexts = remove m.es_contexts pid;
    pmt_bytes = [];
  }

  unfoldable pub remove_elementary_stream : ℕ → Op (Muxer Out Time) (Unit {0})
  remove_elementary_stream pid = do
    found ← gets (λ m. has_pid m.pmt.elementary_streams pid)
    (if found then modify (drop_stream pid) else throw pid_not_found)

  unfoldable pub with_pcr_pid : ℕ → Muxer Out Time → Muxer Out Time
  with_pcr_pid pid m = record m { pmt = record m.pmt { pcr_pid = pid } }

  unfoldable pub set_pcr_pid : ℕ → Op (Muxer Out Time) (Unit {0})
  set_pcr_pid pid = modify (with_pcr_pid pid)

-- A writer over a buffer that is new, and the bytes that it holds at the end.
module _ (w : BitsWriter) (b : Buffer w) where
  abbrev pub buffered {ℓ} : {A : Type ℓ} → Result (A × w.Writer) → Result (A × List ℕ)
  buffered (ok (a, i)) = ok (a, b.written i)
  buffered (err e) = err e
  buffered panic = panic
  buffered unfinished = unfinished

  unfoldable pub in_buffer {ℓ} : {A : Type ℓ} → M w.Writer A → Result (A × List ℕ)
  in_buffer m = buffered (m b.empty)

  abbrev pub written_out {ℓ} :
      {A : Type ℓ} {Time : Type 0}
      → Muxer w.Writer Time
      → Result (A × w.Writer)
      → Result A × Muxer w.Writer Time
  written_out m (ok (a, i)) = (ok a, record m { out = i })
  written_out m (err e) = (err e, m)
  written_out m panic = (panic, m)
  written_out m unfinished = (unfinished, m)

  -- A write to `m.w`.
  unfoldable pub to_out {ℓ} :
      {A : Type ℓ} {Time : Type 0} → M w.Writer A → Op (Muxer w.Writer Time) A
  to_out f m = written_out m (f m.out)
