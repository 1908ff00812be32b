-- ===== src/Muxer/Tables.antt =====
-- The tables of a muxer: when they are sent, and how they are made.
use go_astits.Base.{
  ℕ, ◌+◌, ◌%◌, ◌^◌, Bool, true, false, not, ◌==◌, ◌&&◌, ltb, if◌then◌else◌, none, some, List, [],
  ◌∷◌, length, pcr_pid_invalid,
}
use go_astits.Astikit.{BitsWriter, Buffer}
use go_astits.WrappingCounter.{get}
use go_astits.ProgramMap.{ProgramMap, to_pat_data}
use go_astits.Pat.{calc_pat_section_length}
use go_astits.Pmt.{calc_pmt_section_length}
use go_astits.Base.{M}
use go_astits.Packet.{Packet, mpeg_ts_packet_size}
use go_astits.Packet.Write.{write_packet}
use go_astits.Psi.Section.{PsiSectionSyntaxData, psi_table_id_pmt}
use go_astits.Psi.Data.{PsiData, write_psi_data}
use go_astits.Muxer.Monad.{Op, ◌>>=◌, ◌>>◌, pure, throw, gets, modify, outcome}
use go_astits.Muxer.{Muxer, pmt_start_pid, has_pid, in_buffer, to_out}

-- The section that is made for a table.
unfoldable pub section_for :
    {Time : Type 0} → ℕ → ℕ → ℕ → ℕ → PsiSectionSyntaxData Time (Unit {0}) → PsiData Time (Unit {0})
section_for table_id extension version section_length d = record {
  pointer_field = 0;
  sections =
      record {
        crc32 = 0;
        header = record {
          private_bit = false;
          section_length = section_length;
          section_syntax_indicator = true;
          table_id = table_id;
        };
        syntax = some (record {
          data_of = d;
          header = some (record {
            current_next_indicator = true;
            last_section_number = 0;
            section_number = 0;
            table_id_extension = extension;
            version_number = version % 2 ^ 8;
          });
        });
      }
      ∷ [];
}

-- The packet of a table. Its continuity counter is always 0.
unfoldable pub table_packet : ℕ → List ℕ → Packet
table_packet pid payload = record {
  adaptation_field = none;
  header = record {
    continuity_counter = 0;
    has_adaptation_field = false;
    has_payload = true;
    payload_unit_start_indicator = true;
    pid = pid;
    transport_error_indicator = false;
    transport_priority = false;
    transport_scrambling_control = 0;
  };
  payload = payload;
}

module _ {Out Time : Type 0} where
  unfoldable pub next_pat_version : Muxer Out Time → Muxer Out Time
  next_pat_version m = record m { pat_version = (get m.pat_version).1 }

  unfoldable pub next_pmt_version : Muxer Out Time → Muxer Out Time
  next_pmt_version m = record m { pmt_version = (get m.pmt_version).1 }

  unfoldable pub with_pat_bytes : List ℕ → Muxer Out Time → Muxer Out Time
  with_pat_bytes bs m = record m { pat_bytes = bs }

  unfoldable pub with_pmt_bytes : List ℕ → Muxer Out Time → Muxer Out Time
  with_pmt_bytes bs m = record m { pmt_bytes = bs }

  unfoldable pub count_up : Muxer Out Time → Muxer Out Time
  count_up m = record m { tables_retransmit_counter = m.tables_retransmit_counter + 1 }

  unfoldable pub count_from_start : Muxer Out Time → Muxer Out Time
  count_from_start m = record m { tables_retransmit_counter = 0 }

module _ (w : BitsWriter) (b : Buffer w) {Time : Type 0} (write_dvb_time : Time → M w.Writer ℕ)
    (order : ProgramMap → List (ℕ × ℕ)) where
  unfoldable pub generate_pat : Op (Muxer w.Writer Time) (Unit {0})
  generate_pat = do
    d ← gets (λ m. to_pat_data order m.pm)
    version ← gets (λ m. (get m.pat_version).0)
    modify next_pat_version
    (_, payload) ← outcome (
        in_buffer w b (
          write_psi_data w b write_dvb_time (
            section_for (d.transport_stream_id) d.transport_stream_id version
              (calc_pat_section_length d) (record { other = none; pat = some d; pmt = none }))))
    modify (with_pat_bytes [])
    (_, packet) ←
        outcome (in_buffer w b (write_packet w (table_packet 0 payload) mpeg_ts_packet_size))
    modify (with_pat_bytes packet)

  -- Behind the test of the PCR's id.
  unfoldable pub generate_valid_pmt : Op (Muxer w.Writer Time) (Unit {0})
  generate_valid_pmt = do
    d ← gets (λ m. m.pmt)
    version ← gets (λ m. (get m.pmt_version).0)
    modify next_pmt_version
    section_length ← outcome (calc_pmt_section_length d)
    (_, payload) ← outcome (
        in_buffer w b (
          write_psi_data w b write_dvb_time (
            section_for psi_table_id_pmt d.program_number version section_length
              (record { other = none; pat = none; pmt = some d }))))
    modify (with_pmt_bytes [])
    (_, packet) ←
        outcome
          (in_buffer w b (write_packet w (table_packet pmt_start_pid payload) mpeg_ts_packet_size))
    modify (with_pmt_bytes packet)

  unfoldable pub generate_pmt : Op (Muxer w.Writer Time) (Unit {0})
  generate_pmt = do
    has_pcr_pid ← gets (λ m. has_pid m.pmt.elementary_streams m.pmt.pcr_pid)
    (if has_pcr_pid then generate_valid_pmt else throw pcr_pid_invalid)

  unfoldable pub write_tables : Op (Muxer w.Writer Time) ℕ
  write_tables = do
    pat_fits ← gets (λ m. length m.pat_bytes == mpeg_ts_packet_size)
    (if pat_fits then pure tt else generate_pat)
    pmt_fits ← gets (λ m. length m.pmt_bytes == mpeg_ts_packet_size)
    (if pmt_fits then pure tt else generate_pmt)
    pat ← gets (λ m. m.pat_bytes)
    to_out w b (w.write_bytes pat)
    pmt ← gets (λ m. m.pmt_bytes)
    to_out w b (w.write_bytes pmt)
    pure (length pat + length pmt)

  unfoldable pub retransmit_tables : Bool → Op (Muxer w.Writer Time) ℕ
  retransmit_tables force = do
    modify count_up
    early ← gets (λ m. ltb m.tables_retransmit_counter m.tables_retransmit_period)
    (if not force && early then pure 0 else (do n ← write_tables; modify count_from_start; pure n))
