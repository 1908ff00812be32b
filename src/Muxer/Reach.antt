-- ===== src/Muxer/Reach.antt =====
-- The muxers that calls make of a new one.
use go_astits.Base.{ℕ, zero, suc, Bool, false, Option, none, some, List, [], ◌∷◌, drop, M}
use go_astits.Astikit.{BitsWriter, Buffer}
use go_astits.ProgramMap.{ProgramMap}
use go_astits.Packet.{Packet, PacketAdaptationField}
use go_astits.Pes.{PesHeader, PesData}
use go_astits.Pmt.{PmtElementaryStream}
use go_astits.Muxer.{
  Muxer, EsContext, new_muxer, add_elementary_stream, remove_elementary_stream, set_pcr_pid,
}
use go_astits.Muxer.Monad.{
  Keeps-bind, Keeps-if, Keeps-gets, Keeps-throw, Keeps-modify, Keeps-pure, Keeps-fault,
  Keeps-exhausted, Keeps-outcome,
}
use go_astits.Muxer.Tables.{
  generate_pat, generate_valid_pmt, generate_pmt, write_tables, retransmit_tables,
}
use go_astits.Muxer.Data.{
  MuxerData, field_size, send_payload, write_packets, write_pes, write_data_of, write_data,
  write_packet_as_is,
}
use go_astits.Muxer.Invariant.{
  IsConsistent, Consistent, new_muxer-IsConsistent, add_elementary_stream-Consistent,
  remove_elementary_stream-Consistent, set_pcr_pid-Consistent, next_counter-Consistent,
  next_pat_version-IsConsistent, next_pmt_version-IsConsistent, with_pat_bytes-IsConsistent,
  with_pmt_bytes-IsConsistent, count_up-IsConsistent, count_from_start-IsConsistent,
  to_out-Consistent,
}

module _ (w : BitsWriter) (b : Buffer w) {Time : Type 0} where
  field_size-Consistent :
      (af : Option PacketAdaptationField) → Consistent {Time = Time} (field_size w b af)
  unfolding field_size
  field_size-Consistent none = Keeps-pure IsConsistent _
  field_size-Consistent (some af) =
      Keeps-bind IsConsistent (to_out-Consistent w b _) (λ n. Keeps-pure IsConsistent _)

  send_payload-Consistent :
      (pid : ℕ) (h : PesHeader) (counter : ℕ) (start : Bool) (field : Option PacketAdaptationField)
      (left : List ℕ) (available : ℕ)
      → Consistent {Time = Time} (send_payload w b pid h counter start field left available)
  unfolding send_payload
  send_payload-Consistent pid h counter start field left available =
      Keeps-bind IsConsistent (Keeps-outcome IsConsistent _)
        (λ z. Keeps-bind IsConsistent (to_out-Consistent w b _) (λ n. Keeps-pure IsConsistent _))

  write_packets-Consistent :
      (fuel pid stream_type : ℕ) (h : PesHeader) (start : Bool)
      (field : Option PacketAdaptationField) (left : List ℕ) (written : ℕ)
      → Consistent {Time = Time} (write_packets w b fuel pid stream_type h start field left written)
  unfolding write_packets
  write_packets-Consistent fuel pid t h start field [] written = Keeps-pure IsConsistent _
  write_packets-Consistent zero pid t h start field (x ∷ left) written =
      Keeps-exhausted IsConsistent
  write_packets-Consistent (suc fuel) pid t h start field (x ∷ left) written =
      Keeps-bind IsConsistent (next_counter-Consistent pid) (λ counter.
        Keeps-bind IsConsistent (field_size-Consistent field) (λ size.
          Keeps-if IsConsistent _
            (Keeps-bind IsConsistent
              (send_payload-Consistent pid _ counter start field (x ∷ left) _)
              (λ z. write_packets-Consistent fuel pid t _ false none (drop z.1 (x ∷ left)) _))
            (write_packets-Consistent fuel pid t h start none (x ∷ left) written)))

  write_pes-Consistent :
      (d : MuxerData) (ctx : EsContext Time) (tables : ℕ) (p : Option PesData)
      → Consistent (write_pes w b d ctx tables p)
  unfolding write_pes
  write_pes-Consistent d ctx tables none = Keeps-fault IsConsistent
  write_pes-Consistent d ctx tables (some p) =
      Keeps-bind IsConsistent (write_packets-Consistent _ _ _ _ _ _ _ _)
        (λ z. Keeps-pure IsConsistent _)

  packet-Consistent : (p : Packet) → Consistent {Time = Time} (write_packet_as_is w b p)
  unfolding write_packet_as_is
  packet-Consistent p = to_out-Consistent w b _

module _ (w : BitsWriter) (b : Buffer w) {Time : Type 0} (write_dvb_time : Time → M w.Writer ℕ)
    (order : ProgramMap → List (ℕ × ℕ)) where
  abbrev State : Type 0
  State = Muxer w.Writer Time

  generate_pat-Consistent : Consistent (generate_pat w b write_dvb_time order)
  unfolding generate_pat
  generate_pat-Consistent = Keeps-bind IsConsistent (Keeps-gets IsConsistent _) (λ d.
      Keeps-bind IsConsistent (Keeps-gets IsConsistent _) (λ version.
        Keeps-bind IsConsistent (Keeps-modify IsConsistent _ next_pat_version-IsConsistent) (λ _.
          Keeps-bind IsConsistent (Keeps-outcome IsConsistent _) (λ payload.
            Keeps-bind IsConsistent (Keeps-modify IsConsistent _ (with_pat_bytes-IsConsistent []))
              (λ _.
                Keeps-bind IsConsistent (Keeps-outcome IsConsistent _) (λ packet.
                  Keeps-modify IsConsistent _ (with_pat_bytes-IsConsistent packet.1)))))))

  generate_valid_pmt-Consistent : Consistent (generate_valid_pmt w b write_dvb_time order)
  unfolding generate_valid_pmt
  generate_valid_pmt-Consistent = Keeps-bind IsConsistent (Keeps-gets IsConsistent _) (λ d.
      Keeps-bind IsConsistent (Keeps-gets IsConsistent _) (λ version.
        Keeps-bind IsConsistent (Keeps-modify IsConsistent _ next_pmt_version-IsConsistent) (λ _.
          Keeps-bind IsConsistent (Keeps-outcome IsConsistent _) (λ section_length.
            Keeps-bind IsConsistent (Keeps-outcome IsConsistent _) (λ payload.
              Keeps-bind IsConsistent (Keeps-modify IsConsistent _ (with_pmt_bytes-IsConsistent []))
                (λ _. Keeps-bind IsConsistent (Keeps-outcome IsConsistent _) (λ packet.
                  Keeps-modify IsConsistent _ (with_pmt_bytes-IsConsistent packet.1))))))))

  generate_pmt-Consistent : Consistent (generate_pmt w b write_dvb_time order)
  unfolding generate_pmt
  generate_pmt-Consistent = Keeps-bind IsConsistent (Keeps-gets IsConsistent _) (λ has_pcr_pid.
      Keeps-if IsConsistent has_pcr_pid generate_valid_pmt-Consistent (Keeps-throw IsConsistent _))

  write_tables-Consistent : Consistent (write_tables w b write_dvb_time order)
  unfolding write_tables
  write_tables-Consistent = Keeps-bind IsConsistent (Keeps-gets IsConsistent _) (λ pat_fits.
      Keeps-bind IsConsistent
        (Keeps-if IsConsistent pat_fits (Keeps-pure IsConsistent _) generate_pat-Consistent)
        (λ _. Keeps-bind IsConsistent (Keeps-gets IsConsistent _) (λ pmt_fits.
          Keeps-bind IsConsistent
            (Keeps-if IsConsistent pmt_fits (Keeps-pure IsConsistent _) generate_pmt-Consistent)
            (λ _. Keeps-bind IsConsistent (Keeps-gets IsConsistent _) (λ pat.
              Keeps-bind IsConsistent (to_out-Consistent w b _) (λ _.
                Keeps-bind IsConsistent (Keeps-gets IsConsistent _) (λ pmt.
                  Keeps-bind IsConsistent (to_out-Consistent w b _)
                    (λ _. Keeps-pure IsConsistent _))))))))

  retransmit_tables-Consistent :
      (force : Bool) → Consistent (retransmit_tables w b write_dvb_time order force)
  unfolding retransmit_tables
  retransmit_tables-Consistent force =
      Keeps-bind IsConsistent (Keeps-modify IsConsistent _ count_up-IsConsistent) (λ _.
        Keeps-bind IsConsistent (Keeps-gets IsConsistent _) (λ early.
          Keeps-if IsConsistent _ (Keeps-pure IsConsistent _) (
            Keeps-bind IsConsistent write_tables-Consistent (λ n.
              Keeps-bind IsConsistent (Keeps-modify IsConsistent _ count_from_start-IsConsistent)
                (λ _. Keeps-pure IsConsistent n)))))

  write_data_of-Consistent :
      (d : MuxerData) (ctx : Option (EsContext Time))
      → Consistent (write_data_of w b write_dvb_time order d ctx)
  unfolding write_data_of
  write_data_of-Consistent d none = Keeps-throw IsConsistent _
  write_data_of-Consistent d (some ctx) =
      Keeps-bind IsConsistent (Keeps-gets IsConsistent _) (λ forced.
        Keeps-bind IsConsistent (retransmit_tables-Consistent forced)
          (λ tables. write_pes-Consistent w b d ctx tables d.pes))

  write_data-Consistent : (d : MuxerData) → Consistent (write_data w b write_dvb_time order d)
  unfolding write_data
  write_data-Consistent d =
      Keeps-bind IsConsistent (Keeps-gets IsConsistent _) (write_data_of-Consistent d)

  -- The states that calls of the methods reach from a new muxer, whatever the calls return.
  pub data Reached : State → Type 0 where
    started : (out : w.Writer) (period : ℕ) → Reached (new_muxer out period)
    added :
        (es : PmtElementaryStream Time) (m : State)
        → Reached m
        → Reached (add_elementary_stream es m).1
    removed : (pid : ℕ) (m : State) → Reached m → Reached (remove_elementary_stream pid m).1
    pcr_set : (pid : ℕ) (m : State) → Reached m → Reached (set_pcr_pid pid m).1
    tables_written : (m : State) → Reached m → Reached (write_tables w b write_dvb_time order m).1
    data_written :
        (d : MuxerData) (m : State)
        → Reached m
        → Reached (write_data w b write_dvb_time order d m).1
    packet_written : (p : Packet) (m : State) → Reached m → Reached (write_packet_as_is w b p m).1

  -- Whatever calls of the methods made of a new muxer, failed ones among them: the stream in the
  -- context found under an id has this id and is one of the streams of the program map table, and the
  -- context's continuity counter wraps at 15 and is at most that; the version counters of the tables
  -- wrap at 31 and are at most that; and the next automatic id has 16 bits.
  pub Reached-IsConsistent : (m : State) → Reached m → IsConsistent m
  Reached-IsConsistent _ (started out period) = new_muxer-IsConsistent out period
  Reached-IsConsistent _ (added es m r) =
      (add_elementary_stream-Consistent es).kept m (Reached-IsConsistent m r)
  Reached-IsConsistent _ (removed pid m r) =
      (remove_elementary_stream-Consistent pid).kept m (Reached-IsConsistent m r)
  Reached-IsConsistent _ (pcr_set pid m r) =
      (set_pcr_pid-Consistent pid).kept m (Reached-IsConsistent m r)
  Reached-IsConsistent _ (tables_written m r) =
      write_tables-Consistent.kept m (Reached-IsConsistent m r)
  Reached-IsConsistent _ (data_written d m r) =
      (write_data-Consistent d).kept m (Reached-IsConsistent m r)
  Reached-IsConsistent _ (packet_written p m r) =
      (packet-Consistent w b p).kept m (Reached-IsConsistent m r)
