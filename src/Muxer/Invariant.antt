-- ===== src/Muxer/Invariant.antt =====
-- What every muxer that calls have made of a new one holds, by induction on the calls.
use go_astits.Base.{
  ℕ, ◌+◌, ◌^◌, ◌≤◌, ◌<◌, ◌≡◌, not, ==_iff, refl, sym, ◌∙◌, true, false, ltb, ◌==◌, none, some, List,
  [], ◌∷◌, ◌++◌, arith, Result, ok, err, panic, unfinished, Map, lookup, insert, remove,
  lookup-insert, lookup-insert_other, lookup-remove, lookup-remove_other, ==_refl, Bool-cases,
  Option-cases, inl, inr, ltb→le, M, ◌≢◌, ap, ◌⊎◌, ==_no,
}
use go_astits.Astikit.{BitsWriter, Buffer}
use go_astits.WrappingCounter.{WrappingCounter, new_wrapping_counter, get}
use go_astits.Pmt.{PmtElementaryStream}
use go_astits.Muxer.{
  Muxer, EsContext, new_muxer, new_es_context, has_pid, without, append_stream,
  add_elementary_stream, remove_elementary_stream, drop_stream, set_pcr_pid, take_next_pid, to_out,
  with_pcr_pid, written_out,
}
use go_astits.Muxer.Monad.{Op, Keeps, Keeps-bind, Keeps-if, Keeps-gets, Keeps-throw, Keeps-modify}
use go_astits.Muxer.Tables.{
  next_pat_version, next_pmt_version, with_pat_bytes, with_pmt_bytes, count_up, count_from_start,
}
use go_astits.Muxer.Data.{next_counter}

-- A counter that wraps behind `n` and has not passed it.
pub record CountsTo (n : ℕ) (c : WrappingCounter) : Type 0 where
  pub wraps : c.wrap_at ≡ n
  pub bounded : c.value ≤ n

CountsTo-new : (n : ℕ) → CountsTo n (new_wrapping_counter n)
unfolding new_wrapping_counter
CountsTo-new n = record { wraps = refl; bounded = omega arith }

CountsTo-get : {n : ℕ} (c : WrappingCounter) → CountsTo n c → CountsTo n (get c).1
unfolding get
CountsTo-get {n} c h = elim (Bool-cases (ltb c.wrap_at (c.value + 1))) [
  | inl over ↦ record { wraps = h.wraps; bounded = rw over (omega arith) }
  | inr within ↦ record {
    wraps = h.wraps;
    bounded = rw (within, sym h.wraps) (ltb→le c.wrap_at (c.value + 1) within);
  }
]

unequal : (j k : ℕ) → (j == k) ≡ false → j ≢ k
unequal j k h e = cc ((==_iff j k).1 e)

module _ {Time : Type 0} where
  -- The stream is one of the list.
  abbrev pub IsStream : List (PmtElementaryStream Time) → PmtElementaryStream Time → Type 0
  IsStream [] es = ⊥
  IsStream (x ∷ xs) es = (x ≡ es) ⊎ IsStream xs es

  IsStream-append :
      (xs ys : List (PmtElementaryStream Time)) (es : PmtElementaryStream Time)
      → IsStream xs es
      → IsStream (xs ++ ys) es
  IsStream-append [] ys es i = elim i [ ]
  IsStream-append (x ∷ xs) ys es (inl e) = inl e
  IsStream-append (x ∷ xs) ys es (inr i) = inr (IsStream-append xs ys es i)

  IsStream-last :
      (xs : List (PmtElementaryStream Time)) (es : PmtElementaryStream Time)
      → IsStream (xs ++ (es ∷ [])) es
  IsStream-last [] es = inl refl
  IsStream-last (x ∷ xs) es = inr (IsStream-last xs es)

  IsStream-without :
      (xs : List (PmtElementaryStream Time)) (es : PmtElementaryStream Time) (k : ℕ)
      → es.elementary_pid ≢ k
      → IsStream xs es
      → IsStream (without xs k) es
  unfolding without
  IsStream-without [] es k n i = elim i [ ]
  IsStream-without (x ∷ xs) es k n (inl e) =
      rw (==_no x.elementary_pid k (λ h. n (sym (ap (λ t. t.elementary_pid) e) ∙ h))) (inl e)
  IsStream-without (x ∷ xs) es k n (inr i) = elim (Bool-cases (x.elementary_pid == k)) [
    | inl same ↦ rw same i
    | inr other ↦ rw other (inr (IsStream-without xs es k n i))
  ]

  pub IsStream-has_pid :
      (xs : List (PmtElementaryStream Time)) (es : PmtElementaryStream Time)
      → IsStream xs es
      → has_pid xs es.elementary_pid ≡ true
  unfolding has_pid
  IsStream-has_pid [] es i = elim i [ ]
  IsStream-has_pid (x ∷ xs) es (inl e) =
      rw (ap (λ t. t.elementary_pid) e, ==_refl es.elementary_pid) refl
  IsStream-has_pid (x ∷ xs) es (inr i) = ground (arith, IsStream-has_pid xs es i)

  -- A context whose stream has the id and is one of the list, and whose counter has 4 bits.
  abbrev pub IsBacked : List (PmtElementaryStream Time) → ℕ → EsContext Time → Type 0
  IsBacked streams pid c = (c.es.elementary_pid ≡ pid) × IsStream streams c.es × CountsTo 15 c.cc

  abbrev pub AreBacked : List (PmtElementaryStream Time) → Map (EsContext Time) → Type 0
  AreBacked streams contexts =
      (pid : ℕ) (c : EsContext Time) → lookup contexts pid ≡ some c → IsBacked streams pid c

  AreBacked-insert :
      (streams : List (PmtElementaryStream Time)) (contexts : Map (EsContext Time)) (k : ℕ)
      (c : EsContext Time)
      → AreBacked streams contexts
      → IsBacked streams k c
      → AreBacked streams (insert contexts k c)
  AreBacked-insert streams contexts k c h hc pid c' e = elim (Bool-cases (pid == k)) [
    | inl same ↦
        let at_k : pid ≡ k = (==_iff pid k).0 same in
        let is_c : c ≡ c' = cc (lookup-insert contexts k c) in rw (at_k, sym is_c) hc
    | inr other ↦ h pid c' (sym (lookup-insert_other contexts pid k c (unequal pid k other)) ∙ e)
  ]

  AreBacked-append :
      (streams : List (PmtElementaryStream Time)) (contexts : Map (EsContext Time))
      (es : PmtElementaryStream Time)
      → AreBacked streams contexts
      → AreBacked (streams ++ (es ∷ [])) (insert contexts es.elementary_pid (new_es_context es))
  unfolding new_es_context
  AreBacked-append streams contexts es h =
      AreBacked-insert (streams ++ (es ∷ [])) contexts es.elementary_pid (new_es_context es)
        (λ pid c e.
          let (at_pid, is_stream, counts) = h pid c e in
          (at_pid, IsStream-append streams (es ∷ []) c.es is_stream, counts))
        (refl, IsStream-last streams es, CountsTo-new 15)

  AreBacked-remove :
      (streams : List (PmtElementaryStream Time)) (contexts : Map (EsContext Time)) (k : ℕ)
      → AreBacked streams contexts
      → AreBacked (without streams k) (remove contexts k)
  AreBacked-remove streams contexts k h pid c e = elim (Bool-cases (pid == k)) [
    | inl same ↦
        let at_k : pid ≡ k = (==_iff pid k).0 same in
        let gone : lookup (remove contexts k) k ≡ none = lookup-remove contexts k in cc
    | inr other ↦
        let apart : pid ≢ k = unequal pid k other in
        let (at_pid, is_stream, counts) =
          h pid c (sym (lookup-remove_other contexts pid k apart) ∙ e) in
        (at_pid, IsStream-without streams c.es k (λ q. apart (sym at_pid ∙ q)) is_stream, counts)
  ]

module _ {Out Time : Type 0} where
  -- Each context is that of a stream of the map table, and its continuity counter has 4 bits; the
  -- versions of the tables have 5, and the next automatic id 16.
  pub record IsConsistent (m : Muxer Out Time) : Type 0 where
    pub backed : AreBacked m.pmt.elementary_streams m.es_contexts
    pub pat_counts : CountsTo 31 m.pat_version
    pub pmt_counts : CountsTo 31 m.pmt_version
    pub next_bounded : m.next_pid < 2 ^ 16

  pub new_muxer-IsConsistent : (out : Out) (period : ℕ) → IsConsistent (new_muxer out period)
  unfolding new_muxer
  new_muxer-IsConsistent out period = record {
    backed = λ pid c e. cc;
    pat_counts = CountsTo-new 31;
    pmt_counts = CountsTo-new 31;
    next_bounded = omega arith;
  }

  abbrev pub Consistent : {A : Type 0} → Op (Muxer Out Time) A → Type 0
  Consistent m = Keeps IsConsistent m

  pub append_stream-IsConsistent :
      (es : PmtElementaryStream Time) (m : Muxer Out Time)
      → IsConsistent m
      → IsConsistent (append_stream es m)
  unfolding append_stream
  append_stream-IsConsistent es m h = record {
    backed = AreBacked-append m.pmt.elementary_streams m.es_contexts es h.backed;
    pat_counts = h.pat_counts;
    pmt_counts = h.pmt_counts;
    next_bounded = h.next_bounded;
  }

  take_next_pid-IsConsistent :
      (m : Muxer Out Time) → IsConsistent m → IsConsistent (take_next_pid m)
  unfolding take_next_pid
  take_next_pid-IsConsistent m h = record {
    backed = h.backed;
    pat_counts = h.pat_counts;
    pmt_counts = h.pmt_counts;
    next_bounded = omega arith;
  }

  pub drop_stream-IsConsistent :
      (pid : ℕ) (m : Muxer Out Time) → IsConsistent m → IsConsistent (drop_stream pid m)
  unfolding drop_stream
  drop_stream-IsConsistent pid m h = record {
    backed = AreBacked-remove m.pmt.elementary_streams m.es_contexts pid h.backed;
    pat_counts = h.pat_counts;
    pmt_counts = h.pmt_counts;
    next_bounded = h.next_bounded;
  }

  pub add_elementary_stream-Consistent :
      (es : PmtElementaryStream Time) → Consistent (add_elementary_stream es)
  unfolding add_elementary_stream
  add_elementary_stream-Consistent es =
      Keeps-if IsConsistent (not (es.elementary_pid == 0))
        (Keeps-bind IsConsistent (Keeps-gets IsConsistent _) (λ exists.
          Keeps-if IsConsistent exists (Keeps-throw IsConsistent _)
            (Keeps-modify IsConsistent _ (append_stream-IsConsistent es))))
        (Keeps-bind IsConsistent (Keeps-gets IsConsistent _) (λ es'.
          Keeps-bind IsConsistent (Keeps-modify IsConsistent _ take_next_pid-IsConsistent)
            (λ _. Keeps-modify IsConsistent _ (append_stream-IsConsistent es'))))

  pub remove_elementary_stream-Consistent : (pid : ℕ) → Consistent (remove_elementary_stream pid)
  unfolding remove_elementary_stream
  remove_elementary_stream-Consistent pid =
      Keeps-bind IsConsistent (Keeps-gets IsConsistent _) (λ found.
        Keeps-if IsConsistent found (Keeps-modify IsConsistent _ (drop_stream-IsConsistent pid))
          (Keeps-throw IsConsistent _))

  with_pcr_pid-IsConsistent :
      (pid : ℕ) (m : Muxer Out Time) → IsConsistent m → IsConsistent (with_pcr_pid pid m)
  unfolding with_pcr_pid
  with_pcr_pid-IsConsistent pid m h = record {
    backed = h.backed;
    pat_counts = h.pat_counts;
    pmt_counts = h.pmt_counts;
    next_bounded = h.next_bounded;
  }

  pub set_pcr_pid-Consistent : (pid : ℕ) → Consistent (set_pcr_pid pid)
  unfolding set_pcr_pid
  set_pcr_pid-Consistent pid = Keeps-modify IsConsistent _ (with_pcr_pid-IsConsistent pid)

  pub next_counter-Consistent : (pid : ℕ) → Consistent (next_counter pid)
  unfolding next_counter
  next_counter-Consistent pid = record { kept = kept_by }
    where
      kept_by : (m : Muxer Out Time) → IsConsistent m → IsConsistent (next_counter pid m).1
      kept_by m h = elim (Option-cases (lookup m.es_contexts pid)) [
        | inl none_found ↦ rw none_found h
        | inr (c, found) ↦ rw found (record {
          backed = AreBacked-insert m.pmt.elementary_streams m.es_contexts pid _ h.backed (
              let (at_pid, is_stream, counts) = h.backed pid c found in
              (at_pid, is_stream, CountsTo-get c.cc counts));
          pat_counts = h.pat_counts;
          pmt_counts = h.pmt_counts;
          next_bounded = h.next_bounded;
        })
      ]

  pub next_pat_version-IsConsistent :
      (m : Muxer Out Time) → IsConsistent m → IsConsistent (next_pat_version m)
  unfolding next_pat_version
  next_pat_version-IsConsistent m h = record {
    backed = h.backed;
    pat_counts = CountsTo-get m.pat_version h.pat_counts;
    pmt_counts = h.pmt_counts;
    next_bounded = h.next_bounded;
  }

  pub next_pmt_version-IsConsistent :
      (m : Muxer Out Time) → IsConsistent m → IsConsistent (next_pmt_version m)
  unfolding next_pmt_version
  next_pmt_version-IsConsistent m h = record {
    backed = h.backed;
    pat_counts = h.pat_counts;
    pmt_counts = CountsTo-get m.pmt_version h.pmt_counts;
    next_bounded = h.next_bounded;
  }

  pub with_pat_bytes-IsConsistent :
      (bs : List ℕ) (m : Muxer Out Time) → IsConsistent m → IsConsistent (with_pat_bytes bs m)
  unfolding with_pat_bytes
  with_pat_bytes-IsConsistent bs m h = record {
    backed = h.backed;
    pat_counts = h.pat_counts;
    pmt_counts = h.pmt_counts;
    next_bounded = h.next_bounded;
  }

  pub with_pmt_bytes-IsConsistent :
      (bs : List ℕ) (m : Muxer Out Time) → IsConsistent m → IsConsistent (with_pmt_bytes bs m)
  unfolding with_pmt_bytes
  with_pmt_bytes-IsConsistent bs m h = record {
    backed = h.backed;
    pat_counts = h.pat_counts;
    pmt_counts = h.pmt_counts;
    next_bounded = h.next_bounded;
  }

  pub count_up-IsConsistent : (m : Muxer Out Time) → IsConsistent m → IsConsistent (count_up m)
  unfolding count_up
  count_up-IsConsistent m h = record {
    backed = h.backed;
    pat_counts = h.pat_counts;
    pmt_counts = h.pmt_counts;
    next_bounded = h.next_bounded;
  }

  pub count_from_start-IsConsistent :
      (m : Muxer Out Time) → IsConsistent m → IsConsistent (count_from_start m)
  unfolding count_from_start
  count_from_start-IsConsistent m h = record {
    backed = h.backed;
    pat_counts = h.pat_counts;
    pmt_counts = h.pmt_counts;
    next_bounded = h.next_bounded;
  }

module _ (w : BitsWriter) (b : Buffer w) where
  written_out-IsConsistent :
      {A Time : Type 0} (m : Muxer w.Writer Time)
      → IsConsistent m
      → (z : Result (A × w.Writer)) → IsConsistent (written_out w b m z).1
  written_out-IsConsistent m h (ok (a, i)) = record {
    backed = h.backed;
    pat_counts = h.pat_counts;
    pmt_counts = h.pmt_counts;
    next_bounded = h.next_bounded;
  }
  written_out-IsConsistent m h (err e) = h
  written_out-IsConsistent m h panic = h
  written_out-IsConsistent m h unfinished = h

  pub to_out-Consistent :
      {A Time : Type 0} (f : M w.Writer A) → Consistent {Time = Time} (to_out w b f)
  unfolding to_out
  to_out-Consistent f = record { kept = λ m h. written_out-IsConsistent m h (f m.out) }
