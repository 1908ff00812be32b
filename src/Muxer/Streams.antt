-- ===== src/Muxer/Streams.antt =====
-- `AddElementaryStream` and `RemoveElementaryStream` against each other.
use go_astits.Base.{
  ℕ, ◌≡◌, ◌≢◌, refl, ap, ◌∙◌, true, false, none, List, [], ◌∷◌, ◌++◌, arith, ok, Map, lookup,
  insert, remove, ==_refl, ==_no, Option-cases, inl, inr,
}
use go_astits.Pmt.{PmtElementaryStream}
use go_astits.Muxer.{
  Muxer, new_es_context, has_pid, without, add_elementary_stream, remove_elementary_stream,
  append_stream, drop_stream,
}
use go_astits.Muxer.Monad.{◌>>=◌, ◌>>◌, gets, modify, throw}
use go_astits.Muxer.Invariant.{IsConsistent, IsStream-has_pid}

remove-fresh {ℓ} : {V : Type ℓ} (m : Map V) (k : ℕ) → lookup m k ≡ none → remove m k ≡ m
remove-fresh [] k h = refl
remove-fresh ((k', v) ∷ m) k h = ground (arith, remove-fresh m k)

remove-insert_fresh {ℓ} :
    {V : Type ℓ} (m : Map V) (k : ℕ) (v : V) → lookup m k ≡ none → remove (insert m k v) k ≡ m
remove-insert_fresh m k v h =
    rw (==_refl k) (ap (λ n. remove n k) (remove-fresh m k h) ∙ remove-fresh m k h)

module _ {Time : Type 0} where
  without-append :
      (xs : List (PmtElementaryStream Time)) (es : PmtElementaryStream Time)
      → has_pid xs es.elementary_pid ≡ false
      → (has_pid (xs ++ (es ∷ [])) es.elementary_pid ≡ true)
        × (without (xs ++ (es ∷ [])) es.elementary_pid ≡ xs)
  unfolding has_pid without
  without-append [] es h = rw (==_refl es.elementary_pid) (refl, refl)
  without-append (x ∷ xs) es h = ground (arith, without-append xs es)

module _ {Out Time : Type 0} where
  no_context :
      (m : Muxer Out Time) (pid : ℕ)
      → IsConsistent m
      → has_pid m.pmt.elementary_streams pid ≡ false
      → lookup m.es_contexts pid ≡ none
  no_context m pid c fresh = elim (Option-cases (lookup m.es_contexts pid)) [
    | inl e ↦ e
    | inr (ctx, e) ↦
        let (at_pid, is_stream, _) = c.backed pid ctx e in
        cc (IsStream-has_pid m.pmt.elementary_streams ctx.es is_stream, at_pid)
  ]

  -- In a muxer that is consistent, a stream with an id that is not 0 and no other stream has is added
  -- without an error, and when it is removed by this id the muxer is as it was before, but that the
  -- cached program map table is thrown away.
  pub remove_elementary_stream-add_elementary_stream :
      (es : PmtElementaryStream Time) (m : Muxer Out Time)
      → IsConsistent m
      → es.elementary_pid ≢ 0
      → has_pid m.pmt.elementary_streams es.elementary_pid ≡ false
      → (add_elementary_stream es >> remove_elementary_stream es.elementary_pid) m
        ≡ (ok tt, record m { pmt_bytes = [] })
  unfolding add_elementary_stream remove_elementary_stream append_stream drop_stream ◌>>=◌ gets
      modify throw
  remove_elementary_stream-add_elementary_stream es m c nonzero fresh =
      let left = without-append m.pmt.elementary_streams es fresh in
      let gone =
        remove-insert_fresh m.es_contexts es.elementary_pid (new_es_context es)
          (no_context m es.elementary_pid c fresh) in
      rw (==_no es.elementary_pid 0 nonzero, fresh, left.0) (rw (left.1, gone) refl)
