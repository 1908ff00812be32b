-- ===== src/PacketPool/Frame.antt =====
-- A packet changes the buffer of its own PID only.
use go_astits.Base.{
  ℕ, ◌≡◌, ◌≢◌, refl, Bool, true, false, not, ◌&&◌, ◌||◌, Option, none, some, List, [], ◌∷◌, length,
  ltb, if◌then◌else◌, lookup, lookup-insert_other, Result, ok, err, panic, unfinished, M, pure,
  when, deref, ◌>>=◌, get_last?,
}
use go_astits.Packet.{Packet, PacketAdaptationField}
use go_astits.PacketPool.{
  PacketPool, breaks_counter, has_discontinuity, is_same_as_previous, load, assign, appended, cut,
  push, add_kept, add,
}

-- Where there is a result, the buffer of `j` in it is the one in `m`.
abbrev pub Keeps {ℓ} : {A : Type ℓ} → ℕ → PacketPool → Result (A × PacketPool) → Type 0
Keeps j m (ok (a, m')) = lookup m' j ≡ lookup m j
Keeps j m (err e) = Unit
Keeps j m panic = Unit
Keeps j m unfinished = Unit

module _ (j : ℕ) (p : Packet) (other : j ≢ p.header.pid) (m : PacketPool) where
  if-Keeps :
      (b : Bool) (f g : M PacketPool (List Packet))
      → Keeps j m (f m)
      → Keeps j m (g m)
      → Keeps j m ((if b then f else g) m)
  if-Keeps true f g x y = x
  if-Keeps false f g x y = y

  cut-Keeps : (mps : List Packet) → Keeps j m (cut mps p m)
  unfolding cut assign
  cut-Keeps mps =
      if-Keeps (p.header.payload_unit_start_indicator && ltb 1 (length mps)) _ _
        (lookup-insert_other m j p.header.pid (p ∷ []) other)
        (lookup-insert_other m j p.header.pid mps other)

  push-Keeps : (mps : List Packet) → Keeps j m (push mps p m)
  unfolding push
  push-Keeps mps = if-Keeps (is_same_as_previous mps p) _ _ refl (cut-Keeps (appended mps p))

  flag_read :
      (b : Bool) (o : Option PacketAdaptationField) (mps : List Packet)
      → Keeps j m (
          ((when b false (do af ← deref o; pure af.discontinuity_indicator) >>= λ flagged.
          pure (flagged || breaks_counter (get_last? mps) p))
              >>= λ broken. push (if broken then [] else mps) p)
            m)
  flag_read true (some af) mps = push-Keeps _
  flag_read true none mps = tt
  flag_read false o mps = push-Keeps _

  found-Keeps : (o : Option (List Packet)) → lookup m p.header.pid ≡ o → Keeps j m (add_kept p m)
  unfolding add_kept load has_discontinuity
  found-Keeps none e = rw (e, ◌>>=◌) (flag_read p.header.has_adaptation_field p.adaptation_field [])
  found-Keeps (some mps) e =
      rw (e, ◌>>=◌) (flag_read p.header.has_adaptation_field p.adaptation_field mps)

  -- Adding a packet leaves the buffer of any other PID as it is, whatever becomes of the packet.
  pub add-Keeps : Keeps j m (add p m)
  unfolding add
  add-Keeps =
      if-Keeps p.header.transport_error_indicator _ _ refl
        (if-Keeps (not p.header.has_payload) _ _ refl (found-Keeps (lookup m p.header.pid) refl))
