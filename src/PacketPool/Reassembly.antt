-- ===== src/PacketPool/Reassembly.antt =====
-- The pool gives the packets of a unit when the next one starts.
use go_astits.Base.{
  ℕ, suc, ◌≡◌, refl, ap, ◌∙◌, true, false, none, some, List, [], ◌∷◌, ◌++◌, length, get_last?, ltb,
  if◌then◌else◌, lookup, insert, lookup-insert, M, ok, pure, ◌>>=◌, append_assoc, append-nil,
  lt→ltb, arith, if_true, All,
}
use go_astits.Packet.{Packet}
use go_astits.PacketPool.{PacketPool, next_counter, repeats_counter, add}
use go_astits.PacketPool.Units.{
  IsKept, Continues, IsUnit, IsUnflagged, get_last?-append, counter_not_repeated, add-push,
  add-push_new, push_inside, push_start, push_empty,
}

-- What `add` gives for one packet after another, as `NextData` takes it: a result with no packets
-- is passed over.
unfoldable pub add_all : List Packet → M PacketPool (List (List Packet))
add_all [] = pure []
add_all (p ∷ ps) = do
  unit ← add p
  units ← add_all ps
  pure (if ltb 0 (length unit) then unit ∷ units else units)

-- A buffer ends in `a`.
abbrev pub Ends : List Packet → Packet → Type 0
Ends ps a = get_last? ps ≡ some a

Ends-append : (ps : List Packet) (p : Packet) → Ends (ps ++ (p ∷ [])) p
Ends-append ps p = get_last?-append ps p

not_repeated :
    (ps : List Packet) (a p : Packet)
    → Ends ps a
    → p.header.continuity_counter ≡ next_counter a.header.continuity_counter
    → repeats_counter (get_last? ps) p ≡ false
not_repeated ps a p e c = ap (λ o. repeats_counter o p) e ∙ counter_not_repeated a p c

-- The next unit starts: the whole buffer comes out.
add_start :
    (pid : ℕ) (q last b : Packet) (buf : List Packet) (m : PacketPool)
    → IsKept pid q
    → IsUnflagged q
    → q.header.payload_unit_start_indicator ≡ true
    → lookup m pid ≡ some (b ∷ buf)
    → Ends (b ∷ buf) last
    → q.header.continuity_counter ≡ next_counter last.header.continuity_counter
    → add q m ≡ ok (b ∷ buf, insert m pid (q ∷ []))
add_start pid q last b buf m k u s l e c =
    add-push pid q last (b ∷ buf) m k u l e c
    ∙ push_start pid q b buf m k s (not_repeated (b ∷ buf) last q e c)

-- A packet inside the unit is stored.
add_inside :
    (pid : ℕ) (p last b : Packet) (buf : List Packet) (m : PacketPool)
    → IsKept pid p
    → IsUnflagged p
    → p.header.payload_unit_start_indicator ≡ false
    → lookup m pid ≡ some (b ∷ buf)
    → Ends (b ∷ buf) last
    → p.header.continuity_counter ≡ next_counter last.header.continuity_counter
    → add p m ≡ ok ([], insert m pid (b ∷ buf ++ (p ∷ [])))
add_inside pid p last b buf m k u s l e c =
    add-push pid p last (b ∷ buf) m k u l e c
    ∙ push_inside pid p b buf m k s (not_repeated (b ∷ buf) last p e c)

one_more :
    (p q b : Packet) (ps buf : List Packet) (m stored m' : PacketPool)
    → add p m ≡ ok ([], stored)
    → add_all (ps ++ (q ∷ [])) stored ≡ ok ((b ∷ (buf ++ (p ∷ [])) ++ ps) ∷ [], m')
    → add_all (p ∷ ps ++ (q ∷ [])) m ≡ ok ((b ∷ buf ++ (p ∷ ps)) ∷ [], m')
unfolding add_all
one_more p q b ps buf m stored m' h t = rw (h, ◌>>=◌, t, append_assoc buf (p ∷ []) ps) refl

module _ (pid : ℕ) (q : Packet) (k : IsKept pid q) (u : IsUnflagged q)
    (s : q.header.payload_unit_start_indicator ≡ true) where
  -- The counter of `q` goes on from the last packet.
  abbrev pub Next : Packet → List Packet → Type 0
  Next a [] = q.header.continuity_counter ≡ next_counter a.header.continuity_counter
  Next a (p ∷ ps) = Next p ps

  rest_comes_out :
      (rest : List Packet) (b last : Packet) (buf : List Packet) (m : PacketPool)
      → lookup m pid ≡ some (b ∷ buf)
      → Ends (b ∷ buf) last
      → Continues pid last rest
      → All IsUnflagged rest
      → Next last rest
      → (m' : PacketPool) × (add_all (rest ++ (q ∷ [])) m ≡ ok ((b ∷ buf ++ rest) ∷ [], m'))
        × (lookup m' pid ≡ some (q ∷ []))
  unfolding add_all
  rest_comes_out [] b last buf m l e v f c = (
    insert m pid (q ∷ []),
    rw
        (
          add_start pid q last b buf m k u s l e c,
          ◌>>=◌,
          append-nil buf,
          lt→ltb 0 (suc (length buf)) (omega arith),
        )
        refl,
    lookup-insert m pid (q ∷ []),
  )
  rest_comes_out (p ∷ ps) b last buf m l e v f c =
      let stored = insert m pid (b ∷ buf ++ (p ∷ [])) in
      let (m', t, x) =
        rest_comes_out ps b p (buf ++ (p ∷ [])) stored (lookup-insert m pid (b ∷ buf ++ (p ∷ [])))
          (Ends-append (b ∷ buf) p) v.3 f.1 c in
      (
        m',
        one_more p q b ps buf m stored m' (add_inside pid p last b buf m v.0 f.0 v.1 l e v.2) t,
        x,
      )

  -- Of the packets of one PID that has no buffer yet: where `a` starts a unit, those of `rest` go on
  -- from it with counters in order, and `q` behind them starts the next unit, all without an error or
  -- an announced discontinuity, adding them one after another gives the unit, whole, and nothing else,
  -- and leaves `q` in the buffer.
  pub unit_comes_out :
      (a : Packet) (rest : List Packet) (m : PacketPool)
      → lookup m pid ≡ none
      → IsUnit pid (a ∷ rest)
      → All IsUnflagged (a ∷ rest)
      → Next a rest
      → (m' : PacketPool) × (add_all (a ∷ rest ++ (q ∷ [])) m ≡ ok ((a ∷ rest) ∷ [], m'))
        × (lookup m' pid ≡ some (q ∷ []))
  unfolding add_all
  unit_comes_out a rest m l v f c =
      let stored = insert m pid (a ∷ []) in
      let first : add a m ≡ ok ([], stored) =
        add-push_new pid a m v.0 f.0 l
        ∙ push_empty pid a m v.0
        ∙ ap (λ ps. ok ([], insert m pid ps)) (if_true (a ∷ []) [] v.1) in
      let (m', t, x) =
        rest_comes_out rest a a [] stored (lookup-insert m pid (a ∷ [])) refl v.2 f.1 c in
      (m', rw (first, ◌>>=◌, t) refl, x)
