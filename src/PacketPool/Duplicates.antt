-- ===== src/PacketPool/Duplicates.antt =====
-- What the pool does with a packet whose counter is that of the packet before it.
use go_astits.Base.{
  ℕ, ◌≡◌, refl, ap, ◌∙◌, arith, true, false, Option, none, some, List, [], ◌∷◌, get_last?, lookup,
  insert, ok, ◌>>=◌, if◌then◌else◌, ==_no, ◌≢◌,
}
use go_astits.Packet.{Packet}
use go_astits.PacketPool.{
  PacketPool, next_counter, breaks_counter, repeats_counter, has_discontinuity, is_same_as_previous,
  load, push, add_kept, add,
}
use go_astits.PacketPool.Units.{IsKept, IsUnflagged, add-kept, unflagged_read, push_empty}

counter_moves : (c : ℕ) → c ≢ next_counter c
counter_moves c h = omega arith

duplicate_breaks :
    (last p : Packet)
    → p.header.has_payload ≡ true
    → p.header.continuity_counter ≡ last.header.continuity_counter
    → breaks_counter (some last) p ≡ true
unfolding breaks_counter
duplicate_breaks last p h e =
    rw (h, e, ==_no last.header.continuity_counter _ (counter_moves last.header.continuity_counter))
      refl

-- A kept packet whose adaptation field does not announce a discontinuity, and whose counter repeats
-- that of the last packet of its PID, empties the buffer of the PID, and is itself kept only where it
-- starts a unit; no packets come out.
pub add-duplicate :
    (pid : ℕ) (p last : Packet) (mps : List Packet) (m : PacketPool)
    → IsKept pid p
    → IsUnflagged p
    → lookup m pid ≡ some mps
    → get_last? mps ≡ some last
    → p.header.continuity_counter ≡ last.header.continuity_counter
    → add p m ≡ ok ([], insert m pid (if p.header.payload_unit_start_indicator then p ∷ [] else []))
unfolding add_kept load has_discontinuity
add-duplicate pid p last mps m k u l e c =
    let l' : lookup m p.header.pid ≡ some mps = ap (lookup m) k.same_pid ∙ l in
    let here : add_kept p m ≡ push [] p m =
      rw
        (
          l',
          ◌>>=◌,
          unflagged_read p.header.has_adaptation_field p.adaptation_field m u,
          e,
          duplicate_breaks last p k.payload c,
        )
        refl in
    add-kept pid p m k ∙ here ∙ push_empty pid p m k

not_repeated :
    (o : Option Packet) (p : Packet)
    → p.header.has_payload ≡ true
    → breaks_counter o p ≡ false
    → repeats_counter o p ≡ false
unfolding breaks_counter repeats_counter
not_repeated none p h e = refl
not_repeated (some last) p h e = ground arith

-- For a packet with a payload whose counter is no discontinuity, `isSameAsPrevious` is false.
pub is_same_as_previous-unreachable :
    (mps : List Packet) (p : Packet)
    → p.header.has_payload ≡ true
    → breaks_counter (get_last? mps) p ≡ false
    → is_same_as_previous mps p ≡ false
unfolding is_same_as_previous
is_same_as_previous-unreachable mps p h e = not_repeated (get_last? mps) p h e
