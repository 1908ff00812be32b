-- ===== src/PacketPool/Units.antt =====
-- The units that a pool puts together: a packet that starts one, and those that follow it.
use go_astits.Base.{
  if_false, Bool-cases, inl, inr, ℕ, suc, ◌-◌, ◌≡◌, refl, ap, ◌∙◌, arith, Bool, true, false, not,
  Option, none, some, List, [], ◌∷◌, ◌++◌, length, take, get_last?, lt→ltb, if◌then◌else◌, lookup,
  insert, ok, pure, when, deref, ◌>>=◌, length-append, take-append, ==_refl,
}
use go_astits.Packet.{Packet, PacketAdaptationField}
use go_astits.Packet.Field.Layout.{IsPart}
use go_astits.PacketPool.{
  PacketPool, next_counter, breaks_counter, repeats_counter, has_discontinuity, is_same_as_previous,
  load, assign, appended, cut, push, add_kept, add,
}

-- A packet of the PID that the pool keeps.
pub record IsKept (pid : ℕ) (p : Packet) : Type 0 where
  pub same_pid : p.header.pid ≡ pid
  pub no_error : p.header.transport_error_indicator ≡ false
  pub payload : p.header.has_payload ≡ true

-- Each packet goes on with the counter of the one before, and starts no unit.
abbrev pub Continues : ℕ → Packet → List Packet → Type 0
Continues pid a [] = Unit
Continues pid a (p ∷ ps) =
    IsKept pid p
    × (p.header.payload_unit_start_indicator ≡ false)
    × (p.header.continuity_counter ≡ next_counter a.header.continuity_counter)
    × Continues pid p ps

abbrev pub IsUnit : ℕ → List Packet → Type 0
IsUnit pid [] = Unit
IsUnit pid (a ∷ ps) =
    IsKept pid a × (a.header.payload_unit_start_indicator ≡ true) × Continues pid a ps

-- An adaptation field does not say that the counter jumps.
abbrev pub IsUnflagged : Packet → Type 0
IsUnflagged p =
    IsPart (λ af. af.discontinuity_indicator ≡ false) p.header.has_adaptation_field
      p.adaptation_field

pub get_last?-append : (ps : List Packet) (p : Packet) → get_last? (ps ++ (p ∷ [])) ≡ some p
get_last?-append [] p = refl
get_last?-append (a ∷ []) p = refl
get_last?-append (a ∷ b ∷ ps) p = get_last?-append (b ∷ ps) p

pub take-all_but_last :
    (ps : List Packet) (p : Packet) → take (length (ps ++ (p ∷ [])) - 1) (ps ++ (p ∷ [])) ≡ ps
take-all_but_last ps p =
    let n : length (ps ++ (p ∷ [])) - 1 ≡ length ps = omega (arith, length-append ps (p ∷ [])) in
    rw n (take-append ps (p ∷ []))

pub counter_goes_on :
    (a p : Packet)
    → p.header.has_payload ≡ true
    → p.header.continuity_counter ≡ next_counter a.header.continuity_counter
    → breaks_counter (some a) p ≡ false
unfolding breaks_counter
counter_goes_on a p h e = rw (h, e, ==_refl) refl

-- A counter that goes on is not a repeated one.
pub counter_not_repeated :
    (a p : Packet)
    → p.header.continuity_counter ≡ next_counter a.header.continuity_counter
    → repeats_counter (some a) p ≡ false
unfolding repeats_counter
counter_not_repeated a p e = ground arith

pub unflagged_read :
    {S : Type 0} (b : Bool) (o : Option PacketAdaptationField) (s : S)
    → IsPart (λ af. af.discontinuity_indicator ≡ false) b o
    → when b false (do af ← deref o; pure af.discontinuity_indicator) s ≡ ok (false, s)
unflagged_read true (some af) s h = rw h refl
unflagged_read true none s h = absurd h
unflagged_read false o s h = refl

pub add-kept : (pid : ℕ) (p : Packet) (m : PacketPool) → IsKept pid p → add p m ≡ add_kept p m
unfolding add
add-kept pid p m k =
    ap (λ f. f m)
      (if_false (pure []) (if not p.header.has_payload then pure [] else add_kept p) k.no_error
        ∙ if_false (pure []) (add_kept p) (ap not k.payload))

-- A packet that goes on from the last of the buffer goes to `push` with that buffer.
pub add-push :
    (pid : ℕ) (p last : Packet) (mps : List Packet) (m : PacketPool)
    → IsKept pid p
    → IsUnflagged p
    → lookup m pid ≡ some mps
    → get_last? mps ≡ some last
    → p.header.continuity_counter ≡ next_counter last.header.continuity_counter
    → add p m ≡ push mps p m
unfolding add_kept load has_discontinuity
add-push pid p last mps m k u l e c =
    let l' : lookup m p.header.pid ≡ some mps = ap (lookup m) k.same_pid ∙ l in
    add-kept pid p m k
    ∙ rw
        (
          l',
          ◌>>=◌,
          unflagged_read p.header.has_adaptation_field p.adaptation_field m u,
          e,
          counter_goes_on last p k.payload c,
        )
        refl

-- and a kept packet of a PID that is new goes with an empty one.
pub add-push_new :
    (pid : ℕ) (p : Packet) (m : PacketPool)
    → IsKept pid p
    → IsUnflagged p
    → lookup m pid ≡ none
    → add p m ≡ push [] p m
unfolding add_kept load has_discontinuity breaks_counter
add-push_new pid p m k u l =
    let l' : lookup m p.header.pid ≡ none = ap (lookup m) k.same_pid ∙ l in
    add-kept pid p m k
    ∙ rw (l', ◌>>=◌, unflagged_read p.header.has_adaptation_field p.adaptation_field m u) refl

-- `push` of a packet that goes on inside a unit: the buffer grows by it.
pub push_inside :
    (pid : ℕ) (p a : Packet) (mps : List Packet) (m : PacketPool)
    → IsKept pid p
    → p.header.payload_unit_start_indicator ≡ false
    → repeats_counter (get_last? (a ∷ mps)) p ≡ false
    → push (a ∷ mps) p m ≡ ok ([], insert m pid (a ∷ mps ++ (p ∷ [])))
unfolding push cut assign appended is_same_as_previous
push_inside pid p a mps m k s n =
    simp (n, lt→ltb 0 (suc (length mps)) (omega arith), s, k.same_pid, ◌>>=◌) refl

-- One that starts a unit gives the buffer away, and stands alone in the new one.
pub push_start :
    (pid : ℕ) (p a : Packet) (mps : List Packet) (m : PacketPool)
    → IsKept pid p
    → p.header.payload_unit_start_indicator ≡ true
    → repeats_counter (get_last? (a ∷ mps)) p ≡ false
    → push (a ∷ mps) p m ≡ ok (a ∷ mps, insert m pid (p ∷ []))
unfolding push cut assign appended is_same_as_previous
push_start pid p a mps m k s n =
    simp
      (
        n,
        lt→ltb 0 (suc (length mps)) (omega arith),
        s,
        lt→ltb 1 (suc (length (mps ++ (p ∷ [])))) (omega (arith, length-append mps (p ∷ []))),
        take-all_but_last (a ∷ mps) p,
        k.same_pid,
        ◌>>=◌,
      )
      refl

-- With no buffer, only a packet that starts a unit is kept.
pub push_empty :
    (pid : ℕ) (p : Packet) (m : PacketPool)
    → IsKept pid p
    → push [] p m
      ≡ ok ([], insert m pid (if p.header.payload_unit_start_indicator then p ∷ [] else []))
unfolding push cut assign appended is_same_as_previous repeats_counter
push_empty pid p m k =
    elim (Bool-cases p.header.payload_unit_start_indicator)
      as (λ x.
        push [] p m
        ≡ ok ([], insert m pid (if p.header.payload_unit_start_indicator then p ∷ [] else []))) [
          | inl e ↦ simp (e, k.same_pid, ◌>>=◌) refl
          | inr e ↦ simp (e, k.same_pid, ◌>>=◌) refl
        ]
