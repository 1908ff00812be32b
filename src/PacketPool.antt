-- ===== src/PacketPool.antt =====
-- `packet_pool.go`. The lock is held for the whole of every operation, so each is one step.
use go_astits.Base.{
  ℕ, zero, suc, ◌+◌, ◌-◌, ◌%◌, ◌^◌, Bool, true, false, not, ◌&&◌, ◌||◌, Option, none, some, List,
  [], ◌∷◌, ◌++◌, length, take, get_last?, ltb, leb, ◌==◌, if◌then◌else◌, Map, lookup, insert,
  remove, keys, M, ok, pure, when, deref, ◌>>=◌, ◌>>◌,
}
use go_astits.Packet.{Packet, PacketAdaptationField}
pub mod Units
pub mod Reassembly
pub mod Duplicates
pub mod Frame

-- The packets of a unit so far, by PID.
abbrev pub PacketPool : Type 0
PacketPool = Map (List Packet)

unfoldable pub new_packet_pool : PacketPool
new_packet_pool = []

-- `(c + 1) % 16` on `uint8`
abbrev pub next_counter : ℕ → ℕ
next_counter c = (c + 1) % 2 ^ 8 % 16

-- The tests on `ps[len(ps)-1]`, where there is one.
unfoldable pub breaks_counter : Option Packet → Packet → Bool
breaks_counter none p = false
breaks_counter (some last) p =
    if p.header.has_payload
    then not (p.header.continuity_counter == next_counter last.header.continuity_counter)
    else not (p.header.continuity_counter == last.header.continuity_counter)

unfoldable pub repeats_counter : Option Packet → Packet → Bool
repeats_counter none p = false
repeats_counter (some last) p =
    p.header.has_payload && (p.header.continuity_counter == last.header.continuity_counter)

-- `HasAdaptationField` with no field is a nil dereference.
unfoldable pub has_discontinuity : {S : Type 0} → List Packet → Packet → M S Bool
has_discontinuity ps p = do
  flagged ←
      when p.header.has_adaptation_field false
        (do af ← deref p.adaptation_field; pure af.discontinuity_indicator)
  pure (flagged || breaks_counter (get_last? ps) p)

unfoldable pub is_same_as_previous : List Packet → Packet → Bool
is_same_as_previous ps p = repeats_counter (get_last? ps) p

-- `mps`, or an empty buffer for a PID that is new.
unfoldable pub load : ℕ → M PacketPool (List Packet)
load pid m = elim (lookup m pid) [ none ↦ ok ([], m) | some mps ↦ ok (mps, m) ]

unfoldable pub assign : ℕ → List Packet → M PacketPool (Unit {0})
assign pid mps m = ok (tt, insert m pid mps)

unfoldable pub appended : List Packet → Packet → List Packet
appended mps p =
    if ltb 0 (length mps) || (length mps == 0 && p.header.payload_unit_start_indicator)
    then mps ++ (p ∷ [])
    else mps

-- From the check of the payload unit start indicator on.
unfoldable pub cut : List Packet → Packet → M PacketPool (List Packet)
cut mps p =
    if p.header.payload_unit_start_indicator && ltb 1 (length mps)
    then (do assign p.header.pid (p ∷ []); pure (take (length mps - 1) mps))
    else (do assign p.header.pid mps; pure [])

-- From the check for a repeated packet on.
unfoldable pub push : List Packet → Packet → M PacketPool (List Packet)
push mps p = if is_same_as_previous mps p then pure [] else cut (appended mps p) p

unfoldable pub add_kept : Packet → M PacketPool (List Packet)
add_kept p = do
  mps ← load p.header.pid
  broken ← has_discontinuity mps p
  push (if broken then [] else mps) p

unfoldable pub add : Packet → M PacketPool (List Packet)
add p =
    if p.header.transport_error_indicator
    then pure []
    else if not p.header.has_payload
    then pure []
    else add_kept p

-- `sort.Ints`
abbrev pub insert_sorted : ℕ → List ℕ → List ℕ
insert_sorted k [] = k ∷ []
insert_sorted k (j ∷ ks) = let rest = insert_sorted k ks in if leb k j then k ∷ j ∷ ks else j ∷ rest

abbrev pub sort : List ℕ → List ℕ
sort [] = []
sort (k ∷ ks) = insert_sorted k (sort ks)

-- `b.b[k]`, nil for a key that is missing.
abbrev pub buffer : PacketPool → ℕ → List Packet
buffer m k = elim (lookup m k) [ none ↦ [] | some ps ↦ ps ]

unfoldable pub dump_keys : List ℕ → M PacketPool (List Packet)
dump_keys [] m = ok ([], m)
dump_keys (k ∷ ks) m =
    let rest = dump_keys ks (remove m k) in
    if ltb 0 (length (buffer m k)) then ok (buffer m k, remove m k) else rest

unfoldable pub dump : M PacketPool (List Packet)
dump m = dump_keys (sort (keys m)) m
