-- ===== src/ProgramMap.antt =====
-- `program_map.go`, and `data_pat.go`'s data type, which it is turned into. The lock is held for
-- the whole of every operation, so each is one step.
use go_astits.Base.{
  ℕ, Bool, true, false, Option, none, some, List, [], map, Map, lookup, insert, remove,
}
use go_astits.Pat.{PatData}

-- The map from a program map's id to the number of the program.
abbrev pub ProgramMap : Type 0
ProgramMap = Map ℕ

unfoldable pub new_program_map : ProgramMap
new_program_map = []

abbrev pub is_some : Option ℕ → Bool
is_some none = false
is_some (some n) = true

unfoldable pub exists : ProgramMap → ℕ → Bool
exists m pid = is_some (lookup m pid)

unfoldable pub set : ProgramMap → ℕ → ℕ → ProgramMap
set m pid number = insert m pid number

unfoldable pub unset : ProgramMap → ℕ → ProgramMap
unset m pid = remove m pid

-- A map is ranged over in an order that the code does not choose: `order` gives it.
unfoldable pub to_pat_data : (ProgramMap → List (ℕ × ℕ)) → ProgramMap → PatData
to_pat_data order m = record {
  programs = map (λ e. record { program_map_id = e.0; program_number = e.1 }) (order m);
  transport_stream_id = 0;
}
