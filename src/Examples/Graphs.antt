-- ===== src/Examples/Graphs.antt =====
-- Tests and applied theorems on the graph of packages/core/src/connection.
use virtual_office.Prelude.{
  ◌≡◌, ◌↔◌, refl, Bool, true, false, List, [], ◌∷◌, ◌++◌, map, some, Text, text_eq, str_eq,
}
use virtual_office.Core.Result.{is_ok, Ensures}
use virtual_office.Core.Unknown.{end, undefined, or_value}
use virtual_office.Core.Connection.{Connection, reports_to, escalates_to, kind_beq}
use virtual_office.Graph.Search.{Edge, edge_of, of_kind, search, search_fuel, has_path}
use virtual_office.Graph.Draw.{
  CreateConnectionInput, ConnectionDeps, create_connection, create_of_kind,
  validate_connection_graph, validate_from, validate_edge, clash_errors, same_edge, settings_errors,
  settings_of, kind_rule_errors,
}
use virtual_office.Graph.Paths.{HasPath, has_path_iff}
use virtual_office.Graph.Checked.{
  IsGraph, create_connection-IsGraph, validate_connection_graph-IsGraph,
}

abbrev rooms : List Text
rooms = (1 ∷ []) ∷ (2 ∷ []) ∷ (3 ∷ []) ∷ []

abbrev line : Text → Text → Connection
line from to = record {
  id = from ++ to;
  office_id = [];
  from_id = from;
  to_id = to;
  kind = reports_to;
  enabled = true;
  rules = end;
  created_at = 0;
}

abbrev lines : List Connection
lines = line (1 ∷ []) (2 ∷ []) ∷ line (2 ∷ []) (3 ∷ []) ∷ []

abbrev loop : List Edge
loop = edge_of (line (3 ∷ []) (1 ∷ [])) ∷ map edge_of lines

abbrev back : CreateConnectionInput
back = record {
  enabled = undefined;
  office_id = [];
  from_id = 3 ∷ [];
  to_id = 1 ∷ [];
  kind = some reports_to;
  rules = undefined;
}

abbrev across : CreateConnectionInput
across = record back { kind = some escalates_to }

abbrev made : ConnectionDeps
made = record { id = 9 ∷ []; now = 0 }

back_refused : is_ok (create_connection back rooms lines made) ≡ false
unfolding create_connection create_of_kind validate_edge clash_errors same_edge has_path search
    kind_beq str_eq or_value settings_errors settings_of kind_rule_errors
back_refused = refl

across_drawn : is_ok (create_connection across rooms lines made) ≡ true
unfolding create_connection create_of_kind validate_edge clash_errors same_edge has_path search
    kind_beq str_eq or_value settings_errors settings_of kind_rule_errors
across_drawn = refl

validate_connection_graph-IsGraph_example : IsGraph rooms (map edge_of lines)
unfolding validate_connection_graph validate_from validate_edge clash_errors same_edge has_path
    search kind_beq str_eq
validate_connection_graph-IsGraph_example = validate_connection_graph-IsGraph lines rooms refl

lines-IsGraph : IsGraph rooms (map edge_of lines)
unfolding validate_connection_graph validate_from validate_edge clash_errors same_edge has_path
    search kind_beq str_eq
lines-IsGraph = validate_connection_graph-IsGraph lines rooms refl

create_connection-IsGraph_example :
    Ensures
      (λ c. IsGraph rooms (map edge_of lines ++ edge_of c ∷ []))
      (create_connection across rooms lines made)
create_connection-IsGraph_example = create_connection-IsGraph across rooms lines made lines-IsGraph

has_path_iff_example :
    ((found : Bool) × (search
          (search_fuel (of_kind reports_to loop))
          (of_kind reports_to loop)
          (9 ∷ [])
          []
          ((1 ∷ []) ∷ [])
        ≡ some found))
    × ((has_path loop reports_to (1 ∷ []) (9 ∷ []) ≡ true)
        ↔ HasPath loop reports_to (1 ∷ []) (9 ∷ []))
has_path_iff_example = has_path_iff loop reports_to (1 ∷ []) (9 ∷ [])
