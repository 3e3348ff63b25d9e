-- ===== src/Graph/Draw.antt =====
-- packages/core/src/connection/connection.ts: `validateEdge`, `createConnection`,
-- `updateConnection` and `validateConnectionGraph`.
use virtual_office.Prelude.{
  ℕ, ◌+◌, Bool, true, ◌&&◌, ◌||◌, List, [], ◌∷◌, ◌++◌, map, Option, none, some, Text, text, text_eq,
  str_eq, decimal, join, is_empty, any, includes, if◌then◌else◌,
}
use virtual_office.Core.Result.{Result, ok, err, ValidationError, error, prefix_errors}
use virtual_office.Core.Unknown.{Value, Fields, bool, obj, end, or_value}
use virtual_office.Core.Connection.{
  Connection, ConnectionKind, reports_to, collaborates, handoff, reviews, escalates_to, watches,
  kind_beq, kind_eq, kind_text, parse_watch_rules, parse_handoff_rules,
}
use virtual_office.Graph.Search.{Edge, edge_of, has_path}

abbrev pub acyclic_kinds : List ConnectionKind
acyclic_kinds = reports_to ∷ escalates_to ∷ []

abbrev pub undirected_kinds : List ConnectionKind
undirected_kinds = collaborates ∷ []

unfoldable pub same_edge : Edge → Edge → Bool
same_edge a b =
    kind_beq a.kind b.kind
    && ((str_eq a.from_id b.from_id && str_eq a.to_id b.to_id)
        || (includes undirected_kinds a.kind
            && str_eq a.from_id b.to_id
            && str_eq a.to_id b.from_id))

abbrev at_field : Text → Text → Text
at_field path field = if is_empty path then field else path ++ text "." ++ field

connection_kinds_text : Text
connection_kinds_text =
    join (text ", ")
      (map kind_text (reports_to ∷ collaborates ∷ handoff ∷ reviews ∷ escalates_to ∷ watches ∷ []))

abbrev pub unknown_errors : Text → Text → Text → List Text → List ValidationError
unknown_errors path field id departments =
    if includes departments id
    then []
    else error (at_field path field) (text "unknown department \"" ++ id ++ text "\"")

-- The last two checks, which the ones before have let through.
unfoldable pub clash_errors : Edge → List Edge → Text → List ValidationError
clash_errors edge before path =
    if any before (λ b. same_edge b edge)
    then error path (
        text "a "
        ++ kind_text edge.kind
        ++ text " connection between these departments already exists")
    else (if includes acyclic_kinds edge.kind && has_path before edge.kind edge.to_id edge.from_id
        then error path
            (text "adding this " ++ kind_text edge.kind ++ text " connection would create a cycle")
        else [])

abbrev pub unless_any : List ValidationError → List ValidationError → List ValidationError
unless_any [] later = later
unless_any (e ∷ errors) later = e ∷ errors

unfoldable pub validate_edge : Edge → List Text → List Edge → Text → List ValidationError
validate_edge edge departments before path =
    if str_eq edge.from_id edge.to_id
    then error path (text "a department cannot connect to itself")
    else unless_any
        (unknown_errors path (text "fromId") edge.from_id departments
          ++ unknown_errors path (text "toId") edge.to_id departments)
        (clash_errors edge before path)

pub record CreateConnectionInput : Type 0 where
  pub enabled : Value
  pub office_id : Text
  pub from_id : Text
  pub to_id : Text
  pub kind : Option ConnectionKind
  pub rules : Value

pub record ConnectionDeps : Type 0 where
  pub id : Text
  pub now : ℕ

abbrev pub errors_of {ℓ} : {A : Type ℓ} → Result A → List ValidationError
errors_of (ok a) = []
errors_of (err errors) = errors

-- What the rules of the kind say is wrong, as the engine would read them.
unfoldable pub kind_rule_errors : Option ConnectionKind → Fields → List ValidationError
kind_rule_errors (some watches) rules =
    prefix_errors (text "rules") (errors_of (parse_watch_rules rules))
kind_rule_errors (some handoff) rules =
    prefix_errors (text "rules") (errors_of (parse_handoff_rules rules))
kind_rule_errors _ rules = []

-- The switch and the rules once they are known to be what their types say.
pub record Settings : Type 0 where
  pub enabled : Bool
  pub rules : Fields

not_switch : List ValidationError
not_switch = error (text "enabled") (text "must be true or false")

not_rules : List ValidationError
not_rules = error (text "rules") (text "must be an object")

unfoldable pub settings_errors : Option ConnectionKind → Value → Value → List ValidationError
unfolding not_switch not_rules
settings_errors kind (bool b) (obj rules) = kind_rule_errors kind rules
settings_errors kind (bool b) rules = not_rules
settings_errors kind enabled (obj rules) = not_switch ++ kind_rule_errors kind rules
settings_errors kind enabled rules = not_switch ++ not_rules

unfoldable pub settings_of : Value → Value → Option Settings
settings_of (bool b) (obj rules) = some (record { enabled = b; rules = rules })
settings_of enabled rules = none

abbrev pub connection_of :
    CreateConnectionInput → ConnectionDeps → ConnectionKind → Settings → Connection
connection_of input deps kind settings = record {
  id = deps.id;
  office_id = input.office_id;
  from_id = input.from_id;
  to_id = input.to_id;
  kind = kind;
  enabled = settings.enabled;
  rules = settings.rules;
  created_at = deps.now;
}

-- `errors.length > 0` refuses, and else the parts are there.
abbrev pub with_settings :
    List ValidationError → Option Settings → (Settings → Connection) → Result Connection
with_settings [] (some settings) make = ok (make settings)
with_settings errors settings make = err errors

abbrev pub edge_of_input : CreateConnectionInput → ConnectionKind → Edge
edge_of_input input kind = record { from_id = input.from_id; to_id = input.to_id; kind = kind }

unfoldable pub create_of_kind :
    Option ConnectionKind
    → CreateConnectionInput
    → List Text
    → List Connection
    → ConnectionDeps
    → Result Connection
unfolding connection_kinds_text
create_of_kind none input departments existing deps = err (
    error (text "kind") (text "must be one of " ++ connection_kinds_text)
    ++ settings_errors none (or_value input.enabled (bool true)) (or_value input.rules (obj end)))
create_of_kind (some kind) input departments existing deps =
    with_settings
      (validate_edge (edge_of_input input kind) departments (map edge_of existing) []
        ++ settings_errors (some kind) (or_value input.enabled (bool true))
            (or_value input.rules (obj end)))
      (settings_of (or_value input.enabled (bool true)) (or_value input.rules (obj end)))
      (connection_of input deps kind)

unfoldable pub create_connection :
    CreateConnectionInput → List Text → List Connection → ConnectionDeps → Result Connection
create_connection input departments existing deps =
    create_of_kind input.kind input departments existing deps

pub record UpdateConnectionInput : Type 0 where
  pub enabled : Value
  pub rules : Value

unfoldable pub update_connection : Connection → UpdateConnectionInput → Result Connection
update_connection connection changes =
    let enabled = or_value changes.enabled (bool connection.enabled) in
    let rules = or_value changes.rules (obj connection.rules) in
    with_settings (settings_errors (some connection.kind) enabled rules) (settings_of enabled rules)
      (λ settings. record connection { enabled = settings.enabled; rules = settings.rules })

abbrev pub accepting : List Edge → Edge → List ValidationError → List Edge
accepting accepted edge [] = accepted ++ edge ∷ []
accepting accepted edge (e ∷ errors) = accepted

abbrev pub indexed : ℕ → Text
indexed i = text "connections[" ++ decimal i ++ text "]"

-- The loop, at the index reached, with the edges accepted before.
unfoldable pub validate_from : ℕ → List Edge → List Connection → List Text → List ValidationError
validate_from i accepted [] departments = []
validate_from i accepted (c ∷ cs) departments =
    let errors = validate_edge (edge_of c) departments accepted (indexed i) in
    errors ++ validate_from (i + 1) (accepting accepted (edge_of c) errors) cs departments

unfoldable pub validate_connection_graph : List Connection → List Text → List ValidationError
validate_connection_graph connections departments = validate_from 0 [] connections departments
