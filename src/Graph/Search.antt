-- ===== src/Graph/Search.antt =====
-- packages/core/src/connection/connection.ts: `hasPath`.
use virtual_office.Prelude.{
  ℕ, zero, suc, ◌+◌, Bool, true, false, List, [], ◌∷◌, map, Option, none, some, Text, text_eq,
  str_eq, length, filter, includes, or_else,
}
use virtual_office.Core.Connection.{Connection, ConnectionKind, kind_beq}

pub record Edge : Type 0 where
  pub from_id : Text
  pub to_id : Text
  pub kind : ConnectionKind

abbrev pub edge_of : Connection → Edge
edge_of c = record { from_id = c.from_id; to_id = c.to_id; kind = c.kind }

abbrev pub of_kind : ConnectionKind → List Edge → List Edge
of_kind kind edges = filter (λ e. kind_beq e.kind kind) edges

-- `adjacency.get(current) ?? []`
abbrev pub successors : List Edge → Text → List Text
successors edges x = map (λ (e : Edge). e.to_id) (filter (λ e. str_eq e.from_id x) edges)

-- `stack.push(...xs)`, the top of the stack first.
abbrev pub push_all : List Text → List Text → List Text
push_all [] stack = stack
push_all (x ∷ xs) stack = push_all xs (x ∷ stack)

-- The loop, none where the fuel runs out.
unfoldable pub search : ℕ → List Edge → Text → List Text → List Text → Option Bool
search zero edges to seen stack = none
search (suc fuel) edges to seen [] = some false
search (suc fuel) edges to seen (current ∷ stack) = elim (str_eq current to) [
  | true ↦ some true
  | false ↦ elim (includes seen current) [
    | true ↦ search fuel edges to seen stack
    | false ↦ search fuel edges to (current ∷ seen) (push_all (successors edges current) stack)
  ]
]

-- A round for every edge of the kind, one for the start and one that finds the stack empty.
abbrev pub search_fuel : List Edge → ℕ
search_fuel edges = length edges + 2

unfoldable pub has_path : List Edge → ConnectionKind → Text → Text → Bool
has_path edges kind from to =
    or_else (search (search_fuel (of_kind kind edges)) (of_kind kind edges) to [] (from ∷ [])) false
