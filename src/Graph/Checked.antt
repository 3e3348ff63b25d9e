-- ===== src/Graph/Checked.antt =====
-- The arrows that creating one and checking all of them let through.
use virtual_office.Prelude.{
  ℕ, ◌+◌, ◌≡◌, refl, sym, subst, ◌∙◌, Bool, true, false, List, [], ◌∷◌, ◌++◌, map, Option, none,
  some, Text, text, text_eq, str_eq, any, includes, filter-append, cons_if, All, All-append,
  append-nil, append_assoc, append-eq-nil, Bool-cases, inl, inr, arith,
}
use virtual_office.Core.Result.{ValidationError, Ensures}
use virtual_office.Core.Connection.{Connection, ConnectionKind, kind_beq, kind_eq, kind_beq_iff}
use virtual_office.Graph.Search.{Edge, edge_of, of_kind, has_path}
use virtual_office.Graph.Paths.{HasPath, has_path_iff}
use virtual_office.Graph.Acyclic.{IsAcyclic, IsAcyclic-snoc}
use virtual_office.Graph.Draw.{
  acyclic_kinds, same_edge, validate_edge, clash_errors, unknown_errors, unless_any, accepting,
  indexed, validate_from, validate_connection_graph, CreateConnectionInput, ConnectionDeps,
  create_connection, create_of_kind, with_settings, Settings, connection_of, edge_of_input,
}

-- The ends are two departments of the office.
pub record IsPlaced (departments : List Text) (e : Edge) : Type 0 where
  pub two_ends : str_eq e.from_id e.to_id ≡ false
  pub from_known : includes departments e.from_id ≡ true
  pub to_known : includes departments e.to_id ≡ true

-- No two say the same.
abbrev pub Unlike : List Edge → Type 0
Unlike [] = Unit
Unlike (e ∷ es) = All (λ later. same_edge e later ≡ false) es × Unlike es

pub record IsGraph (departments : List Text) (edges : List Edge) : Type 0 where
  pub placed : All (IsPlaced departments) edges
  pub unlike : Unlike edges
  pub acyclic :
      (kind : ConnectionKind) → includes acyclic_kinds kind ≡ true → IsAcyclic (of_kind kind edges)

-- What `validateEdge` lets through, after the edges before.
pub record IsNew (departments : List Text) (before : List Edge) (e : Edge) : Type 0 where
  pub placed : IsPlaced departments e
  pub unlike : any before (λ b. same_edge b e) ≡ false
  pub no_cycle :
      includes acyclic_kinds e.kind ≡ true → has_path before e.kind e.to_id e.from_id ≡ false

unknown_errors-nil :
    (path field id : Text) (departments : List Text)
    → unknown_errors path field id departments ≡ []
    → includes departments id ≡ true
unknown_errors-nil path field id departments h = ground arith

clash_errors-nil :
    (e : Edge) (before : List Edge) (path : Text)
    → clash_errors e before path ≡ []
    → (any before (λ b. same_edge b e) ≡ false)
      × (includes acyclic_kinds e.kind ≡ true → has_path before e.kind e.to_id e.from_id ≡ false)
unfolding clash_errors
clash_errors-nil e before path h = (ground arith, λ k. ground arith)

unless_any-nil :
    (errors later : List ValidationError)
    → unless_any errors later ≡ []
    → (errors ≡ []) × (later ≡ [])
unless_any-nil [] later h = (refl, h)
unless_any-nil (e ∷ errors) later h = cc

validate_edge-nil :
    (e : Edge) (departments : List Text) (before : List Edge) (path : Text)
    → validate_edge e departments before path ≡ []
    → IsNew departments before e
unfolding validate_edge
validate_edge-nil e departments before path h = elim (Bool-cases (str_eq e.from_id e.to_id)) [
  | inl same ↦ cc (rw same at h)
  | inr two ↦
      (let (known, clear) = unless_any-nil _ _ (rw two at h) in
        let (from, to) =
          append-eq-nil (unknown_errors path (text "fromId") e.from_id departments)
            (unknown_errors path (text "toId") e.to_id departments) known in
        let (unlike, free) = clash_errors-nil e before path clear in
        record {
          placed = record {
            two_ends = two;
            from_known = unknown_errors-nil path (text "fromId") e.from_id departments from;
            to_known = unknown_errors-nil path (text "toId") e.to_id departments to;
          };
          unlike = unlike;
          no_cycle = free;
        })
]

Unlike-snoc :
    (edges : List Edge) (e : Edge)
    → Unlike edges
    → any edges (λ b. same_edge b e) ≡ false
    → Unlike (edges ++ e ∷ [])
Unlike-snoc [] e u n = (tt, tt)
Unlike-snoc (x ∷ edges) e u n = (
  All-append _ edges (e ∷ []) u.0 (ground (arith, n), tt),
  Unlike-snoc edges e u.1 (ground (arith, n)),
)

IsGraph-snoc :
    (departments : List Text) (edges : List Edge) (e : Edge)
    → IsGraph departments edges
    → IsNew departments edges e
    → IsGraph departments (edges ++ e ∷ [])
IsGraph-snoc departments edges e g n = record {
  placed = All-append _ edges (e ∷ []) g.placed (n.placed, tt);
  unlike = Unlike-snoc edges e g.unlike n.unlike;
  acyclic = acyclic;
}
  where
    no_way :
        (kind : ConnectionKind)
        → includes acyclic_kinds kind ≡ true
        → e.kind ≡ kind
        → HasPath edges kind e.to_id e.from_id
        → ⊥
    no_way kind a k r =
        let no : has_path edges kind e.to_id e.from_id ≡ false =
          subst
            (λ k'. includes acyclic_kinds k' ≡ true → has_path edges k' e.to_id e.from_id ≡ false) k
            n.no_cycle a in
        let yes' : has_path edges kind e.to_id e.from_id ≡ true =
          (has_path_iff edges kind e.to_id e.from_id).1.1 r in
        cc

    kept :
        (kind : ConnectionKind)
        → (b : Bool) → kind_beq e.kind kind ≡ b
        → of_kind kind (edges ++ e ∷ []) ≡ of_kind kind edges ++ cons_if b e []
    kept kind b q = filter-append (λ (x : Edge). kind_beq x.kind kind) edges (e ∷ []) ∙ rw q refl

    acyclic :
        (kind : ConnectionKind)
        → includes acyclic_kinds kind ≡ true
        → IsAcyclic (of_kind kind (edges ++ e ∷ []))
    acyclic kind a = elim (Bool-cases (kind_beq e.kind kind)) [
      | inl same ↦ subst IsAcyclic (sym (kept kind true same)) (
          IsAcyclic-snoc (of_kind kind edges) e (g.acyclic kind a)
            (no_way kind a ((kind_beq_iff e.kind kind).0 same)))
      | inr other ↦
          subst IsAcyclic (sym (kept kind false other ∙ append-nil (of_kind kind edges)))
            (g.acyclic kind a)
    ]

-- Creating a connection in a graph that is well drawn gives, where it is not refused, one that
-- leaves it so: between two departments of the office, unlike any other, and with no cycle in
-- either kind whose graph has to be acyclic.
pub create_connection-IsGraph :
    (input : CreateConnectionInput) (departments : List Text) (existing : List Connection)
    (deps : ConnectionDeps)
    → IsGraph departments (map edge_of existing)
    → Ensures
        (λ c. IsGraph departments (map edge_of existing ++ edge_of c ∷ []))
        (create_connection input departments existing deps)
unfolding create_connection create_of_kind
create_connection-IsGraph input departments existing deps g = of_kind_lem input.kind
  where
    P : Connection → Type 0
    P c = IsGraph departments (map edge_of existing ++ edge_of c ∷ [])

    with_settings_lem :
        (kind : ConnectionKind) (errors later : List ValidationError) (settings : Option Settings)
        → (errors ≡ [] → IsNew departments (map edge_of existing) (edge_of_input input kind))
        → Ensures P (with_settings (errors ++ later) settings (connection_of input deps kind))
    with_settings_lem kind [] [] none h = tt
    with_settings_lem kind [] [] (some settings) h = IsGraph-snoc departments _ _ g (h refl)
    with_settings_lem kind [] (e ∷ later) settings h = tt
    with_settings_lem kind (e ∷ errors) later settings h = tt

    of_kind_lem :
        (kind : Option ConnectionKind)
        → Ensures P (create_of_kind kind input departments existing deps)
    of_kind_lem none = tt
    of_kind_lem (some kind) =
        with_settings_lem kind _ _ _
          (validate_edge-nil (edge_of_input input kind) departments (map edge_of existing) [])

validate_from-IsGraph :
    (i : ℕ) (accepted : List Edge) (cs : List Connection) (departments : List Text)
    → IsGraph departments accepted
    → validate_from i accepted cs departments ≡ []
    → IsGraph departments (accepted ++ map edge_of cs)
unfolding validate_from
validate_from-IsGraph i accepted [] departments g h =
    subst (IsGraph departments) (sym (append-nil accepted)) g
validate_from-IsGraph i accepted (c ∷ cs) departments g h =
    after (validate_edge (edge_of c) departments accepted (indexed i))
      (validate_edge-nil (edge_of c) departments accepted (indexed i))
      (validate_from-IsGraph (i + 1) (accepted ++ edge_of c ∷ []) cs departments) h
  where
    more : List Edge
    more = accepted ++ edge_of c ∷ []

    after :
        (errors : List ValidationError)
        → (errors ≡ [] → IsNew departments accepted (edge_of c))
        → (IsGraph departments more
            → validate_from (i + 1) more cs departments ≡ []
            → IsGraph departments (more ++ map edge_of cs))
        → errors ++ validate_from (i + 1) (accepting accepted (edge_of c) errors) cs departments
          ≡ []
        → IsGraph departments (accepted ++ map edge_of (c ∷ cs))
    after [] new rest q =
        subst (IsGraph departments) (append_assoc accepted (edge_of c ∷ []) (map edge_of cs))
          (rest (IsGraph-snoc departments accepted (edge_of c) g (new refl)) q)
    after (e ∷ errors) new rest q = cc

-- When the whole-graph check has nothing to say, the graph is well drawn: every arrow joins two
-- known departments, no two say the same, and the reporting lines and the escalation paths have
-- no cycle.
pub validate_connection_graph-IsGraph :
    (connections : List Connection) (departments : List Text)
    → validate_connection_graph connections departments ≡ []
    → IsGraph departments (map edge_of connections)
unfolding validate_connection_graph
validate_connection_graph-IsGraph connections departments h =
    validate_from-IsGraph 0 [] connections departments none_yet h
  where
    none_yet : IsGraph departments []
    none_yet = record { placed = tt; unlike = tt; acyclic = λ kind a x y s r. cc }
