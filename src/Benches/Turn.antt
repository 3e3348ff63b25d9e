-- ===== src/Benches/Turn.antt =====
-- packages/core/src/department/bench.ts: whose turn it is on a bench.
use virtual_office.Prelude.{
  ℕ, suc, ◌+◌, ◌%◌, Bool, List, [], ◌∷◌, map, Option, none, some, Text, text, text_eq, str_eq,
  nat_beq, ltb, length, get_elem?, get_last?, filter, includes, sort, if◌then◌else◌,
}
use virtual_office.Workflow.Types.{EmployeeStatus}
use virtual_office.Workflow.Peers.{is_active}

abbrev pub bench_strategies : List Text
bench_strategies = text "round_robin" ∷ text "shootout" ∷ []

unfoldable pub is_bench_strategy : Text → Bool
is_bench_strategy value = includes bench_strategies value

-- The strategy is a text: whether it is one of the two is checked when a bench is made.
pub record Bench : Type 0 where
  pub id : Text
  pub name : Text
  pub member_ids : List Text
  pub strategy : Text
  pub judge_id : Option Text

pub record BenchMember : Type 0 where
  pub id : Text
  pub status : EmployeeStatus

pub record BenchPlacement : Type 0 where
  pub id : Text
  pub assignee_id : Option Text
  pub bench_id : Option Text
  pub created_at : ℕ

abbrev pub can_work : List BenchMember → List Text
can_work members =
    map (λ (one : BenchMember). one.id)
      (filter (λ (one : BenchMember). is_active one.status) members)

-- Turn order is the bench's own, narrowed to whoever can take work.
unfoldable pub turn_of : Bench → List BenchMember → List Text
turn_of bench members = filter (includes (can_work members)) bench.member_ids

abbrev pub is_placed_by : Text → Option Text → Bool
is_placed_by id none = Bool.false
is_placed_by id (some bench) = str_eq bench id

-- `turn.indexOf(id)`, none for -1.
unfoldable pub index_of? : List Text → Text → Option ℕ
index_of? [] id = none
index_of? (x ∷ xs) id =
    if str_eq x id then some 0 else elim (index_of? xs id) [ none ↦ none | some i ↦ some (suc i) ]

abbrev pub turn_at : List Text → Option Text → Option ℕ
turn_at turn none = none
turn_at turn (some id) = index_of? turn id

abbrev pub last_at : List Text → Option BenchPlacement → Option ℕ
last_at turn none = none
last_at turn (some newest) = turn_at turn newest.assignee_id

-- `(lastAt + 1) % turn.length`
abbrev pub next_index : Option ℕ → ℕ → ℕ
next_index none n = 0
next_index (some i) n = (i + 1) % n

pub data BenchChoice : Type 0 where
  one : Text → BenchChoice
  every : List Text → BenchChoice
  nobody : BenchChoice

-- `a.localeCompare(b) < 0` is the runtime's.
module _ (locale_less : Text → Text → Bool) where
  unfoldable pub older : BenchPlacement → BenchPlacement → Bool
  older a b =
      if nat_beq a.created_at b.created_at
      then locale_less a.id b.id
      else ltb a.created_at b.created_at

  unfoldable pub newest_of : Bench → List BenchPlacement → Option BenchPlacement
  newest_of bench placed =
      get_last?
        (sort older (filter (λ (p : BenchPlacement). is_placed_by bench.id p.bench_id) placed))

  -- An empty turn has no element at all, as the early return says.
  unfoldable pub next_from_bench : Bench → List BenchMember → List BenchPlacement → Option Text
  next_from_bench bench members placed =
      let turn = turn_of bench members in
      get_elem? turn (next_index (last_at turn (newest_of bench placed)) (length turn))

  abbrev one_of : Option Text → BenchChoice
  one_of none = nobody
  one_of (some id) = one id

  abbrev all_of : List Text → BenchChoice
  all_of [] = nobody
  all_of (id ∷ ids) = every (id ∷ ids)

  unfoldable pub place_on_bench : Bench → List BenchMember → List BenchPlacement → BenchChoice
  place_on_bench bench members placed =
      if str_eq bench.strategy (text "shootout")
      then all_of (turn_of bench members)
      else one_of (next_from_bench bench members placed)
