-- ===== src/Examples/Rooms.antt =====
-- Tests and applied theorems on benches, contests and the list of what waits for a person.
use virtual_office.Prelude.{
  ℕ, ◌≡◌, refl, true, List, [], ◌∷◌, map, length, none, some, Text, text, text_eq, trim, str_eq,
  str_lt, sort, insert, arith, lookup, put,
}
use virtual_office.Core.Result.{is_ok, Ensures}
use virtual_office.Core.Gates.{deploy, gate_beq}
use virtual_office.Core.Policy.{gate}
use virtual_office.Task.Status.{escalated, status_beq}
use virtual_office.Task.Model.{Task, TaskDeps}
use virtual_office.Workflow.Types.{active, paused}
use virtual_office.Workflow.Policy.Gate.{gates_awaiting}
use virtual_office.Workflow.Waiting.{DepartmentPolicy, waits, what_is_waiting}
use virtual_office.Workflow.Waiting.Inbox.{IsInbox, what_is_waiting-IsInbox}
use virtual_office.Benches.Turn.{
  Bench, BenchMember, turn_of, index_of?, newest_of, older, next_from_bench,
}
use virtual_office.Benches.Rotation.{deal, rounds, rounds-deal_all}
use virtual_office.Benches.Shape.{named, validate_bench_shape}
use virtual_office.Benches.Valid.{IsShaped, validate_bench_shape-IsShaped}
use virtual_office.Contests.{
  running, ContestDecision, create_contest, contest_standing, record_contest_win, reason_errors,
  is_in, has_won,
}
use virtual_office.Contests.Verdict.{IsVerdict, record_contest_win-IsVerdict}
use virtual_office.Contests.Entries.{IsField, create_contest-IsField}
use virtual_office.Examples.Office.{ann, bob, cy, report, finished, wanted, deps}

abbrev desk : Bench
desk = record {
  id = 1 ∷ [];
  name = 100 ∷ [];
  member_ids = ann ∷ bob ∷ cy ∷ [];
  strategy = text "round_robin";
  judge_id = none;
}

-- Bob is away.
abbrev people : List BenchMember
people =
    record { id = ann; status = active }
    ∷ record { id = bob; status = paused }
    ∷ record { id = cy; status = active }
    ∷ []

abbrev four : List (Text × ℕ)
four = ((1 ∷ []), 1) ∷ ((2 ∷ []), 2) ∷ ((3 ∷ []), 4) ∷ ((4 ∷ []), 8) ∷ []

four_dealt : rounds str_lt desk people [] four ≡ some ann ∷ some cy ∷ some ann ∷ some cy ∷ []
unfolding rounds next_from_bench newest_of older turn_of index_of? sort insert str_eq str_lt
four_dealt = refl

rounds-deal_all_example :
    rounds str_lt desk people [] four
    ≡ map some (deal (ann ∷ cy ∷ []) (ann ∷ cy ∷ []) (length four))
unfolding turn_of newest_of sort str_eq
rounds-deal_all_example =
    rounds-deal_all str_lt desk people ann (cy ∷ []) [] four 0 refl (refl, (refl, tt)) refl tt
      (omega arith, (omega arith, (omega arith, (omega arith, tt))))

validate_bench_shape-IsShaped_example :
    Ensures
      (λ made. (made ≡ map named (desk ∷ [])) × IsShaped (desk ∷ []))
      (validate_bench_shape (desk ∷ []))
validate_bench_shape-IsShaped_example = validate_bench_shape-IsShaped (desk ∷ [])

abbrev choice : ContestDecision
choice = record { reason = text " clearer "; decided_by = some cy; at = 9 }

choice_recorded : is_ok (record_contest_win (finished ∷ []) finished.id choice) ≡ true
unfolding record_contest_win reason_errors is_in has_won status_beq str_eq trim text
choice_recorded = refl

record_contest_win-IsVerdict_example :
    Ensures
      (IsVerdict (finished ∷ []) finished.id choice)
      (record_contest_win (finished ∷ []) finished.id choice)
record_contest_win-IsVerdict_example =
    record_contest_win-IsVerdict (finished ∷ []) finished.id choice

abbrev deps_of : ℕ → TaskDeps
deps_of n = record deps { id = n ∷ [] }

create_contest-IsField_example :
    Ensures
      (λ entries.
        IsField wanted (7 ∷ []) (ann ∷ bob ∷ []) entries × (contest_standing entries ≡ running))
      (create_contest wanted (ann ∷ bob ∷ []) (7 ∷ []) deps_of)
create_contest-IsField_example = create_contest-IsField wanted (ann ∷ bob ∷ []) (7 ∷ []) deps_of

abbrev rooms : List DepartmentPolicy
rooms = record { id = 3 ∷ []; review_policy = gate (deploy ∷ []) } ∷ []

abbrev tray : List Task
tray =
    record report { status = escalated; updated_at = 8 }
    ∷ record report { gated_actions = deploy ∷ []; updated_at = 4 }
    ∷ report
    ∷ []

two_waiting : length (what_is_waiting tray rooms []) ≡ 2
unfolding what_is_waiting sort insert str_eq waits lookup put gates_awaiting gate_beq
two_waiting = refl

what_is_waiting-IsInbox_example : IsInbox tray rooms (what_is_waiting tray rooms [])
what_is_waiting-IsInbox_example = what_is_waiting-IsInbox tray rooms []
