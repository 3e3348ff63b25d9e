-- ===== src/Task/Create.antt =====
-- packages/core/src/task/task.ts: `createTask` and `updateTask`.
pub mod Laws
use virtual_office.Prelude.{
  ℕ, zero, suc, Bool, true, false, not, ◌||◌, List, [], ◌∷◌, ◌++◌, map, Option, none, some, Text,
  text, trim, join, is_empty, any, includes, text_eq, or_else, if◌then◌else◌,
}
use virtual_office.Core.Unknown.{Number, nat, other}
use virtual_office.Core.Result.{Result, ok, err, ValidationError, error, error_if}
use virtual_office.Core.Gates.{GatedAction, gate_of, gate_text, gated_actions}
use virtual_office.Task.Status.{TaskStatus, backlog, assigned, is_terminal, status_text}
use virtual_office.Task.Model.{
  Task, TaskPriority, low, normal, high, urgent, priority_of, priority_text, Date, at_ms, invalid,
  CreateTaskInput, TaskDeps, UpdateTaskInput,
}
use virtual_office.Task.Validate.{unique_ids, validate_title, validate_brief, validate_criteria}

abbrev task_priorities : List TaskPriority
task_priorities = low ∷ normal ∷ high ∷ urgent ∷ []

abbrev is_some : {A : Type 0} → Option A → Bool
is_some none = false
is_some (some a) = true

unfoldable pub priority_errors : Text → List ValidationError
priority_errors priority =
    error_if (not (is_some (priority_of priority))) (text "priority")
      (text "must be one of " ++ join (text ", ") (map priority_text task_priorities))

abbrev reviews_own : Option Text → List Text → Bool
reviews_own none reviewer_ids = false
reviews_own (some assignee) reviewer_ids = includes reviewer_ids assignee

unfoldable pub reviewer_errors : Option Text → List Text → List ValidationError
reviewer_errors assignee_id reviewer_ids =
    unique_ids reviewer_ids (text "reviewerIds") (text "reviewer")
    ++ error_if (reviews_own assignee_id reviewer_ids) (text "reviewerIds")
        (text "an employee cannot review their own work")

unfoldable pub gate_errors : List Text → List ValidationError
gate_errors gates =
    error_if (any gates (λ action. not (is_some (gate_of action)))) (text "gatedActions")
      (text "must each be one of " ++ join (text ", ") (map gate_text gated_actions))
    ++ unique_ids gates (text "gatedActions") (text "gated action")

unfoldable pub dependency_errors : Text → List Text → List ValidationError
dependency_errors id depends_on =
    error_if (includes depends_on id) (text "dependsOn") (text "a task cannot depend on itself")
    ++ unique_ids depends_on (text "dependsOn") (text "dependency")

unfoldable pub department_errors : Text → List Text → List ValidationError
department_errors path ids = error_if (any ids is_empty) path (text "must each be a department id")

budget_error : List ValidationError
budget_error = error (text "tokenBudget") (text "must be a positive integer")

unfoldable pub budget_errors : Option Number → List ValidationError
unfolding budget_error
budget_errors none = []
budget_errors (some (nat zero)) = budget_error
budget_errors (some (nat (suc n))) = []
budget_errors (some other) = budget_error

unfoldable pub deadline_errors : Option Date → List ValidationError
deadline_errors none = []
deadline_errors (some (at_ms t)) = []
deadline_errors (some invalid) = error (text "deadline") (text "must be a valid date")

-- The errors of `createTask`, in the order it finds them.
unfoldable pub create_errors : CreateTaskInput → Text → List ValidationError
create_errors input id =
    validate_title (trim input.title)
    ++ (validate_brief (or_else input.brief [])
        ++ (priority_errors (or_else input.priority (text "normal"))
            ++ (reviewer_errors input.assignee_id (or_else input.reviewer_ids [])
                ++ (gate_errors (or_else input.gated_actions [])
                    ++ (dependency_errors id (or_else input.depends_on [])
                        ++ (department_errors (text "route") (or_else input.route [])
                            ++ (validate_criteria (or_else input.acceptance_criteria [])
                                ++ (department_errors (text "checkedBy")
                                      (or_else input.checked_by [])
                                    ++ (budget_errors input.token_budget
                                        ++ deadline_errors input.deadline)))))))))

-- The categories that the strings name; all of them, once the check has passed.
unfoldable pub gates_of : List Text → List GatedAction
gates_of [] = []
gates_of (s ∷ ss) = elim (gate_of s) [ none ↦ gates_of ss | some g ↦ g ∷ gates_of ss ]

abbrev budget_of : Option Number → Option ℕ
budget_of (some (nat n)) = some n
budget_of _ = none

abbrev deadline_of : Option Date → Option ℕ
deadline_of (some (at_ms t)) = some t
deadline_of _ = none

abbrev initial_status : Option Text → TaskStatus
initial_status none = backlog
initial_status (some e) = assigned

unfoldable pub new_task : CreateTaskInput → TaskDeps → TaskPriority → Task
new_task input deps priority =
    let status = initial_status input.assignee_id in
    record {
      id = deps.id;
      office_id = input.office_id;
      department_id = input.department_id;
      title = trim input.title;
      brief = or_else input.brief [];
      priority = priority;
      status = status;
      assignee_id = input.assignee_id;
      bench_id = input.bench_id;
      contest_id = input.contest_id;
      won = none;
      reviewer_ids = or_else input.reviewer_ids [];
      approvals = [];
      stage = none;
      gated_actions = gates_of (or_else input.gated_actions []);
      depends_on = or_else input.depends_on [];
      artifacts = or_else input.artifacts [];
      route = or_else input.route [];
      acceptance_criteria = or_else input.acceptance_criteria [];
      checked_by = or_else input.checked_by [];
      token_budget = budget_of input.token_budget;
      deadline = deadline_of input.deadline;
      history =
          record { at = deps.now; from = none; to = status; actor_id = none; reason = none } ∷ [];
      created_at = deps.now;
      updated_at = deps.now;
    }

-- `if (errors.length > 0 || !isPriority(priority)) return err(errors);`
abbrev pub unless_errors :
    List ValidationError → Option TaskPriority → (TaskPriority → Task) → Result Task
unless_errors [] (some priority) make = ok (make priority)
unless_errors [] none make = err []
unless_errors (e ∷ errors) priority make = err (e ∷ errors)

unfoldable pub create_task : CreateTaskInput → TaskDeps → Result Task
unfolding create_errors new_task
create_task input deps =
    unless_errors (create_errors input deps.id)
      (priority_of (or_else input.priority (text "normal"))) (new_task input deps)

unfoldable pub update_errors : Text → Text → Text → List Text → List ValidationError
update_errors title brief priority criteria =
    validate_title title
    ++ (validate_brief brief ++ (priority_errors priority ++ validate_criteria criteria))

unfoldable pub update_task : Task → UpdateTaskInput → ℕ → Result Task
unfolding update_errors
update_task task changes at =
    let title = trim (or_else changes.title task.title) in
    let brief = or_else changes.brief task.brief in
    let priority = or_else changes.priority (priority_text task.priority) in
    let criteria = or_else changes.acceptance_criteria task.acceptance_criteria in
    if is_terminal task.status
    then err (
        error (text "status")
          (text "work that is " ++ status_text task.status ++ text " cannot be changed"))
    else unless_errors (update_errors title brief priority criteria) (priority_of priority) (λ p.
      record task {
        title = title;
        brief = brief;
        priority = p;
        acceptance_criteria = criteria;
        updated_at = at;
      })
