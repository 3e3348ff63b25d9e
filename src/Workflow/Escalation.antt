-- ===== src/Workflow/Escalation.antt =====
-- packages/orchestrator/src/escalation/escalation.ts: when work escalates, and to whom.
use virtual_office.Prelude.{
  or_else, ℕ, zero, suc, ◌+◌, ◌-◌, ◌/◌, true, false, List, [], ◌∷◌, ◌++◌, map, Option, none, some,
  Text, text, text_eq, str_eq, str_lt, decimal, ltb, filter, includes, sort, get_last?,
  if◌then◌else◌,
}
use virtual_office.Core.Result.{Result}
use virtual_office.Core.Connection.{Connection, escalates_to, kind_beq}
use virtual_office.Task.Status.{
  TaskStatus, assigned, in_progress, in_review, changes_requested, blocked, escalated, status_eq,
}
use virtual_office.Task.Model.{Task, TaskEvent}
use virtual_office.Workflow.Types.{
  EscalationEmployee, EscalationGraph, EscalationTarget, employee, department, owner,
  WorkflowContext, WorkflowEvent, WorkflowEffect, notify, escalate, WorkflowOutcome, Audience,
  supervisor, apply_transition,
}
use virtual_office.Workflow.Peers.{is_active}

abbrev pub max_escalation_hops : ℕ
max_escalation_hops = 8

pub data EscalationTrigger : Type 0 where
  review_rounds : (rounds limit : ℕ) → EscalationTrigger
  no_progress : (idle_ms limit_ms : ℕ) → EscalationTrigger
  budget : (detail : Text) → EscalationTrigger
  check_error : (check_id detail : Text) → EscalationTrigger

-- `byId.get(id)`: of two entries with one id the map keeps the later.
unfoldable pub by_id : List EscalationEmployee → Text → Option EscalationEmployee
by_id [] id = none
by_id (e ∷ es) id = elim (by_id es id) [
  | some later ↦ some later
  | none ↦ if str_eq e.id id then some e else none
]

-- The first loop, up the reporting line. It runs while `hops < maxHops`: the rungs left.
unfoldable pub climb :
    List EscalationEmployee → ℕ → ℕ → List Text → EscalationEmployee → Option EscalationTarget
climb employees zero hops seen current = none
climb employees (suc left) hops seen current = elim current.supervisor_id [
  | none ↦ none
  | some id ↦ elim (includes seen id) [
    | true ↦ none
    | false ↦ elim (by_id employees id) [
      | none ↦ none
      | some above ↦ elim (is_active above.status) [
        | true ↦ some (employee id (hops + 1))
        | false ↦ climb employees left (hops + 1) (id ∷ seen) above
      ]
    ]
  ]
]

abbrev pub head_of : List Text → Option Text
head_of [] = none
head_of (x ∷ xs) = some x

-- The escalation edge to follow from a department: the one to the lowest id.
unfoldable pub next_department : List Connection → Text → Option Text
next_department edges from =
    head_of
      (sort str_lt (map (λ (c : Connection). c.to_id) (filter (λ c. str_eq c.from_id from) edges)))

abbrev pub reached : Option Text → ℕ → EscalationTarget
reached none hops = owner 0
reached (some d) hops = department d hops

-- The second loop, along the department escalation edges.
unfoldable pub follow : List Connection → ℕ → ℕ → List Text → Text → Option Text → EscalationTarget
follow edges zero hops seen here found = reached found hops
follow edges (suc left) hops seen here found = elim (next_department edges here) [
  | none ↦ reached found hops
  | some next ↦ elim (includes seen next) [
    | true ↦ owner 0
    | false ↦ follow edges left (hops + 1) (next ∷ seen) next (some next)
  ]
]

abbrev pub climb_from :
    List EscalationEmployee → ℕ → Option EscalationEmployee → Option EscalationTarget
climb_from employees max_hops none = none
climb_from employees max_hops (some e) = climb employees max_hops 0 (e.id ∷ []) e

abbrev pub lookup_from : List EscalationEmployee → Option Text → Option EscalationEmployee
lookup_from employees none = none
lookup_from employees (some id) = by_id employees id

abbrev pub escalation_edges : EscalationGraph → List Connection
escalation_edges graph = filter (λ c. kind_beq c.kind escalates_to) graph.connections

unfoldable pub resolve_escalation_target :
    EscalationGraph → Option Text → Text → ℕ → EscalationTarget
resolve_escalation_target graph employee_id department_id max_hops =
    or_else (climb_from graph.employees max_hops (lookup_from graph.employees employee_id))
      (follow (escalation_edges graph) max_hops 0 (department_id ∷ []) department_id none)

abbrev last_at : Option TaskEvent → ℕ
last_at none = 0
last_at (some e) = e.at

unfoldable pub last_progress_at : Task → ℕ
last_progress_at task = last_at (get_last? task.history)

abbrev watched : List TaskStatus
watched = assigned ∷ in_progress ∷ in_review ∷ changes_requested ∷ blocked ∷ []

-- `now - last < limitMs` with the subtraction moved across, since it may be negative.
unfoldable pub check_no_progress : Task → Option ℕ → ℕ → Option EscalationTrigger
check_no_progress task none now = none
check_no_progress task (some limit_ms) now =
    if includes watched task.status
    then (if ltb now (last_progress_at task + limit_ms)
        then none
        else some (no_progress (now - last_progress_at task) limit_ms))
    else none

pub record StaleTask : Type 0 where
  pub task : Task
  pub trigger : EscalationTrigger

unfoldable pub stale_tasks : List Task → Option ℕ → ℕ → List StaleTask
stale_tasks [] rules now = []
stale_tasks (task ∷ tasks) rules now = elim (check_no_progress task rules now) [
  | none ↦ stale_tasks tasks rules now
  | some trigger ↦ record { task = task; trigger = trigger } ∷ stale_tasks tasks rules now
]

-- `Math.round(idleMs / 60_000)` is half up.
unfoldable pub describe_trigger : EscalationTrigger → Text
describe_trigger (review_rounds rounds limit) =
    text "escalated after " ++ decimal limit ++ text " review rounds without approval"
describe_trigger (no_progress idle_ms limit_ms) =
    text "escalated after "
    ++ decimal ((idle_ms + 30000) / 60000)
    ++ text " minutes with no progress"
describe_trigger (budget detail) = text "escalated after the run budget was spent: " ++ detail
describe_trigger (check_error check_id detail) =
    text "check \"" ++ check_id ++ text "\" could not run: " ++ detail

unfoldable pub describe_target : EscalationTarget → Text
describe_target (employee id hops) = text "employee " ++ id
describe_target (department id hops) = text "department " ++ id
describe_target (owner hops) = text "the office owner"

abbrev told : EscalationTarget → Audience
told (employee id hops) = supervisor
told (department id hops) = Audience.owner
told (owner hops) = Audience.owner

-- Whom the work of a task goes to.
unfoldable pub escalation_target : Task → WorkflowContext → EscalationTarget
escalation_target task context = elim context.escalation_graph [
  | none ↦ owner 0
  | some graph ↦
      resolve_escalation_target graph task.assignee_id task.department_id max_escalation_hops
]

unfoldable pub escalation_effects :
    Task → EscalationTrigger → EscalationTarget → List WorkflowEffect
escalation_effects task trigger target =
    escalate (describe_trigger trigger) target
    ∷ notify (told target) (
        text "task \""
        ++ task.title
        ++ text "\" "
        ++ describe_trigger trigger
        ++ text "; now with "
        ++ describe_target target)
    ∷ []

unfoldable pub escalate_task :
    Task → EscalationTrigger → WorkflowEvent → WorkflowContext → Result WorkflowOutcome
escalate_task task trigger event context =
    apply_transition task escalated event context
      (escalation_effects task trigger (escalation_target task context))
      (some (describe_trigger trigger))
