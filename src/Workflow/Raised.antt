-- ===== src/Workflow/Raised.antt =====
-- packages/orchestrator/src/workflow/handoff.ts and watch.ts: the work that a move raises in other
-- departments.
use virtual_office.Prelude.{
  ℕ, Bool, true, false, ◌&&◌, List, [], ◌∷◌, ◌++◌, map, Option, none, some, Text, text, text_eq,
  decimal, join, str_eq, leb, filter, any, includes, count, or_else, if◌then◌else◌,
}
use virtual_office.Core.Result.{Result, ok, err}
use virtual_office.Core.Connection.{
  Connection, handoff, watches, kind_beq, HandoffAssignment, anyone, WatchableMoment, work_started,
  work_finished, work_went_wrong, decision_wanted, moment_eq, WatchRules, parse_handoff_rules,
  parse_watch_rules,
}
use virtual_office.Task.Status.{
  TaskStatus, in_progress, done, blocked, escalated, status_beq, status_text,
}
use virtual_office.Task.Model.{Task}
use virtual_office.Workflow.Types.{
  WorkflowContext, WorkflowEffect, escalate, create_work, request_approval, CreateWork, Because,
  watching,
}
use virtual_office.Workflow.Checker.{connections_of}
use virtual_office.Workflow.Escalation.{escalation_target}

abbrev pub max_visits_per_department : ℕ
max_visits_per_department = 2

abbrev assigned_by : Result HandoffAssignment → HandoffAssignment
assigned_by (ok to) = to
assigned_by (err e) = anyone

unfoldable pub assignment_of : Connection → HandoffAssignment
assignment_of connection = assigned_by (parse_handoff_rules connection.rules)

unfoldable pub visits : List Text → Text → ℕ
visits route department = count department route

abbrev pub hands_off : Text → Connection → Bool
hands_off department_id c = kind_beq c.kind handoff && c.enabled && str_eq c.from_id department_id

unfoldable pub goes_in_circles : Task → WorkflowContext → List Text → Connection → WorkflowEffect
goes_in_circles task context route connection =
    escalate
      (text "this work has been through "
        ++ connection.to_id
        ++ text " "
        ++ decimal (visits route connection.to_id)
        ++ text " times already: "
        ++ join (text " → ") (route ++ connection.to_id ∷ []))
      (escalation_target task context)

abbrev pub handed_on : Task → WorkflowContext → List Text → Connection → CreateWork
handed_on task context route connection = record {
  because = Because.handoff;
  connection_id = connection.id;
  to_department_id = connection.to_id;
  title = task.title;
  brief =
      text "Handed on from "
      ++ task.department_id
      ++ text ", which finished \""
      ++ task.title
      ++ text "\".";
  artifacts = task.artifacts;
  documents = or_else context.documents [];
  priority = task.priority;
  route = route;
  assign = assignment_of connection;
}

-- One round of the loop over the outgoing arrows.
unfoldable pub handoff_effect : Task → WorkflowContext → List Text → Connection → WorkflowEffect
handoff_effect task context route connection =
    if leb max_visits_per_department (visits route connection.to_id)
    then goes_in_circles task context route connection
    else create_work (handed_on task context route connection)

abbrev is_none : {A : Type 0} → Option A → Bool
is_none none = true
is_none (some a) = false

unfoldable pub handoff_effects : Task → WorkflowContext → List WorkflowEffect
handoff_effects task context =
    if is_none task.contest_id
    then map (handoff_effect task context (task.route ++ task.department_id ∷ []))
        (filter (hands_off task.department_id) (connections_of context))
    else []

abbrev pub asks_approval : WorkflowEffect → Bool
asks_approval (request_approval gates summary) = true
asks_approval _ = false

abbrev moment_at : TaskStatus → Option WatchableMoment
moment_at in_progress = some work_started
moment_at done = some work_finished
moment_at blocked = some work_went_wrong
moment_at escalated = some work_went_wrong
moment_at _ = none

unfoldable pub moment_of_move :
    TaskStatus → TaskStatus → List WorkflowEffect → Option WatchableMoment
moment_of_move before after effects =
    if any effects asks_approval
    then some decision_wanted
    else (if status_beq after before then none else moment_at after)

abbrev watched_by : Result WatchRules → WatchRules
watched_by (ok rules) = rules
watched_by (err e) = record { moments = []; assign = anyone }

unfoldable pub watch_for : Connection → WatchRules
watch_for connection = watched_by (parse_watch_rules connection.rules)

abbrev headline : WatchableMoment → Text
headline work_started = text "Work started elsewhere"
headline work_finished = text "Work finished elsewhere"
headline work_went_wrong = text "Something went wrong elsewhere"
headline decision_wanted = text "Something is waiting on a person"

abbrev pub watches_over : Text → Connection → Bool
watches_over department_id c = kind_beq c.kind watches && c.enabled && str_eq c.to_id department_id

abbrev pub noticed : Task → WatchableMoment → Connection → HandoffAssignment → CreateWork
noticed after moment connection assign = record {
  because = watching;
  connection_id = connection.id;
  to_department_id = connection.from_id;
  title = headline moment ++ text ": " ++ after.title;
  brief =
      text "Noticed because this department watches "
      ++ after.department_id
      ++ text ", where the task \""
      ++ after.title
      ++ text "\" is now "
      ++ status_text after.status
      ++ text ".";
  artifacts = [];
  documents = [];
  priority = after.priority;
  route = after.route ++ after.department_id ∷ [];
  assign = assign;
}

-- The loop over the watching arrows.
unfoldable pub raise_watched : Task → WatchableMoment → List Connection → List WorkflowEffect
raise_watched after moment [] = []
raise_watched after moment (c ∷ cs) =
    let rest = raise_watched after moment cs in
    let asked = watch_for c in
    if includes asked.moments moment
    then create_work (noticed after moment c asked.assign) ∷ rest
    else rest

unfoldable pub watch_effects :
    Task → Task → List WorkflowEffect → WorkflowContext → List WorkflowEffect
watch_effects before after effects context =
    elim (moment_of_move before.status after.status effects) [
      | none ↦ []
      | some moment ↦
          raise_watched after moment
            (filter (watches_over after.department_id) (connections_of context))
    ]
