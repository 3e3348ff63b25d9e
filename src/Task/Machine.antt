-- ===== src/Task/Machine.antt =====
-- packages/core/src/task/task.ts: `transitionTask`.
pub mod History
pub mod Counts
use virtual_office.Prelude.{
  ℕ, suc, Bool, true, false, not, List, [], ◌∷◌, ◌++◌, Option, none, some, Text, text, str_eq,
  if◌then◌else◌,
}
use virtual_office.Core.Result.{Result, ok, err, ◌>>=◌, error}
use virtual_office.Task.Status.{
  TaskStatus, assigned, backlog, is_terminal, can_transition, status_text,
}
use virtual_office.Task.Model.{Task, TaskEvent, TransitionOptions}

transition_refused : TaskStatus → TaskStatus → Text
transition_refused from to =
    if is_terminal from
    then text "task is " ++ status_text from ++ text ", which is final"
    else text "cannot move a task from " ++ status_text from ++ text " to " ++ status_text to

assignee_required : Text
assignee_required = text "an assignee is required to move a task to assigned"

-- `options.assigneeId ?? task.assigneeId`
abbrev held_by : Option Text → Option Text → Result (Option Text)
held_by (some e) current = ok (some e)
held_by none (some e) = ok (some e)
held_by none none = err (error (text "assigneeId") assignee_required)

-- Who holds the task after the move.
unfoldable pub next_assignee : TaskStatus → Option Text → Option Text → Result (Option Text)
unfolding assignee_required
next_assignee assigned given current = held_by given current
next_assignee backlog given current = ok none
next_assignee _ given current = ok current

abbrev pub transition_event : Task → TaskStatus → TransitionOptions → TaskEvent
transition_event task to options = record {
  at = options.at;
  from = some task.status;
  to = to;
  actor_id = options.actor_id;
  reason = options.reason;
}

abbrev pub moved : Task → TaskStatus → TransitionOptions → Option Text → Task
moved task to options assignee_id = record task {
  status = to;
  assignee_id = assignee_id;
  history = task.history ++ transition_event task to options ∷ [];
  updated_at = options.at;
}

unfoldable pub transition_task : Task → TaskStatus → TransitionOptions → Result Task
unfolding transition_refused
transition_task task to options =
    if can_transition task.status to
    then next_assignee to options.assignee_id task.assignee_id
      >>= (λ assignee_id. ok (moved task to options assignee_id))
    else err (error (text "status") (transition_refused task.status to))
