-- ===== src/Workflow/Waiting.antt =====
-- packages/orchestrator/src/workflow/awaiting.ts: what an office is waiting on a person for.
pub mod Inbox
use virtual_office.Prelude.{
  ℕ, Bool, List, [], ◌∷◌, ◌++◌, map, Option, none, some, Text, is_empty, get_last?, or_else, lookup,
  put, ltb, sort, if◌then◌else◌,
}
use virtual_office.Core.Unknown.{Fields}
use virtual_office.Core.Gates.{GatedAction}
use virtual_office.Core.Policy.{ReviewPolicy}
use virtual_office.Task.Status.{
  TaskStatus, backlog, assigned, in_progress, in_review, changes_requested, approved, done, blocked,
  escalated, transferred, cancelled,
}
use virtual_office.Task.Model.{Task, TaskEvent}
use virtual_office.Workflow.Types.{HeldCall}
use virtual_office.Workflow.Policy.Gate.{gates_awaiting}

-- What is read of a department.
pub record DepartmentPolicy : Type 0 where
  pub id : Text
  pub review_policy : ReviewPolicy

pub record CallWaiting : Type 0 where
  pub key : Text
  pub name : Text
  pub input : Fields
  pub gates : List GatedAction
  pub detail : Text

pub data WaitingKind : Type 0 where
  call : CallWaiting → WaitingKind
  review : List GatedAction → WaitingKind
  stopped : (status : TaskStatus) → (reason : Option Text) → WaitingKind

pub record Waiting : Type 0 where
  pub task_id : Text
  pub title : Text
  pub department_id : Text
  pub assignee_id : Option Text
  pub since : ℕ
  pub kind : WaitingKind

abbrev reason_of : Option TaskEvent → Option Text
reason_of none = none
reason_of (some e) = e.reason

abbrev pub last_reason : Task → Option Text
last_reason task = reason_of (get_last? task.history)

-- `{ ...base(task), ... }`
abbrev pub waiting_for : Task → WaitingKind → Waiting
waiting_for task kind = record {
  task_id = task.id;
  title = task.title;
  department_id = task.department_id;
  assignee_id = task.assignee_id;
  since = task.updated_at;
  kind = kind;
}

-- `new Map(departments.map(...))`: of two with one id the later counts.
abbrev pub policies_from :
    List (Text × ReviewPolicy) → List DepartmentPolicy → List (Text × ReviewPolicy)
policies_from policies [] = policies
policies_from policies (d ∷ ds) = policies_from (put d.id d.review_policy policies) ds

abbrev pub review_of : Task → List GatedAction → List Waiting
review_of task [] = []
review_of task (g ∷ gs) = waiting_for task (review (g ∷ gs)) ∷ []

abbrev pub held_for : Task → Option ReviewPolicy → List Waiting
held_for task none = []
held_for task (some policy) = review_of task (gates_awaiting task.gated_actions policy)

abbrev pub call_of : Task → HeldCall → Waiting
call_of task c = waiting_for task (
    call
      (record { key = c.key; name = c.name; input = c.input; gates = c.gates; detail = c.detail }))

abbrev pub stopped_on : Task → TaskStatus → Waiting
stopped_on task status = waiting_for task (stopped status (last_reason task))

abbrev pub blocked_on : Task → List HeldCall → List Waiting
blocked_on task [] = stopped_on task blocked ∷ []
blocked_on task (c ∷ cs) = map (call_of task) (c ∷ cs)

-- The body of the loop, by the status of the task.
abbrev pub waits_as :
    List (Text × ReviewPolicy) → List (Text × List HeldCall) → Task → TaskStatus → List Waiting
waits_as policies held task in_review = held_for task (lookup task.department_id policies)
waits_as policies held task blocked = blocked_on task (or_else (lookup task.id held) [])
waits_as policies held task escalated = stopped_on task escalated ∷ []
waits_as policies held task _ = []

unfoldable pub waits :
    List (Text × ReviewPolicy) → List (Text × List HeldCall) → List Task → List Waiting
waits policies held [] = []
waits policies held (task ∷ tasks) =
    waits_as policies held task task.status ++ waits policies held tasks

unfoldable pub what_is_waiting :
    List Task → List DepartmentPolicy → List (Text × List HeldCall) → List Waiting
what_is_waiting tasks departments held =
    sort (λ (a b : Waiting). ltb a.since b.since) (waits (policies_from [] departments) held tasks)
