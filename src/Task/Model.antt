-- ===== src/Task/Model.antt =====
-- packages/core/src/task/task.ts: the data of a task. Ids and text are UTF-16 texts, instants are
-- milliseconds since the epoch, and a field that the source types `T | null` or `T?` is an Option.
use virtual_office.Prelude.{ℕ, Option, none, some, List, Text, text, str_eq, if◌then◌else◌}
use virtual_office.Core.Gates.{GatedAction}
use virtual_office.Core.Unknown.{Number}
use virtual_office.Task.Status.{TaskStatus}

pub data TaskPriority : Type 0 where
  low normal high urgent : TaskPriority

unfoldable pub priority_rank : TaskPriority → ℕ
priority_rank low = 0
priority_rank normal = 1
priority_rank high = 2
priority_rank urgent = 3

-- `isPriority`, with the priority that the string names.
unfoldable pub priority_of : Text → Option TaskPriority
priority_of s =
    if str_eq s (text "low")
    then some low
    else (if str_eq s (text "normal")
        then some normal
        else (if str_eq s (text "high")
            then some high
            else (if str_eq s (text "urgent") then some urgent else none)))

unfoldable pub priority_text : TaskPriority → Text
priority_text low = text "low"
priority_text normal = text "normal"
priority_text high = text "high"
priority_text urgent = text "urgent"

pub record TaskEvent : Type 0 where
  pub at : ℕ
  pub from : Option TaskStatus
  pub to : TaskStatus
  pub actor_id : Option Text
  pub reason : Option Text

pub record ContestWin : Type 0 where
  pub reason : Text
  pub decided_by : Option Text
  pub decided_at : ℕ

pub record Task : Type 0 where
  pub id : Text
  pub office_id : Text
  pub department_id : Text
  pub title : Text
  pub brief : Text
  pub priority : TaskPriority
  pub status : TaskStatus
  pub assignee_id : Option Text
  pub bench_id : Option Text
  pub contest_id : Option Text
  pub won : Option ContestWin
  pub reviewer_ids : List Text
  pub approvals : List Text
  pub stage : Option Text
  pub gated_actions : List GatedAction
  pub depends_on : List Text
  pub artifacts : List Text
  pub route : List Text
  pub acceptance_criteria : List Text
  pub checked_by : List Text
  pub token_budget : Option ℕ
  pub deadline : Option ℕ
  pub history : List TaskEvent
  pub created_at : ℕ
  pub updated_at : ℕ

-- A `Date` as a caller states it.
pub data Date : Type 0 where
  at_ms : ℕ → Date
  invalid : Date

pub record CreateTaskInput : Type 0 where
  pub office_id : Text
  pub department_id : Text
  pub title : Text
  pub brief : Option Text
  pub priority : Option Text
  pub assignee_id : Option Text
  pub bench_id : Option Text
  pub contest_id : Option Text
  pub reviewer_ids : Option (List Text)
  pub route : Option (List Text)
  pub artifacts : Option (List Text)
  pub acceptance_criteria : Option (List Text)
  pub checked_by : Option (List Text)
  -- As strings: the check that each is a category runs on whatever the caller sent.
  pub gated_actions : Option (List Text)
  pub depends_on : Option (List Text)
  pub token_budget : Option Number
  pub deadline : Option Date

-- What the two calls of a `TaskDeps` return.
pub record TaskDeps : Type 0 where
  pub id : Text
  pub now : ℕ

pub record TransitionOptions : Type 0 where
  pub at : ℕ
  pub actor_id : Option Text
  pub reason : Option Text
  pub assignee_id : Option Text
  pub bench_id : Option Text

pub record UpdateTaskInput : Type 0 where
  pub title : Option Text
  pub brief : Option Text
  pub priority : Option Text
  pub acceptance_criteria : Option (List Text)
