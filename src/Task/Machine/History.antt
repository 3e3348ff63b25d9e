-- ===== src/Task/Machine/History.antt =====
-- What a task records about itself: its history is a walk through the diagram of moves, and its
-- approvals are those of distinct reviewers.
use virtual_office.Prelude.{
  ◌≡◌, ◌≢◌, refl, sym, subst, ◌∙◌, true, List, [], ◌∷◌, ◌++◌, Option, none, some, Text, Bool-cases,
  inl, inr, ◌⊎◌, Distinct, Within, text_eq,
}
use virtual_office.Core.Result.{ok, Ensures, Ensures-bind, Ensures-imp}
use virtual_office.Task.Status.{TaskStatus, assigned, backlog, can_transition}
use virtual_office.Task.Model.{Task, TaskEvent, TransitionOptions}
use virtual_office.Task.Machine.{next_assignee, transition_event, moved, transition_task}

-- Where a task may go from a status, or with none where it may start.
abbrev pub Allowed : Option TaskStatus → TaskStatus → Type 0
Allowed none to = (to ≡ backlog) ⊎ (to ≡ assigned)
Allowed (some from) to = can_transition from to ≡ true

-- Each event starts where the one before ended, makes an allowed move, and the last one ends
-- at the status.
abbrev pub Walk : Option TaskStatus → List TaskEvent → TaskStatus → Type 0
Walk here [] status = here ≡ some status
Walk here (e ∷ es) status = (e.from ≡ here) × Allowed here e.to × Walk (some e.to) es status

pub Walk-append_event :
    (here : Option TaskStatus) (es : List TaskEvent) (e : TaskEvent) {status : TaskStatus}
    → Walk here es status
    → e.from ≡ some status
    → can_transition status e.to ≡ true
    → Walk here (es ++ e ∷ []) e.to
Walk-append_event none [] e w f c = cc
Walk-append_event (some s) [] e {status} w f c = (f ∙ sym w, rw (injective w) c, refl)
  where
    injective : some s ≡ some status → s ≡ status
    injective q = cc
Walk-append_event here (x ∷ es) e w f c = (w.0, w.1, Walk-append_event (some x.to) es e w.2 f c)

pub record IsRecorded (task : Task) : Type 0 where
  pub walk : Walk none task.history task.status
  pub approvals_distinct : Distinct task.approvals
  pub approvals_within : (task.reviewer_ids ≡ []) ⊎ Within task.approvals task.reviewer_ids

pub record IsWellFormed (task : Task) : Type 0 where
  pub recorded : IsRecorded task
  pub assigned_held : task.status ≡ assigned → task.assignee_id ≢ none
  pub backlog_free : task.status ≡ backlog → task.assignee_id ≡ none

next_assignee-assigned :
    (to : TaskStatus) (given current : Option Text) {a : Option Text}
    → next_assignee to given current ≡ ok a
    → to ≡ assigned
    → a ≢ none
unfolding next_assignee
next_assignee-assigned assigned (some e) current h t n = cc
next_assignee-assigned assigned none (some e) h t n = cc
next_assignee-assigned assigned none none h t n = cc
next_assignee-assigned _ given current h t n = cc

next_assignee-backlog :
    (to : TaskStatus) (given current : Option Text) {a : Option Text}
    → next_assignee to given current ≡ ok a
    → to ≡ backlog
    → a ≡ none
unfolding next_assignee
next_assignee-backlog backlog given current h t = cc
next_assignee-backlog _ given current h t = cc

-- A move that was made: it is in the table, and nothing but the status, the holder, the history
-- and the time of the last change is touched.
pub record Moves (task : Task) (to : TaskStatus) (options : TransitionOptions) (after : Task)
    : Type 0 where
  pub allowed : can_transition task.status to ≡ true
  pub assignee : Option Text
  pub chosen : next_assignee to options.assignee_id task.assignee_id ≡ ok assignee
  pub result : after ≡ moved task to options assignee

-- The move is in the table whenever `transitionTask` makes one.
pub transition_task-Moves :
    (task : Task) (to : TaskStatus) (options : TransitionOptions)
    → Ensures (Moves task to options) (transition_task task to options)
unfolding transition_task
transition_task-Moves task to options = elim (Bool-cases (can_transition task.status to)) [
  | inr refused ↦ rw refused tt
  | inl move ↦ rw move (
      Ensures-bind (Moves task to options) (next_assignee to options.assignee_id task.assignee_id)
        (λ a. ok (moved task to options a))
        (λ a e. record { allowed = move; assignee = a; chosen = e; result = refl }))
]

pub Moves-IsWellFormed :
    (task : Task) (to : TaskStatus) (options : TransitionOptions) {after : Task}
    → IsRecorded task
    → Moves task to options after
    → IsWellFormed after
Moves-IsWellFormed task to options r m = subst IsWellFormed (sym m.result) (record {
  recorded = record {
    walk =
        Walk-append_event none task.history (transition_event task to options) r.walk refl
          m.allowed;
    approvals_distinct = r.approvals_distinct;
    approvals_within = r.approvals_within;
  };
  assigned_held = next_assignee-assigned to options.assignee_id task.assignee_id m.chosen;
  backlog_free = next_assignee-backlog to options.assignee_id task.assignee_id m.chosen;
})

-- A move of a task with a true record gives a well-formed task: its history is still a walk
-- through the table that ends at its status, an assigned task has a holder and one in the
-- backlog has none.
pub transition_task-IsWellFormed :
    (task : Task) (to : TaskStatus) (options : TransitionOptions)
    → IsRecorded task
    → Ensures IsWellFormed (transition_task task to options)
transition_task-IsWellFormed task to options r =
    Ensures-imp (Moves task to options) IsWellFormed _
      (λ after. Moves-IsWellFormed task to options r) (transition_task-Moves task to options)
