-- ===== src/Workflow/Outcomes/Moves.antt =====
-- What one `applyTransition` comes to, when it is refused and when it is made.
use virtual_office.Prelude.{◌≡◌, refl, ap, true, false, List, Option, none, Text}
use virtual_office.Core.Result.{ok, Ensures, Ensures-then, Ensures-imp}
use virtual_office.Task.Status.{TaskStatus, done, cancelled, is_terminal, can_transition}
use virtual_office.Task.Model.{Task, TransitionOptions}
use virtual_office.Task.Machine.{transition_task, next_assignee, moved}
use virtual_office.Task.Machine.History.{Moves, transition_task-Moves}
use virtual_office.Workflow.Types.{
  WorkflowContext, WorkflowEvent, WorkflowEffect, WorkflowOutcome, apply_transition, actor_of,
}

-- The options that `applyTransition` passes on.
abbrev pub options_of : WorkflowEvent → WorkflowContext → Option Text → TransitionOptions
options_of event context reason = record {
  at = context.now;
  actor_id = actor_of event;
  reason = reason;
  assignee_id = none;
  bench_id = none;
}

pub terminal_stuck :
    (from to : TaskStatus) → is_terminal from ≡ true → can_transition from to ≡ false
unfolding is_terminal can_transition
terminal_stuck done to h = refl
terminal_stuck cancelled to h = refl
terminal_stuck _ to h = cc

pub transition_task-refused :
    (task : Task) (to : TaskStatus) (options : TransitionOptions)
    → is_terminal task.status ≡ true
    → Ensures (λ _. ⊥) (transition_task task to options)
transition_task-refused task to options h =
    Ensures-imp (Moves task to options) (λ _. ⊥) (transition_task task to options)
      (λ after m. clash m.allowed) (transition_task-Moves task to options)
  where
    clash : can_transition task.status to ≡ true → ⊥
    clash e = cc (terminal_stuck task.status to h)

pub apply_transition-refused :
    (task : Task) (to : TaskStatus) (event : WorkflowEvent) (context : WorkflowContext)
    (effects : List WorkflowEffect) (reason : Option Text)
    → is_terminal task.status ≡ true
    → Ensures (λ _. ⊥) (apply_transition task to event context effects reason)
unfolding apply_transition
apply_transition-refused task to event context effects reason h =
    Ensures-then (λ _. ⊥) (λ _. ⊥) _ _ (transition_task-refused task to _ h) (λ after e. absurd e)

-- A move that is made is the one asked for, with the effects given.
pub record IsMoved (task : Task) (to : TaskStatus) (effects : List WorkflowEffect)
    (o : WorkflowOutcome) : Type 0 where
  pub allowed : can_transition task.status to ≡ true
  pub arrived : o.task.status ≡ to
  pub told : o.effects ≡ effects
  pub criteria_kept : o.task.acceptance_criteria ≡ task.acceptance_criteria
  pub reviewers_kept : o.task.reviewer_ids ≡ task.reviewer_ids
  pub approvals_kept : o.task.approvals ≡ task.approvals

pub apply_transition-IsMoved :
    (task : Task) (to : TaskStatus) (event : WorkflowEvent) (context : WorkflowContext)
    (effects : List WorkflowEffect) (reason : Option Text)
    → Ensures (IsMoved task to effects) (apply_transition task to event context effects reason)
unfolding apply_transition
apply_transition-IsMoved task to event context effects reason =
    Ensures-then (Moves task to (options_of event context reason)) (IsMoved task to effects) _ _
      (transition_task-Moves task to (options_of event context reason))
      λ after m. record {
        allowed = m.allowed;
        arrived = ap (λ (t : Task). t.status) m.result;
        told = refl;
        criteria_kept = ap (λ (t : Task). t.acceptance_criteria) m.result;
        reviewers_kept = ap (λ (t : Task). t.reviewer_ids) m.result;
        approvals_kept = ap (λ (t : Task). t.approvals) m.result;
      }

-- An allowed move is made, where the state machine has somebody to give the task to.
pub apply_transition_ok :
    (task : Task) (to : TaskStatus) (event : WorkflowEvent) (context : WorkflowContext)
    (effects : List WorkflowEffect) (reason holder : Option Text)
    → can_transition task.status to ≡ true
    → next_assignee to none task.assignee_id ≡ ok holder
    → apply_transition task to event context effects reason
      ≡ ok (record {
        task = moved task to (options_of event context reason) holder;
        effects = effects;
      })
unfolding apply_transition transition_task
apply_transition_ok task to event context effects reason holder c n = rw (c, n)
