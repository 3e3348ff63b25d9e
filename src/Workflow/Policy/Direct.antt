-- ===== src/Workflow/Policy/Direct.antt =====
-- packages/orchestrator/src/workflow/workflow-engine.ts: the policy that reviews nothing of its own.
use virtual_office.Prelude.{
  ℕ, Bool, not, ◌&&◌, List, [], ◌∷◌, ◌++◌, Option, none, some, Text, text, is_empty, or_else,
  if◌then◌else◌,
}
use virtual_office.Core.Result.{Result}
use virtual_office.Task.Status.{in_review, done, status_beq}
use virtual_office.Task.Model.{Task}
use virtual_office.Workflow.Types.{
  WorkflowContext, PolicyEvent, policy_event, submit, approve, request_changes, check_reported,
  gate_decided, Submit, WorkflowOutcome, workflow_error, apply_transition,
}
use virtual_office.Workflow.Checker.{checker_for}
use virtual_office.Workflow.Review.{
  approve_review, request_changes_or_escalate, outstanding_for, not_done_yet, event_type,
}

abbrev pub check_rounds : Option ℕ
check_rounds = some 3

abbrev pub with_artifacts : Task → List Text → Task
with_artifacts task produced = record task { artifacts = task.artifacts ++ produced }

no_review_step : PolicyEvent → Result WorkflowOutcome
no_review_step e =
    workflow_error (text "event.type") (
      text "the direct policy has no review step, so \""
      ++ event_type e
      ++ text "\" does not apply")

-- Before the department that still has to check, or done.
unfoldable pub finish_direct : Task → Submit → WorkflowContext → Result WorkflowOutcome
finish_direct task event context = elim (checker_for task context) [
  | none ↦ apply_transition task done (policy_event (submit event)) context [] none
  | some pending ↦
      apply_transition (record task { reviewer_ids = pending.reviewer_id ∷ []; approvals = [] })
        in_review (policy_event (submit event)) context []
        (some (text "waiting to be checked by " ++ pending.department_id))
]

unfoldable pub submit_direct : Task → Submit → WorkflowContext → Result WorkflowOutcome
submit_direct task event context =
    let finished = with_artifacts task (or_else event.artifacts []) in
    let outstanding = outstanding_for finished (policy_event (submit event)) context in
    if is_empty outstanding
    then finish_direct finished event context
    else workflow_error (text "met") (not_done_yet outstanding)

-- In review with somebody asked: another department is checking this one's work.
abbrev pub is_asked : Task → Bool
is_asked task = status_beq task.status in_review && not (is_empty task.reviewer_ids)

unfoldable pub handle_direct : Task → PolicyEvent → WorkflowContext → Result WorkflowOutcome
unfolding no_review_step
handle_direct task (submit event) context = submit_direct task event context
handle_direct task (approve event) context =
    if is_asked task
    then approve_review task (policy_event (approve event)) context
    else no_review_step (approve event)
handle_direct task (request_changes actor_id reason) context =
    if is_asked task
    then request_changes_or_escalate task (policy_event (request_changes actor_id reason)) context
        reason check_rounds
    else no_review_step (request_changes actor_id reason)
handle_direct task (check_reported report actor_id) context =
    no_review_step (check_reported report actor_id)
handle_direct task (gate_decided decided) context = no_review_step (gate_decided decided)
