-- ===== src/Workflow/Policy/Manager.antt =====
-- packages/orchestrator/src/workflow/manager-policy.ts: the supervisor reviews.
use virtual_office.Prelude.{none, text}
use virtual_office.Core.Result.{Result, ◌>>=◌}
use virtual_office.Task.Model.{Task}
use virtual_office.Workflow.Types.{
  WorkflowContext, PolicyEvent, policy_event, submit, approve, request_changes, check_reported,
  gate_decided, WorkflowOutcome,
}
use virtual_office.Workflow.Review.{
  approve_review, request_changes_or_escalate, submit_for_review, supervisor_choice,
  reject_policy_event,
}

unfoldable pub handle_manager : Task → PolicyEvent → WorkflowContext → Result WorkflowOutcome
handle_manager task (submit event) context =
    supervisor_choice task context >>= (λ choice. submit_for_review task event context choice)
handle_manager task (approve event) context =
    approve_review task (policy_event (approve event)) context
handle_manager task (request_changes actor_id reason) context =
    request_changes_or_escalate task (policy_event (request_changes actor_id reason)) context reason
      none
handle_manager task (check_reported report actor_id) context =
    reject_policy_event (text "manager") (check_reported report actor_id)
handle_manager task (gate_decided decided) context =
    reject_policy_event (text "manager") (gate_decided decided)
