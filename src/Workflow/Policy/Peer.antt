-- ===== src/Workflow/Policy/Peer.antt =====
-- packages/orchestrator/src/workflow/peer-policy.ts: a colleague reviews, or failing that the
-- supervisor.
use virtual_office.Prelude.{[], ◌∷◌, none, some, text, or_else}
use virtual_office.Core.Result.{Result, ◌>>=◌}
use virtual_office.Task.Model.{Task}
use virtual_office.Workflow.Types.{
  WorkflowContext, PolicyEvent, policy_event, submit, approve, request_changes, check_reported,
  gate_decided, Submit, WorkflowOutcome, reviewer,
}
use virtual_office.Workflow.Peers.{PeerSelection, select_peer_reviewer}
use virtual_office.Workflow.Review.{
  approve_review, request_changes_or_escalate, submit_for_review, supervisor_choice,
  reject_policy_event,
}

abbrev pub selection_for : Task → WorkflowContext → PeerSelection
selection_for task context = record {
  assignee_id = task.assignee_id;
  review_skills = or_else context.review_skills [];
}

unfoldable pub submit_to_peer : Task → Submit → WorkflowContext → Result WorkflowOutcome
submit_to_peer task event context =
    elim (select_peer_reviewer (or_else context.peers []) (selection_for task context)) [
      | some chosen ↦
          submit_for_review task event context
            (record { reviewer_ids = chosen ∷ []; audience = reviewer })
      | none ↦
          supervisor_choice task context >>= (λ choice. submit_for_review task event context choice)
    ]

unfoldable pub handle_peer : Task → PolicyEvent → WorkflowContext → Result WorkflowOutcome
handle_peer task (submit event) context = submit_to_peer task event context
handle_peer task (approve event) context =
    approve_review task (policy_event (approve event)) context
handle_peer task (request_changes actor_id reason) context =
    request_changes_or_escalate task (policy_event (request_changes actor_id reason)) context reason
      none
handle_peer task (check_reported report actor_id) context =
    reject_policy_event (text "peer") (check_reported report actor_id)
handle_peer task (gate_decided decided) context =
    reject_policy_event (text "peer") (gate_decided decided)
