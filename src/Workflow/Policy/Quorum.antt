-- ===== src/Workflow/Policy/Quorum.antt =====
-- packages/orchestrator/src/workflow/quorum-policy.ts: a committee, of which so many must approve.
use virtual_office.Prelude.{
  ℕ, List, [], ◌∷◌, ◌++◌, map, none, text, decimal, ltb, length, take, or_else, if◌then◌else◌,
}
use virtual_office.Core.Result.{Result, ok, ◌>>=◌}
use virtual_office.Core.Policy.{ReviewPolicy, quorum, policy_kind}
use virtual_office.Task.Model.{Task}
use virtual_office.Workflow.Types.{
  PeerCandidate, WorkflowContext, PolicyEvent, policy_event, submit, approve, request_changes,
  check_reported, gate_decided, Submit, Approve, WorkflowOutcome, notify, reviewer, workflow_error,
}
use virtual_office.Workflow.Peers.{rank_peers}
use virtual_office.Workflow.Policy.Peer.{selection_for}
use virtual_office.Workflow.Review.{
  approve_review, request_changes_or_escalate, submit_for_review, reject_policy_event,
  tally_approval, ApprovalTally, gathering, reached, quoted,
}

-- `"required" in policy`: of the quorum policy alone.
unfoldable pub required_approvals : ReviewPolicy → Result ℕ
required_approvals (quorum required max) = ok required
required_approvals policy = workflow_error (text "policy") (
    text "a quorum policy needs a required approval count; got \""
    ++ policy_kind policy
    ++ text "\"")

unfoldable pub form_committee_of :
    ℕ → Task → Submit → WorkflowContext → List PeerCandidate → Result WorkflowOutcome
form_committee_of required task event context eligible =
    if ltb (length eligible) required
    then workflow_error (text "policy.required") (
        text "a quorum of "
        ++ decimal required
        ++ text " reviewers is configured but only "
        ++ decimal (length eligible)
        ++ text " eligible reviewers are available")
    else submit_for_review task event context (record {
      reviewer_ids = map (λ (p : PeerCandidate). p.id) (take required eligible);
      audience = reviewer;
    })

unfoldable pub form_committee : Task → Submit → WorkflowContext → Result WorkflowOutcome
form_committee task event context = required_approvals context.policy >>= (λ required.
    form_committee_of required task event context
      (rank_peers (or_else context.peers []) (selection_for task context)))

abbrev pub on_tally : ℕ → Approve → WorkflowContext → ApprovalTally → Result WorkflowOutcome
on_tally required event context (reached task) =
    approve_review task (policy_event (approve event)) context
on_tally required event context (gathering task gathered) = ok (record {
  task = task;
  effects =
      notify reviewer (
        text "task "
        ++ quoted task.title
        ++ text " has "
        ++ decimal gathered
        ++ text " of "
        ++ decimal required
        ++ text " approvals")
      ∷ [];
})

unfoldable pub gather_approval : Task → Approve → WorkflowContext → Result WorkflowOutcome
gather_approval task event context = required_approvals context.policy >>= (λ required.
    tally_approval task event required >>= (λ tally. on_tally required event context tally))

unfoldable pub handle_quorum : Task → PolicyEvent → WorkflowContext → Result WorkflowOutcome
handle_quorum task (submit event) context = form_committee task event context
handle_quorum task (approve event) context = gather_approval task event context
handle_quorum task (request_changes actor_id reason) context =
    request_changes_or_escalate task (policy_event (request_changes actor_id reason)) context reason
      none
handle_quorum task (check_reported report actor_id) context =
    reject_policy_event (text "quorum") (check_reported report actor_id)
handle_quorum task (gate_decided decided) context =
    reject_policy_event (text "quorum") (gate_decided decided)
