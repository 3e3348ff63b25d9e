-- ===== src/Examples/Flows.antt =====
-- Tests and applied theorems on packages/orchestrator/src.
use virtual_office.Prelude.{
  ◌≡◌, ◌⊎◌, refl, false, [], ◌∷◌, Option, none, some, text, str_eq, trim, length, filter, text_eq,
}
use mathlib.Core.List.{Perm}
use virtual_office.Core.Result.{Result, ok, err, is_ok, Ensures}
use virtual_office.Core.Policy.{quorum, manager, policy_kind}
use virtual_office.Task.Status.{
  TaskStatus, in_review, done, is_terminal, status_beq, can_transition,
}
use virtual_office.Task.Machine.{transition_task, next_assignee}
use virtual_office.Workflow.Types.{approve, WorkflowOutcome, apply_transition}
use virtual_office.Workflow.Peers.{rank_peers, is_eligible}
use virtual_office.Workflow.Peers.Laws.{IsRanked, IsAble, rank_peers-IsRanked}
use virtual_office.Workflow.Review.{
  may_review, tally_approval, approve_review, outstanding_for, approve_signed, approve_to_done,
  request_changes_or_escalate, add_approval,
}
use virtual_office.Workflow.Policy.Quorum.{handle_quorum, gather_approval, required_approvals}
use virtual_office.Workflow.Acceptance.{acceptance_criteria_for, unmet_criteria}
use virtual_office.Workflow.Checker.{signed_off_by, checker_for, checker_from, checkers_of}
use virtual_office.Workflow.Engine.{handle, decide, decide_by_policy, handler_for, default_handlers}
use virtual_office.Workflow.Soundness.Moves.{IsSound}
use virtual_office.Workflow.Soundness.Events.{handle-default-IsSound}
use virtual_office.Workflow.Outcomes.Finished.{handle_terminal}
use virtual_office.Workflow.Outcomes.Quorum.{IsCarried, quorum_needs_approvals}
use virtual_office.Workflow.Outcomes.Rounds.{IsAnswered, change_request-IsAnswered}
use virtual_office.Prelude.{Text, ◌≢◌, ◌↔◌, true}
use virtual_office.Core.Gates.{deploy}
use virtual_office.Core.Policy.{gate}
use virtual_office.Workflow.Types.{EscalationTarget, PeerCandidate}
use virtual_office.Workflow.Checker.{connections_of}
use virtual_office.Workflow.Escalation.{
  by_id, climb, escalation_edges, next_department, max_escalation_hops, resolve_escalation_target,
}
use virtual_office.Workflow.Raised.{handoff_effects}
use virtual_office.Workflow.Policy.Gate.{handle_gate}
use virtual_office.Workflow.Outcomes.Accepted.{IsAccepted, approve_review-IsAccepted}
use virtual_office.Workflow.Outcomes.Gates.{IsOwnerApproval, gate_needs_decision}
use virtual_office.Workflow.Outcomes.Target.{IsTarget, resolve_escalation_target-IsTarget}
use virtual_office.Workflow.Outcomes.Lowest.{IsLowest}
use virtual_office.Workflow.Outcomes.Handoffs.{Handed, handoff_effects-IsHandoff}
use virtual_office.Prelude.{sort, insert, str_lt, arith, [], text_eq}
use virtual_office.Task.Status.{in_progress}
use virtual_office.Workflow.Types.{Submit, submit, WorkflowContext}
use virtual_office.Task.Model.{Task}
use virtual_office.Workflow.Peers.{rank_peers, ranks_before}
use virtual_office.Workflow.Outcomes.Committee.{IsCommittee, candidates, quorum_submit-IsCommittee}
use virtual_office.Examples.Office.{
  team, ann, cy, report, report-IsWellFormed, finished, context_of, approval, approved_by_cy,
  asked_by_bob, team, selection, deployment, deployment_held, office, in_office,
}

status_after : Result WorkflowOutcome → Option TaskStatus
status_after (ok o) = some o.task.status
status_after (err e) = none

status_after_second_approval :
    status_after (handle default_handlers report approved_by_cy (context_of (quorum 2 3)))
    ≡ some done
unfolding status_after handle decide decide_by_policy handler_for default_handlers policy_kind text
    str_eq handle_quorum gather_approval required_approvals tally_approval may_review approve_review
    outstanding_for acceptance_criteria_for unmet_criteria signed_off_by checker_for checker_from
    checkers_of approve_signed approve_to_done apply_transition transition_task can_transition
    next_assignee
status_after_second_approval = refl

handle-default-IsSound_example :
    Ensures
      (IsSound report)
      (handle default_handlers report approved_by_cy (context_of (quorum 2 3)))
handle-default-IsSound_example =
    handle-default-IsSound report approved_by_cy (context_of (quorum 2 3)) report-IsWellFormed

change_request-IsAnswered_example :
    (o : WorkflowOutcome) × (request_changes_or_escalate report asked_by_bob
        (context_of (manager 1))
        (120 ∷ [])
        none
      ≡ ok o)
    × IsAnswered report 1 (context_of (manager 1)) o
unfolding trim may_review str_eq
change_request-IsAnswered_example =
    change_request-IsAnswered report asked_by_bob (context_of (manager 1)) (120 ∷ []) none 1 refl
      refl refl refl

quorum_needs_approvals_example :
    Ensures
      (λ o.
        (o.task.status ≡ in_review)
        ⊎ IsCarried report 2 (add_approval approval.actor_id report.approvals))
      (handle_quorum report (approve approval) (context_of (quorum 2 3)))
quorum_needs_approvals_example =
    quorum_needs_approvals report approval (context_of (quorum 2 3)) 2 3 report-IsWellFormed refl

handle_terminal_example :
    is_ok (handle default_handlers finished approved_by_cy (context_of (quorum 2 3))) ≡ false
unfolding is_terminal status_beq
handle_terminal_example = handle_terminal finished approved_by_cy (context_of (quorum 2 3)) refl

rank_peers-IsRanked_example :
    Perm (rank_peers team selection) (filter (is_eligible selection.assignee_id) team)
    × IsRanked selection.review_skills (rank_peers team selection)
    × ((p : PeerCandidate)
        → (is_eligible selection.assignee_id p ≡ true) ↔ IsAble selection.assignee_id p)
rank_peers-IsRanked_example = rank_peers-IsRanked team selection

approve_review-IsAccepted_example :
    Ensures
      (λ o. (o.task.status ≢ done) ⊎ IsAccepted report approved_by_cy (context_of (manager 1)))
      (approve_review report approved_by_cy (context_of (manager 1)))
approve_review-IsAccepted_example =
    approve_review-IsAccepted report approved_by_cy (context_of (manager 1))

gate_needs_decision_example :
    Ensures
      (λ o. (o.task.status ≢ done) ⊎ IsOwnerApproval (approve approval))
      (handle_gate deployment (approve approval) (context_of (gate (deploy ∷ []))))
gate_needs_decision_example =
    gate_needs_decision deployment (approve approval) (context_of (gate (deploy ∷ [])))
      deployment_held

resolve_escalation_target-office :
    resolve_escalation_target office (some ann) (3 ∷ []) max_escalation_hops
    ≡ EscalationTarget.employee cy 2
unfolding resolve_escalation_target by_id climb str_eq
resolve_escalation_target-office = refl

resolve_escalation_target-IsTarget_example :
    IsTarget office (some ann) (3 ∷ []) 8 (resolve_escalation_target office (some ann) (3 ∷ []) 8)
    × ((d : Text)
        → IsLowest (escalation_edges office) d (next_department (escalation_edges office) d))
resolve_escalation_target-IsTarget_example =
    resolve_escalation_target-IsTarget office (some ann) (3 ∷ []) 8

handoff_effects-IsHandoff_example :
    Handed finished in_office (connections_of in_office) (handoff_effects finished in_office)
handoff_effects-IsHandoff_example = handoff_effects-IsHandoff finished in_office refl

abbrev in_hand : Task
in_hand = record report { status = in_progress; reviewer_ids = []; approvals = [] }

abbrev staffed : WorkflowContext
staffed = record (context_of (quorum 2 3)) { peers = some team }

abbrev handed_in : Submit
handed_in = record { actor_id = ann; artifacts = none; met = none }

length-candidates : length (candidates in_hand staffed) ≡ 2
unfolding rank_peers sort insert ranks_before str_lt str_eq
length-candidates = refl

quorum_submit-IsCommittee_example :
    (o : WorkflowOutcome) × (handle_quorum in_hand (submit handed_in) staffed ≡ ok o)
    × IsCommittee 2 in_hand staffed o
quorum_submit-IsCommittee_example =
    quorum_submit-IsCommittee in_hand handed_in staffed 2 3 refl refl
      (omega (arith, length-candidates))
