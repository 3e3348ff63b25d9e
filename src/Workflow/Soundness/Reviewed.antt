-- ===== src/Workflow/Soundness/Reviewed.antt =====
-- The record of a task under the direct, manager, peer and quorum policies.
use virtual_office.Prelude.{
  ℕ, refl, List, [], ◌∷◌, none, Text, ltb, length, is_empty, or_else, Option-cases, inl, inr,
}
use virtual_office.Core.Result.{◌>>=◌, Ensures, Ensures-then, Ensures-if, Ensures-bind}
use virtual_office.Task.Status.{in_review, done}
use virtual_office.Task.Model.{Task}
use virtual_office.Task.Machine.History.{IsWellFormed}
use virtual_office.Workflow.Types.{
  WorkflowContext, PolicyEvent, policy_event, submit, approve, request_changes, check_reported,
  gate_decided, Submit, Approve,
}
use virtual_office.Workflow.Checker.{checker_for}
use virtual_office.Workflow.Peers.{rank_peers, select_peer_reviewer}
use virtual_office.Workflow.Review.{
  supervisor_choice, outstanding_for, ApprovalTally, gathering, reached, submit_for_review,
  reject_policy_event,
}
use virtual_office.Workflow.Policy.Direct.{
  handle_direct, submit_direct, finish_direct, with_artifacts, is_asked, check_rounds,
}
use virtual_office.Workflow.Policy.Manager.{handle_manager}
use virtual_office.Workflow.Policy.Peer.{handle_peer, submit_to_peer, selection_for}
use virtual_office.Workflow.Policy.Quorum.{
  handle_quorum, form_committee, form_committee_of, gather_approval, required_approvals, on_tally,
}
use virtual_office.Workflow.Soundness.Moves.{
  IsStaged, IsSound, IsSoundTask, IsStaged_refl, Grows-refl, apply_transition-IsSound, reviewed_by,
}
use virtual_office.Workflow.Soundness.Reviews.{
  request_changes-IsSound, approve_review-IsSound, submit_for_review-IsSound,
  tally_approval-IsSoundTask, tallied,
}

module _ (task : Task) (context : WorkflowContext) (w : IsWellFormed task) where
  abbrev here : IsStaged task task
  here = IsStaged_refl task w.recorded

  produced : (more : List Text) → IsStaged task (with_artifacts task more)
  produced more = record {
    step = record {
      kept = refl;
      history_grows = Grows-refl task.history;
      artifacts_grow = (more, refl);
      signatures_grow = Grows-refl task.checked_by;
    };
    recorded = record {
      walk = w.recorded.walk;
      approvals_distinct = w.recorded.approvals_distinct;
      approvals_within = w.recorded.approvals_within;
    };
  }

  submit_direct-IsSound :
      (event : Submit) → Ensures (IsSound task) (submit_direct task event context)
  unfolding submit_direct finish_direct
  submit_direct-IsSound event =
      Ensures-if (IsSound task)
        (is_empty (outstanding_for finished (policy_event (submit event)) context)) _ _
        (λ met. finish) (λ unmet. tt)
    where
      finished : Task
      finished = with_artifacts task (or_else event.artifacts [])

      finish : Ensures (IsSound task) (finish_direct finished event context)
      finish = elim (Option-cases (checker_for finished context)) [
        | inl e ↦
            rw (e, finish_direct)
              (apply_transition-IsSound task finished done _ context _ _ (produced _))
        | inr (pending, e) ↦
            rw (e, finish_direct)
              (apply_transition-IsSound task _ in_review _ context _ _ (
                reviewed_by task finished (produced _) task.assignee_id task.stage
                  (pending.reviewer_id ∷ [])))
      ]

  pub handle_direct-IsSound :
      (event : PolicyEvent) → Ensures (IsSound task) (handle_direct task event context)
  unfolding handle_direct
  handle_direct-IsSound (submit event) = submit_direct-IsSound event
  handle_direct-IsSound (approve event) =
      Ensures-if (IsSound task) (is_asked task) _ _
        (λ e. approve_review-IsSound task task _ context here) (λ e. tt)
  handle_direct-IsSound (request_changes actor_id reason) =
      Ensures-if (IsSound task) (is_asked task) _ _
        (λ e. request_changes-IsSound task task _ context here reason check_rounds) (λ e. tt)
  handle_direct-IsSound (check_reported report actor_id) = tt
  handle_direct-IsSound (gate_decided decided) = tt

  to_supervisor-IsSound :
      (event : Submit)
      → Ensures (IsSound task) (
          supervisor_choice task context
          >>= (λ choice. submit_for_review task event context choice))
  to_supervisor-IsSound event =
      Ensures-bind (IsSound task) (supervisor_choice task context) _
        (λ choice e. submit_for_review-IsSound task task event context choice here)

  pub handle_manager-IsSound :
      (event : PolicyEvent) → Ensures (IsSound task) (handle_manager task event context)
  unfolding handle_manager
  handle_manager-IsSound (submit event) = to_supervisor-IsSound event
  handle_manager-IsSound (approve event) = approve_review-IsSound task task _ context here
  handle_manager-IsSound (request_changes actor_id reason) =
      request_changes-IsSound task task _ context here reason none
  handle_manager-IsSound (check_reported report actor_id) = unfold reject_policy_event in tt
  handle_manager-IsSound (gate_decided decided) = unfold reject_policy_event in tt

  submit_to_peer-IsSound :
      (event : Submit) → Ensures (IsSound task) (submit_to_peer task event context)
  unfolding submit_to_peer
  submit_to_peer-IsSound event =
      elim (Option-cases
        (select_peer_reviewer (or_else context.peers []) (selection_for task context))) [
          | inl e ↦ rw (e, submit_to_peer) (to_supervisor-IsSound event)
          | inr (chosen, e) ↦
              rw (e, submit_to_peer) (submit_for_review-IsSound task task event context _ here)
        ]

  pub handle_peer-IsSound :
      (event : PolicyEvent) → Ensures (IsSound task) (handle_peer task event context)
  unfolding handle_peer
  handle_peer-IsSound (submit event) = submit_to_peer-IsSound event
  handle_peer-IsSound (approve event) = approve_review-IsSound task task _ context here
  handle_peer-IsSound (request_changes actor_id reason) =
      request_changes-IsSound task task _ context here reason none
  handle_peer-IsSound (check_reported report actor_id) = unfold reject_policy_event in tt
  handle_peer-IsSound (gate_decided decided) = unfold reject_policy_event in tt

  tallied-IsStaged : (t : Task) → IsSoundTask task t → IsStaged task t
  tallied-IsStaged t h = record { step = h.0; recorded = h.1.recorded }

  on_tally-IsSound :
      (required : ℕ) (event : Approve) (t : ApprovalTally)
      → IsSoundTask task (tallied t)
      → Ensures (IsSound task) (on_tally required event context t)
  on_tally-IsSound required event (gathering t n) h = record { step = h.0; well_formed = h.1 }
  on_tally-IsSound required event (reached t) h =
      approve_review-IsSound task t _ context (tallied-IsStaged t h)

  pub handle_quorum-IsSound :
      (event : PolicyEvent) → Ensures (IsSound task) (handle_quorum task event context)
  unfolding handle_quorum form_committee form_committee_of gather_approval
  handle_quorum-IsSound (submit event) =
      Ensures-bind (IsSound task) (required_approvals context.policy) _ λ required e.
        Ensures-if (IsSound task)
          (ltb (length (rank_peers (or_else context.peers []) (selection_for task context)))
            required)
          _ _ (λ few. tt) (λ enough. submit_for_review-IsSound task task event context _ here)
  handle_quorum-IsSound (approve event) =
      Ensures-bind (IsSound task) (required_approvals context.policy) _ λ required e.
        Ensures-then (λ t. IsSoundTask task (tallied t)) (IsSound task) _ _
          (tally_approval-IsSoundTask task event required w) (on_tally-IsSound required event)
  handle_quorum-IsSound (request_changes actor_id reason) =
      request_changes-IsSound task task _ context here reason none
  handle_quorum-IsSound (check_reported report actor_id) = unfold reject_policy_event in tt
  handle_quorum-IsSound (gate_decided decided) = unfold reject_policy_event in tt
