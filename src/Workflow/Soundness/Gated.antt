-- ===== src/Workflow/Soundness/Gated.antt =====
-- The record of a task under the pipeline, automated and gate policies.
use virtual_office.Prelude.{
  refl, List, [], ◌∷◌, Option, none, some, Text, str_eq, text_eq, trim, is_empty, or_else,
  Option-cases, inl, inr,
}
use virtual_office.Core.Result.{Ensures, Ensures-then, Ensures-if, Ensures-bind}
use virtual_office.Core.Gates.{GatedAction}
use virtual_office.Core.Policy.{ReviewStage}
use virtual_office.Task.Status.{
  changes_requested, in_progress, in_review, approved, done, assigned, status_beq,
}
use virtual_office.Task.Model.{Task}
use virtual_office.Task.Machine.History.{IsWellFormed}
use virtual_office.Workflow.Types.{
  WorkflowContext, PolicyEvent, policy_event, submit, approve, request_changes, check_reported,
  gate_decided, Submit, Approve, GateDecision, CheckOutcome, passed, failed, errored,
}
use virtual_office.Workflow.Review.{
  outstanding_for, ApprovalTally, gathering, reached, reject_policy_event,
}
use virtual_office.Workflow.Policy.Pipeline.{
  handle_pipeline, handle_stage, enter_stage, sign_off_stage, leave_stage, on_stage_tally,
  StagePosition, worker_or, locate, pipeline_stages,
}
use virtual_office.Workflow.Policy.Automated.{
  handle_automated, handle_checked, queue_check, decide_check, on_outcome, configured_check,
  summarize,
}
use virtual_office.Workflow.Policy.Gate.{
  handle_gate, handle_gated, submit_through_gate, hold_or_finish, apply_decision, on_decision,
  decline_gate, gated_categories, gates_awaiting,
}
use virtual_office.Workflow.Soundness.Moves.{
  IsStaged, IsSound, IsSoundTask, IsStaged_refl, IsSound-IsStaged, Grows-refl,
  apply_transition-IsSound, restaged, reviewed_by,
}
use virtual_office.Workflow.Soundness.Reviews.{
  escalate_task-IsSound, request_changes-IsSound, approve_to_done-IsSound, approve_review-IsSound,
  submit_for_review-IsSound, tally_approval-IsSoundTask, tallied,
}

module _ (task : Task) (context : WorkflowContext) (w : IsWellFormed task) where
  abbrev here : IsStaged task task
  here = IsStaged_refl task w.recorded

  -- With another holder and stage.
  held_by :
      (assignee_id stage : Option Text)
      → IsStaged task (record task { assignee_id = assignee_id; stage = stage })
  held_by assignee_id stage = record {
    step = record {
      kept = refl;
      history_grows = Grows-refl task.history;
      artifacts_grow = Grows-refl task.artifacts;
      signatures_grow = Grows-refl task.checked_by;
    };
    recorded = record {
      walk = w.recorded.walk;
      approvals_distinct = w.recorded.approvals_distinct;
      approvals_within = w.recorded.approvals_within;
    };
  }

  enter_stage-IsSound :
      (event : Submit) (stage : ReviewStage)
      → Ensures (IsSound task) (enter_stage task event context stage)
  unfolding enter_stage
  enter_stage-IsSound event stage =
      Ensures-if (IsSound task) (is_empty stage.reviewer_ids) _ _
        (λ e.
          Ensures-bind (IsSound task) _ _
            (λ choice q. submit_for_review-IsSound task _ event context choice entered))
        (λ e. submit_for_review-IsSound task _ event context _ entered)
    where
      entered : IsStaged task (record task {
        stage = some stage.name;
        assignee_id = worker_or stage.worker_id task.assignee_id;
      })
      entered = held_by (worker_or stage.worker_id task.assignee_id) (some stage.name)

  leave_stage-IsSound :
      (event : Approve) (position : StagePosition) (t : Task)
      → IsStaged task t
      → Ensures (IsSound task) (leave_stage t event context position)
  unfolding leave_stage
  leave_stage-IsSound event position t s = elim (Option-cases position.next) [
    | inl e ↦
        rw (e, leave_stage)
          (apply_transition-IsSound task t done (policy_event (approve event)) context _ _ s)
    | inr (next, e) ↦
        rw (e, leave_stage)
          (apply_transition-IsSound task _ assigned (policy_event (approve event)) context _ _
            (reviewed_by task t s (worker_or next.worker_id t.assignee_id) (some next.name) []))
  ]

  on_stage_tally-IsSound :
      (event : Approve) (position : StagePosition) (t : ApprovalTally)
      → IsSoundTask task (tallied t)
      → Ensures (IsSound task) (on_stage_tally event context position t)
  on_stage_tally-IsSound event position (gathering t n) h = record { step = h.0; well_formed = h.1 }
  on_stage_tally-IsSound event position (reached t) h =
      Ensures-then (IsSound task) (IsSound task) _ _
        (apply_transition-IsSound task t approved (policy_event (approve event)) context _ _
          (record { step = h.0; recorded = h.1.recorded }))
        λ here o. leave_stage-IsSound event position here.task (IsSound-IsStaged task here o)

  handle_stage-IsSound :
      (event : PolicyEvent) (position : StagePosition)
      → Ensures (IsSound task) (handle_stage task event context position)
  unfolding handle_stage sign_off_stage
  handle_stage-IsSound (submit event) position = enter_stage-IsSound event position.stage
  handle_stage-IsSound (approve event) position =
      Ensures-then (λ t. IsSoundTask task (tallied t)) (IsSound task) _ _
        (tally_approval-IsSoundTask task event position.stage.required w)
        (on_stage_tally-IsSound event position)
  handle_stage-IsSound (request_changes actor_id reason) position =
      request_changes-IsSound task _ _ context
        (held_by (worker_or position.stage.worker_id task.assignee_id) task.stage) reason none
  handle_stage-IsSound (check_reported report actor_id) position = unfold reject_policy_event in tt
  handle_stage-IsSound (gate_decided decided) position = unfold reject_policy_event in tt

  pub handle_pipeline-IsSound :
      (event : PolicyEvent) → Ensures (IsSound task) (handle_pipeline task event context)
  unfolding handle_pipeline
  handle_pipeline-IsSound event =
      Ensures-bind (IsSound task) (pipeline_stages context.policy) _ λ stages e.
        Ensures-bind (IsSound task) (locate task.stage stages) _
          λ position q. handle_stage-IsSound event position

  on_outcome-IsSound :
      (outcome : CheckOutcome) (event : PolicyEvent) (check_id summary : Text)
      → Ensures (IsSound task) (on_outcome outcome task event context check_id summary)
  on_outcome-IsSound passed event check_id summary = approve_review-IsSound task task _ context here
  on_outcome-IsSound failed event check_id summary =
      request_changes-IsSound task task _ context here _ none
  on_outcome-IsSound errored event check_id summary =
      escalate_task-IsSound task task _ context here _

  handle_checked-IsSound :
      (event : PolicyEvent) (check_id : Text)
      → Ensures (IsSound task) (handle_checked task event context check_id)
  unfolding handle_checked queue_check decide_check
  handle_checked-IsSound (submit event) check_id =
      apply_transition-IsSound task _ in_review _ context _ _
        (restaged task task here task.assignee_id task.stage [] (or_else event.artifacts []))
  handle_checked-IsSound (check_reported report actor_id) check_id =
      Ensures-if (IsSound task) (str_eq report.check_id check_id) _ _
        (λ e.
          Ensures-if (IsSound task) (status_beq task.status in_review) _ _
            (λ q. on_outcome-IsSound report.outcome _ check_id (summarize report.output)) (λ q. tt))
        (λ e. tt)
  handle_checked-IsSound (gate_decided decided) check_id = unfold reject_policy_event in tt
  handle_checked-IsSound (approve event) check_id = tt
  handle_checked-IsSound (request_changes actor_id reason) check_id = tt

  pub handle_automated-IsSound :
      (event : PolicyEvent) → Ensures (IsSound task) (handle_automated task event context)
  unfolding handle_automated
  handle_automated-IsSound event =
      Ensures-bind (IsSound task) (configured_check context.policy) _
        λ check_id e. handle_checked-IsSound event check_id

  hold_or_finish-IsSound :
      (gates : List GatedAction) (t : Task) (event : Submit)
      → IsStaged task t
      → Ensures (IsSound task) (hold_or_finish gates t event context)
  unfolding hold_or_finish
  hold_or_finish-IsSound [] t event s = apply_transition-IsSound task t done _ context _ _ s
  hold_or_finish-IsSound (g ∷ gs) t event s =
      apply_transition-IsSound task t in_review _ context _ _ s

  on_decision-IsSound :
      (decision : GateDecision) (event : PolicyEvent) (decided_by reason : Text)
      → Ensures (IsSound task) (on_decision decision task event context decided_by reason)
  unfolding on_decision decline_gate
  on_decision-IsSound GateDecision.approved event decided_by reason =
      approve_to_done-IsSound task task _ context here _ _
  on_decision-IsSound GateDecision.rejected event decided_by reason =
      Ensures-if (IsSound task) (is_empty reason) _ _ (λ e. tt)
        λ e.
          Ensures-then (IsSound task) (IsSound task) _ _
            (apply_transition-IsSound task task changes_requested _ context _ _ here)
            λ declined h.
              apply_transition-IsSound task declined.task in_progress _ context _ _
                (IsSound-IsStaged task declined h)

  handle_gated-IsSound :
      (event : PolicyEvent) → Ensures (IsSound task) (handle_gated task event context)
  unfolding handle_gated submit_through_gate apply_decision
  handle_gated-IsSound (submit event) =
      Ensures-if (IsSound task)
        (is_empty (outstanding_for task (policy_event (submit event)) context)) _ _
        (λ met.
          hold_or_finish-IsSound (gates_awaiting task.gated_actions context.policy) _ event
            (restaged task task here task.assignee_id task.stage [] (or_else event.artifacts [])))
        (λ unmet. tt)
  handle_gated-IsSound (gate_decided decided) =
      Ensures-if (IsSound task) (is_empty (trim decided.decided_by)) _ _ (λ e. tt)
        λ e.
          Ensures-if (IsSound task) (status_beq task.status in_review) _ _
            (λ q. on_decision-IsSound decided.decision _ _ _) (λ q. tt)
  handle_gated-IsSound (approve event) = tt
  handle_gated-IsSound (request_changes actor_id reason) = tt
  handle_gated-IsSound (check_reported report actor_id) = unfold reject_policy_event in tt

  pub handle_gate-IsSound :
      (event : PolicyEvent) → Ensures (IsSound task) (handle_gate task event context)
  unfolding handle_gate
  handle_gate-IsSound event =
      Ensures-bind (IsSound task) (gated_categories context.policy) _
        λ gates e. handle_gated-IsSound event
