-- ===== src/Workflow/Outcomes/Finished.antt =====
-- Events on work that is done or cancelled, under each policy and in the engine.
use virtual_office.Prelude.{
  ◌≡◌, refl, true, false, List, [], ◌∷◌, Option, none, some, Text, str_eq, All, trim, is_empty,
  Option-cases, inl, inr,
}
use virtual_office.Core.Result.{Result, ok, err, Ensures-if, Ensures-bind, is_ok}
use virtual_office.Core.Gates.{GatedAction}
use virtual_office.Core.Policy.{policy_kind}
use virtual_office.Task.Status.{
  done, cancelled, in_progress, in_review, blocked, transferred, is_terminal, status_beq,
}
use virtual_office.Task.Model.{Task}
use virtual_office.Workflow.Types.{
  WorkflowContext, WorkflowEvent, start, reassign, block, unblock, cancel, await_decision,
  call_decided, policy_event, PolicyEvent, submit, approve, request_changes, check_reported,
  gate_decided, Submit, WorkflowOutcome, PolicyHandler,
}
use virtual_office.Workflow.Peers.{is_same}
use virtual_office.Workflow.Review.{outstanding_for, reject_policy_event}
use virtual_office.Workflow.Policy.Pipeline.{
  StagePosition, worker_or, handle_pipeline, handle_stage, enter_stage, sign_off_stage, locate,
  pipeline_stages,
}
use virtual_office.Workflow.Policy.Automated.{
  handle_automated, handle_checked, queue_check, decide_check, configured_check,
}
use virtual_office.Workflow.Policy.Gate.{
  handle_gate, handle_gated, submit_through_gate, hold_or_finish, apply_decision, gated_categories,
  gates_awaiting,
}
use virtual_office.Workflow.Engine.{
  handler_for, decide, decide_by_policy, reassign_task, reassigned, await_task, decide_call,
  unblock_task, handle, default_handlers,
}
use virtual_office.Workflow.Soundness.Events.{handler_for-All}
use virtual_office.Workflow.Outcomes.Moves.{apply_transition-refused}
use virtual_office.Workflow.Outcomes.Refused.{
  IsRefused, then-IsRefused, terminal_other, request_changes-IsRefused, tally-IsRefused,
  direct-IsRefused, manager-IsRefused, peer-IsRefused, quorum-IsRefused, submit-IsRefused,
  to_supervisor-IsRefused,
}

module _ (task : Task) (context : WorkflowContext) (h : is_terminal task.status ≡ true) where
  stage-IsRefused :
      (event : PolicyEvent) (position : StagePosition)
      → IsRefused (handle_stage task event context position)
  unfolding handle_stage enter_stage sign_off_stage reject_policy_event
  stage-IsRefused (submit event) position =
      Ensures-if (λ _. ⊥) (is_empty position.stage.reviewer_ids) _ _
        (λ e. to_supervisor-IsRefused staged context h event)
        (λ e. submit-IsRefused staged context h event _)
    where
      staged : Task
      staged = record task {
        stage = some position.stage.name;
        assignee_id = worker_or position.stage.worker_id task.assignee_id;
      }
  stage-IsRefused (approve event) position =
      then-IsRefused _ _ (tally-IsRefused task context h event position.stage.required)
  stage-IsRefused (request_changes actor_id reason) position =
      request_changes-IsRefused _ context _ reason none h
  stage-IsRefused (check_reported report actor_id) position = tt
  stage-IsRefused (gate_decided decided) position = tt

  pipeline-IsRefused : (event : PolicyEvent) → IsRefused (handle_pipeline task event context)
  unfolding handle_pipeline
  pipeline-IsRefused event =
      Ensures-bind (λ _. ⊥) (pipeline_stages context.policy) _
        λ stages e.
          Ensures-bind (λ _. ⊥) (locate task.stage stages) _
            λ position q. stage-IsRefused event position

  not_in_review : status_beq task.status in_review ≡ true → ⊥
  not_in_review = terminal_other task.status in_review h (unfold is_terminal status_beq in refl)

  automated-IsRefused : (event : PolicyEvent) → IsRefused (handle_automated task event context)
  unfolding handle_automated handle_checked queue_check decide_check reject_policy_event
  automated-IsRefused (submit event) =
      Ensures-bind (λ _. ⊥) (configured_check context.policy) _
        (λ check_id e. apply_transition-refused _ in_review _ context _ _ h)
  automated-IsRefused (check_reported report actor_id) =
      Ensures-bind (λ _. ⊥) (configured_check context.policy) _
        λ check_id e.
          Ensures-if (λ _. ⊥) (str_eq report.check_id check_id) _ _
            (λ q.
              Ensures-if (λ _. ⊥) (status_beq task.status in_review) _ _
                (λ r. absurd (not_in_review r)) (λ r. tt))
            (λ q. tt)
  automated-IsRefused (gate_decided decided) =
      Ensures-bind (λ _. ⊥) (configured_check context.policy) _ (λ check_id e. tt)
  automated-IsRefused (approve event) =
      Ensures-bind (λ _. ⊥) (configured_check context.policy) _ (λ check_id e. tt)
  automated-IsRefused (request_changes actor_id reason) =
      Ensures-bind (λ _. ⊥) (configured_check context.policy) _ (λ check_id e. tt)

  hold_or_finish-IsRefused :
      (gates : List GatedAction) (staged : Task) (event : Submit)
      → is_terminal staged.status ≡ true
      → IsRefused (hold_or_finish gates staged event context)
  unfolding hold_or_finish
  hold_or_finish-IsRefused [] staged event k = apply_transition-refused staged done _ context _ _ k
  hold_or_finish-IsRefused (g ∷ gs) staged event k =
      apply_transition-refused staged in_review _ context _ _ k

  gated-IsRefused : (event : PolicyEvent) → IsRefused (handle_gated task event context)
  unfolding handle_gated submit_through_gate apply_decision reject_policy_event
  gated-IsRefused (submit event) =
      Ensures-if (λ _. ⊥) (is_empty (outstanding_for task (policy_event (submit event)) context)) _
        _
        (λ m. hold_or_finish-IsRefused (gates_awaiting task.gated_actions context.policy) _ event h)
        (λ m. tt)
  gated-IsRefused (gate_decided decided) =
      Ensures-if (λ _. ⊥) (is_empty (trim decided.decided_by)) _ _ (λ e. tt)
        λ e.
          Ensures-if (λ _. ⊥) (status_beq task.status in_review) _ _ (λ r. absurd (not_in_review r))
            (λ r. tt)
  gated-IsRefused (approve event) = tt
  gated-IsRefused (request_changes actor_id reason) = tt
  gated-IsRefused (check_reported report actor_id) = tt

  gate-IsRefused : (event : PolicyEvent) → IsRefused (handle_gate task event context)
  unfolding handle_gate
  gate-IsRefused event =
      Ensures-bind (λ _. ⊥) (gated_categories context.policy) _ (λ gates e. gated-IsRefused event)

  abbrev Refuses : PolicyEvent → PolicyHandler → Type 0
  Refuses event handler = IsRefused (handler.handle task event context)

  default_handlers-Refuses : (event : PolicyEvent) → All (Refuses event) default_handlers
  unfolding default_handlers
  default_handlers-Refuses e = (
    direct-IsRefused task context h e,
    (
      manager-IsRefused task context h e,
      (
        peer-IsRefused task context h e,
        (
          quorum-IsRefused task context h e,
          (pipeline-IsRefused e, (automated-IsRefused e, (gate-IsRefused e, tt))),
        ),
      ),
    ),
  )

  by_policy-IsRefused :
      (event : PolicyEvent) → IsRefused (decide_by_policy default_handlers task event context)
  unfolding decide_by_policy
  by_policy-IsRefused event =
      elim (Option-cases (handler_for default_handlers (policy_kind context.policy))) [
        | inl e ↦ rw (e, decide_by_policy) tt
        | inr (handler, e) ↦
            rw (e, decide_by_policy)
              (handler_for-All (Refuses event) default_handlers (policy_kind context.policy) handler
                (default_handlers-Refuses event) e)
      ]

  unblock-IsRefused :
      (holder : Option Text) (event : WorkflowEvent)
      → IsRefused (unblock_task holder task event context)
  unfolding unblock_task
  unblock-IsRefused none event = tt
  unblock-IsRefused (some e) event = apply_transition-refused task in_progress _ context _ _ h

  decide-IsRefused :
      (event : WorkflowEvent) → IsRefused (decide default_handlers task event context)
  unfolding decide reassign_task reassigned await_task decide_call
  decide-IsRefused (start actor_id) = apply_transition-refused task in_progress _ context _ _ h
  decide-IsRefused (block reason actor_id) = apply_transition-refused task blocked _ context _ _ h
  decide-IsRefused (unblock actor_id) = unblock-IsRefused task.assignee_id _
  decide-IsRefused (cancel reason actor_id) =
      apply_transition-refused task cancelled _ context _ _ h
  decide-IsRefused (reassign to reason actor_id) =
      Ensures-if (λ _. ⊥) (is_empty (trim to)) _ _ (λ e. tt)
        λ e.
          Ensures-if (λ _. ⊥) (is_same (trim to) task.assignee_id) _ _ (λ q. tt)
            (λ q. then-IsRefused _ _ (apply_transition-refused task transferred _ context _ _ h))
  decide-IsRefused (await_decision actor_id summary items) =
      Ensures-if (λ _. ⊥) (is_empty items) _ _ (λ e. tt)
        (λ e. apply_transition-refused task blocked _ context _ _ h)
  decide-IsRefused (call_decided key decision decided_by reason) =
      Ensures-if (λ _. ⊥) (is_empty (trim decided_by)) _ _ (λ e. tt)
        λ e.
          Ensures-if (λ _. ⊥) (is_empty (trim key)) _ _ (λ q. tt)
            λ q.
              Ensures-if (λ _. ⊥) (status_beq task.status blocked) _ _
                (λ r. apply_transition-refused task in_progress _ context _ _ h) (λ r. tt)
  decide-IsRefused (policy_event event) = by_policy-IsRefused event

-- Whatever the event, the policy and the context, the engine refuses work that is done or
-- cancelled: there is an error and no outcome, so nothing is moved and nothing is raised.
pub handle_terminal :
    (task : Task) (event : WorkflowEvent) (context : WorkflowContext)
    → is_terminal task.status ≡ true
    → is_ok (handle default_handlers task event context) ≡ false
unfolding handle
handle_terminal task event context h =
    refused (handle default_handlers task event context)
      (then-IsRefused _ _ (decide-IsRefused task context h event))
  where
    refused : (r : Result WorkflowOutcome) → IsRefused r → is_ok r ≡ false
    refused (ok o) e = absurd e
    refused (err e) u = refl
