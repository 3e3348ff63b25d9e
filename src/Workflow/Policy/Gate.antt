-- ===== src/Workflow/Policy/Gate.antt =====
-- packages/orchestrator/src/workflow/gate-policy.ts, and `gatesAwaiting` of awaiting.ts: the
-- categories of action that wait for a person.
use virtual_office.Prelude.{
  List, [], ◌∷◌, ◌++◌, map, none, some, Text, text, text_eq, trim, join, filter, includes, is_empty,
  or_else, if◌then◌else◌,
}
use virtual_office.Core.Result.{Result, ok, ◌>>=◌}
use virtual_office.Core.Gates.{GatedAction, gate_eq, gate_text}
use virtual_office.Core.Policy.{ReviewPolicy, gate, policy_kind}
use virtual_office.Task.Status.{
  in_progress, in_review, changes_requested, done, status_beq, status_text,
}
use virtual_office.Task.Model.{Task}
use virtual_office.Workflow.Types.{
  WorkflowContext, PolicyEvent, policy_event, submit, approve, request_changes, check_reported,
  gate_decided, Submit, GateDecided, GateDecision, WorkflowOutcome, notify, request_approval, owner,
  assignee, workflow_error, apply_transition,
}
use virtual_office.Workflow.Review.{
  outstanding_for, not_done_yet, reject_policy_event, staged_for, approve_to_done, quoted,
}

unfoldable pub gates_awaiting : List GatedAction → ReviewPolicy → List GatedAction
gates_awaiting involved (gate gates) = filter (λ g. includes involved g) gates
gates_awaiting involved _ = []

unfoldable pub gated_categories : ReviewPolicy → Result (List GatedAction)
gated_categories (gate gates) = ok gates
gated_categories policy =
    workflow_error (text "policy")
      (text "a human gate needs the categories it gates; got \"" ++ policy_kind policy ++ text "\"")

-- Held in review when something is gated, and done otherwise.
unfoldable pub hold_or_finish :
    List GatedAction → Task → Submit → WorkflowContext → Result WorkflowOutcome
hold_or_finish [] staged event context =
    apply_transition staged done (policy_event (submit event)) context [] none
hold_or_finish (g ∷ gs) staged event context =
    let listed = join (text ", ") (map gate_text (g ∷ gs)) in
    apply_transition staged in_review (policy_event (submit event)) context
      (request_approval (g ∷ gs) (
          text "task "
          ++ quoted staged.title
          ++ text " involves "
          ++ listed
          ++ text " and needs an owner decision")
        ∷ notify owner (
            text "task " ++ quoted staged.title ++ text " is waiting for your approval: " ++ listed)
        ∷ [])
      none

unfoldable pub submit_through_gate : Task → Submit → WorkflowContext → Result WorkflowOutcome
submit_through_gate task event context =
    let outstanding = outstanding_for task (policy_event (submit event)) context in
    if is_empty outstanding
    then hold_or_finish (gates_awaiting task.gated_actions context.policy)
        (staged_for task [] (or_else event.artifacts [])) event context
    else workflow_error (text "met") (not_done_yet outstanding)

unfoldable pub decline_gate :
    Task → PolicyEvent → WorkflowContext → Text → Text → Result WorkflowOutcome
decline_gate task event context decided_by reason =
    apply_transition task changes_requested (policy_event event) context [] (some reason)
    >>= (λ declined.
        apply_transition declined.task in_progress (policy_event event) context
          (notify assignee
              (decided_by ++ text " declined " ++ quoted task.title ++ text ": " ++ reason)
            ∷ [])
          none)

unfoldable pub on_decision :
    GateDecision → Task → PolicyEvent → WorkflowContext → Text → Text → Result WorkflowOutcome
on_decision GateDecision.approved task event context decided_by reason =
    approve_to_done task (policy_event event) context
      (notify assignee (text "task " ++ quoted task.title ++ text " was approved by " ++ decided_by)
        ∷ [])
      (some (text "gate approved by " ++ decided_by))
on_decision GateDecision.rejected task event context decided_by reason =
    if is_empty reason
    then workflow_error (text "reason")
        (text "a declined gate needs a reason the assignee can act on")
    else decline_gate task event context decided_by reason

unfoldable pub apply_decision : Task → GateDecided → WorkflowContext → Result WorkflowOutcome
apply_decision task event context =
    let decided_by = trim event.decided_by in
    if is_empty decided_by
    then workflow_error (text "decidedBy") (text "a gate decision has to say who made it")
    else (if status_beq task.status in_review
        then on_decision event.decision task (gate_decided event) context decided_by
            (trim (or_else event.reason []))
        else workflow_error (text "status") (
            text "only work that is in review is waiting for a gate decision; this task is \""
            ++ status_text task.status
            ++ text "\""))

not_by_agents : Result WorkflowOutcome
not_by_agents =
    workflow_error (text "event")
      (text "a gated task waits for a human owner decision, not an agent review")

unfoldable pub handle_gated : Task → PolicyEvent → WorkflowContext → Result WorkflowOutcome
unfolding not_by_agents
handle_gated task (submit event) context = submit_through_gate task event context
handle_gated task (gate_decided decided) context = apply_decision task decided context
handle_gated task (approve event) context = not_by_agents
handle_gated task (request_changes actor_id reason) context = not_by_agents
handle_gated task (check_reported report actor_id) context =
    reject_policy_event (text "gate") (check_reported report actor_id)

unfoldable pub handle_gate : Task → PolicyEvent → WorkflowContext → Result WorkflowOutcome
handle_gate task event context =
    gated_categories context.policy >>= (λ gates. handle_gated task event context)
