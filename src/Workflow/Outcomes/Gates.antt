-- ===== src/Workflow/Outcomes/Gates.antt =====
-- What a gate holds, and who lets it go.
use virtual_office.Prelude.{
  ◌≡◌, ◌≢◌, ◌⊎◌, refl, false, List, [], ◌∷◌, some, Text, trim, is_empty, inl, inr,
}
use virtual_office.Core.Result.{Ensures, Ensures-if, Ensures-bind, Ensures-imp, Ensures-any}
use virtual_office.Core.Gates.{GatedAction}
use virtual_office.Task.Status.{done, in_review, in_progress, changes_requested, status_beq}
use virtual_office.Task.Model.{Task}
use virtual_office.Workflow.Types.{
  WorkflowContext, PolicyEvent, policy_event, submit, approve, request_changes, check_reported,
  gate_decided, Submit, GateDecided, GateDecision, WorkflowOutcome, apply_transition,
}
use virtual_office.Workflow.Review.{outstanding_for, reject_policy_event}
use virtual_office.Workflow.Policy.Gate.{
  handle_gate, handle_gated, submit_through_gate, hold_or_finish, apply_decision, on_decision,
  decline_gate, gates_awaiting, gated_categories,
}
use virtual_office.Workflow.Outcomes.Accepted.{IsOpen, apply_transition-IsOpen}

-- A decision to approve, by somebody named.
abbrev pub IsOwnerApproval : PolicyEvent → Type 0
IsOwnerApproval (gate_decided d) =
    (d.decision ≡ GateDecision.approved) × (is_empty (trim d.decided_by) ≡ false)
IsOwnerApproval _ = ⊥

hold-IsOpen :
    (gates : List GatedAction) (staged : Task) (event : Submit) (context : WorkflowContext)
    → gates ≢ []
    → Ensures IsOpen (hold_or_finish gates staged event context)
unfolding hold_or_finish
hold-IsOpen [] staged event context n = absurd (n refl)
hold-IsOpen (g ∷ gs) staged event context n =
    apply_transition-IsOpen staged in_review _ context _ _ (λ q. cc)

-- A decision either approves or leaves the work unfinished.
decision-cases :
    (decision : GateDecision) (task : Task) (event : GateDecided) (context : WorkflowContext)
    (decided_by reason : Text)
    → Ensures
        (λ o. IsOpen o ⊎ (decision ≡ GateDecision.approved))
        (on_decision decision task (gate_decided event) context decided_by reason)
unfolding on_decision decline_gate
decision-cases GateDecision.approved task event context decided_by reason =
    Ensures-any _ _ (λ o. inr refl)
decision-cases GateDecision.rejected task event context decided_by reason =
    Ensures-if Q (is_empty reason) _ _ (λ e. tt)
      λ e.
        Ensures-bind Q
          (apply_transition task changes_requested (policy_event (gate_decided event)) context []
            (some reason))
          _
          λ declined r.
            Ensures-imp IsOpen Q _ (λ o n. inl n)
              (apply_transition-IsOpen declined.task in_progress _ context _ _ (λ q. cc))
  where
    Q : WorkflowOutcome → Type 0
    Q o = IsOpen o ⊎ (GateDecision.rejected ≡ GateDecision.approved)

gated-cases :
    (task : Task) (event : PolicyEvent) (context : WorkflowContext)
    → gates_awaiting task.gated_actions context.policy ≢ []
    → Ensures (λ o. IsOpen o ⊎ IsOwnerApproval event) (handle_gated task event context)
unfolding handle_gated submit_through_gate apply_decision reject_policy_event
gated-cases task (submit event) context held =
    Ensures-if _ (is_empty (outstanding_for task (policy_event (submit event)) context)) _ _
      (λ m.
        Ensures-imp IsOpen _ _ (λ o n. inl n)
          (hold-IsOpen (gates_awaiting task.gated_actions context.policy) _ event context held))
      (λ m. tt)
gated-cases task (gate_decided decided) context held =
    Ensures-if _ (is_empty (trim decided.decided_by)) _ _ (λ e. tt)
      λ named.
        Ensures-if _ (status_beq task.status in_review) _ _
          (λ r.
            Ensures-imp _ _ _ (by_owner named)
              (decision-cases decided.decision task decided context (trim decided.decided_by) _))
          (λ r. tt)
  where
    by_owner :
        is_empty (trim decided.decided_by) ≡ false
        → (o : WorkflowOutcome) → IsOpen o ⊎ (decided.decision ≡ GateDecision.approved)
        → IsOpen o ⊎ IsOwnerApproval (gate_decided decided)
    by_owner named o (inl n) = inl n
    by_owner named o (inr a) = inr (a, named)
gated-cases task (approve event) context held = tt
gated-cases task (request_changes actor_id reason) context held = tt
gated-cases task (check_reported report actor_id) context held = tt

-- Where the policy holds some category that the work involves, no event finishes the work but
-- a decision to approve that says who made it: nothing submitted, approved or checked does.
pub gate_needs_decision :
    (task : Task) (event : PolicyEvent) (context : WorkflowContext)
    → gates_awaiting task.gated_actions context.policy ≢ []
    → Ensures (λ o. (o.task.status ≢ done) ⊎ IsOwnerApproval event) (handle_gate task event context)
unfolding handle_gate
gate_needs_decision task event context held =
    Ensures-bind (Q event) (gated_categories context.policy) _ (λ categories e. gated event)
  where
    Q : PolicyEvent → WorkflowOutcome → Type 0
    Q e o = (o.task.status ≢ done) ⊎ IsOwnerApproval e

    gated : (e : PolicyEvent) → Ensures (Q e) (handle_gated task e context)
    gated e = gated-cases task e context held
