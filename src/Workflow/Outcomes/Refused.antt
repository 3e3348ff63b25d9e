-- ===== src/Workflow/Outcomes/Refused.antt =====
-- Review of work that is done or cancelled, under the direct, manager, peer and quorum policies.
use virtual_office.Prelude.{
  ℕ, ◌+◌, ◌≡◌, refl, sym, ap, ◌∙◌, true, false, [], Option, none, some, Text, trim, is_empty, ltb,
  or_else, length, Option-cases, inl, inr,
}
use virtual_office.Core.Result.{Result, ◌>>=◌, Ensures, Ensures-then, Ensures-if, Ensures-bind}
use virtual_office.Core.Policy.{max_iterations}
use virtual_office.Task.Status.{
  TaskStatus, done, in_review, changes_requested, approved, escalated, is_terminal, status_beq,
  status_beq_iff,
}
use virtual_office.Task.Model.{Task}
use virtual_office.Workflow.Types.{
  WorkflowContext, WorkflowEvent, policy_event, PolicyEvent, submit, approve, request_changes,
  check_reported, gate_decided, Submit, Approve,
}
use virtual_office.Workflow.Checker.{checker_for}
use virtual_office.Workflow.Escalation.{escalate_task}
use virtual_office.Workflow.Peers.{rank_peers, select_peer_reviewer}
use virtual_office.Workflow.Review.{
  may_review, tally_approval, request_changes_or_escalate, approve_review, approve_signed,
  approve_then_check, approve_to_done, send_back, send_back_within, submit_for_review, capped,
  cap_or, outstanding_for, review_rounds, reject_policy_event, supervisor_choice, ReviewerChoice,
}
use virtual_office.Workflow.Policy.Direct.{
  handle_direct, submit_direct, finish_direct, is_asked, check_rounds, with_artifacts,
}
use virtual_office.Workflow.Policy.Manager.{handle_manager}
use virtual_office.Workflow.Policy.Peer.{handle_peer, submit_to_peer, selection_for}
use virtual_office.Workflow.Policy.Quorum.{
  handle_quorum, form_committee, form_committee_of, gather_approval, required_approvals,
}
use virtual_office.Workflow.Outcomes.Moves.{apply_transition-refused}

abbrev pub IsRefused : {A : Type 0} → Result A → Type 0
IsRefused r = Ensures (λ _. ⊥) r

pub then-IsRefused :
    {A : Type 0} {B : Type 0} (m : Result A) (f : A → Result B) → IsRefused m → IsRefused (m >>= f)
then-IsRefused m f h = Ensures-then (λ _. ⊥) (λ _. ⊥) m f h (λ a e. absurd e)

-- A status that is final is none of the others.
pub terminal_other :
    (s to : TaskStatus) → is_terminal s ≡ true → is_terminal to ≡ false → status_beq s to ≡ true → ⊥
terminal_other s to h k e =
    false_true (sym k ∙ (ap is_terminal (sym ((status_beq_iff s to).0 e)) ∙ h))
  where
    false_true : false ≡ true → ⊥
    false_true q = cc

module _ (event : WorkflowEvent) (context : WorkflowContext) where
  pub request_changes-IsRefused :
      (task : Task) (reason : Text) (limits : Option ℕ)
      → is_terminal task.status ≡ true
      → IsRefused (request_changes_or_escalate task event context reason limits)
  unfolding request_changes_or_escalate send_back_within send_back escalate_task
  request_changes-IsRefused task reason limits h =
      Ensures-if (λ _. ⊥) (is_empty (trim reason)) _ _ (λ e. tt)
        λ e.
          Ensures-if (λ _. ⊥) (may_review task event) _ _
            (λ r. within (cap_or (max_iterations context.policy) limits)) (λ r. tt)
    where
      within : (limit : Option ℕ) → IsRefused (capped limit task event context (trim reason))
      within none = tt
      within (some limit) =
          Ensures-if (λ _. ⊥) (ltb limit (review_rounds task + 1)) _ _
            (λ q. apply_transition-refused task escalated event context _ _ h)
            (λ q.
              then-IsRefused _ _ (apply_transition-refused _ changes_requested event context _ _ h))

  approve_signed-IsRefused :
      (task : Task) → is_terminal task.status ≡ true → IsRefused (approve_signed task event context)
  unfolding approve_signed approve_to_done approve_then_check
  approve_signed-IsRefused task h = elim (Option-cases (checker_for task context)) [
    | inl e ↦
        rw (e, approve_signed)
          (then-IsRefused _ _ (apply_transition-refused task approved event context _ _ h))
    | inr (pending, e) ↦
        rw (e, approve_signed)
          (then-IsRefused _ _ (apply_transition-refused task approved event context _ _ h))
  ]

  pub approve_review-IsRefused :
      (task : Task) → is_terminal task.status ≡ true → IsRefused (approve_review task event context)
  unfolding approve_review
  approve_review-IsRefused task h =
      Ensures-if (λ _. ⊥) (may_review task event) _ _
        (λ r.
          Ensures-if (λ _. ⊥) (is_empty (outstanding_for task event context)) _ _
            (λ m. approve_signed-IsRefused _ h) (λ m. request_changes-IsRefused task _ none h))
        (λ r. tt)

module _ (task : Task) (context : WorkflowContext) (h : is_terminal task.status ≡ true) where
  pub submit-IsRefused :
      (event : Submit) (choice : ReviewerChoice)
      → IsRefused (submit_for_review task event context choice)
  unfolding submit_for_review
  submit-IsRefused event choice = apply_transition-refused _ in_review _ context _ _ h

  pub tally-IsRefused :
      (event : Approve) (required : ℕ) → IsRefused (tally_approval task event required)
  unfolding tally_approval
  tally-IsRefused event required =
      Ensures-if (λ _. ⊥) (status_beq task.status in_review) _ _
        (λ e.
          absurd (terminal_other task.status in_review h (unfold is_terminal status_beq in refl) e))
        (λ e. tt)

  pub direct-IsRefused : (event : PolicyEvent) → IsRefused (handle_direct task event context)
  unfolding handle_direct submit_direct finish_direct
  direct-IsRefused (submit event) =
      Ensures-if (λ _. ⊥)
        (is_empty (outstanding_for finished (policy_event (submit event)) context)) _ _
        (λ m. elim (Option-cases (checker_for finished context)) [
          | inl e ↦ rw (e, finish_direct) (apply_transition-refused finished done _ context _ _ h)
          | inr (pending, e) ↦
              rw (e, finish_direct) (apply_transition-refused _ in_review _ context _ _ h)
        ])
        (λ m. tt)
    where
      finished : Task
      finished = with_artifacts task (or_else event.artifacts [])
  direct-IsRefused (approve event) =
      Ensures-if (λ _. ⊥) (is_asked task) _ _ (λ e. approve_review-IsRefused _ context task h)
        (λ e. tt)
  direct-IsRefused (request_changes actor_id reason) =
      Ensures-if (λ _. ⊥) (is_asked task) _ _
        (λ e. request_changes-IsRefused _ context task reason check_rounds h) (λ e. tt)
  direct-IsRefused (check_reported report actor_id) = tt
  direct-IsRefused (gate_decided decided) = tt

  pub to_supervisor-IsRefused :
      (event : Submit)
      → IsRefused (
          supervisor_choice task context
          >>= (λ choice. submit_for_review task event context choice))
  to_supervisor-IsRefused event =
      Ensures-bind (λ _. ⊥) (supervisor_choice task context) _
        (λ choice e. submit-IsRefused event choice)

  pub manager-IsRefused : (event : PolicyEvent) → IsRefused (handle_manager task event context)
  unfolding handle_manager reject_policy_event
  manager-IsRefused (submit event) = to_supervisor-IsRefused event
  manager-IsRefused (approve event) = approve_review-IsRefused _ context task h
  manager-IsRefused (request_changes actor_id reason) =
      request_changes-IsRefused _ context task reason none h
  manager-IsRefused (check_reported report actor_id) = tt
  manager-IsRefused (gate_decided decided) = tt

  pub peer-IsRefused : (event : PolicyEvent) → IsRefused (handle_peer task event context)
  unfolding handle_peer submit_to_peer reject_policy_event
  peer-IsRefused (submit event) =
      elim (Option-cases
        (select_peer_reviewer (or_else context.peers []) (selection_for task context))) [
          | inl e ↦ rw (e, submit_to_peer) (to_supervisor-IsRefused event)
          | inr (chosen, e) ↦ rw (e, submit_to_peer) (submit-IsRefused event _)
        ]
  peer-IsRefused (approve event) = approve_review-IsRefused _ context task h
  peer-IsRefused (request_changes actor_id reason) =
      request_changes-IsRefused _ context task reason none h
  peer-IsRefused (check_reported report actor_id) = tt
  peer-IsRefused (gate_decided decided) = tt

  pub quorum-IsRefused : (event : PolicyEvent) → IsRefused (handle_quorum task event context)
  unfolding handle_quorum form_committee form_committee_of gather_approval reject_policy_event
  quorum-IsRefused (submit event) =
      Ensures-bind (λ _. ⊥) (required_approvals context.policy) _
        λ required e.
          Ensures-if (λ _. ⊥)
            (ltb (length (rank_peers (or_else context.peers []) (selection_for task context)))
              required)
            _ _ (λ few. tt) (λ enough. submit-IsRefused event _)
  quorum-IsRefused (approve event) =
      Ensures-bind (λ _. ⊥) (required_approvals context.policy) _
        λ required e. then-IsRefused _ _ (tally-IsRefused event required)
  quorum-IsRefused (request_changes actor_id reason) =
      request_changes-IsRefused _ context task reason none h
  quorum-IsRefused (check_reported report actor_id) = tt
  quorum-IsRefused (gate_decided decided) = tt
