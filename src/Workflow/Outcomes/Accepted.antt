-- ===== src/Workflow/Outcomes/Accepted.antt =====
-- What it takes for a review to finish the work.
use virtual_office.Prelude.{
  ℕ, ◌+◌, ◌≡◌, ◌≢◌, ◌⊎◌, refl, sym, ◌∙◌, true, List, [], ◌∷◌, Option, none, some, Text, trim,
  is_empty, ltb, inl, inr, text_eq, includes, if◌then◌else◌,
}
use virtual_office.Core.Result.{Ensures, Ensures-if, Ensures-bind, Ensures-any, Ensures-imp}
use virtual_office.Core.Policy.{max_iterations}
use virtual_office.Task.Status.{
  TaskStatus, done, in_progress, in_review, changes_requested, approved, escalated,
}
use virtual_office.Task.Model.{Task}
use virtual_office.Workflow.Types.{
  WorkflowContext, WorkflowEvent, WorkflowEffect, WorkflowOutcome, apply_transition, actor_of,
}
use virtual_office.Workflow.Checker.{PendingCheck, checker_for, signed_off_by}
use virtual_office.Workflow.Escalation.{EscalationTrigger, escalate_task}
use virtual_office.Workflow.Review.{
  is_reviewer, may_review, approve_review, approve_signed, approve_then_check, approve_to_done,
  outstanding_for, send_back, send_back_within, request_changes_or_escalate, capped, cap_or,
  review_rounds,
}
use virtual_office.Workflow.Outcomes.Signed.{
  IsMet, IsChecked, outstanding_for-IsMet, checker_for-IsChecked,
}
use virtual_office.Workflow.Outcomes.Moves.{IsMoved, apply_transition-IsMoved}

abbrev pub IsOpen : WorkflowOutcome → Type 0
IsOpen o = o.task.status ≢ done

-- A move to anything but done leaves the work unfinished.
pub apply_transition-IsOpen :
    (task : Task) (to : TaskStatus) (event : WorkflowEvent) (context : WorkflowContext)
    (effects : List WorkflowEffect) (reason : Option Text)
    → to ≢ done
    → Ensures IsOpen (apply_transition task to event context effects reason)
apply_transition-IsOpen task to event context effects reason n =
    Ensures-imp (IsMoved task to effects) IsOpen _ (λ o m q. n (sym m.arrived ∙ q))
      (apply_transition-IsMoved task to event context effects reason)

module _ (event : WorkflowEvent) (context : WorkflowContext) where
  escalate_task-IsOpen :
      (task : Task) (trigger : EscalationTrigger)
      → Ensures IsOpen (escalate_task task trigger event context)
  unfolding escalate_task
  escalate_task-IsOpen task trigger =
      apply_transition-IsOpen task escalated event context _ _ (λ q. cc)

  send_back-IsOpen :
      (task : Task) (reason : Text) → Ensures IsOpen (send_back task event context reason)
  unfolding send_back
  send_back-IsOpen task reason =
      Ensures-bind IsOpen
        (apply_transition (record task { approvals = [] }) changes_requested event context []
          (some reason))
        _ λ r e. apply_transition-IsOpen r.task in_progress event context _ _ (λ q. cc)

  send_back_within-IsOpen :
      (limit : ℕ) (task : Task) (reason : Text)
      → Ensures IsOpen (send_back_within limit task event context reason)
  unfolding send_back_within
  send_back_within-IsOpen limit task reason =
      Ensures-if IsOpen (ltb limit (review_rounds task + 1)) _ _ (λ e. escalate_task-IsOpen task _)
        (λ e. send_back-IsOpen task reason)

  capped-IsOpen :
      (limit : Option ℕ) (task : Task) (reason : Text)
      → Ensures IsOpen (capped limit task event context reason)
  capped-IsOpen none task reason = tt
  capped-IsOpen (some limit) task reason = send_back_within-IsOpen limit task reason

  -- A change request never finishes the work.
  pub request_changes-IsOpen :
      (task : Task) (reason : Text) (fallback : Option ℕ)
      → Ensures IsOpen (request_changes_or_escalate task event context reason fallback)
  unfolding request_changes_or_escalate
  request_changes-IsOpen task reason fallback =
      Ensures-if IsOpen (is_empty (trim reason)) _ _ (λ e. tt)
        λ e.
          Ensures-if IsOpen (may_review task event) _ _
            (λ m.
              capped-IsOpen (cap_or (max_iterations context.policy) fallback) task (trim reason))
            (λ m. tt)

-- The work with the signature of whoever approves.
abbrev pub signed : Task → WorkflowEvent → WorkflowContext → Task
signed task event context = record task { checked_by = signed_off_by task (actor_of event) context }

-- Who approves is among the task's reviewers, if it has any; everything on the list is claimed as met;
-- and every department that checks this one has signed, or has nobody to ask.
pub record IsAccepted (task : Task) (event : WorkflowEvent) (context : WorkflowContext)
    : Type 0 where
  pub permitted :
      (task.reviewer_ids ≡ [])
      ⊎ ((id : Text) × (actor_of event ≡ some id) × (includes task.reviewer_ids id ≡ true))
  pub all_met : IsMet task event context
  pub all_checked : IsChecked task event context

may_review-permitted :
    (task : Task) (event : WorkflowEvent)
    → may_review task event ≡ true
    → (task.reviewer_ids ≡ [])
      ⊎ ((id : Text) × (actor_of event ≡ some id) × (includes task.reviewer_ids id ≡ true))
unfolding may_review
may_review-permitted task event h = by_list task.reviewer_ids (actor_of event) h
  where
    by_list :
        (ids : List Text) (o : Option Text)
        → (if is_empty ids then true else is_reviewer ids o) ≡ true
        → (ids ≡ []) ⊎ ((id : Text) × (o ≡ some id) × (includes ids id ≡ true))
    by_list [] o h = inl refl
    by_list (x ∷ xs) none h = cc
    by_list (x ∷ xs) (some id) h = inr (id, refl, h)

-- `approveReview`, by which a person's approval is settled, leaves the work unfinished unless whoever
-- approves is among its reviewers, or it has none; each criterion of its own list, or of its
-- department's where it has none, is among those that the event claims as met, spaces around them aside;
-- and each other department with an enabled `reviews` arrow to the task's has signed before, or is the
-- approver's, or has no active colleague but the assignee.
pub approve_review-IsAccepted :
    (task : Task) (event : WorkflowEvent) (context : WorkflowContext)
    → Ensures
        (λ o. (o.task.status ≢ done) ⊎ IsAccepted task event context)
        (approve_review task event context)
unfolding approve_review approve_signed approve_then_check
approve_review-IsAccepted task event context =
    Ensures-if Q (may_review task event) _ _
      (λ m.
        Ensures-if Q (is_empty (outstanding_for task event context)) _ _
          (λ e. finish m (nil_of_empty _ e) (checker_for (signed task event context) context) refl)
          (λ e.
            Ensures-imp IsOpen Q _ (λ o n. inl n)
              (request_changes-IsOpen event context task _ none)))
      (λ m. tt)
  where
    Q : WorkflowOutcome → Type 0
    Q o = (o.task.status ≢ done) ⊎ IsAccepted task event context

    nil_of_empty : (xs : List Text) → is_empty xs ≡ true → xs ≡ []
    nil_of_empty [] e = refl
    nil_of_empty (x ∷ xs) e = cc

    finish :
        may_review task event ≡ true
        → outstanding_for task event context ≡ []
        → (pending : Option PendingCheck)
        → checker_for (signed task event context) context ≡ pending
        → Ensures Q (approve_signed (signed task event context) event context)
    finish m o none c =
        rw (c, approve_signed)
          (Ensures-any Q (approve_to_done (signed task event context) event context _ none) (λ out.
            inr (record {
              permitted = may_review-permitted task event m;
              all_met = outstanding_for-IsMet task event context o;
              all_checked = checker_for-IsChecked task event context c;
            })))
    finish m o (some pending) c =
        rw (c, approve_signed)
          (Ensures-bind Q
            (apply_transition (signed task event context) approved event context [] none) _
            λ here e.
              Ensures-imp IsOpen Q _ (λ out n. inl n)
                (apply_transition-IsOpen _ in_review event context _ _ (λ q. cc)))
