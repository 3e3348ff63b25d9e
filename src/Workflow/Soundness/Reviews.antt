-- ===== src/Workflow/Soundness/Reviews.antt =====
-- The record of a task under the shared mechanics of review.
use virtual_office.Prelude.{
  ℕ, ◌+◌, ◌≡◌, refl, sym, subst, true, false, not, str_eq, ◌||◌, List, [], ◌∷◌, ◌++◌, Option, none,
  some, Text, text_eq, str_eq_iff, trim, is_empty, or_else, includes, includes-append, Distinct,
  Within, All-append, Bool-cases, Option-cases, inl, inr, ◌⊎◌, arith, if◌then◌else◌, ltb, any,
  find?,
}
use virtual_office.Core.Result.{Ensures, Ensures-then, Ensures-if}
use virtual_office.Core.Policy.{max_iterations}
use virtual_office.Task.Status.{
  changes_requested, in_progress, in_review, approved, done, escalated, status_beq,
}
use virtual_office.Task.Model.{Task}
use virtual_office.Task.Machine.History.{IsWellFormed}
use virtual_office.Workflow.Types.{
  WorkflowContext, WorkflowEvent, WorkflowEffect, policy_event, approve, submit, Submit, Approve,
  actor_of, PeerCandidate,
}
use virtual_office.Workflow.Escalation.{EscalationTrigger, escalate_task}
use virtual_office.Workflow.Checker.{
  PendingCheck, checker_for, checkers_of, signed_by, signed_off_by,
}
use virtual_office.Workflow.Review.{
  ReviewerChoice, submit_for_review, may_review, add_approval, ApprovalTally, gathering, reached,
  tally, tally_approval, send_back, send_back_within, request_changes_or_escalate,
  approve_then_check, approve_to_done, approve_signed, approve_review, review_rounds, capped,
  cap_or, outstanding_for, not_done_yet,
}
use virtual_office.Workflow.Soundness.Moves.{
  Grows, Grows-refl, Grows-trans, IsStaged, IsSound, IsSoundTask, IsSound-IsStaged,
  apply_transition-IsSound, restaged, reviewed_by,
}

module _ (before task : Task) (event : WorkflowEvent) (context : WorkflowContext)
    (s : IsStaged before task) where
  pub escalate_task-IsSound :
      (trigger : EscalationTrigger)
      → Ensures (IsSound before) (escalate_task task trigger event context)
  unfolding escalate_task
  escalate_task-IsSound trigger = apply_transition-IsSound before task escalated event context _ _ s

  pub send_back-IsSound :
      (reason : Text) → Ensures (IsSound before) (send_back task event context reason)
  unfolding send_back
  send_back-IsSound reason =
      Ensures-then (IsSound before) (IsSound before) _ _
        (apply_transition-IsSound before _ changes_requested event context _ _
          (reviewed_by before task s task.assignee_id task.stage task.reviewer_ids))
        λ changed h.
          apply_transition-IsSound before changed.task in_progress event context _ _
            (IsSound-IsStaged before changed h)

  pub request_changes-IsSound :
      (reason : Text) (limits : Option ℕ)
      → Ensures (IsSound before) (request_changes_or_escalate task event context reason limits)
  unfolding request_changes_or_escalate send_back_within
  request_changes-IsSound reason limits =
      Ensures-if (IsSound before) (is_empty (trim reason)) _ _ (λ e. tt)
        λ e.
          Ensures-if (IsSound before) (may_review task event) _ _
            (λ r. within (max_iterations context.policy) limits) (λ r. tt)
    where
      either :
          (limit : ℕ)
          → Ensures (IsSound before) (send_back_within limit task event context (trim reason))
      either limit =
          Ensures-if (IsSound before) (ltb limit (review_rounds task + 1)) _ _
            (λ h. escalate_task-IsSound _) (λ h. send_back-IsSound (trim reason))

      within :
          (declared limits : Option ℕ)
          → Ensures
              (IsSound before)
              (capped (cap_or declared limits) task event context (trim reason))
      within (some limit) c = either limit
      within none (some limit) = either limit
      within none none = tt

  pub approve_to_done-IsSound :
      (effects : List WorkflowEffect) (reason : Option Text)
      → Ensures (IsSound before) (approve_to_done task event context effects reason)
  unfolding approve_to_done
  approve_to_done-IsSound effects reason =
      Ensures-then (IsSound before) (IsSound before) _ _
        (apply_transition-IsSound before task approved event context _ _ s)
        λ here h.
          apply_transition-IsSound before here.task done event context _ _
            (IsSound-IsStaged before here h)

  pub approve_then_check-IsSound :
      (pending : PendingCheck)
      → Ensures (IsSound before) (approve_then_check task pending event context)
  unfolding approve_then_check
  approve_then_check-IsSound pending =
      Ensures-then (IsSound before) (IsSound before) _ _
        (apply_transition-IsSound before task approved event context _ _ s)
        λ here h. apply_transition-IsSound before _ in_review event context _ _ (
          reviewed_by before here.task (IsSound-IsStaged before here h) here.task.assignee_id
            here.task.stage (pending.reviewer_id ∷ []))

  pub approve_signed-IsSound : Ensures (IsSound before) (approve_signed task event context)
  unfolding approve_signed
  approve_signed-IsSound = elim (Option-cases (checker_for task context)) [
    | inl e ↦ rw (e, approve_signed) (approve_to_done-IsSound _ none)
    | inr (pending, e) ↦ rw (e, approve_signed) (approve_then_check-IsSound pending)
  ]

signed_by-Grows :
    (task : Task) (context : WorkflowContext) (actor : PeerCandidate)
    → Grows task.checked_by (signed_by task context actor)
unfolding signed_by
signed_by-Grows task context actor =
    elim (Bool-cases (
      not (any (checkers_of task context) (λ c. str_eq c.from_id actor.department_id))
      || includes task.checked_by actor.department_id)) [
        | inl e ↦ rw e (Grows-refl task.checked_by)
        | inr e ↦ rw e (actor.department_id ∷ [], refl)
      ]

-- Nobody's signature is taken off, and whoever approves may add one.
pub signed_off_by-Grows :
    (task : Task) (actor_id : Option Text) (context : WorkflowContext)
    → Grows task.checked_by (signed_off_by task actor_id context)
unfolding signed_off_by
signed_off_by-Grows task none context = Grows-refl task.checked_by
signed_off_by-Grows task (some id) context =
    elim (Option-cases
      (find? (λ (c : PeerCandidate). str_eq c.id id) (or_else context.colleagues []))) [
        | inl e ↦ rw (e, signed_off_by) (Grows-refl task.checked_by)
        | inr (actor, e) ↦ rw (e, signed_off_by) (signed_by-Grows task context actor)
      ]

module _ (before task : Task) (event : WorkflowEvent) (context : WorkflowContext)
    (s : IsStaged before task) where
  pub approve_review-IsSound : Ensures (IsSound before) (approve_review task event context)
  unfolding approve_review
  approve_review-IsSound =
      Ensures-if (IsSound before) (may_review task event) _ _
        (λ r.
          Ensures-if (IsSound before) (is_empty (outstanding_for task event context)) _ _
            (λ met. approve_signed-IsSound before _ event context signed)
            (λ unmet.
              request_changes-IsSound before task event context s
                (not_done_yet (outstanding_for task event context)) none))
        (λ r. tt)
    where
      signed :
          IsStaged before (record task { checked_by = signed_off_by task (actor_of event) context })
      signed = record {
        step = record {
          kept = s.step.kept;
          history_grows = s.step.history_grows;
          artifacts_grow = s.step.artifacts_grow;
          signatures_grow =
              Grows-trans before.checked_by task.checked_by
                (signed_off_by task (actor_of event) context) s.step.signatures_grow
                (signed_off_by-Grows task (actor_of event) context);
        };
        recorded = record {
          walk = s.recorded.walk;
          approvals_distinct = s.recorded.approvals_distinct;
          approvals_within = s.recorded.approvals_within;
        };
      }

pub submit_for_review-IsSound :
    (before task : Task) (event : Submit) (context : WorkflowContext) (choice : ReviewerChoice)
    → IsStaged before task
    → Ensures (IsSound before) (submit_for_review task event context choice)
unfolding submit_for_review
submit_for_review-IsSound before task event context choice s =
    apply_transition-IsSound before _ in_review (policy_event (submit event)) context _ _ (
      restaged before task s task.assignee_id task.stage choice.reviewer_ids
        (or_else event.artifacts []))

Distinct-append :
    (xs : List Text) (a : Text) → Distinct xs → includes xs a ≡ false → Distinct (xs ++ a ∷ [])
Distinct-append [] a d n = (refl, tt)
Distinct-append (x ∷ xs) a d n = (
  ground (arith, includes-append xs (a ∷ []) x, str_eq_iff a x, str_eq_iff x a, d.0),
  Distinct-append xs a d.1 (ground arith),
)

pub add_approval-Distinct :
    (actor : Text) (approvals : List Text)
    → Distinct approvals
    → Distinct (add_approval actor approvals)
add_approval-Distinct actor approvals d = elim (Bool-cases (includes approvals actor)) [
  | inl e ↦ rw e d
  | inr e ↦ rw e (Distinct-append approvals actor d e)
]

pub add_approval-Within :
    (actor : Text) (approvals reviewer_ids : List Text)
    → (if is_empty reviewer_ids then true else includes reviewer_ids actor) ≡ true
    → (reviewer_ids ≡ []) ⊎ Within approvals reviewer_ids
    → (reviewer_ids ≡ []) ⊎ Within (add_approval actor approvals) reviewer_ids
add_approval-Within actor approvals [] h w = inl refl
add_approval-Within actor approvals (r ∷ rs) h (inl e) = cc
add_approval-Within actor approvals (r ∷ rs) h (inr w) =
    elim (Bool-cases (includes approvals actor)) [
      | inl e ↦ rw e (inr w)
      | inr e ↦ rw e (inr (All-append _ approvals (actor ∷ []) w (h, tt)))
    ]

abbrev pub tallied : ApprovalTally → Task
tallied (gathering task n) = task
tallied (reached task) = task

tally-tallied : (task : Task) (required : ℕ) → tallied (tally task required) ≡ task
tally-tallied task required = ground arith

pub tally_approval-IsSoundTask :
    (task : Task) (event : Approve) (required : ℕ)
    → IsWellFormed task
    → Ensures (λ t. IsSoundTask task (tallied t)) (tally_approval task event required)
unfolding tally_approval may_review
tally_approval-IsSoundTask task event required w =
    Ensures-if (λ t. IsSoundTask task (tallied t)) (status_beq task.status in_review) _ _
      (λ e.
        Ensures-if (λ t. IsSoundTask task (tallied t))
          (may_review task (policy_event (approve event))) _ _
          (λ r. subst (IsSoundTask task) (sym (tally-tallied _ required)) (gathered r)) (λ r. tt))
      (λ e. tt)
  where
    gathered :
        may_review task (policy_event (approve event)) ≡ true
        → IsSoundTask task (record task { approvals = add_approval event.actor_id task.approvals })
    gathered r = (
      record {
        kept = refl;
        history_grows = Grows-refl task.history;
        artifacts_grow = Grows-refl task.artifacts;
        signatures_grow = Grows-refl task.checked_by;
      },
      record {
        recorded = record {
          walk = w.recorded.walk;
          approvals_distinct =
              add_approval-Distinct event.actor_id task.approvals w.recorded.approvals_distinct;
          approvals_within =
              add_approval-Within event.actor_id task.approvals task.reviewer_ids r
                w.recorded.approvals_within;
        };
        assigned_held = w.assigned_held;
        backlog_free = w.backlog_free;
      },
    )
