-- ===== src/Workflow/Outcomes/Rounds.antt =====
-- Change requests and the cap on them.
use virtual_office.Prelude.{
  ℕ, ◌+◌, ◌≤◌, ◌<◌, ◌≡◌, refl, ap, ◌∙◌, true, false, List, [], ◌∷◌, ◌++◌, Option, none, some, Text,
  text, trim, is_empty, ltb, length, length-append, filter, filter-append, Bool-cases, inl, inr,
  arith, ◌⊎◌, ltb→lt,
}
use virtual_office.Core.Result.{ok, ◌>>=◌}
use virtual_office.Core.Policy.{max_iterations}
use virtual_office.Task.Status.{
  TaskStatus, in_review, in_progress, changes_requested, escalated, status_beq, can_transition,
}
use virtual_office.Task.Model.{Task, TaskEvent}
use virtual_office.Task.Machine.{moved, next_assignee, transition_event}
use virtual_office.Workflow.Types.{
  WorkflowContext, WorkflowEvent, notify, assignee, WorkflowOutcome, apply_transition,
}
use virtual_office.Workflow.Escalation.{
  review_rounds as rounds_trigger, escalate_task, describe_trigger, escalation_effects,
  escalation_target,
}
use virtual_office.Workflow.Review.{
  quoted, asks_changes, review_rounds, may_review, send_back, send_back_within,
  request_changes_or_escalate, cap_or,
}
use virtual_office.Workflow.Outcomes.Moves.{options_of, apply_transition_ok}

-- The task after one change request: two events later, back in progress, with no approvals.
record IsSentBack (task : Task) (o : WorkflowOutcome) : Type 0 where
  pub back : o.task.status ≡ in_progress
  pub same_holder : o.task.assignee_id ≡ task.assignee_id
  pub afresh : o.task.approvals ≡ []
  pub one_round : review_rounds o.task ≡ review_rounds task + 1

record IsEscalated (task : Task) (limit : ℕ) (context : WorkflowContext) (o : WorkflowOutcome)
    : Type 0 where
  pub up : o.task.status ≡ escalated
  pub same_holder : o.task.assignee_id ≡ task.assignee_id
  pub told :
      o.effects
      ≡ escalation_effects task
          (rounds_trigger (review_rounds task + 1) limit)
          (escalation_target task context)
  pub no_round : review_rounds o.task ≡ review_rounds task

from_review :
    (s to : TaskStatus)
    → s ≡ in_review
    → can_transition in_review to ≡ true
    → can_transition s to ≡ true
from_review s to e c = rw (e, c) refl

rounds_of-append :
    (history : List TaskEvent) (e : TaskEvent)
    → length (filter asks_changes (history ++ e ∷ []))
      ≡ length (filter asks_changes history) + length (filter asks_changes (e ∷ []))
rounds_of-append history e =
    ap length (filter-append asks_changes history (e ∷ []))
    ∙ length-append (filter asks_changes history) (filter asks_changes (e ∷ []))

module _ (task : Task) (event : WorkflowEvent) (context : WorkflowContext) (reason : Text) where
  abbrev changed : Task
  changed =
      moved (record task { approvals = [] }) changes_requested
        (options_of event context (some reason)) task.assignee_id

  abbrev returned : Task
  returned = moved changed in_progress (options_of event context none) task.assignee_id

  returned_rounds : review_rounds returned ≡ review_rounds task + 1
  unfolding review_rounds status_beq
  returned_rounds = omega (
    arith,
    rounds_of-append task.history (
        transition_event (record task { approvals = [] }) changes_requested
          (options_of event context (some reason))),
    rounds_of-append changed.history
        (transition_event changed in_progress (options_of event context none)),
  )

  send_back-IsSentBack :
      task.status ≡ in_review
      → (o : WorkflowOutcome) × (send_back task event context reason ≡ ok o) × IsSentBack task o
  unfolding send_back quoted
  send_back-IsSentBack s = (
    record {
      task = returned;
      effects =
          notify assignee (text "changes requested on " ++ quoted task.title ++ text ": " ++ reason)
          ∷ [];
    },
    ap
          (λ r. r >>= (λ (o : WorkflowOutcome).
            apply_transition o.task in_progress event context
              (notify assignee
                  (text "changes requested on " ++ quoted task.title ++ text ": " ++ reason)
                ∷ [])
              none))
          (apply_transition_ok (record task { approvals = [] }) changes_requested event context []
            (some reason) task.assignee_id
            (from_review task.status _ s (unfold can_transition in refl))
            (unfold next_assignee in refl))
        ∙ apply_transition_ok changed in_progress event context _ none task.assignee_id
            (unfold can_transition in refl) (unfold next_assignee in refl),
    record { back = refl; same_holder = refl; afresh = refl; one_round = returned_rounds },
  )

  up_rounds :
      (limit : ℕ)
      → review_rounds (
          moved task escalated
            (options_of event context
              (some (describe_trigger (rounds_trigger (review_rounds task + 1) limit))))
            task.assignee_id)
        ≡ review_rounds task
  unfolding review_rounds status_beq
  up_rounds limit = omega (arith, rounds_of-append task.history _)

  escalate-IsEscalated :
      (limit : ℕ)
      → task.status ≡ in_review
      → (o : WorkflowOutcome) × (escalate_task task
            (rounds_trigger (review_rounds task + 1) limit)
            event
            context
          ≡ ok o)
        × IsEscalated task limit context o
  unfolding escalate_task
  escalate-IsEscalated limit s = (
    record { task = _; effects = _ },
    apply_transition_ok task escalated event context _ _ task.assignee_id
        (from_review task.status _ s (unfold can_transition in refl))
        (unfold next_assignee in refl),
    record { up = refl; same_holder = refl; told = refl; no_round = up_rounds limit },
  )

-- Sent back while the rounds last, and up the office after that.
pub IsAnswered : Task → ℕ → WorkflowContext → WorkflowOutcome → Type 0
IsAnswered task limit context o =
    ((review_rounds task + 1 ≤ limit) × IsSentBack task o)
    ⊎ ((limit < review_rounds task + 1) × IsEscalated task limit context o)

send_back_within-IsAnswered :
    (limit : ℕ) (task : Task) (event : WorkflowEvent) (context : WorkflowContext) (reason : Text)
    → task.status ≡ in_review
    → (o : WorkflowOutcome) × (send_back_within limit task event context reason ≡ ok o)
      × IsAnswered task limit context o
unfolding send_back_within IsAnswered
send_back_within-IsAnswered limit task event context reason s =
    elim (Bool-cases (ltb limit (review_rounds task + 1))) [
      | inl over ↦
          (let (o, e, up) = escalate-IsEscalated task event context reason limit s in
            (o, rw over e, inr (ltb→lt limit (review_rounds task + 1) over, up)))
      | inr within ↦
          (let (o, e, back) = send_back-IsSentBack task event context reason s in
            (o, rw within e, inl (ground arith, back)))
    ]

-- `requestChangesOrEscalate`, with a reason, an event of somebody who may review the task, work in
-- review, and a cap, the one of the policy or else the one that the handler passes, always
-- succeeds: while this round is within the cap the work
-- is back in progress with who held it, its approvals gone and one round counted; past the cap
-- it is escalated, to the target that the reporting lines give, and not sent round again.
pub change_request-IsAnswered :
    (task : Task) (event : WorkflowEvent) (context : WorkflowContext) (reason : Text)
    (fallback : Option ℕ) (limit : ℕ)
    → task.status ≡ in_review
    → is_empty (trim reason) ≡ false
    → may_review task event ≡ true
    → cap_or (max_iterations context.policy) fallback ≡ some limit
    → (o : WorkflowOutcome) × (request_changes_or_escalate task event context reason fallback
        ≡ ok o)
      × IsAnswered task limit context o
unfolding request_changes_or_escalate
change_request-IsAnswered task event context reason fallback limit s r m c =
    let (o, e, a) = send_back_within-IsAnswered limit task event context (trim reason) s in
    (o, rw (r, m, c) e, a)
