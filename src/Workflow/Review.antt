-- ===== src/Workflow/Review.antt =====
-- packages/orchestrator/src/workflow/review-common.ts: the mechanics that every policy with a
-- review step shares.
use virtual_office.Prelude.{
  ℕ, ◌+◌, Bool, true, false, List, [], ◌∷◌, ◌++◌, Option, none, some, Text, text, text_eq, trim,
  join, ltb, leb, length, filter, includes, is_empty, or_else, if◌then◌else◌,
}
use virtual_office.Core.Result.{Result, ok, ◌>>=◌}
use virtual_office.Core.Policy.{max_iterations, policy_kind}
use virtual_office.Task.Status.{
  in_progress, in_review, changes_requested, approved, done, status_beq, status_text,
}
use virtual_office.Task.Model.{Task, TaskEvent}
use virtual_office.Workflow.Types.{
  WorkflowContext, WorkflowEvent, PolicyEvent, policy_event, submit, approve, request_changes,
  check_reported, gate_decided, Submit, Approve, actor_of, WorkflowEffect, notify, Audience,
  supervisor, owner, assignee, reviewer, WorkflowOutcome, workflow_error, apply_transition,
}
use virtual_office.Workflow.Acceptance.{acceptance_criteria_for, unmet_criteria}
use virtual_office.Workflow.Checker.{PendingCheck, checker_for, signed_off_by}
use virtual_office.Workflow.Escalation.{review_rounds as rounds_trigger, escalate_task}
use virtual_office.Workflow.Peers.{is_same}

abbrev pub asks_changes : TaskEvent → Bool
asks_changes e = status_beq e.to changes_requested

unfoldable pub review_rounds : Task → ℕ
review_rounds task = length (filter asks_changes task.history)

pub record ReviewerChoice : Type 0 where
  pub reviewer_ids : List Text
  pub audience : Audience

unfoldable pub choose_supervisor : Option Text → Option Text → Result ReviewerChoice
choose_supervisor none assignee_id = ok (record { reviewer_ids = []; audience = owner })
choose_supervisor (some id) assignee_id =
    if is_same id assignee_id
    then workflow_error (text "supervisorId")
        (text "the supervisor may not review their own work; configure a different reviewer")
    else ok (record { reviewer_ids = id ∷ []; audience = supervisor })

unfoldable pub supervisor_choice : Task → WorkflowContext → Result ReviewerChoice
unfolding choose_supervisor
supervisor_choice task context = choose_supervisor context.supervisor_id task.assignee_id

-- A task put before new reviewers, with what was produced added.
abbrev pub staged_for : Task → List Text → List Text → Task
staged_for task reviewer_ids produced = record task {
  reviewer_ids = reviewer_ids;
  approvals = [];
  artifacts = task.artifacts ++ produced;
}

unfoldable pub quoted : Text → Text
quoted s = text "\"" ++ s ++ text "\""

unfoldable pub submit_for_review :
    Task → Submit → WorkflowContext → ReviewerChoice → Result WorkflowOutcome
unfolding quoted
submit_for_review task event context choice =
    apply_transition (staged_for task choice.reviewer_ids (or_else event.artifacts [])) in_review
      (policy_event (submit event)) context
      (notify choice.audience (text "review requested for task " ++ quoted task.title) ∷ []) none

abbrev pub is_reviewer : List Text → Option Text → Bool
is_reviewer reviewer_ids none = false
is_reviewer reviewer_ids (some actor) = includes reviewer_ids actor

-- No named reviewers means that the owner reviews, and any actor may act for them.
unfoldable pub may_review : Task → WorkflowEvent → Bool
may_review task event =
    if is_empty task.reviewer_ids then true else is_reviewer task.reviewer_ids (actor_of event)

unfoldable pub denied : Text → Text → Text
denied actor action =
    text "\""
    ++ actor
    ++ text "\" is not a reviewer of this task and may not "
    ++ action
    ++ text " it"

-- `const denied = assertReviewer(task, event, action); if (denied) return denied;` and the rest.
abbrev pub assert_reviewer {ℓ} : {A : Type ℓ} → Task → WorkflowEvent → Text → Result A → Result A
assert_reviewer task event action rest =
    if may_review task event
    then rest
    else workflow_error (text "actorId") (denied (or_else (actor_of event) (text "nobody")) action)

unfoldable pub event_type : PolicyEvent → Text
event_type (submit s) = text "submit"
event_type (approve a) = text "approve"
event_type (request_changes actor_id reason) = text "request_changes"
event_type (check_reported report actor_id) = text "check_reported"
event_type (gate_decided g) = text "gate_decided"

unfoldable pub reject_policy_event {ℓ} : {A : Type ℓ} → Text → PolicyEvent → Result A
unfolding event_type
reject_policy_event kind event = workflow_error (text "event") (
    text "the \""
    ++ kind
    ++ text "\" review policy does not handle a \""
    ++ event_type event
    ++ text "\" event")

pub data ApprovalTally : Type 0 where
  gathering : Task → ℕ → ApprovalTally
  reached : Task → ApprovalTally

-- The approvals with one more approver, who is counted once.
abbrev pub add_approval : Text → List Text → List Text
add_approval actor approvals =
    if includes approvals actor then approvals else approvals ++ actor ∷ []

abbrev pub tally : Task → ℕ → ApprovalTally
tally staged required =
    if leb required (length staged.approvals)
    then reached staged
    else gathering staged (length staged.approvals)

unfoldable pub tally_approval : Task → Approve → ℕ → Result ApprovalTally
tally_approval task event required =
    if status_beq task.status in_review
    then assert_reviewer task (policy_event (approve event)) (text "approve") (
        ok
          (tally (record task { approvals = add_approval event.actor_id task.approvals }) required))
    else workflow_error (text "status") (
        text "approvals are only gathered while a task is in review; this one is \""
        ++ status_text task.status
        ++ text "\"")

abbrev claimed_in_policy : PolicyEvent → List Text
claimed_in_policy (check_reported report actor_id) = or_else report.met []
claimed_in_policy (submit s) = or_else s.met []
claimed_in_policy (approve a) = or_else a.met []
claimed_in_policy _ = []

abbrev pub claimed_in : WorkflowEvent → List Text
claimed_in (policy_event e) = claimed_in_policy e
claimed_in _ = []

unfoldable pub outstanding_for : Task → WorkflowEvent → WorkflowContext → List Text
outstanding_for task event context =
    unmet_criteria
      (acceptance_criteria_for task.acceptance_criteria (or_else context.acceptance_criteria []))
      (claimed_in event)

unfoldable pub not_done_yet : List Text → Text
not_done_yet outstanding = text "not done yet: " ++ join (text "; ") outstanding

-- One change request: the work goes back to whoever does it.
unfoldable pub send_back : Task → WorkflowEvent → WorkflowContext → Text → Result WorkflowOutcome
unfolding quoted
send_back task event context reason =
    apply_transition (record task { approvals = [] }) changes_requested event context []
      (some reason)
    >>= (λ changed.
        apply_transition changed.task in_progress event context
          (notify assignee
              (text "changes requested on " ++ quoted task.title ++ text ": " ++ reason)
            ∷ [])
          none)

-- Within the cap the work goes back, and past it it escalates.
unfoldable pub send_back_within :
    ℕ → Task → WorkflowEvent → WorkflowContext → Text → Result WorkflowOutcome
send_back_within limit task event context reason =
    if ltb limit (review_rounds task + 1)
    then escalate_task task (rounds_trigger (review_rounds task + 1) limit) event context
    else send_back task event context reason

abbrev pub cap_or : Option ℕ → Option ℕ → Option ℕ
cap_or (some declared) fallback = some declared
cap_or none fallback = fallback

abbrev pub capped :
    Option ℕ → Task → WorkflowEvent → WorkflowContext → Text → Result WorkflowOutcome
capped none task event context reason =
    workflow_error (text "policy") (
      text "a review policy needs maxIterations; got \"" ++ policy_kind context.policy ++ text "\"")
capped (some limit) task event context reason = send_back_within limit task event context reason

unfoldable pub request_changes_or_escalate :
    Task → WorkflowEvent → WorkflowContext → Text → Option ℕ → Result WorkflowOutcome
unfolding denied
request_changes_or_escalate task event context raw_reason fallback =
    if is_empty (trim raw_reason)
    then workflow_error (text "reason")
        (text "a change request needs a reason the assignee can act on")
    else assert_reviewer task event (text "review") (
        capped (cap_or (max_iterations context.policy) fallback) task event context
          (trim raw_reason))

-- Approved here, and then before the department that still has to check.
unfoldable pub approve_then_check :
    Task → PendingCheck → WorkflowEvent → WorkflowContext → Result WorkflowOutcome
unfolding quoted
approve_then_check signed pending event context =
    apply_transition signed approved event context [] none >>= (λ here.
      apply_transition
        (record here.task { reviewer_ids = pending.reviewer_id ∷ []; approvals = [] }) in_review
        event context
        (notify reviewer (
            text "task "
            ++ quoted signed.title
            ++ text " is waiting to be checked by "
            ++ pending.department_id)
          ∷ [])
        (some (text "waiting to be checked by " ++ pending.department_id)))

unfoldable pub approve_to_done :
    Task
    → WorkflowEvent
    → WorkflowContext
    → List WorkflowEffect
    → Option Text
    → Result WorkflowOutcome
approve_to_done task event context effects reason =
    apply_transition task approved event context [] reason
    >>= (λ here. apply_transition here.task done event context effects none)

unfoldable pub approve_signed : Task → WorkflowEvent → WorkflowContext → Result WorkflowOutcome
unfolding quoted
approve_signed signed event context = elim (checker_for signed context) [
  | some pending ↦ approve_then_check signed pending event context
  | none ↦
      approve_to_done signed event context
        (notify assignee (text "task " ++ quoted signed.title ++ text " was approved") ∷ []) none
]

unfoldable pub approve_review : Task → WorkflowEvent → WorkflowContext → Result WorkflowOutcome
unfolding denied
approve_review task event context = assert_reviewer task event (text "approve") (
    if is_empty (outstanding_for task event context)
    then approve_signed (record task { checked_by = signed_off_by task (actor_of event) context })
        event context
    else request_changes_or_escalate task event context
        (not_done_yet (outstanding_for task event context)) none)
