-- ===== src/Workflow/Policy/Automated.antt =====
-- packages/orchestrator/src/workflow/automated-policy.ts: a check decides.
use virtual_office.Prelude.{
  ℕ, ◌-◌, [], ◌∷◌, ◌++◌, Option, none, Text, text, text_eq, trim, decimal, leb, length, take,
  str_eq, is_empty, or_else, if◌then◌else◌,
}
use virtual_office.Core.Result.{Result, ok, ◌>>=◌}
use virtual_office.Core.Policy.{ReviewPolicy, automated, policy_kind}
use virtual_office.Task.Status.{in_review, status_beq, status_text}
use virtual_office.Task.Model.{Task}
use virtual_office.Workflow.Types.{
  WorkflowContext, PolicyEvent, policy_event, submit, approve, request_changes, check_reported,
  gate_decided, Submit, CheckReport, CheckOutcome, passed, failed, errored, WorkflowOutcome, notify,
  run_check, owner, workflow_error, apply_transition,
}
use virtual_office.Workflow.Escalation.{check_error, escalate_task}
use virtual_office.Workflow.Review.{
  approve_review, request_changes_or_escalate, reject_policy_event, staged_for, quoted,
}

abbrev pub check_output_max_length : ℕ
check_output_max_length = 2000

unfoldable pub summarize : Text → Text
summarize output =
    let trimmed = trim output in
    if leb (length trimmed) check_output_max_length
    then trimmed
    else take check_output_max_length trimmed
      ++ text "\n… (truncated, "
      ++ decimal (length trimmed - check_output_max_length)
      ++ text " more characters)"

unfoldable pub configured_check : ReviewPolicy → Result Text
configured_check (automated check_id max) = ok check_id
configured_check policy =
    workflow_error (text "policy")
      (text "an automated reviewer needs a check to run; got \"" ++ policy_kind policy ++ text "\"")

unfoldable pub queue_check : Task → Submit → WorkflowContext → Text → Result WorkflowOutcome
queue_check task event context check_id =
    apply_transition (staged_for task [] (or_else event.artifacts [])) in_review
      (policy_event (submit event)) context
      (run_check check_id
        ∷ notify owner
            (text "check " ++ quoted check_id ++ text " queued for task " ++ quoted task.title)
        ∷ [])
      none

-- `summary.length > 0 ? summary : fallback`
abbrev or_fallback : Text → Text → Text
or_fallback summary fallback = if is_empty summary then fallback else summary

abbrev pub on_outcome :
    CheckOutcome → Task → PolicyEvent → WorkflowContext → Text → Text → Result WorkflowOutcome
on_outcome passed task event context check_id summary =
    approve_review task (policy_event event) context
on_outcome failed task event context check_id summary =
    request_changes_or_escalate task (policy_event event) context
      (or_fallback summary (text "check " ++ quoted check_id ++ text " failed without output")) none
on_outcome errored task event context check_id summary =
    escalate_task task (check_error check_id (or_fallback summary (text "no output")))
      (policy_event event) context

unfoldable pub decide_check :
    Task → CheckReport → Option Text → WorkflowContext → Text → Result WorkflowOutcome
decide_check task report actor_id context check_id =
    if str_eq report.check_id check_id
    then (if status_beq task.status in_review
        then on_outcome report.outcome task (check_reported report actor_id) context check_id
            (summarize report.output)
        else workflow_error (text "status") (
            text "a check only decides work that is in review; this task is \""
            ++ status_text task.status
            ++ text "\""))
    else workflow_error (text "report.checkId") (
        text "this department's automated reviewer runs "
        ++ quoted check_id
        ++ text ", not "
        ++ quoted report.check_id)

not_by_hand : Text → Result WorkflowOutcome
not_by_hand check_id = workflow_error (text "event") (
    text "check "
    ++ quoted check_id
    ++ text " decides this task; report the check result rather than reviewing it by hand")

unfoldable pub handle_checked : Task → PolicyEvent → WorkflowContext → Text → Result WorkflowOutcome
unfolding not_by_hand
handle_checked task (submit event) context check_id = queue_check task event context check_id
handle_checked task (check_reported report actor_id) context check_id =
    decide_check task report actor_id context check_id
handle_checked task (gate_decided decided) context check_id =
    reject_policy_event (text "automated") (gate_decided decided)
handle_checked task (approve event) context check_id = not_by_hand check_id
handle_checked task (request_changes actor_id reason) context check_id = not_by_hand check_id

unfoldable pub handle_automated : Task → PolicyEvent → WorkflowContext → Result WorkflowOutcome
handle_automated task event context =
    configured_check context.policy >>= (λ check_id. handle_checked task event context check_id)
