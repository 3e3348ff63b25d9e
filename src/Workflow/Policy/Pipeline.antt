-- ===== src/Workflow/Policy/Pipeline.antt =====
-- packages/orchestrator/src/workflow/pipeline-policy.ts: an ordered chain of stages, each with its
-- worker and its reviewers.
use virtual_office.Prelude.{
  List, [], ◌∷◌, ◌++◌, map, Option, none, some, Text, text, decimal, join, str_eq, is_empty,
  or_else, if◌then◌else◌,
}
use virtual_office.Core.Result.{Result, ok, ◌>>=◌}
use virtual_office.Core.Policy.{ReviewPolicy, ReviewStage, pipeline, policy_kind}
use virtual_office.Task.Status.{approved, done, assigned}
use virtual_office.Task.Model.{Task}
use virtual_office.Workflow.Types.{
  WorkflowContext, PolicyEvent, policy_event, submit, approve, request_changes, check_reported,
  gate_decided, Submit, Approve, WorkflowOutcome, notify, reviewer, assignee, workflow_error,
  apply_transition,
}
use virtual_office.Workflow.Review.{
  request_changes_or_escalate, submit_for_review, supervisor_choice, reject_policy_event,
  tally_approval, ApprovalTally, gathering, reached, quoted,
}

unfoldable pub pipeline_stages : ReviewPolicy → Result (List ReviewStage)
pipeline_stages (pipeline stages max) = ok stages
pipeline_stages policy =
    workflow_error (text "policy")
      (text "a pipeline policy needs ordered stages; got \"" ++ policy_kind policy ++ text "\"")

-- A stage, and the one after it: `stages[index + 1]`.
pub record StagePosition : Type 0 where
  pub stage : ReviewStage
  pub next : Option ReviewStage

abbrev head_stage : List ReviewStage → Option ReviewStage
head_stage [] = none
head_stage (s ∷ ss) = some s

-- The first stage of the name.
unfoldable pub find_stage : Text → List ReviewStage → Option StagePosition
find_stage name [] = none
find_stage name (s ∷ ss) =
    if str_eq s.name name
    then some (record { stage = s; next = head_stage ss })
    else find_stage name ss

stage_lost : Text → List ReviewStage → Text
stage_lost name stages =
    text "the task is at stage \""
    ++ name
    ++ text "\", which this department's pipeline no longer declares; its stages are "
    ++ join (text " -> ") (map (λ (s : ReviewStage). s.name) stages)

-- Where the work stands in the chain: its recorded stage, or the first one.
unfoldable pub locate : Option Text → List ReviewStage → Result StagePosition
unfolding stage_lost
locate stage [] = workflow_error (text "policy") (text "a pipeline policy needs at least one stage")
locate stage (first ∷ rest) = elim (find_stage (or_else stage first.name) (first ∷ rest)) [
  | some position ↦ ok position
  | none ↦ workflow_error (text "stage") (stage_lost (or_else stage first.name) (first ∷ rest))
]

-- `stage.workerId ?? task.assigneeId`
abbrev pub worker_or : Option Text → Option Text → Option Text
worker_or none current = current
worker_or (some w) current = some w

unfoldable pub enter_stage : Task → Submit → WorkflowContext → ReviewStage → Result WorkflowOutcome
enter_stage task event context stage =
    let staged : Task = record task {
      stage = some stage.name;
      assignee_id = worker_or stage.worker_id task.assignee_id;
    } in
    if is_empty stage.reviewer_ids
    then supervisor_choice staged context
      >>= (λ choice. submit_for_review staged event context choice)
    else submit_for_review staged event context
        (record { reviewer_ids = stage.reviewer_ids; audience = reviewer })

-- After the stage is cleared: done after the last, and with the next stage's worker otherwise.
unfoldable pub leave_stage :
    Task → Approve → WorkflowContext → StagePosition → Result WorkflowOutcome
leave_stage task event context position = elim position.next [
  | none ↦
      apply_transition task done (policy_event (approve event)) context
        (notify assignee (
            text "task "
            ++ quoted task.title
            ++ text " cleared its final stage "
            ++ quoted position.stage.name)
          ∷ [])
        none
  | some next ↦
      apply_transition
        (record task {
          stage = some next.name;
          assignee_id = worker_or next.worker_id task.assignee_id;
          reviewer_ids = [];
          approvals = [];
        })
        assigned (policy_event (approve event)) context
        (notify assignee (
            quoted task.title
            ++ text " cleared stage "
            ++ quoted position.stage.name
            ++ text " and moves to "
            ++ quoted next.name)
          ∷ [])
        (some (text "cleared stage " ++ quoted position.stage.name))
]

abbrev pub on_stage_tally :
    Approve → WorkflowContext → StagePosition → ApprovalTally → Result WorkflowOutcome
on_stage_tally event context position (gathering task gathered) = ok (record {
  task = task;
  effects =
      notify reviewer (
        text "stage "
        ++ quoted position.stage.name
        ++ text " of "
        ++ quoted task.title
        ++ text " has "
        ++ decimal gathered
        ++ text " of "
        ++ decimal position.stage.required
        ++ text " approvals")
      ∷ [];
})
on_stage_tally event context position (reached task) =
    apply_transition task approved (policy_event (approve event)) context [] none
    >>= (λ here. leave_stage here.task event context position)

unfoldable pub sign_off_stage :
    Task → Approve → WorkflowContext → StagePosition → Result WorkflowOutcome
sign_off_stage task event context position =
    tally_approval task event position.stage.required
    >>= (λ tally. on_stage_tally event context position tally)

unfoldable pub handle_stage :
    Task → PolicyEvent → WorkflowContext → StagePosition → Result WorkflowOutcome
handle_stage task (submit event) context position = enter_stage task event context position.stage
handle_stage task (approve event) context position = sign_off_stage task event context position
handle_stage task (request_changes actor_id reason) context position =
    request_changes_or_escalate
      (record task { assignee_id = worker_or position.stage.worker_id task.assignee_id })
      (policy_event (request_changes actor_id reason)) context reason none
handle_stage task (check_reported report actor_id) context position =
    reject_policy_event (text "pipeline") (check_reported report actor_id)
handle_stage task (gate_decided decided) context position =
    reject_policy_event (text "pipeline") (gate_decided decided)

unfoldable pub handle_pipeline : Task → PolicyEvent → WorkflowContext → Result WorkflowOutcome
handle_pipeline task event context = pipeline_stages context.policy >>= (λ stages.
    locate task.stage stages >>= (λ position. handle_stage task event context position))
