-- ===== src/Workflow/Types.antt =====
-- packages/orchestrator/src/workflow/workflow-types.ts and check-runner.ts: what goes into the
-- engine and what comes out, and `applyTransition`. The data of escalation.ts stand here too.
use virtual_office.Prelude.{ℕ, List, Option, none, some, Text}
use virtual_office.Core.Result.{Result, ok, err, ◌>>=◌, error}
use virtual_office.Core.Gates.{GatedAction}
use virtual_office.Core.Policy.{ReviewPolicy}
use virtual_office.Core.Connection.{Connection, HandoffAssignment}
use virtual_office.Core.Unknown.{Fields}
use virtual_office.Task.Status.{TaskStatus}
use virtual_office.Task.Model.{Task, TaskPriority}
use virtual_office.Task.Machine.{transition_task}

pub data EmployeeStatus : Type 0 where
  active paused terminated : EmployeeStatus

pub record PeerCandidate : Type 0 where
  pub id : Text
  pub status : EmployeeStatus
  pub department_id : Text
  pub skill_ids : List Text
  pub open_tasks : ℕ

pub record EscalationEmployee : Type 0 where
  pub id : Text
  pub department_id : Text
  pub supervisor_id : Option Text
  pub status : EmployeeStatus

pub record EscalationGraph : Type 0 where
  pub employees : List EscalationEmployee
  pub connections : List Connection

pub data EscalationTarget : Type 0 where
  employee department : Text → ℕ → EscalationTarget
  owner : ℕ → EscalationTarget

pub record WorkflowContext : Type 0 where
  pub policy : ReviewPolicy
  pub now : ℕ
  pub supervisor_id : Option Text
  pub peers : Option (List PeerCandidate)
  pub colleagues : Option (List PeerCandidate)
  pub review_skills : Option (List Text)
  pub acceptance_criteria : Option (List Text)
  pub documents : Option (List Text)
  pub escalation_graph : Option EscalationGraph

pub data CheckOutcome : Type 0 where
  passed failed errored : CheckOutcome

pub record CheckReport : Type 0 where
  pub check_id : Text
  pub outcome : CheckOutcome
  pub output : Text
  pub met : Option (List Text)

pub record HeldCall : Type 0 where
  pub key : Text
  pub name : Text
  pub gates : List GatedAction
  pub detail : Text
  pub input : Fields

pub record Submit : Type 0 where
  pub actor_id : Text
  pub artifacts : Option (List Text)
  pub met : Option (List Text)

pub record Approve : Type 0 where
  pub actor_id : Text
  pub met : Option (List Text)

pub data CallDecision : Type 0 where
  approved declined : CallDecision

pub data GateDecision : Type 0 where
  approved rejected : GateDecision

pub record GateDecided : Type 0 where
  pub decision : GateDecision
  pub decided_by : Text
  pub reason : Option Text

-- The events that a review policy decides.
pub data PolicyEvent : Type 0 where
  submit : Submit → PolicyEvent
  approve : Approve → PolicyEvent
  request_changes : (actor_id reason : Text) → PolicyEvent
  check_reported : (report : CheckReport) (actor_id : Option Text) → PolicyEvent
  gate_decided : GateDecided → PolicyEvent

pub data WorkflowEvent : Type 0 where
  start : (actor_id : Option Text) → WorkflowEvent
  reassign : (to_employee_id : Text) (reason actor_id : Option Text) → WorkflowEvent
  block : (reason : Text) (actor_id : Option Text) → WorkflowEvent
  unblock : (actor_id : Option Text) → WorkflowEvent
  cancel : (reason : Text) (actor_id : Option Text) → WorkflowEvent
  await_decision : (actor_id summary : Text) (items : List HeldCall) → WorkflowEvent
  call_decided :
      (key : Text) (decision : CallDecision) (decided_by : Text) (reason : Option Text)
      → WorkflowEvent
  policy_event : PolicyEvent → WorkflowEvent

-- `event.actorId ?? null` of each event
abbrev pub policy_actor : PolicyEvent → Option Text
policy_actor (submit s) = some s.actor_id
policy_actor (approve a) = some a.actor_id
policy_actor (request_changes actor_id reason) = some actor_id
policy_actor (check_reported report actor_id) = actor_id
policy_actor (gate_decided g) = none

abbrev pub actor_of : WorkflowEvent → Option Text
actor_of (start actor_id) = actor_id
actor_of (reassign to reason actor_id) = actor_id
actor_of (block reason actor_id) = actor_id
actor_of (unblock actor_id) = actor_id
actor_of (cancel reason actor_id) = actor_id
actor_of (await_decision actor_id summary items) = some actor_id
actor_of (call_decided key decision decided_by reason) = none
actor_of (policy_event e) = policy_actor e

pub data Audience : Type 0 where
  supervisor owner assignee reviewer : Audience

pub data Because : Type 0 where
  handoff watching : Because

pub record CreateWork : Type 0 where
  pub because : Because
  pub connection_id : Text
  pub to_department_id : Text
  pub title : Text
  pub brief : Text
  pub artifacts : List Text
  pub documents : List Text
  pub priority : TaskPriority
  pub route : List Text
  pub assign : HandoffAssignment

pub data WorkflowEffect : Type 0 where
  notify : (audience : Audience) (message : Text) → WorkflowEffect
  escalate : (reason : Text) (to : EscalationTarget) → WorkflowEffect
  run_check : (check_id : Text) → WorkflowEffect
  create_work : CreateWork → WorkflowEffect
  request_approval : (gates : List GatedAction) (summary : Text) → WorkflowEffect

pub record WorkflowOutcome : Type 0 where
  pub task : Task
  pub effects : List WorkflowEffect

pub record PolicyHandler : Type 0 where
  pub kind : Text
  pub handle : Task → PolicyEvent → WorkflowContext → Result WorkflowOutcome

abbrev pub workflow_error {ℓ} : {A : Type ℓ} → Text → Text → Result A
workflow_error path message = err (error path message)

unfoldable pub apply_transition :
    Task
    → TaskStatus
    → WorkflowEvent
    → WorkflowContext
    → List WorkflowEffect
    → Option Text
    → Result WorkflowOutcome
apply_transition task to event context effects reason =
    transition_task task to (record {
      at = context.now;
      actor_id = actor_of event;
      reason = reason;
      assignee_id = none;
      bench_id = none;
    })
    >>= (λ after. ok (record { task = after; effects = effects }))
