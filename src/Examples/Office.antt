-- ===== src/Examples/Office.antt =====
-- A small office: one colleague reviews the other's work.
use virtual_office.Prelude.{ℕ, refl, inr, List, [], ◌∷◌, Option, none, some, Text, str_eq, text_eq}
use virtual_office.Core.Policy.{ReviewPolicy, manager}
use virtual_office.Task.Status.{TaskStatus, assigned, in_progress, in_review, done, can_transition}
use virtual_office.Task.Model.{
  Task, TaskEvent, CreateTaskInput, TaskDeps, TransitionOptions, UpdateTaskInput, normal,
}
use virtual_office.Task.Machine.History.{IsWellFormed}
use virtual_office.Workflow.Types.{
  WorkflowContext, WorkflowEvent, policy_event, approve, request_changes, Approve, PeerCandidate,
  active,
}
use virtual_office.Workflow.Peers.{PeerSelection}
use virtual_office.Prelude.{◌≢◌, true}
use virtual_office.Core.Gates.{deploy, spend, gate_beq}
use virtual_office.Core.Policy.{gate}
use virtual_office.Core.Unknown.{end}
use virtual_office.Core.Connection.{Connection, ConnectionKind, escalates_to, handoff}
use virtual_office.Workflow.Types.{EmployeeStatus, paused, EscalationEmployee, EscalationGraph}
use virtual_office.Workflow.Policy.Gate.{gates_awaiting}

abbrev pub ann : Text
ann = 97 ∷ []

abbrev pub bob : Text
bob = 98 ∷ []

abbrev pub cy : Text
cy = 99 ∷ []

abbrev pub moved_to : TaskStatus → TaskStatus → ℕ → TaskEvent
moved_to from to at = record {
  at = at;
  from = some from;
  to = to;
  actor_id = some ann;
  reason = none;
}

-- Ann's work, before Bob and Cy, with Bob's approval.
abbrev pub report : Task
report = record {
  id = 1 ∷ [];
  office_id = 2 ∷ [];
  department_id = 3 ∷ [];
  title = 114 ∷ [];
  brief = [];
  priority = normal;
  status = in_review;
  assignee_id = some ann;
  bench_id = none;
  contest_id = none;
  won = none;
  reviewer_ids = bob ∷ cy ∷ [];
  approvals = bob ∷ [];
  stage = none;
  gated_actions = [];
  depends_on = [];
  artifacts = [];
  route = [];
  acceptance_criteria = [];
  checked_by = [];
  token_budget = none;
  deadline = none;
  history =
      record { at = 0; from = none; to = assigned; actor_id = none; reason = none }
      ∷ moved_to assigned in_progress 1
      ∷ moved_to in_progress in_review 2
      ∷ [];
  created_at = 0;
  updated_at = 2;
}

pub report-IsWellFormed : IsWellFormed report
unfolding str_eq can_transition
report-IsWellFormed = record {
  recorded = record {
    walk = (refl, inr refl, (refl, refl, (refl, refl, refl)));
    approvals_distinct = (refl, tt);
    approvals_within = inr (refl, tt);
  };
  assigned_held = λ e. cc;
  backlog_free = λ e. cc;
}

abbrev pub finished : Task
finished = record report { status = done }

abbrev pub context_of : ReviewPolicy → WorkflowContext
context_of policy = record {
  policy = policy;
  now = 5;
  supervisor_id = some bob;
  peers = none;
  colleagues = none;
  review_skills = none;
  acceptance_criteria = none;
  documents = none;
  escalation_graph = none;
}

abbrev pub approval : Approve
approval = record { actor_id = cy; met = none }

abbrev pub approved_by_cy : WorkflowEvent
approved_by_cy = policy_event (approve approval)

abbrev pub asked_by_bob : WorkflowEvent
asked_by_bob = policy_event (request_changes bob (120 ∷ []))

abbrev pub options : TransitionOptions
options = record { at = 5; actor_id = some cy; reason = none; assignee_id = none; bench_id = none }

abbrev pub wanted : CreateTaskInput
wanted = record {
  office_id = 2 ∷ [];
  department_id = 3 ∷ [];
  title = 114 ∷ [];
  brief = none;
  priority = none;
  assignee_id = some ann;
  bench_id = none;
  contest_id = none;
  reviewer_ids = some (bob ∷ []);
  route = none;
  artifacts = none;
  acceptance_criteria = none;
  checked_by = none;
  gated_actions = none;
  depends_on = none;
  token_budget = none;
  deadline = none;
}

abbrev pub deps : TaskDeps
deps = record { id = 1 ∷ []; now = 0 }

abbrev pub retitled : UpdateTaskInput
retitled = record {
  title = some (115 ∷ []);
  brief = none;
  priority = none;
  acceptance_criteria = none;
}

abbrev pub colleague : Text → ℕ → PeerCandidate
colleague id open_tasks = record {
  id = id;
  status = active;
  department_id = 3 ∷ [];
  skill_ids = (9 ∷ []) ∷ [];
  open_tasks = open_tasks;
}

abbrev pub team : List PeerCandidate
team = colleague ann 0 ∷ colleague bob 2 ∷ colleague cy 1 ∷ []

abbrev pub selection : PeerSelection
selection = record { assignee_id = some ann; review_skills = (9 ∷ []) ∷ [] }

abbrev pub deployment : Task
deployment = record report { gated_actions = deploy ∷ spend ∷ [] }

pub deployment_held : gates_awaiting deployment.gated_actions (gate (deploy ∷ [])) ≢ []
unfolding gates_awaiting gate_beq
deployment_held e = cc

abbrev pub member : Text → Option Text → EmployeeStatus → EscalationEmployee
member id supervisor_id status = record {
  id = id;
  department_id = 3 ∷ [];
  supervisor_id = supervisor_id;
  status = status;
}

abbrev pub arrow : ConnectionKind → Text → Connection
arrow kind to = record {
  id = 7 ∷ [];
  office_id = 2 ∷ [];
  from_id = 3 ∷ [];
  to_id = to;
  kind = kind;
  enabled = true;
  rules = end;
  created_at = 0;
}

-- Ann answers to Bob, who is paused, and Bob to Cy; the department hands on to another.
abbrev pub office : EscalationGraph
office = record {
  employees =
      member ann (some bob) active ∷ member bob (some cy) paused ∷ member cy none active ∷ [];
  connections = arrow escalates_to (4 ∷ []) ∷ arrow handoff (5 ∷ []) ∷ [];
}

abbrev pub in_office : WorkflowContext
in_office = record (context_of (manager 1)) { escalation_graph = some office }
