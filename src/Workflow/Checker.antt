-- ===== src/Workflow/Checker.antt =====
-- packages/orchestrator/src/workflow/checker.ts: a department that has to look at another's work
-- before it is done.
use virtual_office.Prelude.{
  Bool, ◌&&◌, ◌||◌, not, List, [], ◌∷◌, ◌++◌, Option, none, some, Text, text_eq, str_eq, any,
  filter, find?, includes, or_else, if◌then◌else◌,
}
use virtual_office.Core.Connection.{Connection, reviews, kind_beq}
use virtual_office.Task.Model.{Task}
use virtual_office.Workflow.Types.{PeerCandidate, EscalationGraph, WorkflowContext}
use virtual_office.Workflow.Peers.{rank_peers, first_id}

pub record PendingCheck : Type 0 where
  pub department_id : Text
  pub reviewer_id : Text
  pub connection_id : Text

-- `context.escalationGraph?.connections ?? []`
abbrev graph_connections : Option EscalationGraph → List Connection
graph_connections none = []
graph_connections (some graph) = graph.connections

abbrev pub connections_of : WorkflowContext → List Connection
connections_of context = graph_connections context.escalation_graph

abbrev pub checks : Text → Connection → Bool
checks department_id c =
    kind_beq c.kind reviews
    && c.enabled
    && str_eq c.to_id department_id
    && not (str_eq c.from_id department_id)

unfoldable pub checkers_of : Task → WorkflowContext → List Connection
checkers_of task context = filter (checks task.department_id) (connections_of context)

-- The best ranked colleague of a department.
unfoldable pub reviewer_in : Text → Option Text → List PeerCandidate → Option Text
reviewer_in department_id assignee_id colleagues = first_id (
    rank_peers (filter (λ c. str_eq c.department_id department_id) colleagues)
      (record { assignee_id = assignee_id; review_skills = [] }))

-- The loop of `checkerFor`, with its two `continue`s.
unfoldable pub checker_from : Task → List PeerCandidate → List Connection → Option PendingCheck
checker_from task colleagues [] = none
checker_from task colleagues (c ∷ cs) =
    let rest = checker_from task colleagues cs in
    if includes task.checked_by c.from_id
    then rest
    else elim (reviewer_in c.from_id task.assignee_id colleagues) [
      | none ↦ rest
      | some reviewer ↦
          some (record { department_id = c.from_id; reviewer_id = reviewer; connection_id = c.id })
    ]

unfoldable pub checker_for : Task → WorkflowContext → Option PendingCheck
checker_for task context =
    checker_from task (or_else context.colleagues []) (checkers_of task context)

-- The signature of one colleague.
unfoldable pub signed_by : Task → WorkflowContext → PeerCandidate → List Text
signed_by task context actor =
    if not (any (checkers_of task context) (λ c. str_eq c.from_id actor.department_id))
      || includes task.checked_by actor.department_id
    then task.checked_by
    else task.checked_by ++ actor.department_id ∷ []

unfoldable pub signed_off_by : Task → Option Text → WorkflowContext → List Text
signed_off_by task none context = task.checked_by
signed_off_by task (some actor_id) context =
    elim (find? (λ (c : PeerCandidate). str_eq c.id actor_id) (or_else context.colleagues [])) [
      | none ↦ task.checked_by
      | some actor ↦ signed_by task context actor
    ]
