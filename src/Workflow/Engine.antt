-- ===== src/Workflow/Engine.antt =====
-- packages/orchestrator/src/workflow/workflow-engine.ts: the engine.
use virtual_office.Prelude.{
  Bool, ◌&&◌, not, List, [], ◌∷◌, ◌++◌, map, Option, none, some, Text, text, text_eq, trim, join,
  str_eq, str_lt, sort, includes, is_empty, or_else, if◌then◌else◌,
}
use virtual_office.Core.Result.{Result, ok, ◌>>=◌}
use virtual_office.Core.Gates.{GatedAction, gate_eq}
use virtual_office.Core.Policy.{policy_kind}
use virtual_office.Task.Status.{
  in_progress, blocked, cancelled, transferred, assigned, done, status_beq, status_text,
}
use virtual_office.Task.Model.{Task}
use virtual_office.Task.Machine.{transition_task}
use virtual_office.Workflow.Types.{
  WorkflowContext, WorkflowEvent, start, reassign, block, unblock, cancel, await_decision,
  call_decided, policy_event, PolicyEvent, HeldCall, CallDecision, WorkflowEffect, notify,
  request_approval, supervisor, owner, assignee, WorkflowOutcome, PolicyHandler, workflow_error,
  apply_transition,
}
use virtual_office.Workflow.Raised.{handoff_effects, watch_effects}
use virtual_office.Workflow.Review.{quoted}
use virtual_office.Workflow.Peers.{is_same}
use virtual_office.Workflow.Policy.Direct.{handle_direct}
use virtual_office.Workflow.Policy.Manager.{handle_manager}
use virtual_office.Workflow.Policy.Peer.{handle_peer}
use virtual_office.Workflow.Policy.Quorum.{handle_quorum}
use virtual_office.Workflow.Policy.Pipeline.{handle_pipeline}
use virtual_office.Workflow.Policy.Automated.{handle_automated}
use virtual_office.Workflow.Policy.Gate.{handle_gate}

-- The map of handlers by kind, in the order of registration.
abbrev pub Handlers : Type 0
Handlers = List PolicyHandler

unfoldable pub handler_for : Handlers → Text → Option PolicyHandler
handler_for [] kind = none
handler_for (h ∷ hs) kind = if str_eq h.kind kind then some h else handler_for hs kind

-- `this.handlers.has(kind)`
abbrev has_handler : Handlers → Text → Bool
has_handler hs kind = includes (map (λ (h : PolicyHandler). h.kind) hs) kind

register : Handlers → Handlers → Option Handlers
register known [] = some known
register known (h ∷ hs) =
    let rest = register (known ++ h ∷ []) hs in if has_handler known h.kind then none else rest

-- `new WorkflowEngine(handlers)`, none where it throws on a second handler of one kind.
unfoldable pub new_engine : List PolicyHandler → Option Handlers
unfolding register
new_engine handlers = register [] handlers

unfoldable pub policy_kinds : Handlers → List Text
policy_kinds handlers = sort str_lt (map (λ (h : PolicyHandler). h.kind) handlers)

-- The gates of the held calls, each once, in the order met.
abbrev add_gates : List GatedAction → List GatedAction → List GatedAction
add_gates gates [] = gates
add_gates gates (g ∷ gs) = add_gates (if includes gates g then gates else gates ++ g ∷ []) gs

unfoldable pub gates_of_items : List GatedAction → List HeldCall → List GatedAction
gates_of_items gates [] = gates
gates_of_items gates (item ∷ items) = gates_of_items (add_gates gates item.gates) items

abbrev because_of : Text → Text
because_of why = if is_empty why then [] else text ": " ++ why

handed_over : Text → Text
handed_over why = text "handed over" ++ because_of why

unfoldable pub reassigned :
    Task → Text → Text → WorkflowEvent → Option Text → WorkflowContext → Result WorkflowOutcome
unfolding handed_over
reassigned task to why event actor_id context =
    apply_transition task transferred event context [] (some (handed_over why)) >>= (λ across.
      transition_task (record across.task { reviewer_ids = []; approvals = [] }) assigned
        (record {
          at = context.now;
          actor_id = actor_id;
          reason = some (handed_over why);
          assignee_id = some to;
          bench_id = none;
        })
      >>= (λ landed. ok (record {
        task = landed;
        effects =
            notify assignee
              (text "task " ++ quoted task.title ++ text " is yours now" ++ because_of why)
            ∷ [];
      })))

unfoldable pub reassign_task :
    Task → Text → Option Text → Option Text → WorkflowContext → Result WorkflowOutcome
reassign_task task to_employee_id reason actor_id context =
    let to = trim to_employee_id in
    if is_empty to
    then workflow_error (text "toEmployeeId") (text "work has to be handed to somebody")
    else (if is_same to task.assignee_id
        then workflow_error (text "toEmployeeId") (text "that is already who is holding it")
        else reassigned task to (trim (or_else reason [])) (reassign to_employee_id reason actor_id)
            actor_id context)

unfoldable pub await_task :
    Task → WorkflowEvent → Text → List HeldCall → WorkflowContext → Result WorkflowOutcome
await_task task event summary items context =
    if is_empty items
    then workflow_error (text "items") (text "work cannot wait for a decision about nothing")
    else apply_transition task blocked event context
        (request_approval (gates_of_items [] items) summary
          ∷ notify owner (
              text "task "
              ++ quoted task.title
              ++ text " is waiting for your decision: "
              ++ summary)
          ∷ [])
        (some summary)

abbrev decided_text : CallDecision → Text → Text → Text → Text
decided_text CallDecision.approved decided_by key reason = decided_by ++ text " approved " ++ key
decided_text CallDecision.declined decided_by key reason =
    decided_by ++ text " declined " ++ key ++ because_of reason

unfoldable pub decide_call :
    Task
    → WorkflowEvent
    → Text
    → CallDecision
    → Text
    → Text
    → WorkflowContext
    → Result WorkflowOutcome
decide_call task event key decision decided_by reason context =
    if is_empty decided_by
    then workflow_error (text "decidedBy") (text "a decision has to say who made it")
    else (if is_empty (trim key)
        then workflow_error (text "key") (text "a decision has to say which call it is about")
        else (if status_beq task.status blocked
            then (let said = decided_text decision decided_by key reason in
                apply_transition task in_progress event context
                  (notify assignee (said ++ text " on " ++ quoted task.title) ∷ []) (some said))
            else workflow_error (text "status") (
                text "only work that is waiting has a held call to decide; this task is \""
                ++ status_text task.status
                ++ text "\"")))

unfoldable pub unblock_task :
    Option Text → Task → WorkflowEvent → WorkflowContext → Result WorkflowOutcome
unblock_task none task event context =
    workflow_error (text "assigneeId")
      (text "a blocked task needs an assignee before it can resume; transfer or reassign it first")
unblock_task (some holder) task event context =
    apply_transition task in_progress event context [] none

unfoldable pub decide_by_policy :
    Handlers → Task → PolicyEvent → WorkflowContext → Result WorkflowOutcome
decide_by_policy handlers task event context =
    elim (handler_for handlers (policy_kind context.policy)) [
      | none ↦ workflow_error (text "policy.kind") (
          text "no handler for review policy \""
          ++ policy_kind context.policy
          ++ text "\"; supported: "
          ++ join (text ", ") (policy_kinds handlers))
      | some handler ↦ handler.handle task event context
    ]

unfoldable pub decide : Handlers → Task → WorkflowEvent → WorkflowContext → Result WorkflowOutcome
decide handlers task (start actor_id) context =
    apply_transition task in_progress (start actor_id) context [] none
decide handlers task (block reason actor_id) context =
    apply_transition task blocked (block reason actor_id) context
      (notify supervisor (text "task " ++ quoted task.title ++ text " is blocked: " ++ reason) ∷ [])
      (some reason)
decide handlers task (unblock actor_id) context =
    unblock_task task.assignee_id task (unblock actor_id) context
decide handlers task (cancel reason actor_id) context =
    apply_transition task cancelled (cancel reason actor_id) context [] (some reason)
decide handlers task (reassign to_employee_id reason actor_id) context =
    reassign_task task to_employee_id reason actor_id context
decide handlers task (await_decision actor_id summary items) context =
    await_task task (await_decision actor_id summary items) summary items context
decide handlers task (call_decided key decision decided_by reason) context =
    decide_call task (call_decided key decision decided_by reason) key decision (trim decided_by)
      (trim (or_else reason [])) context
decide handlers task (policy_event event) context = decide_by_policy handlers task event context

-- What the move makes happen elsewhere.
unfoldable pub raised : Task → WorkflowOutcome → WorkflowContext → List WorkflowEffect
raised task outcome context =
    (if not (status_beq task.status done) && status_beq outcome.task.status done
      then handoff_effects outcome.task context
      else [])
    ++ watch_effects task outcome.task outcome.effects context

unfoldable pub handle : Handlers → Task → WorkflowEvent → WorkflowContext → Result WorkflowOutcome
handle handlers task event context = decide handlers task event context >>= (λ outcome.
    ok (record outcome { effects = outcome.effects ++ raised task outcome context }))

unfoldable pub default_handlers : List PolicyHandler
default_handlers =
    record { kind = text "direct"; handle = handle_direct }
    ∷ record { kind = text "manager"; handle = handle_manager }
    ∷ record { kind = text "peer"; handle = handle_peer }
    ∷ record { kind = text "quorum"; handle = handle_quorum }
    ∷ record { kind = text "pipeline"; handle = handle_pipeline }
    ∷ record { kind = text "automated"; handle = handle_automated }
    ∷ record { kind = text "gate"; handle = handle_gate }
    ∷ []
