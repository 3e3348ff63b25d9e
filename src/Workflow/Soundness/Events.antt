-- ===== src/Workflow/Soundness/Events.antt =====
-- The record of a task under every event that the engine handles.
use virtual_office.Prelude.{
  ◌≡◌, [], ◌∷◌, Option, none, some, Text, trim, is_empty, str_eq, subst, All, Bool-cases,
  Option-cases, inl, inr,
}
use virtual_office.Core.Result.{Ensures, Ensures-then, Ensures-if}
use virtual_office.Core.Policy.{policy_kind}
use virtual_office.Task.Status.{in_progress, blocked, cancelled, transferred, assigned, status_beq}
use virtual_office.Task.Model.{Task}
use virtual_office.Task.Machine.History.{IsWellFormed}
use virtual_office.Workflow.Types.{
  WorkflowContext, WorkflowEvent, start, reassign, block, unblock, cancel, await_decision,
  call_decided, policy_event, PolicyEvent, PolicyHandler,
}
use virtual_office.Workflow.Peers.{is_same}
use virtual_office.Workflow.Engine.{
  Handlers, handler_for, decide, decide_by_policy, reassign_task, reassigned, await_task,
  decide_call, unblock_task, handle, default_handlers,
}
use virtual_office.Workflow.Soundness.Moves.{
  IsStaged, IsSound, IsSoundTask, IsStaged_refl, IsSound-IsStaged, apply_transition-IsSound,
  transition_task-IsSoundTask, reviewed_by,
}
use virtual_office.Workflow.Soundness.Reviewed.{
  handle_direct-IsSound, handle_manager-IsSound, handle_peer-IsSound, handle_quorum-IsSound,
}
use virtual_office.Workflow.Soundness.Gated.{
  handle_pipeline-IsSound, handle_automated-IsSound, handle_gate-IsSound,
}

-- A handler that keeps the record of every well-formed task.
abbrev pub IsSoundHandler : PolicyHandler → Type 0
IsSoundHandler h =
    (task : Task) (event : PolicyEvent) (context : WorkflowContext)
    → IsWellFormed task
    → Ensures (IsSound task) (h.handle task event context)

default_handlers-IsSoundHandler : All IsSoundHandler default_handlers
unfolding default_handlers
default_handlers-IsSoundHandler = (
  (λ t e c w. handle_direct-IsSound t c w e),
  (
    (λ t e c w. handle_manager-IsSound t c w e),
    (
      (λ t e c w. handle_peer-IsSound t c w e),
      (
        (λ t e c w. handle_quorum-IsSound t c w e),
        (
          (λ t e c w. handle_pipeline-IsSound t c w e),
          (
            (λ t e c w. handle_automated-IsSound t c w e),
            ((λ t e c w. handle_gate-IsSound t c w e), tt),
          ),
        ),
      ),
    ),
  ),
)

pub handler_for-All {ℓ} :
    (P : PolicyHandler → Type ℓ) (hs : Handlers) (kind : Text) (h : PolicyHandler)
    → All P hs
    → handler_for hs kind ≡ some h
    → P h
unfolding handler_for
handler_for-All P [] kind h a e = absurd (clash e)
  where
    clash : none ≡ some h → ⊥
    clash q = cc
handler_for-All P (x ∷ hs) kind h a e = elim (Bool-cases (str_eq x.kind kind)) [
  | inl q ↦ subst P (injective (rw q at e)) a.0
  | inr q ↦ handler_for-All P hs kind h a.1 (rw q at e)
]
  where
    injective : some x ≡ some h → x ≡ h
    injective q = cc

module _ (task : Task) (context : WorkflowContext) (w : IsWellFormed task) where
  abbrev here : IsStaged task task
  here = IsStaged_refl task w.recorded

  reassign_task-IsSound :
      (to : Text) (reason actor_id : Option Text)
      → Ensures (IsSound task) (reassign_task task to reason actor_id context)
  unfolding reassign_task reassigned
  reassign_task-IsSound to reason actor_id =
      Ensures-if (IsSound task) (is_empty (trim to)) _ _ (λ e. tt)
        λ e.
          Ensures-if (IsSound task) (is_same (trim to) task.assignee_id) _ _ (λ q. tt)
            λ q.
              Ensures-then (IsSound task) (IsSound task) _ _
                (apply_transition-IsSound task task transferred _ context _ _ here)
                λ across h.
                  Ensures-then (IsSoundTask task) (IsSound task) _ _
                    (transition_task-IsSoundTask task _ assigned _ (
                      reviewed_by task across.task (IsSound-IsStaged task across h)
                        across.task.assignee_id across.task.stage []))
                    (λ landed k. record { step = k.0; well_formed = k.1 })

  unblock_task-IsSound :
      (holder : Option Text) (event : WorkflowEvent)
      → Ensures (IsSound task) (unblock_task holder task event context)
  unfolding unblock_task
  unblock_task-IsSound none event = tt
  unblock_task-IsSound (some e) event =
      apply_transition-IsSound task task in_progress event context _ _ here

  decide-IsSound :
      (handlers : Handlers) (event : WorkflowEvent)
      → All IsSoundHandler handlers
      → Ensures (IsSound task) (decide handlers task event context)
  unfolding decide await_task decide_call decide_by_policy
  decide-IsSound handlers (start actor_id) a =
      apply_transition-IsSound task task in_progress _ context _ _ here
  decide-IsSound handlers (block reason actor_id) a =
      apply_transition-IsSound task task blocked _ context _ _ here
  decide-IsSound handlers (unblock actor_id) a = unblock_task-IsSound task.assignee_id _
  decide-IsSound handlers (cancel reason actor_id) a =
      apply_transition-IsSound task task cancelled _ context _ _ here
  decide-IsSound handlers (reassign to reason actor_id) a = reassign_task-IsSound to reason actor_id
  decide-IsSound handlers (await_decision actor_id summary items) a =
      Ensures-if (IsSound task) (is_empty items) _ _ (λ e. tt)
        (λ e. apply_transition-IsSound task task blocked _ context _ _ here)
  decide-IsSound handlers (call_decided key decision decided_by reason) a =
      Ensures-if (IsSound task) (is_empty (trim decided_by)) _ _ (λ e. tt)
        λ e.
          Ensures-if (IsSound task) (is_empty (trim key)) _ _ (λ q. tt)
            λ q.
              Ensures-if (IsSound task) (status_beq task.status blocked) _ _
                (λ r. apply_transition-IsSound task task in_progress _ context _ _ here) (λ r. tt)
  decide-IsSound handlers (policy_event event) a =
      elim (Option-cases (handler_for handlers (policy_kind context.policy))) [
        | inl e ↦ rw (e, decide_by_policy) tt
        | inr (h, e) ↦
            rw (e, decide_by_policy)
              (handler_for-All IsSoundHandler handlers (policy_kind context.policy) h a e task event
                context w)
      ]

handle-IsSound :
    (handlers : Handlers) (task : Task) (event : WorkflowEvent) (context : WorkflowContext)
    → All IsSoundHandler handlers
    → IsWellFormed task
    → Ensures (IsSound task) (handle handlers task event context)
unfolding handle
handle-IsSound handlers task event context a w =
    Ensures-then (IsSound task) (IsSound task) _ _ (decide-IsSound task context w handlers event a)
      (λ outcome h. record { step = h.step; well_formed = h.well_formed })

-- Every event that the engine accepts, under every review policy, takes a well-formed task to a
-- well-formed one: the new history extends the old one and is still a walk through the table of
-- moves that ends at the status; approvals are of distinct reviewers of the task; an assigned task
-- has a holder and one in the backlog none. Nothing else said of the work is changed, and no
-- artifact and no signature is lost.
pub handle-default-IsSound :
    (task : Task) (event : WorkflowEvent) (context : WorkflowContext)
    → IsWellFormed task
    → Ensures (IsSound task) (handle default_handlers task event context)
handle-default-IsSound task event context w =
    handle-IsSound default_handlers task event context default_handlers-IsSoundHandler w
