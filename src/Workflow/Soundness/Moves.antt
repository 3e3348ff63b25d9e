-- ===== src/Workflow/Soundness/Moves.antt =====
-- Steps of a task, and the one that `applyTransition` makes.
use virtual_office.Prelude.{
  ℕ, ◌≡◌, refl, sym, ap, subst, ◌∙◌, List, [], ◌∷◌, ◌++◌, append-nil, append_assoc, Option, Text,
  inr,
}
use virtual_office.Core.Gates.{GatedAction}
use virtual_office.Core.Result.{Ensures, Ensures-then, Ensures-imp}
use virtual_office.Task.Status.{TaskStatus}
use virtual_office.Task.Model.{Task, TaskPriority, ContestWin, TransitionOptions}
use virtual_office.Task.Machine.{transition_event, transition_task}
use virtual_office.Task.Machine.History.{
  IsRecorded, IsWellFormed, Moves, Moves-IsWellFormed, transition_task-Moves,
}
use virtual_office.Workflow.Types.{
  WorkflowContext, WorkflowEvent, WorkflowEffect, WorkflowOutcome, apply_transition,
}

-- What no event touches.
pub record Frame : Type 0 where
  pub id : Text
  pub office_id : Text
  pub department_id : Text
  pub title : Text
  pub brief : Text
  pub priority : TaskPriority
  pub bench_id : Option Text
  pub contest_id : Option Text
  pub won : Option ContestWin
  pub gated_actions : List GatedAction
  pub depends_on : List Text
  pub route : List Text
  pub acceptance_criteria : List Text
  pub token_budget : Option ℕ
  pub deadline : Option ℕ
  pub created_at : ℕ

abbrev pub frame_of : Task → Frame
frame_of t = record {
  id = t.id;
  office_id = t.office_id;
  department_id = t.department_id;
  title = t.title;
  brief = t.brief;
  priority = t.priority;
  bench_id = t.bench_id;
  contest_id = t.contest_id;
  won = t.won;
  gated_actions = t.gated_actions;
  depends_on = t.depends_on;
  route = t.route;
  acceptance_criteria = t.acceptance_criteria;
  token_budget = t.token_budget;
  deadline = t.deadline;
  created_at = t.created_at;
}

abbrev pub Grows {ℓ} : {A : Type ℓ} → List A → List A → Type ℓ
Grows {A = A} xs ys = (more : List A) × (ys ≡ xs ++ more)

pub Grows-refl {ℓ} : {A : Type ℓ} (xs : List A) → Grows xs xs
Grows-refl xs = ([], sym (append-nil xs))

pub Grows-append {ℓ} : {A : Type ℓ} (xs ys zs : List A) → Grows xs ys → Grows xs (ys ++ zs)
Grows-append xs ys zs g = (g.0 ++ zs, ap (λ l. l ++ zs) g.1 ∙ append_assoc xs g.0 zs)

pub Grows-trans {ℓ} : {A : Type ℓ} (xs ys zs : List A) → Grows xs ys → Grows ys zs → Grows xs zs
Grows-trans xs ys zs g h = (g.0 ++ h.0, h.1 ∙ ap (λ l. l ++ h.0) g.1 ∙ append_assoc xs g.0 h.0)

-- A later state of the same work: nothing said of it is changed, and its history, its artifacts
-- and its signatures are only added to.
pub record IsStep (before after : Task) : Type 0 where
  pub kept : frame_of after ≡ frame_of before
  pub history_grows : Grows before.history after.history
  pub artifacts_grow : Grows before.artifacts after.artifacts
  pub signatures_grow : Grows before.checked_by after.checked_by

-- A task on its way to a move, and one that has been handled.
pub record IsStaged (before after : Task) : Type 0 where
  pub step : IsStep before after
  pub recorded : IsRecorded after

pub record IsSound (before : Task) (outcome : WorkflowOutcome) : Type 0 where
  pub step : IsStep before outcome.task
  pub well_formed : IsWellFormed outcome.task

abbrev pub IsSoundTask : Task → Task → Type 0
IsSoundTask before after = IsStep before after × IsWellFormed after

pub IsStaged_refl : (task : Task) → IsRecorded task → IsStaged task task
IsStaged_refl task r = record {
  step = record {
    kept = refl;
    history_grows = Grows-refl task.history;
    artifacts_grow = Grows-refl task.artifacts;
    signatures_grow = Grows-refl task.checked_by;
  };
  recorded = r;
}

pub transition_task-IsSoundTask :
    (before task : Task) (to : TaskStatus) (options : TransitionOptions)
    → IsStaged before task
    → Ensures (IsSoundTask before) (transition_task task to options)
transition_task-IsSoundTask before task to options s =
    Ensures-imp (Moves task to options) (IsSoundTask before) (transition_task task to options)
      (λ after m. (stepped after m, Moves-IsWellFormed task to options s.recorded m))
      (transition_task-Moves task to options)
  where
    stepped : (after : Task) → Moves task to options after → IsStep before after
    stepped after m = subst (IsStep before) (sym m.result) (record {
      kept = s.step.kept;
      history_grows =
          Grows-append before.history task.history (transition_event task to options ∷ [])
            s.step.history_grows;
      artifacts_grow = s.step.artifacts_grow;
      signatures_grow = s.step.signatures_grow;
    })

pub apply_transition-IsSound :
    (before task : Task) (to : TaskStatus) (event : WorkflowEvent) (context : WorkflowContext)
    (effects : List WorkflowEffect) (reason : Option Text)
    → IsStaged before task
    → Ensures (IsSound before) (apply_transition task to event context effects reason)
unfolding apply_transition
apply_transition-IsSound before task to event context effects reason s =
    Ensures-then (IsSoundTask before) (IsSound before) _ _
      (transition_task-IsSoundTask before task to _ s)
      (λ after h. record { step = h.0; well_formed = h.1 })

-- A handled task may be staged again.
pub IsSound-IsStaged :
    (before : Task) (o : WorkflowOutcome) → IsSound before o → IsStaged before o.task
IsSound-IsStaged before o s = record { step = s.step; recorded = s.well_formed.recorded }

module _ (before task : Task) (s : IsStaged before task) where
  -- Before other reviewers and with another holder and stage, with what was produced added:
  -- approvals start afresh.
  pub restaged :
      (assignee_id stage : Option Text) (reviewer_ids produced : List Text)
      → IsStaged before (record task {
        assignee_id = assignee_id;
        stage = stage;
        reviewer_ids = reviewer_ids;
        approvals = [];
        artifacts = task.artifacts ++ produced;
      })
  restaged assignee_id stage reviewer_ids produced = record {
    step = record {
      kept = s.step.kept;
      history_grows = s.step.history_grows;
      artifacts_grow = Grows-append before.artifacts task.artifacts produced s.step.artifacts_grow;
      signatures_grow = s.step.signatures_grow;
    };
    recorded = record {
      walk = s.recorded.walk;
      approvals_distinct = tt;
      approvals_within = inr tt;
    };
  }

  -- The same with nothing produced.
  pub reviewed_by :
      (assignee_id stage : Option Text) (reviewer_ids : List Text)
      → IsStaged before (record task {
        assignee_id = assignee_id;
        stage = stage;
        reviewer_ids = reviewer_ids;
        approvals = [];
      })
  reviewed_by assignee_id stage reviewer_ids = record {
    step = record {
      kept = s.step.kept;
      history_grows = s.step.history_grows;
      artifacts_grow = s.step.artifacts_grow;
      signatures_grow = s.step.signatures_grow;
    };
    recorded = record {
      walk = s.recorded.walk;
      approvals_distinct = tt;
      approvals_within = inr tt;
    };
  }
