-- ===== src/Task/Create/Laws.antt =====
-- What `createTask` and `updateTask` accept, and what they give back.
use virtual_office.Prelude.{
  append-eq-nil, ℕ, suc, zero, ◌≤◌, ◌≡◌, refl, false, List, [], ◌∷◌, Option, none, some, Text,
  length, is_empty, any, includes, text_eq, Distinct, Bool-cases, inl, inr, arith, ◌≢◌, ◌⊎◌,
}
use virtual_office.Core.Unknown.{Number, nat, other}
use virtual_office.Core.Result.{Ensures, ValidationError}
use virtual_office.Task.Status.{backlog, assigned, is_terminal}
use virtual_office.Task.Model.{Task, TaskPriority, CreateTaskInput, TaskDeps, UpdateTaskInput}
use virtual_office.Task.Machine.History.{IsWellFormed}
use virtual_office.Task.Validate.{bad_criterion}
use virtual_office.Task.Validate.Laws.{
  error_if-nil, unique_ids-iff_Distinct, validate_title-nil, validate_brief-nil,
  validate_criteria-nil,
}
use virtual_office.Task.Create.{
  create_errors, reviewer_errors, dependency_errors, budget_errors, new_task, unless_errors,
  create_task, update_task, budget_of, initial_status, reviews_own,
}

-- What may be said of a piece of work: each check of the source, on the task itself.
pub record IsStated (task : Task) : Type 0 where
  pub title_nonempty : is_empty task.title ≡ false
  pub title_bounded : length task.title ≤ 200
  pub brief_bounded : length task.brief ≤ 20000
  pub criteria_stated : any task.acceptance_criteria bad_criterion ≡ false
  pub criteria_distinct : Distinct task.acceptance_criteria

pub record IsStaffed (task : Task) : Type 0 where
  pub reviewers_distinct : Distinct task.reviewer_ids
  pub not_own_reviewer : reviews_own task.assignee_id task.reviewer_ids ≡ false
  pub not_on_itself : includes task.depends_on task.id ≡ false
  pub dependencies_distinct : Distinct task.depends_on
  pub budget_positive : task.token_budget ≢ some 0

pub unless_errors-Ensures {ℓ} :
    (P : Task → Type ℓ) (errors : List ValidationError) (p : Option TaskPriority)
    (make : TaskPriority → Task)
    → (errors ≡ [] → (q : TaskPriority) → p ≡ some q → P (make q))
    → Ensures P (unless_errors errors p make)
unless_errors-Ensures P [] (some q) make h = h refl q refl
unless_errors-Ensures P [] none make h = tt
unless_errors-Ensures P (e ∷ errors) p make h = tt

budget_errors-nil : (b : Option Number) → budget_errors b ≡ [] → budget_of b ≢ some 0
unfolding budget_errors
budget_errors-nil none h z = cc
budget_errors-nil (some (nat zero)) h z = cc
budget_errors-nil (some (nat (suc n))) h z = ground arith
budget_errors-nil (some other) h z = cc

pub new_task-IsWellFormed :
    (input : CreateTaskInput) (deps : TaskDeps) (p : TaskPriority)
    → IsWellFormed (new_task input deps p)
unfolding new_task
new_task-IsWellFormed input deps p = record {
  recorded = record {
    walk = (refl, start input.assignee_id, refl);
    approvals_distinct = tt;
    approvals_within = inr tt;
  };
  assigned_held = held input.assignee_id;
  backlog_free = free input.assignee_id;
}
  where
    start : (a : Option Text) → (initial_status a ≡ backlog) ⊎ (initial_status a ≡ assigned)
    start none = inl refl
    start (some e) = inr refl

    held : (a : Option Text) → initial_status a ≡ assigned → a ≢ none
    held none h z = cc
    held (some e) h z = cc

    free : (a : Option Text) → initial_status a ≡ backlog → a ≡ none
    free none h = refl
    free (some e) h = cc

-- What `createTask` returns is well formed, states what it is for within the bounds, has distinct
-- reviewers who are not its assignee, distinct dependencies that are not itself, and no budget
-- of zero.
pub create_task-Ensures :
    (input : CreateTaskInput) (deps : TaskDeps)
    → Ensures (λ task. IsWellFormed task × IsStated task × IsStaffed task) (create_task input deps)
unfolding create_task new_task reviewer_errors dependency_errors
create_task-Ensures input deps =
    unless_errors-Ensures _ (create_errors input deps.id) _ (new_task input deps) λ none_found p e.
      let (title, r1) = append-eq-nil _ _ none_found in
      let (brief, r2) = append-eq-nil _ _ r1 in
      let (_, r3) = append-eq-nil _ _ r2 in
      let (reviewers, r4) = append-eq-nil _ _ r3 in
      let (_, r5) = append-eq-nil _ _ r4 in
      let (dependencies, r6) = append-eq-nil _ _ r5 in
      let (_, r7) = append-eq-nil _ _ r6 in
      let (criteria, r8) = append-eq-nil _ _ r7 in
      let (_, r9) = append-eq-nil _ _ r8 in
      let (budget, _) = append-eq-nil _ _ r9 in
      let (distinct, own) = append-eq-nil _ _ reviewers in
      let (itself, unique) = append-eq-nil _ _ dependencies in
      (
        new_task-IsWellFormed input deps p,
        record {
          title_nonempty = (validate_title-nil _ title).0;
          title_bounded = (validate_title-nil _ title).1;
          brief_bounded = validate_brief-nil _ brief;
          criteria_stated = (validate_criteria-nil _ criteria).0;
          criteria_distinct = (validate_criteria-nil _ criteria).1;
        },
        record {
          reviewers_distinct = (unique_ids-iff_Distinct _ _ _).0 distinct;
          not_own_reviewer = error_if-nil _ _ _ own;
          not_on_itself = error_if-nil _ _ _ itself;
          dependencies_distinct = (unique_ids-iff_Distinct _ _ _).0 unique;
          budget_positive = budget_errors-nil _ budget;
        },
      )

pub record IsUpdateOf (task : Task) (at : ℕ) (after : Task) : Type 0 where
  pub was_live : is_terminal task.status ≡ false
  pub well_formed : IsWellFormed after
  pub stated : IsStated after
  pub kept : after ≡ record task {
    title = after.title;
    brief = after.brief;
    priority = after.priority;
    acceptance_criteria = after.acceptance_criteria;
    updated_at = at;
  }

-- A change that is accepted is of work that is not over, leaves it well formed and stated within
-- the bounds, and touches nothing but what the work is for and the time of the last change: its
-- status, its holder, its gated categories and its history are as they were.
pub update_task-IsUpdateOf :
    (task : Task) (changes : UpdateTaskInput) (at : ℕ)
    → IsWellFormed task
    → Ensures (IsUpdateOf task at) (update_task task changes at)
unfolding update_task
update_task-IsUpdateOf task changes at w = elim (Bool-cases (is_terminal task.status)) [
  | inl over ↦ rw over tt
  | inr live ↦ rw live (
      unless_errors-Ensures (IsUpdateOf task at) _ _ _ λ none_found p e.
        let (title, r1) = append-eq-nil _ _ none_found in
        let (brief, r2) = append-eq-nil _ _ r1 in
        let (_, criteria) = append-eq-nil _ _ r2 in
        record {
          was_live = live;
          well_formed = record {
            recorded = record {
              walk = w.recorded.walk;
              approvals_distinct = w.recorded.approvals_distinct;
              approvals_within = w.recorded.approvals_within;
            };
            assigned_held = w.assigned_held;
            backlog_free = w.backlog_free;
          };
          stated = record {
            title_nonempty = (validate_title-nil _ title).0;
            title_bounded = (validate_title-nil _ title).1;
            brief_bounded = validate_brief-nil _ brief;
            criteria_stated = (validate_criteria-nil _ criteria).0;
            criteria_distinct = (validate_criteria-nil _ criteria).1;
          };
          kept = refl;
        })
]
