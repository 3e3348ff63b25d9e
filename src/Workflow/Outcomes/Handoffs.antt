-- ===== src/Workflow/Outcomes/Handoffs.antt =====
-- What finished work hands on.
use virtual_office.Prelude.{
  sym, subst, ℕ, ◌≤◌, ◌<◌, ◌≡◌, ◌≢◌, ◌⊎◌, refl, leb→le, true, false, List, [], ◌∷◌, ◌++◌, map, none,
  Text, leb, length, filter, Bool-cases, inl, inr, arith, str_eq, str_eq_iff,
}
use virtual_office.Core.Connection.{Connection, handoff, kind_beq_iff}
use virtual_office.Task.Model.{Task}
use virtual_office.Workflow.Types.{
  WorkflowContext, WorkflowEffect, notify, escalate, run_check, create_work, request_approval,
  Because,
}
use virtual_office.Workflow.Checker.{connections_of}
use virtual_office.Workflow.Escalation.{escalation_target}
use virtual_office.Workflow.Raised.{
  max_visits_per_department, visits, hands_off, goes_in_circles, handoff_effect, handoff_effects,
}

-- Where finished work has been, here included.
abbrev pub been : Task → List Text
been task = task.route ++ task.department_id ∷ []

-- How often work has been at a department.
abbrev times : Task → Text → ℕ
times task d = length (filter (λ at. str_eq at d) (been task))

-- What an arrow makes of the work: new work at the arrow's end, its route said, for a department that
-- has seen it less than twice; or an escalation, for one that has seen it twice.
pub IsHandoff : Task → WorkflowContext → Connection → WorkflowEffect → Type 0
IsHandoff task context c (create_work w) =
    (w.to_department_id ≡ c.to_id)
    × (w.because ≡ Because.handoff)
    × (w.connection_id ≡ c.id)
    × (w.route ≡ been task)
    × (w.title ≡ task.title)
    × (times task c.to_id < 2)
IsHandoff task context c (escalate reason to) =
    (to ≡ escalation_target task context) × (2 ≤ times task c.to_id)
IsHandoff task context c (notify audience message) = ⊥
IsHandoff task context c (run_check check_id) = ⊥
IsHandoff task context c (request_approval gates summary) = ⊥

-- The effects beside the arrows that make them: each enabled handoff arrow out of the task's department
-- makes the next effect, and any other arrow makes none.
pub data Handed (task : Task) (context : WorkflowContext)
    : List Connection → List WorkflowEffect → Type 0 where
  ended : Handed task context [] []
  handed :
      {c : Connection} {cs : List Connection} {e : WorkflowEffect} {es : List WorkflowEffect}
      → c.kind ≡ handoff
      → c.enabled ≡ true
      → c.from_id ≡ task.department_id
      → IsHandoff task context c e
      → Handed task context cs es
      → Handed task context (c ∷ cs) (e ∷ es)
  passed :
      {c : Connection} {cs : List Connection} {es : List WorkflowEffect}
      → (c.kind ≢ handoff) ⊎ ((c.enabled ≡ false) ⊎ (c.from_id ≢ task.department_id))
      → Handed task context cs es
      → Handed task context (c ∷ cs) es

handoff_effect-IsHandoff :
    (task : Task) (context : WorkflowContext) (c : Connection)
    → IsHandoff task context c (handoff_effect task context (been task) c)
unfolding IsHandoff goes_in_circles handoff_effect visits
handoff_effect-IsHandoff task context c =
    elim (Bool-cases (leb max_visits_per_department (times task c.to_id))) [
      | inl twice ↦ rw twice (refl, leb→le 2 (times task c.to_id) twice)
      | inr fewer ↦ rw fewer (refl, refl, refl, refl, refl, ground arith)
    ]

hands_off-eq_true :
    (d : Text) (c : Connection)
    → hands_off d c ≡ true
    → (c.kind ≡ handoff) × (c.enabled ≡ true) × (c.from_id ≡ d)
hands_off-eq_true d c h = ground (arith, kind_beq_iff c.kind handoff, str_eq_iff c.from_id d)

hands_off-eq_false :
    (d : Text) (c : Connection)
    → hands_off d c ≡ false
    → (c.kind ≢ handoff) ⊎ ((c.enabled ≡ false) ⊎ (c.from_id ≢ d))
hands_off-eq_false d c h = ground (arith, kind_beq_iff c.kind handoff, str_eq_iff c.from_id d)

module _ (task : Task) (context : WorkflowContext) where
  map-Handed :
      (cs : List Connection)
      → Handed task context cs
          (map (handoff_effect task context (been task)) (filter (hands_off task.department_id) cs))
  map-Handed [] = ended
  map-Handed (c ∷ cs) = elim (Bool-cases (hands_off task.department_id c)) [
    | inl h ↦
        let (k, e, f) = hands_off-eq_true task.department_id c h in
        rw h (handed k e f (handoff_effect-IsHandoff task context c) (map-Handed cs))
    | inr h ↦ rw h (passed (hands_off-eq_false task.department_id c h) (map-Handed cs))
  ]

  -- Finished work that is no entry of a contest makes one effect for each enabled handoff arrow of the
  -- office out of its department, in their order, and nothing else. The effect is work for the
  -- department at the arrow's end if that has seen it less than twice, here included, and otherwise an
  -- escalation. So handing on in a circle stops.
  pub handoff_effects-IsHandoff :
      task.contest_id ≡ none
      → Handed task context (connections_of context) (handoff_effects task context)
  unfolding handoff_effects
  handoff_effects-IsHandoff n =
      subst (Handed task context (connections_of context)) (sym all)
        (map-Handed (connections_of context))
    where
      all :
          handoff_effects task context
          ≡ map
              (handoff_effect task context (been task))
              (filter (hands_off task.department_id) (connections_of context))
      all = rw n refl
