-- ===== src/Workflow/Outcomes/Target.antt =====
-- Whom an escalation lands on.
use virtual_office.Prelude.{
  ap, ◌∙◌, ℕ, ◌≤◌, ◌≡◌, ◌≢◌, ◌⊎◌, refl, sym, subst, or_else, [], ◌∷◌, Option, none, some, Text,
  text_eq, str_eq_iff, inl, arith,
}
use virtual_office.Workflow.Types.{
  EscalationEmployee, EscalationGraph, EscalationTarget, employee, department, owner,
}
use virtual_office.Workflow.Escalation.{
  climb, climb_from, lookup_from, next_department, follow, escalation_edges,
  resolve_escalation_target,
}
use virtual_office.Workflow.Outcomes.Climbed.{Above, IsClimbed, climb-IsClimbed}
use virtual_office.Workflow.Outcomes.Superiors.{some_inj, none_ne, climb-none}
use virtual_office.Workflow.Outcomes.Lowest.{IsLowest, next_department-IsLowest}
use virtual_office.Workflow.Outcomes.Followed.{
  Along, Circle, IsFollowed, IsPath-start, follow-IsFollowed,
}

-- The nearest active person above the holder, so many rungs up, and not the holder.
abbrev pub IsSuperior : EscalationGraph → Option Text → Text → ℕ → Type 0
IsSuperior graph holder id n =
    (e : EscalationEmployee) × (lookup_from graph.employees holder ≡ some e)
    × Above graph.employees e id n
    × (id ≢ e.id)

-- Nobody within the bound is.
abbrev pub IsUnanswered : EscalationGraph → Option Text → ℕ → Type 0
IsUnanswered graph holder most = (id : Text) (n : ℕ) → n ≤ most → IsSuperior graph holder id n → ⊥

-- Whom the graph says: a person if one is within the bound; otherwise the department where the path of
-- escalation edges ends or the bound stops it; otherwise, since it has no edge or comes back to where
-- it has been, the owner.
pub IsTarget : EscalationGraph → Option Text → Text → ℕ → EscalationTarget → Type 0
IsTarget graph holder from most (employee id n) = IsSuperior graph holder id n × (n ≤ most)
IsTarget graph holder from most (department d n) =
    IsUnanswered graph holder most
    × Along (escalation_edges graph) from d n
    × (1 ≤ n)
    × (n ≤ most)
    × ((n ≡ most) ⊎ (next_department (escalation_edges graph) d ≡ none))
    × (Circle (escalation_edges graph) from n → ⊥)
IsTarget graph holder from most (owner n) =
    IsUnanswered graph holder most
    × (n ≡ 0)
    × ((most ≡ 0)
        ⊎ ((next_department (escalation_edges graph) from ≡ none)
            ⊎ Circle (escalation_edges graph) from most))

unanswered :
    (graph : EscalationGraph) (most : ℕ) (holder : Option Text) {e : EscalationEmployee}
    → lookup_from graph.employees holder ≡ some e
    → climb graph.employees most 0 (e.id ∷ []) e ≡ none
    → IsUnanswered graph holder most
unanswered graph most none b q id n l s = absurd (none_ne b)
unanswered graph most (some at) {e} b q id n l (e', b', up, ne) =
    let same = some_inj (sym b' ∙ b) in
    ne (
      climb-none graph.employees most at b q id n l
        (subst (λ x. Above graph.employees x id n) same up)
      ∙ ap (λ (x : EscalationEmployee). x.id) (sym same))

module _ (graph : EscalationGraph) (holder : Option Text) (from : Text) (most : ℕ) where
  otherwise : EscalationTarget
  otherwise = follow (escalation_edges graph) most 0 (from ∷ []) from none

  followed : IsFollowed (escalation_edges graph) from most otherwise
  unfolding otherwise
  followed =
      follow-IsFollowed (escalation_edges graph) from most most 0 (from ∷ []) from none
        (omega arith) (IsPath-start (escalation_edges graph) from) (inl (refl, refl, refl))

  along :
      (t : EscalationTarget)
      → IsFollowed (escalation_edges graph) from most t
      → IsUnanswered graph holder most
      → IsTarget graph holder from most t
  unfolding IsTarget
  along (employee id n) h u = absurd h
  along (department d n) (w, one, l, e, c) u = (u, w, one, l, e, c)
  along (owner n) (z, why) u = (u, z, why)

  climbed :
      (e : EscalationEmployee)
      → lookup_from graph.employees holder ≡ some e
      → (r : Option EscalationTarget) → climb graph.employees most 0 (e.id ∷ []) e ≡ r
      → IsClimbed graph.employees e 0 most (e.id ∷ []) r
      → IsTarget graph holder from most (or_else r otherwise)
  unfolding IsTarget
  climbed e b none q h = along otherwise followed (unanswered graph most holder b q)
  climbed e b (some (employee id n)) q (rungs, s, l, up, i) = (
    (
      e,
      b,
      subst (Above graph.employees e id) (omega (arith, s)) up,
      λ s. ground (arith, (str_eq_iff e.id id).1 (sym s)),
    ),
    omega (arith, s, l),
  )
  climbed e b (some (department d n)) q h = absurd h
  climbed e b (some (owner n)) q h = absurd h

  resolved :
      (at : Option EscalationEmployee)
      → lookup_from graph.employees holder ≡ at
      → IsTarget graph holder from most (or_else (climb_from graph.employees most at) otherwise)
  resolved none q = along otherwise followed (λ id n l s. none_ne (sym q ∙ s.1))
  resolved (some e) q =
      climbed e q (climb graph.employees most 0 (e.id ∷ []) e) refl
        (climb-IsClimbed graph.employees most 0 (e.id ∷ []) e)

  -- An escalation lands on the nearest active person up the reporting line, everybody passed over
  -- being inactive, if there is one other than the holder within the bound on hops. Otherwise it lands on
  -- the department where the path of escalation edges from the task's ends, or the bound stops it, if
  -- that path has an edge and comes back to no department. Otherwise it lands on the owner. The path
  -- leaves a department by the edge to the lowest id, and ends where there is none.
  pub resolve_escalation_target-IsTarget :
      IsTarget graph holder from most (resolve_escalation_target graph holder from most)
      × ((d : Text)
          → IsLowest (escalation_edges graph) d (next_department (escalation_edges graph) d))
  unfolding resolve_escalation_target otherwise
  resolve_escalation_target-IsTarget = (
    resolved (lookup_from graph.employees holder) refl,
    next_department-IsLowest (escalation_edges graph),
  )
