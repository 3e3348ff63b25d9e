-- ===== src/Workflow/Outcomes/Signed.antt =====
-- What a list of criteria and the departments that check the work ask before it is done.
use virtual_office.Prelude.{
  ◌≡◌, ◌≢◌, ◌⊎◌, refl, sym, subst, true, false, not, List, [], ◌∷◌, map, Option, none, some, Text,
  text_eq, trim, str_eq, str_eq_iff, includes, includes-append, filter, find?, or_else, All,
  All-imp, All-if_filter, All-false, Bool-cases, Option-cases, inl, inr, arith,
}
use mathlib.Core.List.{Perm}
use mathlib.Core.List.Perm
use virtual_office.Core.Connection.{Connection, reviews, kind_beq_iff}
use virtual_office.Task.Model.{Task}
use virtual_office.Workflow.Types.{PeerCandidate, WorkflowContext, WorkflowEvent, actor_of}
use virtual_office.Workflow.Acceptance.{acceptance_criteria_for, unmet_criteria}
use virtual_office.Workflow.Review.{outstanding_for, claimed_in}
use virtual_office.Workflow.Peers.{PeerSelection, rank_peers, first_id, is_eligible}
use virtual_office.Workflow.Peers.Laws.{IsAble, is_eligible-IsAble, rank_peers-IsRanked}
use virtual_office.Workflow.Checker.{
  connections_of, checks, checkers_of, reviewer_in, checker_from, checker_for, signed_by,
  signed_off_by,
}

-- The list that applies: the task's own, or its department's where it has none.
abbrev pub applicable : List Text → List Text → List Text
applicable [] standing = standing
applicable (c ∷ cs) standing = c ∷ cs

-- Everything on the list is among what is claimed, spaces around it aside.
abbrev pub IsMet : Task → WorkflowEvent → WorkflowContext → Type 0
IsMet task event context =
    All (λ criterion. includes (map trim (claimed_in event)) (trim criterion) ≡ true)
      (applicable task.acceptance_criteria (or_else context.acceptance_criteria []))

unmet_criteria-IsMet :
    (criteria met : List Text)
    → unmet_criteria criteria met ≡ []
    → All (λ criterion. includes (map trim met) (trim criterion) ≡ true) criteria
unfolding unmet_criteria
unmet_criteria-IsMet [] met h = tt
unmet_criteria-IsMet (c ∷ cs) met h =
    All-imp _ _ (λ d e. ground arith) (c ∷ cs)
      (All-false (λ d. not (includes (map trim met) (trim d))) (c ∷ cs) h)

acceptance_criteria_for-applicable :
    (own standing : List Text) → acceptance_criteria_for own standing ≡ applicable own standing
unfolding acceptance_criteria_for
acceptance_criteria_for-applicable [] standing = refl
acceptance_criteria_for-applicable (c ∷ cs) standing = refl

pub outstanding_for-IsMet :
    (task : Task) (event : WorkflowEvent) (context : WorkflowContext)
    → outstanding_for task event context ≡ []
    → IsMet task event context
unfolding outstanding_for
outstanding_for-IsMet task event context h = unmet_criteria-IsMet _ (claimed_in event) (
    subst (λ cs. unmet_criteria cs (claimed_in event) ≡ [])
      (acceptance_criteria_for-applicable task.acceptance_criteria
        (or_else context.acceptance_criteria []))
      h)

-- Nobody in the department is able to review.
abbrev pub IsUnstaffed : Task → WorkflowContext → Text → Type 0
IsUnstaffed task context d =
    All (λ p. p.department_id ≡ d → IsAble task.assignee_id p → ⊥) (or_else context.colleagues [])

-- Whoever acts is of the department.
abbrev pub IsSigner : WorkflowEvent → WorkflowContext → Text → Type 0
IsSigner event context d =
    (id : Text) × (a : PeerCandidate) × (actor_of event ≡ some id)
    × (find? (λ (c : PeerCandidate). str_eq c.id id) (or_else context.colleagues []) ≡ some a)
    × (a.department_id ≡ d)

-- Every other department with an enabled `reviews` arrow to the task's has signed before, or signs
-- now, or has nobody able to review.
abbrev pub IsChecked : Task → WorkflowEvent → WorkflowContext → Type 0
IsChecked task event context =
    All
      (λ c.
        c.kind ≡ reviews
        → c.enabled ≡ true
        → c.to_id ≡ task.department_id
        → c.from_id ≢ task.department_id
        → (includes task.checked_by c.from_id ≡ true)
          ⊎ (IsSigner event context c.from_id ⊎ IsUnstaffed task context c.from_id))
      (connections_of context)

first_id-none : (ps : List PeerCandidate) → first_id ps ≡ none → ps ≡ []
first_id-none [] h = refl
first_id-none (p ∷ ps) h = cc

rank_peers-nil :
    (ps : List PeerCandidate) (s : PeerSelection)
    → rank_peers ps s ≡ []
    → filter (is_eligible s.assignee_id) ps ≡ []
rank_peers-nil ps s h = sym (
    Perm.nil-eq (
      subst (λ rs. Perm rs (filter (is_eligible s.assignee_id) ps)) h (rank_peers-IsRanked ps s).0))

reviewer_in-none :
    (task : Task) (context : WorkflowContext) (d : Text)
    → reviewer_in d task.assignee_id (or_else context.colleagues []) ≡ none
    → IsUnstaffed task context d
unfolding reviewer_in
reviewer_in-none task context d h =
    All-imp _ _
      (λ p g e a. ground (
        arith,
        g ((str_eq_iff p.department_id d).1 e),
        (is_eligible-IsAble task.assignee_id p).1 a,
      ))
      (or_else context.colleagues [])
      (All-if_filter (λ p. is_eligible task.assignee_id p ≡ false) (λ c. str_eq c.department_id d)
        (or_else context.colleagues [])
        (All-false (is_eligible task.assignee_id) _ (rank_peers-nil _ _ (first_id-none _ h))))

checker_from-none :
    (task : Task) (colleagues : List PeerCandidate) (cs : List Connection)
    → checker_from task colleagues cs ≡ none
    → All
        (λ c.
          (includes task.checked_by c.from_id ≡ true)
          ⊎ (reviewer_in c.from_id task.assignee_id colleagues ≡ none))
        cs
unfolding checker_from
checker_from-none task colleagues [] h = tt
checker_from-none task colleagues (c ∷ cs) h =
    elim (Bool-cases (includes task.checked_by c.from_id)) [
      | inl e ↦ (inl e, checker_from-none task colleagues cs (rw e at h))
      | inr e ↦ elim (Option-cases (reviewer_in c.from_id task.assignee_id colleagues)) [
        | inl n ↦ (inr n, checker_from-none task colleagues cs (rw (e, n) at h))
        | inr (r, s) ↦ absurd cc
      ]
    ]

module _ (task : Task) (event : WorkflowEvent) (context : WorkflowContext) where
  signed_by-includes :
      (actor : PeerCandidate) (d : Text)
      → includes (signed_by task context actor) d ≡ true
      → (includes task.checked_by d ≡ true) ⊎ (actor.department_id ≡ d)
  unfolding signed_by
  signed_by-includes actor d h = ground (
    arith,
    includes-append task.checked_by (actor.department_id ∷ []) d,
    str_eq_iff actor.department_id d,
  )

  signed_off_by-includes :
      (d : Text)
      → includes (signed_off_by task (actor_of event) context) d ≡ true
      → (includes task.checked_by d ≡ true) ⊎ IsSigner event context d
  unfolding signed_off_by
  signed_off_by-includes d h = by_actor (actor_of event) refl h
    where
      by_actor :
          (o : Option Text)
          → actor_of event ≡ o
          → includes (signed_off_by task o context) d ≡ true
          → (includes task.checked_by d ≡ true) ⊎ IsSigner event context d
      by_actor none e h = inl h
      by_actor (some id) e h =
          elim (Option-cases
            (find? (λ (c : PeerCandidate). str_eq c.id id) (or_else context.colleagues []))) [
              | inl n ↦ inl (rw (n, signed_off_by) at h)
              | inr (a, f) ↦ elim (signed_by-includes a d (rw (f, signed_off_by) at h)) [
                | inl old ↦ inl old
                | inr new ↦ inr (id, a, e, f, new)
              ]
            ]

  pub checker_for-IsChecked :
      checker_for (record task { checked_by = signed_off_by task (actor_of event) context }) context
        ≡ none
      → IsChecked task event context
  unfolding checker_for checkers_of
  checker_for-IsChecked h =
      All-imp _ _
        (λ c f k e t n. signed (
          f (
            ground (
              arith,
              (kind_beq_iff c.kind reviews).1 k,
              str_eq_iff c.to_id task.department_id,
              str_eq_iff c.from_id task.department_id,
            ))))
        (connections_of context)
        (All-if_filter _ (checks task.department_id) (connections_of context) (
          checker_from-none
            (record task { checked_by = signed_off_by task (actor_of event) context })
            (or_else context.colleagues []) _ h))
    where
      signed :
          {d : Text}
          → (includes (signed_off_by task (actor_of event) context) d ≡ true)
            ⊎ (reviewer_in d task.assignee_id (or_else context.colleagues []) ≡ none)
          → (includes task.checked_by d ≡ true)
            ⊎ (IsSigner event context d ⊎ IsUnstaffed task context d)
      signed {d} (inl i) = elim (signed_off_by-includes d i) [
        | inl old ↦ inl old
        | inr new ↦ inr (inl new)
      ]
      signed {d} (inr r) = inr (inr (reviewer_in-none task context d r))
