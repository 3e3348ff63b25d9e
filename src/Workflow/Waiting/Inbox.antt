-- ===== src/Workflow/Waiting/Inbox.antt =====
-- What is on the list of awaiting.ts, and in which order.
use virtual_office.Prelude.{
  ◌≡◌, refl, ◌∙◌, Bool, true, false, not, ◌||◌, ◌&&◌, List, [], ◌∷◌, ◌++◌, map, Option, none, some,
  Text, str_eq, str_eq_iff, is_empty, any, lookup, ltb, or_else, All, All-append, All-imp, any-sort,
  sort-All, sort-IsSorted, IsSorted, arith,
}
use virtual_office.Core.Gates.{GatedAction}
use virtual_office.Core.Policy.{ReviewPolicy}
use virtual_office.Task.Status.{
  TaskStatus, backlog, assigned, in_progress, in_review, changes_requested, approved, done, blocked,
  escalated, transferred, cancelled,
}
use virtual_office.Task.Model.{Task}
use virtual_office.Workflow.Types.{HeldCall}
use virtual_office.Workflow.Policy.Gate.{gates_awaiting}
use virtual_office.Workflow.Waiting.{
  Waiting, DepartmentPolicy, policies_from, held_for, review_of, call_of, blocked_on, waits_as,
  waits, what_is_waiting,
}

abbrev pub is_gated : Task → Option ReviewPolicy → Bool
is_gated task none = false
is_gated task (some policy) = not (is_empty (gates_awaiting task.gated_actions policy))

-- Whether a person is needed: the work has stopped, or its department holds it in review.
abbrev pub needs_as : List (Text × ReviewPolicy) → Task → TaskStatus → Bool
needs_as policies task in_review = is_gated task (lookup task.department_id policies)
needs_as policies task blocked = true
needs_as policies task escalated = true
needs_as policies task _ = false

abbrev pub needs_somebody : List (Text × ReviewPolicy) → Task → Bool
needs_somebody policies task = needs_as policies task task.status

abbrev pub is_about : Task → Waiting → Bool
is_about task w = str_eq w.task_id task.id

pub record IsInbox (tasks : List Task) (departments : List DepartmentPolicy) (inbox : List Waiting)
    : Type 0 where
  pub oldest_first : IsSorted (λ (a b : Waiting). ltb a.since b.since) inbox
  pub complete :
      All
        (λ t.
          needs_somebody (policies_from [] departments) t ≡ true → any inbox (is_about t) ≡ true)
        tasks
  pub no_more :
      All
        (λ w.
          any tasks (λ t. is_about t w && needs_somebody (policies_from [] departments) t) ≡ true)
        inbox

self : (t : Text) → str_eq t t ≡ true
self t = (str_eq_iff t t).1 refl

module _ (policies : List (Text × ReviewPolicy)) (held : List (Text × List HeldCall)) where
  calls-All : (t : Task) (cs : List HeldCall) → All (λ w. is_about t w ≡ true) (map (call_of t) cs)
  calls-All t [] = tt
  calls-All t (c ∷ cs) = (self t.id, calls-All t cs)

  blocked_on-All :
      (t : Task) (cs : List HeldCall) → All (λ w. is_about t w ≡ true) (blocked_on t cs)
  blocked_on-All t [] = (self t.id, tt)
  blocked_on-All t (c ∷ cs) = calls-All t (c ∷ cs)

  held_for-All :
      (t : Task) (o : Option ReviewPolicy)
      → All (λ w. (is_about t w ≡ true) × (is_gated t o ≡ true)) (held_for t o)
  held_for-All t none = tt
  held_for-All t (some p) = gated (gates_awaiting t.gated_actions p)
    where
      gated :
          (gs : List GatedAction)
          → All (λ w. (is_about t w ≡ true) × (not (is_empty gs) ≡ true)) (review_of t gs)
      gated [] = tt
      gated (g ∷ gs) = ((self t.id, refl), tt)

  held_for-any :
      (t : Task) (o : Option ReviewPolicy)
      → is_gated t o ≡ true
      → any (held_for t o) (is_about t) ≡ true
  held_for-any t none h = cc
  held_for-any t (some p) h = gated (gates_awaiting t.gated_actions p) h
    where
      gated :
          (gs : List GatedAction)
          → not (is_empty gs) ≡ true
          → any (review_of t gs) (is_about t) ≡ true
      gated [] k = cc
      gated (g ∷ gs) k = rw (self t.id) refl

  blocked_on-any : (t : Task) (cs : List HeldCall) → any (blocked_on t cs) (is_about t) ≡ true
  blocked_on-any t [] = rw (self t.id) refl
  blocked_on-any t (c ∷ cs) = rw (self t.id) refl

  waits_as-All :
      (t : Task) (s : TaskStatus)
      → All
          (λ w. (is_about t w ≡ true) × (needs_as policies t s ≡ true))
          (waits_as policies held t s)
  waits_as-All t in_review = held_for-All t (lookup t.department_id policies)
  waits_as-All t blocked =
      All-imp _ _ (λ w h. (h, refl)) _ (blocked_on-All t (or_else (lookup t.id held) []))
  waits_as-All t escalated = ((self t.id, refl), tt)
  waits_as-All t backlog = tt
  waits_as-All t assigned = tt
  waits_as-All t in_progress = tt
  waits_as-All t changes_requested = tt
  waits_as-All t approved = tt
  waits_as-All t done = tt
  waits_as-All t transferred = tt
  waits_as-All t cancelled = tt

  waits_as-any :
      (t : Task) (s : TaskStatus)
      → needs_as policies t s ≡ true
      → any (waits_as policies held t s) (is_about t) ≡ true
  waits_as-any t in_review h = held_for-any t (lookup t.department_id policies) h
  waits_as-any t blocked h = blocked_on-any t (or_else (lookup t.id held) [])
  waits_as-any t escalated h = rw (self t.id) refl
  waits_as-any t backlog h = cc
  waits_as-any t assigned h = cc
  waits_as-any t in_progress h = cc
  waits_as-any t changes_requested h = cc
  waits_as-any t approved h = cc
  waits_as-any t done h = cc
  waits_as-any t transferred h = cc
  waits_as-any t cancelled h = cc

  any-append :
      (xs ys : List Waiting) (p : Waiting → Bool) → any (xs ++ ys) p ≡ (any xs p || any ys p)
  any-append [] ys p = refl
  any-append (x ∷ xs) ys p = ground (arith, any-append xs ys p)

  weaken :
      (ws : List Waiting) (t : Task) (ts : List Task)
      → All (λ w. any ts (λ u. is_about u w && needs_somebody policies u) ≡ true) ws
      → All (λ w. any (t ∷ ts) (λ u. is_about u w && needs_somebody policies u) ≡ true) ws
  weaken ws t ts h = All-imp _ _ (λ w k. ground arith) ws h

  waits-no_more :
      (ts : List Task)
      → All
          (λ w. any ts (λ t. is_about t w && needs_somebody policies t) ≡ true)
          (waits policies held ts)
  unfolding waits
  waits-no_more [] = tt
  waits-no_more (t ∷ ts) =
      All-append _ (waits_as policies held t t.status) (waits policies held ts)
        (All-imp (λ w. (is_about t w ≡ true) × (needs_as policies t t.status ≡ true)) _
          (λ w k. rw (k.0, k.1) refl) _ (waits_as-All t t.status))
        (weaken (waits policies held ts) t ts (waits-no_more ts))

  waits_complete :
      (ts : List Task) (inbox : List Waiting)
      → ((p : Waiting → Bool) → any (waits policies held ts) p ≡ true → any inbox p ≡ true)
      → All (λ t. needs_somebody policies t ≡ true → any inbox (is_about t) ≡ true) ts
  unfolding waits
  waits_complete [] inbox h = tt
  waits_complete (t ∷ ts) inbox h = (
    λ n. h (is_about t) (
        ground (
          arith,
          any-append (waits_as policies held t t.status) (waits policies held ts) (is_about t),
          waits_as-any t t.status n,
        )),
    waits_complete ts inbox (λ p k. h p (
        ground (arith, any-append (waits_as policies held t t.status) (waits policies held ts) p))),
  )

-- The list is oldest first; every piece of work that needs somebody (it is escalated or blocked,
-- or it is in review and its department gates something it involves) is on it; and nothing is on
-- it that is not about such work.
pub what_is_waiting-IsInbox :
    (tasks : List Task) (departments : List DepartmentPolicy) (held : List (Text × List HeldCall))
    → IsInbox tasks departments (what_is_waiting tasks departments held)
unfolding what_is_waiting
what_is_waiting-IsInbox tasks departments held = record {
  oldest_first =
      sort-IsSorted (λ (a b : Waiting). ltb a.since b.since) (λ a b h. ground arith)
        (λ a b c h k. ground arith) (waits (policies_from [] departments) held tasks);
  complete = waits_complete (policies_from [] departments) held tasks _ (λ p h.
      any-sort (λ (a b : Waiting). ltb a.since b.since) p
        (waits (policies_from [] departments) held tasks)
      ∙ h);
  no_more =
      sort-All (λ (a b : Waiting). ltb a.since b.since) _
        (waits (policies_from [] departments) held tasks)
        (waits-no_more (policies_from [] departments) held tasks);
}
