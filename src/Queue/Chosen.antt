-- ===== src/Queue/Chosen.antt =====
-- Which job a claim hands out, in the terms of its own tests.
use virtual_office.Prelude.{
  ℕ, ◌≡◌, ◌⊎◌, refl, sym, subst, true, false, List, [], ◌∷◌, Option, none, some, Text, length, All,
  sort-perm, sort-All, All-filter_self, sort-IsSorted, IsSorted, Bool-cases, inl, inr, arith,
  Counts,
}
use mathlib.Core.List.{Perm}
use mathlib.Core.List.Perm
use virtual_office.Queue.Types.{Job, Lease, JobQueueConfig, Queue}
use virtual_office.Queue.Ops.{
  is_full, goes_before, in_flight, per_office, per_employee, is_eligible, eligible, best, lease_of,
  take_job, claim_first, claim,
}

goes_before_asym :
    (config : JobQueueConfig) (offices order : Counts) (a b : Job)
    → goes_before config offices order a b ≡ true
    → goes_before config offices order b a ≡ false
unfolding goes_before
goes_before_asym config offices order a b h = ground arith

goes_before_negtrans :
    (config : JobQueueConfig) (offices order : Counts) (a b c : Job)
    → goes_before config offices order a b ≡ false
    → goes_before config offices order b c ≡ false
    → goes_before config offices order a c ≡ false
unfolding goes_before
goes_before_negtrans config offices order a b c h k = ground arith

-- The job handed out is eligible, and none of the others that are goes before it.
pub record IsBest (config : JobQueueConfig) (now : ℕ) (q : Queue) (next : Job) : Type 0 where
  pub later : List Job
  pub front : best config now q ≡ next ∷ later
  pub due :
      is_eligible config now (per_office (in_flight q) []) (per_employee (in_flight q) []) next
      ≡ true
  pub first :
      All (λ j. goes_before config (per_office (in_flight q) []) q.order j next ≡ false) later

abbrev pub IsChosen : JobQueueConfig → ℕ → Option ℕ → Text → Queue → Queue × Option Lease → Type 0
IsChosen config now lease_ms lease_id q (after, none) =
    (after ≡ q)
    × ((is_full config.limits.max_in_flight (length (in_flight q)) ≡ true)
        ⊎ (eligible config now q ≡ []))
IsChosen config now lease_ms lease_id q (after, some lease) =
    (is_full config.limits.max_in_flight (length (in_flight q)) ≡ false)
    × (next : Job) × (lease ≡ lease_of config now lease_ms lease_id next)
    × (after ≡ take_job next lease q)
    × IsBest config now q next

module _ (config : JobQueueConfig) (now : ℕ) (q : Queue) where
  best-perm : Perm (best config now q) (eligible config now q)
  best-perm =
      sort-perm (goes_before config (per_office (in_flight q) []) q.order) (eligible config now q)

  best-IsSorted :
      IsSorted (goes_before config (per_office (in_flight q) []) q.order) (best config now q)
  best-IsSorted =
      sort-IsSorted (goes_before config (per_office (in_flight q) []) q.order)
        (goes_before_asym config (per_office (in_flight q) []) q.order)
        (goes_before_negtrans config (per_office (in_flight q) []) q.order) (eligible config now q)

  best-All :
      All
        (λ j.
          is_eligible config now (per_office (in_flight q) []) (per_employee (in_flight q) []) j
          ≡ true)
        (best config now q)
  best-All =
      sort-All (goes_before config (per_office (in_flight q) []) q.order) _ (eligible config now q)
        (All-filter_self
          (is_eligible config now (per_office (in_flight q) []) (per_employee (in_flight q) []))
          q.pending)

  best-nil : best config now q ≡ [] → eligible config now q ≡ []
  best-nil e = sym (Perm.nil-eq (subst (λ js. Perm js (eligible config now q)) e best-perm))

  best-IsBest :
      (next : Job) (later : List Job) → best config now q ≡ next ∷ later → IsBest config now q next
  best-IsBest next later e = record {
    later = later;
    front = e;
    due =
        (subst
          (All (λ j.
            is_eligible config now (per_office (in_flight q) []) (per_employee (in_flight q) []) j
            ≡ true))
          e best-All).0;
    first =
        (subst (IsSorted (goes_before config (per_office (in_flight q) []) q.order)) e
          best-IsSorted).0;
  }

-- A claim comes to the first of the eligible jobs, if the queue is not full and there is one.
pub claim-IsChosen :
    (config : JobQueueConfig) (now : ℕ) (lease_ms : Option ℕ) (lease_id : Text) (q : Queue)
    → IsChosen config now lease_ms lease_id q (claim config now lease_ms lease_id q)
unfolding claim
claim-IsChosen config now lease_ms lease_id q =
    elim (Bool-cases (is_full config.limits.max_in_flight (length (in_flight q)))) [
      | inl full ↦ rw full (refl, inl full)
      | inr room ↦ rw room (handed room (best config now q) refl)
    ]
  where
    handed :
        is_full config.limits.max_in_flight (length (in_flight q)) ≡ false
        → (js : List Job) → best config now q ≡ js
        → IsChosen config now lease_ms lease_id q (claim_first config now lease_ms lease_id js q)
    handed room [] e = (refl, inr (best-nil config now q e))
    handed room (next ∷ later) e = (room, next, refl, refl, best-IsBest config now q next later e)
