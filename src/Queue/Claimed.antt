-- ===== src/Queue/Claimed.antt =====
-- Which job a claim hands out, and when it hands out none.
use virtual_office.Prelude.{
  ℕ, ◌+◌, ◌≤◌, ◌<◌, ◌≡◌, ◌⊎◌, refl, sym, subst, false, not, List, [], ◌∷◌, Option, none, some, Text,
  str_eq, length, filter, or_else, put, count_of, All, All-imp, All-filter, All-if_filter,
  All-false, All-sort, sort-All, inl, inr, arith,
}
use mathlib.Core.List.{Mem, mem-cons_self, mem-cons_of_mem}
use virtual_office.Queue.Types.{Job, Lease, JobQueueConfig, Queue}
use virtual_office.Queue.Ops.{
  goes_before, in_flight, per_office, per_employee, is_eligible, effective_priority, eligible, best,
  claim, lease_of, take_job,
}
use virtual_office.Queue.Chosen.{IsChosen, claim-IsChosen}
use virtual_office.Queue.Startable.{
  load, IsStartable, is_full-eq_false, is_full-eq_true, load_of, is_eligible-IsStartable,
}

-- The job's own priority and its office's.
abbrev pub weight : JobQueueConfig → Job → ℕ
weight config job = job.priority + count_of job.office_id config.office_priority

-- The first need not wait for the second: its priority is not lower, with the same its office is not
-- busier, and with the same again it was not enqueued later.
pub record IsAhead (config : JobQueueConfig) (q : Queue) (a b : Job) : Type 0 where
  pub no_lower : weight config b ≤ weight config a
  pub no_busier : weight config b ≡ weight config a → load q a ≤ load q b
  pub no_later :
      weight config b ≡ weight config a
      → load q b ≡ load q a
      → count_of a.id q.order ≤ count_of b.id q.order

-- The lease of a job, and what the claim changes.
pub record IsLease (config : JobQueueConfig) (now : ℕ) (lease_ms : Option ℕ) (lease_id : Text)
    (q after : Queue) (next : Job) (lease : Lease) : Type 0 where
  pub named : lease.lease_id ≡ lease_id
  pub attempted : lease.job ≡ record next { attempts = next.attempts + 1 }
  pub expires : lease.expires_at ≡ now + or_else lease_ms (or_else config.lease_ms 30000)
  pub leased : after.leases ≡ put lease_id lease q.leases
  pub taken : after.pending ≡ filter (λ (j : Job). not (str_eq j.id next.id)) q.pending
  pub same_dead : after.dead ≡ q.dead
  pub same_order : after.order ≡ q.order

abbrev pub IsClaim : JobQueueConfig → ℕ → Option ℕ → Text → Queue → Queue × Option Lease → Type 0
IsClaim config now lease_ms lease_id q (after, none) =
    (after ≡ q)
    × (((m : ℕ) × (config.limits.max_in_flight ≡ some m) × (m ≤ length (in_flight q)))
        ⊎ All (λ j. IsStartable config now q j → ⊥) q.pending)
IsClaim config now lease_ms lease_id q (after, some lease) =
    ((m : ℕ) → config.limits.max_in_flight ≡ some m → length (in_flight q) < m)
    × (next : Job) × Mem next q.pending
    × IsStartable config now q next
    × All (λ j. IsStartable config now q j → IsAhead config q next j) q.pending
    × IsLease config now lease_ms lease_id q after next lease

All-Mem {ℓ} : {A : Type ℓ} (xs : List A) → All (λ x. Mem x xs) xs
All-Mem [] = tt
All-Mem (x ∷ xs) = (
  mem-cons_self,
  All-imp (λ y. Mem y xs) (λ y. Mem y (x ∷ xs)) (λ y m. mem-cons_of_mem x m) xs (All-Mem xs),
)

module _ (config : JobQueueConfig) (now : ℕ) (q : Queue) where
  goes_before-IsAhead :
      (next j : Job)
      → goes_before config (per_office (in_flight q) []) q.order j next ≡ false
      → IsAhead config q next j
  unfolding goes_before effective_priority
  goes_before-IsAhead next j h = record {
    no_lower = ground arith;
    no_busier = λ e. ground (arith, load_of config now q next, load_of config now q j);
    no_later = λ e f. ground (arith, load_of config now q next, load_of config now q j);
  }

  none-IsStartable :
      eligible config now q ≡ [] → All (λ j. IsStartable config now q j → ⊥) q.pending
  none-IsStartable e =
      All-imp _ _ (λ j f s. ground (arith, (is_eligible-IsStartable config now q j).1 s)) q.pending
        (All-false
          (is_eligible config now (per_office (in_flight q) []) (per_employee (in_flight q) []))
          q.pending e)

  waiting : All (λ j. Mem j q.pending) (best config now q)
  waiting =
      sort-All (goes_before config (per_office (in_flight q) []) q.order) (λ j. Mem j q.pending)
        (eligible config now q)
        (All-filter (λ j. Mem j q.pending)
          (is_eligible config now (per_office (in_flight q) []) (per_employee (in_flight q) []))
          q.pending (All-Mem q.pending))

  not_before_itself :
      (j : Job) → goes_before config (per_office (in_flight q) []) q.order j j ≡ false
  unfolding goes_before
  not_before_itself j = ground arith

  first-IsAhead :
      (next : Job)
      → All
          (λ j. goes_before config (per_office (in_flight q) []) q.order j next ≡ false)
          (best config now q)
      → All (λ j. IsStartable config now q j → IsAhead config q next j) q.pending
  first-IsAhead next h =
      All-imp _ _
        (λ j f s. goes_before-IsAhead next j (f ((is_eligible-IsStartable config now q j).1 s)))
        q.pending
        (All-if_filter
          (λ j. goes_before config (per_office (in_flight q) []) q.order j next ≡ false)
          (is_eligible config now (per_office (in_flight q) []) (per_employee (in_flight q) []))
          q.pending
          (All-sort (goes_before config (per_office (in_flight q) []) q.order) _
            (eligible config now q) h))

  of_chosen :
      (lease_ms : Option ℕ) (lease_id : Text) (o : Queue × Option Lease)
      → IsChosen config now lease_ms lease_id q o
      → IsClaim config now lease_ms lease_id q o
  of_chosen lease_ms lease_id (after, none) (same, inl full) =
      (same, inl (is_full-eq_true _ _ full))
  of_chosen lease_ms lease_id (after, none) (same, inr e) = (same, inr (none-IsStartable e))
  of_chosen lease_ms lease_id (after, some lease) (room, next, l, a, b) = (
    (is_full-eq_false config.limits.max_in_flight (length (in_flight q))).0 room,
    next,
    (subst (All (λ j. Mem j q.pending)) b.front waiting).0,
    (is_eligible-IsStartable config now q next).0 b.due,
    first-IsAhead next (
        subst (All (λ j. goes_before config (per_office (in_flight q) []) q.order j next ≡ false))
          (sym b.front) (not_before_itself next, b.first)),
    subst (λ x. IsLease config now lease_ms lease_id q after next x) (sym l)
        (subst
          (λ p.
            IsLease config now lease_ms lease_id q p next
              (lease_of config now lease_ms lease_id next))
          (sym (subst (λ x. after ≡ take_job next x q) l a))
          (record {
            named = refl;
            attempted = refl;
            expires = refl;
            leased = refl;
            taken = refl;
            same_dead = refl;
            same_order = refl;
          })),
  )

-- A claim hands out no lease, and changes nothing, if the limit on all that is in flight is reached, or
-- each waiting job is not due, or of an office or an employee whose limit is reached. Otherwise it
-- leases a waiting job that is due and whose office and employee have fewer in flight than their
-- limits; and no other such job has a higher priority, its office's counted in, or the same and a less
-- busy office, or the same again and an earlier place in the order of enqueueing. The lease counts one
-- attempt more and says when it expires, and the job no longer waits.
pub claim-IsClaim :
    (config : JobQueueConfig) (now : ℕ) (lease_ms : Option ℕ) (lease_id : Text) (q : Queue)
    → IsClaim config now lease_ms lease_id q (claim config now lease_ms lease_id q)
claim-IsClaim config now lease_ms lease_id q =
    of_chosen config now q lease_ms lease_id (claim config now lease_ms lease_id q)
      (claim-IsChosen config now lease_ms lease_id q)
