-- ===== src/Queue/Accounts.antt =====
-- The jobs that calls of the queue take in and finish.
use virtual_office.Prelude.{
  ℕ, ◌+◌, ◌≤◌, ◌≡◌, refl, List, [], ◌∷◌, Option, none, some, Text, length, filter, leb, lookup,
  IsMap, Bool-cases, inl, inr, arith, if◌then◌else◌, All, All-filter, sort-All,
}
use virtual_office.Queue.Types.{Job, Lease, JobQueueConfig, EnqueueResult, KeyEntry, Queue}
use virtual_office.Queue.Ops.{
  enqueue, enqueue_new, known_key, forget_stale_keys, new_job, goes_before, is_eligible, per_office,
  per_employee, eligible, best, in_flight, is_full, claim_first, claim, complete, complete_found,
  fail, fail_found,
}
use virtual_office.Queue.Steps.{
  Call, enqueue_call, claim_call, complete_call, fail_call, recover_call, perform,
}
use virtual_office.Queue.Kept.{
  has_id, leased_id, copies, IsKept, All-waits, enqueue_new-copies, completed-copies, buried-copies,
  retried-copies, recover_expired-copies, take_job-copies,
}

abbrev pub added : Text → EnqueueResult → ℕ
added id result = if result.deduplicated then 0 else length (filter (has_id id) (result.job ∷ []))

abbrev ended : Text → Option Lease → ℕ
ended id none = 0
ended id (some l) = length (filter (leased_id id) (l ∷ []))

-- How often a call takes a job in, and how often it completes it.
abbrev pub started : JobQueueConfig → Call → Queue → Text → ℕ
started config (enqueue_call now i spec) q id = added id (enqueue config now i spec q).1
started config (claim_call now lease_ms lease_id) q id = 0
started config (complete_call now lease_id) q id = 0
started config (fail_call now lease_id error) q id = 0
started config (recover_call now) q id = 0

abbrev pub finished : Call → Queue → Text → ℕ
finished (enqueue_call now i spec) q id = 0
finished (claim_call now lease_ms lease_id) q id = 0
finished (complete_call now lease_id) q id = ended id (lookup lease_id q.leases)
finished (fail_call now lease_id error) q id = 0
finished (recover_call now) q id = 0

-- What `newId()` gives is in use nowhere.
abbrev pub IsFresh : Call → Queue → Type 0
IsFresh (enqueue_call now i spec) q = copies i q ≡ 0
IsFresh (claim_call now lease_ms lease_id) q = lookup lease_id q.leases ≡ none
IsFresh (complete_call now lease_id) q = Unit
IsFresh (fail_call now lease_id error) q = Unit
IsFresh (recover_call now) q = Unit

enqueued-copies :
    (id : Text) (o : Option KeyEntry) (job : Job) (q : Queue)
    → copies id (enqueue_new o job q).0 + 0 ≡ copies id q + added id (enqueue_new o job q).1
enqueued-copies id none job q = omega (arith, enqueue_new-copies id job q)
enqueued-copies id (some e) job q = omega arith

forget_stale_keys-copies :
    (now : ℕ) (id : Text) (q : Queue) → copies id (forget_stale_keys now q) ≡ copies id q
unfolding copies forget_stale_keys
forget_stale_keys-copies now id q = refl

completed_copies :
    (config : JobQueueConfig) (now : ℕ) (lease_id id : Text) (q : Queue)
    → IsMap q.leases
    → (o : Option Lease) → lookup lease_id q.leases ≡ o
    → copies id (complete_found config now lease_id o q).0 + ended id o ≡ copies id q + 0
completed_copies config now lease_id id q m none e = refl
completed_copies config now lease_id id q m (some l) e =
    omega (arith, completed-copies lease_id id l q m e config now)

failed-copies :
    (config : JobQueueConfig) (now : ℕ) (lease_id error id : Text) (q : Queue)
    → IsMap q.leases
    → (o : Option Lease) → lookup lease_id q.leases ≡ o
    → copies id (fail_found config now lease_id error o q).0 ≡ copies id q
failed-copies config now lease_id error id q m none e = refl
failed-copies config now lease_id error id q m (some l) e =
    elim (Bool-cases (leb l.job.max_attempts l.job.attempts)) [
      | inl b ↦ rw b (buried-copies lease_id id l q m e now error)
      | inr b ↦ rw b (retried-copies lease_id id l q m e config now)
    ]

module _ (config : JobQueueConfig) (now : ℕ) (lease_ms : Option ℕ) (lease_id : Text) (q : Queue)
    (k : IsKept q) (free : lookup lease_id q.leases ≡ none) where
  best-All_waits :
      All (λ (j : Job). 1 ≤ length (filter (has_id j.id) q.pending)) (best config now q)
  best-All_waits =
      sort-All (goes_before config (per_office (in_flight q) []) q.order) _ (eligible config now q)
        (All-filter _
          (is_eligible config now (per_office (in_flight q) []) (per_employee (in_flight q) []))
          q.pending (All-waits q.pending))

  first-copies :
      (id : Text) (js : List Job)
      → All (λ (j : Job). 1 ≤ length (filter (has_id j.id) q.pending)) js
      → copies id (claim_first config now lease_ms lease_id js q).0 ≡ copies id q
  first-copies id [] h = refl
  first-copies id (next ∷ later) h =
      take_job-copies config now lease_ms lease_id next q free id (k.once next.id) h.0

  claim-copies : (id : Text) → copies id (claim config now lease_ms lease_id q).0 ≡ copies id q
  unfolding claim
  claim-copies id = elim (Bool-cases (is_full config.limits.max_in_flight (length (in_flight q)))) [
    | inl e ↦ rw e refl
    | inr e ↦ rw e (first-copies id (best config now q) best-All_waits)
  ]

pub perform-copies :
    (config : JobQueueConfig) (c : Call) (q : Queue) (id : Text)
    → IsKept q
    → IsFresh c q
    → copies id (perform config c q) + finished c q id ≡ copies id q + started config c q id
unfolding enqueue complete fail
perform-copies config (enqueue_call now i spec) q id k f = omega (
  arith,
  enqueued-copies id (known_key spec.idempotency_key (forget_stale_keys now q))
      (new_job config now i spec) (forget_stale_keys now q),
  forget_stale_keys-copies now id q,
)
perform-copies config (claim_call now lease_ms lease_id) q id k f =
    omega (arith, claim-copies config now lease_ms lease_id q k f id)
perform-copies config (complete_call now lease_id) q id k f =
    completed_copies config now lease_id id q k.leased (lookup lease_id q.leases) refl
perform-copies config (fail_call now lease_id error) q id k f =
    omega
      (arith, failed-copies config now lease_id error id q k.leased (lookup lease_id q.leases) refl)
perform-copies config (recover_call now) q id k f = omega (arith, recover_expired-copies now id q)
