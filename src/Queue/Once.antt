-- ===== src/Queue/Once.antt =====
-- Whole runs of the queue, and the jobs that they take in and finish.
use virtual_office.Prelude.{
  ℕ, ◌+◌, ◌≤◌, ◌≡◌, refl, subst, true, List, [], ◌∷◌, Option, none, some, Text, str_eq, str_eq_iff,
  length, leb, lookup, remove, put-IsMap, filter-IsMap, IsMap, Bool-cases, inl, inr, arith,
}
use virtual_office.Queue.Types.{Job, Lease, JobQueueConfig, KeyEntry, Queue}
use virtual_office.Queue.Ops.{
  new_queue, enqueue, enqueue_new, known_key, forget_stale_keys, new_job, best, in_flight, is_full,
  claim_first, claim, complete, complete_found, fail, fail_found, recover_expired,
}
use virtual_office.Queue.Steps.{
  Call, enqueue_call, claim_call, complete_call, fail_call, recover_call, perform, run,
  enqueue-leases,
}
use virtual_office.Queue.Kept.{copies, IsKept}
use virtual_office.Queue.Accounts.{added, started, finished, IsFresh, perform-copies}

complete_found-IsMap :
    (config : JobQueueConfig) (now : ℕ) (lease_id : Text) (o : Option Lease) (q : Queue)
    → IsMap q.leases
    → IsMap (complete_found config now lease_id o q).0.leases
unfolding remove
complete_found-IsMap config now lease_id none q m = m
complete_found-IsMap config now lease_id (some l) q m = filter-IsMap _ q.leases m

fail_found-IsMap :
    (config : JobQueueConfig) (now : ℕ) (lease_id error : Text) (o : Option Lease) (q : Queue)
    → IsMap q.leases
    → IsMap (fail_found config now lease_id error o q).0.leases
unfolding remove
fail_found-IsMap config now lease_id error none q m = m
fail_found-IsMap config now lease_id error (some l) q m =
    elim (Bool-cases (leb l.job.max_attempts l.job.attempts)) [
      | inl b ↦ rw b (filter-IsMap _ q.leases m)
      | inr b ↦ rw b (filter-IsMap _ q.leases m)
    ]

first-IsMap :
    (config : JobQueueConfig) (now : ℕ) (lease_ms : Option ℕ) (lease_id : Text) (js : List Job)
    (q : Queue)
    → IsMap q.leases
    → IsMap (claim_first config now lease_ms lease_id js q).0.leases
first-IsMap config now lease_ms lease_id [] q m = m
first-IsMap config now lease_ms lease_id (next ∷ later) q m = put-IsMap lease_id _ q.leases m

claim-IsMap :
    (config : JobQueueConfig) (now : ℕ) (lease_ms : Option ℕ) (lease_id : Text) (q : Queue)
    → IsMap q.leases
    → IsMap (claim config now lease_ms lease_id q).0.leases
unfolding claim
claim-IsMap config now lease_ms lease_id q m =
    elim (Bool-cases (is_full config.limits.max_in_flight (length (in_flight q)))) [
      | inl e ↦ rw e m
      | inr e ↦ rw e (first-IsMap config now lease_ms lease_id (best config now q) q m)
    ]

perform-IsMap :
    (config : JobQueueConfig) (c : Call) (q : Queue)
    → IsMap q.leases
    → IsMap (perform config c q).leases
unfolding recover_expired complete fail
perform-IsMap config (enqueue_call now i spec) q m = rw (enqueue-leases config now i spec q) m
perform-IsMap config (claim_call now lease_ms lease_id) q m =
    claim-IsMap config now lease_ms lease_id q m
perform-IsMap config (complete_call now lease_id) q m =
    complete_found-IsMap config now lease_id (lookup lease_id q.leases) q m
perform-IsMap config (fail_call now lease_id error) q m =
    fail_found-IsMap config now lease_id error (lookup lease_id q.leases) q m
perform-IsMap config (recover_call now) q m = filter-IsMap _ q.leases m

-- A job that is taken in stood nowhere.
added-le :
    (id : Text) (o : Option KeyEntry) (job : Job) (q : Queue)
    → (n : ℕ) → n ≤ 1
    → (str_eq job.id id ≡ true → n ≡ 0)
    → n + added id (enqueue_new o job q).1 ≤ 1
added-le id (some e) job q n h z = omega arith
added-le id none job q n h z = elim (Bool-cases (str_eq job.id id)) [
  | inl e ↦ rw e (omega (arith, z e))
  | inr e ↦ rw e (omega arith)
]

started-le :
    (config : JobQueueConfig) (c : Call) (q : Queue) (id : Text)
    → IsKept q
    → IsFresh c q
    → copies id q + started config c q id ≤ 1
unfolding enqueue
started-le config (enqueue_call now i spec) q id k f =
    added-le id (known_key spec.idempotency_key (forget_stale_keys now q))
      (new_job config now i spec) (forget_stale_keys now q) (copies id q) (k.once id)
      (λ e. subst (λ x. copies x q ≡ 0) ((str_eq_iff i id).0 e) f)
started-le config (claim_call now lease_ms lease_id) q id k f = omega (arith, k.once id)
started-le config (complete_call now lease_id) q id k f = omega (arith, k.once id)
started-le config (fail_call now lease_id error) q id k f = omega (arith, k.once id)
started-le config (recover_call now) q id k f = omega (arith, k.once id)

perform-IsKept :
    (config : JobQueueConfig) (c : Call) (q : Queue)
    → IsKept q
    → IsFresh c q
    → IsKept (perform config c q)
perform-IsKept config c q k f = record {
  once = λ id. omega (arith, perform-copies config c q id k f, started-le config c q id k f);
  leased = perform-IsMap config c q k.leased;
}

-- The ids of a run are new where they are given.
abbrev pub AllFresh : JobQueueConfig → List Call → Queue → Type 0
AllFresh config [] q = Unit
AllFresh config (c ∷ cs) q = IsFresh c q × AllFresh config cs (perform config c q)

abbrev pub all_started : JobQueueConfig → List Call → Queue → Text → ℕ
all_started config [] q id = 0
all_started config (c ∷ cs) q id =
    started config c q id + all_started config cs (perform config c q) id

abbrev pub all_finished : JobQueueConfig → List Call → Queue → Text → ℕ
all_finished config [] q id = 0
all_finished config (c ∷ cs) q id = finished c q id + all_finished config cs (perform config c q) id

run_from-IsKept :
    (config : JobQueueConfig) (cs : List Call) (q : Queue)
    → IsKept q
    → AllFresh config cs q
    → IsKept (run config cs q)
      × ((id : Text)
          → copies id (run config cs q) + all_finished config cs q id
            ≡ copies id q + all_started config cs q id)
run_from-IsKept config [] q k f = (k, λ id. refl)
run_from-IsKept config (c ∷ cs) q k f =
    let rest =
      run_from-IsKept config cs (perform config c q) (perform-IsKept config c q k f.0) f.1 in
    (rest.0, λ id. omega (arith, rest.1 id, perform-copies config c q id k f.0))

new_queue-copies : (id : Text) → copies id new_queue ≡ 0
unfolding copies
new_queue-copies id = refl

-- Whatever calls are made of a new queue, where the ids of jobs and of leases are not in use when
-- they are given, a job stands in one place at most (waiting, in flight or dead), and it stands
-- there as often as it was taken in and not completed: no call loses a job or doubles it.
pub run-IsKept :
    (config : JobQueueConfig) (cs : List Call)
    → AllFresh config cs new_queue
    → IsKept (run config cs new_queue)
      × ((id : Text)
          → copies id (run config cs new_queue) + all_finished config cs new_queue id
            ≡ all_started config cs new_queue id)
run-IsKept config cs f =
    let whole =
      run_from-IsKept config cs new_queue
        (record { once = λ id. omega (arith, new_queue-copies id); leased = tt }) f in
    (whole.0, λ id. omega (arith, whole.1 id, new_queue-copies id))
