-- ===== src/Queue/Steps.antt =====
-- Runs of the queue: the calls of InProcessJobQueue in any order, with any clock and ids.
use virtual_office.Prelude.{
  ℕ, ◌≡◌, refl, List, [], ◌∷◌, Option, none, some, Text, leb, lookup, Bool-cases, inl, inr, arith,
  remove,
}
use virtual_office.Queue.Types.{JobSpec, Lease, JobQueueConfig, Queue, KeyEntry}
use virtual_office.Queue.Ops.{
  new_queue, enqueue, enqueue_new, known_key, forget_stale_keys, new_job, claim, complete,
  complete_found, fail, fail_found, recover_expired,
}
use virtual_office.Queue.Limits.{IsWithin, filter-IsWithin, claim-IsWithin}

-- A call of the queue that changes it.
pub data Call : Type 0 where
  enqueue_call : (now : ℕ) → (id : Text) → (spec : JobSpec) → Call
  claim_call : (now : ℕ) → (lease_ms : Option ℕ) → (lease_id : Text) → Call
  complete_call : (now : ℕ) → (lease_id : Text) → Call
  fail_call : (now : ℕ) → (lease_id error : Text) → Call
  recover_call : (now : ℕ) → Call

abbrev pub perform : JobQueueConfig → Call → Queue → Queue
perform config (enqueue_call now id spec) q = (enqueue config now id spec q).0
perform config (claim_call now lease_ms lease_id) q = (claim config now lease_ms lease_id q).0
perform config (complete_call now lease_id) q = (complete config now lease_id q).0
perform config (fail_call now lease_id error) q = (fail config now lease_id error q).0
perform config (recover_call now) q = (recover_expired now q).0

abbrev pub run : JobQueueConfig → List Call → Queue → Queue
run config [] q = q
run config (c ∷ cs) q = run config cs (perform config c q)

new_queue-IsWithin : (config : JobQueueConfig) → IsWithin config new_queue.leases
new_queue-IsWithin config = record {
  total = λ m e. omega arith;
  office = λ m id e. omega arith;
  employee = λ key. omega arith;
}

pub enqueue-leases :
    (config : JobQueueConfig) (now : ℕ) (id : Text) (spec : JobSpec) (q : Queue)
    → (enqueue config now id spec q).0.leases ≡ q.leases
unfolding enqueue forget_stale_keys
enqueue-leases config now id spec q =
    added (known_key spec.idempotency_key (forget_stale_keys now q))
  where
    added :
        (o : Option KeyEntry)
        → (enqueue_new o (new_job config now id spec) (forget_stale_keys now q)).0.leases ≡ q.leases
    added none = refl
    added (some e) = refl

complete_found-IsWithin :
    (config : JobQueueConfig) (now : ℕ) (lease_id : Text) (o : Option Lease) (q : Queue)
    → IsWithin config q.leases
    → IsWithin config (complete_found config now lease_id o q).0.leases
unfolding remove
complete_found-IsWithin config now lease_id none q w = w
complete_found-IsWithin config now lease_id (some l) q w = filter-IsWithin _ q.leases w

fail_found-IsWithin :
    (config : JobQueueConfig) (now : ℕ) (lease_id error : Text) (o : Option Lease) (q : Queue)
    → IsWithin config q.leases
    → IsWithin config (fail_found config now lease_id error o q).0.leases
unfolding remove
fail_found-IsWithin config now lease_id error none q w = w
fail_found-IsWithin config now lease_id error (some l) q w =
    elim (Bool-cases (leb l.job.max_attempts l.job.attempts)) [
      | inl b ↦ rw b (filter-IsWithin _ q.leases w)
      | inr b ↦ rw b (filter-IsWithin _ q.leases w)
    ]

perform-IsWithin :
    (config : JobQueueConfig) (c : Call) (q : Queue)
    → IsWithin config q.leases
    → IsWithin config (perform config c q).leases
unfolding recover_expired complete fail
perform-IsWithin config (enqueue_call now id spec) q w = rw (enqueue-leases config now id spec q) w
perform-IsWithin config (claim_call now lease_ms lease_id) q w =
    claim-IsWithin config now lease_ms lease_id q w
perform-IsWithin config (complete_call now lease_id) q w =
    complete_found-IsWithin config now lease_id (lookup lease_id q.leases) q w
perform-IsWithin config (fail_call now lease_id error) q w =
    fail_found-IsWithin config now lease_id error (lookup lease_id q.leases) q w
perform-IsWithin config (recover_call now) q w = filter-IsWithin _ q.leases w

run_from-IsWithin :
    (config : JobQueueConfig) (cs : List Call) (q : Queue)
    → IsWithin config q.leases
    → IsWithin config (run config cs q).leases
run_from-IsWithin config [] q w = w
run_from-IsWithin config (c ∷ cs) q w =
    run_from-IsWithin config cs (perform config c q) (perform-IsWithin config c q w)

-- Whatever calls are made of a new queue, in any order and with any clock, ids and errors, the
-- leases in flight keep the limit on all of them and on those of one office where these are set,
-- and the limit on those of one employee, which is one where none is set.
pub run-IsWithin :
    (config : JobQueueConfig) (cs : List Call) → IsWithin config (run config cs new_queue).leases
run-IsWithin config cs = run_from-IsWithin config cs new_queue (new_queue-IsWithin config)
