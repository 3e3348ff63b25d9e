-- ===== src/Queue/Ops.antt =====
-- packages/orchestrator/src/queue/in-process-queue.ts. The clock and the source of ids are
-- arguments: what `now()` and `newId()` return in the call.
use virtual_office.Prelude.{
  ℕ, ◌+◌, ◌-◌, ◌*◌, ◌^◌, Bool, true, false, not, ◌&&◌, List, [], ◌∷◌, ◌++◌, map, Option, none, some,
  Text, text, str_eq, ltb, leb, nat_beq, length, filter, or_else, if◌then◌else◌, sort, lookup, put,
  remove, values, Counts, count_of, bump,
}
use virtual_office.Core.Unknown.{end}
use virtual_office.Queue.Types.{JobSpec, Job, EnqueueResult, Lease, JobQueueConfig, KeyEntry, Queue}

abbrev pub default_lease_ms : ℕ
default_lease_ms = 30000

abbrev pub default_retry_backoff_ms : ℕ
default_retry_backoff_ms = 1000

abbrev pub default_max_attempts : ℕ
default_max_attempts = 3

abbrev pub default_dedupe_ms : ℕ
default_dedupe_ms = 3600000

abbrev pub default_max_per_employee : ℕ
default_max_per_employee = 1

abbrev pub new_queue : Queue
new_queue = record { pending = []; order = []; sequence = 0; leases = []; dead = []; keys = [] }

abbrev pub is_stale : ℕ → Option ℕ → Bool
is_stale now none = false
is_stale now (some forget_at) = leb forget_at now

unfoldable pub forget_stale_keys : ℕ → Queue → Queue
forget_stale_keys now q = record q {
  keys = filter (λ (e : Text × KeyEntry). not (is_stale now e.1.forget_at)) q.keys;
}

abbrev pub set_key : Option Text → KeyEntry → List (Text × KeyEntry) → List (Text × KeyEntry)
set_key none entry keys = keys
set_key (some key) entry keys = put key entry keys

abbrev pub new_job : JobQueueConfig → ℕ → Text → JobSpec → Job
new_job config now id spec = record {
  id = id;
  office_id = spec.office_id;
  employee_id = spec.employee_id;
  kind = spec.kind;
  payload = or_else spec.payload end;
  priority = or_else spec.priority 0;
  idempotency_key = spec.idempotency_key;
  attempts = 0;
  max_attempts = or_else spec.max_attempts (or_else config.max_attempts default_max_attempts);
  run_at = or_else spec.run_at now;
  enqueued_at = now;
}

abbrev pub add_job : Job → Queue → Queue
add_job job q = record q {
  pending = q.pending ++ job ∷ [];
  sequence = q.sequence + 1;
  order = put job.id (q.sequence + 1) q.order;
  keys = set_key job.idempotency_key (record { job = job; forget_at = none }) q.keys;
}

abbrev pub known_key : Option Text → Queue → Option KeyEntry
known_key none q = none
known_key (some key) q = lookup key q.keys

abbrev pub enqueue_new : Option KeyEntry → Job → Queue → Queue × EnqueueResult
enqueue_new (some existing) job q = (q, record { job = existing.job; deduplicated = true })
enqueue_new none job q = (add_job job q, record { job = job; deduplicated = false })

unfoldable pub enqueue : JobQueueConfig → ℕ → Text → JobSpec → Queue → Queue × EnqueueResult
enqueue config now id spec q =
    let fresh = forget_stale_keys now q in
    enqueue_new (known_key spec.idempotency_key fresh) (new_job config now id spec) fresh

abbrev keyed : Text → Option Text → Option Text
keyed office_id none = none
keyed office_id (some employee) = some (office_id ++ text "/" ++ employee)

unfoldable pub employee_key : Job → Option Text
employee_key job = keyed job.office_id job.employee_id

unfoldable pub effective_priority : JobQueueConfig → Job → ℕ
effective_priority config job = job.priority + count_of job.office_id config.office_priority

-- The two maps of counts over what is in flight.
unfoldable pub per_office : List Lease → Counts → Counts
per_office [] counts = counts
per_office (l ∷ ls) counts = per_office ls (bump l.job.office_id counts)

abbrev pub bump_some : Option Text → Counts → Counts
bump_some none counts = counts
bump_some (some key) counts = bump key counts

unfoldable pub per_employee : List Lease → Counts → Counts
per_employee [] counts = counts
per_employee (l ∷ ls) counts = per_employee ls (bump_some (employee_key l.job) counts)

-- `limit !== undefined && count >= limit`
abbrev pub is_full : Option ℕ → ℕ → Bool
is_full none count = false
is_full (some limit) count = leb limit count

abbrev pub is_busy : Counts → ℕ → Option Text → Bool
is_busy counts limit none = false
is_busy counts limit (some key) = leb limit (count_of key counts)

abbrev pub employee_limit : JobQueueConfig → ℕ
employee_limit config = or_else config.limits.max_per_employee default_max_per_employee

unfoldable pub is_eligible : JobQueueConfig → ℕ → Counts → Counts → Job → Bool
is_eligible config now offices employees job =
    leb job.run_at now
    && not (is_full config.limits.max_per_office (count_of job.office_id offices))
    && not (is_busy employees (employee_limit config) (employee_key job))

-- The comparator is negative: higher priority, then the less busy office, then the older.
unfoldable pub goes_before : JobQueueConfig → Counts → Counts → Job → Job → Bool
goes_before config offices order a b =
    if nat_beq (effective_priority config a) (effective_priority config b)
    then (if nat_beq (count_of a.office_id offices) (count_of b.office_id offices)
        then ltb (count_of a.id order) (count_of b.id order)
        else ltb (count_of a.office_id offices) (count_of b.office_id offices))
    else ltb (effective_priority config b) (effective_priority config a)

abbrev pub in_flight : Queue → List Lease
in_flight q = values q.leases

abbrev pub eligible : JobQueueConfig → ℕ → Queue → List Job
eligible config now q =
    filter (is_eligible config now (per_office (in_flight q) []) (per_employee (in_flight q) []))
      q.pending

abbrev pub best : JobQueueConfig → ℕ → Queue → List Job
best config now q =
    sort (goes_before config (per_office (in_flight q) []) q.order) (eligible config now q)

abbrev pub claimed : Job → Job
claimed job = record job { attempts = job.attempts + 1 }

abbrev pub lease_of : JobQueueConfig → ℕ → Option ℕ → Text → Job → Lease
lease_of config now lease_ms lease_id job = record {
  lease_id = lease_id;
  job = claimed job;
  expires_at = now + or_else lease_ms (or_else config.lease_ms default_lease_ms);
}

abbrev pub take_job : Job → Lease → Queue → Queue
take_job next lease q = record q {
  pending = filter (λ (j : Job). not (str_eq j.id next.id)) q.pending;
  leases = put lease.lease_id lease q.leases;
  keys = set_key lease.job.idempotency_key (record { job = lease.job; forget_at = none }) q.keys;
}

abbrev pub claim_first :
    JobQueueConfig → ℕ → Option ℕ → Text → List Job → Queue → Queue × Option Lease
claim_first config now lease_ms lease_id [] q = (q, none)
claim_first config now lease_ms lease_id (next ∷ later) q = (
  take_job next (lease_of config now lease_ms lease_id next) q,
  some (lease_of config now lease_ms lease_id next),
)

unfoldable pub claim : JobQueueConfig → ℕ → Option ℕ → Text → Queue → Queue × Option Lease
claim config now lease_ms lease_id q =
    if is_full config.limits.max_in_flight (length (in_flight q))
    then (q, none)
    else claim_first config now lease_ms lease_id (best config now q) q

abbrev pub completed : JobQueueConfig → ℕ → Text → Lease → Queue → Queue
completed config now lease_id lease q = record q {
  leases = remove lease_id q.leases;
  order = remove lease.job.id q.order;
  keys =
      set_key lease.job.idempotency_key
        (record {
          job = lease.job;
          forget_at = some (now + or_else config.dedupe_ms default_dedupe_ms);
        })
        q.keys;
}

abbrev pub complete_found : JobQueueConfig → ℕ → Text → Option Lease → Queue → Queue × Bool
complete_found config now lease_id none q = (q, false)
complete_found config now lease_id (some lease) q = (completed config now lease_id lease q, true)

unfoldable pub complete : JobQueueConfig → ℕ → Text → Queue → Queue × Bool
complete config now lease_id q = complete_found config now lease_id (lookup lease_id q.leases) q

abbrev pub buried : ℕ → Text → Text → Lease → Queue → Queue
buried now error lease_id lease q = record q {
  leases = remove lease_id q.leases;
  dead = q.dead ++ record { job = lease.job; error = error; dead_at = now } ∷ [];
  order = remove lease.job.id q.order;
  keys = set_key lease.job.idempotency_key (record { job = lease.job; forget_at = none }) q.keys;
}

-- A leased job has been claimed once at least, so the exponent is not negative.
abbrev pub delayed : JobQueueConfig → ℕ → Job → Job
delayed config now job = record job {
  run_at = now + or_else config.retry_backoff_ms default_retry_backoff_ms * 2 ^ (job.attempts - 1);
}

abbrev pub retried : JobQueueConfig → ℕ → Text → Lease → Queue → Queue
retried config now lease_id lease q = record q {
  leases = remove lease_id q.leases;
  pending = q.pending ++ delayed config now lease.job ∷ [];
}

abbrev pub fail_found : JobQueueConfig → ℕ → Text → Text → Option Lease → Queue → Queue × Bool
fail_found config now lease_id error none q = (q, false)
fail_found config now lease_id error (some lease) q =
    if leb lease.job.max_attempts lease.job.attempts
    then (buried now error lease_id lease q, true)
    else (retried config now lease_id lease q, true)

unfoldable pub fail : JobQueueConfig → ℕ → Text → Text → Queue → Queue × Bool
fail config now lease_id error q = fail_found config now lease_id error (lookup lease_id q.leases) q

abbrev pub is_expired : ℕ → Text × Lease → Bool
is_expired now e = leb e.1.expires_at now

-- The loop over a copy of the leases deletes the expired ones, each under its own id.
unfoldable pub recover_expired : ℕ → Queue → Queue × ℕ
recover_expired now q =
    let expired = filter (is_expired now) q.leases in
    (
      record q {
        leases = filter (λ e. not (is_expired now e)) q.leases;
        pending = q.pending ++ map (λ (l : Lease). l.job) (values expired);
      },
      length expired,
    )
