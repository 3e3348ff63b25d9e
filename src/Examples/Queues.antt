-- ===== src/Examples/Queues.antt =====
-- Tests and applied theorems on packages/orchestrator/src/queue.
use virtual_office.Prelude.{
  true, ℕ, ◌+◌, ◌≡◌, refl, List, [], ◌∷◌, none, some, Text, text, text_eq, str_eq, sort, insert,
  lookup, put, remove, count_of, bump,
}
use virtual_office.Queue.Types.{JobSpec, JobQueueConfig, Queue}
use virtual_office.Queue.Ops.{
  new_queue, enqueue, claim, complete, fail, recover_expired, forget_stale_keys, per_office,
  per_employee, employee_key, effective_priority, is_eligible, goes_before,
}
use virtual_office.Queue.Stats.{stats}
use virtual_office.Queue.Claimed.{IsClaim, claim-IsClaim}
use virtual_office.Queue.Limits.{IsWithin}
use virtual_office.Queue.Steps.{
  Call, enqueue_call, claim_call, complete_call, fail_call, recover_call, run, run-IsWithin,
}
use virtual_office.Queue.Kept.{copies, IsKept}
use virtual_office.Queue.Again.{enqueue_again}
use virtual_office.Queue.Once.{all_started, all_finished, run-IsKept}

abbrev one_each : JobQueueConfig
one_each = record {
  limits = record { max_in_flight = some 2; max_per_office = some 2; max_per_employee = none };
  lease_ms = some 10;
  retry_backoff_ms = none;
  max_attempts = some 2;
  office_priority = [];
  dedupe_ms = none;
}

abbrev run_of : Text → ℕ → JobSpec
run_of employee priority = record {
  office_id = 111 ∷ [];
  employee_id = some employee;
  kind = 114 ∷ [];
  payload = none;
  priority = some priority;
  idempotency_key = none;
  run_at = none;
  max_attempts = none;
}

-- Two jobs of one employee and one of another; the urgent one is claimed, then one of the other
-- employee; the first fails, the other's lease expires, and it is claimed again and completed.
abbrev day : List Call
day =
    enqueue_call 1 (1 ∷ []) (run_of (97 ∷ []) 0)
    ∷ enqueue_call 1 (2 ∷ []) (run_of (97 ∷ []) 5)
    ∷ enqueue_call 2 (3 ∷ []) (run_of (98 ∷ []) 0)
    ∷ claim_call 3 none (11 ∷ [])
    ∷ claim_call 3 none (12 ∷ [])
    ∷ fail_call 4 (11 ∷ []) []
    ∷ recover_call 20
    ∷ claim_call 20 none (13 ∷ [])
    ∷ complete_call 21 (13 ∷ [])
    ∷ []

abbrev morning : Queue
morning =
    run one_each
      (enqueue_call 1 (1 ∷ []) (run_of (97 ∷ []) 0)
        ∷ enqueue_call 1 (2 ∷ []) (run_of (97 ∷ []) 5)
        ∷ [])
      new_queue

day-stats : (stats (run one_each day new_queue)).pending ≡ 2
unfolding stats enqueue claim complete fail recover_expired forget_stale_keys per_office
    per_employee employee_key effective_priority is_eligible goes_before lookup put remove sort
    insert str_eq count_of bump text
day-stats = refl

run-IsKept_example :
    IsKept (run one_each day new_queue)
    × ((id : Text)
        → copies id (run one_each day new_queue) + all_finished one_each day new_queue id
          ≡ all_started one_each day new_queue id)
unfolding stats enqueue claim complete fail recover_expired forget_stale_keys per_office
    per_employee employee_key effective_priority is_eligible goes_before lookup put remove sort
    insert str_eq count_of bump text copies
run-IsKept_example =
    run-IsKept one_each day (refl, (refl, (refl, (refl, (refl, (tt, (tt, (refl, (tt, tt)))))))))

run-IsWithin_example : IsWithin one_each (run one_each day new_queue).leases
run-IsWithin_example = run-IsWithin one_each day

claim-IsClaim_example :
    IsClaim one_each 3 none (11 ∷ []) morning (claim one_each 3 none (11 ∷ []) morning)
claim-IsClaim_example = claim-IsClaim one_each 3 none (11 ∷ []) morning

abbrev keyed_run : JobSpec
keyed_run = record (run_of (97 ∷ []) 0) { idempotency_key = some (107 ∷ []) }

enqueue_again_example :
    enqueue one_each 90 (8 ∷ []) keyed_run (enqueue one_each 5 (7 ∷ []) keyed_run morning).0 ≡ (
      forget_stale_keys 90 (enqueue one_each 5 (7 ∷ []) keyed_run morning).0,
      record { job = (enqueue one_each 5 (7 ∷ []) keyed_run morning).1.job; deduplicated = true },
    )
unfolding enqueue forget_stale_keys lookup put str_eq
enqueue_again_example =
    enqueue_again one_each 5 90 (7 ∷ []) (8 ∷ []) (107 ∷ []) keyed_run keyed_run morning refl refl
      refl
