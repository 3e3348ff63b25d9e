-- ===== src/Queue/Types.antt =====
-- packages/orchestrator/src/queue/types.ts, and the state of the class of in-process-queue.ts.
-- Priorities, delays and instants are natural numbers, as those that the scheduler sets are.
use virtual_office.Prelude.{ℕ, Bool, List, Option, Text, Counts}
use virtual_office.Core.Unknown.{Fields}

pub record JobSpec : Type 0 where
  pub office_id : Text
  pub employee_id : Option Text
  pub kind : Text
  pub payload : Option Fields
  pub priority : Option ℕ
  pub idempotency_key : Option Text
  pub run_at : Option ℕ
  pub max_attempts : Option ℕ

pub record Job : Type 0 where
  pub id : Text
  pub office_id : Text
  pub employee_id : Option Text
  pub kind : Text
  pub payload : Fields
  pub priority : ℕ
  pub idempotency_key : Option Text
  pub attempts : ℕ
  pub max_attempts : ℕ
  pub run_at : ℕ
  pub enqueued_at : ℕ

pub record EnqueueResult : Type 0 where
  pub job : Job
  pub deduplicated : Bool

pub record Lease : Type 0 where
  pub lease_id : Text
  pub job : Job
  pub expires_at : ℕ

pub record DeadJob : Type 0 where
  pub job : Job
  pub error : Text
  pub dead_at : ℕ

pub record ConcurrencyLimits : Type 0 where
  pub max_in_flight : Option ℕ
  pub max_per_office : Option ℕ
  pub max_per_employee : Option ℕ

pub record JobQueueConfig : Type 0 where
  pub limits : ConcurrencyLimits
  pub lease_ms : Option ℕ
  pub retry_backoff_ms : Option ℕ
  pub max_attempts : Option ℕ
  -- `officePriority?.[id] ?? 0` reads a missing record as an empty one.
  pub office_priority : Counts
  pub dedupe_ms : Option ℕ

pub record OfficeQueueStats : Type 0 where
  pub office_id : Text
  pub pending : ℕ
  pub in_flight : ℕ

pub record QueueStats : Type 0 where
  pub pending : ℕ
  pub in_flight : ℕ
  pub dead : ℕ
  pub by_office : List OfficeQueueStats

-- The job that an idempotency key stands for.
pub record KeyEntry : Type 0 where
  pub job : Job
  pub forget_at : Option ℕ

-- The private fields of the class.
pub record Queue : Type 0 where
  pub pending : List Job
  pub order : Counts
  pub sequence : ℕ
  pub leases : List (Text × Lease)
  pub dead : List DeadJob
  pub keys : List (Text × KeyEntry)
