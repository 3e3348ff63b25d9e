-- ===== src/Queue/Stats.antt =====
-- packages/orchestrator/src/queue/in-process-queue.ts: `stats`.
use virtual_office.Prelude.{ℕ, ◌+◌, List, [], ◌∷◌, Text, str_eq, length, if◌then◌else◌}
use virtual_office.Queue.Types.{Job, Lease, OfficeQueueStats, QueueStats, Queue}
use virtual_office.Queue.Ops.{in_flight}

unfoldable pub bump_office :
    Text → (pending in_flight : ℕ) → List OfficeQueueStats → List OfficeQueueStats
bump_office id p f [] = record { office_id = id; pending = p; in_flight = f } ∷ []
bump_office id p f (e ∷ es) =
    if str_eq e.office_id id
    then record e { pending = e.pending + p; in_flight = e.in_flight + f } ∷ es
    else e ∷ bump_office id p f es

abbrev count_pending : List Job → List OfficeQueueStats → List OfficeQueueStats
count_pending [] es = es
count_pending (j ∷ js) es = count_pending js (bump_office j.office_id 1 0 es)

abbrev count_in_flight : List Lease → List OfficeQueueStats → List OfficeQueueStats
count_in_flight [] es = es
count_in_flight (l ∷ ls) es = count_in_flight ls (bump_office l.job.office_id 0 1 es)

unfoldable pub stats : Queue → QueueStats
stats q = record {
  pending = length q.pending;
  in_flight = length (in_flight q);
  dead = length q.dead;
  by_office = count_in_flight (in_flight q) (count_pending q.pending []);
}
