-- ===== src/Task/Machine/Counts.antt =====
-- packages/core/src/task/task.ts: `openTaskCounts`, how much work each person is still holding.
use virtual_office.Prelude.{
  Counts, count_of, bump, count_of-bump, suc, ◌+◌, ◌≡◌, refl, Bool, true, false, not, ◌&&◌, List,
  [], ◌∷◌, Option, none, some, Text, str_eq, if◌then◌else◌, length, filter, arith,
}
use virtual_office.Task.Status.{is_terminal}
use virtual_office.Task.Model.{Task}

-- One round of the loop, with its two `continue`s.
unfoldable pub count_task : Option Text → Bool → Counts → Counts
count_task none terminal counts = counts
count_task (some id) true counts = counts
count_task (some id) false counts = bump id counts

count_from : Counts → List Task → Counts
count_from counts [] = counts
count_from counts (task ∷ tasks) =
    count_from (count_task task.assignee_id (is_terminal task.status) counts) tasks

unfoldable pub open_task_counts : List Task → Counts
unfolding count_from
open_task_counts tasks = count_from [] tasks

-- Whether the employee holds this task and it is not over.
abbrev pub holds : Text → Option Text → Bool → Bool
holds id none terminal = false
holds id (some e) terminal = str_eq e id && not terminal

abbrev pub is_open_for : Text → Task → Bool
is_open_for id task = holds id task.assignee_id (is_terminal task.status)

count_of-count_task :
    (id : Text) (assignee_id : Option Text) (terminal : Bool) (cs : Counts)
    → count_of id (count_task assignee_id terminal cs)
      ≡ (if holds id assignee_id terminal then suc (count_of id cs) else count_of id cs)
unfolding count_task
count_of-count_task id none terminal cs = refl
count_of-count_task id (some e) true cs = ground arith
count_of-count_task id (some e) false cs = ground (arith, count_of-bump id e cs)

count_of-count_from :
    (id : Text) (cs : Counts) (tasks : List Task)
    → count_of id (count_from cs tasks) ≡ count_of id cs + length (filter (is_open_for id) tasks)
unfolding count_from
count_of-count_from id cs [] = omega arith
count_of-count_from id cs (task ∷ tasks) = ground (
  arith,
  count_of-count_from id (count_task task.assignee_id (is_terminal task.status) cs) tasks,
  count_of-count_task id task.assignee_id (is_terminal task.status) cs,
)

-- For every employee, `openTaskCounts` gives the number of the tasks that the employee holds
-- and that are neither done nor cancelled, an employee with none being absent or 0.
pub count_of-open_task_counts :
    (id : Text) (tasks : List Task)
    → count_of id (open_task_counts tasks) ≡ length (filter (is_open_for id) tasks)
unfolding open_task_counts count_of
count_of-open_task_counts id tasks = omega (arith, count_of-count_from id [] tasks)
