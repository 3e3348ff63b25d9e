-- ===== src/Examples/Tasks.antt =====
-- Tests and applied theorems on packages/core/src/task.
use virtual_office.Prelude.{count_of, ◌≡◌, [], ◌∷◌, length, filter, text_eq, Distinct}
use virtual_office.Core.Result.{Ensures}
use virtual_office.Task.Status.{TaskStatus}
use virtual_office.Task.Machine.{transition_task}
use virtual_office.Task.Machine.Counts.{open_task_counts, is_open_for, count_of-open_task_counts}
use virtual_office.Task.Machine.History.{IsWellFormed, transition_task-IsWellFormed}
use virtual_office.Task.Create.{create_task, update_task}
use virtual_office.Task.Create.Laws.{
  IsStated, IsStaffed, IsUpdateOf, create_task-Ensures, update_task-IsUpdateOf,
}
use virtual_office.Task.Validate.{unique_ids}
use virtual_office.Task.Validate.Laws.{unique_ids-iff_Distinct}
use virtual_office.Examples.Office.{
  ann, bob, report, report-IsWellFormed, finished, options, wanted, deps, retitled,
}

transition_task-IsWellFormed_example :
    Ensures IsWellFormed (transition_task report TaskStatus.approved options)
transition_task-IsWellFormed_example =
    transition_task-IsWellFormed report TaskStatus.approved options report-IsWellFormed.recorded

create_task-Ensures_example :
    Ensures (λ task. IsWellFormed task × IsStated task × IsStaffed task) (create_task wanted deps)
create_task-Ensures_example = create_task-Ensures wanted deps

update_task-IsUpdateOf_example : Ensures (IsUpdateOf report 6) (update_task report retitled 6)
update_task-IsUpdateOf_example = update_task-IsUpdateOf report retitled 6 report-IsWellFormed

count_of-open_task_counts_example :
    count_of ann (open_task_counts (report ∷ finished ∷ report ∷ []))
    ≡ length (filter (is_open_for ann) (report ∷ finished ∷ report ∷ []))
count_of-open_task_counts_example = count_of-open_task_counts ann (report ∷ finished ∷ report ∷ [])

unique_ids-iff_Distinct_example :
    ((unique_ids (ann ∷ bob ∷ []) [] [] ≡ []) → Distinct (ann ∷ bob ∷ []))
    × (Distinct (ann ∷ bob ∷ []) → unique_ids (ann ∷ bob ∷ []) [] [] ≡ [])
unique_ids-iff_Distinct_example = unique_ids-iff_Distinct (ann ∷ bob ∷ []) [] []
