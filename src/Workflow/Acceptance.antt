-- ===== src/Workflow/Acceptance.antt =====
-- packages/orchestrator/src/workflow/acceptance.ts and packages/core/src/task/acceptance.ts: what
-- work has to achieve, and whether it did.
use virtual_office.Prelude.{
  not, List, [], map, Text, text_eq, trim, is_empty, includes, filter, if◌then◌else◌,
}

unfoldable pub acceptance_criteria_for : List Text → List Text → List Text
acceptance_criteria_for task_criteria department_criteria =
    if not (is_empty task_criteria) then task_criteria else department_criteria

unfoldable pub unmet_criteria : List Text → List Text → List Text
unmet_criteria criteria met =
    if is_empty criteria
    then []
    else (let claimed = map trim met in
        filter (λ criterion. not (includes claimed (trim criterion))) criteria)
