-- ===== src/Schedule/Priority.antt =====
-- packages/orchestrator/src/schedule/priority.ts: four levels of priority in one number.
use virtual_office.Prelude.{
  ℕ, ◌+◌, ◌*◌, ◌/◌, ◌%◌, ◌≤◌, ◌≡◌, Bool, ltb, nat_beq, if◌then◌else◌, arith,
}
use virtual_office.Task.Model.{TaskPriority, low, normal, high, urgent, priority_rank}

pub record PriorityLevels : Type 0 where
  pub office : TaskPriority
  pub department : TaskPriority
  pub employee : TaskPriority
  pub task : TaskPriority

-- `LEVEL_WEIGHT`
abbrev pub office_weight : ℕ
office_weight = 1000

abbrev pub department_weight : ℕ
department_weight = 100

abbrev pub employee_weight : ℕ
employee_weight = 10

abbrev pub task_weight : ℕ
task_weight = 1

unfoldable pub ordering_key : PriorityLevels → ℕ
ordering_key levels =
    priority_rank levels.office * office_weight
    + priority_rank levels.department * department_weight
    + priority_rank levels.employee * employee_weight
    + priority_rank levels.task * task_weight

-- The first level at which two differ decides.
abbrev pub decides : ℕ → ℕ → Bool → Bool
decides a b rest = if nat_beq a b then rest else ltb a b

-- The four levels compared one after the other, the office's first.
abbrev pub is_below : PriorityLevels → PriorityLevels → Bool
is_below a b = decides (priority_rank a.office) (priority_rank b.office) (
    decides (priority_rank a.department) (priority_rank b.department) (
      decides (priority_rank a.employee) (priority_rank b.employee)
        (ltb (priority_rank a.task) (priority_rank b.task))))

priority_rank-le : (p : TaskPriority) → priority_rank p ≤ 3
unfolding priority_rank
priority_rank-le low = omega arith
priority_rank-le normal = omega arith
priority_rank-le high = omega arith
priority_rank-le urgent = omega arith

-- The one number orders two jobs as the four levels do when they are compared in turn, from the
-- office down: no level can be outvoted by those below it.
pub ordering_key-is_below :
    (a b : PriorityLevels) → ltb (ordering_key a) (ordering_key b) ≡ is_below a b
unfolding ordering_key
ordering_key-is_below a b = ground (
  arith,
  priority_rank-le a.office,
  priority_rank-le a.department,
  priority_rank-le a.employee,
  priority_rank-le a.task,
  priority_rank-le b.office,
  priority_rank-le b.department,
  priority_rank-le b.employee,
  priority_rank-le b.task,
)

-- The number has four digits at most, and they are the ranks of the four levels.
pub ordering_key-digits :
    (a : PriorityLevels)
    → (ordering_key a ≤ 3333)
      × (ordering_key a / 1000 ≡ priority_rank a.office)
      × (ordering_key a / 100 % 10 ≡ priority_rank a.department)
      × (ordering_key a / 10 % 10 ≡ priority_rank a.employee)
      × (ordering_key a % 10 ≡ priority_rank a.task)
unfolding ordering_key
ordering_key-digits a =
    let o = priority_rank-le a.office in
    let d = priority_rank-le a.department in
    let e = priority_rank-le a.employee in
    let t = priority_rank-le a.task in
    (omega arith, omega arith, omega arith, omega arith, omega arith)
