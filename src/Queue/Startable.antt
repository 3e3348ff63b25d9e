-- ===== src/Queue/Startable.antt =====
-- Which waiting jobs may be started: what the tests of a claim say, as numbers.
use virtual_office.Prelude.{
  ℕ, ◌≤◌, ◌<◌, ◌≡◌, ◌↔◌, ap, refl, sym, subst, true, false, Option, none, some, Text, length,
  filter, or_else, Counts, count_of, [], arith,
}
use virtual_office.Queue.Types.{Job, JobQueueConfig, Queue}
use virtual_office.Queue.Ops.{
  is_full, is_busy, employee_key, in_flight, per_office, per_employee, is_eligible,
}
use virtual_office.Queue.Counted.{
  of_office, of_employee, count_of-per_office, count_of-per_employee,
}

-- How many jobs of the same office are in flight.
abbrev pub load : Queue → Job → ℕ
load q job = length (filter (of_office job.office_id) (in_flight q))

-- The job may be started: it is due, and its office and its employee have fewer in flight than their
-- limits.
pub record IsStartable (config : JobQueueConfig) (now : ℕ) (q : Queue) (job : Job) : Type 0 where
  pub due : job.run_at ≤ now
  pub office : (m : ℕ) → config.limits.max_per_office ≡ some m → load q job < m
  pub employee :
      (key : Text)
      → employee_key job ≡ some key
      → length (filter (of_employee key) (in_flight q)) < or_else config.limits.max_per_employee 1

-- What a test of a limit says.
pub is_full-eq_false :
    (limit : Option ℕ) (n : ℕ) → (is_full limit n ≡ false) ↔ ((m : ℕ) → limit ≡ some m → n < m)
is_full-eq_false none n = (λ h m e. cc, λ h. refl)
is_full-eq_false (some k) n = (λ h m e. ground arith, λ h. ground (arith, h k refl))

pub is_full-eq_true :
    (limit : Option ℕ) (n : ℕ) → is_full limit n ≡ true → (m : ℕ) × (limit ≡ some m) × (m ≤ n)
is_full-eq_true none n h = cc
is_full-eq_true (some k) n h = (k, refl, ground arith)

is_busy-eq_false :
    (counts : Counts) (limit : ℕ) (o : Option Text)
    → (is_busy counts limit o ≡ false) ↔ ((key : Text) → o ≡ some key → count_of key counts < limit)
is_busy-eq_false counts limit none = (λ h k e. cc, λ h. refl)
is_busy-eq_false counts limit (some j) = (
  λ h key e. subst (λ k. count_of k counts < limit) (ap (λ o. or_else o j) e) (ground arith),
  λ h. ground (arith, h j refl),
)

module _ (config : JobQueueConfig) (now : ℕ) (q : Queue) where
  pub load_of : (job : Job) → count_of job.office_id (per_office (in_flight q) []) ≡ load q job
  unfolding count_of
  load_of job = omega (arith, count_of-per_office job.office_id (in_flight q) [])

  employee_load_of :
      (key : Text)
      → count_of key (per_employee (in_flight q) [])
        ≡ length (filter (of_employee key) (in_flight q))
  unfolding count_of
  employee_load_of key = omega (arith, count_of-per_employee key (in_flight q) [])

  office_room :
      (job : Job)
      → (is_full config.limits.max_per_office (count_of job.office_id (per_office (in_flight q) []))
          ≡ false)
        ↔ ((m : ℕ) → config.limits.max_per_office ≡ some m → load q job < m)
  office_room job = rw (load_of job) (is_full-eq_false config.limits.max_per_office (load q job))

  employee_room :
      (limit : ℕ) (o : Option Text)
      → (is_busy (per_employee (in_flight q) []) limit o ≡ false)
        ↔ ((key : Text) → o ≡ some key → length (filter (of_employee key) (in_flight q)) < limit)
  employee_room limit o = (
    λ h key e.
        subst (λ n. n < limit) (employee_load_of key)
          ((is_busy-eq_false (per_employee (in_flight q) []) limit o).0 h key e),
    λ h.
        (is_busy-eq_false (per_employee (in_flight q) []) limit o).1
          (λ key e. subst (λ n. n < limit) (sym (employee_load_of key)) (h key e)),
  )

  pub is_eligible-IsStartable :
      (job : Job)
      → (is_eligible config now (per_office (in_flight q) []) (per_employee (in_flight q) []) job
          ≡ true)
        ↔ IsStartable config now q job
  unfolding is_eligible
  is_eligible-IsStartable job = (
    λ h. record {
      due = ground arith;
      office = (office_room job).0 (ground arith);
      employee =
          (employee_room (or_else config.limits.max_per_employee 1) (employee_key job)).0
            (ground arith);
    },
    λ s. ground (
      arith,
      s.due,
      (office_room job).1 s.office,
      (employee_room (or_else config.limits.max_per_employee 1) (employee_key job)).1 s.employee,
    ),
  )
