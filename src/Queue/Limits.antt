-- ===== src/Queue/Limits.antt =====
-- How much is in flight.
use virtual_office.Prelude.{
  ℕ, ◌+◌, ◌≤◌, ◌≡◌, sym, subst, Bool, true, false, List, [], ◌∷◌, Option, none, some, Text, str_eq,
  str_eq_iff, length, filter, put, values, Counts, count_of, length-filter-put, length-put-le,
  length-filter-sub, length-values-sub, Bool-cases, inl, inr, arith,
}
use virtual_office.Queue.Types.{Job, Lease, JobQueueConfig, Queue}
use virtual_office.Queue.Ops.{
  claim, per_office, per_employee, employee_key, employee_limit, in_flight, is_eligible, is_full,
  is_busy, lease_of,
}
use virtual_office.Queue.Chosen.{IsChosen, IsBest, claim-IsChosen}
use virtual_office.Queue.Counted.{
  of_office, is_key, of_employee, count_of-per_office, count_of-per_employee,
}

-- The leases in flight keep every limit that is set.
pub record IsWithin (config : JobQueueConfig) (leases : List (Text × Lease)) : Type 0 where
  pub total : (m : ℕ) → config.limits.max_in_flight ≡ some m → length (values leases) ≤ m
  pub office :
      (m : ℕ) (id : Text)
      → config.limits.max_per_office ≡ some m
      → length (filter (of_office id) (values leases)) ≤ m
  pub employee :
      (key : Text) → length (filter (of_employee key) (values leases)) ≤ employee_limit config

pub filter-IsWithin :
    {config : JobQueueConfig} (p : Text × Lease → Bool) (m : List (Text × Lease))
    → IsWithin config m
    → IsWithin config (filter p m)
filter-IsWithin p m w = record {
  total = λ n e. omega (arith, w.total n e, length-values-sub p m);
  office = λ n id e. omega (arith, w.office n id e, length-filter-sub (of_office id) p m);
  employee = λ key. omega (arith, w.employee key, length-filter-sub (of_employee key) p m);
}

-- A limit that is not reached has room for one more.
room : (limit : Option ℕ) (n m : ℕ) → is_full limit n ≡ false → limit ≡ some m → n + 1 ≤ m
room none n m h e = cc
room (some k) n m h e = ground arith

desk :
    (limit : ℕ) (o : Option Text) (cs : Counts) (key : Text)
    → is_busy cs limit o ≡ false
    → is_key key o ≡ true
    → count_of key cs + 1 ≤ limit
desk limit none cs key h k = cc
desk limit (some j) cs key h k = rw (sym ((str_eq_iff j key).0 k)) (ground arith)

is_eligible-room :
    (config : JobQueueConfig) (now : ℕ) (offices employees : Counts) (job : Job)
    → is_eligible config now offices employees job ≡ true
    → (is_full config.limits.max_per_office (count_of job.office_id offices) ≡ false)
      × (is_busy employees (employee_limit config) (employee_key job) ≡ false)
unfolding is_eligible
is_eligible-room config now offices employees job h = ground arith

module _ {config : JobQueueConfig} (now : ℕ) (lease_ms : Option ℕ) (lease_id : Text) (q : Queue)
    (w : IsWithin config q.leases) where
  claimed-office :
      (next : Job) (m : ℕ) (id : Text)
      → is_full config.limits.max_per_office (count_of next.office_id (per_office (in_flight q) []))
        ≡ false
      → config.limits.max_per_office ≡ some m
      → length (filter (of_office id) (in_flight q))
          + length (filter (of_office id) (lease_of config now lease_ms lease_id next ∷ []))
        ≤ m
  unfolding count_of
  claimed-office next m id f e = elim (Bool-cases (str_eq next.office_id id)) [
    | inl s ↦ rw s (
        omega (
          arith,
          subst (λ i. count_of i (per_office (in_flight q) []) + 1 ≤ m)
              ((str_eq_iff next.office_id id).0 s) (room _ _ m f e),
          count_of-per_office id (in_flight q) [],
        ))
    | inr s ↦ rw s (omega (arith, w.office m id e))
  ]

  claimed-employee :
      (next : Job) (key : Text)
      → is_busy (per_employee (in_flight q) []) (employee_limit config) (employee_key next) ≡ false
      → length (filter (of_employee key) (in_flight q))
          + length (filter (of_employee key) (lease_of config now lease_ms lease_id next ∷ []))
        ≤ employee_limit config
  unfolding employee_key count_of
  claimed-employee next key f = elim (Bool-cases (is_key key (employee_key next))) [
    | inl s ↦ rw s (
        omega (
          arith,
          desk (employee_limit config) (employee_key next) (per_employee (in_flight q) []) key f s,
          count_of-per_employee key (in_flight q) [],
        ))
    | inr s ↦ rw s (omega (arith, w.employee key))
  ]

  taken :
      (next : Job)
      → is_full config.limits.max_in_flight (length (in_flight q)) ≡ false
      → IsBest config now q next
      → IsWithin config (put lease_id (lease_of config now lease_ms lease_id next) q.leases)
  taken next f b =
      let r =
        is_eligible-room config now (per_office (in_flight q) []) (per_employee (in_flight q) [])
          next b.due in
      record {
        total = λ m e. omega (
          arith,
          room _ _ m f e,
          length-put-le lease_id (lease_of config now lease_ms lease_id next) q.leases,
        );
        office = λ m id e. omega (
          arith,
          claimed-office next m id r.0 e,
          length-filter-put (of_office id) lease_id (lease_of config now lease_ms lease_id next)
              q.leases,
        );
        employee = λ key. omega (
          arith,
          claimed-employee next key r.1,
          length-filter-put (of_employee key) lease_id (lease_of config now lease_ms lease_id next)
              q.leases,
        );
      }

  of_claim :
      (o : Queue × Option Lease)
      → IsChosen config now lease_ms lease_id q o
      → IsWithin config o.0.leases
  of_claim (after, none) h = subst (λ (p : Queue). IsWithin config p.leases) (sym h.0) w
  of_claim (after, some l) (f, next, e, a, b) =
      subst (λ (p : Queue). IsWithin config p.leases) (sym a)
        (subst (λ (x : Lease). IsWithin config (put x.lease_id x q.leases)) (sym e)
          (taken next f b))

pub claim-IsWithin :
    (config : JobQueueConfig) (now : ℕ) (lease_ms : Option ℕ) (lease_id : Text) (q : Queue)
    → IsWithin config q.leases
    → IsWithin config (claim config now lease_ms lease_id q).0.leases
claim-IsWithin config now lease_ms lease_id q w =
    of_claim now lease_ms lease_id q w (claim config now lease_ms lease_id q)
      (claim-IsChosen config now lease_ms lease_id q)
