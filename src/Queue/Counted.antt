-- ===== src/Queue/Counted.antt =====
-- The maps of counts over what is in flight, as numbers of leases.
use virtual_office.Prelude.{
  if◌then◌else◌, suc, ◌+◌, ◌≡◌, refl, Bool, false, List, [], ◌∷◌, Option, none, some, Text, str_eq,
  length, filter, Counts, count_of, bump, count_of-bump, arith,
}
use virtual_office.Queue.Types.{Lease}
use virtual_office.Queue.Ops.{per_office, per_employee, bump_some, employee_key}

-- What one office, and one employee, has in flight.
abbrev pub of_office : Text → Lease → Bool
of_office id l = str_eq l.job.office_id id

abbrev pub is_key : Text → Option Text → Bool
is_key key none = false
is_key key (some k) = str_eq k key

abbrev pub of_employee : Text → Lease → Bool
of_employee key l = is_key key (employee_key l.job)

pub count_of-per_office :
    (id : Text) (ls : List Lease) (cs : Counts)
    → count_of id (per_office ls cs) ≡ count_of id cs + length (filter (of_office id) ls)
unfolding per_office
count_of-per_office id [] cs = omega arith
count_of-per_office id (l ∷ ls) cs = ground (
  arith,
  count_of-per_office id ls (bump l.job.office_id cs),
  count_of-bump id l.job.office_id cs,
)

pub count_of-bump_some :
    (key : Text) (o : Option Text) (cs : Counts)
    → count_of key (bump_some o cs)
      ≡ (if is_key key o then suc (count_of key cs) else count_of key cs)
count_of-bump_some key none cs = refl
count_of-bump_some key (some k) cs = count_of-bump key k cs

pub count_of-per_employee :
    (key : Text) (ls : List Lease) (cs : Counts)
    → count_of key (per_employee ls cs) ≡ count_of key cs + length (filter (of_employee key) ls)
unfolding per_employee
count_of-per_employee key [] cs = omega arith
count_of-per_employee key (l ∷ ls) cs = ground (
  arith,
  count_of-per_employee key ls (bump_some (employee_key l.job) cs),
  count_of-bump_some key (employee_key l.job) cs,
)
