-- ===== src/Queue/Kept.antt =====
-- Where each job of the queue stands: waiting, leased or dead.
use virtual_office.Prelude.{
  ℕ, ◌+◌, ◌≤◌, ◌≡◌, ◌∙◌, refl, subst, ap, Bool, not, List, [], ◌∷◌, ◌++◌, map, Option, none, some,
  Text, str_eq, str_eq_iff, length, length-append, filter, filter-append, lookup, values, IsMap,
  length-filter-put_new, length-filter-remove, length-filter-split, Bool-cases, inl, inr, arith,
  if◌then◌else◌, All,
}
use virtual_office.Queue.Types.{Job, Lease, DeadJob, JobQueueConfig, Queue}
use virtual_office.Queue.Ops.{
  enqueue_new, in_flight, lease_of, take_job, completed, buried, retried, delayed, recover_expired,
  is_expired,
}

abbrev pub has_id : Text → Job → Bool
has_id id j = str_eq j.id id

abbrev pub leased_id : Text → Lease → Bool
leased_id id l = has_id id l.job

abbrev pub dead_id : Text → DeadJob → Bool
dead_id id d = has_id id d.job

-- How often a job stands in the queue.
unfoldable pub copies : Text → Queue → ℕ
copies id q =
    length (filter (has_id id) q.pending)
    + length (filter (leased_id id) (in_flight q))
    + length (filter (dead_id id) q.dead)

-- No job stands in two places, and no lease under two ids.
pub record IsKept (q : Queue) : Type 0 where
  pub once : (id : Text) → copies id q ≤ 1
  pub leased : IsMap q.leases

length-filter-append {ℓ} :
    {A : Type ℓ} (p : A → Bool) (xs ys : List A)
    → length (filter p (xs ++ ys)) ≡ length (filter p xs) + length (filter p ys)
length-filter-append p xs ys =
    ap length (filter-append p xs ys) ∙ length-append (filter p xs) (filter p ys)

length-filter-jobs :
    (id : Text) (ls : List Lease)
    → length (filter (has_id id) (map (λ (l : Lease). l.job) ls))
      ≡ length (filter (leased_id id) ls)
length-filter-jobs id [] = refl
length-filter-jobs id (l ∷ ls) = ground (arith, length-filter-jobs id ls)

-- What a claim leaves waiting.
length-filter-away :
    (id n : Text) (js : List Job)
    → length (filter (has_id id) (filter (λ (j : Job). not (str_eq j.id n)) js))
      ≡ (if str_eq n id then 0 else length (filter (has_id id) js))
length-filter-away id n [] = ground arith
length-filter-away id n (j ∷ js) =
    ground
      (arith, length-filter-away id n js, str_eq_iff j.id n, str_eq_iff n id, str_eq_iff j.id id)

All-waiting :
    (js ks : List Job)
    → All (λ j. 1 ≤ length (filter (has_id j.id) ks)) js
    → (k : Job) → All (λ (j : Job). 1 ≤ length (filter (has_id j.id) (k ∷ ks))) js
All-waiting [] ks h k = tt
All-waiting (j ∷ js) ks h k = (ground (arith, h.0), All-waiting js ks h.1 k)

pub All-waits : (js : List Job) → All (λ (j : Job). 1 ≤ length (filter (has_id j.id) js)) js
All-waits [] = tt
All-waits (j ∷ js) =
    (ground (arith, (str_eq_iff j.id j.id).1 refl), All-waiting js js (All-waits js) j)

pub enqueue_new-copies :
    (id : Text) (job : Job) (q : Queue)
    → copies id (enqueue_new none job q).0 ≡ copies id q + length (filter (has_id id) (job ∷ []))
unfolding copies
enqueue_new-copies id job q = omega (arith, length-filter-append (has_id id) q.pending (job ∷ []))

module _ (lease_id : Text) (id : Text) (l : Lease) (q : Queue) (m : IsMap q.leases)
    (e : lookup lease_id q.leases ≡ some l) where
  pub completed-copies :
      (config : JobQueueConfig) (now : ℕ)
      → copies id (completed config now lease_id l q) + length (filter (leased_id id) (l ∷ []))
        ≡ copies id q
  unfolding copies
  completed-copies config now =
      omega (arith, length-filter-remove (leased_id id) lease_id l q.leases m e)

  pub buried-copies :
      (now : ℕ) (error : Text) → copies id (buried now error lease_id l q) ≡ copies id q
  unfolding copies
  buried-copies now error = ground (
    arith,
    length-filter-remove (leased_id id) lease_id l q.leases m e,
    length-filter-append (dead_id id) q.dead
        (record { job = l.job; error = error; dead_at = now } ∷ []),
  )

  pub retried-copies :
      (config : JobQueueConfig) (now : ℕ)
      → copies id (retried config now lease_id l q) ≡ copies id q
  unfolding copies
  retried-copies config now = ground (
    arith,
    length-filter-remove (leased_id id) lease_id l q.leases m e,
    length-filter-append (has_id id) q.pending (delayed config now l.job ∷ []),
  )

pub recover_expired-copies :
    (now : ℕ) (id : Text) (q : Queue) → copies id (recover_expired now q).0 ≡ copies id q
unfolding copies recover_expired
recover_expired-copies now id q = omega (
  arith,
  length-filter-append (has_id id) q.pending
      (map (λ (l : Lease). l.job) (values (filter (is_expired now) q.leases))),
  length-filter-jobs id (values (filter (is_expired now) q.leases)),
  length-filter-split (leased_id id) (is_expired now) q.leases,
)

module _ (config : JobQueueConfig) (now : ℕ) (lease_ms : Option ℕ) (lease_id : Text) (next : Job)
    (q : Queue) (free : lookup lease_id q.leases ≡ none) where
  in_flight-copies :
      (id : Text)
      → length (
          filter
            (leased_id id)
            (in_flight (take_job next (lease_of config now lease_ms lease_id next) q)))
        ≡ length (filter (leased_id id) (in_flight q)) + length (filter (has_id id) (next ∷ []))
  in_flight-copies id = ground (
    arith,
    length-filter-put_new (leased_id id) lease_id (lease_of config now lease_ms lease_id next)
        q.leases free,
  )

  pub take_job-copies :
      (id : Text)
      → copies next.id q ≤ 1
      → 1 ≤ length (filter (has_id next.id) q.pending)
      → copies id (take_job next (lease_of config now lease_ms lease_id next) q) ≡ copies id q
  unfolding copies
  take_job-copies id one waits = elim (Bool-cases (str_eq next.id id)) [
    | inl e ↦
        subst
          (λ i.
            copies i (take_job next (lease_of config now lease_ms lease_id next) q) ≡ copies i q)
          ((str_eq_iff next.id id).0 e)
          (ground (
            arith,
            length-filter-away next.id next.id q.pending,
            in_flight-copies next.id,
            one,
            waits,
            (str_eq_iff next.id next.id).1 refl,
          ))
    | inr e ↦ ground (arith, length-filter-away id next.id q.pending, in_flight-copies id)
  ]
