-- ===== src/Queue/Again.antt =====
-- Enqueuing with the idempotency key of a job that is there.
use virtual_office.Prelude.{
  ℕ, ◌≡◌, ◌∙◌, refl, sym, subst, ap, Bool, true, false, not, List, [], ◌∷◌, Option, none, some,
  Text, str_eq, str_eq_iff, filter, lookup, lookup-put, if◌then◌else◌, Bool-cases, inl, inr,
}
use virtual_office.Queue.Types.{Job, JobSpec, JobQueueConfig, KeyEntry, Queue}
use virtual_office.Queue.Ops.{
  is_stale, forget_stale_keys, set_key, new_job, known_key, enqueue_new, enqueue,
}

-- What a filter keeps is found as before.
lookup-filter :
    (keep : KeyEntry → Bool) (key : Text) (entry : KeyEntry) (m : List (Text × KeyEntry))
    → lookup key m ≡ some entry
    → keep entry ≡ true
    → lookup key (filter (λ (e : Text × KeyEntry). keep e.1) m) ≡ some entry
unfolding lookup
lookup-filter keep key entry [] h k = cc
lookup-filter keep key entry ((j, e) ∷ m) h k = elim (Bool-cases (str_eq j key)) [
  | inl q ↦ first (found (str_eq j key) q h) q
  | inr q ↦ later (lookup-filter keep key entry m (skipped (str_eq j key) q h) k) q
]
  where
    found : (b : Bool) → b ≡ true → (if b then some e else lookup key m) ≡ some entry → e ≡ entry
    found true q r = cc
    found false q r = cc

    skipped :
        (b : Bool)
        → b ≡ false
        → (if b then some e else lookup key m) ≡ some entry
        → lookup key m ≡ some entry
    skipped true q r = cc
    skipped false q r = r

    first :
        e ≡ entry
        → str_eq j key ≡ true
        → lookup key (filter (λ (x : Text × KeyEntry). keep x.1) ((j, e) ∷ m)) ≡ some entry
    first r q = rw (subst (λ x. keep x ≡ true) (sym r) k, q) (ap some r)

    later :
        lookup key (filter (λ (x : Text × KeyEntry). keep x.1) m) ≡ some entry
        → str_eq j key ≡ false
        → lookup key (filter (λ (x : Text × KeyEntry). keep x.1) ((j, e) ∷ m)) ≡ some entry
    later r q = elim (Bool-cases (keep e)) [ inl b ↦ rw (b, q) r | inr b ↦ rw b r ]

still_known :
    (later : ℕ) (key : Text) (q : Queue) (job : Job)
    → lookup key q.keys ≡ some (record { job = job; forget_at = none })
    → known_key (some key) (forget_stale_keys later q)
      ≡ some (record { job = job; forget_at = none })
unfolding forget_stale_keys
still_known later key q job h =
    lookup-filter (λ e. not (is_stale later e.forget_at)) key
      (record { job = job; forget_at = none }) q.keys h refl

module _ (config : JobQueueConfig) (now : ℕ) (id key : Text) (spec : JobSpec)
    (keyed : spec.idempotency_key ≡ some key) where
  remembered :
      (o : Option KeyEntry) (q : Queue)
      → (enqueue_new o (new_job config now id spec) q).1.deduplicated ≡ false
      → lookup key (enqueue_new o (new_job config now id spec) q).0.keys
        ≡ some (record {
          job = (enqueue_new o (new_job config now id spec) q).1.job;
          forget_at = none;
        })
  remembered (some e) q h = cc
  remembered none q h =
      ap
        (λ o.
          lookup key
            (set_key o (record { job = new_job config now id spec; forget_at = none }) q.keys))
        keyed
      ∙ lookup-put key key (record { job = new_job config now id spec; forget_at = none }) q.keys
      ∙ rw ((str_eq_iff key key).1 refl) refl

-- A job that was taken in under a key is not taken in again under it, whatever the second
-- request says and however late it comes, as long as nothing else has happened: the answer is the
-- first job, and nothing is put in the queue.
pub enqueue_again :
    (config : JobQueueConfig) (now later : ℕ) (id other key : Text) (spec again : JobSpec)
    (q : Queue)
    → spec.idempotency_key ≡ some key
    → again.idempotency_key ≡ some key
    → (enqueue config now id spec q).1.deduplicated ≡ false
    → enqueue config later other again (enqueue config now id spec q).0 ≡ (
      forget_stale_keys later (enqueue config now id spec q).0,
      record { job = (enqueue config now id spec q).1.job; deduplicated = true },
    )
unfolding enqueue
enqueue_again config now later id other key spec again q k k' new =
    let first = enqueue config now id spec q in
    ap (λ o. enqueue_new o (new_job config later other again) (forget_stale_keys later first.0))
      (ap (λ o. known_key o (forget_stale_keys later first.0)) k'
        ∙ still_known later key first.0 first.1.job (
            remembered config now id key spec k
              (known_key spec.idempotency_key (forget_stale_keys now q)) (forget_stale_keys now q)
              new))
