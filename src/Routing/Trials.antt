-- ===== src/Routing/Trials.antt =====
-- What the circuit breaker lets through.
use virtual_office.Prelude.{
  ℕ, ◌+◌, ◌≤◌, ◌<◌, ◌≡◌, refl, sym, subst, Bool, true, false, List, [], ◌∷◌, Option, none, some,
  Text, text_eq, str_eq, str_eq_iff, leb, length, or_else, lookup, put, lookup-put, if◌then◌else◌,
  Bool-cases, inl, inr, arith,
}
use virtual_office.Routing.Breaker.{
  CircuitBreakerOptions, Entry, Entries, new_entry, entry, touch, touched, state_at, admit, trip,
  fail, can_request, record_success, record_failure,
}

-- A call of the breaker for one provider.
pub data Request : Type 0 where
  ask : (now : ℕ) → (provider : Text) → Request
  succeeded : (provider : Text) → Request
  failed : (now : ℕ) → (provider : Text) → Request

abbrev pub perform : CircuitBreakerOptions → Request → Entries → Entries
perform options (ask now p) es = (can_request options now p es).0
perform options (succeeded p) es = record_success p es
perform options (failed now p) es = record_failure options now p es

abbrev pub run : CircuitBreakerOptions → List Request → Entries → Entries
run options [] es = es
run options (r ∷ rs) es = run options rs (perform options r es)

pub record IsSound (options : CircuitBreakerOptions) (e : Entry) : Type 0 where
  pub trials : e.half_open_calls ≤ options.half_open_max_calls
  pub recent : length e.failures < options.failure_threshold
  pub no_trials : e.opened_at ≡ none → e.half_open_calls ≡ 0
  pub forgotten : (t : ℕ) → e.opened_at ≡ some t → e.failures ≡ []

lookup-touched :
    (p i : Text) (o : Option Entry) (es : Entries)
    → lookup p es ≡ o
    → or_else (lookup i (touched o p es)) new_entry ≡ or_else (lookup i es) new_entry
lookup-touched p i (some e) es h = refl
lookup-touched p i none es h = elim (Bool-cases (str_eq p i)) [
  | inl q ↦ rw (lookup-put p i new_entry es, q) (rw (sym ((str_eq_iff p i).0 q), h) refl)
  | inr q ↦ rw (lookup-put p i new_entry es, q) refl
]

-- A call changes the entry of its provider and no other.
pub entry-put :
    (p i : Text) (e : Entry) (es : Entries)
    → entry i (put p e (touch p es)) ≡ (if str_eq p i then e else entry i es)
unfolding touch
entry-put p i e es = elim (Bool-cases (str_eq p i)) [
  | inl q ↦ rw (lookup-put p i e (touch p es), q) refl
  | inr q ↦ rw (lookup-put p i e (touch p es), q) (lookup-touched p i (lookup p es) es refl)
]

module _ (options : CircuitBreakerOptions) (some_failures : 1 ≤ options.failure_threshold) where
  new_entry-IsSound : IsSound options new_entry
  new_entry-IsSound = record {
    trials = omega arith;
    recent = omega arith;
    no_trials = λ e. refl;
    forgotten = λ t e. refl;
  }

  admit-IsSound :
      (now : ℕ) (e : Entry) (o : Option ℕ)
      → e.opened_at ≡ o
      → IsSound options e
      → IsSound options (admit options (state_at options now o) e).0
  admit-IsSound now e none q w = w
  admit-IsSound now e (some at) q w = elim (Bool-cases (leb (at + options.cooldown_ms) now)) [
    | inr b ↦ rw b w
    | inl b ↦ rw b (elim (Bool-cases (leb options.half_open_max_calls e.half_open_calls)) [
      | inl c ↦ rw c w
      | inr c ↦ rw c (record {
        trials = ground arith;
        recent = w.recent;
        no_trials = λ h. cc;
        forgotten = w.forgotten;
      })
    ])
  ]

  trip-IsSound :
      (now : ℕ) (failures : List ℕ) (e : Entry)
      → e.opened_at ≡ none
      → IsSound options e
      → IsSound options (trip options now failures e)
  trip-IsSound now failures e q w =
      elim (Bool-cases (leb options.failure_threshold (length failures))) [
        | inl b ↦ rw b (record {
          trials = omega arith;
          recent = omega arith;
          no_trials = λ h. refl;
          forgotten = λ t h. refl;
        })
        | inr b ↦ rw b (record {
          trials = w.trials;
          recent = ground arith;
          no_trials = w.no_trials;
          forgotten = λ t h. cc;
        })
      ]

  fail-IsSound :
      (now : ℕ) (e : Entry) (o : Option ℕ)
      → e.opened_at ≡ o
      → IsSound options e
      → IsSound options (fail options now (state_at options now o) e)
  fail-IsSound now e none q w = trip-IsSound now _ e q w
  fail-IsSound now e (some at) q w = elim (Bool-cases (leb (at + options.cooldown_ms) now)) [
    | inr b ↦ rw b w
    | inl b ↦ rw b (record {
      trials = omega arith;
      recent = w.recent;
      no_trials = λ h. refl;
      forgotten = λ t h. w.forgotten at q;
    })
  ]

  put-IsSound :
      (p i : Text) (e : Entry) (es : Entries)
      → IsSound options e
      → IsSound options (entry i es)
      → IsSound options (entry i (put p e (touch p es)))
  put-IsSound p i e es w v =
      subst (IsSound options) (sym (entry-put p i e es)) (chosen (str_eq p i))
    where
      chosen : (b : Bool) → IsSound options (if b then e else entry i es)
      chosen true = w
      chosen false = v

  perform-IsSound :
      (r : Request) (es : Entries)
      → ((i : Text) → IsSound options (entry i es))
      → (i : Text) → IsSound options (entry i (perform options r es))
  unfolding can_request record_success record_failure
  perform-IsSound (ask now p) es w i =
      put-IsSound p i _ es (admit-IsSound now (entry p es) (entry p es).opened_at refl (w p)) (w i)
  perform-IsSound (succeeded p) es w i = put-IsSound p i new_entry es new_entry-IsSound (w i)
  perform-IsSound (failed now p) es w i =
      put-IsSound p i _ es (fail-IsSound now (entry p es) (entry p es).opened_at refl (w p)) (w i)

  run_from-IsSound :
      (rs : List Request) (es : Entries)
      → ((i : Text) → IsSound options (entry i es))
      → (i : Text) → IsSound options (entry i (run options rs es))
  run_from-IsSound [] es w = w
  run_from-IsSound (r ∷ rs) es w =
      run_from-IsSound rs (perform options r es) (perform-IsSound r es w)

-- Whatever is asked of a new breaker whose threshold is positive, for whatever providers and with
-- any clock: the trial calls of a provider keep their limit, fewer failures than the threshold are
-- remembered, a closed provider has no trial calls and an open one no failures.
pub breaker_run-IsSound :
    (options : CircuitBreakerOptions)
    → 1 ≤ options.failure_threshold
    → (rs : List Request) (provider : Text) → IsSound options (entry provider (run options rs []))
unfolding lookup
breaker_run-IsSound options h rs provider =
    run_from-IsSound options h rs [] (λ i. new_entry-IsSound options h) provider
