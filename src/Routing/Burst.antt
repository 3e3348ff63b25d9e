-- ===== src/Routing/Burst.antt =====
-- A provider that goes down, and the trials that find whether it is up again.
use Prim.Native.Nat.{min}
use virtual_office.Prelude.{
  ℕ, ◌+◌, ◌-◌, ◌≤◌, ◌<◌, ◌≡◌, refl, ap, ◌∙◌, Bool, true, false, ◌&&◌, List, [], ◌∷◌, ◌++◌, none,
  some, Text, str_eq_iff, leb, ltb, length, length-append, filter, All, All-append, All-imp,
  get_last?, put, if◌then◌else◌, Bool-cases, inl, inr, arith,
}
use virtual_office.Routing.Breaker.{
  CircuitBreakerOptions, Entry, Entries, new_entry, entry, touch, state_of, admit, trip, fail,
  can_request, record_failure, opened, half_open,
}
use virtual_office.Routing.Trials.{entry-put}

abbrev pub record_failures : CircuitBreakerOptions → List ℕ → Text → Entries → Entries
record_failures options [] p es = es
record_failures options (t ∷ ts) p es = record_failures options ts p (record_failure options t p es)

-- Of requests made one after the other, how many are let through.
abbrev pub granted : CircuitBreakerOptions → List ℕ → Text → Entries → ℕ
granted options [] p es = 0
granted options (now ∷ nows) p es =
    let o = can_request options now p es in (if o.1 then 1 else 0) + granted options nows p o.0

entry-put_self : (p : Text) (e : Entry) (es : Entries) → entry p (put p e (touch p es)) ≡ e
entry-put_self p e es = rw (entry-put p p e es, (str_eq_iff p p).1 refl) refl

filter-All {ℓ} :
    {A : Type ℓ} (f : A → Bool) (xs : List A) → All (λ x. f x ≡ true) xs → filter f xs ≡ xs
filter-All f [] h = refl
filter-All f (x ∷ xs) h = rw (h.0, filter-All f xs h.1) refl

-- Instants of one window.
abbrev pub IsBurst : CircuitBreakerOptions → ℕ → List ℕ → Type 0
IsBurst options first ts = All (λ t. (first ≤ t) × (t < first + options.window_ms)) ts

abbrev shut : List ℕ → Entry
shut failures = record { failures = failures; opened_at = none; half_open_calls = 0 }

abbrev tripped : ℕ → Entry
tripped now = record { failures = []; opened_at = some now; half_open_calls = 0 }

module _ (options : CircuitBreakerOptions) (first : ℕ) (p : Text) where
  kept :
      (now : ℕ) (fs : List ℕ)
      → now < first + options.window_ms
      → IsBurst options first fs
      → filter (λ t. ltb now (t + options.window_ms)) fs ≡ fs
  kept now fs h b =
      filter-All (λ t. ltb now (t + options.window_ms)) fs
        (All-imp (λ t. (first ≤ t) × (t < first + options.window_ms)) _ (λ t k. ground arith) fs b)

  entry-failed :
      (now : ℕ) (fs : List ℕ) (es : Entries)
      → now < first + options.window_ms
      → IsBurst options first fs
      → entry p es ≡ shut fs
      → entry p (record_failure options now p es) ≡ trip options now (fs ++ now ∷ []) (shut fs)
  unfolding record_failure
  entry-failed now fs es h b e =
      entry-put_self p (fail options now (state_of options now (entry p es)) (entry p es)) es
      ∙ ap (λ x. fail options now (state_of options now x) x) e
      ∙ ap (λ l. trip options now (l ++ now ∷ []) (shut fs)) (kept now fs h b)

  trip_full :
      (now last : ℕ) (failures fs : List ℕ)
      → leb options.failure_threshold (length failures) ≡ true
      → some now ≡ some last
      → trip options now failures (shut fs) ≡ tripped last
  trip_full now last failures fs h l =
      rw h (ap (λ o. record { failures = []; opened_at = o; half_open_calls = 0 }) l)

  trip_early :
      (now : ℕ) (failures fs : List ℕ)
      → leb options.failure_threshold (length failures) ≡ false
      → trip options now failures (shut fs) ≡ shut failures
  trip_early now failures fs h = rw h refl

  burst :
      (ts fs : List ℕ) (last : ℕ) (es : Entries)
      → IsBurst options first ts
      → IsBurst options first fs
      → length fs + length ts ≡ options.failure_threshold
      → get_last? ts ≡ some last
      → entry p es ≡ shut fs
      → entry p (record_failures options ts p es) ≡ tripped last
  burst [] fs last es b c n l e = cc
  burst (t ∷ []) fs last es b c n l e =
      entry-failed t fs es b.0.1 c e
      ∙ trip_full t last (fs ++ t ∷ []) fs (ground (arith, n, length-append fs (t ∷ []))) l
  burst (t ∷ u ∷ us) fs last es b c n l e =
      burst (u ∷ us) (fs ++ t ∷ []) last (record_failure options t p es) b.1
        (All-append _ fs (t ∷ []) c (b.0, tt)) (omega (arith, length-append fs (t ∷ []))) l
        (entry-failed t fs es b.0.1 c e
          ∙ trip_early t (fs ++ t ∷ []) fs (ground (arith, n, length-append fs (t ∷ []))))

  asked :
      (now last : ℕ) (es : Entries)
      → entry p es ≡ tripped last
      → (can_request options now p es).1
        ≡ (leb (last + options.cooldown_ms) now && ltb 0 options.half_open_max_calls)
  unfolding can_request
  asked now last es e =
      ap (λ x. (admit options (state_of options now x) x).1) e
      ∙ answer (leb (last + options.cooldown_ms) now)
    where
      answer :
          (b : Bool)
          → (admit options (if b then half_open else opened) (tripped last)).1
            ≡ (b && ltb 0 options.half_open_max_calls)
      answer true = ground arith
      answer false = refl

-- A provider with no failures that then fails as often as the threshold says, all within one
-- window, is asked nothing until the cooldown after the last of them has passed; the next request
-- then goes through as a trial, where trials are allowed at all.
pub record_failures-can_request :
    (options : CircuitBreakerOptions) (provider : Text) (entries : Entries) (first : ℕ)
    (times : List ℕ) (last now : ℕ)
    → entry provider entries ≡ new_entry
    → IsBurst options first times
    → length times ≡ options.failure_threshold
    → get_last? times ≡ some last
    → (can_request options now provider (record_failures options times provider entries)).1
      ≡ (leb (last + options.cooldown_ms) now && ltb 0 options.half_open_max_calls)
record_failures-can_request options provider entries first times last now e b n l =
    asked options first provider now last (record_failures options times provider entries)
      (burst options first provider times [] last entries b tt (omega (arith, n)) l e)

abbrev pub half : List ℕ → (at calls : ℕ) → Entry
half failures at calls = record {
  failures = failures;
  opened_at = some at;
  half_open_calls = calls;
}

admit-half :
    (options : CircuitBreakerOptions) (now : ℕ) (fs : List ℕ) (at calls : ℕ)
    → leb (at + options.cooldown_ms) now ≡ true
    → admit options (state_of options now (half fs at calls)) (half fs at calls) ≡ (
      half fs at (if ltb calls options.half_open_max_calls then calls + 1 else calls),
      ltb calls options.half_open_max_calls,
    )
admit-half options now fs at calls h = elim (Bool-cases (leb options.half_open_max_calls calls)) [
  | inl q ↦ rw (h, q, less-false q) refl
  | inr q ↦ rw (h, q, less-true q) refl
]
  where
    less-false :
        leb options.half_open_max_calls calls ≡ true → ltb calls options.half_open_max_calls ≡ false
    less-false q = ground arith

    less-true :
        leb options.half_open_max_calls calls ≡ false → ltb calls options.half_open_max_calls ≡ true
    less-true q = ground arith

-- Once its cooldown has passed, an open provider lets through as many of the requests made one
-- after the other as are left of its trial calls, and refuses the rest.
pub granted-half :
    (options : CircuitBreakerOptions) (provider : Text) (failures : List ℕ) (at calls : ℕ)
    (times : List ℕ) (entries : Entries)
    → entry provider entries ≡ half failures at calls
    → All (λ now. at + options.cooldown_ms ≤ now) times
    → granted options times provider entries
      ≡ min (length times) (options.half_open_max_calls - calls)
unfolding can_request
granted-half options p fs at calls [] es e h = omega arith
granted-half options p fs at calls (now ∷ nows) es e h =
    let o =
      ap (λ x. admit options (state_of options now x) x) e
      ∙ admit-half options now fs at calls (ground (arith, h.0)) in
    let rest =
      granted-half options p fs at
        (if ltb calls options.half_open_max_calls then calls + 1 else calls) nows _
        (entry-put_self p _ es ∙ ap (λ x. x.0) o) h.1 in
    ground (arith, rest, ap (λ x. x.1) o)
