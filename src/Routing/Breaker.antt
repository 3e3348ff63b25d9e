-- ===== src/Routing/Breaker.antt =====
-- packages/llm/src/routing/circuit-breaker.ts. The clock is an argument: what it returns in the
-- call. A difference of instants compared with a span is moved across the comparison.
-- recordFailure reads the clock twice, in state() and for itself: the two readings are one instant here.
use virtual_office.Prelude.{
  ℕ, ◌+◌, Bool, true, false, List, [], ◌∷◌, ◌++◌, Option, none, some, Text, leb, ltb, length,
  filter, or_else, lookup, put, if◌then◌else◌,
}

pub data BreakerState : Type 0 where
  closed opened half_open : BreakerState

pub record CircuitBreakerOptions : Type 0 where
  pub failure_threshold : ℕ
  pub window_ms : ℕ
  pub cooldown_ms : ℕ
  pub half_open_max_calls : ℕ

abbrev pub default_breaker_options : CircuitBreakerOptions
default_breaker_options = record {
  failure_threshold = 5;
  window_ms = 60000;
  cooldown_ms = 30000;
  half_open_max_calls = 1;
}

pub record Entry : Type 0 where
  pub failures : List ℕ
  pub opened_at : Option ℕ
  pub half_open_calls : ℕ

abbrev pub new_entry : Entry
new_entry = record { failures = []; opened_at = none; half_open_calls = 0 }

abbrev pub Entries : Type 0
Entries = List (Text × Entry)

-- The entry of a provider, and the map, to which the call adds it where it is missing.
abbrev pub entry : Text → Entries → Entry
entry provider entries = or_else (lookup provider entries) new_entry

abbrev pub touched : Option Entry → Text → Entries → Entries
touched none provider entries = put provider new_entry entries
touched (some e) provider entries = entries

unfoldable pub touch : Text → Entries → Entries
touch provider entries = touched (lookup provider entries) provider entries

abbrev pub state_at : CircuitBreakerOptions → ℕ → Option ℕ → BreakerState
state_at options now none = closed
state_at options now (some at) = if leb (at + options.cooldown_ms) now then half_open else opened

abbrev pub state_of : CircuitBreakerOptions → ℕ → Entry → BreakerState
state_of options now e = state_at options now e.opened_at

abbrev pub state : CircuitBreakerOptions → ℕ → Text → Entries → Entries × BreakerState
state options now provider entries =
    (touch provider entries, state_of options now (entry provider entries))

-- What the three methods do to the entry of the provider.
abbrev pub admit : CircuitBreakerOptions → BreakerState → Entry → Entry × Bool
admit options closed e = (e, true)
admit options opened e = (e, false)
admit options half_open e =
    if leb options.half_open_max_calls e.half_open_calls
    then (e, false)
    else (record e { half_open_calls = e.half_open_calls + 1 }, true)

abbrev pub trip : CircuitBreakerOptions → ℕ → List ℕ → Entry → Entry
trip options now failures e =
    if leb options.failure_threshold (length failures)
    then record { failures = []; opened_at = some now; half_open_calls = 0 }
    else record e { failures = failures }

abbrev pub fail : CircuitBreakerOptions → ℕ → BreakerState → Entry → Entry
fail options now half_open e = record e { opened_at = some now; half_open_calls = 0 }
fail options now opened e = e
fail options now closed e =
    trip options now (filter (λ t. ltb now (t + options.window_ms)) e.failures ++ now ∷ []) e

unfoldable pub can_request : CircuitBreakerOptions → ℕ → Text → Entries → Entries × Bool
can_request options now provider entries =
    let e = entry provider entries in
    let o = admit options (state_of options now e) e in
    (put provider o.0 (touch provider entries), o.1)

unfoldable pub record_success : Text → Entries → Entries
record_success provider entries = put provider new_entry (touch provider entries)

unfoldable pub record_failure : CircuitBreakerOptions → ℕ → Text → Entries → Entries
record_failure options now provider entries =
    let e = entry provider entries in
    put provider (fail options now (state_of options now e) e) (touch provider entries)
