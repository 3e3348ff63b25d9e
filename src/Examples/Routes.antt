-- ===== src/Examples/Routes.antt =====
-- Tests and applied theorems on the order of dispatch and on the circuit breaker.
use Prim.Native.Nat.{min}
use virtual_office.Prelude.{
  ℕ, ◌+◌, ◌-◌, ◌/◌, ◌%◌, ◌≤◌, ◌≡◌, refl, ◌&&◌, List, [], ◌∷◌, Text, str_eq, leb, ltb, length,
  lookup, arith,
}
use virtual_office.Task.Model.{low, normal, high, urgent, priority_rank}
use virtual_office.Schedule.Priority.{
  PriorityLevels, ordering_key, is_below, ordering_key-is_below, ordering_key-digits,
}
use virtual_office.Routing.Breaker.{CircuitBreakerOptions, Entries, entry, can_request}
use virtual_office.Routing.Trials.{ask, failed, succeeded, run, IsSound, breaker_run-IsSound}
use virtual_office.Routing.Burst.{
  record_failures, granted, half, record_failures-can_request, granted-half,
}

abbrev plain : PriorityLevels
plain = record { office = normal; department = urgent; employee = urgent; task = urgent }

abbrev pressed : PriorityLevels
pressed = record { office = high; department = low; employee = low; task = low }

pressed_key : ordering_key pressed ≡ 2000
unfolding ordering_key priority_rank
pressed_key = refl

ordering_key-is_below_example :
    ltb (ordering_key plain) (ordering_key pressed) ≡ is_below plain pressed
ordering_key-is_below_example = ordering_key-is_below plain pressed

ordering_key-digits_example :
    (ordering_key pressed ≤ 3333)
    × (ordering_key pressed / 1000 ≡ priority_rank high)
    × (ordering_key pressed / 100 % 10 ≡ priority_rank low)
    × (ordering_key pressed / 10 % 10 ≡ priority_rank low)
    × (ordering_key pressed % 10 ≡ priority_rank low)
ordering_key-digits_example = ordering_key-digits pressed

abbrev provider : Text
provider = 97 ∷ []

-- Three failures within ten milliseconds shut a provider out for twenty.
abbrev three : CircuitBreakerOptions
three = record { failure_threshold = 3; window_ms = 10; cooldown_ms = 20; half_open_max_calls = 2 }

abbrev outage : List ℕ
outage = 5 ∷ 7 ∷ 9 ∷ []

record_failures-can_request_example :
    (can_request three 15 provider (record_failures three outage provider [])).1
    ≡ (leb (9 + three.cooldown_ms) 15 && ltb 0 three.half_open_max_calls)
unfolding lookup
record_failures-can_request_example =
    record_failures-can_request three provider [] 5 outage 9 15 refl
      ((omega arith, omega arith), ((omega arith, omega arith), ((omega arith, omega arith), tt)))
      refl refl

abbrev down : Entries
down = (provider, half [] 9 0) ∷ []

granted-half_example :
    granted three (30 ∷ 31 ∷ 32 ∷ []) provider down
    ≡ min (length {A = ℕ} (30 ∷ 31 ∷ 32 ∷ [])) (three.half_open_max_calls - 0)
unfolding lookup str_eq
granted-half_example =
    granted-half three provider [] 9 0 (30 ∷ 31 ∷ 32 ∷ []) down refl
      (omega arith, (omega arith, (omega arith, tt)))

breaker_run-IsSound_example : IsSound three (
    entry provider (
      run three
        (failed 1 provider
          ∷ ask 2 provider
          ∷ failed 3 provider
          ∷ failed 4 provider
          ∷ ask 30 provider
          ∷ succeeded provider
          ∷ [])
        []))
breaker_run-IsSound_example =
    breaker_run-IsSound three (omega arith)
      (failed 1 provider
        ∷ ask 2 provider
        ∷ failed 3 provider
        ∷ failed 4 provider
        ∷ ask 30 provider
        ∷ succeeded provider
        ∷ [])
      provider
