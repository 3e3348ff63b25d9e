-- ===== src/Core/Connection.antt =====
-- packages/core/src/connection/connection.ts: the arrows between departments, and what the rules
-- on an arrow say to the engine.
use virtual_office.Prelude.{
  ℕ, zero, suc, ◌+◌, ◌≡◌, refl, ◌↔◌, Bool, true, false, List, [], ◌∷◌, ◌++◌, Option, none, some,
  Text, text, join, is_empty, str_eq, if◌then◌else◌, Eq, beq_iff_of_code, nat_beq,
}
use virtual_office.Core.Result.{Result, ok, err, ◌>>=◌, error}
use virtual_office.Core.Unknown.{Value, Values, Fields, undefined, str, arr, obj, nil, cons, get}

pub data ConnectionKind : Type 0 where
  reports_to collaborates handoff reviews escalates_to watches : ConnectionKind

abbrev kind_code : ConnectionKind → ℕ
kind_code reports_to = 0
kind_code collaborates = 1
kind_code handoff = 2
kind_code reviews = 3
kind_code escalates_to = 4
kind_code watches = 5

abbrev kind_decode : ℕ → Option ConnectionKind
kind_decode zero = some reports_to
kind_decode (suc zero) = some collaborates
kind_decode (suc (suc zero)) = some handoff
kind_decode (suc (suc (suc zero))) = some reviews
kind_decode (suc (suc (suc (suc zero)))) = some escalates_to
kind_decode (suc (suc (suc (suc (suc n))))) = some watches

kind_decode-code : (k : ConnectionKind) → kind_decode (kind_code k) ≡ some k
kind_decode-code reports_to = refl
kind_decode-code collaborates = refl
kind_decode-code handoff = refl
kind_decode-code reviews = refl
kind_decode-code escalates_to = refl
kind_decode-code watches = refl

unfoldable pub kind_beq : ConnectionKind → ConnectionKind → Bool
kind_beq a b = nat_beq (kind_code a) (kind_code b)

pub kind_beq_iff : (a b : ConnectionKind) → (kind_beq a b ≡ true) ↔ (a ≡ b)
unfolding kind_beq
kind_beq_iff = beq_iff_of_code kind_code kind_decode kind_decode-code

instance abbrev pub kind_eq : Eq ConnectionKind
kind_eq = record { beq = kind_beq; beq_iff = kind_beq_iff }

unfoldable pub kind_text : ConnectionKind → Text
kind_text reports_to = text "reports_to"
kind_text collaborates = text "collaborates"
kind_text handoff = text "handoff"
kind_text reviews = text "reviews"
kind_text escalates_to = text "escalates_to"
kind_text watches = text "watches"

pub record Connection : Type 0 where
  pub id : Text
  pub office_id : Text
  pub from_id : Text
  pub to_id : Text
  pub kind : ConnectionKind
  pub enabled : Bool
  pub rules : Fields
  pub created_at : ℕ

pub data WatchableMoment : Type 0 where
  work_started work_finished work_went_wrong decision_wanted : WatchableMoment

abbrev moment_code : WatchableMoment → ℕ
moment_code work_started = 0
moment_code work_finished = 1
moment_code work_went_wrong = 2
moment_code decision_wanted = 3

abbrev moment_decode : ℕ → Option WatchableMoment
moment_decode zero = some work_started
moment_decode (suc zero) = some work_finished
moment_decode (suc (suc zero)) = some work_went_wrong
moment_decode (suc (suc (suc n))) = some decision_wanted

moment_decode-code : (m : WatchableMoment) → moment_decode (moment_code m) ≡ some m
moment_decode-code work_started = refl
moment_decode-code work_finished = refl
moment_decode-code work_went_wrong = refl
moment_decode-code decision_wanted = refl

unfoldable pub moment_beq : WatchableMoment → WatchableMoment → Bool
moment_beq a b = nat_beq (moment_code a) (moment_code b)

pub moment_beq_iff : (a b : WatchableMoment) → (moment_beq a b ≡ true) ↔ (a ≡ b)
unfolding moment_beq
moment_beq_iff = beq_iff_of_code moment_code moment_decode moment_decode-code

instance abbrev pub moment_eq : Eq WatchableMoment
moment_eq = record { beq = moment_beq; beq_iff = moment_beq_iff }

-- `isWatchableMoment`, with the moment that the string names.
unfoldable pub moment_of : Value → Option WatchableMoment
moment_of (str s) =
    if str_eq s (text "work_started")
    then some work_started
    else (if str_eq s (text "work_finished")
        then some work_finished
        else (if str_eq s (text "work_went_wrong")
            then some work_went_wrong
            else (if str_eq s (text "decision_wanted") then some decision_wanted else none)))
moment_of _ = none

pub data HandoffAssignment : Type 0 where
  named skill bench : Text → HandoffAssignment
  anyone : HandoffAssignment

abbrev is_defined : Value → ℕ
is_defined undefined = 0
is_defined _ = 1

abbrev more_than_one : ℕ → Bool
more_than_one zero = false
more_than_one (suc zero) = false
more_than_one (suc (suc n)) = true

-- A non-empty string for one of the three keys, or what is wrong with it.
abbrev assigned_to : (Text → HandoffAssignment) → Text → Text → Value → Result HandoffAssignment
assigned_to make path message (str s) = if is_empty s then err (error path message) else ok (make s)
assigned_to make path message _ = err (error path message)

assign_one : Value → Value → Value → Result HandoffAssignment
assign_one undefined undefined undefined =
    err (error (text "assign") (text "say who takes the work: name somebody, a skill, or a bench"))
assign_one undefined undefined wanted =
    assigned_to skill (text "assign.skill") (text "must be a skill") wanted
assign_one undefined person wanted =
    assigned_to named (text "assign.named") (text "must be an employee id") person
assign_one box person wanted =
    assigned_to bench (text "assign.bench") (text "must be a bench id") box

assign_fields : Fields → Result HandoffAssignment
unfolding assign_one
assign_fields raw =
    let person = get raw (text "named") in
    let wanted = get raw (text "skill") in
    let box = get raw (text "bench") in
    if more_than_one (is_defined person + is_defined wanted + is_defined box)
    then err (error (text "assign") (text "name somebody, a skill, or a bench — not more than one"))
    else assign_one box person wanted

unfoldable pub parse_handoff_assignment : Value → Result HandoffAssignment
unfolding assign_fields
parse_handoff_assignment undefined = ok anyone
parse_handoff_assignment (obj raw) = assign_fields raw
parse_handoff_assignment _ = err (error (text "assign") (text "must be an object"))

unfoldable pub parse_handoff_rules : Fields → Result HandoffAssignment
parse_handoff_rules rules = parse_handoff_assignment (get rules (text "assign"))

pub record WatchRules : Type 0 where
  pub moments : List WatchableMoment
  pub assign : HandoffAssignment

watchable_moments_text : Text
watchable_moments_text = join (text ", ") (
    text "work_started"
    ∷ text "work_finished"
    ∷ text "work_went_wrong"
    ∷ text "decision_wanted"
    ∷ [])

-- `raw.every(isWatchableMoment)`, with the moments.
unfoldable pub moments_of : Values → Option (List WatchableMoment)
moments_of nil = some []
moments_of (cons v vs) = elim (moment_of v) [
  | none ↦ none
  | some m ↦ elim (moments_of vs) [ none ↦ none | some ms ↦ some (m ∷ ms) ]
]

abbrev watch_moments : Option (List WatchableMoment) → Value → Result WatchRules
watch_moments none assign =
    err (error (text "for") (text "must each be one of " ++ watchable_moments_text))
watch_moments (some moments) assign =
    parse_handoff_assignment assign >>= (λ to. ok (record { moments = moments; assign = to }))

unfoldable pub parse_watch : Value → Value → Result WatchRules
unfolding watchable_moments_text
parse_watch (arr (cons v vs)) assign = watch_moments (moments_of (cons v vs)) assign
parse_watch _ assign =
    err (error (text "for") (text "must say what it watches for: " ++ watchable_moments_text))

unfoldable pub parse_watch_rules : Fields → Result WatchRules
unfolding parse_watch
parse_watch_rules rules = parse_watch (get rules (text "for")) (get rules (text "assign"))
