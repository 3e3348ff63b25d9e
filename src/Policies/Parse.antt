-- ===== src/Policies/Parse.antt =====
-- packages/core/src/department/review-policy.ts: `parseReviewPolicy`.
use virtual_office.Prelude.{
  ℕ, List, [], ◌∷◌, ◌++◌, map, Option, none, some, Text, text, text_eq, str_eq, join, includes,
  if◌then◌else◌,
}
use virtual_office.Core.Result.{ValidationError, Result, ok, err, ◌>>=◌, error}
use virtual_office.Core.Gates.{GatedAction, gate_of, gate_eq, gate_text, gated_actions}
use virtual_office.Core.Unknown.{Value, Values, Fields, undefined, str, arr, obj, nil, cons, get}
use virtual_office.Core.Policy.{
  ReviewPolicy, direct, manager, peer, quorum, gate, automated, pipeline,
}
use virtual_office.Policies.Stages.{
  NumberRead, StagesRead, positive_int, non_empty_id, parse_stages,
}

abbrev pub default_max_iterations : ℕ
default_max_iterations = 3

abbrev pub default_review_policy : ReviewPolicy
default_review_policy = manager default_max_iterations

abbrev pub kinds : List Text
kinds =
    text "direct"
    ∷ text "manager"
    ∷ text "peer"
    ∷ text "quorum"
    ∷ text "pipeline"
    ∷ text "automated"
    ∷ text "gate"
    ∷ []

abbrev not_gate : Result (List GatedAction)
not_gate = err (
    error (text "gatedActions")
      (text "must each be one of " ++ join (text ", ") (map gate_text gated_actions)))

abbrev pub add_gate :
    Option GatedAction
    → List GatedAction
    → (List GatedAction → Result (List GatedAction))
    → Result (List GatedAction)
add_gate none gates rest = not_gate
add_gate (some g) gates rest =
    if includes gates g
    then err
        (error (text "gatedActions") (text "duplicate category \"" ++ gate_text g ++ text "\""))
    else rest (gates ++ g ∷ [])

abbrev pub gate_named : Value → Option GatedAction
gate_named (str s) = gate_of s
gate_named _ = none

unfoldable pub gates_from : Values → List GatedAction → Result (List GatedAction)
gates_from nil gates = ok gates
gates_from (cons v vs) gates = add_gate (gate_named v) gates (gates_from vs)

unfoldable pub parse_gates : Value → Result (List GatedAction)
parse_gates (arr (cons v vs)) = gates_from (cons v vs) []
parse_gates _ =
    err (error (text "gatedActions") (text "a gate must gate at least one category of action"))

-- `if (errors.length > 0) return err(errors);`, and else every part is there.
abbrev pub built : List ValidationError → Option ReviewPolicy → Result ReviewPolicy
built [] (some policy) = ok policy
built errors policy = err errors

abbrev pub capped_at : (ℕ → ReviewPolicy) → Option ℕ → Option ReviewPolicy
capped_at make none = none
capped_at make (some m) = some (make m)

abbrev pub quorum_of : NumberRead → NumberRead → Result ReviewPolicy
quorum_of iterations (none, e) = built (iterations.1 ++ e) none
quorum_of iterations (some r, e) = built (iterations.1 ++ e) (capped_at (quorum r) iterations.0)

abbrev pub automated_of : NumberRead → Option Text → Result ReviewPolicy
automated_of iterations none =
    err (iterations.1 ++ error (text "checkId") (text "must name the check that decides"))
automated_of iterations (some check) = built iterations.1 (capped_at (automated check) iterations.0)

abbrev pub pipeline_of : NumberRead → StagesRead → Result ReviewPolicy
pipeline_of iterations stages =
    built (iterations.1 ++ stages.1) (capped_at (pipeline stages.0) iterations.0)

abbrev pub read_iterations : Fields → NumberRead
read_iterations input =
    positive_int (get input (text "maxIterations")) (text "maxIterations")
      (some default_max_iterations)

-- The branches by kind, in the order of the source.
unfoldable pub parse_kind : Text → Fields → Result ReviewPolicy
parse_kind kind input =
    if str_eq kind (text "direct")
    then ok direct
    else (if str_eq kind (text "gate")
        then (parse_gates (get input (text "gatedActions")) >>= λ gates. ok (gate gates))
        else (if str_eq kind (text "quorum")
            then quorum_of (read_iterations input)
                (positive_int (get input (text "required")) (text "required") none)
            else (if str_eq kind (text "automated")
                then automated_of (read_iterations input)
                    (non_empty_id (get input (text "checkId")))
                else (if str_eq kind (text "pipeline")
                    then pipeline_of (read_iterations input)
                        (parse_stages (get input (text "stages")))
                    else (if str_eq kind (text "manager")
                        then built (read_iterations input).1
                            (capped_at manager (read_iterations input).0)
                        else built (read_iterations input).1
                            (capped_at peer (read_iterations input).0))))))

abbrev pub not_kind : Result ReviewPolicy
not_kind = err (error (text "kind") (text "must be one of " ++ join (text ", ") kinds))

abbrev pub by_kind : Value → Fields → Result ReviewPolicy
by_kind (str kind) input = if includes kinds kind then parse_kind kind input else not_kind
by_kind _ input = not_kind

unfoldable pub parse_review_policy : Value → Result ReviewPolicy
parse_review_policy undefined = ok default_review_policy
parse_review_policy (obj input) = by_kind (get input (text "kind")) input
parse_review_policy _ = err (error [] (text "review policy must be an object"))
