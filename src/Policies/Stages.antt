-- ===== src/Policies/Stages.antt =====
-- packages/core/src/department/review-policy.ts: `positiveInt`, `nonEmptyId` and `parseStages`.
use virtual_office.Prelude.{
  ℕ, suc, ◌+◌, Bool, false, ◌||◌, List, [], ◌∷◌, ◌++◌, Option, none, some, Text, text, text_eq,
  trim, decimal, is_empty, length, includes, ltb, or_else, if◌then◌else◌,
}
use virtual_office.Core.Result.{ValidationError, error, error_if}
use virtual_office.Core.Unknown.{
  Value, Values, Fields, undefined, null, str, num, arr, obj, nil, cons, nat, get, or_value,
}
use virtual_office.Core.Policy.{ReviewStage}

-- A number, none for NaN, and what is wrong with it.
abbrev pub NumberRead : Type 0
NumberRead = Option ℕ × List ValidationError

unfoldable pub positive_int : Value → Text → Option ℕ → NumberRead
positive_int undefined path (some fallback) = (some fallback, [])
positive_int (num (nat (suc n))) path fallback = (some (suc n), [])
positive_int _ path fallback = (none, error path (text "must be a positive integer"))

abbrev pub unless_blank : Text → Option Text
unless_blank s = if is_empty s then none else some s

unfoldable pub non_empty_id : Value → Option Text
non_empty_id (str s) = unless_blank (trim s)
non_empty_id _ = none

abbrev pub at_stage : ℕ → Text → Text
at_stage i field = text "stages[" ++ decimal i ++ text "]" ++ field

unfoldable pub stage_name_errors : ℕ → List Text → Text → List ValidationError
stage_name_errors i seen name =
    if is_empty name
    then error (at_stage i (text ".name")) (text "must be a non-empty name")
    else error_if (includes seen name) (at_stage i (text ".name"))
        (text "duplicate stage name \"" ++ name ++ text "\"")

abbrev pub IdsRead : Type 0
IdsRead = List Text × List ValidationError

abbrev pub not_ids : ℕ → List ValidationError
not_ids i = error (at_stage i (text ".reviewerIds")) (text "must be a list of employee ids")

abbrev pub and_id : Option Text → ℕ → IdsRead → IdsRead
and_id none i rest = ([], not_ids i)
and_id (some id) i rest = (id ∷ rest.0, rest.1)

-- The loop, which breaks at the first that is no id.
unfoldable pub read_ids : ℕ → Values → IdsRead
read_ids i nil = ([], [])
read_ids i (cons v vs) = and_id (non_empty_id v) i (read_ids i vs)

unfoldable pub read_reviewers : ℕ → Value → IdsRead
read_reviewers i (arr vs) = read_ids i vs
read_reviewers i _ = ([], not_ids i)

abbrev pub WorkerRead : Type 0
WorkerRead = Option Text × List ValidationError

abbrev pub worker_or : ℕ → Option Text → WorkerRead
worker_or i none =
    (none, error (at_stage i (text ".workerId")) (text "must be an employee id or null"))
worker_or i (some id) = (some id, [])

unfoldable pub read_worker : ℕ → Value → WorkerRead
read_worker i null = (none, [])
read_worker i v = worker_or i (non_empty_id v)

-- `new Set(ids).size !== ids.length`
unfoldable pub has_twice : List Text → Bool
has_twice [] = false
has_twice (x ∷ xs) = includes xs x || has_twice xs

abbrev pub works_here : Option Text → List Text → Bool
works_here none ids = false
works_here (some id) ids = includes ids id

-- `Math.max(reviewerIds.length, 1)`
abbrev pub ceiling_of : List Text → ℕ
ceiling_of [] = 1
ceiling_of (id ∷ ids) = length (id ∷ ids)

abbrev pub ceiling_message : List Text → Text
ceiling_message [] = text "a stage that names no reviewers is signed off by one person"
ceiling_message (id ∷ ids) =
    text "needs at most "
    ++ decimal (length (id ∷ ids))
    ++ text " approvals, one per named reviewer"

unfoldable pub ceiling_errors : ℕ → List Text → Option ℕ → List ValidationError
ceiling_errors i ids none = []
ceiling_errors i ids (some required) =
    error_if (ltb (ceiling_of ids) required) (at_stage i (text ".required")) (ceiling_message ids)

abbrev pub stage_errors :
    ℕ → List Text → Text → IdsRead → WorkerRead → NumberRead → List ValidationError
stage_errors i seen name ids worker required =
    stage_name_errors i seen name
    ++ (ids.1
        ++ (worker.1
            ++ (error_if (has_twice ids.0) (at_stage i (text ".reviewerIds"))
                  (text "lists the same reviewer twice")
                ++ (error_if (works_here worker.0 ids.0) (at_stage i (text ".reviewerIds"))
                      (text "a stage's worker cannot review their own work")
                    ++ (required.1 ++ ceiling_errors i ids.0 required.0)))))

-- A stage whose number is NaN comes with an error, and is not used.
abbrev pub stage_of : Text → IdsRead → WorkerRead → NumberRead → ReviewStage
stage_of name ids worker required = record {
  name = name;
  worker_id = worker.0;
  reviewer_ids = ids.0;
  required = or_else required.0 0;
}

abbrev pub StagesRead : Type 0
StagesRead = List ReviewStage × List ValidationError

abbrev pub stage_name : Fields → Text
stage_name raw = or_else (non_empty_id (get raw (text "name"))) []

abbrev pub stage_ids : ℕ → Fields → IdsRead
stage_ids i raw = read_reviewers i (or_value (get raw (text "reviewerIds")) (arr nil))

abbrev pub stage_worker : ℕ → Fields → WorkerRead
stage_worker i raw = read_worker i (or_value (get raw (text "workerId")) null)

abbrev pub stage_required : ℕ → Fields → NumberRead
stage_required i raw =
    positive_int (get raw (text "required")) (at_stage i (text ".required")) (some 1)

abbrev pub with_stage : ℕ → List Text → Fields → StagesRead → StagesRead
with_stage i seen raw rest = (
  stage_of (stage_name raw) (stage_ids i raw) (stage_worker i raw) (stage_required i raw) ∷ rest.0,
  stage_errors i seen (stage_name raw) (stage_ids i raw) (stage_worker i raw) (stage_required i raw)
      ++ rest.1,
)

unfoldable pub stages_from : ℕ → List Text → Values → StagesRead
stages_from i seen nil = ([], [])
stages_from i seen (cons (obj raw) vs) =
    with_stage i seen raw (stages_from (i + 1) (stage_name raw ∷ seen) vs)
stages_from i seen (cons v vs) =
    let rest = stages_from (i + 1) seen vs in
    (rest.0, error (at_stage i []) (text "must be an object") ++ rest.1)

unfoldable pub parse_stages : Value → StagesRead
parse_stages (arr (cons v vs)) = stages_from 0 [] (cons v vs)
parse_stages _ = ([], error (text "stages") (text "a pipeline needs at least one stage, in order"))
