-- ===== src/Benches/Shape.antt =====
-- packages/core/src/department/bench.ts: what is checked of benches when a department is made or
-- changed. What the source types as a string or a list is one here.
use virtual_office.Prelude.{
  ℕ, suc, List, [], ◌∷◌, ◌++◌, map, Option, none, some, Text, text, text_eq, trim, join, decimal,
  is_empty, includes, lookup, put, not, if◌then◌else◌,
}
use virtual_office.Core.Result.{ValidationError, Result, ok, err, error, error_if}
use virtual_office.Benches.Turn.{Bench, bench_strategies, is_bench_strategy}

abbrev quote : Text → Text
quote t = text "\"" ++ t ++ text "\""

abbrev pub at_bench : ℕ → Text → Text
at_bench index rest = text "benches[" ++ decimal index ++ text "]" ++ rest

abbrev pub at_member : ℕ → ℕ → Text
at_member index position = at_bench index (text ".memberIds[" ++ decimal position ++ text "]")

unfoldable pub name_errors : ℕ → Bench → List ValidationError
name_errors index bench =
    error_if (is_empty (trim bench.name)) (at_bench index (text ".name")) (text "must not be empty")

unfoldable pub id_errors : ℕ → List Text → Bench → List ValidationError
id_errors index seen_ids bench =
    if is_empty bench.id
    then error (at_bench index (text ".id")) (text "must be an id")
    else error_if (includes seen_ids bench.id) (at_bench index (text ".id"))
        (text "duplicate bench id " ++ quote bench.id)

unfoldable pub strategy_errors : ℕ → Bench → List ValidationError
strategy_errors index bench =
    if is_bench_strategy bench.strategy
    then []
    else error (at_bench index (text ".strategy"))
        (text "must be one of " ++ join (text ", ") bench_strategies)

unfoldable pub judge_errors : ℕ → Option Text → List Text → List ValidationError
judge_errors index none members = []
judge_errors index (some judge) members =
    error_if (includes members judge) (at_bench index (text ".judgeId"))
      (quote judge ++ text " is on this bench, so cannot judge it")

-- The map from a member to the name of the bench that holds it.
abbrev pub Seen : Type 0
Seen = List (Text × Text)

abbrev pub member_error : Option Text → Text → Text → List ValidationError
member_error none at member = []
member_error (some already) at member =
    error at (quote member ++ text " is already on the " ++ quote already ++ text " bench")

abbrev pub see : Option Text → Text → Text → Seen → Seen
see none name member seen = put member name seen
see (some already) name member seen = seen

unfoldable pub seen_after : Text → List Text → Seen → Seen
seen_after name [] seen = seen
seen_after name (m ∷ ms) seen = seen_after name ms (see (lookup m seen) name m seen)

unfoldable pub member_errors : (index position : ℕ) → Text → List Text → Seen → List ValidationError
member_errors index position name [] seen = []
member_errors index position name (m ∷ ms) seen =
    member_error (lookup m seen) (at_member index position) m
    ++ member_errors index (suc position) name ms (see (lookup m seen) name m seen)

abbrev pub bench_errors : ℕ → List Text → Seen → Bench → List ValidationError
bench_errors index seen_ids seen bench =
    name_errors index bench
    ++ id_errors index seen_ids bench
    ++ strategy_errors index bench
    ++ judge_errors index bench.judge_id bench.member_ids
    ++ member_errors index 0 bench.name bench.member_ids seen

unfoldable pub shape_errors : ℕ → List Text → Seen → List Bench → List ValidationError
shape_errors index seen_ids seen [] = []
shape_errors index seen_ids seen (bench ∷ benches) =
    bench_errors index seen_ids seen bench
    ++ shape_errors (suc index) (bench.id ∷ seen_ids) (seen_after bench.name bench.member_ids seen)
        benches

abbrev pub named : Bench → Bench
named bench = record bench { name = trim bench.name }

unfoldable pub validate_bench_shape : List Bench → Result (List Bench)
validate_bench_shape benches =
    let errors = shape_errors 0 [] [] benches in
    if is_empty errors then ok (map named benches) else err errors

unfoldable pub stranger_errors : (index position : ℕ) → List Text → List Text → List ValidationError
stranger_errors index position works [] = []
stranger_errors index position works (m ∷ ms) =
    error_if (not (includes works m)) (at_member index position)
      (quote m ++ text " does not work in this department")
    ++ stranger_errors index (suc position) works ms

abbrev pub unknown_judge : ℕ → Option Text → List Text → List ValidationError
unknown_judge index none anywhere = []
unknown_judge index (some judge) anywhere =
    error_if (not (includes anywhere judge)) (at_bench index (text ".judgeId"))
      (quote judge ++ text " does not work in this office")

unfoldable pub members_errors : ℕ → List Text → List Text → List Bench → List ValidationError
members_errors index works anywhere [] = []
members_errors index works anywhere (bench ∷ benches) =
    (stranger_errors index 0 works bench.member_ids ++ unknown_judge index bench.judge_id anywhere)
    ++ members_errors (suc index) works anywhere benches

abbrev pub validate_bench_members : List Bench → List Text → List Text → List ValidationError
validate_bench_members benches in_department in_office =
    members_errors 0 in_department in_office benches
