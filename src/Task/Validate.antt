-- ===== src/Task/Validate.antt =====
-- packages/core/src/task/task.ts: the checks that creating and changing a task share. What the
-- source types as a string is one here, so its tests on `typeof` cannot fail and are left out.
pub mod Laws
use virtual_office.Prelude.{
  ℕ, Bool, true, false, ◌||◌, List, [], ◌∷◌, ◌++◌, Option, none, some, Text, text, trim, decimal,
  ltb, length, is_empty, any, includes, text_eq, if◌then◌else◌,
}
use virtual_office.Core.Result.{ValidationError, error, error_if}

abbrev pub task_title_max_length : ℕ
task_title_max_length = 200

abbrev pub task_brief_max_length : ℕ
task_brief_max_length = 20000

-- The loop of `uniqueIds`: stops at the first id that was seen.
unfoldable pub unique_from : List Text → List Text → Text → Text → List ValidationError
unique_from seen [] path label = []
unique_from seen (id ∷ ids) path label =
    let rest = unique_from (id ∷ seen) ids path label in
    if includes seen id
    then error path (text "duplicate " ++ label ++ text " \"" ++ id ++ text "\"")
    else rest

unfoldable pub unique_ids : List Text → Text → Text → List ValidationError
unfolding unique_from
unique_ids ids path label = unique_from [] ids path label

unfoldable pub validate_title : Text → List ValidationError
validate_title title =
    if is_empty title
    then error (text "title") (text "must not be empty")
    else error_if (ltb task_title_max_length (length title)) (text "title")
        (text "must be at most " ++ decimal task_title_max_length ++ text " characters")

unfoldable pub validate_brief : Text → List ValidationError
validate_brief brief =
    error_if (ltb task_brief_max_length (length brief)) (text "brief")
      (text "must be at most " ++ decimal task_brief_max_length ++ text " characters")

abbrev pub bad_criterion : Text → Bool
bad_criterion criterion = is_empty (trim criterion) || ltb task_title_max_length (length criterion)

unfoldable pub validate_criteria : List Text → List ValidationError
validate_criteria criteria =
    error_if (any criteria bad_criterion) (text "acceptanceCriteria")
      (text "must each be text of at most " ++ decimal task_title_max_length ++ text " characters")
    ++ unique_ids criteria (text "acceptanceCriteria") (text "criterion")
