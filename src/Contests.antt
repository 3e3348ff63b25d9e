-- ===== src/Contests.antt =====
-- packages/core/src/task/contest.ts: the same job given to everybody on a bench.
pub mod Verdict
pub mod Entries
use virtual_office.Prelude.{
  ℕ, suc, Bool, true, false, not, ◌||◌, List, [], ◌∷◌, ◌++◌, Option, none, some, Text, text,
  text_eq, str_eq, trim, decimal, ltb, length, is_empty, any, find?, if◌then◌else◌,
}
use virtual_office.Core.Result.{ValidationError, Result, ok, err, ◌>>=◌, error, error_if}
use virtual_office.Task.Status.{TaskStatus, done, cancelled, status_beq, status_text}
use virtual_office.Task.Model.{Task, TaskDeps, CreateTaskInput, ContestWin}
use virtual_office.Task.Validate.{task_brief_max_length}
use virtual_office.Task.Create.{create_task}

pub data ContestStanding : Type 0 where
  running ready decided : ContestStanding

unfoldable pub is_in : Task → Bool
is_in entry = status_beq entry.status done

unfoldable pub is_coming : Task → Bool
is_coming entry = not (status_beq entry.status done || status_beq entry.status cancelled)

abbrev pub has_win : Option ContestWin → Bool
has_win none = false
has_win (some w) = true

unfoldable pub has_won : Task → Bool
has_won entry = has_win entry.won

-- `{ ...input, assigneeId, contestId }`
abbrev pub entry_of : CreateTaskInput → Text → Text → CreateTaskInput
entry_of input member contest_id = record input {
  assignee_id = some member;
  contest_id = some contest_id;
}

-- The n-th call of `createTask` has what the n-th calls of the deps return.
unfoldable pub create_entries :
    CreateTaskInput → Text → (ℕ → TaskDeps) → ℕ → List Text → Result (List Task)
create_entries input contest_id deps n [] = ok []
create_entries input contest_id deps n (m ∷ ms) =
    create_task (entry_of input m contest_id) (deps n) >>= λ created.
    create_entries input contest_id deps (suc n) ms >>= λ rest. ok (created ∷ rest)

unfoldable pub create_contest :
    CreateTaskInput → List Text → Text → (ℕ → TaskDeps) → Result (List Task)
create_contest input members contest_id deps =
    if is_empty members
    then err (error (text "memberIds") (text "a contest needs somebody to enter it"))
    else create_entries input contest_id deps 0 members

unfoldable pub contest_standing : List Task → ContestStanding
contest_standing entries =
    if any entries has_won
    then decided
    else (if any entries is_coming then running else (if any entries is_in then ready else running))

pub record ContestDecision : Type 0 where
  pub reason : Text
  pub decided_by : Option Text
  pub at : ℕ

abbrev pub already_errors : Option Task → List ValidationError
already_errors none = []
already_errors (some already) =
    error (text "contest") (text "already decided: entry \"" ++ already.id ++ text "\" won it")

abbrev pub winner_errors : Text → Option Task → List ValidationError
winner_errors winner_id none =
    error (text "winnerId") (text "\"" ++ winner_id ++ text "\" is not an entry in this contest")
winner_errors winner_id (some winner) = error_if (not (is_in winner)) (text "winnerId") (
    text "that entry is "
    ++ status_text winner.status
    ++ text ", so there is nothing finished to have judged")

unfoldable pub reason_errors : Text → List ValidationError
reason_errors reason =
    if is_empty reason
    then error (text "reason") (text "must say why it won")
    else error_if (ltb task_brief_max_length (length reason)) (text "reason")
        (text "must be at most " ++ decimal task_brief_max_length ++ text " characters")

abbrev pub winning : ContestDecision → Task → Task
winning decision winner = record winner {
  won = some (record {
    reason = trim decision.reason;
    decided_by = decision.decided_by;
    decided_at = decision.at;
  });
  updated_at = decision.at;
}

abbrev pub crown : List ValidationError → ContestDecision → Option Task → Result Task
crown [] decision (some winner) = ok (winning decision winner)
crown errors decision winner = err errors

unfoldable pub record_contest_win : List Task → Text → ContestDecision → Result Task
record_contest_win entries winner_id decision =
    let winner = find? (λ (entry : Task). str_eq entry.id winner_id) entries in
    crown
      (already_errors (find? has_won entries)
        ++ (winner_errors winner_id winner ++ reason_errors (trim decision.reason)))
      decision winner
