-- ===== src/Contests/Entries.antt =====
-- The entries of a new contest.
use virtual_office.Prelude.{
  ℕ, suc, ◌≡◌, refl, true, false, List, [], ◌∷◌, none, some, Text, text_eq, trim, or_else, any,
}
use virtual_office.Core.Result.{Ensures, Ensures-then, Ensures-imp}
use virtual_office.Task.Status.{assigned, status_beq}
use virtual_office.Task.Model.{Task, TaskDeps, CreateTaskInput}
use virtual_office.Task.Machine.History.{IsWellFormed}
use virtual_office.Task.Create.{create_task, new_task, create_errors}
use virtual_office.Task.Create.Laws.{unless_errors-Ensures, new_task-IsWellFormed}
use virtual_office.Contests.{
  running, entry_of, create_entries, create_contest, contest_standing, has_won, is_coming,
}

-- An entry of the contest, that asks what every other does.
pub record IsEntry (input : CreateTaskInput) (contest_id : Text) (entry : Task) : Type 0 where
  pub well_formed : IsWellFormed entry
  pub entered : entry.contest_id ≡ some contest_id
  pub undecided : entry.won ≡ none
  pub status : entry.status ≡ assigned
  pub title : entry.title ≡ trim input.title
  pub brief : entry.brief ≡ or_else input.brief []
  pub criteria : entry.acceptance_criteria ≡ or_else input.acceptance_criteria []

abbrev IsEntryFor : CreateTaskInput → Text → Text → Task → Type 0
IsEntryFor input contest_id member entry =
    IsEntry input contest_id entry × (entry.assignee_id ≡ some member)

create_task-IsEntryFor :
    (input : CreateTaskInput) (member contest_id : Text) (deps : TaskDeps)
    → Ensures
        (IsEntryFor input contest_id member)
        (create_task (entry_of input member contest_id) deps)
unfolding create_task new_task
create_task-IsEntryFor input member contest_id deps =
    unless_errors-Ensures _ (create_errors (entry_of input member contest_id) deps.id) _
      (new_task (entry_of input member contest_id) deps)
      λ none_found p e. (
        record {
          well_formed = new_task-IsWellFormed (entry_of input member contest_id) deps p;
          entered = refl;
          undecided = refl;
          status = refl;
          title = refl;
          brief = refl;
          criteria = refl;
        },
        refl,
      )

-- One entry for each member, in their order.
abbrev pub IsField : CreateTaskInput → Text → List Text → List Task → Type 0
IsField input contest_id [] [] = Unit
IsField input contest_id [] (e ∷ es) = ⊥
IsField input contest_id (m ∷ ms) [] = ⊥
IsField input contest_id (m ∷ ms) (e ∷ es) =
    IsEntryFor input contest_id m e × IsField input contest_id ms es

create_entries-IsField :
    (input : CreateTaskInput) (contest_id : Text) (deps : ℕ → TaskDeps) (n : ℕ)
    (members : List Text)
    → Ensures (IsField input contest_id members) (create_entries input contest_id deps n members)
unfolding create_entries
create_entries-IsField input contest_id deps n [] = tt
create_entries-IsField input contest_id deps n (m ∷ ms) =
    Ensures-then (IsEntryFor input contest_id m) _
      (create_task (entry_of input m contest_id) (deps n)) _
      (create_task-IsEntryFor input m contest_id (deps n))
      λ created is_entry.
        Ensures-then (IsField input contest_id ms) _
          (create_entries input contest_id deps (suc n) ms) _
          (create_entries-IsField input contest_id deps (suc n) ms)
          λ rest is_field. (is_entry, is_field)

none_won :
    (input : CreateTaskInput) (contest_id : Text) (ms : List Text) (es : List Task)
    → IsField input contest_id ms es
    → any es has_won ≡ false
unfolding has_won
none_won input contest_id [] [] f = refl
none_won input contest_id [] (e ∷ es) f = absurd f
none_won input contest_id (m ∷ ms) [] f = refl
none_won input contest_id (m ∷ ms) (e ∷ es) f =
    rw (f.0.0.undecided) (none_won input contest_id ms es f.1)

first_coming :
    (input : CreateTaskInput) (contest_id m : Text) (ms : List Text) (es : List Task)
    → IsField input contest_id (m ∷ ms) es
    → any es is_coming ≡ true
unfolding is_coming status_beq
first_coming input contest_id m ms [] f = absurd f
first_coming input contest_id m ms (e ∷ es) f = rw f.0.0.status refl

-- A contest that is created has one entry for each member, in their order: a well-formed task of
-- the contest that the member holds, and that asks what all the others do. It is running.
pub create_contest-IsField :
    (input : CreateTaskInput) (members : List Text) (contest_id : Text) (deps : ℕ → TaskDeps)
    → Ensures
        (λ entries. IsField input contest_id members entries × (contest_standing entries ≡ running))
        (create_contest input members contest_id deps)
unfolding create_contest contest_standing
create_contest-IsField input [] contest_id deps = tt
create_contest-IsField input (m ∷ ms) contest_id deps =
    Ensures-imp (IsField input contest_id (m ∷ ms)) _
      (create_entries input contest_id deps 0 (m ∷ ms))
      (λ es f. (
        f,
        rw (none_won input contest_id (m ∷ ms) es f, first_coming input contest_id m ms es f) refl,
      ))
      (create_entries-IsField input contest_id deps 0 (m ∷ ms))
