-- ===== src/Task/Status.antt =====
-- packages/core/src/task/task.ts: the statuses of a task and the moves between them.
use virtual_office.Prelude.{
  ℕ, zero, suc, ◌≡◌, refl, List, [], ◌∷◌, Option, some, Bool, true, ◌↔◌, Eq, beq_iff_of_code,
  nat_beq, Text, text, includes,
}

pub data TaskStatus : Type 0 where
  backlog assigned in_progress in_review changes_requested approved done : TaskStatus
  blocked escalated transferred cancelled : TaskStatus

abbrev code : TaskStatus → ℕ
code backlog = 0
code assigned = 1
code in_progress = 2
code in_review = 3
code changes_requested = 4
code approved = 5
code done = 6
code blocked = 7
code escalated = 8
code transferred = 9
code cancelled = 10

abbrev decode_high : ℕ → Option TaskStatus
decode_high zero = some done
decode_high (suc zero) = some blocked
decode_high (suc (suc zero)) = some escalated
decode_high (suc (suc (suc zero))) = some transferred
decode_high (suc (suc (suc (suc n)))) = some cancelled

abbrev decode : ℕ → Option TaskStatus
decode zero = some backlog
decode (suc zero) = some assigned
decode (suc (suc zero)) = some in_progress
decode (suc (suc (suc zero))) = some in_review
decode (suc (suc (suc (suc zero)))) = some changes_requested
decode (suc (suc (suc (suc (suc zero))))) = some approved
decode (suc (suc (suc (suc (suc (suc n)))))) = decode_high n

decode-code : (s : TaskStatus) → decode (code s) ≡ some s
decode-code backlog = refl
decode-code assigned = refl
decode-code in_progress = refl
decode-code in_review = refl
decode-code changes_requested = refl
decode-code approved = refl
decode-code done = refl
decode-code blocked = refl
decode-code escalated = refl
decode-code transferred = refl
decode-code cancelled = refl

unfoldable pub status_beq : TaskStatus → TaskStatus → Bool
status_beq a b = nat_beq (code a) (code b)

pub status_beq_iff : (a b : TaskStatus) → (status_beq a b ≡ true) ↔ (a ≡ b)
unfolding status_beq
status_beq_iff = beq_iff_of_code code decode decode-code

instance abbrev pub status_eq : Eq TaskStatus
status_eq = record { beq = status_beq; beq_iff = status_beq_iff }

unfoldable pub status_text : TaskStatus → Text
status_text backlog = text "backlog"
status_text assigned = text "assigned"
status_text in_progress = text "in_progress"
status_text in_review = text "in_review"
status_text changes_requested = text "changes_requested"
status_text approved = text "approved"
status_text done = text "done"
status_text blocked = text "blocked"
status_text escalated = text "escalated"
status_text transferred = text "transferred"
status_text cancelled = text "cancelled"

unfoldable pub task_transitions : TaskStatus → List TaskStatus
task_transitions backlog = assigned ∷ cancelled ∷ []
task_transitions assigned = in_progress ∷ backlog ∷ blocked ∷ transferred ∷ cancelled ∷ []
task_transitions in_progress = in_review ∷ done ∷ blocked ∷ escalated ∷ transferred ∷ cancelled ∷ []
task_transitions in_review = approved ∷ changes_requested ∷ escalated ∷ cancelled ∷ []
task_transitions changes_requested = in_progress ∷ escalated ∷ transferred ∷ cancelled ∷ []
task_transitions approved = done ∷ assigned ∷ in_review ∷ []
task_transitions blocked = assigned ∷ in_progress ∷ escalated ∷ transferred ∷ cancelled ∷ []
task_transitions escalated = assigned ∷ in_progress ∷ transferred ∷ cancelled ∷ []
task_transitions transferred = assigned ∷ cancelled ∷ []
task_transitions done = []
task_transitions cancelled = []

abbrev pub terminal_task_statuses : List TaskStatus
terminal_task_statuses = done ∷ cancelled ∷ []

unfoldable pub is_terminal : TaskStatus → Bool
unfolding status_beq
is_terminal s = includes terminal_task_statuses s

unfoldable pub can_transition : TaskStatus → TaskStatus → Bool
unfolding task_transitions status_beq
can_transition from to = includes (task_transitions from) to
