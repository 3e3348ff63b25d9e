-- ===== src/Workflow/Outcomes/Quorum.antt =====
-- A committee's approvals.
use virtual_office.Prelude.{
  ℕ, ◌≤◌, ◌≡◌, refl, sym, subst, true, List, [], Text, text_eq, length, Distinct, Within, leb,
  leb→le, Bool-cases, inl, inr, ◌⊎◌,
}
use virtual_office.Core.Result.{◌>>=◌, Ensures, Ensures-then, Ensures-if, Ensures-any}
use virtual_office.Core.Policy.{quorum}
use virtual_office.Task.Status.{in_review, status_beq, status_beq_iff}
use virtual_office.Task.Model.{Task}
use virtual_office.Task.Machine.History.{IsWellFormed}
use virtual_office.Workflow.Types.{WorkflowContext, policy_event, approve, Approve, WorkflowOutcome}
use virtual_office.Workflow.Review.{
  ApprovalTally, gathering, reached, tally, tally_approval, may_review, add_approval,
  approve_review,
}
use virtual_office.Workflow.Policy.Quorum.{
  handle_quorum, gather_approval, required_approvals, on_tally,
}
use virtual_office.Workflow.Soundness.Reviews.{add_approval-Distinct, add_approval-Within}

-- So many distinct people who may review the task have approved, the last of them now.
pub record IsCarried (task : Task) (required : ℕ) (approvers : List Text) : Type 0 where
  pub enough : required ≤ length approvers
  pub distinct : Distinct approvers
  pub theirs : (task.reviewer_ids ≡ []) ⊎ Within approvers task.reviewer_ids

-- A tally that is reached counted enough approvals; one that is not leaves the work in review.
abbrev IsCounted : Task → ℕ → Text → ApprovalTally → Type 0
IsCounted task required actor (gathering t n) = t.status ≡ in_review
IsCounted task required actor (reached t) =
    IsCarried task required (add_approval actor task.approvals)

tally_approval-IsCounted :
    (task : Task) (event : Approve) (required : ℕ)
    → IsWellFormed task
    → Ensures (IsCounted task required event.actor_id) (tally_approval task event required)
unfolding tally_approval may_review
tally_approval-IsCounted task event required w =
    Ensures-if P (status_beq task.status in_review) _ _
      (λ e. Ensures-if P (may_review task (policy_event (approve event))) _ _ (counted e) (λ r. tt))
      (λ e. tt)
  where
    P : ApprovalTally → Type 0
    P = IsCounted task required event.actor_id

    approvers : List Text
    approvers = add_approval event.actor_id task.approvals

    counted :
        status_beq task.status in_review ≡ true
        → may_review task (policy_event (approve event)) ≡ true
        → P (tally (record task { approvals = approvers }) required)
    counted e r = elim (Bool-cases (leb required (length approvers))) [
      | inl full ↦ rw full (record {
        enough = leb→le required (length approvers) full;
        distinct =
            add_approval-Distinct event.actor_id task.approvals w.recorded.approvals_distinct;
        theirs =
            add_approval-Within event.actor_id task.approvals task.reviewer_ids r
              w.recorded.approvals_within;
      })
      | inr short ↦ rw short ((status_beq_iff task.status in_review).0 e)
    ]

-- Under a quorum of `required`, an approval takes well-formed work out of review only when that
-- many distinct people, reviewers of the task where it names any, have approved, one who approves twice
-- being counted once.
pub quorum_needs_approvals :
    (task : Task) (event : Approve) (context : WorkflowContext) (required rounds : ℕ)
    → IsWellFormed task
    → context.policy ≡ quorum required rounds
    → Ensures
        (λ o.
          (o.task.status ≡ in_review)
          ⊎ IsCarried task required (add_approval event.actor_id task.approvals))
        (handle_quorum task (approve event) context)
unfolding handle_quorum gather_approval required_approvals
quorum_needs_approvals task event context required rounds w p =
    Ensures-then (λ r. r ≡ required) Q _ _ (rw (p, required_approvals) refl)
      λ r e.
        subst (λ n. Ensures Q (tally_approval task event n >>= (λ t. on_tally n event context t)))
          (sym e)
          (Ensures-then (IsCounted task required event.actor_id) Q _ _
            (tally_approval-IsCounted task event required w) after)
  where
    Q : WorkflowOutcome → Type 0
    Q o =
        (o.task.status ≡ in_review)
        ⊎ IsCarried task required (add_approval event.actor_id task.approvals)

    after :
        (t : ApprovalTally)
        → IsCounted task required event.actor_id t
        → Ensures Q (on_tally required event context t)
    after (gathering t n) h = inl h
    after (reached t) h =
        Ensures-any Q (approve_review t (policy_event (approve event)) context) (λ o. inr h)
