-- ===== src/Workflow/Outcomes/Committee.antt =====
-- The committee that a quorum names.
use virtual_office.Prelude.{
  ℕ, ◌≤◌, ◌≡◌, refl, ap, ◌∙◌, Bool, true, false, not, ◌&&◌, List, [], ◌∷◌, ◌++◌, none, Text, text,
  or_else, length, take, map, ltb, All, All-map, All-take, All-imp, length-map, length-take, arith,
}
use virtual_office.Core.Result.{ok, ◌>>=◌}
use virtual_office.Core.Policy.{ReviewPolicy, quorum}
use virtual_office.Task.Status.{TaskStatus, in_progress, in_review, can_transition}
use virtual_office.Task.Model.{Task}
use virtual_office.Task.Machine.{next_assignee, moved}
use virtual_office.Workflow.Types.{
  WorkflowContext, policy_event, submit, Submit, WorkflowOutcome, PeerCandidate, reviewer, notify,
}
use virtual_office.Workflow.Peers.{rank_peers, is_eligible, is_same, is_active}
use virtual_office.Workflow.Peers.Laws.{rank_peers-All_eligible}
use virtual_office.Workflow.Review.{ReviewerChoice, quoted, submit_for_review, staged_for}
use virtual_office.Workflow.Policy.Peer.{selection_for}
use virtual_office.Workflow.Policy.Quorum.{
  handle_quorum, form_committee, form_committee_of, required_approvals,
}
use virtual_office.Workflow.Outcomes.Moves.{options_of, apply_transition_ok}

-- Who may sit on it, best first.
abbrev pub candidates : Task → WorkflowContext → List PeerCandidate
candidates task context = rank_peers (or_else context.peers []) (selection_for task context)

pub record IsCommittee (required : ℕ) (task : Task) (context : WorkflowContext)
    (o : WorkflowOutcome) : Type 0 where
  pub waiting : o.task.status ≡ in_review
  pub chosen :
      o.task.reviewer_ids
      ≡ map (λ (p : PeerCandidate). p.id) (take required (candidates task context))
  pub sized : length o.task.reviewer_ids ≡ required
  pub others : All (λ id. is_same id task.assignee_id ≡ false) o.task.reviewer_ids
  pub afresh : o.task.approvals ≡ []

others_chosen :
    (required : ℕ) (task : Task) (context : WorkflowContext)
    → All
        (λ id. is_same id task.assignee_id ≡ false)
        (map (λ (p : PeerCandidate). p.id) (take required (candidates task context)))
others_chosen required task context =
    All-map (λ id. is_same id task.assignee_id ≡ false) (λ (p : PeerCandidate). p.id) _
      (All-imp (λ p. is_eligible task.assignee_id p ≡ true) _ (λ p. other p.id (is_active p.status))
        _
        (All-take (λ p. is_eligible task.assignee_id p ≡ true) required _
          (rank_peers-All_eligible (or_else context.peers []) (selection_for task context))))
  where
    other :
        (id : Text) (a : Bool)
        → (a && not (is_same id task.assignee_id)) ≡ true
        → is_same id task.assignee_id ≡ false
    other id a h = ground arith

sized_chosen :
    (required : ℕ) (ps : List PeerCandidate)
    → required ≤ length ps
    → length (map (λ (p : PeerCandidate). p.id) (take required ps)) ≡ required
sized_chosen required ps h =
    omega
      (arith, length-map (take required ps) (λ (p : PeerCandidate). p.id), length-take required ps)

submit_for_review_ok :
    (task : Task) (event : Submit) (context : WorkflowContext) (choice : ReviewerChoice)
    → task.status ≡ in_progress
    → submit_for_review task event context choice
      ≡ ok (record {
        task =
            moved
              (staged_for task choice.reviewer_ids (or_else event.artifacts []))
              in_review
              (options_of (policy_event (submit event)) context none)
              task.assignee_id;
        effects =
            notify choice.audience (text "review requested for task " ++ quoted task.title) ∷ [];
      })
unfolding submit_for_review
submit_for_review_ok task event context choice s =
    apply_transition_ok _ in_review (policy_event (submit event)) context _ none task.assignee_id
      (started task.status s) (unfold next_assignee in refl)
  where
    allowed : can_transition in_progress in_review ≡ true
    allowed = unfold can_transition in refl

    started : (from : TaskStatus) → from ≡ in_progress → can_transition from in_review ≡ true
    started from e = rw e allowed

enough_lem :
    (required : ℕ) (task : Task) (event : Submit) (context : WorkflowContext)
    (ps : List PeerCandidate)
    → required ≤ length ps
    → form_committee_of required task event context ps
      ≡ submit_for_review task event context (record {
        reviewer_ids = map (λ (p : PeerCandidate). p.id) (take required ps);
        audience = reviewer;
      })
unfolding form_committee_of
enough_lem required task event context ps h = rw not_short refl
  where
    not_short : ltb (length ps) required ≡ false
    not_short = ground arith

required_of :
    (required rounds : ℕ) (policy : ReviewPolicy)
    → policy ≡ quorum required rounds
    → required_approvals policy ≡ ok required
unfolding required_approvals
required_of required rounds policy e = rw e refl

-- Under a quorum, submitting work in progress when enough colleagues are eligible always puts it in
-- review, before exactly as many as the quorum requires: the best ranked, none of them the
-- assignee, with no approval counted yet.
pub quorum_submit-IsCommittee :
    (task : Task) (event : Submit) (context : WorkflowContext) (required rounds : ℕ)
    → task.status ≡ in_progress
    → context.policy ≡ quorum required rounds
    → required ≤ length (candidates task context)
    → (o : WorkflowOutcome) × (handle_quorum task (submit event) context ≡ ok o)
      × IsCommittee required task context o
unfolding handle_quorum form_committee
quorum_submit-IsCommittee task event context required rounds s p enough = (
  _,
  ap (λ r. r >>= (λ n. form_committee_of n task event context (candidates task context)))
        (required_of required rounds context.policy p)
      ∙ enough_lem required task event context (candidates task context) enough
      ∙ submit_for_review_ok task event context _ s,
  record {
    waiting = refl;
    chosen = refl;
    sized = sized_chosen required (candidates task context) enough;
    others = others_chosen required task context;
    afresh = refl;
  },
)
