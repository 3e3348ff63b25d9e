-- ===== src/Workflow/Peers.antt =====
-- packages/orchestrator/src/workflow/peer-policy.ts: who may review, best first.
pub mod Laws
use virtual_office.Prelude.{
  ℕ, Bool, true, false, ◌&&◌, ◌||◌, not, List, [], ◌∷◌, map, Option, none, some, Text, text_eq,
  str_eq, str_lt, ltb, nat_beq, length, filter, includes, sort, get_elem?, if◌then◌else◌,
}
use virtual_office.Workflow.Types.{PeerCandidate, EmployeeStatus, active, paused, terminated}

pub record PeerSelection : Type 0 where
  pub assignee_id : Option Text
  pub review_skills : List Text

abbrev pub is_active : EmployeeStatus → Bool
is_active active = true
is_active paused = false
is_active terminated = false

-- `id === other`, where the other may be null.
abbrev pub is_same : Text → Option Text → Bool
is_same id none = false
is_same id (some e) = str_eq id e

abbrev pub is_eligible : Option Text → PeerCandidate → Bool
is_eligible assignee_id peer = is_active peer.status && not (is_same peer.id assignee_id)

pub record Ranked : Type 0 where
  pub peer : PeerCandidate
  pub overlap : ℕ

abbrev pub rank : List Text → PeerCandidate → Ranked
rank required peer = record {
  peer = peer;
  overlap = length (filter (λ skill. includes required skill) peer.skill_ids);
}

-- The comparator is negative: more overlap, then fewer open tasks, then the lower id.
unfoldable pub ranks_before : Ranked → Ranked → Bool
ranks_before a b =
    if ltb b.overlap a.overlap
    then true
    else (if ltb a.overlap b.overlap
        then false
        else (if ltb a.peer.open_tasks b.peer.open_tasks
            then true
            else (if ltb b.peer.open_tasks a.peer.open_tasks
                then false
                else str_lt a.peer.id b.peer.id)))

unfoldable pub rank_peers : List PeerCandidate → PeerSelection → List PeerCandidate
rank_peers peers selection =
    map (λ (r : Ranked). r.peer)
      (sort ranks_before
        (map (rank selection.review_skills) (filter (is_eligible selection.assignee_id) peers)))

abbrev pub first_id : List PeerCandidate → Option Text
first_id [] = none
first_id (p ∷ ps) = some p.id

unfoldable pub select_peer_reviewer : List PeerCandidate → PeerSelection → Option Text
select_peer_reviewer peers selection = first_id (rank_peers peers selection)
