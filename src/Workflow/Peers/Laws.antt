-- ===== src/Workflow/Peers/Laws.antt =====
-- The ranking of reviewers: who is on it, and in which order.
use virtual_office.Prelude.{
  ◌≡◌, refl, ap, subst, true, false, List, [], ◌∷◌, map, Text, str_lt, str_lt_asym, str_lt_negtrans,
  filter, ℕ, ◌≤◌, ◌↔◌, ◌≢◌, Option, none, some, length, includes, text_eq, str_eq_iff, All, All-map,
  All-filter_self, sort-All, sort-perm, IsSorted, sort-IsSorted, arith,
}
use mathlib.Core.List.{Perm}
use mathlib.Core.List.Perm
use virtual_office.Workflow.Types.{PeerCandidate, EmployeeStatus, active, paused, terminated}
use virtual_office.Workflow.Peers.{
  PeerSelection, Ranked, rank, is_eligible, is_active, is_same, ranks_before, rank_peers,
}

ranks_before-asym : (a b : Ranked) → ranks_before a b ≡ true → ranks_before b a ≡ false
unfolding ranks_before
ranks_before-asym a b h = ground (arith, str_lt_asym a.peer.id b.peer.id)

ranks_before-negtrans :
    (a b c : Ranked)
    → ranks_before a b ≡ false
    → ranks_before b c ≡ false
    → ranks_before a c ≡ false
unfolding ranks_before
ranks_before-negtrans a b c h k = ground (arith, str_lt_negtrans a.peer.id b.peer.id c.peer.id)

-- Everybody on the ranking is active and is not the assignee.
pub rank_peers-All_eligible :
    (peers : List PeerCandidate) (selection : PeerSelection)
    → All (λ p. is_eligible selection.assignee_id p ≡ true) (rank_peers peers selection)
unfolding rank_peers
rank_peers-All_eligible peers selection =
    All-map (λ p. is_eligible selection.assignee_id p ≡ true) (λ (r : Ranked). r.peer) _
      (sort-All ranks_before (λ r. is_eligible selection.assignee_id r.peer ≡ true) _
        (All-map (λ r. is_eligible selection.assignee_id r.peer ≡ true)
          (rank selection.review_skills) _
          (All-filter_self (is_eligible selection.assignee_id) peers)))

map-peer-rank :
    (skills : List Text) (ps : List PeerCandidate)
    → map (λ (r : Ranked). r.peer) (map (rank skills) ps) ≡ ps
map-peer-rank skills [] = refl
map-peer-rank skills (p ∷ ps) = ap (◌∷◌ p) (map-peer-rank skills ps)

-- How many of the wanted skills a candidate has.
abbrev pub wanted : List Text → PeerCandidate → ℕ
wanted skills p = length (filter (λ s. includes skills s) p.skill_ids)

-- The second may stand behind the first: it has no more of the wanted skills, with as many it has no
-- fewer open tasks, and with the same again its id is not lower.
pub record IsBehind (skills : List Text) (p q : PeerCandidate) : Type 0 where
  pub no_better : wanted skills q ≤ wanted skills p
  pub no_freer : wanted skills q ≡ wanted skills p → p.open_tasks ≤ q.open_tasks
  pub no_lower :
      wanted skills q ≡ wanted skills p → q.open_tasks ≡ p.open_tasks → str_lt q.id p.id ≡ false

-- Everybody on the list may stand behind everybody before it.
abbrev pub IsRanked : List Text → List PeerCandidate → Type 0
IsRanked skills [] = Unit
IsRanked skills (p ∷ ps) = All (IsBehind skills p) ps × IsRanked skills ps

-- Who is able to review: at work, and not the one whose work it is.
abbrev pub IsAble : Option Text → PeerCandidate → Type 0
IsAble assignee p = (p.status ≡ active) × (some p.id ≢ assignee)

pub is_active_iff : (s : EmployeeStatus) → (is_active s ≡ true) ↔ (s ≡ active)
is_active_iff active = (λ h. refl, λ h. refl)
is_active_iff paused = (λ h. cc, λ h. cc)
is_active_iff terminated = (λ h. cc, λ h. cc)

pub is_same-eq_false : (id : Text) (o : Option Text) → (is_same id o ≡ false) ↔ (some id ≢ o)
is_same-eq_false id none = (λ h e. cc, λ n. refl)
is_same-eq_false id (some j) =
    (λ h e. ground (arith, str_eq_iff id j), λ n. ground (arith, str_eq_iff id j))

pub is_eligible-IsAble :
    (assignee : Option Text) (p : PeerCandidate)
    → (is_eligible assignee p ≡ true) ↔ IsAble assignee p
is_eligible-IsAble assignee p = (
  λ h. (
    (is_active_iff p.status).0 (ground arith),
    (is_same-eq_false p.id assignee).0 (ground arith),
  ),
  λ (a, n). ground (arith, (is_active_iff p.status).1 a, (is_same-eq_false p.id assignee).1 n),
)

ranks_before-IsBehind :
    (skills : List Text) (p q : PeerCandidate)
    → ranks_before (rank skills q) (rank skills p) ≡ false
    → IsBehind skills p q
unfolding ranks_before
ranks_before-IsBehind skills p q h = record {
  no_better = ground arith;
  no_freer = λ e. ground arith;
  no_lower = λ e f. ground arith;
}

-- A ranked entry carries the overlap of its own candidate.
abbrev IsRankOf : List Text → Ranked → Type 0
IsRankOf skills r = r ≡ rank skills r.peer

IsRanked-map :
    (skills : List Text) (rs : List Ranked)
    → All (IsRankOf skills) rs
    → IsSorted ranks_before rs
    → IsRanked skills (map (λ (r : Ranked). r.peer) rs)
IsRanked-map skills [] own s = tt
IsRanked-map skills (r ∷ rs) own s = (behind rs own.1 s.0, IsRanked-map skills rs own.1 s.1)
  where
    behind :
        (qs : List Ranked)
        → All (IsRankOf skills) qs
        → All (λ q. ranks_before q r ≡ false) qs
        → All (IsBehind skills r.peer) (map (λ (q : Ranked). q.peer) qs)
    behind [] o h = tt
    behind (q ∷ qs) o h = (
      ranks_before-IsBehind skills r.peer q.peer (
          subst (λ a. ranks_before a (rank skills r.peer) ≡ false) o.0
            (subst (λ b. ranks_before q b ≡ false) own.0 h.0)),
      behind qs o.1 h.1,
    )

-- `rankPeers` is the eligible candidates rearranged, nobody lost or added: those who are active and are
-- not the assignee. Whoever stands later has no more of the wanted skills than one before, with as
-- many no fewer open tasks, and with the same again no lower id; so the one selected is beaten by
-- nobody.
pub rank_peers-IsRanked :
    (peers : List PeerCandidate) (selection : PeerSelection)
    → Perm (rank_peers peers selection) (filter (is_eligible selection.assignee_id) peers)
      × IsRanked selection.review_skills (rank_peers peers selection)
      × ((p : PeerCandidate)
          → (is_eligible selection.assignee_id p ≡ true) ↔ IsAble selection.assignee_id p)
unfolding rank_peers
rank_peers-IsRanked peers selection = (
  subst (Perm _) (map-peer-rank selection.review_skills _)
      (Perm.map (λ (r : Ranked). r.peer) (sort-perm ranks_before ranked)),
  IsRanked-map selection.review_skills _
      (sort-All ranks_before (IsRankOf selection.review_skills) ranked (own eligible))
      (sort-IsSorted ranks_before ranks_before-asym ranks_before-negtrans ranked),
  is_eligible-IsAble selection.assignee_id,
)
  where
    eligible : List PeerCandidate
    eligible = filter (is_eligible selection.assignee_id) peers

    ranked : List Ranked
    ranked = map (rank selection.review_skills) eligible

    own :
        (ps : List PeerCandidate)
        → All (IsRankOf selection.review_skills) (map (rank selection.review_skills) ps)
    own [] = tt
    own (p ∷ ps) = (refl, own ps)
