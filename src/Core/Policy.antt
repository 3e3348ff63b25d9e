-- ===== src/Core/Policy.antt =====
-- packages/core/src/department/review-policy.ts: how finished work in a department is approved.
use virtual_office.Prelude.{ℕ, List, Option, none, some, Text, text, text_eq}
use virtual_office.Core.Gates.{GatedAction, gate_eq}

pub record ReviewStage : Type 0 where
  pub name : Text
  pub worker_id : Option Text
  pub reviewer_ids : List Text
  pub required : ℕ

pub data ReviewPolicy : Type 0 where
  direct : ReviewPolicy
  manager peer : ℕ → ReviewPolicy
  quorum : ℕ → ℕ → ReviewPolicy
  gate : List GatedAction → ReviewPolicy
  automated : Text → ℕ → ReviewPolicy
  pipeline : List ReviewStage → ℕ → ReviewPolicy

-- `policy.kind`
unfoldable pub policy_kind : ReviewPolicy → Text
policy_kind direct = text "direct"
policy_kind (manager m) = text "manager"
policy_kind (peer m) = text "peer"
policy_kind (quorum r m) = text "quorum"
policy_kind (gate gs) = text "gate"
policy_kind (automated c m) = text "automated"
policy_kind (pipeline ss m) = text "pipeline"

-- `"maxIterations" in policy ? policy.maxIterations : undefined`
abbrev pub max_iterations : ReviewPolicy → Option ℕ
max_iterations direct = none
max_iterations (manager m) = some m
max_iterations (peer m) = some m
max_iterations (quorum r m) = some m
max_iterations (gate gs) = none
max_iterations (automated c m) = some m
max_iterations (pipeline ss m) = some m
