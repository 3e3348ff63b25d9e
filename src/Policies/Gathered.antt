-- ===== src/Policies/Gathered.antt =====
-- The stages and the gates that `parseReviewPolicy` gathers.
use virtual_office.Prelude.{
  ℕ, ◌+◌, ◌≡◌, refl, false, List, [], ◌∷◌, ◌++◌, map, Option, none, some, Text, text_eq, is_empty,
  includes, includes-append, All, Distinct, append-eq-nil, arith,
}
use virtual_office.Core.Result.{Result, Ensures, Ensures-if, Ensures-imp}
use virtual_office.Core.Gates.{GatedAction, gate_eq, gate_beq_iff}
use virtual_office.Core.Unknown.{
  Value, Values, undefined, null, bool, str, num, arr, obj, nil, cons,
}
use virtual_office.Core.Policy.{ReviewStage}
use virtual_office.Task.Validate.Laws.{Unseen, Unseen-uncons}
use virtual_office.Policies.Stages.{
  stage_name, stage_errors, stage_ids, stage_worker, stage_required, stages_from, parse_stages,
}
use virtual_office.Policies.Parse.{add_gate, gate_named, gates_from, parse_gates}
use virtual_office.Policies.Valid.{IsStage, stage_of-IsStage}

abbrev pub names : List ReviewStage → List Text
names = map (λ (s : ReviewStage). s.name)

stages_from-All :
    (i : ℕ) (seen : List Text) (vs : Values)
    → (stages_from i seen vs).1 ≡ []
    → All IsStage (stages_from i seen vs).0
      × Distinct (names (stages_from i seen vs).0)
      × Unseen seen (names (stages_from i seen vs).0)
unfolding stages_from
stages_from-All i seen nil h = (tt, tt, tt)
stages_from-All i seen (cons (obj raw) vs) h =
    let (here, later) =
      append-eq-nil
        (stage_errors i seen (stage_name raw) (stage_ids i raw) (stage_worker i raw)
          (stage_required i raw))
        _ h in
    let (is_stage, fresh) = stage_of-IsStage i seen raw here in
    let (all, distinct, unseen) = stages_from-All (i + 1) (stage_name raw ∷ seen) vs later in
    let (new, rest) = Unseen-uncons (stage_name raw) seen _ unseen in
    ((is_stage, all), (new, distinct), (fresh, rest))
stages_from-All i seen (cons undefined vs) h = cc
stages_from-All i seen (cons null vs) h = cc
stages_from-All i seen (cons (bool b) vs) h = cc
stages_from-All i seen (cons (str s) vs) h = cc
stages_from-All i seen (cons (num n) vs) h = cc
stages_from-All i seen (cons (arr xs) vs) h = cc

stages_from-nonempty :
    (v : Value) (vs : Values)
    → (stages_from 0 [] (cons v vs)).1 ≡ []
    → is_empty (stages_from 0 [] (cons v vs)).0 ≡ false
unfolding stages_from
stages_from-nonempty (obj raw) vs h = refl
stages_from-nonempty undefined vs h = cc
stages_from-nonempty null vs h = cc
stages_from-nonempty (bool b) vs h = cc
stages_from-nonempty (str s) vs h = cc
stages_from-nonempty (num n) vs h = cc
stages_from-nonempty (arr xs) vs h = cc

abbrev pub AreStages : List ReviewStage → Type 0
AreStages ss = (is_empty ss ≡ false) × Distinct (names ss) × All IsStage ss

pub parse_stages-AreStages : (v : Value) → (parse_stages v).1 ≡ [] → AreStages (parse_stages v).0
unfolding parse_stages
parse_stages-AreStages (arr (cons v vs)) h =
    let (all, distinct, _) = stages_from-All 0 [] (cons v vs) h in
    (stages_from-nonempty v vs h, distinct, all)
parse_stages-AreStages (arr nil) h = cc
parse_stages-AreStages undefined h = cc
parse_stages-AreStages null h = cc
parse_stages-AreStages (bool b) h = cc
parse_stages-AreStages (str s) h = cc
parse_stages-AreStages (num n) h = cc
parse_stages-AreStages (obj fs) h = cc

Distinct-snoc :
    (gs : List GatedAction) (g : GatedAction)
    → Distinct gs
    → includes gs g ≡ false
    → Distinct (gs ++ g ∷ [])
Distinct-snoc [] g d n = (refl, tt)
Distinct-snoc (x ∷ gs) g d n = ground (
  arith,
  d.0,
  n,
  includes-append gs (g ∷ []) x,
  gate_beq_iff x g,
  gate_beq_iff g x,
  Distinct-snoc gs g d.1,
)

add_gate-Ensures :
    (P : List GatedAction → Type 0) (o : Option GatedAction) (gates : List GatedAction)
    (rest : List GatedAction → Result (List GatedAction))
    → Distinct gates
    → ((g : GatedAction) → Distinct (gates ++ g ∷ []) → Ensures P (rest (gates ++ g ∷ [])))
    → Ensures P (add_gate o gates rest)
add_gate-Ensures P none gates rest d h = tt
add_gate-Ensures P (some g) gates rest d h =
    Ensures-if P (includes gates g) _ (rest (gates ++ g ∷ [])) (λ seen. tt)
      (λ new. h g (Distinct-snoc gates g d new))

abbrev AreGates : List GatedAction → List GatedAction → Type 0
AreGates before gs = Distinct gs × (is_empty before ≡ false → is_empty gs ≡ false)

snoc_nonempty : (gs : List GatedAction) (g : GatedAction) → is_empty (gs ++ g ∷ []) ≡ false
snoc_nonempty [] g = refl
snoc_nonempty (x ∷ gs) g = refl

gates_from-Ensures :
    (vs : Values) (gates : List GatedAction)
    → Distinct gates
    → Ensures (AreGates gates) (gates_from vs gates)
unfolding gates_from
gates_from-Ensures nil gates d = (d, λ h. h)
gates_from-Ensures (cons v vs) gates d =
    add_gate-Ensures (AreGates gates) (gate_named v) gates (gates_from vs) d λ g d'.
      Ensures-imp (AreGates (gates ++ g ∷ [])) (AreGates gates) (gates_from vs (gates ++ g ∷ []))
        (λ gs k. (k.0, λ h. k.1 (snoc_nonempty gates g)))
        (gates_from-Ensures vs (gates ++ g ∷ []) d')

pub parse_gates-Ensures :
    (v : Value) → Ensures (λ gs. (is_empty gs ≡ false) × Distinct gs) (parse_gates v)
unfolding parse_gates gates_from
parse_gates-Ensures (arr (cons v vs)) =
    add_gate-Ensures _ (gate_named v) [] (gates_from vs) tt λ g d.
      Ensures-imp (AreGates (g ∷ [])) _ (gates_from vs (g ∷ [])) (λ gs k. (k.1 refl, k.0))
        (gates_from-Ensures vs (g ∷ []) d)
parse_gates-Ensures (arr nil) = tt
parse_gates-Ensures undefined = tt
parse_gates-Ensures null = tt
parse_gates-Ensures (bool b) = tt
parse_gates-Ensures (str s) = tt
parse_gates-Ensures (num n) = tt
parse_gates-Ensures (obj fs) = tt
