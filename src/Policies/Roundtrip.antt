-- ===== src/Policies/Roundtrip.antt =====
-- A policy as the plain object that it is, read back.
use virtual_office.Prelude.{
  ℕ, zero, suc, ◌+◌, ◌≤◌, ◌≡◌, refl, sym, ap, ◌∙◌, false, List, [], ◌∷◌, ◌++◌, map, append-nil,
  append_assoc, Option, none, some, Text, text, text_eq, str_eq, ltb, includes, includes-append,
  All, Distinct, arith,
}
use virtual_office.Core.Result.{ok, ◌>>=◌}
use virtual_office.Core.Gates.{GatedAction, gate_eq, gate_beq_iff, gate_text, gate_of-gate_text}
use virtual_office.Core.Unknown.{
  Value, Values, Fields, null, str, num, arr, obj, nil, cons, nat, end, field, get, or_value,
}
use virtual_office.Core.Policy.{
  ReviewStage, ReviewPolicy, direct, manager, peer, quorum, gate, automated, pipeline,
}
use virtual_office.Task.Validate.Laws.{Unseen, Unseen-cons, Unseen-nil}
use virtual_office.Policies.Stages.{
  positive_int, non_empty_id, read_ids, read_reviewers, read_worker, ceiling_of, ceiling_errors,
  stage_name_errors, stage_name, stage_errors, stage_ids, stage_worker, stage_required, with_stage,
  stages_from, parse_stages,
}
use virtual_office.Policies.Parse.{gates_from, parse_gates, parse_kind, parse_review_policy}
use virtual_office.Policies.Valid.{IsTidy, IsTidyIf, IsStage, IsPolicy}

abbrev strings : List Text → Values
strings [] = nil
strings (s ∷ ss) = cons (str s) (strings ss)

abbrev string_or_null : Option Text → Value
string_or_null none = null
string_or_null (some s) = str s

abbrev stage_fields : ReviewStage → Fields
stage_fields s = field (text "name") (str s.name) (
    field (text "workerId") (string_or_null s.worker_id) (
      field (text "reviewerIds") (arr (strings s.reviewer_ids))
        (field (text "required") (num (nat s.required)) end)))

abbrev stage_values : List ReviewStage → Values
stage_values [] = nil
stage_values (s ∷ ss) = cons (obj (stage_fields s)) (stage_values ss)

abbrev gate_values : List GatedAction → Values
gate_values [] = nil
gate_values (g ∷ gs) = cons (str (gate_text g)) (gate_values gs)

abbrev kind_object : Text → Fields → Value
kind_object kind fields = obj (field (text "kind") (str kind) fields)

abbrev rounds : ℕ → Fields
rounds m = field (text "maxIterations") (num (nat m)) end

-- The object of a policy.
abbrev pub object_of : ReviewPolicy → Value
object_of direct = kind_object (text "direct") end
object_of (manager m) = kind_object (text "manager") (rounds m)
object_of (peer m) = kind_object (text "peer") (rounds m)
object_of (quorum r m) =
    kind_object (text "quorum") (field (text "required") (num (nat r)) (rounds m))
object_of (gate gs) =
    kind_object (text "gate") (field (text "gatedActions") (arr (gate_values gs)) end)
object_of (automated c m) =
    kind_object (text "automated") (field (text "checkId") (str c) (rounds m))
object_of (pipeline ss m) =
    kind_object (text "pipeline") (field (text "stages") (arr (stage_values ss)) (rounds m))

positive_int-nat :
    (n : ℕ) (path : Text) (fb : Option ℕ)
    → 1 ≤ n
    → positive_int (num (nat n)) path fb ≡ (some n, [])
unfolding positive_int
positive_int-nat zero path fb h = absurd (clash h)
  where
    clash : 1 ≤ 0 → ⊥
    clash k = omega arith
positive_int-nat (suc n) path fb h = refl

non_empty_id-str : (s : Text) → IsTidy s → non_empty_id (str s) ≡ some s
unfolding non_empty_id
non_empty_id-str s t = rw (t.trimmed, t.nonempty) refl

read_ids-strings : (i : ℕ) (ids : List Text) → All IsTidy ids → read_ids i (strings ids) ≡ (ids, [])
unfolding read_ids
read_ids-strings i [] t = refl
read_ids-strings i (x ∷ xs) t = rw (non_empty_id-str x t.0, read_ids-strings i xs t.1) refl

read_worker-string :
    (i : ℕ) (o : Option Text)
    → IsTidyIf o
    → read_worker i (or_value (string_or_null o) null) ≡ (o, [])
unfolding read_worker or_value
read_worker-string i none t = refl
read_worker-string i (some s) t = rw (non_empty_id-str s t) refl

module _ (i : ℕ) (s : ReviewStage) (t : IsStage s) where
  stage_name-fields : stage_name (stage_fields s) ≡ s.name
  unfolding get str_eq text
  stage_name-fields = rw (non_empty_id-str s.name t.named) refl

  stage_ids-fields : stage_ids i (stage_fields s) ≡ (s.reviewer_ids, [])
  unfolding get str_eq text or_value read_reviewers
  stage_ids-fields = read_ids-strings i s.reviewer_ids t.reviewers

  stage_worker-fields : stage_worker i (stage_fields s) ≡ (s.worker_id, [])
  unfolding get str_eq text
  stage_worker-fields = read_worker-string i s.worker_id t.worker

  stage_required-fields : stage_required i (stage_fields s) ≡ (some s.required, [])
  unfolding get str_eq text
  stage_required-fields = positive_int-nat s.required _ (some 1) t.some_required

  stage_errors-IsStage :
      (seen : List Text)
      → includes seen s.name ≡ false
      → stage_errors i seen s.name (s.reviewer_ids, []) (s.worker_id, []) (some s.required, []) ≡ []
  unfolding stage_name_errors ceiling_errors
  stage_errors-IsStage seen new =
      let enough : ltb (ceiling_of s.reviewer_ids) s.required ≡ false = ground (arith, t.enough) in
      rw (t.named.nonempty, new, t.once, t.not_own, enough) refl

  -- A stage is read back, with nothing found wrong.
  with_stage-fields :
      (seen : List Text) (rest : List ReviewStage)
      → includes seen s.name ≡ false
      → with_stage i seen (stage_fields s) (rest, []) ≡ (s ∷ rest, [])
  with_stage-fields seen rest new =
      rw (stage_name-fields, stage_ids-fields, stage_worker-fields, stage_required-fields)
        (rw (stage_errors-IsStage seen new) refl)

abbrev names : List ReviewStage → List Text
names = map (λ (s : ReviewStage). s.name)

stages_from-values :
    (i : ℕ) (seen : List Text) (ss : List ReviewStage)
    → All IsStage ss
    → Distinct (names ss)
    → Unseen seen (names ss)
    → stages_from i seen (stage_values ss) ≡ (ss, [])
unfolding stages_from
stages_from-values i seen [] a d u = refl
stages_from-values i seen (s ∷ ss) a d u =
    ap (λ n. with_stage i seen (stage_fields s) (stages_from (i + 1) (n ∷ seen) (stage_values ss)))
      (stage_name-fields i s a.0)
    ∙ ap (with_stage i seen (stage_fields s)) (
        stages_from-values (i + 1) (s.name ∷ seen) ss a.1 d.1
          (Unseen-cons s.name seen (names ss) d.0 u.1))
    ∙ with_stage-fields i s a.0 seen ss u.0

none_before : (gs : List GatedAction) → All (λ g. includes {A = GatedAction} [] g ≡ false) gs
none_before [] = tt
none_before (g ∷ gs) = (refl, none_before gs)

gates_from-values :
    (gates gs : List GatedAction)
    → Distinct gs
    → All (λ g. includes gates g ≡ false) gs
    → gates_from (gate_values gs) gates ≡ ok (gates ++ gs)
unfolding gates_from
gates_from-values gates [] d a = ap ok (sym (append-nil gates))
gates_from-values gates (g ∷ gs) d a =
    rw (gate_of-gate_text g, a.0)
      (gates_from-values (gates ++ g ∷ []) gs d.1 (apart gates g gs d.0 a.1)
        ∙ ap ok (append_assoc gates (g ∷ []) gs))
  where
    apart :
        (gates : List GatedAction) (g : GatedAction) (gs : List GatedAction)
        → includes gs g ≡ false
        → All (λ x. includes gates x ≡ false) gs
        → All (λ x. includes (gates ++ g ∷ []) x ≡ false) gs
    apart gates g [] n a = tt
    apart gates g (x ∷ xs) n a = (
      ground (arith, includes-append gates (g ∷ []) x, a.0, gate_beq_iff x g, gate_beq_iff g x),
      apart gates g xs (ground arith) a.1,
    )

-- A policy that is one is accepted as the object that it is, and read as itself.
pub parse_review_policy-object_of :
    (policy : ReviewPolicy) → IsPolicy policy → parse_review_policy (object_of policy) ≡ ok policy
unfolding parse_review_policy parse_kind parse_gates parse_stages get str_eq text
parse_review_policy-object_of direct h = refl
parse_review_policy-object_of (manager m) h = rw (positive_int-nat m _ _ h) refl
parse_review_policy-object_of (peer m) h = rw (positive_int-nat m _ _ h) refl
parse_review_policy-object_of (quorum r m) h =
    rw (positive_int-nat m _ _ h.1, positive_int-nat r _ _ h.0) refl
parse_review_policy-object_of (gate []) h = cc
parse_review_policy-object_of (gate (g ∷ gs)) h =
    ap (λ r. r >>= (λ gates. ok (gate gates)))
      (gates_from-values [] (g ∷ gs) h.1 (none_before (g ∷ gs)))
parse_review_policy-object_of (automated c m) h =
    rw (positive_int-nat m _ _ h.1, non_empty_id-str c h.0) refl
parse_review_policy-object_of (pipeline [] m) h = cc
parse_review_policy-object_of (pipeline (s ∷ ss) m) h =
    rw
      (
        stages_from-values 0 [] (s ∷ ss) h.2 h.1 (Unseen-nil (names (s ∷ ss))),
        positive_int-nat m _ _ h.3,
      )
      refl
