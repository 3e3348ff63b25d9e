-- ===== src/Policies/Valid.antt =====
-- What a declared policy has to be.
use virtual_office.Prelude.{
  ℕ, zero, suc, ◌≤◌, ◌≡◌, refl, false, List, [], ◌∷◌, map, Option, none, some, Text, text, text_eq,
  trim, trim-trim, is_empty, includes, or_else, All, Distinct, append-eq-nil, arith,
}
use virtual_office.Core.Result.{error_if-nil, either-nil}
use virtual_office.Core.Gates.{gate_eq}
use virtual_office.Core.Unknown.{
  Value, Values, Fields, undefined, null, bool, str, num, arr, obj, nil, cons, nat, other, get,
}
use virtual_office.Core.Policy.{
  ReviewStage, ReviewPolicy, direct, manager, peer, quorum, gate, automated, pipeline,
}
use virtual_office.Policies.Stages.{
  IdsRead, positive_int, non_empty_id, unless_blank, and_id, read_ids, read_reviewers, worker_or,
  read_worker, has_twice, works_here, ceiling_of, ceiling_errors, stage_name_errors, stage_errors,
  stage_of, stage_name, stage_ids, stage_worker, stage_required,
}

-- A name without white space at its ends.
pub record IsTidy (s : Text) : Type 0 where
  pub nonempty : is_empty s ≡ false
  pub trimmed : trim s ≡ s

abbrev pub IsTidyIf : Option Text → Type 0
IsTidyIf none = Unit
IsTidyIf (some s) = IsTidy s

pub record IsStage (stage : ReviewStage) : Type 0 where
  pub named : IsTidy stage.name
  pub worker : IsTidyIf stage.worker_id
  pub reviewers : All IsTidy stage.reviewer_ids
  pub once : has_twice stage.reviewer_ids ≡ false
  pub not_own : works_here stage.worker_id stage.reviewer_ids ≡ false
  pub some_required : 1 ≤ stage.required
  pub enough : stage.required ≤ ceiling_of stage.reviewer_ids

abbrev pub IsPolicy : ReviewPolicy → Type 0
IsPolicy direct = Unit
IsPolicy (manager m) = 1 ≤ m
IsPolicy (peer m) = 1 ≤ m
IsPolicy (quorum r m) = (1 ≤ r) × (1 ≤ m)
IsPolicy (gate gs) = (is_empty gs ≡ false) × Distinct gs
IsPolicy (automated c m) = IsTidy c × (1 ≤ m)
IsPolicy (pipeline ss m) =
    (is_empty ss ≡ false)
    × Distinct (map (λ (s : ReviewStage). s.name) ss)
    × All IsStage ss
    × (1 ≤ m)

-- A number that was read without errors.
abbrev pub IsRead : Option ℕ → Type 0
IsRead none = ⊥
IsRead (some n) = 1 ≤ n

abbrev pub IsFallback : Option ℕ → Type 0
IsFallback none = Unit
IsFallback (some n) = 1 ≤ n

pub positive_int-IsRead :
    (v : Value) (path : Text) (fallback : Option ℕ)
    → IsFallback fallback
    → (positive_int v path fallback).1 ≡ []
    → IsRead (positive_int v path fallback).0
unfolding positive_int
positive_int-IsRead undefined path none f h = cc
positive_int-IsRead undefined path (some n) f h = f
positive_int-IsRead (num (nat zero)) path fb f h = cc
positive_int-IsRead (num (nat (suc n))) path fb f h = omega arith
positive_int-IsRead (num other) path fb f h = cc
positive_int-IsRead null path fb f h = cc
positive_int-IsRead (bool b) path fb f h = cc
positive_int-IsRead (str s) path fb f h = cc
positive_int-IsRead (arr vs) path fb f h = cc
positive_int-IsRead (obj fs) path fb f h = cc

blank-IsTidyIf : (s : Text) → trim s ≡ s → IsTidyIf (unless_blank s)
blank-IsTidyIf [] t = tt
blank-IsTidyIf (c ∷ s) t = record { nonempty = refl; trimmed = t }

pub non_empty_id-IsTidyIf : (v : Value) → IsTidyIf (non_empty_id v)
unfolding non_empty_id
non_empty_id-IsTidyIf undefined = tt
non_empty_id-IsTidyIf null = tt
non_empty_id-IsTidyIf (bool b) = tt
non_empty_id-IsTidyIf (str s) = blank-IsTidyIf (trim s) (trim-trim s)
non_empty_id-IsTidyIf (num n) = tt
non_empty_id-IsTidyIf (arr vs) = tt
non_empty_id-IsTidyIf (obj fs) = tt

and_id-All :
    (o : Option Text) (i : ℕ) (rest : IdsRead)
    → IsTidyIf o
    → All IsTidy rest.0
    → All IsTidy (and_id o i rest).0
and_id-All none i rest t h = tt
and_id-All (some id) i rest t h = (t, h)

read_ids-All : (i : ℕ) (vs : Values) → All IsTidy (read_ids i vs).0
unfolding read_ids
read_ids-All i nil = tt
read_ids-All i (cons v vs) =
    and_id-All (non_empty_id v) i (read_ids i vs) (non_empty_id-IsTidyIf v) (read_ids-All i vs)

read_reviewers-All : (i : ℕ) (v : Value) → All IsTidy (read_reviewers i v).0
unfolding read_reviewers
read_reviewers-All i undefined = tt
read_reviewers-All i null = tt
read_reviewers-All i (bool b) = tt
read_reviewers-All i (str s) = tt
read_reviewers-All i (num n) = tt
read_reviewers-All i (arr vs) = read_ids-All i vs
read_reviewers-All i (obj fs) = tt

worker_or-IsTidyIf : (i : ℕ) (o : Option Text) → IsTidyIf o → IsTidyIf (worker_or i o).0
worker_or-IsTidyIf i none t = tt
worker_or-IsTidyIf i (some id) t = t

read_worker-IsTidyIf : (i : ℕ) (v : Value) → IsTidyIf (read_worker i v).0
unfolding read_worker
read_worker-IsTidyIf i null = tt
read_worker-IsTidyIf i undefined = worker_or-IsTidyIf i _ (non_empty_id-IsTidyIf undefined)
read_worker-IsTidyIf i (bool b) = worker_or-IsTidyIf i _ (non_empty_id-IsTidyIf (bool b))
read_worker-IsTidyIf i (str s) = worker_or-IsTidyIf i _ (non_empty_id-IsTidyIf (str s))
read_worker-IsTidyIf i (num n) = worker_or-IsTidyIf i _ (non_empty_id-IsTidyIf (num n))
read_worker-IsTidyIf i (arr vs) = worker_or-IsTidyIf i _ (non_empty_id-IsTidyIf (arr vs))
read_worker-IsTidyIf i (obj fs) = worker_or-IsTidyIf i _ (non_empty_id-IsTidyIf (obj fs))

tidy_or_empty :
    (o : Option Text) → IsTidyIf o → is_empty (or_else o []) ≡ false → IsTidy (or_else o [])
tidy_or_empty none t h = cc
tidy_or_empty (some s) t h = t

enough_of :
    (i : ℕ) (ids : List Text) (o : Option ℕ)
    → IsRead o
    → ceiling_errors i ids o ≡ []
    → (1 ≤ or_else o 0) × (or_else o 0 ≤ ceiling_of ids)
unfolding ceiling_errors
enough_of i ids none r h = absurd r
enough_of i ids (some n) r h = (r, ground (arith, error_if-nil _ _ _ h))

one_le : 1 ≤ 1
one_le = omega arith

-- One stage, of which nothing was found wrong.
pub stage_of-IsStage :
    (i : ℕ) (seen : List Text) (raw : Fields)
    → stage_errors i seen
        (stage_name raw)
        (stage_ids i raw)
        (stage_worker i raw)
        (stage_required i raw)
      ≡ []
    → IsStage
        (stage_of (stage_name raw) (stage_ids i raw) (stage_worker i raw) (stage_required i raw))
      × (includes seen (stage_name raw) ≡ false)
unfolding stage_name_errors
stage_of-IsStage i seen raw h =
    let (name, r1) = append-eq-nil _ _ h in
    let (_, r2) = append-eq-nil _ _ r1 in
    let (_, r3) = append-eq-nil _ _ r2 in
    let (twice, r4) = append-eq-nil _ _ r3 in
    let (own, r5) = append-eq-nil _ _ r4 in
    let (required, ceiling) = append-eq-nil _ _ r5 in
    let (given, fresh) = either-nil _ _ _ _ _ _ name in
    let (positive, bounded) =
      enough_of i (stage_ids i raw).0 (stage_required i raw).0
        (positive_int-IsRead _ _ (some 1) one_le required) ceiling in
    (
      record {
        named =
            tidy_or_empty (non_empty_id (get raw (text "name"))) (non_empty_id-IsTidyIf _) given;
        worker = read_worker-IsTidyIf i _;
        reviewers = read_reviewers-All i _;
        once = error_if-nil _ _ _ twice;
        not_own = error_if-nil _ _ _ own;
        some_required = positive;
        enough = bounded;
      },
      fresh,
    )
