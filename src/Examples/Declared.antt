-- ===== src/Examples/Declared.antt =====
-- Tests and applied theorems on packages/core/src/department/review-policy.ts.
use virtual_office.Prelude.{
  ℕ, ◌≡◌, refl, false, [], ◌∷◌, none, some, text, text_eq, str_eq, trim, arith,
}
use virtual_office.Core.Result.{ok, is_ok, Ensures}
use virtual_office.Core.Unknown.{Value, str, num, obj, nat, end, field, get}
use virtual_office.Core.Policy.{ReviewStage, ReviewPolicy, pipeline}
use virtual_office.Policies.Parse.{parse_review_policy, parse_kind}
use virtual_office.Policies.Stages.{positive_int, has_twice}
use virtual_office.Policies.Valid.{IsPolicy, IsTidy}
use virtual_office.Policies.Accepted.{parse_review_policy-IsPolicy}
use virtual_office.Policies.Roundtrip.{object_of, parse_review_policy-object_of}
use virtual_office.Examples.Office.{ann, bob, cy}

abbrev draft : ReviewStage
draft = record { name = 100 ∷ []; worker_id = some ann; reviewer_ids = bob ∷ cy ∷ []; required = 2 }

abbrev print : ReviewStage
print = record { name = 112 ∷ []; worker_id = none; reviewer_ids = []; required = 1 }

abbrev two_stages : ReviewPolicy
two_stages = pipeline (draft ∷ print ∷ []) 3

letter-IsTidy : (c : ℕ) → trim (c ∷ []) ≡ c ∷ [] → IsTidy (c ∷ [])
letter-IsTidy c t = record { nonempty = refl; trimmed = t }

two_stages-IsPolicy : IsPolicy two_stages
unfolding trim has_twice str_eq
two_stages-IsPolicy = (
  refl,
  (refl, (refl, tt)),
  (
    record {
      named = letter-IsTidy 100 refl;
      worker = letter-IsTidy 97 refl;
      reviewers = (letter-IsTidy 98 refl, (letter-IsTidy 99 refl, tt));
      once = refl;
      not_own = refl;
      some_required = omega arith;
      enough = omega arith;
    },
    (
      record {
        named = letter-IsTidy 112 refl;
        worker = tt;
        reviewers = tt;
        once = refl;
        not_own = refl;
        some_required = omega arith;
        enough = omega arith;
      },
      tt,
    ),
  ),
  omega arith,
)

parse_review_policy-object_of_example : parse_review_policy (object_of two_stages) ≡ ok two_stages
parse_review_policy-object_of_example = parse_review_policy-object_of two_stages two_stages-IsPolicy

abbrev no_count : Value
no_count =
    obj (field (text "kind") (str (text "quorum")) (field (text "required") (num (nat 0)) end))

no_count_refused : is_ok (parse_review_policy no_count) ≡ false
unfolding parse_review_policy parse_kind positive_int get str_eq text
no_count_refused = refl

parse_review_policy-IsPolicy_example : Ensures IsPolicy (parse_review_policy (object_of two_stages))
parse_review_policy-IsPolicy_example = parse_review_policy-IsPolicy (object_of two_stages)
