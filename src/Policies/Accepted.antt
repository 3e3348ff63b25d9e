-- ===== src/Policies/Accepted.antt =====
-- What `parseReviewPolicy` accepts.
use virtual_office.Prelude.{
  ℕ, ◌≤◌, ◌≡◌, refl, subst, List, [], ◌∷◌, ◌++◌, Option, none, some, Text, text, text_eq, str_eq,
  includes, append-nil, arith,
}
use virtual_office.Core.Result.{ValidationError, Ensures, Ensures-if, Ensures-then}
use virtual_office.Core.Gates.{gate_eq}
use virtual_office.Core.Unknown.{Value, Fields, undefined, null, bool, str, num, arr, obj, get}
use virtual_office.Core.Policy.{ReviewPolicy, manager, peer, quorum, automated, pipeline}
use virtual_office.Policies.Stages.{NumberRead, parse_stages}
use virtual_office.Policies.Parse.{
  parse_gates, built, capped_at, quorum_of, automated_of, read_iterations, parse_kind, by_kind,
  kinds, not_kind, parse_review_policy,
}
use virtual_office.Policies.Valid.{
  IsPolicy, IsRead, IsTidyIf, positive_int-IsRead, non_empty_id-IsTidyIf,
}
use virtual_office.Policies.Gathered.{parse_stages-AreStages, parse_gates-Ensures}

-- The number of rounds, where it was read.
capped_at-Ensures :
    (make : ℕ → ReviewPolicy) (iterations : NumberRead) (more : List ValidationError)
    → (iterations.1 ≡ [] → IsRead iterations.0)
    → ((m : ℕ) → 1 ≤ m → more ≡ [] → IsPolicy (make m))
    → Ensures IsPolicy (built (iterations.1 ++ more) (capped_at make iterations.0))
capped_at-Ensures make (none, []) [] r h = absurd (r refl)
capped_at-Ensures make (none, []) (e ∷ es) r h = tt
capped_at-Ensures make (some m, []) [] r h = h m (r refl) refl
capped_at-Ensures make (some m, []) (e ∷ es) r h = tt
capped_at-Ensures make (o, e ∷ es) more r h = tt

unread : (errors : List ValidationError) → Ensures IsPolicy (built errors none)
unread [] = tt
unread (e ∷ es) = tt

module _ (input : Fields) where
  rounds-IsRead : (read_iterations input).1 ≡ [] → IsRead (read_iterations input).0
  rounds-IsRead h =
      positive_int-IsRead (get input (text "maxIterations")) (text "maxIterations") (some 3)
        (omega arith) h

  quorum_of-Ensures :
      (required : NumberRead)
      → (required.1 ≡ [] → IsRead required.0)
      → Ensures IsPolicy (quorum_of (read_iterations input) required)
  quorum_of-Ensures (some r, e) h =
      capped_at-Ensures (quorum r) (read_iterations input) e rounds-IsRead
        (λ m k none_more. (h none_more, k))
  quorum_of-Ensures (none, e) h = unread ((read_iterations input).1 ++ e)

  automated_of-Ensures :
      (o : Option Text) → IsTidyIf o → Ensures IsPolicy (automated_of (read_iterations input) o)
  automated_of-Ensures none t = tt
  automated_of-Ensures (some check) t =
      subst
        (λ errors.
          Ensures IsPolicy (built errors (capped_at (automated check) (read_iterations input).0)))
        (append-nil (read_iterations input).1)
        (capped_at-Ensures (automated check) (read_iterations input) [] rounds-IsRead
          (λ m k h. (t, k)))

  plain-Ensures :
      (make : ℕ → ReviewPolicy)
      → ((m : ℕ) → 1 ≤ m → IsPolicy (make m))
      → Ensures IsPolicy
          (built (read_iterations input).1 (capped_at make (read_iterations input).0))
  plain-Ensures make h =
      subst (λ errors. Ensures IsPolicy (built errors (capped_at make (read_iterations input).0)))
        (append-nil (read_iterations input).1)
        (capped_at-Ensures make (read_iterations input) [] rounds-IsRead (λ m k e. h m k))

  parse_kind-Ensures : (kind : Text) → Ensures IsPolicy (parse_kind kind input)
  unfolding parse_kind
  parse_kind-Ensures kind =
      Ensures-if _ (str_eq kind (text "direct")) _ _ (λ e. tt)
        λ n1.
          Ensures-if _ (str_eq kind (text "gate")) _ _
            (λ e.
              Ensures-then _ _ (parse_gates (get input (text "gatedActions"))) _
                (parse_gates-Ensures (get input (text "gatedActions"))) (λ gs k. k))
            λ n2.
              Ensures-if _ (str_eq kind (text "quorum")) _ _
                (λ e.
                  quorum_of-Ensures _
                    (positive_int-IsRead (get input (text "required")) (text "required") none tt))
                λ n3.
                  Ensures-if _ (str_eq kind (text "automated")) _ _
                    (λ e.
                      automated_of-Ensures _ (non_empty_id-IsTidyIf (get input (text "checkId"))))
                    λ n4.
                      Ensures-if _ (str_eq kind (text "pipeline")) _ _
                        (λ e.
                          capped_at-Ensures (pipeline (parse_stages (get input (text "stages"))).0)
                            (read_iterations input) _ rounds-IsRead
                            (λ m k h.
                              let (some_stage, distinct, all) =
                                parse_stages-AreStages (get input (text "stages")) h in
                              (some_stage, distinct, all, k)))
                        λ n5.
                          Ensures-if _ (str_eq kind (text "manager")) _ _
                            (λ e. plain-Ensures manager (λ m k. k))
                            λ n6. plain-Ensures peer (λ m k. k)

-- A policy that is accepted, of whatever value, is one: its counts are positive, a gate gates
-- distinct categories and one at least, a check is named, and a pipeline has a stage at least, of
-- distinct names, each with distinct reviewers, none of them its worker, and no more approvals
-- required than it can get.
pub parse_review_policy-IsPolicy : (input : Value) → Ensures IsPolicy (parse_review_policy input)
unfolding parse_review_policy
parse_review_policy-IsPolicy undefined = omega arith
parse_review_policy-IsPolicy (obj input) = of_kind (get input (text "kind"))
  where
    of_kind : (v : Value) → Ensures IsPolicy (by_kind v input)
    of_kind (str kind) =
        Ensures-if IsPolicy (includes kinds kind) (parse_kind kind input) not_kind
          (λ e. parse_kind-Ensures input kind) (λ e. tt)
    of_kind undefined = tt
    of_kind null = tt
    of_kind (bool b) = tt
    of_kind (num n) = tt
    of_kind (arr vs) = tt
    of_kind (obj fs) = tt
parse_review_policy-IsPolicy null = tt
parse_review_policy-IsPolicy (bool b) = tt
parse_review_policy-IsPolicy (str s) = tt
parse_review_policy-IsPolicy (num n) = tt
parse_review_policy-IsPolicy (arr vs) = tt
