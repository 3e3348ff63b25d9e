-- ===== src/Benches/Valid.antt =====
-- What the checks of bench.ts let through.
use virtual_office.Prelude.{
  ℕ, suc, ◌≡◌, refl, subst, Bool, true, false, List, [], ◌∷◌, ◌++◌, map, Option, none, some, Text,
  text_eq, str_eq, str_eq_iff, trim, is_empty, includes, includes-append, includes_of_All,
  append-eq-nil, lookup, lookup-put, All, All-append, All-imp, Distinct, Bool-cases, inl, inr,
  arith, if◌then◌else◌,
}
use virtual_office.Core.Result.{
  ValidationError, ok, err, error_if-nil, either-nil, unless-nil, Ensures,
}
use virtual_office.Task.Validate.Laws.{Unseen, Unseen-uncons}
use virtual_office.Benches.Turn.{Bench, is_bench_strategy}
use virtual_office.Benches.Shape.{
  Seen, name_errors, id_errors, strategy_errors, judge_errors, member_error, member_errors, see,
  seen_after, bench_errors, shape_errors, named, validate_bench_shape,
}

abbrev pub all_members : List Bench → List Text
all_members [] = []
all_members (b ∷ bs) = b.member_ids ++ all_members bs

abbrev pub IsJudge : Option Text → List Text → Type 0
IsJudge none members = Unit
IsJudge (some judge) members = includes members judge ≡ false

pub record IsMade (b : Bench) : Type 0 where
  pub is_named : is_empty (trim b.name) ≡ false
  pub has_id : is_empty b.id ≡ false
  pub has_strategy : is_bench_strategy b.strategy ≡ true
  pub judged : IsJudge b.judge_id b.member_ids

pub record IsShaped (bs : List Bench) : Type 0 where
  pub ids : Distinct (map (λ (b : Bench). b.id) bs)
  pub members : Distinct (all_members bs)
  pub made : All IsMade bs

Distinct-append :
    (xs ys : List Text)
    → Distinct xs
    → Distinct ys
    → All (λ y. includes xs y ≡ false) ys
    → Distinct (xs ++ ys)
Distinct-append [] ys d e a = e
Distinct-append (x ∷ xs) ys d e a = (
  rw (includes-append xs ys x, d.0) (apart (includes ys x) refl),
  Distinct-append xs ys d.1 e (All-imp _ _ (λ y h. ground arith) ys a),
)
  where
    clash : includes (x ∷ xs) x ≡ false → ⊥
    clash h = ground (arith, (str_eq_iff x x).1 refl)

    apart : (b : Bool) → includes ys x ≡ b → b ≡ false
    apart false q = refl
    apart true q = absurd (clash (includes_of_All (λ y. includes (x ∷ xs) y ≡ false) ys x a q))

lookup-see :
    (o : Option Text) (name m j : Text) (seen : Seen)
    → lookup m seen ≡ o
    → lookup j (see o name m seen) ≡ none
    → (lookup j seen ≡ none) × (str_eq m j ≡ false)
lookup-see none name m j seen e h = ground (arith, lookup-put m j name seen)
lookup-see (some already) name m j seen e h = elim (Bool-cases (str_eq m j)) [
  | inl q ↦ absurd (clash (subst (λ i. lookup i seen ≡ some already) ((str_eq_iff m j).0 q) e))
  | inr q ↦ (h, q)
]
  where
    clash : lookup j seen ≡ some already → ⊥
    clash k = cc

-- The members of one bench.
seen_after-none :
    (name : Text) (ms : List Text) (seen : Seen) (j : Text)
    → lookup j (seen_after name ms seen) ≡ none
    → (lookup j seen ≡ none) × (includes ms j ≡ false)
unfolding seen_after
seen_after-none name [] seen j h = (h, refl)
seen_after-none name (m ∷ ms) seen j h =
    let later = seen_after-none name ms (see (lookup m seen) name m seen) j h in
    let now = lookup-see (lookup m seen) name m j seen refl later.0 in (now.0, rw now.1 later.1)

includes-none :
    (m : Text) (ms : List Text) → All (λ x. str_eq m x ≡ false) ms → includes ms m ≡ false
includes-none m [] h = refl
includes-none m (x ∷ xs) h = ground (arith, includes-none m xs h.1, str_eq_iff x m, str_eq_iff m x)

member_error-nil : (o : Option Text) (at m : Text) → member_error o at m ≡ [] → o ≡ none
member_error-nil none at m h = refl
member_error-nil (some a) at m h = cc

member_errors-nil :
    (index position : ℕ) (name : Text) (ms : List Text) (seen : Seen)
    → member_errors index position name ms seen ≡ []
    → Distinct ms × All (λ m. lookup m seen ≡ none) ms
unfolding member_errors
member_errors-nil index position name [] seen h = (tt, tt)
member_errors-nil index position name (m ∷ ms) seen h =
    let parts = append-eq-nil _ _ h in
    let free = member_error-nil (lookup m seen) _ m parts.0 in
    let rest =
      member_errors-nil index (suc position) name ms (see (lookup m seen) name m seen) parts.1 in
    let apart =
      All-imp _ (λ x. (lookup x seen ≡ none) × (str_eq m x ≡ false))
        (λ x k. lookup-see (lookup m seen) name m x seen refl k) ms rest.1 in
    (
      (
        includes-none m ms
            (All-imp _ _ (λ x (k : (lookup x seen ≡ none) × (str_eq m x ≡ false)). k.1) ms apart),
        rest.0,
      ),
      (free, All-imp _ _ (λ x (k : (lookup x seen ≡ none) × (str_eq m x ≡ false)). k.0) ms apart),
    )

judge_errors-nil :
    (index : ℕ) (o : Option Text) (ms : List Text) → judge_errors index o ms ≡ [] → IsJudge o ms
unfolding judge_errors
judge_errors-nil index none ms h = tt
judge_errors-nil index (some j) ms h = error_if-nil _ _ _ h

id_errors-nil :
    (index : ℕ) (seen_ids : List Text) (b : Bench)
    → id_errors index seen_ids b ≡ []
    → (is_empty b.id ≡ false) × (includes seen_ids b.id ≡ false)
unfolding id_errors
id_errors-nil index seen_ids b h = either-nil _ _ _ _ _ _ h

strategy_errors-nil :
    (index : ℕ) (b : Bench) → strategy_errors index b ≡ [] → is_bench_strategy b.strategy ≡ true
unfolding strategy_errors
strategy_errors-nil index b h = unless-nil _ _ _ h

shape_errors-nil :
    (index : ℕ) (seen_ids : List Text) (seen : Seen) (bs : List Bench)
    → shape_errors index seen_ids seen bs ≡ []
    → IsShaped bs
      × Unseen seen_ids (map (λ (b : Bench). b.id) bs)
      × All (λ m. lookup m seen ≡ none) (all_members bs)
unfolding shape_errors name_errors
shape_errors-nil index seen_ids seen [] h = (record { ids = tt; members = tt; made = tt }, tt, tt)
shape_errors-nil index seen_ids seen (b ∷ bs) h =
    let (here, there) = append-eq-nil (bench_errors index seen_ids seen b) _ h in
    let (front, m) = append-eq-nil _ (member_errors index 0 b.name b.member_ids seen) here in
    let (front1, j) = append-eq-nil _ (judge_errors index b.judge_id b.member_ids) front in
    let (front2, s) = append-eq-nil _ (strategy_errors index b) front1 in
    let (n, i) = append-eq-nil (name_errors index b) (id_errors index seen_ids b) front2 in
    let id = id_errors-nil index seen_ids b i in
    let own = member_errors-nil index 0 b.name b.member_ids seen m in
    let (rest, ids, free) =
      shape_errors-nil (suc index) (b.id ∷ seen_ids) (seen_after b.name b.member_ids seen) bs
        there in
    let (fresh, unseen) = Unseen-uncons b.id seen_ids _ ids in
    let apart =
      All-imp _ (λ x. (lookup x seen ≡ none) × (includes b.member_ids x ≡ false))
        (λ x k. seen_after-none b.name b.member_ids seen x k) (all_members bs) free in
    (
      record {
        ids = (fresh, rest.ids);
        members = Distinct-append b.member_ids (all_members bs) own.0 rest.members (
            All-imp _ _ (λ x (k : (lookup x seen ≡ none) × (includes b.member_ids x ≡ false)). k.1)
              (all_members bs) apart);
        made = (
          record {
            is_named = error_if-nil _ _ _ n;
            has_id = id.0;
            has_strategy = strategy_errors-nil index b s;
            judged = judge_errors-nil index b.judge_id b.member_ids j;
          },
          rest.made,
        );
      },
      (id.1, unseen),
      All-append _ b.member_ids (all_members bs) own.1 (
          All-imp _ _ (λ x (k : (lookup x seen ≡ none) × (includes b.member_ids x ≡ false)). k.0)
            (all_members bs) apart),
    )

-- Benches that the check of their shape accepts have different ids, nobody on two of them or on
-- one twice, names that are not blank, known strategies, and judges who are not on the bench they
-- judge; the answer is the same benches with their names trimmed.
pub validate_bench_shape-IsShaped :
    (benches : List Bench)
    → Ensures (λ made. (made ≡ map named benches) × IsShaped benches) (validate_bench_shape benches)
unfolding validate_bench_shape
validate_bench_shape-IsShaped benches = checked (shape_errors 0 [] [] benches) refl
  where
    checked :
        (errors : List ValidationError)
        → shape_errors 0 [] [] benches ≡ errors
        → Ensures
            (λ made. (made ≡ map named benches) × IsShaped benches)
            (if is_empty errors then ok (map named benches) else err errors)
    checked [] e = (refl, (shape_errors-nil 0 [] [] benches e).0)
    checked (x ∷ xs) e = tt
