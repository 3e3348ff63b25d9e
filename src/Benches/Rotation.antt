-- ===== src/Benches/Rotation.antt =====
-- The turns of a bench, one placement after the other.
use native.Mathlib.Nat.{mod-eq_of_lt, mod_self}
use virtual_office.Prelude.{
  ℕ, zero, suc, ◌+◌, ◌%◌, ◌<◌, ◌≤◌, ◌≡◌, ◌∙◌, refl, sym, subst, ap, Bool, false, List, [], ◌∷◌,
  ◌++◌, map, append_assoc, Option, none, some, Text, text_eq, str_eq_iff, length, length-append,
  get_elem?, get_last?, get_last?-append_single, filter, filter-append, includes-append, Distinct,
  All, All-append, All-imp, All-filter, sort, sort-append_last, arith,
}
use virtual_office.Benches.Turn.{
  Bench, BenchMember, BenchPlacement, turn_of, is_placed_by, index_of?, turn_at, last_at,
  next_index, older, newest_of, next_from_bench,
}

-- Hand out from the rest of a turn, and start it again where the rest is empty.
unfoldable pub deal : (turn rest : List Text) → ℕ → List Text
deal turn rest zero = []
deal turn (x ∷ rest) (suc n) = x ∷ deal turn rest n
deal [] [] (suc n) = []
deal (y ∷ ys) [] (suc n) = y ∷ deal (y ∷ ys) ys n

deal_again : (t : Text) (ts : List Text) (n : ℕ) → deal (t ∷ ts) [] n ≡ deal (t ∷ ts) (t ∷ ts) n
unfolding deal
deal_again t ts zero = refl
deal_again t ts (suc n) = refl

get_elem?-length :
    (pre : List Text) (x : Text) (post : List Text)
    → get_elem? (pre ++ x ∷ post) (length pre) ≡ some x
get_elem?-length [] x post = refl
get_elem?-length (y ∷ pre) x post = get_elem?-length pre x post

index_of?-length :
    (pre : List Text) (x : Text) (post : List Text)
    → Distinct (pre ++ x ∷ post)
    → index_of? (pre ++ x ∷ post) x ≡ some (length pre)
unfolding index_of?
index_of?-length [] x post d = rw ((str_eq_iff x x).1 refl) refl
index_of?-length (y ∷ pre) x post d = ground (
  arith,
  includes-append pre (x ∷ post) y,
  d.0,
  str_eq_iff y x,
  str_eq_iff x y,
  index_of?-length pre x post d.1,
)

-- Slots in the order of their instants, each later than the ones before.
abbrev pub IsIncreasing : ℕ → List (Text × ℕ) → Type 0
IsIncreasing before [] = Unit
IsIncreasing before (s ∷ ss) = (before < s.1) × IsIncreasing s.1 ss

module _ (locale_less : Text → Text → Bool) (bench : Bench) (members : List BenchMember) where
  -- A piece of work that the bench places.
  abbrev pub placement : List BenchPlacement → Text × ℕ → BenchPlacement
  placement placed s = record {
    id = s.0;
    assignee_id = next_from_bench locale_less bench members placed;
    bench_id = some bench.id;
    created_at = s.1;
  }

  -- Whom the bench gives the pieces of work that come in.
  unfoldable pub rounds : List BenchPlacement → List (Text × ℕ) → List (Option Text)
  rounds placed [] = []
  rounds placed (s ∷ ss) =
      next_from_bench locale_less bench members placed
      ∷ rounds (placed ++ placement placed s ∷ []) ss

  own : BenchPlacement → Bool
  own p = is_placed_by bench.id p.bench_id

  filter-own :
      (placed : List BenchPlacement) (s : Text × ℕ)
      → filter own (placed ++ placement placed s ∷ [])
        ≡ filter own placed ++ placement placed s ∷ []
  unfolding own
  filter-own placed s =
      filter-append own placed (placement placed s ∷ [])
      ∙ rw ((str_eq_iff bench.id bench.id).1 refl) refl

  older-later :
      (placed : List BenchPlacement) (s : Text × ℕ) (q : BenchPlacement)
      → q.created_at < s.1
      → older locale_less (placement placed s) q ≡ false
  unfolding older
  older-later placed s q k = ground arith

  -- What was placed last, after all the rest, is the newest.
  newest_of-append :
      (placed : List BenchPlacement) (s : Text × ℕ)
      → All (λ (q : BenchPlacement). q.created_at < s.1) placed
      → newest_of locale_less bench (placed ++ placement placed s ∷ []) ≡ some (placement placed s)
  unfolding newest_of own
  newest_of-append placed s h =
      ap (λ ps. get_last? (sort (older locale_less) ps)) (filter-own placed s)
      ∙ ap get_last? (
          sort-append_last (older locale_less) (placement placed s) (filter own placed)
            (All-filter _ own placed (All-imp _ _ (older-later placed s) placed h)))
      ∙ get_last?-append_single (sort (older locale_less) (filter own placed)) (placement placed s)

  module _ (t : Text) (ts : List Text) (is_turn : turn_of bench members ≡ t ∷ ts)
      (once : Distinct (t ∷ ts)) where
    -- The turn stands before x.
    Ready : List BenchPlacement → List Text → Text → List Text → Type 0
    Ready placed pre x post =
        (pre ++ x ∷ post ≡ t ∷ ts)
        × (next_index (last_at (t ∷ ts) (newest_of locale_less bench placed)) (length (t ∷ ts))
            ≡ length pre)

    next-Ready :
        (placed : List BenchPlacement) (pre : List Text) (x : Text) (post : List Text)
        → Ready placed pre x post
        → next_from_bench locale_less bench members placed ≡ some x
    unfolding next_from_bench Ready
    next-Ready placed pre x post (e, n) =
        ap
          (λ turn.
            get_elem? turn
              (next_index (last_at turn (newest_of locale_less bench placed)) (length turn)))
          is_turn
        ∙ ap (get_elem? (t ∷ ts)) n
        ∙ subst (λ turn. get_elem? turn (length pre) ≡ some x) e (get_elem?-length pre x post)

    placed_index :
        (placed : List BenchPlacement) (s : Text × ℕ) (pre : List Text) (x : Text)
        (post : List Text)
        → Ready placed pre x post
        → All (λ (q : BenchPlacement). q.created_at < s.1) placed
        → last_at (t ∷ ts) (newest_of locale_less bench (placed ++ placement placed s ∷ []))
          ≡ some (length pre)
    unfolding Ready
    placed_index placed s pre x post (e, n) h =
        ap (last_at (t ∷ ts)) (newest_of-append placed s h)
        ∙ ap (turn_at (t ∷ ts)) (next-Ready placed pre x post (e, n))
        ∙ subst (λ turn. index_of? turn x ≡ some (length pre)) e
            (index_of?-length pre x post (subst Distinct (sym e) once))

    wrap :
        (pre : List Text) (x : Text)
        → pre ++ x ∷ [] ≡ t ∷ ts
        → (length pre + 1) % length (t ∷ ts) ≡ 0
    wrap pre x e =
        subst (λ turn. (length pre + 1) % length turn ≡ 0) e
          (rw (length-append pre (x ∷ [])) (mod_self (length pre + 1)))

    step :
        (pre : List Text) (x y : Text) (post : List Text)
        → pre ++ x ∷ y ∷ post ≡ t ∷ ts
        → (length pre + 1) % length (t ∷ ts) ≡ length (pre ++ x ∷ [])
    step pre x y post e =
        mod-eq_of_lt (omega (arith, ap length e, length-append pre (x ∷ y ∷ post)))
        ∙ sym (length-append pre (x ∷ []))

    rounds-deal :
        (ss : List (Text × ℕ)) (before : ℕ) (placed : List BenchPlacement) (pre : List Text)
        (x : Text) (post : List Text)
        → Ready placed pre x post
        → All (λ (q : BenchPlacement). q.created_at ≤ before) placed
        → IsIncreasing before ss
        → rounds placed ss ≡ map some (deal (t ∷ ts) (x ∷ post) (length ss))
    unfolding rounds deal Ready
    rounds-deal [] before placed pre x post r h i = refl
    rounds-deal (s ∷ ss) before placed pre x [] r h i =
        let later =
          All-imp _ (λ (q : BenchPlacement). q.created_at < s.1) (λ q k. omega (arith, k, i.0))
            placed h in
        let rest =
          rounds-deal ss s.1 (placed ++ placement placed s ∷ []) [] t ts
            (
              refl,
              ap (λ o. next_index o (length (t ∷ ts))) (placed_index placed s pre x [] r later)
                  ∙ wrap pre x r.0,
            )
            (All-append _ placed (placement placed s ∷ [])
              (All-imp _ _ (λ q k. omega (arith, k)) placed later) (omega arith, tt))
            i.1 in
        ap (λ o. o ∷ rounds (placed ++ placement placed s ∷ []) ss) (next-Ready placed pre x [] r)
        ∙ ap (λ os. some x ∷ os) (rest ∙ ap (map some) (sym (deal_again t ts (length ss))))
    rounds-deal (s ∷ ss) before placed pre x (y ∷ post) r h i =
        let later =
          All-imp _ (λ (q : BenchPlacement). q.created_at < s.1) (λ q k. omega (arith, k, i.0))
            placed h in
        let rest =
          rounds-deal ss s.1 (placed ++ placement placed s ∷ []) (pre ++ x ∷ []) y post
            (
              append_assoc pre (x ∷ []) (y ∷ post) ∙ r.0,
              ap (λ o. next_index o (length (t ∷ ts)))
                    (placed_index placed s pre x (y ∷ post) r later)
                  ∙ step pre x y post r.0,
            )
            (All-append _ placed (placement placed s ∷ [])
              (All-imp _ _ (λ q k. omega (arith, k)) placed later) (omega arith, tt))
            i.1 in
        ap (λ o. o ∷ rounds (placed ++ placement placed s ∷ []) ss)
          (next-Ready placed pre x (y ∷ post) r)
        ∙ ap (λ os. some x ∷ os) rest

-- On a bench with somebody who can work, none of them on it twice, and no turn to go on from, pieces of
-- work that come in at instants that increase, each later than all that was placed before, go to
-- those who can work in the bench's order, and from the start again when all have had one.
pub rounds-deal_all :
    (locale_less : Text → Text → Bool) (bench : Bench) (members : List BenchMember) (first : Text)
    (others : List Text) (placed : List BenchPlacement) (slots : List (Text × ℕ)) (before : ℕ)
    → turn_of bench members ≡ first ∷ others
    → Distinct (first ∷ others)
    → last_at (first ∷ others) (newest_of locale_less bench placed) ≡ none
    → All (λ (p : BenchPlacement). p.created_at ≤ before) placed
    → IsIncreasing before slots
    → rounds locale_less bench members placed slots
      ≡ map some (deal (first ∷ others) (first ∷ others) (length slots))
unfolding Ready
rounds-deal_all locale_less bench members t ts placed slots before turn once start h i =
    rounds-deal locale_less bench members t ts turn once slots before placed [] t ts
      (refl, ap (λ o. next_index o (length (t ∷ ts))) start) h i
