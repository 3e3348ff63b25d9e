-- ===== src/Graph/Acyclic.antt =====
-- The arrows that creating one and checking all of them let through.
use virtual_office.Prelude.{
  ◌≡◌, sym, subst, ◌⊎◌, true, ◌&&◌, ◌||◌, List, [], ◌∷◌, ◌++◌, Text, text_eq, str_eq, str_eq_iff,
  includes, Bool-cases, inl, inr, arith,
}
use virtual_office.Core.Connection.{kind_eq}
use virtual_office.Graph.Search.{Edge, successors}
use virtual_office.Graph.Paths.{Reach, here, step, Reach_trans}

successors-snoc :
    (edges : List Edge) (e : Edge) (a b : Text)
    → includes (successors (edges ++ e ∷ []) a) b
      ≡ (includes (successors edges a) b || (str_eq e.from_id a && str_eq e.to_id b))
successors-snoc [] e a b = ground arith
successors-snoc (x ∷ edges) e a b = ground (arith, successors-snoc edges e a b)

-- A path over one more edge either does without it, or reaches it and goes on from it.
Reach-snoc :
    (edges : List Edge) (e : Edge) {a c : Text}
    → Reach (edges ++ e ∷ []) a c
    → Reach edges a c ⊎ (Reach edges a e.from_id × Reach edges e.to_id c)
Reach-snoc edges e here = inl here
Reach-snoc edges e {a} {c} (step {b = b} s r) =
    elim (Bool-cases (includes (successors edges a) b)) [
      | inl old ↦ by_old old (Reach-snoc edges e r)
      | inr new ↦
          by_new (ground (arith, successors-snoc edges e a b, s, new)) (Reach-snoc edges e r)
    ]
  where
    by_old :
        includes (successors edges a) b ≡ true
        → Reach edges b c ⊎ (Reach edges b e.from_id × Reach edges e.to_id c)
        → Reach edges a c ⊎ (Reach edges a e.from_id × Reach edges e.to_id c)
    by_old old (inl q) = inl (step old q)
    by_old old (inr q) = inr (step old q.0, q.1)

    after :
        Reach edges b c ⊎ (Reach edges b e.from_id × Reach edges e.to_id c)
        → e.to_id ≡ b
        → Reach edges e.to_id c
    after (inl q) t = subst (λ x. Reach edges x c) (sym t) q
    after (inr q) t = q.1

    by_new :
        (str_eq e.from_id a && str_eq e.to_id b) ≡ true
        → Reach edges b c ⊎ (Reach edges b e.from_id × Reach edges e.to_id c)
        → Reach edges a c ⊎ (Reach edges a e.from_id × Reach edges e.to_id c)
    by_new q r' = inr (
      subst (λ x. Reach edges x e.from_id) ((str_eq_iff e.from_id a).0 (ground (arith, q))) here,
      after r' ((str_eq_iff e.to_id b).0 (ground (arith, q))),
    )

-- No edge has a way back.
abbrev pub IsAcyclic : List Edge → Type 0
IsAcyclic edges = (a b : Text) → includes (successors edges a) b ≡ true → Reach edges b a → ⊥

pub IsAcyclic-snoc :
    (edges : List Edge) (e : Edge)
    → IsAcyclic edges
    → (Reach edges e.to_id e.from_id → ⊥)
    → IsAcyclic (edges ++ e ∷ [])
IsAcyclic-snoc edges e old no_way a b s r = elim (Bool-cases (includes (successors edges a) b)) [
  | inl q ↦ by_old q (Reach-snoc edges e r)
  | inr q ↦ by_new (ground (arith, successors-snoc edges e a b, s, q)) (Reach-snoc edges e r)
]
  where
    by_old :
        includes (successors edges a) b ≡ true
        → Reach edges b a ⊎ (Reach edges b e.from_id × Reach edges e.to_id a)
        → ⊥
    by_old q (inl back) = old a b q back
    by_old q (inr way) = no_way (Reach_trans way.1 (step q way.0))

    ends :
        e.from_id ≡ a
        → e.to_id ≡ b
        → Reach edges b a ⊎ (Reach edges b e.from_id × Reach edges e.to_id a)
        → ⊥
    ends f t (inl back) = no_way (rw (f, t) back)
    ends f t (inr way) = no_way (rw f way.1)

    by_new :
        (str_eq e.from_id a && str_eq e.to_id b) ≡ true
        → Reach edges b a ⊎ (Reach edges b e.from_id × Reach edges e.to_id a)
        → ⊥
    by_new q w =
        ends ((str_eq_iff e.from_id a).0 (ground (arith, q)))
          ((str_eq_iff e.to_id b).0 (ground (arith, q))) w
