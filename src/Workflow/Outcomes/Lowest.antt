-- ===== src/Workflow/Outcomes/Lowest.antt =====
-- Which escalation edge is followed from a department: what its choice of the sorted ends is.
use virtual_office.Prelude.{
  ◌≡◌, ◌≢◌, refl, sym, subst, false, List, [], ◌∷◌, map, Option, none, some, Text, str_eq,
  str_eq_iff, str_lt, str_lt_irrefl, str_lt_asym, str_lt_negtrans, filter, sort, sort-All, All-sort,
  sort-IsSorted, IsSorted, All, All-imp, All-if_filter, Bool-cases, inl, inr,
}
use mathlib.Core.List.{Mem, mem-cons_self, mem-cons_of_mem}
use virtual_office.Core.Connection.{Connection}
use virtual_office.Workflow.Escalation.{head_of, next_department}

-- The lowest end of the edges out of a department, if it has any.
abbrev pub IsLowest : List Connection → Text → Option Text → Type 0
IsLowest edges d none = All (λ c. c.from_id ≢ d) edges
IsLowest edges d (some low) =
    ((c : Connection) × Mem c edges × (c.from_id ≡ d) × (c.to_id ≡ low))
    × All (λ c. c.from_id ≡ d → str_lt c.to_id low ≡ false) edges

All-map_back {ℓ κ μ} :
    {A : Type ℓ} {B : Type κ} (P : B → Type μ) (f : A → B) (xs : List A)
    → All P (map f xs)
    → All (λ x. P (f x)) xs
All-map_back P f [] h = tt
All-map_back P f (x ∷ xs) h = (h.0, All-map_back P f xs h.1)

module _ (edges : List Connection) (d : Text) where
  abbrev ends : List Text
  ends = map (λ (c : Connection). c.to_id) (filter (λ c. str_eq c.from_id d) edges)

  -- What holds of the sorted ends holds of each edge out of the department.
  of_ends :
      (P : Text → Type 0) → All P (sort str_lt ends) → All (λ c. c.from_id ≡ d → P c.to_id) edges
  of_ends P h =
      All-imp _ _ (λ c f e. f ((str_eq_iff c.from_id d).1 e)) edges
        (All-if_filter (λ c. P c.to_id) (λ c. str_eq c.from_id d) edges
          (All-map_back P (λ (c : Connection). c.to_id) _ (All-sort str_lt P ends h)))

  abbrev IsEnd : Text → Type 0
  IsEnd t = (c : Connection) × Mem c edges × (c.from_id ≡ d) × (c.to_id ≡ t)

  each-IsEnd :
      (es : List Connection)
      → All (λ c. Mem c edges) es
      → All IsEnd (map (λ (c : Connection). c.to_id) (filter (λ c. str_eq c.from_id d) es))
  each-IsEnd [] m = tt
  each-IsEnd (c ∷ cs) m = elim (Bool-cases (str_eq c.from_id d)) [
    | inl e ↦ rw e ((c, m.0, (str_eq_iff c.from_id d).0 e, refl), each-IsEnd cs m.1)
    | inr e ↦ rw e (each-IsEnd cs m.1)
  ]

  all_edges : (es : List Connection) → All (λ c. Mem c es) es
  all_edges [] = tt
  all_edges (c ∷ cs) = (
    mem-cons_self,
    All-imp (λ e. Mem e cs) (λ e. Mem e (c ∷ cs)) (λ e m. mem-cons_of_mem c m) cs (all_edges cs),
  )

  lowest :
      (sorted : List Text)
      → sort str_lt ends ≡ sorted
      → All IsEnd sorted
      → IsSorted str_lt sorted
      → IsLowest edges d (head_of sorted)
  lowest [] q h s = of_ends (λ t. ⊥) (subst (All (λ t. ⊥)) (sym q) tt)
  lowest (low ∷ others) q h s = (
    h.0,
    of_ends (λ t. str_lt t low ≡ false)
        (subst (All (λ t. str_lt t low ≡ false)) (sym q) (itself, s.0)),
  )
    where
      itself : str_lt low low ≡ false
      itself = str_lt_irrefl low

  pub next_department-IsLowest : IsLowest edges d (next_department edges d)
  unfolding next_department
  next_department-IsLowest =
      lowest (sort str_lt ends) refl
        (sort-All str_lt IsEnd ends (each-IsEnd edges (all_edges edges)))
        (sort-IsSorted str_lt str_lt_asym str_lt_negtrans ends)
