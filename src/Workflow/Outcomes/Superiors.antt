-- ===== src/Workflow/Outcomes/Superiors.antt =====
-- Up the reporting line: the first loop of an escalation misses nobody.
use virtual_office.Prelude.{
  Bool, ℕ, zero, suc, ◌+◌, ◌≤◌, ◌≡◌, ◌≢◌, refl, sym, ◌∙◌, ap, subst, true, false, List, [], ◌∷◌,
  none, some, Text, text_eq, str_eq, str_eq_iff, includes, includes_of_All, or_else, All, All-imp,
  Bool-cases, Option-cases, inl, inr, arith,
}
use virtual_office.Workflow.Types.{EscalationEmployee, employee}
use virtual_office.Workflow.Peers.{is_active}
use virtual_office.Workflow.Escalation.{by_id, climb}
use virtual_office.Workflow.Outcomes.Climbed.{Above, one, more}

pub some_inj {ℓ} : {A : Type ℓ} {a b : A} → some a ≡ some b → a ≡ b
some_inj {A} {a} {b} e = ap (λ o. or_else o a) e

pub none_ne {ℓ} : {A : Type ℓ} {a : A} → none ≢ some a
none_ne e = cc

both : {b : Bool} → b ≡ true → b ≡ false → ⊥
both h k = cc

pub by_id-id :
    (employees : List EscalationEmployee) (id : Text) {e : EscalationEmployee}
    → by_id employees id ≡ some e
    → e.id ≡ id
unfolding by_id
by_id-id [] id h = cc
by_id-id (x ∷ xs) id {e} h = elim (Option-cases (by_id xs id)) [
  | inl n ↦ elim (Bool-cases (str_eq x.id id)) [
    | inl s ↦
        subst (λ (y : EscalationEmployee). y.id ≡ id) (some_inj (rw (n, s, by_id) at h))
          ((str_eq_iff x.id id).0 s)
    | inr s ↦ absurd (none_ne (rw (n, s, by_id) at h))
  ]
  | inr (y, s) ↦ by_id-id xs id (s ∙ rw (s, by_id) at h)
]

module _ (employees : List EscalationEmployee) where
  one_above :
      {e e' m m' : EscalationEmployee} {x y : Text}
      → e ≡ e'
      → e.supervisor_id ≡ some x
      → by_id employees x ≡ some m
      → e'.supervisor_id ≡ some y
      → by_id employees y ≡ some m'
      → m ≡ m'
  one_above q s b s' b' = some_inj (
      sym b
      ∙ ap (by_id employees)
          (some_inj (sym s ∙ ap (λ (e : EscalationEmployee). e.supervisor_id) q ∙ s'))
      ∙ b')

  active_at :
      {m m' : EscalationEmployee}
      → m ≡ m'
      → is_active m.status ≡ true
      → is_active m'.status ≡ false
      → ⊥
  active_at q a a' = both (sym (ap (λ (m : EscalationEmployee). is_active m.status) q) ∙ a) a'

  -- The line up is a function of where it starts.
  Above-unique :
      {e e' : EscalationEmployee} {id : Text} {n k : ℕ}
      → e ≡ e'
      → Above employees e id n
      → Above employees e' id k
      → n ≡ k
  Above-unique {e} {e'} q (one s b a) (one s' b' a') = refl
  Above-unique {e} {e'} q (one s b a) (more s' b' a' up) =
      absurd (active_at (one_above q s b s' b') a a')
  Above-unique {e} {e'} q (more s b a up) (one s' b' a') =
      absurd (active_at (sym (one_above q s b s' b')) a' a)
  Above-unique {e} {e'} q (more s b a up) (more s' b' a' up') =
      omega (arith, Above-unique (one_above q s b s' b') up up')

  Above-active :
      {e : EscalationEmployee} {id : Text} {n : ℕ}
      → Above employees e id n
      → (m : EscalationEmployee) × (by_id employees id ≡ some m) × (is_active m.status ≡ true)
  Above-active (one {m} s b a) = (m, b, a)
  Above-active (more s b a up) = Above-active up

  Above-pos : {e : EscalationEmployee} {id : Text} {n : ℕ} → Above employees e id n → 1 ≤ n
  Above-pos (one s b a) = omega arith
  Above-pos (more s b a up) = omega arith

  -- Somebody seen is not the one at the top, and stands at least so far below.
  abbrev Passed : Text → ℕ → Text → Type 0
  Passed id rungs s =
      (s ≢ id)
      × ((m : EscalationEmployee)
          → by_id employees s ≡ some m
          → (n : ℕ) × Above employees m id n × (rungs ≤ n))

  Passed-cons :
      (seen : List Text) {m : EscalationEmployee} {mid id : Text} {rungs : ℕ}
      → All (Passed id (rungs + 1)) seen
      → by_id employees mid ≡ some m
      → is_active m.status ≡ false
      → Above employees m id rungs
      → All (Passed id rungs) (mid ∷ seen)
  Passed-cons seen {m} {mid} {id} {rungs} p b a up = (
    (
      λ q.
          let top = Above-active up in
          active_at (some_inj (sym top.1 ∙ ap (by_id employees) (sym q) ∙ b)) top.2 a,
      λ m' b'.
          (rungs, subst (λ x. Above employees x id rungs) (some_inj (sym b ∙ b')) up, omega arith),
    ),
    All-imp (Passed id (rungs + 1)) (Passed id rungs)
        (λ s f. (f.0, λ m' b'. let r = f.1 m' b' in (r.0, r.1, omega (arith, r.2)))) seen p,
  )

  climb_complete :
      (left hops : ℕ) (seen : List Text) {e : EscalationEmployee} {id : Text} {rungs : ℕ}
      → rungs ≤ left
      → All (Passed id rungs) seen
      → Above employees e id rungs
      → climb employees left hops seen e ≡ some (employee id (hops + rungs))
  unfolding climb
  climb_complete zero hops seen l p up = absurd (omega (arith, l, Above-pos up))
  climb_complete (suc left) hops seen {e} {id} l p (one s b a) =
      elim (Bool-cases (includes seen id)) [
        | inl i ↦ absurd ((includes_of_All (Passed id 1) seen id p i).0 refl)
        | inr i ↦ rw (s, i, b, a, climb) refl
      ]
  climb_complete (suc left) hops seen {e} {id} l p (more {m} {mid} {rungs} s b a up) =
      elim (Bool-cases (includes seen mid)) [
        | inl i ↦
            let r = (includes_of_All (Passed id (rungs + 1)) seen mid p i).1 m b in
            absurd (omega (arith, r.2, Above-unique refl up r.1))
        | inr i ↦
            rw (s, i, b, a, climb)
              (subst (λ k. climb employees left (hops + 1) (mid ∷ seen) m ≡ some (employee id k))
                (omega arith)
                (climb_complete left (hops + 1) (mid ∷ seen) (omega (arith, l))
                  (Passed-cons seen p b a up) up))
      ]

  -- Where the climb finds nobody, no active person but the one who starts is that near above.
  pub climb-none :
      (most : ℕ) (holder : Text) {e : EscalationEmployee}
      → by_id employees holder ≡ some e
      → climb employees most 0 (e.id ∷ []) e ≡ none
      → (id : Text) (n : ℕ) → n ≤ most
      → Above employees e id n
      → id ≡ e.id
  climb-none most holder {e} b h id n l up = elim (Bool-cases (str_eq id e.id)) [
    | inl s ↦ (str_eq_iff id e.id).0 s
    | inr s ↦ absurd (none_ne (sym h ∙ climb_complete most 0 (e.id ∷ []) l (start s, tt) up))
  ]
    where
      start : str_eq id e.id ≡ false → Passed id n e.id
      start s = (
        λ q. both ((str_eq_iff id e.id).1 (sym q)) s,
        λ m c. (
          n,
          subst (λ x. Above employees x id n)
              (some_inj (sym b ∙ ap (by_id employees) (sym (by_id-id employees holder b)) ∙ c)) up,
          omega arith,
        ),
      )
