-- ===== src/Workflow/Outcomes/Climbed.antt =====
-- Up the reporting line: whom the first loop of an escalation finds.
use virtual_office.Prelude.{
  ℕ, zero, suc, ◌+◌, ◌≤◌, ◌≡◌, refl, sym, subst, true, false, List, ◌∷◌, Option, none, some, Text,
  text_eq, includes, Bool-cases, Option-cases, inl, inr, arith,
}
use virtual_office.Workflow.Types.{
  EscalationEmployee, EscalationTarget, employee, department, owner,
}
use virtual_office.Workflow.Peers.{is_active}
use virtual_office.Workflow.Escalation.{by_id, climb}

-- So many rungs up the reporting line: the person at the top is active, and nobody passed over is.
pub data Above (employees : List EscalationEmployee) : EscalationEmployee → Text → ℕ → Type 0 where
  one :
      {e m : EscalationEmployee} {id : Text}
      → e.supervisor_id ≡ some id
      → by_id employees id ≡ some m
      → is_active m.status ≡ true
      → Above employees e id 1
  more :
      {e m : EscalationEmployee} {mid id : Text} {rungs : ℕ}
      → e.supervisor_id ≡ some mid
      → by_id employees mid ≡ some m
      → is_active m.status ≡ false
      → Above employees m id rungs
      → Above employees e id (rungs + 1)

abbrev pub IsClimbed :
    List EscalationEmployee
    → EscalationEmployee
    → ℕ
    → ℕ
    → List Text
    → Option EscalationTarget
    → Type 0
IsClimbed employees e hops left seen none = Unit
IsClimbed employees e hops left seen (some (employee id n)) =
    (rungs : ℕ) × (n ≡ hops + rungs)
    × (rungs ≤ left)
    × Above employees e id rungs
    × (includes seen id ≡ false)
IsClimbed employees e hops left seen (some (department d n)) = ⊥
IsClimbed employees e hops left seen (some (owner n)) = ⊥

IsClimbed-up :
    (employees : List EscalationEmployee) (e m : EscalationEmployee) (mid : Text) (hops left : ℕ)
    (seen : List Text)
    → e.supervisor_id ≡ some mid
    → by_id employees mid ≡ some m
    → is_active m.status ≡ false
    → (r : Option EscalationTarget) → IsClimbed employees m (hops + 1) left (mid ∷ seen) r
    → IsClimbed employees e hops (suc left) seen r
IsClimbed-up employees e m mid hops left seen s b a none h = tt
IsClimbed-up employees e m mid hops left seen s b a (some (employee id n)) (rungs, q, l, up, i) =
    (rungs + 1, omega (arith, q), omega (arith, l), more s b a up, ground arith)
IsClimbed-up employees e m mid hops left seen s b a (some (department d n)) h = h
IsClimbed-up employees e m mid hops left seen s b a (some (owner n)) h = h

pub climb-IsClimbed :
    (employees : List EscalationEmployee) (left hops : ℕ) (seen : List Text)
    (e : EscalationEmployee)
    → IsClimbed employees e hops left seen (climb employees left hops seen e)
unfolding climb
climb-IsClimbed employees zero hops seen e = tt
climb-IsClimbed employees (suc left) hops seen e = elim (Option-cases e.supervisor_id) [
  | inl n ↦ ends none (rw (n, climb) refl) tt
  | inr (id, s) ↦ elim (Bool-cases (includes seen id)) [
    | inl c ↦ ends none (rw (s, c, climb) refl) tt
    | inr c ↦ elim (Option-cases (by_id employees id)) [
      | inl n ↦ ends none (rw (s, c, n, climb) refl) tt
      | inr (m, b) ↦ elim (Bool-cases (is_active m.status)) [
        | inl a ↦
            ends (some (employee id (hops + 1))) (rw (s, c, b, a, climb) refl)
              (1, refl, omega arith, one s b a, c)
        | inr a ↦
            ends (climb employees left (hops + 1) (id ∷ seen) m) (rw (s, c, b, a, climb) refl) (
              IsClimbed-up employees e m id hops left seen s b a _
                (climb-IsClimbed employees left (hops + 1) (id ∷ seen) m))
      ]
    ]
  ]
]
  where
    ends :
        (r : Option EscalationTarget)
        → climb employees (suc left) hops seen e ≡ r
        → IsClimbed employees e hops (suc left) seen r
        → IsClimbed employees e hops (suc left) seen (climb employees (suc left) hops seen e)
    ends r q h = subst (IsClimbed employees e hops (suc left) seen) (sym q) h
