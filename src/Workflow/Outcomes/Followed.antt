-- ===== src/Workflow/Outcomes/Followed.antt =====
-- Along the departments' escalation edges: where the second loop of an escalation stops.
use virtual_office.Prelude.{
  ℕ, zero, suc, ◌+◌, ◌≤◌, ◌<◌, ◌≡◌, ◌⊎◌, refl, sym, ◌∙◌, ap, subst, true, false, List, [], ◌∷◌,
  Option, none, some, or_else, Text, text_eq, str_eq_iff, includes, includes_of_All, All, All-imp,
  Bool-cases, Option-cases, inl, inr, arith,
}
use virtual_office.Core.Connection.{Connection}
use virtual_office.Workflow.Types.{EscalationTarget, employee, department, owner}
use virtual_office.Workflow.Escalation.{next_department, follow, reached}

-- So many escalation edges away.
pub data Along (edges : List Connection) (start : Text) : Text → ℕ → Type 0 where
  here : Along edges start start 0
  further :
      {d next : Text} {hops : ℕ}
      → Along edges start d hops
      → next_department edges d ≡ some next
      → Along edges start next (hops + 1)

-- The path comes back to a department within so many edges.
abbrev pub Circle : List Connection → Text → ℕ → Type 0
Circle edges start most =
    (d : Text) × (j : ℕ) × (k : ℕ) × (j < k)
    × (k ≤ most)
    × Along edges start d j
    × Along edges start d k

-- Where the path leads: to the department where it ends or the bound stops it, if it comes back to
-- none; or to the owner, if it has no edge, or comes back.
abbrev pub IsFollowed : List Connection → Text → ℕ → EscalationTarget → Type 0
IsFollowed edges start most (employee id n) = ⊥
IsFollowed edges start most (department d n) =
    Along edges start d n
    × (1 ≤ n)
    × (n ≤ most)
    × ((n ≡ most) ⊎ (next_department edges d ≡ none))
    × (Circle edges start n → ⊥)
IsFollowed edges start most (owner n) =
    (n ≡ 0) × ((most ≡ 0) ⊎ ((next_department edges start ≡ none) ⊎ Circle edges start most))

module _ (edges : List Connection) (start : Text) where
  Along-unique :
      {d d' : Text} {j k : ℕ} → j ≡ k → Along edges start d j → Along edges start d' k → d ≡ d'
  Along-unique q here here = refl
  Along-unique q here (further w n) = absurd (omega (arith, q))
  Along-unique q (further w n) here = absurd (omega (arith, q))
  Along-unique q (further w n) (further w' n') =
      ap (λ o. or_else o start)
        (sym n ∙ ap (next_department edges) (Along-unique (omega (arith, q)) w w') ∙ n')

  -- The departments on the path so far are those seen, each once.
  pub record IsPath (hops : ℕ) (seen : List Text) (at : Text) : Type 0 where
    pub reaches : Along edges start at hops
    pub on_path : All (λ s. (j : ℕ) × (j ≤ hops) × Along edges start s j) seen
    pub all_seen : (d : Text) (j : ℕ) → j ≤ hops → Along edges start d j → includes seen d ≡ true
    pub straight : Circle edges start hops → ⊥

  up_to : (j hops : ℕ) → j ≤ hops + 1 → (j ≤ hops) ⊎ (hops + 1 ≡ j)
  up_to j hops l = ground arith

  pub IsPath-start : IsPath 0 (start ∷ []) start
  IsPath-start = record {
    reaches = here;
    on_path = ((0, omega arith, here), tt);
    all_seen = λ d j l w.
        subst (λ x. includes (start ∷ []) x ≡ true) (Along-unique (omega (arith, l)) here w)
          (ground (arith, str_eq_iff start start));
    straight = λ (d, j, k, l, m, v, w). omega (arith, l, m);
  }

  IsPath-next :
      (hops : ℕ) (seen : List Text) (at next : Text)
      → IsPath hops seen at
      → next_department edges at ≡ some next
      → includes seen next ≡ false
      → IsPath (hops + 1) (next ∷ seen) next
  IsPath-next hops seen at next p n c = record {
    reaches = further p.reaches n;
    on_path = (
      (hops + 1, omega arith, further p.reaches n),
      All-imp _ _ (λ s r. (r.0, omega (arith, r.1), r.2)) seen p.on_path,
    );
    all_seen = λ d j l w. elim (up_to j hops l) [
      | inl before ↦ ground (arith, p.all_seen d j before w)
      | inr now ↦ ground (arith, (str_eq_iff next d).1 (Along-unique now (further p.reaches n) w))
    ];
    straight = λ (d, j, k, l, m, v, w). elim (up_to k hops m) [
      | inl before ↦ p.straight (d, j, k, l, before, v, w)
      | inr now ↦ seen_not (
          subst (λ x. includes seen x ≡ true) (sym (Along-unique now (further p.reaches n) w))
            (p.all_seen d j (omega (arith, l, m)) v))
    ];
  }
    where
      seen_not : includes seen next ≡ true → ⊥
      seen_not i = cc

  -- What the loop has found so far.
  abbrev Found : ℕ → Text → Option Text → Type 0
  Found hops at found =
      ((found ≡ none) × (hops ≡ 0) × (at ≡ start)) ⊎ ((found ≡ some at) × (1 ≤ hops))

  stopped :
      (hops most : ℕ) (seen : List Text) (at : Text) (found : Option Text)
      → IsPath hops seen at
      → Found hops at found
      → hops ≤ most
      → (hops ≡ most) ⊎ (next_department edges at ≡ none)
      → IsFollowed edges start most (reached found hops)
  stopped hops most seen at found p (inl (f, z, s)) l (inl q) =
      rw f (refl, inl (omega (arith, q, z)))
  stopped hops most seen at found p (inl (f, z, s)) l (inr n) =
      rw f (refl, inr (inl (ap (next_department edges) (sym s) ∙ n)))
  stopped hops most seen at found p (inr (f, one)) l e = rw f (p.reaches, one, l, e, p.straight)

  pub follow-IsFollowed :
      (most left hops : ℕ) (seen : List Text) (at : Text) (found : Option Text)
      → most ≡ hops + left
      → IsPath hops seen at
      → Found hops at found
      → IsFollowed edges start most (follow edges left hops seen at found)
  unfolding follow
  follow-IsFollowed most zero hops seen at found q p f =
      stopped hops most seen at found p f (omega (arith, q)) (inl (omega (arith, q)))
  follow-IsFollowed most (suc left) hops seen at found q p f =
      elim (Option-cases (next_department edges at)) [
        | inl n ↦ rw (n, follow) (stopped hops most seen at found p f (omega (arith, q)) (inr n))
        | inr (next, n) ↦ elim (Bool-cases (includes seen next)) [
          | inl c ↦ rw (n, c, follow) (refl, inr (inr (back next n c)))
          | inr c ↦
              rw (n, c, follow)
                (follow-IsFollowed most left (hops + 1) (next ∷ seen) next (some next)
                  (omega (arith, q)) (IsPath-next hops seen at next p n c)
                  (inr (refl, omega arith)))
        ]
      ]
    where
      back :
          (next : Text)
          → next_department edges at ≡ some next
          → includes seen next ≡ true
          → Circle edges start most
      back next n c =
          let r =
            includes_of_All (λ s. (j : ℕ) × (j ≤ hops) × Along edges start s j) seen next p.on_path
              c in
          (next, r.0, hops + 1, omega (arith, r.1), omega (arith, q), r.2, further p.reaches n)
