-- ===== src/Graph/Paths.antt =====
-- What `hasPath` finds.
use virtual_office.Prelude.{
  ℕ, zero, suc, ◌+◌, ◌<◌, ◌≤◌, ◌≡◌, refl, subst, ap, ◌↔◌, Bool, true, false, not, ◌||◌, List, [],
  ◌∷◌, some, Text, text_eq, str_eq, str_eq_iff, length, filter, includes, All, or_else, Bool-cases,
  inl, inr, arith,
}
use virtual_office.Core.Connection.{ConnectionKind}
use virtual_office.Graph.Search.{Edge, of_kind, successors, push_all, search, search_fuel, has_path}

-- Reachable along the edges.
pub data Reach (edges : List Edge) : Text → Text → Type 0 where
  here : {a : Text} → Reach edges a a
  step : {a b c : Text} → includes (successors edges a) b ≡ true → Reach edges b c → Reach edges a c

pub Reach_trans :
    {edges : List Edge} {a b c : Text} → Reach edges a b → Reach edges b c → Reach edges a c
Reach_trans here r = r
Reach_trans (step s q) r = step s (Reach_trans q r)

str_eq_self : (s : Text) → str_eq s s ≡ true
str_eq_self s = (str_eq_iff s s).1 refl

pub All_of_includes {κ} :
    (P : Text → Type κ) (xs : List Text) → ((a : Text) → includes xs a ≡ true → P a) → All P xs
All_of_includes P [] h = tt
All_of_includes P (x ∷ xs) h =
    (h x (ground (arith, str_eq_self x)), All_of_includes P xs (λ a m. h a (ground arith)))

includes-push_all :
    (xs stack : List Text) (y : Text)
    → includes (push_all xs stack) y ≡ (includes xs y || includes stack y)
includes-push_all [] stack y = refl
includes-push_all (x ∷ xs) stack y = ground (arith, includes-push_all xs (x ∷ stack) y)

All-push_all {κ} :
    (P : Text → Type κ) (xs stack : List Text) → All P xs → All P stack → All P (push_all xs stack)
All-push_all P [] stack h k = k
All-push_all P (x ∷ xs) stack h k = All-push_all P xs (x ∷ stack) h.1 (h.0, k)

length-push_all : (xs stack : List Text) → length (push_all xs stack) ≡ length xs + length stack
length-push_all [] stack = omega arith
length-push_all (x ∷ xs) stack = omega (arith, length-push_all xs (x ∷ stack))

str_eq_sym : (s t : Text) → str_eq s t ≡ str_eq t s
str_eq_sym s t = elim (Bool-cases (str_eq s t)) [
  | inl q ↦ rw ((str_eq_iff s t).0 q) refl
  | inr q ↦ elim (Bool-cases (str_eq t s)) [
    | inl r ↦ rw ((str_eq_iff t s).0 r) refl
    | inr r ↦ rw (q, r) refl
  ]
]

-- The edges out of what has not been seen.
abbrev unseen : List Edge → List Text → ℕ
unseen edges seen = length (filter (λ (e : Edge). not (includes seen e.from_id)) edges)

unseen-step :
    (edges : List Edge) (seen : List Text) (x : Text)
    → includes seen x ≡ false
    → unseen edges (x ∷ seen) + length (successors edges x) ≡ unseen edges seen
unseen-step [] seen x h = omega arith
unseen-step (e ∷ es) seen x h = elim (Bool-cases (str_eq e.from_id x)) [
  | inl q ↦ ground (
    arith,
    unseen-step es seen x h,
    str_eq_sym x e.from_id,
    q,
    ap (includes seen) ((str_eq_iff e.from_id x).0 q),
  )
  | inr q ↦ ground (arith, unseen-step es seen x h, str_eq_sym x e.from_id, q)
]

search_total :
    (fuel : ℕ) (edges : List Edge) (to : Text) (seen stack : List Text)
    → length stack + unseen edges seen < fuel
    → (found : Bool) × (search fuel edges to seen stack ≡ some found)
unfolding search
search_total zero edges to seen stack h = elim h [ ]
search_total (suc fuel) edges to seen [] h = (false, refl)
search_total (suc fuel) edges to seen (x ∷ stack) h = elim (Bool-cases (str_eq x to)) [
  | inl e ↦ (true, rw (e, search) refl)
  | inr e ↦ elim (Bool-cases (includes seen x)) [
    | inl s ↦
        (let (found, q) = search_total fuel edges to seen stack (omega (arith, h)) in
          (found, rw (e, s, search) q))
    | inr s ↦
        (let (found, q) =
            search_total fuel edges to (x ∷ seen) (push_all (successors edges x) stack) (
              omega (
                arith,
                h,
                unseen-step edges seen x s,
                length-push_all (successors edges x) stack,
              )) in
          (found, rw (e, s, search) q))
  ]
]

search_sound :
    (fuel : ℕ) (edges : List Edge) (from to : Text) (seen stack : List Text)
    → All (λ x. Reach edges from x) stack
    → search fuel edges to seen stack ≡ some true
    → Reach edges from to
unfolding search
search_sound zero edges from to seen stack r h = cc
search_sound (suc fuel) edges from to seen [] r h = cc
search_sound (suc fuel) edges from to seen (x ∷ stack) r h = elim (Bool-cases (str_eq x to)) [
  | inl e ↦ subst (Reach edges from) ((str_eq_iff x to).0 e) r.0
  | inr e ↦ elim (Bool-cases (includes seen x)) [
    | inl s ↦ search_sound fuel edges from to seen stack r.1 (rw (e, s, search) at h)
    | inr s ↦
        search_sound fuel edges from to (x ∷ seen) (push_all (successors edges x) stack)
          (All-push_all _ (successors edges x) stack
            (All_of_includes _ (successors edges x) (λ y m. Reach_trans r.0 (step m here))) r.1)
          (rw (e, s, search) at h)
  ]
]

-- What has been seen leads only to what has been seen or is on the stack.
abbrev Closed : List Edge → List Text → List Text → Type 0
Closed edges seen stack =
    (x y : Text)
    → includes seen x ≡ true
    → includes (successors edges x) y ≡ true
    → (includes seen y || includes stack y) ≡ true

Closed-Reach :
    {edges : List Edge} {x to : Text} (seen : List Text)
    → Closed edges seen []
    → includes seen to ≡ false
    → includes seen x ≡ true
    → Reach edges x to
    → ⊥
Closed-Reach seen c n m here = cc
Closed-Reach seen c n m (step {a} {b} s r) = Closed-Reach seen c n (ground (arith, c a b m s)) r

search_complete :
    (fuel : ℕ) (edges : List Edge) (to : Text) (seen stack : List Text)
    → Closed edges seen stack
    → includes seen to ≡ false
    → search fuel edges to seen stack ≡ some false
    → (x : Text) → (includes seen x || includes stack x) ≡ true
    → Reach edges x to
    → ⊥
unfolding search
search_complete zero edges to seen stack c n h x m r = cc
search_complete (suc fuel) edges to seen [] c n h x m r =
    Closed-Reach seen c n (ground (arith, m)) r
search_complete (suc fuel) edges to seen (y ∷ stack) c n h x m r = elim (Bool-cases (str_eq y to)) [
  | inl e ↦ absurd (not_found (rw (e, search) at h))
  | inr e ↦ elim (Bool-cases (includes seen y)) [
    | inl s ↦
        search_complete fuel edges to seen stack (λ a b p q. keep s b (c a b p q)) n
          (rw (e, s, search) at h) x (keep s x m) r
    | inr s ↦
        search_complete fuel edges to (y ∷ seen) (push_all (successors edges y) stack) (closes s)
          (ground (arith, n, e)) (rw (e, s, search) at h) x
          (ground (arith, m, includes-push_all (successors edges y) stack x)) r
  ]
]
  where
    keep :
        includes seen y ≡ true
        → (b : Text) → (includes seen b || (str_eq y b || includes stack b)) ≡ true
        → (includes seen b || includes stack b) ≡ true
    keep s b q = elim (Bool-cases (str_eq y b)) [
      | inl e ↦ ground (arith, s, ap (includes seen) ((str_eq_iff y b).0 e))
      | inr e ↦ ground (arith, q, e)
    ]

    not_found : some true ≡ some false → ⊥
    not_found e = cc

    closes : includes seen y ≡ false → Closed edges (y ∷ seen) (push_all (successors edges y) stack)
    closes s a b p q = elim (Bool-cases (str_eq y a)) [
      | inl e ↦ ground (
        arith,
        includes-push_all (successors edges y) stack b,
        q,
        ap (λ z. includes (successors edges z) b) ((str_eq_iff y a).0 e),
      )
      | inr e ↦
          ground
            (arith, includes-push_all (successors edges y) stack b, c a b (ground (arith, p, e)) q)
    ]

-- A path of the kind: what `hasPath` asks for.
abbrev pub HasPath : List Edge → ConnectionKind → Text → Text → Type 0
HasPath edges kind from to = Reach (of_kind kind edges) from to

-- `hasPath` ends whatever the arrows, cycles included, and answers true exactly when there is a
-- path of edges of the kind.
pub has_path_iff :
    (edges : List Edge) (kind : ConnectionKind) (from to : Text)
    → ((found : Bool) × (search
            (search_fuel (of_kind kind edges))
            (of_kind kind edges)
            to
            []
            (from ∷ [])
          ≡ some found))
      × ((has_path edges kind from to ≡ true) ↔ HasPath edges kind from to)
unfolding has_path
has_path_iff edges kind from to =
    let (found, e) = search_total (search_fuel ks) ks to [] (from ∷ []) enough in
    ((found, e), answer found e)
  where
    ks : List Edge
    ks = of_kind kind edges

    unseen_le : (es : List Edge) → unseen es [] ≤ length es
    unseen_le [] = omega arith
    unseen_le (x ∷ es) = omega (arith, unseen_le es)

    enough : length (from ∷ []) + unseen ks [] < search_fuel ks
    enough = omega (arith, unseen_le ks)

    answer :
        (found : Bool)
        → search (search_fuel ks) ks to [] (from ∷ []) ≡ some found
        → (or_else (search (search_fuel ks) ks to [] (from ∷ [])) false ≡ true) ↔ Reach ks from to
    answer true e =
        (λ h. search_sound (search_fuel ks) ks from to [] (from ∷ []) (here, tt) e, λ r. rw e refl)
    answer false e = (
      λ h. cc (rw e at h),
      λ r. absurd (
          search_complete (search_fuel ks) ks to [] (from ∷ []) (λ x y m. cc) refl e from
            (ground (arith, str_eq_self from)) r),
    )
