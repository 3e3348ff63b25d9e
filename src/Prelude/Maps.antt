-- ===== src/Prelude/Maps.antt =====
-- `Map` and plain records of the source with string keys, in the order of first insertion.
use Prim.Native.Nat.{ℕ, suc, ◌+◌, ◌≤◌}
use mathlib.Core.Path.{◌≡◌, refl}
use mathlib.Core.Bool.{Bool, not}
use mathlib.Core.Option.{Option, none, some}
use mathlib.Core.List.{List, [], ◌∷◌, ◌++◌, map}
use native.Mathlib.Omega.{arith}
use mathlib.Core.Path.{subst}
use mathlib.Core.Logic.{inl, inr}
use virtual_office.Prelude.Tests.{if◌then◌else◌, Bool-cases}
use virtual_office.Prelude.Lists.{length, filter}
use virtual_office.Prelude.Strings.{Text, str_eq, str_eq_iff}

-- A count for each key.
abbrev pub Counts : Type 0
Counts = List (Text × ℕ)

-- `counts[id] ?? 0`
unfoldable pub count_of : Text → Counts → ℕ
count_of id [] = 0
count_of id ((k, n) ∷ cs) = if str_eq k id then n else count_of id cs

-- `counts[id] = (counts[id] ?? 0) + 1`
unfoldable pub bump : Text → Counts → Counts
bump id [] = (id, 1) ∷ []
bump id ((k, n) ∷ cs) = if str_eq k id then (k, suc n) ∷ cs else (k, n) ∷ bump id cs

pub count_of-bump :
    (id k : Text) (cs : Counts)
    → count_of id (bump k cs) ≡ (if str_eq k id then suc (count_of id cs) else count_of id cs)
unfolding count_of bump
count_of-bump id k [] = ground arith
count_of-bump id k ((j, n) ∷ cs) =
    ground (arith, str_eq_iff j k, str_eq_iff j id, str_eq_iff k id, count_of-bump id k cs)

module _ {ℓ} {V : Type ℓ} where
  unfoldable pub lookup : Text → List (Text × V) → Option V
  lookup k [] = none
  lookup k ((j, v) ∷ m) = if str_eq j k then some v else lookup k m

  unfoldable pub put : Text → V → List (Text × V) → List (Text × V)
  put k v [] = (k, v) ∷ []
  put k v ((j, w) ∷ m) = if str_eq j k then (j, v) ∷ m else (j, w) ∷ put k v m

  unfoldable pub remove : Text → List (Text × V) → List (Text × V)
  remove k m = filter (λ (e : Text × V). not (str_eq e.0 k)) m

  abbrev pub values : List (Text × V) → List V
  values m = map (λ (e : Text × V). e.1) m

  pub lookup-put :
      (k j : Text) (v : V) (m : List (Text × V))
      → lookup j (put k v m) ≡ (if str_eq k j then some v else lookup j m)
  unfolding lookup put
  lookup-put k j v [] = refl
  lookup-put k j v ((i, w) ∷ m) =
      ground (arith, str_eq_iff i k, str_eq_iff i j, str_eq_iff k j, lookup-put k j v m)

  -- A sum over the values, where one is put in.
  pub length-filter-put :
      (p : V → Bool) (k : Text) (v : V) (m : List (Text × V))
      → length (filter p (values (put k v m)))
        ≤ length (filter p (values m)) + length (filter p (v ∷ []))
  unfolding put
  length-filter-put p k v [] = ground arith
  length-filter-put p k v ((i, w) ∷ m) = ground (arith, length-filter-put p k v m)

  pub length-put-le :
      (k : Text) (v : V) (m : List (Text × V)) → length (values (put k v m)) ≤ length (values m) + 1
  unfolding put
  length-put-le k v [] = ground arith
  length-put-le k v ((i, w) ∷ m) = ground (arith, length-put-le k v m)

  pub length-filter-sub :
      (p : V → Bool) (q : Text × V → Bool) (m : List (Text × V))
      → length (filter p (values (filter q m))) ≤ length (filter p (values m))
  length-filter-sub p q [] = omega arith
  length-filter-sub p q (e ∷ m) = ground (arith, length-filter-sub p q m)

  pub length-values-sub :
      (q : Text × V → Bool) (m : List (Text × V)) → length (values (filter q m)) ≤ length (values m)
  length-values-sub q [] = omega arith
  length-values-sub q (e ∷ m) = ground (arith, length-values-sub q m)

  -- A new key goes to the end.
  pub put_new :
      (k : Text) (v : V) (m : List (Text × V)) → lookup k m ≡ none → put k v m ≡ m ++ (k, v) ∷ []
  unfolding lookup put
  put_new k v [] h = refl
  put_new k v ((j, w) ∷ m) h = ground (arith, put_new k v m)

  -- No key stands twice.
  abbrev pub IsMap : List (Text × V) → Type ℓ
  IsMap [] = Unit
  IsMap ((k, v) ∷ m) = (lookup k m ≡ none) × IsMap m

  lookup-filter-none :
      (p : Text × V → Bool) (k : Text) (m : List (Text × V))
      → lookup k m ≡ none
      → lookup k (filter p m) ≡ none
  unfolding lookup
  lookup-filter-none p k [] h = refl
  lookup-filter-none p k ((j, v) ∷ m) h = ground (arith, lookup-filter-none p k m)

  pub filter-IsMap : (p : Text × V → Bool) (m : List (Text × V)) → IsMap m → IsMap (filter p m)
  filter-IsMap p [] h = tt
  filter-IsMap p ((k, v) ∷ m) h = elim (Bool-cases (p (k, v))) [
    | inl e ↦ rw e (lookup-filter-none p k m h.0, filter-IsMap p m h.1)
    | inr e ↦ rw e (filter-IsMap p m h.1)
  ]

  pub put-IsMap : (k : Text) (v : V) (m : List (Text × V)) → IsMap m → IsMap (put k v m)
  unfolding put lookup
  put-IsMap k v [] h = (refl, tt)
  put-IsMap k v ((j, w) ∷ m) h = elim (Bool-cases (str_eq j k)) [
    | inl e ↦ rw e h
    | inr e ↦
        rw e
          (ground (arith, lookup-put k j v m, str_eq_iff j k, str_eq_iff k j), put-IsMap k v m h.1)
  ]

  remove-none : (p : V → Bool) (k : Text) (m : List (Text × V)) → lookup k m ≡ none → remove k m ≡ m
  unfolding lookup remove
  remove-none p k [] h = refl
  remove-none p k ((j, v) ∷ m) h = ground (arith, remove-none p k m)

  -- What a key stood for is what removing it takes away.
  pub length-filter-remove :
      (p : V → Bool) (k : Text) (v : V) (m : List (Text × V))
      → IsMap m
      → lookup k m ≡ some v
      → length (filter p (values (remove k m))) + length (filter p (v ∷ []))
        ≡ length (filter p (values m))
  unfolding lookup remove
  length-filter-remove p k v [] h e = cc
  length-filter-remove p k v ((j, w) ∷ m) h e = elim (Bool-cases (str_eq j k)) [
    | inl q ↦ ground (
      arith,
      found (rw q at e),
      remove-none p k m (subst (λ i. lookup i m ≡ none) ((str_eq_iff j k).0 q) h.0),
    )
    | inr q ↦ ground (arith, length-filter-remove p k v m)
  ]
    where
      found : some w ≡ some v → w ≡ v
      found h = cc

  pub length-filter-put_new :
      (p : V → Bool) (k : Text) (v : V) (m : List (Text × V))
      → lookup k m ≡ none
      → length (filter p (values (put k v m)))
        ≡ length (filter p (values m)) + length (filter p (v ∷ []))
  unfolding lookup put
  length-filter-put_new p k v [] h = ground arith
  length-filter-put_new p k v ((j, w) ∷ m) h = ground (arith, length-filter-put_new p k v m)

  pub length-filter-split :
      (p : V → Bool) (a : Text × V → Bool) (m : List (Text × V))
      → length (filter p (values (filter a m)))
          + length (filter p (values (filter (λ e. not (a e)) m)))
        ≡ length (filter p (values m))
  length-filter-split p a [] = omega arith
  length-filter-split p a (e ∷ m) = ground (arith, length-filter-split p a m)
