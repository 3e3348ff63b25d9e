-- ===== src/Prelude/Sort.antt =====
-- `Array.prototype.sort` with a comparator: stable. `less a b` says that the comparator is
-- negative at (a, b).
use mathlib.Core.Path.{◌≡◌, refl, ap, ◌∙◌}
use mathlib.Core.Logic.{inl, inr}
use mathlib.Core.Bool.{Bool, true, false, ◌||◌}
use mathlib.Core.List.{List, [], ◌∷◌, ◌++◌, Perm}
use mathlib.Core.List.Perm
use native.Mathlib.Omega.{arith}
use virtual_office.Prelude.Tests.{if◌then◌else◌, Bool-cases}
use virtual_office.Prelude.Lists.{All, any}

module _ {ℓ} {A : Type ℓ} (less : A → A → Bool) where
  -- The element stood before the sorted ones, and stays before those that are equal to it.
  unfoldable pub insert : A → List A → List A
  insert x [] = x ∷ []
  insert x (y ∷ ys) = let rest = y ∷ insert x ys in if less y x then rest else x ∷ y ∷ ys

  unfoldable pub sort : List A → List A
  unfolding insert
  sort [] = []
  sort (x ∷ xs) = insert x (sort xs)

  pub insert-perm : (x : A) (ys : List A) → Perm (insert x ys) (x ∷ ys)
  unfolding insert
  insert-perm x [] = Perm.rfl
  insert-perm x (y ∷ ys) = elim (Bool-cases (less y x)) [
    | inl e ↦ rw e (Perm.trans (Perm.cons y (insert-perm x ys)) (Perm.swap x y ys))
    | inr e ↦ rw e Perm.rfl
  ]

  pub sort-perm : (xs : List A) → Perm (sort xs) xs
  unfolding sort
  sort-perm [] = Perm.rfl
  sort-perm (x ∷ xs) = Perm.trans (insert-perm x (sort xs)) (Perm.cons x (sort-perm xs))

  pub insert-All {κ} : (P : A → Type κ) (x : A) (ys : List A) → P x → All P ys → All P (insert x ys)
  unfolding insert
  insert-All P x [] p h = (p, tt)
  insert-All P x (y ∷ ys) p h = elim (Bool-cases (less y x)) [
    | inl e ↦ rw e (h.0, insert-All P x ys p h.1)
    | inr e ↦ rw e (p, h)
  ]

  pub sort-All {κ} : (P : A → Type κ) (xs : List A) → All P xs → All P (sort xs)
  unfolding sort
  sort-All P [] h = tt
  sort-All P (x ∷ xs) h = insert-All P x (sort xs) h.0 (sort-All P xs h.1)

  All-insert {κ} : (P : A → Type κ) (x : A) (ys : List A) → All P (insert x ys) → P x × All P ys
  unfolding insert
  All-insert P x [] h = h
  All-insert P x (y ∷ ys) h = elim (Bool-cases (less y x)) [
    | inl e ↦ let k = rw e at h in let r = All-insert P x ys k.1 in (r.0, (k.0, r.1))
    | inr e ↦ rw e at h
  ]

  pub All-sort {κ} : (P : A → Type κ) (xs : List A) → All P (sort xs) → All P xs
  unfolding sort
  All-sort P [] h = tt
  All-sort P (x ∷ xs) h = let r = All-insert P x (sort xs) h in (r.0, All-sort P xs r.1)

  any-insert : (p : A → Bool) (x : A) (ys : List A) → any (insert x ys) p ≡ (p x || any ys p)
  unfolding insert
  any-insert p x [] = refl
  any-insert p x (y ∷ ys) = elim (Bool-cases (less y x)) [
    | inl e ↦ rw e (ground (arith, any-insert p x ys))
    | inr e ↦ rw e refl
  ]

  pub any-sort : (p : A → Bool) (xs : List A) → any (sort xs) p ≡ any xs p
  unfolding sort
  any-sort p [] = refl
  any-sort p (x ∷ xs) = any-insert p x (sort xs) ∙ ap (λ b. p x || b) (any-sort p xs)

  insert-append_last :
      (y x : A) (zs : List A) → less x y ≡ false → insert y (zs ++ x ∷ []) ≡ insert y zs ++ x ∷ []
  unfolding insert
  insert-append_last y x [] h = rw h refl
  insert-append_last y x (z ∷ zs) h = elim (Bool-cases (less z y)) [
    | inl e ↦ rw (e, insert-append_last y x zs h) refl
    | inr e ↦ rw e refl
  ]

  -- An element that comes before none of those in front of it stays last.
  pub sort-append_last :
      (x : A) (xs : List A)
      → All (λ y. less x y ≡ false) xs
      → sort (xs ++ x ∷ []) ≡ sort xs ++ x ∷ []
  unfolding sort
  sort-append_last x [] h = refl
  sort-append_last x (y ∷ ys) h =
      rw (sort-append_last x ys h.1) (insert-append_last y x (sort ys) h.0)

  -- No later element comes before an earlier one.
  abbrev pub IsSorted : List A → Type 0
  IsSorted [] = Unit
  IsSorted (x ∷ xs) = All (λ y. less y x ≡ false) xs × IsSorted xs

  module _ (asym : (a b : A) → less a b ≡ true → less b a ≡ false)
      (negtrans : (a b c : A) → less a b ≡ false → less b c ≡ false → less a c ≡ false) where
    above :
        (x y : A) (ys : List A)
        → less y x ≡ false
        → All (λ z. less z y ≡ false) ys
        → All (λ z. less z x ≡ false) ys
    above x y [] h k = tt
    above x y (z ∷ zs) h k = (negtrans z y x k.0 h, above x y zs h k.1)

    pub insert-IsSorted : (x : A) (ys : List A) → IsSorted ys → IsSorted (insert x ys)
    unfolding insert
    insert-IsSorted x [] s = (tt, tt)
    insert-IsSorted x (y ∷ ys) s = elim (Bool-cases (less y x)) [
      | inl e ↦ rw e (insert-All _ x ys (asym y x e) s.0, insert-IsSorted x ys s.1)
      | inr e ↦ rw e ((e, above x y ys e s.0), s)
    ]

    pub sort-IsSorted : (xs : List A) → IsSorted (sort xs)
    unfolding sort
    sort-IsSorted [] = tt
    sort-IsSorted (x ∷ xs) = insert-IsSorted x (sort xs) (sort-IsSorted xs)
