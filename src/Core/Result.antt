-- ===== src/Core/Result.antt =====
-- packages/core/src/shared/result.ts: expected failures as values.
use virtual_office.Prelude.{
  ◌≡◌, refl, subst, Bool, true, false, List, [], ◌∷◌, ◌++◌, map, Text, text, is_empty,
  if◌then◌else◌,
}

pub record ValidationError : Type 0 where
  pub path : Text
  pub message : Text

-- `Result<T>`, whose errors are those of validation.
pub data Result {ℓ} (Value : Type ℓ) : Type ℓ where
  ok : (value : Value) → Result Value
  err : (errors : List ValidationError) → Result Value

abbrev pub is_ok {ℓ} : {Value : Type ℓ} → Result Value → Bool
is_ok (ok value) = true
is_ok (err errors) = false

-- `if (!r.ok) return r;` and then the rest.
infixl 5 ◌>>=◌
abbrev pub ◌>>=◌ {ℓ κ} :
    {Value : Type ℓ} {Next : Type κ} → Result Value → (Value → Result Next) → Result Next
ok value >>= rest = rest value
err errors >>= rest = err errors

abbrev pub error : Text → Text → List ValidationError
error path message = record { path = path; message = message } ∷ []

-- `if (test) errors.push({ path, message })`
abbrev pub error_if : Bool → Text → Text → List ValidationError
error_if test path message = if test then error path message else []

unfoldable pub prefix_error : Text → ValidationError → ValidationError
prefix_error prefix e = record e {
  path = if is_empty e.path then prefix else prefix ++ text "." ++ e.path;
}

unfoldable pub prefix_errors : Text → List ValidationError → List ValidationError
prefix_errors prefix = map (prefix_error prefix)

-- What a result satisfies when it is one; nothing is said of a failure.
abbrev pub Ensures {ℓ κ} : {A : Type ℓ} → (A → Type κ) → Result A → Type κ
Ensures P (ok a) = P a
Ensures P (err e) = Unit

pub Ensures-bind {ℓ κ μ} :
    {A : Type ℓ} {B : Type κ} (Q : B → Type μ) (m : Result A) (f : A → Result B)
    → ((a : A) → m ≡ ok a → Ensures Q (f a))
    → Ensures Q (m >>= f)
Ensures-bind Q (ok a) f h = h a refl
Ensures-bind Q (err e) f h = tt

-- What the first part ensures is what the rest may rely on.
pub Ensures-then {ℓ κ μ ν} :
    {A : Type ℓ} {B : Type κ} (P : A → Type μ) (Q : B → Type ν) (m : Result A) (f : A → Result B)
    → Ensures P m
    → ((a : A) → P a → Ensures Q (f a))
    → Ensures Q (m >>= f)
Ensures-then P Q (ok a) f p h = h a p
Ensures-then P Q (err e) f p h = tt

-- A test before the result: it is proved on both branches.
pub Ensures-if {ℓ κ} :
    {A : Type ℓ} (P : A → Type κ) (test : Bool) (m n : Result A)
    → (test ≡ true → Ensures P m)
    → (test ≡ false → Ensures P n)
    → Ensures P (if test then m else n)
Ensures-if P true m n h k = h refl
Ensures-if P false m n h k = k refl

pub Ensures-imp {ℓ κ μ} :
    {A : Type ℓ} (P : A → Type κ) (Q : A → Type μ) (m : Result A)
    → ((a : A) → P a → Q a)
    → Ensures P m
    → Ensures Q m
Ensures-imp P Q (ok a) h p = h a p
Ensures-imp P Q (err e) h p = tt

pub Ensures-any {ℓ κ} : {A : Type ℓ} (P : A → Type κ) (m : Result A) → ((a : A) → P a) → Ensures P m
Ensures-any P (ok a) h = h a
Ensures-any P (err e) h = tt

-- A result that ensures P and is `ok a` gives P at a.
pub Ensures-ok {ℓ κ} :
    {A : Type ℓ} (P : A → Type κ) (m : Result A) {a : A} → Ensures P m → m ≡ ok a → P a
Ensures-ok P (ok b) {a} p e = subst P (injective e) p
  where
    injective : ok b ≡ ok a → b ≡ a
    injective q = cc
Ensures-ok P (err x) {a} p e = absurd (refuse e)
  where
    refuse : err x ≡ ok a → ⊥
    refuse q = cc

-- Where a check has found nothing.
pub error_if-nil : (b : Bool) (p m : Text) → error_if b p m ≡ [] → b ≡ false
error_if-nil true p m h = cc
error_if-nil false p m h = refl

pub either-nil :
    (b c : Bool) (p m q n : Text)
    → (if b then error p m else error_if c q n) ≡ []
    → (b ≡ false) × (c ≡ false)
either-nil true c p m q n h = cc
either-nil false c p m q n h = (refl, error_if-nil c q n h)

pub unless-nil : (b : Bool) (p m : Text) → (if b then [] else error p m) ≡ [] → b ≡ true
unless-nil true p m h = refl
unless-nil false p m h = cc
