-- ===== src/Prelude/Equality.antt =====
-- `===` of the source on strings, string-literal unions and numbers, as an interface.
use mathlib.Core.Path.{◌≡◌, ap, sym, ◌∙◌}
use mathlib.Core.Logic.{◌↔◌}
use mathlib.Core.Bool.{Bool, true}
use mathlib.Core.Option.{Option, some}
use Prim.Native.Nat.{ℕ}
use virtual_office.Prelude.Tests.{nat_beq, nat_beq_iff}

-- A type whose values `===` compares, and what the answer means.
pub record Eq {ℓ} (Compared : Type ℓ) : Type ℓ where
  pub beq : (x y : Compared) → Bool
  pub beq_iff : (x y : Compared) → (beq x y ≡ true) ↔ (x ≡ y)

-- Equality of enumerations, through an injective numbering.
pub beq_iff_of_code {ℓ} :
    {A : Type ℓ} (code : A → ℕ) (decode : ℕ → Option A)
    → ((a : A) → decode (code a) ≡ some a)
    → (a b : A) → (nat_beq (code a) (code b) ≡ true) ↔ (a ≡ b)
beq_iff_of_code code decode back a b = (
  λ h. injective (sym (back a) ∙ ap decode ((nat_beq_iff (code a) (code b)).0 h) ∙ back b),
  λ e. (nat_beq_iff (code a) (code b)).1 (ap code e),
)
  where
    injective : some a ≡ some b → a ≡ b
    injective e = cc

instance abbrev pub nat_eq : Eq ℕ
nat_eq = record { beq = nat_beq; beq_iff = nat_beq_iff }

infix 50 ◌==◌
abbrev pub ◌==◌ {ℓ} : {Compared : Type ℓ} ⦃eq : Eq Compared⦄ → (x y : Compared) → Bool
◌==◌ ⦃eq⦄ x y = eq.beq x y
