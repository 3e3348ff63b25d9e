-- ===== src/Prelude/Strings.antt =====
-- Strings of the source as lists of UTF-16 code units, so that `length`, `<` and `trim` are the
-- language's own. Every literal of the source lies in the basic multilingual plane, where a
-- code unit is the code point.
use Prim.Native.Char.{code}
use Prim.Native.String.{String}
use Prim.Native.Nat.{ℕ, zero, suc, ◌+◌, ◌/◌, ◌%◌}
use mathlib.Core.Path.{◌≡◌, refl, sym, subst, ap, ◌∙◌}
use mathlib.Core.Logic.{◌↔◌, inl, inr}
use mathlib.Core.Bool.{Bool, true, false, not, ◌&&◌, ◌||◌}
use mathlib.Core.List.{List, [], ◌∷◌, ◌++◌, reverse, reverse-append, reverse-reverse}
use native.Mathlib.Omega.{arith}
use virtual_office.Prelude.Tests.{ltb, leb, nat_beq, if◌then◌else◌, Bool-cases}
use virtual_office.Prelude.Equality.{Eq, nat_eq}
use virtual_office.Prelude.Lists.{includes}

abbrev pub Text : Type 0
Text = List ℕ

-- A literal of the source.
unfoldable pub text : String → Text
text String.[] = []
text (String.◌∷◌ c s) = code c ∷ text s

abbrev pub text_beq : Text → Text → Bool
text_beq [] [] = true
text_beq [] (y ∷ ys) = false
text_beq (x ∷ xs) [] = false
text_beq (x ∷ xs) (y ∷ ys) = nat_beq x y && text_beq xs ys

text_beq→eq : (s t : Text) → text_beq s t ≡ true → s ≡ t
text_beq→eq [] [] h = refl
text_beq→eq [] (y ∷ ys) h = cc
text_beq→eq (x ∷ xs) [] h = cc
text_beq→eq (x ∷ xs) (y ∷ ys) h = ground (arith, text_beq→eq xs ys)

text_beq_self : (s : Text) → text_beq s s ≡ true
text_beq_self [] = refl
text_beq_self (x ∷ xs) = ground (arith, text_beq_self xs)

pub text_beq_iff : (s t : Text) → (text_beq s t ≡ true) ↔ (s ≡ t)
text_beq_iff s t = (text_beq→eq s t, λ e. rw e (text_beq_self t))

-- Shut, so that a comparison of two texts is one test to the tactics.
unfoldable pub str_eq : Text → Text → Bool
str_eq s t = text_beq s t

pub str_eq_iff : (s t : Text) → (str_eq s t ≡ true) ↔ (s ≡ t)
unfolding str_eq
str_eq_iff s t = text_beq_iff s t

instance abbrev pub text_eq : Eq Text
text_eq = record { beq = str_eq; beq_iff = str_eq_iff }

-- `a < b`: by code units, a proper prefix first.
unfoldable pub str_lt : Text → Text → Bool
str_lt s [] = false
str_lt [] (y ∷ ys) = true
str_lt (x ∷ xs) (y ∷ ys) = let rest = str_lt xs ys in if nat_beq x y then rest else ltb x y

pub str_lt_irrefl : (s : Text) → str_lt s s ≡ false
unfolding str_lt
str_lt_irrefl [] = refl
str_lt_irrefl (x ∷ xs) = ground (arith, str_lt_irrefl xs)

pub str_lt_asym : (s t : Text) → str_lt s t ≡ true → str_lt t s ≡ false
unfolding str_lt
str_lt_asym s [] h = cc
str_lt_asym [] (y ∷ ys) h = refl
str_lt_asym (x ∷ xs) (y ∷ ys) h = ground (arith, str_lt_asym xs ys)

pub str_lt_total : (s t : Text) → str_lt s t ≡ false → str_lt t s ≡ false → s ≡ t
unfolding str_lt
str_lt_total [] [] h k = refl
str_lt_total [] (y ∷ ys) h k = cc
str_lt_total (x ∷ xs) [] h k = cc
str_lt_total (x ∷ xs) (y ∷ ys) h k = ground (arith, str_lt_total xs ys)

pub str_lt_negtrans : (s t u : Text) → str_lt s t ≡ false → str_lt t u ≡ false → str_lt s u ≡ false
unfolding str_lt
str_lt_negtrans s t [] h k = refl
str_lt_negtrans [] [] (z ∷ zs) h k = cc
str_lt_negtrans [] (y ∷ ys) (z ∷ zs) h k = cc
str_lt_negtrans (x ∷ xs) [] (z ∷ zs) h k = cc
str_lt_negtrans (x ∷ xs) (y ∷ ys) (z ∷ zs) h k = ground (arith, str_lt_negtrans xs ys zs)

-- The white space and line ends that `trim` strips.
is_space : ℕ → Bool
is_space c =
    includes (0x09 ∷ 0x0A ∷ 0x0B ∷ 0x0C ∷ 0x0D ∷ 0x20 ∷ 0xA0 ∷ 0x1680 ∷ 0x2028 ∷ 0x2029 ∷ []) c
    || includes (0x202F ∷ 0x205F ∷ 0x3000 ∷ 0xFEFF ∷ []) c
    || (leb 0x2000 c && leb c 0x200A)

trim_start : Text → Text
trim_start [] = []
trim_start (c ∷ s) = let rest = trim_start s in if is_space c then rest else c ∷ s

unfoldable pub trim : Text → Text
unfolding trim_start is_space
trim s = reverse (trim_start (reverse (trim_start s)))

decimal_from : ℕ → ℕ → Text
decimal_from zero n = []
decimal_from (suc fuel) n =
    let more = decimal_from fuel (n / 10) ++ (b'0' + n % 10) ∷ [] in
    if ltb n 10 then (b'0' + n) ∷ [] else more

-- `String(n)` of a number that is natural and below 2 ^ 53; a number has fewer digits than its value.
unfoldable pub decimal : ℕ → Text
unfolding decimal_from
decimal n = decimal_from (suc n) n

unfoldable pub join : Text → List Text → Text
join sep [] = []
join sep (s ∷ []) = s
join sep (s ∷ t ∷ ts) = s ++ sep ++ join sep (t ∷ ts)

trim_test : trim (text "  a b\n") ≡ text "a b"
unfolding trim text
trim_test = refl

decimal_test : decimal 2040 ≡ text "2040"
unfolding decimal text
decimal_test = refl

join_test : join (text ", ") (text "a" ∷ text "b" ∷ []) ≡ text "a, b"
unfolding join text
join_test = refl

-- Trimming again changes nothing.
starts_clean : Text → Bool
starts_clean [] = true
starts_clean (c ∷ s) = not (is_space c)

trim_start-clean : (s : Text) → starts_clean (trim_start s) ≡ true
unfolding trim_start starts_clean
trim_start-clean [] = refl
trim_start-clean (c ∷ s) = elim (Bool-cases (is_space c)) [
  | inl e ↦ rw e (trim_start-clean s)
  | inr e ↦ rw e (rw e refl)
]

clean-trim_start : (s : Text) → starts_clean s ≡ true → trim_start s ≡ s
unfolding trim_start starts_clean
clean-trim_start [] h = refl
clean-trim_start (c ∷ s) h = ground (arith, h)

trim_start_suffix : (s : Text) → (pre : Text) × (pre ++ trim_start s ≡ s)
unfolding trim_start
trim_start_suffix [] = ([], refl)
trim_start_suffix (c ∷ s) = elim (Bool-cases (is_space c)) [
  | inl e ↦ rw e (c ∷ (trim_start_suffix s).0, ap (λ t. c ∷ t) (trim_start_suffix s).1)
  | inr e ↦ rw e ([], refl)
]

clean-append : (v q : Text) → starts_clean (v ++ q) ≡ true → starts_clean v ≡ true
unfolding starts_clean
clean-append [] q h = refl
clean-append (c ∷ v) q h = h

pub trim-trim : (s : Text) → trim (trim s) ≡ trim s
unfolding trim
trim-trim s =
    let u = trim_start s in
    let w = trim_start (reverse u) in
    let (pre, e) = trim_start_suffix (reverse u) in
    let whole : reverse w ++ reverse pre ≡ u =
      sym (reverse-append pre w) ∙ ap reverse e ∙ reverse-reverse u in
    let clean : starts_clean (reverse w) ≡ true =
      clean-append (reverse w) (reverse pre)
        (subst (λ t. starts_clean t ≡ true) (sym whole) (trim_start-clean s)) in
    ap (λ t. reverse (trim_start (reverse t))) (clean-trim_start (reverse w) clean)
    ∙ ap (λ t. reverse (trim_start t)) (reverse-reverse w)
    ∙ ap reverse (clean-trim_start w (trim_start-clean (reverse u)))
