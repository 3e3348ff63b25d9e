-- ===== src/Task/Validate/Laws.antt =====
-- What the checks of Task/Validate.antt accept.
use virtual_office.Prelude.{
  append-eq-nil, ◌≤◌, ◌≡◌, refl, Bool, false, List, [], ◌∷◌, Text, length, is_empty, any, includes,
  text_eq, str_eq_iff, Distinct, All, Bool-cases, inl, inr, arith,
}
use virtual_office.Core.Result.{ValidationError, error_if}
use virtual_office.Task.Validate.{
  unique_from, unique_ids, validate_title, validate_brief, validate_criteria, bad_criterion,
}

-- No id of the list was seen.
abbrev pub Unseen : List Text → List Text → Type 0
Unseen seen ids = All (λ id. includes seen id ≡ false) ids

pub Unseen-cons :
    (x : Text) (seen ids : List Text)
    → includes ids x ≡ false
    → Unseen seen ids
    → Unseen (x ∷ seen) ids
Unseen-cons x seen [] h u = tt
Unseen-cons x seen (y ∷ ys) h u =
    (ground (arith, u.0, str_eq_iff x y, str_eq_iff y x), Unseen-cons x seen ys (ground arith) u.1)

pub Unseen-uncons :
    (x : Text) (seen ids : List Text)
    → Unseen (x ∷ seen) ids
    → (includes ids x ≡ false) × Unseen seen ids
Unseen-uncons x seen [] u = (refl, tt)
Unseen-uncons x seen (y ∷ ys) u =
    let (h, k) = Unseen-uncons x seen ys u.1 in
    (ground (arith, u.0, h, str_eq_iff x y, str_eq_iff y x), (ground (arith, u.0), k))

unique_from-nil :
    (seen ids : List Text) (path label : Text)
    → unique_from seen ids path label ≡ []
    → Unseen seen ids × Distinct ids
unfolding unique_from
unique_from-nil seen [] path label h = (tt, tt)
unique_from-nil seen (x ∷ xs) path label h = elim (Bool-cases (includes seen x)) [
  | inl dup ↦ absurd (clash (rw dup at h))
  | inr new ↦
      let (u, d) = unique_from-nil (x ∷ seen) xs path label (rw new at h) in
      let (n, u') = Unseen-uncons x seen xs u in ((new, u'), (n, d))
]
  where
    clash : {e : ValidationError} → e ∷ [] ≡ [] → ⊥
    clash q = cc

nil-unique_from :
    (seen ids : List Text) (path label : Text)
    → Unseen seen ids
    → Distinct ids
    → unique_from seen ids path label ≡ []
unfolding unique_from
nil-unique_from seen [] path label u d = refl
nil-unique_from seen (x ∷ xs) path label u d =
    rw u.0 (nil-unique_from (x ∷ seen) xs path label (Unseen-cons x seen xs d.0 u.1) d.1)

pub Unseen-nil : (ids : List Text) → Unseen [] ids
Unseen-nil [] = tt
Unseen-nil (x ∷ xs) = (refl, Unseen-nil xs)

-- `uniqueIds` complains exactly when some id stands twice.
pub unique_ids-iff_Distinct :
    (ids : List Text) (path label : Text)
    → ((unique_ids ids path label ≡ []) → Distinct ids)
      × (Distinct ids → unique_ids ids path label ≡ [])
unfolding unique_ids
unique_ids-iff_Distinct ids path label = (
  λ h. (unique_from-nil [] ids path label h).1,
  λ d. nil-unique_from [] ids path label (Unseen-nil ids) d,
)

pub validate_title-nil :
    (title : Text) → validate_title title ≡ [] → (is_empty title ≡ false) × (length title ≤ 200)
unfolding validate_title
validate_title-nil title h = ground arith

pub validate_brief-nil : (brief : Text) → validate_brief brief ≡ [] → length brief ≤ 20000
unfolding validate_brief
validate_brief-nil brief h = ground arith

pub error_if-nil :
    (test : Bool) (path message : Text) → error_if test path message ≡ [] → test ≡ false
error_if-nil test path message h = ground arith

pub validate_criteria-nil :
    (criteria : List Text)
    → validate_criteria criteria ≡ []
    → (any criteria bad_criterion ≡ false) × Distinct criteria
unfolding validate_criteria
validate_criteria-nil criteria h =
    let (stated, unique) = append-eq-nil _ _ h in
    (error_if-nil _ _ _ stated, (unique_ids-iff_Distinct criteria _ _).0 unique)
