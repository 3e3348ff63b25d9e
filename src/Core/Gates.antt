-- ===== src/Core/Gates.antt =====
-- packages/core/src/shared/gated-action.ts: the categories of consequential action.
use virtual_office.Prelude.{
  ℕ, zero, suc, ◌≡◌, refl, List, [], ◌∷◌, Option, none, some, Bool, true, ◌↔◌, Eq, beq_iff_of_code,
  nat_beq, Text, text, str_eq, if◌then◌else◌,
}

pub data GatedAction : Type 0 where
  spend external_send deploy delete as_person : GatedAction

abbrev code : GatedAction → ℕ
code spend = 0
code external_send = 1
code deploy = 2
code delete = 3
code as_person = 4

abbrev decode : ℕ → Option GatedAction
decode zero = some spend
decode (suc zero) = some external_send
decode (suc (suc zero)) = some deploy
decode (suc (suc (suc zero))) = some delete
decode (suc (suc (suc (suc n)))) = some as_person

decode-code : (g : GatedAction) → decode (code g) ≡ some g
decode-code spend = refl
decode-code external_send = refl
decode-code deploy = refl
decode-code delete = refl
decode-code as_person = refl

unfoldable pub gate_beq : GatedAction → GatedAction → Bool
gate_beq a b = nat_beq (code a) (code b)

pub gate_beq_iff : (a b : GatedAction) → (gate_beq a b ≡ true) ↔ (a ≡ b)
unfolding gate_beq
gate_beq_iff = beq_iff_of_code code decode decode-code

instance abbrev pub gate_eq : Eq GatedAction
gate_eq = record { beq = gate_beq; beq_iff = gate_beq_iff }

abbrev pub gated_actions : List GatedAction
gated_actions = spend ∷ external_send ∷ deploy ∷ delete ∷ as_person ∷ []

unfoldable pub gate_text : GatedAction → Text
gate_text spend = text "spend"
gate_text external_send = text "external_send"
gate_text deploy = text "deploy"
gate_text delete = text "delete"
gate_text as_person = text "as_person"

-- `isGatedAction`, with the category that the string names.
unfoldable pub gate_of : Text → Option GatedAction
gate_of s =
    if str_eq s (text "spend")
    then some spend
    else (if str_eq s (text "external_send")
        then some external_send
        else (if str_eq s (text "deploy")
            then some deploy
            else (if str_eq s (text "delete")
                then some delete
                else (if str_eq s (text "as_person") then some as_person else none))))

pub gate_of-gate_text : (g : GatedAction) → gate_of (gate_text g) ≡ some g
unfolding gate_of gate_text str_eq text
gate_of-gate_text spend = refl
gate_of-gate_text external_send = refl
gate_of-gate_text deploy = refl
gate_of-gate_text delete = refl
gate_of-gate_text as_person = refl
