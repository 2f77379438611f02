-- ===== src/Guardrails/Basic/Branches.antt =====
-- Which branch of guardrails/basic_guardrail.py has decided.
use bedrock_gateway_platform.Base.{
  ◌≡◌, refl, ap, String, Bool, true, false, Option, none, some, List, [], ◌∷◌, Bool-cases,
  string_eq, ◌==◌, ==_iff, inl, inr, if◌then◌else◌,
}
use bedrock_gateway_platform.Guardrails.Models.{GuardrailDecision}
use bedrock_gateway_platform.Guardrails.Basic.{personal, injection, mentions, check_phrases}

abbrev text_of : Option String → String
text_of none = ""
text_of (some s) = s

texts_differ : (s t : String) → (s == t) ≡ false → s ≡ t → ⊥
texts_differ s t h e = cc (h, (==_iff s t).1 e)

abbrev pub ssn_decision : GuardrailDecision
ssn_decision = personal "possible SSN detected"

injection_not_ssn : (phrase : String) → injection phrase ≡ ssn_decision → ⊥
injection_not_ssn phrase h =
    texts_differ "PROMPT_INJECTION" "PII" refl (ap (λ d. text_of d.category) h)

pub phrase_not_ssn :
    (phrases : List String) (lowered : String) → check_phrases phrases lowered ≡ ssn_decision → ⊥
unfolding check_phrases
phrase_not_ssn [] lowered h = texts_differ "" "PII" refl (ap (λ d. text_of d.category) h)
phrase_not_ssn (phrase ∷ phrases) lowered h = elim (Bool-cases (mentions lowered phrase)) [
  | inl yes_ ↦ injection_not_ssn phrase (rw yes_ at h)
  | inr no_ ↦ phrase_not_ssn phrases lowered (rw no_ at h)
]

pub other_branches :
    (card mail : Bool) {rest : GuardrailDecision}
    → (rest ≡ ssn_decision → ⊥)
    → (if card
        then personal "possible credit card number detected"
        else if mail
        then personal "email address detected"
        else rest)
      ≡ ssn_decision
    → ⊥
other_branches true mail k h =
    texts_differ "possible credit card number detected" "possible SSN detected" refl
      (ap (λ d. text_of d.reason) h)
other_branches false true k h =
    texts_differ "email address detected" "possible SSN detected" refl
      (ap (λ d. text_of d.reason) h)
other_branches false false k h = k h

pub first_branch :
    (found : Bool) (d rest : GuardrailDecision)
    → (if found then d else rest) ≡ ssn_decision
    → (rest ≡ ssn_decision → ⊥)
    → found ≡ true
first_branch true d rest h k = refl
first_branch false d rest h k = absurd (k h)
