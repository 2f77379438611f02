-- ===== src/Guardrails/Basic/Verdicts.antt =====
-- What guardrails/basic_guardrail.py decides about every text.
use bedrock_gateway_platform.Base.{◌≡◌, String, true, false, List, [], ◌∷◌, Bool-cases, inl, inr}
use bedrock_gateway_platform.Guardrails.Models.{GuardrailDecision}
use bedrock_gateway_platform.Guardrails.Patterns.{Unicode, ssn, credit_card, email}
use bedrock_gateway_platform.Guardrails.Basic.{
  characters, prompt_injection_phrases, personal, injection, cleared, mentions, check_phrases,
  finds, check,
}
use bedrock_gateway_platform.Regex.{Regex}
use bedrock_gateway_platform.Regex.Searching.{Found, search_iff}

-- The first phrase of the list that the text mentions, or none.
pub data FirstPhrase (lowered : String) : List String → GuardrailDecision → Type 0 where
  nowhere : FirstPhrase lowered [] cleared
  here :
      {phrase : String} {phrases : List String}
      → mentions lowered phrase ≡ true
      → FirstPhrase lowered (phrase ∷ phrases) (injection phrase)
  later :
      {phrase : String} {phrases : List String} {d : GuardrailDecision}
      → mentions lowered phrase ≡ false
      → FirstPhrase lowered phrases d
      → FirstPhrase lowered (phrase ∷ phrases) d

module _ (unicode : Unicode) where
  abbrev pub Holds : Regex → String → Type 0
  Holds pattern text = Found unicode.is_word pattern (characters text)

  -- The decision that the patterns and phrases demand, the first one that applies.
  pub data Verdict (text : String) : GuardrailDecision → Type 0 where
    holds_ssn : Holds (ssn unicode) text → Verdict text (personal "possible SSN detected")
    holds_card :
        (Holds (ssn unicode) text → ⊥)
        → Holds (credit_card unicode) text
        → Verdict text (personal "possible credit card number detected")
    holds_email :
        (Holds (ssn unicode) text → ⊥)
        → (Holds (credit_card unicode) text → ⊥)
        → Holds email text
        → Verdict text (personal "email address detected")
    impersonal :
        {d : GuardrailDecision}
        → (Holds (ssn unicode) text → ⊥)
        → (Holds (credit_card unicode) text → ⊥)
        → (Holds email text → ⊥)
        → FirstPhrase (unicode.lower text) prompt_injection_phrases d
        → Verdict text d

  finds-Holds : (r : Regex) (text : String) → finds unicode r text ≡ true → Holds r text
  finds-Holds r text = (search_iff unicode.is_word r (characters text)).0

  finds-not_Holds : (r : Regex) (text : String) → finds unicode r text ≡ false → Holds r text → ⊥
  finds-not_Holds r text h f = cc (h, (search_iff unicode.is_word r (characters text)).1 f)

  check_phrases-FirstPhrase :
      (phrases : List String) (lowered : String)
      → FirstPhrase lowered phrases (check_phrases phrases lowered)
  unfolding check_phrases
  check_phrases-FirstPhrase [] lowered = nowhere
  check_phrases-FirstPhrase (phrase ∷ phrases) lowered =
      elim (Bool-cases (mentions lowered phrase)) [
        | inl yes_ ↦ rw yes_ (here yes_)
        | inr no_ ↦ rw no_ (later no_ (check_phrases-FirstPhrase phrases lowered))
      ]

  -- The check is complete and exact on every text: it blocks for an SSN, a credit card number or an
  -- email address exactly if the text holds a match of that pattern and of none of those tried before
  -- it, and otherwise decides by the first denylisted phrase that the lowered text mentions, clearing
  -- the text if there is none.
  pub check-Verdict : (text : String) → Verdict text (check unicode text)
  unfolding check
  check-Verdict text =
      let by = finds unicode in
      elim (Bool-cases (by (ssn unicode) text)) [
        | inl yes_ ↦ rw yes_ (holds_ssn (finds-Holds (ssn unicode) text yes_))
        | inr no1 ↦ rw no1 (elim (Bool-cases (by (credit_card unicode) text)) [
          | inl yes_ ↦ rw yes_ (
              holds_card (finds-not_Holds (ssn unicode) text no1)
                (finds-Holds (credit_card unicode) text yes_))
          | inr no2 ↦ rw no2 (elim (Bool-cases (by email text)) [
            | inl yes_ ↦ rw yes_ (
                holds_email (finds-not_Holds (ssn unicode) text no1)
                  (finds-not_Holds (credit_card unicode) text no2) (finds-Holds email text yes_))
            | inr no3 ↦ rw no3 (
                impersonal (finds-not_Holds (ssn unicode) text no1)
                  (finds-not_Holds (credit_card unicode) text no2) (finds-not_Holds email text no3)
                  (check_phrases-FirstPhrase prompt_injection_phrases (unicode.lower text)))
          ])
        ])
      ]
