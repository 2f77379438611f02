-- ===== src/Captures/Redaction.antt =====
-- services/gateway/telemetry/debug_capture.py: `redact`.
use Prim.Native.Char.{Char}
use bedrock_gateway_platform.Base.{String, ◌≡◌, refl, true, none, List, [], ◌∷◌}
use bedrock_gateway_platform.Guardrails.Patterns.{Unicode, ssn, credit_card, email}
use bedrock_gateway_platform.Guardrails.Basic.{characters}
use bedrock_gateway_platform.Regex.{Regex, sub}
use bedrock_gateway_platform.Regex.Replacing.{Replaced, sub-Replaced}
use bedrock_gateway_platform.Regex.Stretches.{consumes}

abbrev pub text_of : List Char → String
text_of [] = ""
text_of (x ∷ s) = String.◌∷◌ x (text_of s)

characters-text_of : (s : List Char) → characters (text_of s) ≡ s
characters-text_of [] = refl
characters-text_of (x ∷ s) = rw (characters-text_of s) refl

module _ (unicode : Unicode) where
  abbrev pub redact_patterns : List (Regex × String)
  redact_patterns =
      (ssn unicode, "[REDACTED_SSN]")
      ∷ (credit_card unicode, "[REDACTED_CARD]")
      ∷ (email, "[REDACTED_EMAIL]")
      ∷ []

  -- The loop over the patterns.
  unfoldable pub redact_all : List (Regex × String) → String → String
  redact_all [] text = text
  redact_all ((pattern, replacement) ∷ rest) text =
      redact_all rest
        (text_of (sub unicode.is_word pattern (characters replacement) (characters text)))

  unfoldable pub redact : String → String
  redact = redact_all redact_patterns

  -- Every match of the pattern in the text is replaced.
  abbrev pub Step : Regex → String → String → String → Type 0
  Step pattern replacement before after =
      Replaced unicode.is_word pattern (characters replacement) (none, characters before)
        (characters after)

  replaced : Regex → String → String → String
  replaced pattern replacement text =
      text_of (sub unicode.is_word pattern (characters replacement) (characters text))

  replaced-Step :
      (pattern : Regex) (replacement text : String)
      → consumes pattern ≡ true
      → Step pattern replacement text (replaced pattern replacement text)
  unfolding replaced
  replaced-Step pattern replacement text h =
      rw characters-text_of
        (sub-Replaced unicode.is_word pattern (characters replacement) (characters text) h)

  -- Redaction replaces all SSNs, then all credit card numbers of what is left, then all email
  -- addresses of what is left. Each time every match is replaced, from left to right, each at the first
  -- place where one starts after the end of the one before, and every other character is kept.
  pub redact-Replaced :
      (text : String)
      → (first : String) × (second : String) × Step (ssn unicode) "[REDACTED_SSN]" text first
        × Step (credit_card unicode) "[REDACTED_CARD]" first second
        × Step email "[REDACTED_EMAIL]" second (redact text)
  unfolding redact redact_all replaced
  redact-Replaced text =
      let first = replaced (ssn unicode) "[REDACTED_SSN]" text in
      let second = replaced (credit_card unicode) "[REDACTED_CARD]" first in
      (
        first,
        second,
        replaced-Step (ssn unicode) "[REDACTED_SSN]" text refl,
        replaced-Step (credit_card unicode) "[REDACTED_CARD]" first refl,
        replaced-Step email "[REDACTED_EMAIL]" second refl,
      )
