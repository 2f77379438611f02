-- ===== src/Guardrails/Patterns.antt =====
-- The patterns of services/gateway/guardrails/basic_guardrail.py; telemetry/debug_capture.py has the
-- same.
use Prim.Native.Char.{Char, code}
use bedrock_gateway_platform.Base.{ℕ, String, Bool, ◌||◌, ◌&&◌, List, [], ◌∷◌, nat_eq, ◌==◌, leb}
use bedrock_gateway_platform.Regex.{Regex, one, many, boundary, then_, times, up_to}

-- What Python reads from its Unicode tables: the characters that `\d` and `\w` stand for, and
-- `str.lower`.
pub record Unicode : Type 0 where
  pub is_digit : Char → Bool
  pub is_word : Char → Bool
  pub lower : String → String

-- The patterns one after another.
abbrev pub concatenation : Regex → List Regex → Regex
concatenation r [] = r
concatenation r (next ∷ rs) = then_ r (concatenation next rs)

abbrev pub between : ℕ → ℕ → ℕ → Bool
between low high c = leb low c && leb c high

abbrev pub is_hyphen : Char → Bool
is_hyphen x = code x == 45

abbrev pub is_dot : Char → Bool
is_dot x = code x == 46

abbrev pub is_at_sign : Char → Bool
is_at_sign x = code x == 64

-- [ -]
abbrev pub is_separator : Char → Bool
is_separator x = (code x == 32) || is_hyphen x

-- [A-Za-z]
abbrev pub is_letter : Char → Bool
is_letter x = between 65 90 (code x) || between 97 122 (code x)

-- [A-Za-z0-9.-]
abbrev pub is_domain : Char → Bool
is_domain x = is_letter x || between 48 57 (code x) || is_dot x || is_hyphen x

-- [A-Za-z0-9._%+-]
abbrev pub is_local : Char → Bool
is_local x = is_domain x || (code x == 95) || (code x == 37) || (code x == 43)

-- r+ for one character
abbrev pub some_of : (Char → Bool) → Regex
some_of p = then_ (one p) (many p)

module _ (unicode : Unicode) where
  open unicode use {is_digit}

  -- \b\d{3}-\d{2}-\d{4}\b
  abbrev pub ssn : Regex
  ssn = concatenation boundary (
      times 3 (one is_digit)
      ∷ one is_hyphen
      ∷ times 2 (one is_digit)
      ∷ one is_hyphen
      ∷ times 4 (one is_digit)
      ∷ boundary
      ∷ [])

  -- \d[ -]?
  abbrev pub card_digit : Regex
  card_digit = then_ (one is_digit) (up_to 1 (one is_separator))

  -- \b(?:\d[ -]?){13,16}\b
  abbrev pub credit_card : Regex
  credit_card = concatenation boundary (times 13 card_digit ∷ up_to 3 card_digit ∷ boundary ∷ [])

-- \b[A-Za-z0-9._%+-]+@[A-Za-z0-9.-]+\.[A-Za-z]{2,}\b
abbrev pub email : Regex
email = concatenation boundary (
    some_of is_local
    ∷ one is_at_sign
    ∷ some_of is_domain
    ∷ one is_dot
    ∷ times 2 (one is_letter)
    ∷ many is_letter
    ∷ boundary
    ∷ [])
