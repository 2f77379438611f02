-- ===== src/Config/Numbers.antt =====
-- Python's `int(s)` for a text of ASCII characters, with which services/gateway/config.py and
-- policy/store.py read whole numbers.
use bedrock_gateway_platform.Base.{
  ℕ, zero, suc, ◌+◌, ◌-◌, ◌*◌, ◌≡◌, refl, String, Bool, true, false, ◌&&◌, Option, none, some, List,
  [], ◌∷◌, leb, nat_eq, ◌==◌, if◌then◌else◌,
}
use bedrock_gateway_platform.Base.Int.{ℤ, pos, negsuc}
use bedrock_gateway_platform.Base.Text.{codes, strip}

abbrev pub is_digit : ℕ → Bool
is_digit c = leb 48 c && leb c 57

-- The digits after those that gave `n`. An underscore may stand between two digits; `closed` says that
-- the last character was a digit.
unfoldable pub digits : ℕ → Bool → List ℕ → Option ℕ
digits n true [] = some n
digits n false [] = none
digits n closed (c ∷ s) = elim (is_digit c) [
  | true ↦ digits (10 * n + (c - 48)) true s
  | false ↦ elim (closed && (c == 95)) [ true ↦ digits n false s | false ↦ none ]
]

abbrev pub negated : ℕ → ℤ
negated zero = pos 0
negated (suc n) = negsuc n

abbrev pub plus : Option ℕ → Option ℤ
plus none = none
plus (some n) = some (pos n)

abbrev pub minus : Option ℕ → Option ℤ
minus none = none
minus (some n) = some (negated n)

abbrev pub signed : List ℕ → Option ℤ
signed [] = none
signed (c ∷ s) =
    if c == 45
    then minus (digits 0 false s)
    else if c == 43
    then plus (digits 0 false s)
    else plus (digits 0 false (c ∷ s))

-- Nothing where `int` raises ValueError.
unfoldable pub int_of : String → Option ℤ
int_of s = signed (strip (codes s))

int_of_examples :
    (int_of " -32_000" ≡ some (negsuc 31999)) × (int_of "8_" ≡ none) × (int_of "3.5" ≡ none)
unfolding int_of digits
int_of_examples = (refl, refl, refl)
