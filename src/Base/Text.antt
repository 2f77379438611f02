-- ===== src/Base/Text.antt =====
-- Python's `str` methods that the program calls, over the code points of a text.
use Prim.Native.Nat.{ℕ, zero, suc, ◌+◌, ◌/◌, ◌%◌}
use mathlib.Core.Path.{◌≡◌, refl}
use Prim.Native.Char.{code}
use Prim.Native.String.{String}
use Prim.Native.String
use mathlib.Core.Bool.{Bool, true, false, ◌&&◌, ◌||◌}
use mathlib.Core.List.{List, [], ◌∷◌, map, reverse}
use bedrock_gateway_platform.Base.Tests.{leb, ltb, nat_eq, ◌==◌, if◌then◌else◌}

abbrev pub codes : String → List ℕ
codes String.[] = []
codes (String.◌∷◌ c s) = code c ∷ codes s

-- One character of `str.lower`, for the ASCII letters.
abbrev pub lower_code : ℕ → ℕ
lower_code c = if leb 65 c && leb c 90 then c + 32 else c

abbrev pub lower : List ℕ → List ℕ
lower = map lower_code

-- s.startswith(p)
abbrev pub starts_with : List ℕ → List ℕ → Bool
starts_with s [] = true
starts_with [] (p ∷ ps) = false
starts_with (c ∷ s) (p ∷ ps) = (c == p) && starts_with s ps

-- `p in s`
abbrev pub has_part : List ℕ → List ℕ → Bool
has_part [] p = starts_with [] p
has_part (c ∷ s) p = starts_with (c ∷ s) p || has_part s p

-- An f-string: its literal parts and values, one after another.
abbrev pub f_string : List String → String
f_string [] = ""
f_string (part ∷ parts) = String.◌++◌ part (f_string parts)

-- ", ".join(parts)
abbrev pub join_comma : List String → String
join_comma [] = ""
join_comma (part ∷ []) = part
join_comma (part ∷ next ∷ parts) = f_string (part ∷ ", " ∷ join_comma (next ∷ parts) ∷ [])

-- The code points that `str.strip` removes and that an HTTP header can hold (latin-1).
abbrev pub is_space : ℕ → Bool
is_space c = (leb 9 c && leb c 13) || (leb 28 c && leb c 32) || (c == 133) || (c == 160)

abbrev pub strip_left : List ℕ → List ℕ
strip_left [] = []
strip_left (c ∷ s) = let rest = strip_left s in if is_space c then rest else c ∷ s

abbrev pub strip : List ℕ → List ℕ
strip s = reverse (strip_left (reverse (strip_left s)))

abbrev digit : ℕ → String
digit n =
    if n == 0
    then "0"
    else if n == 1
    then "1"
    else if n == 2
    then "2"
    else if n == 3
    then "3"
    else if n == 4
    then "4"
    else if n == 5
    then "5"
    else if n == 6
    then "6"
    else if n == 7
    then "7"
    else if n == 8
    then "8"
    else "9"

abbrev decimal_from : ℕ → ℕ → String
decimal_from zero n = digit n
decimal_from (suc fuel) n =
    let rest = decimal_from fuel (n / 10) in
    if ltb n 10 then digit n else String.◌++◌ rest (digit (n % 10))

-- str(n); the fuel `n` is more than the number of digits.
abbrev pub decimal : ℕ → String
decimal n = decimal_from n n

three_digits : decimal 407 ≡ "407"
three_digits = refl
