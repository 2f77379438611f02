-- ===== src/Regex.antt =====
-- The part of Python's `re` that guardrails/basic_guardrail.py and telemetry/debug_capture.py use:
-- greedy backtracking over a text. Nothing that is repeated matches the empty text there.
pub mod Matching
pub mod Searching
pub mod Stretches
pub mod Replacing
use Prim.Native.Char.{Char}
use bedrock_gateway_platform.Base.{
  ℕ, zero, suc, ◌-◌, Bool, true, false, not, ◌&&◌, ◌||◌, Option, none, some, List, [], ◌∷◌, ◌++◌,
  length, if◌then◌else◌,
}

pub data Regex : Type 0 where
  one : (Char → Bool) → Regex
  many : (Char → Bool) → Regex
  boundary : Regex
  then_ : Regex → Regex → Regex
  times : ℕ → Regex → Regex
  up_to : ℕ → Regex → Regex

-- A place in a text: the character before it, and the rest.
abbrev pub Cursor : Type 0
Cursor = Option Char × List Char

-- A matcher tries the ways to match at a cursor, in order, until what follows succeeds; it gives what
-- follows gives.
abbrev pub Matcher : Type 0
Matcher = Cursor → (Cursor → Option Cursor) → Option Cursor

abbrev pub or_else : Option Cursor → Option Cursor → Option Cursor
or_else (some c) other = some c
or_else none other = other

abbrev pub match_one : (Char → Bool) → Matcher
match_one p (b, []) k = none
match_one p (b, x ∷ s) k = if p x then k (some x, s) else none

-- p*
unfoldable pub match_many : (Char → Bool) → Matcher
match_many p (b, []) k = k (b, [])
match_many p (b, x ∷ s) k =
    let more = match_many p (some x, s) k in or_else (if p x then more else none) (k (b, x ∷ s))

-- r{n}
unfoldable pub match_times : ℕ → Matcher → Matcher
match_times zero m c k = k c
match_times (suc n) m c k = m c (λ d. match_times n m d k)

-- r{0,n}
unfoldable pub match_up_to : ℕ → Matcher → Matcher
match_up_to zero m c k = k c
match_up_to (suc n) m c k = or_else (m c (λ d. match_up_to n m d k)) (k c)

abbrev pub is_some : Option Cursor → Bool
is_some none = false
is_some (some c) = true

module _ (is_word : Char → Bool) where
  abbrev pub word_before : Option Char → Bool
  word_before none = false
  word_before (some x) = is_word x

  abbrev pub word_after : List Char → Bool
  word_after [] = false
  word_after (x ∷ s) = is_word x

  -- \b: one side is a word character and the other is not.
  abbrev pub at_boundary : Cursor → Bool
  at_boundary (b, s) = if word_before b then not (word_after s) else word_after s

  unfoldable pub match : Regex → Matcher
  match (one p) c k = match_one p c k
  match (many p) c k = match_many p c k
  match boundary c k = if at_boundary c then k c else none
  match (then_ r s) c k = match r c (λ d. match s d k)
  match (times n r) c k = match_times n (match r) c k
  match (up_to n r) c k = match_up_to n (match r) c k

  -- Where the match ends that starts at the cursor, if there is one.
  abbrev pub match_at : Regex → Cursor → Option Cursor
  match_at r c = match r c some

  -- Whether there is a match at the cursor or after it.
  unfoldable pub search_from : Regex → Cursor → Bool
  search_from r (b, []) = is_some (match_at r (b, []))
  search_from r (b, x ∷ s) = is_some (match_at r (b, x ∷ s)) || search_from r (some x, s)

  -- r.search(text) is not None
  abbrev pub search : Regex → List Char → Bool
  search r text = search_from r (none, text)

  module _ (r : Regex) (replacement : List Char) where
    -- The rest of the text with its matches replaced. The first `inside` characters belong to the match
    -- that was replaced last.
    unfoldable pub replace_from : ℕ → Cursor → List Char
    replace_from inside (b, []) = []
    replace_from (suc inside) (b, x ∷ s) = replace_from inside (some x, s)
    replace_from zero (b, x ∷ s) = elim (match_at r (b, x ∷ s)) [
      | none ↦ x ∷ replace_from zero (some x, s)
      | some (d, rest) ↦ replacement ++ replace_from (length s - length rest) (some x, s)
    ]

    -- r.sub(replacement, text)
    abbrev pub sub : List Char → List Char
    sub text = replace_from zero (none, text)
