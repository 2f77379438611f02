-- ===== src/Regex/Searching.antt =====
-- `search` of Python's `re` finds a match exactly where the text holds one.
use Prim.Native.Char.{Char}
use bedrock_gateway_platform.Base.{
  ◌≡◌, refl, ap, ◌⊎◌, inl, inr, Bool, true, false, ◌||◌, ◌↔◌, Option, none, some, Option-cases,
  List, [], ◌∷◌, ◌++◌,
}
use bedrock_gateway_platform.Regex.{Regex, Cursor, match_at, is_some, search_from, search}
use bedrock_gateway_platform.Regex.Matching.{Matches, match_at-Matches, match_at-is_some}

-- The last character of a text, after `b` if it is empty.
abbrev pub last_or : Option Char → List Char → Option Char
last_or b [] = b
last_or b (x ∷ s) = last_or (some x) s

module _ (w : Char → Bool) (r : Regex) where
  -- A part of the text that the pattern matches: it starts after the skipped characters.
  pub record FoundFrom (b : Option Char) (text : List Char) : Type 0 where
    pub skipped : List Char
    pub rest : List Char
    pub end : Cursor
    pub splits : text ≡ skipped ++ rest
    pub matches : Matches w r (last_or b skipped, rest) end

  abbrev pub Found : List Char → Type 0
  Found text = FoundFrom none text

  or-eq-true : (a b : Bool) → (a || b) ≡ true → (a ≡ true) ⊎ (b ≡ true)
  or-eq-true true b h = inl refl
  or-eq-true false b h = inr h

  found_here :
      (b : Option Char) (text : List Char)
      → is_some (match_at w r (b, text)) ≡ true
      → FoundFrom b text
  found_here b text h = elim (Option-cases (match_at w r (b, text))) [
    | inl none_ ↦ cc (rw none_ at h)
    | inr (d, some_) ↦ record {
      skipped = [];
      rest = text;
      end = d;
      splits = refl;
      matches = match_at-Matches w r (b, text) d some_;
    }
  ]

  search-FoundFrom :
      (b : Option Char) (text : List Char) → search_from w r (b, text) ≡ true → FoundFrom b text
  unfolding search_from
  search-FoundFrom b [] h = found_here b [] h
  search-FoundFrom b (x ∷ s) h = elim (or-eq-true _ _ h) [
    | inl here ↦ found_here b (x ∷ s) here
    | inr later ↦
        let f = search-FoundFrom (some x) s later in
        record {
          skipped = x ∷ f.skipped;
          rest = f.rest;
          end = f.end;
          splits = ap (◌∷◌ x) f.splits;
          matches = f.matches;
        }
  ]

  search_here :
      (b : Option Char) (text : List Char)
      → is_some (match_at w r (b, text)) ≡ true
      → search_from w r (b, text) ≡ true
  unfolding search_from
  search_here b [] h = h
  search_here b (x ∷ s) h = rw h refl

  or_true : (a : Bool) → (a || true) ≡ true
  or_true true = refl
  or_true false = refl

  search_later :
      (skipped rest : List Char) (b : Option Char) (end : Cursor)
      → Matches w r (last_or b skipped, rest) end
      → search_from w r (b, skipped ++ rest) ≡ true
  unfolding search_from
  search_later [] rest b end m = search_here b rest (match_at-is_some w r (b, rest) end m)
  search_later (x ∷ s) rest b end m = rw (search_later s rest (some x) end m) (or_true _)

  pub search_iff : (text : List Char) → (search w r text ≡ true) ↔ Found text
  search_iff text = (
    search-FoundFrom none text,
    λ f. rw f.splits (search_later f.skipped f.rest none f.end f.matches),
  )
