-- ===== src/Regex/Replacing.antt =====
-- `sub` of Python's `re`, for patterns that match no empty text.
use Prim.Native.Char.{Char}
use bedrock_gateway_platform.Base.{
  ℕ, zero, suc, ◌-◌, ◌<◌, ◌≤◌, ◌≡◌, refl, ap, inl, inr, Bool, true, Option, none, some,
  Option-cases, List, [], ◌∷◌, ◌++◌, length, length-append, arith,
}
use bedrock_gateway_platform.Regex.{Regex, Cursor, match_at, replace_from, sub}
use bedrock_gateway_platform.Regex.Matching.{match_at-Matches}
use bedrock_gateway_platform.Regex.Searching.{last_or}
use bedrock_gateway_platform.Regex.Stretches.{consumes, Matches-Stretch, Matches-lt}

-- The text with every match replaced: from left to right, each at the first place where one starts,
-- the next after its end.
pub data Replaced (w : Char → Bool) (r : Regex) (replacement : List Char)
    : Cursor → List Char → Type 0 where
  done : {b : Option Char} → Replaced w r replacement (b, []) []
  keep :
      {b : Option Char} {x : Char} {s out : List Char}
      → match_at w r (b, x ∷ s) ≡ none
      → Replaced w r replacement (some x, s) out
      → Replaced w r replacement (b, x ∷ s) (x ∷ out)
  swap :
      {c d : Cursor} {out : List Char} (taken : List Char)
      → match_at w r c ≡ some d
      → c.1 ≡ taken ++ d.1
      → 0 < length taken
      → Replaced w r replacement d out
      → Replaced w r replacement c (replacement ++ out)

module _ (w : Char → Bool) where
  module _ (r : Regex) (replacement : List Char) where
    replace_skips :
        (xs s : List Char) (b : Option Char)
        → replace_from w r replacement (length xs) (b, xs ++ s)
          ≡ replace_from w r replacement 0 (last_or b xs, s)
    unfolding replace_from
    replace_skips [] s b = refl
    replace_skips (x ∷ xs) s b = replace_skips xs s (some x)

    -- After a match the replacement goes on at its end.
    replace_after :
        (b : Option Char) (x : Char) (s : List Char) (d : Cursor) (y : Char) (t : List Char)
        → x ∷ s ≡ (y ∷ t) ++ d.1
        → d.0 ≡ last_or b (y ∷ t)
        → replace_from w r replacement (length s - length d.1) (some x, s)
          ≡ replace_from w r replacement 0 d
    replace_after b x s d y t q l =
        let same : x ≡ y = cc q in
        let rest : s ≡ t ++ d.1 = cc q in
        let count : length s - length d.1 ≡ length t =
          omega (arith, ap length rest, length-append {0} t d.1) in
        rw (count, rest, same, replace_skips, ← l) refl

    matched :
        (b : Option Char) (x : Char) (s : List Char) (d : Cursor) (taken : List Char)
        → match_at w r (b, x ∷ s) ≡ some d
        → x ∷ s ≡ taken ++ d.1
        → d.0 ≡ last_or b taken
        → length d.1 < length (x ∷ s)
        → Replaced w r replacement d (replace_from w r replacement 0 d)
        → Replaced w r replacement
            (b, x ∷ s)
            (replacement ++ replace_from w r replacement (length s - length d.1) (some x, s))
    matched b x s d [] m q l shorter h = absurd (omega (arith, ap length q))
    matched b x s d (y ∷ t) m q l shorter h =
        swap (y ∷ t) m q (omega arith) (rw (replace_after b x s d y t q l) h)

    replace-Replaced :
        (fuel : ℕ) (b : Option Char) (text : List Char)
        → length text ≤ fuel
        → consumes r ≡ true
        → Replaced w r replacement (b, text) (replace_from w r replacement 0 (b, text))
    unfolding replace_from
    replace-Replaced fuel b [] fits c = done
    replace-Replaced zero b (x ∷ s) fits c = absurd (omega arith)
    replace-Replaced (suc fuel) b (x ∷ s) fits c = elim (Option-cases (match_at w r (b, x ∷ s))) [
      | inl nothing ↦
          rw (nothing, replace_from)
            (keep nothing (replace-Replaced fuel (some x) s (omega arith) c))
      | inr (d, found) ↦
          let m = match_at-Matches w r (b, x ∷ s) d found in
          let stretch = Matches-Stretch w r (b, x ∷ s) d m in
          let shorter = Matches-lt w r (b, x ∷ s) d c m in
          rw (found, replace_from)
            (matched b x s d stretch.taken found stretch.splits stretch.last shorter
              (replace-Replaced fuel d.0 d.1 (omega arith) c))
    ]

    -- For a pattern whose form rules out empty matches, `sub` replaces every match, from left to right,
    -- each at the first place where one starts after the end of the one before.
    pub sub-Replaced :
        (text : List Char)
        → consumes r ≡ true
        → Replaced w r replacement (none, text) (sub w r replacement text)
    sub-Replaced text = replace-Replaced (length text) none text (omega arith)
