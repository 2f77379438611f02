-- ===== src/Guardrails/Basic/Edges.antt =====
-- Word boundaries at the ends of a number that guardrails/basic_guardrail.py looks for.
use Prim.Native.Char.{Char}
use bedrock_gateway_platform.Base.{
  ◌≡◌, refl, true, false, Bool, Option, some, List, [], ◌∷◌, ◌++◌, Bool-cases, inl, inr,
}
use bedrock_gateway_platform.Regex.{word_before, word_after, at_boundary}
use bedrock_gateway_platform.Regex.Searching.{last_or}
use bedrock_gateway_platform.Guardrails.Basic.Spelling.{Tests, Spells}

module _ (is_word : Char → Bool) where
  abbrev pub BeginsWithWord : Tests → Type 0
  BeginsWithWord [] = ⊥
  BeginsWithWord (p ∷ ps) = (x : Char) → p x ≡ true → is_word x ≡ true

  pub begins_with_word :
      (ps : Tests) (xs s : List Char)
      → BeginsWithWord ps
      → Spells ps xs
      → word_after is_word (xs ++ s) ≡ true
  begins_with_word [] xs s e h = absurd e
  begins_with_word (p ∷ ps) [] s e h = absurd h
  begins_with_word (p ∷ ps) (x ∷ xs) s e h = e x h.0

  abbrev pub EndsInWord : Tests → Type 0
  EndsInWord [] = ⊥
  EndsInWord (p ∷ []) = (x : Char) → p x ≡ true → is_word x ≡ true
  EndsInWord (p ∷ q ∷ ps) = EndsInWord (q ∷ ps)

  pub ends_with_word :
      (ps : Tests) (xs : List Char) (b : Option Char)
      → EndsInWord ps
      → Spells ps xs
      → word_before is_word (last_or b xs) ≡ true
  ends_with_word [] xs b e h = absurd e
  ends_with_word (p ∷ []) [] b e h = absurd h
  ends_with_word (p ∷ []) (x ∷ []) b e h = e x h.0
  ends_with_word (p ∷ []) (x ∷ y ∷ xs) b e h = absurd h.1
  ends_with_word (p ∷ q ∷ ps) [] b e h = absurd h
  ends_with_word (p ∷ q ∷ ps) (x ∷ xs) b e h = ends_with_word (q ∷ ps) xs (some x) e h.1

  pub boundary_before_word :
      (b : Option Char) (s : List Char)
      → word_after is_word s ≡ true
      → at_boundary is_word (b, s) ≡ true
      → word_before is_word b ≡ false
  boundary_before_word b s w h = elim (Bool-cases (word_before is_word b)) [
    | inl yes_ ↦ cc (rw (yes_, w) at h)
    | inr no_ ↦ no_
  ]

  pub boundary_after_word :
      (b : Option Char) (s : List Char)
      → word_before is_word b ≡ true
      → at_boundary is_word (b, s) ≡ true
      → word_after is_word s ≡ false
  boundary_after_word b s w h = elim (Bool-cases (word_after is_word s)) [
    | inl yes_ ↦ cc (rw (w, yes_) at h)
    | inr no_ ↦ no_
  ]

  pub boundary_at_word :
      (b : Option Char) (s : List Char)
      → word_before is_word b ≡ false
      → word_after is_word s ≡ true
      → at_boundary is_word (b, s) ≡ true
  boundary_at_word b s h k = rw (h, k) refl

  pub boundary_past_word :
      (b : Option Char) (s : List Char)
      → word_before is_word b ≡ true
      → word_after is_word s ≡ false
      → at_boundary is_word (b, s) ≡ true
  boundary_past_word b s h k = rw (h, k) refl
