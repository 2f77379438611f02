-- ===== src/Guardrails/Basic/Numbers.antt =====
-- What guardrails/basic_guardrail.py takes for a social security number, in terms of the text alone.
use Prim.Native.Char.{Char}
use bedrock_gateway_platform.Base.{
  ◌≡◌, refl, ap, ◌∙◌, ◌↔◌, String, true, false, Option, none, List, [], ◌∷◌, ◌++◌, string_eq,
}
use bedrock_gateway_platform.Guardrails.Patterns.{Unicode, ssn, credit_card, email, is_hyphen}
use bedrock_gateway_platform.Guardrails.Basic.{
  characters, prompt_injection_phrases, personal, check, finds,
}
use bedrock_gateway_platform.Regex.{Cursor, word_before, word_after, at_boundary}
use bedrock_gateway_platform.Regex.Matching.{Matches}
use bedrock_gateway_platform.Regex.Searching.{Found, last_or, search_iff}
use bedrock_gateway_platform.Guardrails.Basic.Spelling.{
  Tests, Spells, Passes, Passes-one, Passes-append, copies, Passes-times, Spells-Parts, front_then,
  last_then, times_of, one_of,
}
use bedrock_gateway_platform.Guardrails.Basic.Edges.{
  begins_with_word, ends_with_word, boundary_before_word, boundary_after_word, boundary_at_word,
  boundary_past_word,
}
use bedrock_gateway_platform.Guardrails.Basic.Branches.{
  phrase_not_ssn, other_branches, first_branch,
}

-- Three digits, a hyphen, two digits, a hyphen, four digits.
module _ (unicode : Unicode) where
  open unicode use {is_digit, is_word}

  abbrev pub ssn_shape : Tests
  ssn_shape =
      copies 3 is_digit
      ++ (is_hyphen ∷ [])
      ++ copies 2 is_digit
      ++ (is_hyphen ∷ [])
      ++ copies 4 is_digit

  -- The text holds such a number, with no word character right before or after it.
  pub record ContainsSsn (text : List Char) : Type 0 where
    pub before : List Char
    pub number : List Char
    pub after : List Char
    pub splits : text ≡ before ++ (number ++ after)
    pub spells : Spells ssn_shape number
    pub free_before : word_before is_word (last_or none before) ≡ false
    pub free_after : word_after is_word after ≡ false

  module _ (digit_is_word : (x : Char) → is_digit x ≡ true → is_word x ≡ true) where
    ContainsSsn-Passes :
        (text skipped : List Char) (c d : Cursor)
        → text ≡ skipped ++ c.1
        → c.0 ≡ last_or none skipped
        → at_boundary is_word c ≡ true
        → at_boundary is_word d ≡ true
        → Passes ssn_shape c d
        → ContainsSsn text
    ContainsSsn-Passes text skipped c d q l first second h = record {
      before = skipped;
      number = h.taken;
      after = d.1;
      splits = q ∙ ap (λ s. skipped ++ s) h.rest;
      spells = h.spells;
      free_before = rw (← l) (
          boundary_before_word is_word c.0 c.1
            (rw h.rest (begins_with_word is_word ssn_shape h.taken d.1 digit_is_word h.spells))
            first);
      free_after =
          boundary_after_word is_word d.0 d.1
            (rw h.last (ends_with_word is_word ssn_shape h.taken c.0 digit_is_word h.spells))
            second;
    }

    Holds→ContainsSsn : (text : List Char) → Found is_word (ssn unicode) text → ContainsSsn text
    Holds→ContainsSsn text f =
        let (c1, (first, q1), (c2, t3, (c3, h1, (c4, t2, (c5, h2, (c6, t4, (second, q6))))))) =
          f.matches in
        let start : Cursor = (last_or none f.skipped, f.rest) in
        let digits3 = Passes-times 3 is_digit start c2 (rw q1 at t3) in
        let hyphen1 = Passes-one is_hyphen c2 c3 h1 in
        let digits2 = Passes-times 2 is_digit c3 c4 t2 in
        let hyphen2 = Passes-one is_hyphen c4 c5 h2 in
        let digits4 = Passes-times 4 is_digit c5 c6 t4 in
        let to3 = Passes-append _ _ start c2 c3 digits3 hyphen1 in
        let to4 = Passes-append _ _ start c3 c4 to3 digits2 in
        let to5 = Passes-append _ _ start c4 c5 to4 hyphen2 in
        ContainsSsn-Passes text f.skipped start c6 f.splits refl first second
          (Passes-append _ _ start c5 c6 to5 digits4)

    -- The five parts of a number, as the pattern takes them one after another.
    parts_match :
        (b : Option Char) (n3 h1 n2 h2 n4 s : List Char)
        → at_boundary is_word (b, n3 ++ (h1 ++ (n2 ++ (h2 ++ (n4 ++ s))))) ≡ true
        → at_boundary is_word (last_or (last_or (last_or (last_or (last_or b n3) h1) n2) h2) n4, s)
          ≡ true
        → Spells (copies 3 is_digit) n3
        → Spells (is_hyphen ∷ []) h1
        → Spells (copies 2 is_digit) n2
        → Spells (is_hyphen ∷ []) h2
        → Spells (copies 4 is_digit) n4
        → Matches is_word
            (ssn unicode)
            (b, n3 ++ (h1 ++ (n2 ++ (h2 ++ (n4 ++ s)))))
            (last_or (last_or (last_or (last_or (last_or b n3) h1) n2) h2) n4, s)
    parts_match b n3 h1 n2 h2 n4 s first second s3 k1 s2 k2 s4 =
        let b1 = last_or b n3 in
        let b2 = last_or b1 h1 in
        let b3 = last_or b2 n2 in
        let b4 = last_or b3 h2 in
        (
          _,
          (first, refl),
          (
            _,
            times_of 3 is_digit b n3 _ s3,
            (
              _,
              one_of is_hyphen b1 h1 _ k1,
              (
                _,
                times_of 2 is_digit b2 n2 _ s2,
                (
                  _,
                  one_of is_hyphen b3 h2 _ k2,
                  (_, times_of 4 is_digit b4 n4 s s4, (second, refl)),
                ),
              ),
            ),
          ),
        )

    ContainsSsn→Holds : (text : List Char) → ContainsSsn text → Found is_word (ssn unicode) text
    ContainsSsn→Holds text f =
        let p4 =
          Spells-Parts (copies 3 is_digit ++ is_hyphen ∷ [] ++ copies 2 is_digit ++ is_hyphen ∷ [])
            (copies 4 is_digit) f.number f.spells in
        let p3 =
          Spells-Parts (copies 3 is_digit ++ is_hyphen ∷ [] ++ copies 2 is_digit) (is_hyphen ∷ [])
            p4.front p4.front_spells in
        let p2 =
          Spells-Parts (copies 3 is_digit ++ is_hyphen ∷ []) (copies 2 is_digit) p3.front
            p3.front_spells in
        let p1 = Spells-Parts (copies 3 is_digit) (is_hyphen ∷ []) p2.front p2.front_spells in
        let b = last_or none f.before in
        let whole : f.number ++ f.after
            ≡ p1.front ++ (p1.back ++ (p2.back ++ (p3.back ++ (p4.back ++ f.after)))) =
          front_then f.number p4.front p4.back f.after p4.both
          ∙ front_then p4.front p3.front p3.back _ p3.both
          ∙ front_then p3.front p2.front p2.back _ p2.both
          ∙ front_then p2.front p1.front p1.back _ p1.both in
        let last_of : last_or b f.number
            ≡ last_or (last_or (last_or (last_or (last_or b p1.front) p1.back) p2.back) p3.back)
                p4.back =
          last_then b f.number p4.front p4.back p4.both
          ∙ ap (λ x. last_or x p4.back)
              (last_then b p4.front p3.front p3.back p3.both
                ∙ ap (λ x. last_or x p3.back)
                    (last_then b p3.front p2.front p2.back p2.both
                      ∙ ap (λ x. last_or x p2.back)
                          (last_then b p2.front p1.front p1.back p1.both))) in
        record {
          skipped = f.before;
          rest = f.number ++ f.after;
          end = (last_or b f.number, f.after);
          splits = f.splits;
          matches =
              rw (whole, last_of)
                (parts_match b p1.front p1.back p2.back p3.back p4.back f.after
                  (rw (← whole) (
                    boundary_at_word is_word b (f.number ++ f.after) f.free_before
                      (begins_with_word is_word ssn_shape f.number f.after digit_is_word f.spells)))
                  (rw (← last_of) (
                    boundary_past_word is_word (last_or b f.number) f.after
                      (ends_with_word is_word ssn_shape f.number b digit_is_word f.spells)
                      f.free_after))
                  p1.front_spells p1.back_spells p2.back_spells p3.back_spells p4.back_spells);
        }

    -- Where digits are word characters, the check answers "possible SSN detected" exactly for the texts
    -- that hold three digits, a hyphen, two digits, a hyphen and four digits with no word character
    -- right before or after them.
    pub check_ssn_iff :
        (text : String)
        → (check unicode text ≡ personal "possible SSN detected") ↔ ContainsSsn (characters text)
    unfolding check
    check_ssn_iff text = (
      (λ h. Holds→ContainsSsn (characters text) (
          (search_iff is_word (ssn unicode) (characters text)).0 (
            first_branch (finds unicode (ssn unicode) text) _ _ h (
              other_branches (finds unicode (credit_card unicode) text) (finds unicode email text)
                (phrase_not_ssn prompt_injection_phrases (unicode.lower text)))))),
      (λ f.
          rw ((search_iff is_word (ssn unicode) (characters text)).1 (ContainsSsn→Holds _ f)) refl),
    )
