-- ===== src/Guardrails/Basic/Spelling.antt =====
-- Runs of one-character patterns of guardrails/basic_guardrail.py, as lists of tests.
use Prim.Native.Char.{Char}
use mathlib.Core.List.{append_assoc}
use bedrock_gateway_platform.Base.{
  ℕ, zero, suc, ◌≡◌, refl, ap, Bool, true, Option, some, List, [], ◌∷◌, ◌++◌, string_eq,
}
use bedrock_gateway_platform.Regex.{Cursor}
use bedrock_gateway_platform.Regex.Matching.{Takes, Times}
use bedrock_gateway_platform.Regex.Searching.{last_or}

abbrev pub Tests : Type 0
Tests = List (Char → Bool)

-- The characters pass the tests, one by one.
abbrev pub Spells : Tests → List Char → Type 0
Spells [] [] = Unit {0}
Spells [] (x ∷ xs) = ⊥
Spells (p ∷ ps) [] = ⊥
Spells (p ∷ ps) (x ∷ xs) = (p x ≡ true) × Spells ps xs

pub Spells-append :
    (ps qs : Tests) (xs ys : List Char) → Spells ps xs → Spells qs ys → Spells (ps ++ qs) (xs ++ ys)
Spells-append [] qs [] ys h k = k
Spells-append [] qs (x ∷ xs) ys h k = absurd h
Spells-append (p ∷ ps) qs [] ys h k = absurd h
Spells-append (p ∷ ps) qs (x ∷ xs) ys h k = (h.0, Spells-append ps qs xs ys h.1 k)

pub last_or-append :
    (b : Option Char) (xs ys : List Char) → last_or b (xs ++ ys) ≡ last_or (last_or b xs) ys
last_or-append b [] ys = refl
last_or-append b (x ∷ xs) ys = last_or-append (some x) xs ys

-- The text between two cursors passes the tests.
pub record Passes (ps : Tests) (c d : Cursor) : Type 0 where
  pub taken : List Char
  pub spells : Spells ps taken
  pub rest : c.1 ≡ taken ++ d.1
  pub last : d.0 ≡ last_or c.0 taken

pub Passes-one : (p : Char → Bool) (c d : Cursor) → Takes p c d → Passes (p ∷ []) c d
Passes-one p (b, []) d t = absurd t
Passes-one p (b, x ∷ s) d t =
    rw t.1 (record { taken = x ∷ []; spells = (t.0, tt); rest = refl; last = refl })

pub Passes-append :
    (ps qs : Tests) (c d e : Cursor) → Passes ps c d → Passes qs d e → Passes (ps ++ qs) c e
Passes-append ps qs c d e h k = record {
  taken = h.taken ++ k.taken;
  spells = Spells-append ps qs h.taken k.taken h.spells k.spells;
  rest = rw (append_assoc, ← k.rest) h.rest;
  last = rw (last_or-append, ← h.last) k.last;
}

abbrev pub copies : ℕ → (Char → Bool) → Tests
copies zero p = []
copies (suc n) p = p ∷ copies n p

pub Passes-times :
    (n : ℕ) (p : Char → Bool) (c d : Cursor) → Times n (Takes p) c d → Passes (copies n p) c d
Passes-times zero p c d t = rw t (record { taken = []; spells = tt; rest = refl; last = refl })
Passes-times (suc n) p c e (d, t, ts) =
    Passes-append (p ∷ []) (copies n p) c d e (Passes-one p c d t) (Passes-times n p d e ts)

pub record Parts (ps qs : Tests) (xs : List Char) : Type 0 where
  pub front : List Char
  pub back : List Char
  pub both : xs ≡ front ++ back
  pub front_spells : Spells ps front
  pub back_spells : Spells qs back

Parts-cons :
    (p : Char → Bool) (ps qs : Tests) (x : Char) (xs : List Char)
    → p x ≡ true
    → Parts ps qs xs
    → Parts (p ∷ ps) qs (x ∷ xs)
Parts-cons p ps qs x xs h k = record {
  front = x ∷ k.front;
  back = k.back;
  both = ap (◌∷◌ x) k.both;
  front_spells = (h, k.front_spells);
  back_spells = k.back_spells;
}

pub Spells-Parts : (ps qs : Tests) (xs : List Char) → Spells (ps ++ qs) xs → Parts ps qs xs
Spells-Parts [] qs xs h = record {
  front = [];
  back = xs;
  both = refl;
  front_spells = tt;
  back_spells = h;
}
Spells-Parts (p ∷ ps) qs [] h = absurd h
Spells-Parts (p ∷ ps) qs (x ∷ xs) h = Parts-cons p ps qs x xs h.0 (Spells-Parts ps qs xs h.1)

pub front_then : (xs front back s : List Char) → xs ≡ front ++ back → xs ++ s ≡ front ++ (back ++ s)
front_then xs front back s h = rw h (append_assoc {0} front back s)

pub last_then :
    (b : Option Char) (xs front back : List Char)
    → xs ≡ front ++ back
    → last_or b xs ≡ last_or (last_or b front) back
last_then b xs front back h = rw h (last_or-append b front back)

pub times_of :
    (n : ℕ) (p : Char → Bool) (b : Option Char) (xs s : List Char)
    → Spells (copies n p) xs
    → Times n (Takes p) (b, xs ++ s) (last_or b xs, s)
times_of zero p b [] s h = refl
times_of zero p b (x ∷ xs) s h = absurd h
times_of (suc n) p b [] s h = absurd h
times_of (suc n) p b (x ∷ xs) s h = ((some x, xs ++ s), (h.0, refl), times_of n p (some x) xs s h.1)

pub one_of :
    (p : Char → Bool) (b : Option Char) (xs s : List Char)
    → Spells (p ∷ []) xs
    → Takes p (b, xs ++ s) (last_or b xs, s)
one_of p b [] s h = absurd h
one_of p b (x ∷ []) s h = (h.0, refl)
one_of p b (x ∷ y ∷ xs) s h = absurd h.1
