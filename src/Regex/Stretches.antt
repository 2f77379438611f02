-- ===== src/Regex/Stretches.antt =====
-- How much text a match of Python's `re` takes.
use Prim.Native.Char.{Char}
use mathlib.Core.List.{append_assoc}
use bedrock_gateway_platform.Base.{
  ℕ, zero, suc, ◌<◌, ◌≤◌, ◌≡◌, refl, ap, ◌⊎◌, inl, inr, Bool, true, false, ◌||◌, Option, some, List,
  [], ◌∷◌, ◌++◌, length, length-append, arith,
}
use bedrock_gateway_platform.Regex.{Regex, one, many, boundary, then_, times, up_to, Cursor}
use bedrock_gateway_platform.Regex.Matching.{Relation, Takes, TakesMany, Times, UpTo, Matches}
use bedrock_gateway_platform.Regex.Searching.{last_or}

-- A stretch of text between two cursors.
pub record Stretch (c d : Cursor) : Type 0 where
  pub taken : List Char
  pub splits : c.1 ≡ taken ++ d.1
  pub last : d.0 ≡ last_or c.0 taken

last_or-append :
    (b : Option Char) (xs ys : List Char) → last_or b (xs ++ ys) ≡ last_or (last_or b xs) ys
last_or-append b [] ys = refl
last_or-append b (x ∷ xs) ys = last_or-append (some x) xs ys

Stretch-refl : (c d : Cursor) → d ≡ c → Stretch c d
Stretch-refl c d h = rw h (record { taken = []; splits = refl; last = refl })

Stretch-append : (c d e : Cursor) → Stretch c d → Stretch d e → Stretch c e
Stretch-append c d e h k = record {
  taken = h.taken ++ k.taken;
  splits = rw (append_assoc, ← k.splits) h.splits;
  last = rw (last_or-append, ← h.last) k.last;
}

Takes-Stretch : (p : Char → Bool) (c d : Cursor) → Takes p c d → Stretch c d
Takes-Stretch p (b, []) d t = absurd t
Takes-Stretch p (b, x ∷ s) d t = rw t.1 (record { taken = x ∷ []; splits = refl; last = refl })

TakesMany-Stretch : (p : Char → Bool) (c d : Cursor) → TakesMany p c d → Stretch c d
TakesMany-Stretch p (b, []) d t = Stretch-refl (b, []) d t
TakesMany-Stretch p (b, x ∷ s) d (inl stop) = Stretch-refl (b, x ∷ s) d stop
TakesMany-Stretch p (b, x ∷ s) d (inr (h, t)) =
    Stretch-append (b, x ∷ s) (some x, s) d (Takes-Stretch p (b, x ∷ s) (some x, s) (h, refl))
      (TakesMany-Stretch p (some x, s) d t)

Times-Stretch :
    (n : ℕ) (R : Relation)
    → ((c d : Cursor) → R c d → Stretch c d)
    → (c e : Cursor) → Times n R c e
    → Stretch c e
Times-Stretch zero R f c e t = Stretch-refl c e t
Times-Stretch (suc n) R f c e (d, t, ts) =
    Stretch-append c d e (f c d t) (Times-Stretch n R f d e ts)

UpTo-Stretch :
    (n : ℕ) (R : Relation)
    → ((c d : Cursor) → R c d → Stretch c d)
    → (c e : Cursor) → UpTo n R c e
    → Stretch c e
UpTo-Stretch zero R f c e t = Stretch-refl c e t
UpTo-Stretch (suc n) R f c e (inl stop) = Stretch-refl c e stop
UpTo-Stretch (suc n) R f c e (inr (d, t, ts)) =
    Stretch-append c d e (f c d t) (UpTo-Stretch n R f d e ts)

-- No match of the pattern is empty, by its form.
abbrev pub consumes : Regex → Bool
consumes (one p) = true
consumes (many p) = false
consumes boundary = false
consumes (then_ r s) = consumes r || consumes s
consumes (times zero r) = false
consumes (times (suc n) r) = consumes r
consumes (up_to n r) = false

module _ (w : Char → Bool) where
  pub Matches-Stretch : (r : Regex) (c d : Cursor) → Matches w r c d → Stretch c d
  Matches-Stretch (one p) c d m = Takes-Stretch p c d m
  Matches-Stretch (many p) c d m = TakesMany-Stretch p c d m
  Matches-Stretch boundary c d m = Stretch-refl c d m.1
  Matches-Stretch (then_ r s) c e (d, m, n) =
      Stretch-append c d e (Matches-Stretch r c d m) (Matches-Stretch s d e n)
  Matches-Stretch (times n r) c d m = Times-Stretch n (Matches w r) (Matches-Stretch r) c d m
  Matches-Stretch (up_to n r) c d m = UpTo-Stretch n (Matches w r) (Matches-Stretch r) c d m

  Stretch-le : (c d : Cursor) → Stretch c d → length d.1 ≤ length c.1
  Stretch-le c d h = omega (arith, ap length h.splits, length-append {0} h.taken d.1)

  Takes-lt : (p : Char → Bool) (c d : Cursor) → Takes p c d → length d.1 < length c.1
  Takes-lt p (b, []) d t = absurd t
  Takes-lt p (b, x ∷ s) d t = rw t.1 (omega arith)

  or_cases : (a b : Bool) → (a || b) ≡ true → (a ≡ true) ⊎ (b ≡ true)
  or_cases true b h = inl refl
  or_cases false b h = inr h

  pub Matches-lt :
      (r : Regex) (c d : Cursor) → consumes r ≡ true → Matches w r c d → length d.1 < length c.1
  Matches-lt (one p) c d h m = Takes-lt p c d m
  Matches-lt (many p) c d h m = cc h
  Matches-lt boundary c d h m = cc h
  Matches-lt (then_ r s) c e h (d, m, n) = elim (or_cases (consumes r) (consumes s) h) [
    | inl first ↦ omega (arith, Matches-lt r c d first m, Stretch-le d e (Matches-Stretch s d e n))
    | inr second ↦
        omega (arith, Matches-lt s d e second n, Stretch-le c d (Matches-Stretch r c d m))
  ]
  Matches-lt (times zero r) c d h m = cc h
  Matches-lt (times (suc n) r) c e h (d, m, ms) = omega (
    arith,
    Matches-lt r c d h m,
    Stretch-le d e (Times-Stretch n (Matches w r) (Matches-Stretch r) d e ms),
  )
  Matches-lt (up_to n r) c d h m = cc h
