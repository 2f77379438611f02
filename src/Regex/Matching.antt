-- ===== src/Regex/Matching.antt =====
-- What the patterns of Python's `re` mean, apart from the order in which the matcher tries things: it
-- finds a match exactly where there is one.
use Prim.Native.Char.{Char}
use bedrock_gateway_platform.Base.{
  ℕ, zero, suc, ◌≡◌, refl, ◌⊎◌, inl, inr, Bool, true, Option, none, some, [], ◌∷◌, Bool-cases,
  if◌then◌else◌,
}
use bedrock_gateway_platform.Regex.{
  Regex, one, many, boundary, then_, times, up_to, Cursor, Matcher, or_else, match_one, match_many,
  match_times, match_up_to, at_boundary, match, match_at, is_some,
}

abbrev pub Relation : Type 1
Relation = Cursor → Cursor → Type 0

abbrev pub Takes : (Char → Bool) → Relation
Takes p (b, []) d = ⊥
Takes p (b, x ∷ s) d = (p x ≡ true) × (d ≡ (some x, s))

abbrev pub TakesMany : (Char → Bool) → Relation
TakesMany p (b, []) d = d ≡ (b, [])
TakesMany p (b, x ∷ s) d = (d ≡ (b, x ∷ s)) ⊎ ((p x ≡ true) × TakesMany p (some x, s) d)

abbrev pub Times : ℕ → Relation → Relation
Times zero R c e = e ≡ c
Times (suc n) R c e = (d : Cursor) × R c d × Times n R d e

abbrev pub UpTo : ℕ → Relation → Relation
UpTo zero R c e = e ≡ c
UpTo (suc n) R c e = (e ≡ c) ⊎ ((d : Cursor) × R c d × UpTo n R d e)

-- The pattern can match between the two cursors.
abbrev pub Matches : (Char → Bool) → Regex → Relation
Matches w (one p) c d = Takes p c d
Matches w (many p) c d = TakesMany p c d
Matches w boundary c d = (at_boundary w c ≡ true) × (d ≡ c)
Matches w (then_ r s) c e = (d : Cursor) × Matches w r c d × Matches w s d e
Matches w (times n r) c d = Times n (Matches w r) c d
Matches w (up_to n r) c d = UpTo n (Matches w r) c d

-- A matcher that succeeds has matched.
abbrev Sound : Matcher → Relation → Type 0
Sound m R =
    (c : Cursor) (k : Cursor → Option Cursor) (e : Cursor)
    → m c k ≡ some e
    → (d : Cursor) × R c d × (k d ≡ some e)

-- A matcher succeeds if what follows some match does.
abbrev Complete : Matcher → Relation → Type 0
Complete m R =
    (c d : Cursor) (k : Cursor → Option Cursor)
    → R c d
    → is_some (k d) ≡ true
    → is_some (m c k) ≡ true

or_else-eq-some :
    (o q : Option Cursor) (e : Cursor) → or_else o q ≡ some e → (o ≡ some e) ⊎ (q ≡ some e)
or_else-eq-some none q e h = inr h
or_else-eq-some (some c) q e h = inl h

one-Sound : (p : Char → Bool) → Sound (match_one p) (Takes p)
one-Sound p (b, []) k e h = cc h
one-Sound p (b, x ∷ s) k e h = elim (Bool-cases (p x)) [
  | inl yes_ ↦ ((some x, s), (yes_, refl), (rw yes_ at h))
  | inr no_ ↦ cc (rw no_ at h)
]

many-Sound : (p : Char → Bool) → Sound (match_many p) (TakesMany p)
unfolding match_many
many-Sound p (b, []) k e h = ((b, []), refl, h)
many-Sound p (b, x ∷ s) k e h =
    elim (or_else-eq-some (if p x then match_many p (some x, s) k else none) _ e h) [
      | inl more ↦ elim (Bool-cases (p x)) [
        | inl yes_ ↦
            let (d, t, q) = many-Sound p (some x, s) k e (rw yes_ at more) in (d, inr (yes_, t), q)
        | inr no_ ↦ cc (rw no_ at more)
      ]
      | inr stop ↦ ((b, x ∷ s), inl refl, stop)
    ]

times-Sound : (n : ℕ) (m : Matcher) (R : Relation) → Sound m R → Sound (match_times n m) (Times n R)
unfolding match_times
times-Sound zero m R h c k e q = (c, refl, q)
times-Sound (suc n) m R h c k e q =
    let (d, r, p) = h c _ e q in
    let (d', rs, p') = times-Sound n m R h d k e p in (d', (d, r, rs), p')

up_to-Sound : (n : ℕ) (m : Matcher) (R : Relation) → Sound m R → Sound (match_up_to n m) (UpTo n R)
unfolding match_up_to
up_to-Sound zero m R h c k e q = (c, refl, q)
up_to-Sound (suc n) m R h c k e q =
    elim (or_else-eq-some (m c (λ d. match_up_to n m d k)) (k c) e q) [
      | inl more ↦
          let (d, r, p) = h c _ e more in
          let (d', rs, p') = up_to-Sound n m R h d k e p in (d', inr (d, r, rs), p')
      | inr stop ↦ (c, inl refl, stop)
    ]

module _ (w : Char → Bool) where
  match-Sound : (r : Regex) → Sound (match w r) (Matches w r)
  unfolding match
  match-Sound (one p) c k e h = one-Sound p c k e h
  match-Sound (many p) c k e h = many-Sound p c k e h
  match-Sound boundary c k e h = elim (Bool-cases (at_boundary w c)) [
    | inl yes_ ↦ (c, (yes_, refl), (rw yes_ at h))
    | inr no_ ↦ cc (rw no_ at h)
  ]
  match-Sound (then_ r s) c k e h =
      let (d, p, q) = match-Sound r c _ e h in
      let (d', p', q') = match-Sound s d k e q in (d', (d, p, p'), q')
  match-Sound (times n r) c k e h = times-Sound n (match w r) (Matches w r) (match-Sound r) c k e h
  match-Sound (up_to n r) c k e h = up_to-Sound n (match w r) (Matches w r) (match-Sound r) c k e h

is_some-or_else_right : (o q : Option Cursor) → is_some q ≡ true → is_some (or_else o q) ≡ true
is_some-or_else_right none q h = h
is_some-or_else_right (some c) q h = refl

is_some-or_else_left : (o q : Option Cursor) → is_some o ≡ true → is_some (or_else o q) ≡ true
is_some-or_else_left none q h = cc h
is_some-or_else_left (some c) q h = refl

one-Complete : (p : Char → Bool) → Complete (match_one p) (Takes p)
one-Complete p (b, []) d k t h = absurd t
one-Complete p (b, x ∷ s) d k t h = rw t.0 (rw t.1 at h)

many-Complete : (p : Char → Bool) → Complete (match_many p) (TakesMany p)
unfolding match_many
many-Complete p (b, []) d k t h = rw t at h
many-Complete p (b, x ∷ s) d k (inl stop) h = is_some-or_else_right _ _ (rw stop at h)
many-Complete p (b, x ∷ s) d k (inr (yes_, t)) h =
    is_some-or_else_left (if p x then match_many p (some x, s) k else none) _
      (rw yes_ (many-Complete p (some x, s) d k t h))

times-Complete :
    (n : ℕ) (m : Matcher) (R : Relation) → Complete m R → Complete (match_times n m) (Times n R)
unfolding match_times
times-Complete zero m R f c d k t h = rw t at h
times-Complete (suc n) m R f c d k (e, r, rs) h = f c e _ r (times-Complete n m R f e d k rs h)

up_to-Complete :
    (n : ℕ) (m : Matcher) (R : Relation) → Complete m R → Complete (match_up_to n m) (UpTo n R)
unfolding match_up_to
up_to-Complete zero m R f c d k t h = rw t at h
up_to-Complete (suc n) m R f c d k (inl stop) h = is_some-or_else_right _ _ (rw stop at h)
up_to-Complete (suc n) m R f c d k (inr (e, r, rs)) h =
    is_some-or_else_left _ _ (f c e _ r (up_to-Complete n m R f e d k rs h))

module _ (w : Char → Bool) where
  match-Complete : (r : Regex) → Complete (match w r) (Matches w r)
  unfolding match
  match-Complete (one p) c d k t h = one-Complete p c d k t h
  match-Complete (many p) c d k t h = many-Complete p c d k t h
  match-Complete boundary c d k t h = rw t.0 (rw t.1 at h)
  match-Complete (then_ r s) c d k (e, p, q) h =
      match-Complete r c e _ p (match-Complete s e d k q h)
  match-Complete (times n r) c d k t h =
      times-Complete n (match w r) (Matches w r) (match-Complete r) c d k t h
  match-Complete (up_to n r) c d k t h =
      up_to-Complete n (match w r) (Matches w r) (match-Complete r) c d k t h

  -- Where the matcher ends there is a match.
  pub match_at-Matches : (r : Regex) (c d : Cursor) → match_at w r c ≡ some d → Matches w r c d
  match_at-Matches r c d h =
      let (e, m, q) = match-Sound w r c some d h in let same : e ≡ d = cc q in rw (← same) m

  -- Where there is a match, the matcher finds one.
  pub match_at-is_some :
      (r : Regex) (c d : Cursor) → Matches w r c d → is_some (match_at w r c) ≡ true
  match_at-is_some r c d m = match-Complete r c d some m refl
