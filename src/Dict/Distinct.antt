-- ===== src/Dict/Distinct.antt =====
-- A dictionary holds no key twice. Every operation keeps that, and dropping entries from the front of
-- such a dictionary uncovers nothing.
use bedrock_gateway_platform.Base.{
  ℕ, zero, suc, ◌+◌, ◌≤◌, ◌≡◌, refl, ◌∙◌, Option, none, some, [], ◌∷◌, ◌++◌, Equality, ◌==◌, arith,
  ==_iff, ==_refl, Bool-cases, inl, inr, drop, length, length-append, ◌<◌,
}
use bedrock_gateway_platform.Dict.{Dict, get, put, pop, relocate, move_to_end}
use bedrock_gateway_platform.Dict.Laws.{get-put, get-pop}

module _ {K V : Type 0} ⦃e : Equality K⦄ where
  abbrev pub Distinct : Dict K V → Type 0
  Distinct [] = Unit {0}
  Distinct ((k, v) ∷ d) = (get k d ≡ none) × Distinct d

  pub put-Distinct : (k : K) (v : V) (d : Dict K V) → Distinct d → Distinct (put k v d)
  unfolding put get
  put-Distinct k v [] h = (refl, tt)
  put-Distinct k v ((j, w) ∷ d) h = elim (Bool-cases (j == k)) [
    | inl own ↦ rw (own, put) (rw (← (==_iff j k).0 own) h.0, h.1)
    | inr other ↦
        rw (other, put)
          (
            ground (arith, h.0, other, get-put k j v d, ==_iff k j, ==_iff j k),
            put-Distinct k v d h.1,
          )
  ]

  pub pop-Distinct : (k : K) (d : Dict K V) → Distinct d → Distinct (pop k d)
  unfolding pop
  pop-Distinct k [] h = tt
  pop-Distinct k ((j, w) ∷ d) h = elim (Bool-cases (j == k)) [
    | inl own ↦ rw own (pop-Distinct k d h.1)
    | inr other ↦ rw other (ground (arith, h.0, get-pop k j d), pop-Distinct k d h.1)
  ]

  get-append_none : (j : K) (d c : Dict K V) → get j d ≡ none → get j (d ++ c) ≡ get j c
  unfolding get
  get-append_none j [] c h = refl
  get-append_none j ((i, w) ∷ d) c h = ground (arith, h, get-append_none j d c)

  append_last-Distinct :
      (k : K) (v : V) (d : Dict K V) → get k d ≡ none → Distinct d → Distinct (d ++ (k, v) ∷ [])
  unfolding get
  append_last-Distinct k v [] n h = (refl, tt)
  append_last-Distinct k v ((j, w) ∷ d) n h = (
    ground (arith, n, h.0, get-append_none j d ((k, v) ∷ []), ==_iff k j, ==_iff j k),
    append_last-Distinct k v d (ground (arith, n)) h.1,
  )

  relocate-Distinct : (k : K) (o : Option V) (d : Dict K V) → Distinct d → Distinct (relocate k o d)
  relocate-Distinct k none d h = h
  relocate-Distinct k (some v) d h =
      append_last-Distinct k v (pop k d) (ground (arith, get-pop k k d, ==_refl k))
        (pop-Distinct k d h)

  pub move_to_end-Distinct : (k : K) (d : Dict K V) → Distinct d → Distinct (move_to_end k d)
  unfolding move_to_end
  move_to_end-Distinct k d = relocate-Distinct k (get k d) d

  pub drop-Distinct : (n : ℕ) (d : Dict K V) → Distinct d → Distinct (drop n d)
  drop-Distinct zero d h = h
  drop-Distinct (suc n) [] h = tt
  drop-Distinct (suc n) (x ∷ d) h = drop-Distinct n d h.1

  -- What can be looked up after entries were dropped was there before.
  pub get-drop :
      (n : ℕ) (j : K) (d : Dict K V) (v : V)
      → Distinct d
      → get j (drop n d) ≡ some v
      → get j d ≡ some v
  unfolding get
  get-drop zero j d v h q = q
  get-drop (suc n) j [] v h q = q
  get-drop (suc n) j ((i, w) ∷ d) v h q =
      let there = get-drop n j d v h.1 q in ground (arith, there, h.0, ==_iff i j)

  pop_absent : (k : K) (d : Dict K V) → get k d ≡ none → pop k d ≡ d
  unfolding get pop
  pop_absent k [] h = refl
  pop_absent k ((j, w) ∷ d) h = ground (arith, h, pop_absent k d)

  pub length-pop-le : (k : K) (d : Dict K V) → length (pop k d) ≤ length d
  unfolding pop
  length-pop-le k [] = omega arith
  length-pop-le k ((j, w) ∷ d) = ground (arith, length-pop-le k d)

  length-pop :
      (k : K) (v : V) (d : Dict K V)
      → Distinct d
      → get k d ≡ some v
      → length (pop k d) + 1 ≡ length d
  unfolding get pop
  length-pop k v [] h q = cc
  length-pop k v ((j, w) ∷ d) h q = elim (Bool-cases (j == k)) [
    | inl own ↦
        let absent : get k d ≡ none = rw ((==_iff j k).0 own) at h.0 in
        rw (own, pop_absent k d absent) (omega arith)
    | inr other ↦ rw other (omega (arith, length-pop k v d h.1 (rw other at q)))
  ]

  length-relocate :
      (k : K) (o : Option V) (d : Dict K V)
      → get k d ≡ o
      → Distinct d
      → length (relocate k o d) ≡ length d
  length-relocate k none d q h = refl
  length-relocate k (some v) d q h =
      omega (arith, length-append {0} (pop k d) ((k, v) ∷ []), length-pop k v d h q)

  pub length-move_to_end : (k : K) (d : Dict K V) → Distinct d → length (move_to_end k d) ≡ length d
  unfolding move_to_end
  length-move_to_end k d = length-relocate k (get k d) d refl

  get-drop_last :
      (n : ℕ) (k : K) (v : V) (d : Dict K V)
      → n ≤ length d
      → get k d ≡ none
      → get k (drop n (d ++ (k, v) ∷ [])) ≡ some v
  unfolding get
  get-drop_last zero k v d h q = get-append_none k d ((k, v) ∷ []) q ∙ rw (==_refl k)
  get-drop_last (suc n) k v [] h q = absurd (omega arith)
  get-drop_last (suc n) k v ((j, w) ∷ d) h q =
      get-drop_last n k v d (omega arith) (ground (arith, q))

  -- The entry that was moved to the end outlives any dropping that leaves an entry.
  pub get-drop_moved :
      (n : ℕ) (k : K) (v : V) (d : Dict K V)
      → Distinct d
      → get k d ≡ some v
      → n < length d
      → get k (drop n (move_to_end k d)) ≡ some v
  unfolding move_to_end
  get-drop_moved n k v d h q fits =
      rw (q, move_to_end)
        (get-drop_last n k v (pop k d) (omega (arith, length-pop k v d h q))
          (ground (arith, get-pop k k d, ==_refl k)))

  pub length-put_pos : (k : K) (v : V) (d : Dict K V) → 0 < length (put k v d)
  unfolding put
  length-put_pos k v [] = omega arith
  length-put_pos k v ((j, w) ∷ d) = ground arith
