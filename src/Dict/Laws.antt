-- ===== src/Dict/Laws.antt =====
-- The laws of dictionaries: what a lookup returns after each operation, and sizes.
use bedrock_gateway_platform.Base.{
  ◌≡◌, refl, Option, none, some, [], ◌∷◌, ◌++◌, Equality, ◌==◌, if◌then◌else◌, arith, ==_refl,
}
use bedrock_gateway_platform.Dict.{Dict, get, put, pop, relocate, move_to_end}

module _ {K V : Type 0} ⦃e : Equality K⦄ where
  pub get-put :
      (k j : K) (v : V) (d : Dict K V) → get j (put k v d) ≡ (if k == j then some v else get j d)
  unfolding get put
  get-put k j v [] = refl
  get-put k j v ((i, w) ∷ d) =
      ground (arith, e.equal_iff k j, e.equal_iff i k, e.equal_iff i j, get-put k j v d)

  pub get-pop : (k j : K) (d : Dict K V) → get j (pop k d) ≡ (if k == j then none else get j d)
  unfolding get pop
  get-pop k j [] = ground arith
  get-pop k j ((i, w) ∷ d) =
      ground (arith, e.equal_iff k j, e.equal_iff i k, e.equal_iff i j, get-pop k j d)

  get-append_last :
      (k j : K) (v : V) (d : Dict K V)
      → get k d ≡ none
      → get j (d ++ (k, v) ∷ []) ≡ (if k == j then some v else get j d)
  unfolding get
  get-append_last k j v [] h = refl
  get-append_last k j v ((i, w) ∷ d) h =
      ground (arith, e.equal_iff k j, e.equal_iff i k, e.equal_iff i j, get-append_last k j v d)

  get-relocate :
      (k j : K) (o : Option V) (d : Dict K V) → get k d ≡ o → get j (relocate k o d) ≡ get j d
  get-relocate k j none d h = refl
  get-relocate k j (some v) d h = ground (
    arith,
    e.equal_iff k j,
    ==_refl k,
    get-pop k k d,
    get-pop k j d,
    get-append_last k j v (pop k d),
  )

  -- The order changes, and nothing that a lookup reads.
  pub get-move_to_end : (k j : K) (d : Dict K V) → get j (move_to_end k d) ≡ get j d
  unfolding move_to_end
  get-move_to_end k j d = get-relocate k j (get k d) d refl
