-- ===== src/Dict.antt =====
-- Python's `dict` and `OrderedDict`: the entries in insertion order.
pub mod Laws
pub mod Distinct
use bedrock_gateway_platform.Base.{
  ℕ, Option, none, some, List, [], ◌∷◌, ◌++◌, Equality, ◌==◌, if◌then◌else◌,
}

abbrev pub Dict : Type 0 → Type 0 → Type 0
Dict K V = List (K × V)

module _ {K V : Type 0} ⦃e : Equality K⦄ where
  -- d.get(k)
  unfoldable pub get : K → Dict K V → Option V
  get k [] = none
  get k ((j, v) ∷ d) = if j == k then some v else get k d

  -- d[k] = v: a key that is there keeps its place, a new one goes to the end.
  unfoldable pub put : K → V → Dict K V → Dict K V
  put k v [] = (k, v) ∷ []
  put k v ((j, w) ∷ d) = if j == k then (k, v) ∷ d else (j, w) ∷ put k v d

  -- d.pop(k, None), del d[k]
  unfoldable pub pop : K → Dict K V → Dict K V
  pop k [] = []
  pop k ((j, v) ∷ d) = let rest = pop k d in if j == k then rest else (j, v) ∷ rest

  -- d.move_to_end(k)
  abbrev pub relocate : K → Option V → Dict K V → Dict K V
  relocate k none d = d
  relocate k (some v) d = pop k d ++ (k, v) ∷ []

  unfoldable pub move_to_end : K → Dict K V → Dict K V
  move_to_end k d = relocate k (get k d) d
