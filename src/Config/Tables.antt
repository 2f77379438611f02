-- ===== src/Config/Tables.antt =====
-- The loops that read the entries of a YAML mapping into a new dictionary.
use bedrock_gateway_platform.Base.{
  String, ◌≡◌, refl, Option, none, some, [], ◌∷◌, ok, raise, ◌>>=◌, Bool-cases, inl, inr, string_eq,
  ◌==◌, ==_iff, ==_refl, arith,
}
use bedrock_gateway_platform.Dict
use bedrock_gateway_platform.Dict.{Dict}
use bedrock_gateway_platform.Dict.Laws.{get-put}
use bedrock_gateway_platform.Dict.Distinct.{Distinct}
use bedrock_gateway_platform.Config.Yaml.{Yaml, LoadError, Loaded}

module _ {V : Type 0} (read : String → Yaml → Loaded V) where
  -- `for key, cfg in entries.items(): d[key] = …`
  unfoldable pub read_all : Dict String Yaml → Dict String V → Loaded (Dict String V)
  read_all [] d = ok d
  read_all ((key, cfg) ∷ rest) d = do v ← read key cfg; read_all rest (Dict.put key v d)

  -- An entry that makes the loader raise `e`.
  abbrev pub Fails : Dict String Yaml → LoadError → Type 0
  Fails entries e =
      (t : String) × (cfg : Yaml) × (Dict.get t entries ≡ some cfg) × (read t cfg ≡ raise e)

  -- What is kept for a key: by its entry, or else as it was.
  abbrev pub Kept : String → Option Yaml → Option V → Option V → Type 0
  Kept t none before after = after ≡ before
  Kept t (some cfg) before after = (v : V) × (read t cfg ≡ ok v) × (after ≡ some v)

  abbrev pub Added : Dict String Yaml → Dict String V → Loaded (Dict String V) → Type 0
  Added entries before (ok after) =
      (t : String) → Kept t (Dict.get t entries) (Dict.get t before) (Dict.get t after)
  Added entries before (raise e) = Fails entries e

  Added-cons :
      (t : String) (cfg : Yaml) (rest : Dict String Yaml) (before : Dict String V) (v : V)
      (r : Loaded (Dict String V))
      → Dict.get t rest ≡ none
      → read t cfg ≡ ok v
      → Added rest (Dict.put t v before) r
      → Added ((t, cfg) ∷ rest) before r
  unfolding Dict.get
  Added-cons t cfg rest before v (ok after) new q h = λ u. elim (Bool-cases (t == u)) [
    | inl own ↦
        let kept : Dict.get t after ≡ some v = rw (new, get-put, ==_refl t) at (h t) in
        rw (own, ← (==_iff t u).0 own) (v, q, kept)
    | inr other ↦ rw other (rw (get-put, other) at (h u))
  ]
  Added-cons t cfg rest before v (raise e) new q (u, c, there, fails) =
      (u, c, ground (arith, new, there, ==_iff t u), fails)

  Added-entry :
      (t : String) (cfg : Yaml) (rest : Dict String Yaml) (before : Dict String V) (r : Loaded V)
      → Dict.get t rest ≡ none
      → read t cfg ≡ r
      → ((v : V) → Added rest (Dict.put t v before) (read_all rest (Dict.put t v before)))
      → Added ((t, cfg) ∷ rest) before (r >>= λ v. read_all rest (Dict.put t v before))
  unfolding Dict.get ◌>>=◌
  Added-entry t cfg rest before (ok v) new q h = Added-cons t cfg rest before v _ new q (h v)
  Added-entry t cfg rest before (raise e) new q h = (t, cfg, rw (==_refl t), q)

  pub read_all-Added :
      (entries : Dict String Yaml) (before : Dict String V)
      → Distinct entries
      → Added entries before (read_all entries before)
  unfolding read_all Dict.get
  read_all-Added [] before d = λ t. refl
  read_all-Added ((t, cfg) ∷ rest) before d =
      Added-entry t cfg rest before (read t cfg) d.0 refl
        λ v. read_all-Added rest (Dict.put t v before) d.1
