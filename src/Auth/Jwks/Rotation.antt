-- ===== src/Auth/Jwks/Rotation.antt =====
-- How `JwksVerifier` of auth/jwt_verifier.py comes by the key of a token, whatever it holds.
use bedrock_gateway_platform.Base.{
  ℕ, ◌≡◌, ◌⊎◌, inl, inr, refl, String, true, false, none, some, List, Result, ok, string_eq, [],
  Bool-cases, Option-cases,
}
use bedrock_gateway_platform.Dict
use bedrock_gateway_platform.Auth.Identity.{AuthError, Claims}
use bedrock_gateway_platform.Auth.Jwks.{
  Jwt, Provider, Verifier, decode, refresh, is_stale, refresh_if_stale, find_key, key_table,
  verify_header, verify,
}

module _ (jwt : Jwt) (provider : Provider jwt) where
  -- The provider, whenever it is asked, gives a key set in which the key id stands for the key.
  pub record Publishes (kid : String) (key : jwt.Key) : Type 0 where
    pub reply :
        (s : provider.State)
        → (keys : List (String × jwt.Key)) × (s' : provider.State) × (provider.http_get s
            ≡ (ok keys, s'))
          × (Dict.get kid (key_table jwt provider keys []) ≡ some key)

  module _ (checked now again : ℕ) (token : List ℕ) (kid : String) (key : jwt.Key) where
    -- The verifier holds a key under the id that is not stale: it decodes with that one, and neither
    -- asks the provider nor changes what it holds.
    pub record FromCache (v : Verifier jwt provider)
        (r : Result AuthError Claims × Verifier jwt provider) : Type 0 where
      pub held_key : jwt.Key
      pub fresh : is_stale jwt provider checked v ≡ false
      pub held : Dict.get kid v.keys_by_kid ≡ some held_key
      pub decoded : r.0 ≡ decode jwt token held_key
      pub kept : r.1 ≡ v

    -- It does not: it asks the provider once, decodes with the published key, and then holds it.
    pub record FromProvider (v : Verifier jwt provider)
        (r : Result AuthError Claims × Verifier jwt provider) : Type 0 where
      pub needed : (is_stale jwt provider checked v ≡ true) ⊎ (Dict.get kid v.keys_by_kid ≡ none)
      pub decoded : r.0 ≡ decode jwt token key
      pub held : Dict.get kid r.1.keys_by_kid ≡ some key
      pub asked_once : r.1.remote ≡ (provider.http_get v.remote).1
      pub dated : (r.1.fetched_at ≡ now) ⊎ (r.1.fetched_at ≡ again)

    stale_answer :
        (v : Verifier jwt provider) (keys : List (String × jwt.Key)) (s : provider.State)
        → provider.http_get v.remote ≡ (ok keys, s)
        → Dict.get kid (key_table jwt provider keys []) ≡ some key
        → is_stale jwt provider checked v ≡ true
        → FromProvider v (verify_header jwt provider checked now again token v (ok (some kid)))
    unfolding refresh_if_stale refresh find_key
    stale_answer v keys s replied published stale =
        rw (stale, replied, published)
          (record {
            needed = inl stale;
            decoded = refl;
            held = published;
            asked_once = rw replied refl;
            dated = inl refl;
          })

    missing_answer :
        (v : Verifier jwt provider) (keys : List (String × jwt.Key)) (s : provider.State)
        → provider.http_get v.remote ≡ (ok keys, s)
        → Dict.get kid (key_table jwt provider keys []) ≡ some key
        → is_stale jwt provider checked v ≡ false
        → Dict.get kid v.keys_by_kid ≡ none
        → FromProvider v (verify_header jwt provider checked now again token v (ok (some kid)))
    unfolding refresh_if_stale refresh find_key
    missing_answer v keys s replied published fresh missing =
        rw (fresh, missing, replied, published)
          (record {
            needed = inr missing;
            decoded = refl;
            held = published;
            asked_once = rw replied refl;
            dated = inr refl;
          })

    held_answer :
        (v : Verifier jwt provider) (held_key : jwt.Key)
        → is_stale jwt provider checked v ≡ false
        → Dict.get kid v.keys_by_kid ≡ some held_key
        → FromCache v (verify_header jwt provider checked now again token v (ok (some kid)))
    unfolding refresh_if_stale find_key
    held_answer v held_key fresh held =
        rw (fresh, held)
          (record { held_key = held_key; fresh = fresh; held = held; decoded = refl; kept = refl })

    served :
        (v : Verifier jwt provider) (keys : List (String × jwt.Key)) (s : provider.State)
        → provider.http_get v.remote ≡ (ok keys, s)
        → Dict.get kid (key_table jwt provider keys []) ≡ some key
        → let r = verify_header jwt provider checked now again token v (ok (some kid)) in
          FromCache v r ⊎ FromProvider v r
    served v keys s replied published = elim (Bool-cases (is_stale jwt provider checked v)) [
      | inl stale ↦ inr (stale_answer v keys s replied published stale)
      | inr fresh ↦ elim (Option-cases (Dict.get kid v.keys_by_kid)) [
        | inl missing ↦ inr (missing_answer v keys s replied published fresh missing)
        | inr (held_key, held) ↦ inl (held_answer v held_key fresh held)
      ]
    ]

    -- While the provider answers and publishes the key that a token names, the verifier never fails for
    -- want of the key, whatever it holds. Either it holds a key under that id and its keys are not stale;
    -- then it decodes the token with that key, without a request. Or its keys are stale or lack the id;
    -- then it asks the provider exactly once, decodes the token with the published key, and holds that
    -- key from then on, dated at the reading of the clock after the request.
    pub verify-Served :
        (v : Verifier jwt provider)
        → jwt.get_unverified_header token ≡ ok (some kid)
        → Publishes kid key
        → let r = verify jwt provider checked now again token v in FromCache v r ⊎ FromProvider v r
    unfolding verify
    verify-Served v named h =
        let (keys, s, replied, published) = h.reply v.remote in
        rw named (served v keys s replied published)
