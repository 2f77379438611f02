-- ===== src/Auth/Jwks/Accepted.antt =====
-- Which tokens `JwksVerifier` of auth/jwt_verifier.py accepts, and under which keys.
use bedrock_gateway_platform.Base.{
  ℕ, ◌≡◌, ◌⊎◌, inl, inr, refl, String, Bool, true, false, Option, none, some, List, Result, ok,
  raise, string_eq, if◌then◌else◌,
}
use bedrock_gateway_platform.Dict
use bedrock_gateway_platform.Auth.Identity.{AuthError, Claims}
use bedrock_gateway_platform.Auth.Jwks.{
  Jwt, Provider, Verifier, decode, refresh, refreshed, is_stale, refresh_if_stale, find_key,
  after_refresh, decode_with, use_key, verify_header, verify,
}

module _ (jwt : Jwt) (provider : Provider jwt) (checked now again : ℕ) where
  -- The keys of `v'` were not stale for `v` at `checked`, or they were fetched during the call.
  abbrev pub Current : Verifier jwt provider → Verifier jwt provider → Type 0
  Current v v' =
      (is_stale jwt provider checked v ≡ false) × (v'.fetched_at ≡ v.fetched_at)
      ⊎ ((v'.fetched_at ≡ now) ⊎ (v'.fetched_at ≡ again))

  -- The token is signed under the key that `v'` holds for the key id in its header.
  pub record Accepted (token : List ℕ) (v v' : Verifier jwt provider) (claims : Claims)
      : Type 0 where
    pub kid : String
    pub key : jwt.Key
    pub named : jwt.get_unverified_header token ≡ ok (some kid)
    pub held : Dict.get kid v'.keys_by_kid ≡ some key
    pub signed : decode jwt token key ≡ ok claims
    pub current : Current v v'

  Accepted-found :
      (token : List ℕ) (v v' : Verifier jwt provider) (claims : Claims) (kid : Option String)
      (key : jwt.Key)
      → jwt.get_unverified_header token ≡ ok kid
      → find_key jwt provider v' kid ≡ some key
      → decode jwt token key ≡ ok claims
      → Current v v'
      → Accepted token v v' claims
  unfolding find_key
  Accepted-found token v v' claims none key h f d c = absurd (cc f)
  Accepted-found token v v' claims (some kid) key h f d c = record {
    kid = kid;
    key = key;
    named = h;
    held = f;
    signed = d;
    current = c;
  }

  decode_with_ok :
      (token : List ℕ) (kid : Option String) (v : Verifier jwt provider) (o : Option jwt.Key)
      (claims : Claims)
      → decode_with jwt provider token kid v o ≡ ok claims
      → (key : jwt.Key) × (o ≡ some key) × (decode jwt token key ≡ ok claims)
  decode_with_ok token kid v none claims h = absurd (cc h)
  decode_with_ok token kid v (some key) claims h = (key, refl, h)

  abbrev Rest : Type 0
  Rest = Verifier jwt provider → Result AuthError Claims × Verifier jwt provider

  -- What follows a refresh that went well.
  refreshed_then :
      (time : ℕ) (v : Verifier jwt provider)
      (reply : Result String (List (String × jwt.Key)) × provider.State) (rest : Rest)
      (claims : Claims)
      → (after_refresh jwt provider (refreshed jwt provider time v reply) rest).0 ≡ ok claims
      → (w : Verifier jwt provider) × (w.fetched_at ≡ time)
        × (after_refresh jwt provider (refreshed jwt provider time v reply) rest ≡ rest w)
        × ((rest w).0 ≡ ok claims)
  refreshed_then time v (ok keys, s) rest claims h = (_, refl, refl, h)
  refreshed_then time v (raise text, s) rest claims h = absurd (cc h)

  use_key-Accepted :
      (token : List ℕ) (kid : Option String) (v w : Verifier jwt provider) (o : Option jwt.Key)
      (claims : Claims)
      → jwt.get_unverified_header token ≡ ok kid
      → find_key jwt provider w kid ≡ o
      → Current v w
      → (use_key jwt provider again token kid w o).0 ≡ ok claims
      → Accepted token v (use_key jwt provider again token kid w o).1 claims
  unfolding refresh
  use_key-Accepted token kid v w (some key) claims e f c h =
      Accepted-found token v w claims kid key e f h c
  use_key-Accepted token kid v w none claims e f c h =
      let (x, time, step, h') = refreshed_then again w (provider.http_get w.remote) _ claims h in
      let (key, found, d) = decode_with_ok token kid x (find_key jwt provider x kid) claims h' in
      rw step (Accepted-found token v x claims kid key e found d (inr (inr time)))

  verify_header-Accepted :
      (token : List ℕ) (v : Verifier jwt provider) (header : Result String (Option String))
      (claims : Claims)
      → jwt.get_unverified_header token ≡ header
      → (verify_header jwt provider checked now again token v header).0 ≡ ok claims
      → Accepted token v (verify_header jwt provider checked now again token v header).1 claims
  unfolding refresh_if_stale refresh
  verify_header-Accepted token v (raise text) claims e h = absurd (cc h)
  verify_header-Accepted token v (ok kid) claims e h = go (is_stale jwt provider checked v) refl h
    where
      rest : Rest
      rest w = use_key jwt provider again token kid w (find_key jwt provider w kid)

      go :
          (b : Bool)
          → is_stale jwt provider checked v ≡ b
          → (after_refresh jwt provider
              (if b then refresh jwt provider now v else (ok tt, v))
              rest).0
            ≡ ok claims
          → Accepted token v
              (after_refresh jwt provider
                (if b then refresh jwt provider now v else (ok tt, v))
                rest).1
              claims
      go true stale k =
          let (w, time, step, h') =
            refreshed_then now v (provider.http_get v.remote) rest claims k in
          rw step (
            use_key-Accepted token kid v w (find_key jwt provider w kid) claims e refl
              (inr (inl time)) h')
      go false held k =
          use_key-Accepted token kid v v (find_key jwt provider v kid) claims e refl
            (inl (held, refl)) k

  -- A token that is accepted is signed under the key that the verifier holds for the key id in the
  -- token's header. The keys were younger than the cache's time to live when the call looked, or they
  -- were fetched by this call.
  pub verify-Accepted :
      (token : List ℕ) (v : Verifier jwt provider) (claims : Claims)
      → (verify jwt provider checked now again token v).0 ≡ ok claims
      → Accepted token v (verify jwt provider checked now again token v).1 claims
  unfolding verify
  verify-Accepted token v claims h =
      verify_header-Accepted token v (jwt.get_unverified_header token) claims refl h
