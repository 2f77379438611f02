-- ===== src/Auth/Jwks.antt =====
-- services/gateway/auth/jwt_verifier.py: `JwksVerifier` and `StaticKeyVerifier`. The provider that
-- publishes the keys and the library that reads and checks tokens are parameters. A key set is
-- taken as it is after it has been read; times are readings of the monotonic clock, in nanoseconds.
pub mod Accepted
pub mod Rotation
use bedrock_gateway_platform.Base.{
  ℕ, ◌+◌, String, Bool, true, false, ◌||◌, Option, none, some, List, [], ◌∷◌, Result, ok, raise,
  string_eq, leb, if◌then◌else◌,
}
use bedrock_gateway_platform.Base.Text.{f_string}
use bedrock_gateway_platform.Dict
use bedrock_gateway_platform.Dict.{Dict}
use bedrock_gateway_platform.Auth.Identity.{AuthError, Claims}

-- The exceptions of `jwt.decode`; of an invalid token, `str(exc)`.
pub data DecodeError : Type 0 where
  expired_signature : DecodeError
  invalid_token : String → DecodeError

-- `jwt`, for one issuer and one audience, and Python's `repr` of a key id. A header's "kid" may be
-- missing.
pub record Jwt : Type 1 where
  pub Key : Type 0
  pub get_unverified_header : List ℕ → Result String (Option String)
  pub decode : List ℕ → Key → Result DecodeError Claims
  pub repr : Option String → String

-- What a request to the provider gives: the key set, in order, or `str(exc)`.
pub record Provider (jwt : Jwt) : Type 1 where
  pub State : Type 0
  pub jwks_url : String
  pub http_get : State → Result String (List (String × jwt.Key)) × State

abbrev pub unauthenticated : String → AuthError
unauthenticated message = record { message = message; code = "UNAUTHENTICATED" }

abbrev pub or_invalid : Result DecodeError Claims → Result AuthError Claims
or_invalid (ok claims) = ok claims
or_invalid (raise expired_signature) = raise (unauthenticated "token expired")
or_invalid (raise (invalid_token text)) =
    raise (unauthenticated (f_string ("invalid token: " ∷ text ∷ [])))

-- _decode
unfoldable pub decode : (jwt : Jwt) → List ℕ → jwt.Key → Result AuthError Claims
decode jwt token key = or_invalid (jwt.decode token key)

-- StaticKeyVerifier.verify
unfoldable pub verify_static : (jwt : Jwt) → jwt.Key → List ℕ → Result AuthError Claims
verify_static jwt public_key token = decode jwt token public_key

module _ (jwt : Jwt) (provider : Provider jwt) where
  -- The verifier and the provider.
  pub record Verifier : Type 0 where
    pub cache_ttl : ℕ
    pub keys_by_kid : Dict String jwt.Key
    pub fetched_at : ℕ
    pub remote : provider.State

  -- {k["kid"]: … for k in keys}
  abbrev pub key_table : List (String × jwt.Key) → Dict String jwt.Key → Dict String jwt.Key
  key_table [] table = table
  key_table ((kid, key) ∷ keys) table = key_table keys (Dict.put kid key table)

  abbrev pub refreshed :
      ℕ
      → Verifier
      → Result String (List (String × jwt.Key)) × provider.State
      → Result AuthError (Unit {0}) × Verifier
  refreshed now v (ok keys, s) =
      (ok tt, record v { keys_by_kid = key_table keys []; fetched_at = now; remote = s })
  refreshed now v (raise text, s) = (
    raise (record {
      message = f_string ("unable to fetch JWKS from " ∷ provider.jwks_url ∷ ": " ∷ text ∷ []);
      code = "IDENTITY_PROVIDER_UNAVAILABLE";
    }),
    record v { remote = s },
  )

  -- _refresh
  unfoldable pub refresh : ℕ → Verifier → Result AuthError (Unit {0}) × Verifier
  refresh now v = refreshed now v (provider.http_get v.remote)

  abbrev pub is_empty : Dict String jwt.Key → Bool
  is_empty [] = true
  is_empty (k ∷ keys) = false

  unfoldable pub is_stale : ℕ → Verifier → Bool
  is_stale checked v = is_empty v.keys_by_kid || leb (v.fetched_at + v.cache_ttl) checked

  -- _refresh_if_stale: `checked` and `now` are the readings of the clock.
  unfoldable pub refresh_if_stale : ℕ → ℕ → Verifier → Result AuthError (Unit {0}) × Verifier
  refresh_if_stale checked now v = if is_stale checked v then refresh now v else (ok tt, v)

  -- self._keys_by_kid.get(kid)
  unfoldable pub find_key : Verifier → Option String → Option jwt.Key
  find_key v none = none
  find_key v (some kid) = Dict.get kid v.keys_by_kid

  abbrev pub after_refresh :
      {A : Type 0}
      → Result AuthError (Unit {0}) × Verifier
      → (Verifier → Result AuthError A × Verifier)
      → Result AuthError A × Verifier
  after_refresh (ok done, v) rest = rest v
  after_refresh (raise exc, v) rest = (raise exc, v)

  abbrev pub decode_with :
      List ℕ → Option String → Verifier → Option jwt.Key → Result AuthError Claims
  decode_with token kid v (some key) = decode jwt token key
  decode_with token kid v none =
      raise (unauthenticated (f_string ("unknown signing key id: " ∷ jwt.repr kid ∷ [])))

  -- With the key, or after one more refresh.
  abbrev pub use_key :
      ℕ → List ℕ → Option String → Verifier → Option jwt.Key → Result AuthError Claims × Verifier
  use_key again token kid v (some key) = (decode jwt token key, v)
  use_key again token kid v none =
      after_refresh (refresh again v) λ v'. (decode_with token kid v' (find_key v' kid), v')

  abbrev pub verify_header :
      ℕ
      → ℕ
      → ℕ
      → List ℕ
      → Verifier
      → Result String (Option String)
      → Result AuthError Claims × Verifier
  verify_header checked now again token v (raise text) =
      (raise (unauthenticated (f_string ("malformed token: " ∷ text ∷ []))), v)
  verify_header checked now again token v (ok kid) =
      after_refresh (refresh_if_stale checked now v)
        λ v'. use_key again token kid v' (find_key v' kid)

  unfoldable pub verify : ℕ → ℕ → ℕ → List ℕ → Verifier → Result AuthError Claims × Verifier
  verify checked now again token v =
      verify_header checked now again token v (jwt.get_unverified_header token)
