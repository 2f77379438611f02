-- ===== src/Examples/Tokens.antt =====
-- A provider that has rotated its signing key.
use bedrock_gateway_platform.Base.{
  ℕ, suc, ◌≡◌, ◌⊎◌, refl, String, false, some, List, [], ◌∷◌, ok, string_eq,
}
use bedrock_gateway_platform.Dict
use bedrock_gateway_platform.Auth.Identity.{Claims, falsy}
use bedrock_gateway_platform.Auth.Jwks.{
  Jwt, Provider, Verifier, decode, refresh, is_stale, refresh_if_stale, find_key, verify,
}
use bedrock_gateway_platform.Auth.Jwks.Accepted.{Accepted, verify-Accepted}
use bedrock_gateway_platform.Auth.Jwks.Rotation.{Publishes, FromCache, FromProvider, verify-Served}

abbrev jo_claims : Claims
jo_claims = record {
  sub = some "jo";
  tenant_id = some "acme";
  application_id = some "app";
  roles = falsy;
}

abbrev second_kid : String
second_kid = "k2"

-- Every token names the second key and is signed with it.
abbrev numbered : Jwt
numbered = record {
  Key = ℕ;
  get_unverified_header = λ token. ok (some "k2");
  decode = λ token key. ok jo_claims;
  repr = λ kid. "'k2'";
}

abbrev rotating : Provider numbered
rotating = record {
  State = ℕ;
  jwks_url = "https://idp.example/jwks";
  http_get = λ n. (ok (("k1", 1) ∷ ("k2", 2) ∷ []), suc n);
}

abbrev old_keys : Verifier numbered rotating
old_keys = record { cache_ttl = 10; keys_by_kid = ("k1", 1) ∷ []; fetched_at = 1; remote = 0 }

abbrev some_token : List ℕ
some_token = 116 ∷ []

old_keys_fresh : is_stale numbered rotating 5 old_keys ≡ false
unfolding is_stale
old_keys_fresh = refl

accepted_token : (verify numbered rotating 5 6 7 some_token old_keys).0 ≡ ok jo_claims
unfolding verify refresh_if_stale is_stale find_key refresh decode Dict.get Dict.put
accepted_token = refl

verify-Accepted_example :
    Accepted numbered rotating 5 6 7 some_token old_keys
      (verify numbered rotating 5 6 7 some_token old_keys).1
      jo_claims
verify-Accepted_example =
    verify-Accepted numbered rotating 5 6 7 some_token old_keys jo_claims accepted_token

second_published : Publishes numbered rotating second_kid 2
unfolding Dict.get Dict.put
second_published = record { reply = λ s. (("k1", 1) ∷ ("k2", 2) ∷ [], suc s, refl, refl) }

verify-Served_example :
    let r = verify numbered rotating 5 6 7 some_token old_keys in
    FromCache numbered rotating 5 6 7 some_token second_kid 2 old_keys r
    ⊎ FromProvider numbered rotating 5 6 7 some_token second_kid 2 old_keys r
verify-Served_example =
    verify-Served numbered rotating 5 6 7 some_token second_kid 2 old_keys refl second_published
