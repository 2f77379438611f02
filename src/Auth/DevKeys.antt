-- ===== src/Auth/DevKeys.antt =====
-- services/gateway/auth/devkeys.py, main.py:_build_default_token_verifier and
-- scripts/generate_dev_token.py. The files of a key pair and the library that signs tokens are
-- parameters; times are whole seconds of the wall clock.
pub mod RoundTrip
use Prim.Native.String
use bedrock_gateway_platform.Base.{
  ℕ, ◌+◌, String, Bool, true, false, Option, none, some, List, [], ◌∷◌, Result, string_eq, ◌==◌,
  if◌then◌else◌,
}
use bedrock_gateway_platform.Base.Text.{f_string}
use bedrock_gateway_platform.Config.Environment.{Settings}
use bedrock_gateway_platform.Auth.Identity.{Claims}
use bedrock_gateway_platform.Auth.Jwks.{DecodeError, or_invalid}
use bedrock_gateway_platform.Pipeline.Authenticate.{TokenVerifier}

-- A private key and its public key, as PEM texts.
pub record KeyPair : Type 0 where
  pub private_key : String
  pub public_key : String

pub record TokenClaims : Type 0 where
  pub sub : String
  pub iss : String
  pub aud : String
  pub iat : ℕ
  pub exp : ℕ
  pub tenant_id : String
  pub application_id : String
  pub roles : List String

-- PyJWT with RS256: `decode` takes the public key, the issuer, the audience, the time and the token.
pub record TokenLibrary : Type 0 where
  pub encode : TokenClaims → String → String
  pub decode : String → String → String → ℕ → List ℕ → Result DecodeError Claims

-- `generated` is what `generate_dev_keypair` gives, if it is called, and `file` what the file at the
-- path holds.
unfoldable pub load_or_create_dev_keypair : KeyPair → Option KeyPair → KeyPair × Option KeyPair
load_or_create_dev_keypair generated (some pair) = (pair, some pair)
load_or_create_dev_keypair generated none = (generated, some generated)

module _ (library : TokenLibrary) where
  unfoldable pub mint_dev_token :
      ℕ → String → String → String → String → String → String → List String → ℕ → String
  mint_dev_token now private_key_pem issuer audience sub tenant_id application_id roles ttl_s =
      library.encode
        (record {
          sub = sub;
          iss = issuer;
          aud = audience;
          iat = now;
          exp = now + ttl_s;
          tenant_id = tenant_id;
          application_id = application_id;
          roles = roles;
        })
        private_key_pem

  -- `StaticKeyVerifier.verify` at the time `now`.
  unfoldable pub verify_with_key : ℕ → String → String → String → TokenVerifier
  verify_with_key now public_key_pem issuer audience token =
      or_invalid (library.decode public_key_pem issuer audience now token)

-- The verifier that the application builds by default.
pub data DefaultVerifier : Type 0 where
  jwks_verifier : String → String → String → ℕ → DefaultVerifier
  static_verifier : String → String → String → DefaultVerifier

unfoldable pub build_default_token_verifier :
    Settings → KeyPair → Option KeyPair → DefaultVerifier × Option KeyPair
build_default_token_verifier settings generated file =
    let (pair, file') = load_or_create_dev_keypair generated file in
    if settings.oidc_jwks_url == ""
    then (static_verifier pair.public_key settings.oidc_issuer settings.oidc_audience, file')
    else (
      jwks_verifier settings.oidc_jwks_url settings.oidc_issuer settings.oidc_audience
          settings.oidc_jwks_cache_ttl_s,
      file,
    )

-- The options of the script after `parse_args`; `roles` is none where the option was not given.
pub record Arguments : Type 0 where
  pub sub : String
  pub tenant_id : String
  pub application_id : String
  pub roles : Option (List String)
  pub ttl_s : ℕ
  pub quiet : Bool

abbrev pub roles_or : String → Option (List String) → List String
roles_or required_role none = required_role ∷ []
roles_or required_role (some roles) = roles

-- What a run of the script prints, and the file after it. `show_roles` is `str` of a list.
pub record Printed : Type 0 where
  pub token : String
  pub lines : List String
  pub warned : Bool
  pub file : Option KeyPair

unfoldable pub generate_dev_token :
    TokenLibrary
    → (List String → String)
    → Settings
    → Arguments
    → ℕ
    → KeyPair
    → Option KeyPair
    → Printed
generate_dev_token library show_roles settings args now generated file =
    let (pair, file') = load_or_create_dev_keypair generated file in
    let roles = roles_or settings.chat_required_role args.roles in
    let token =
      mint_dev_token library now pair.private_key settings.oidc_issuer settings.oidc_audience
        args.sub args.tenant_id args.application_id roles args.ttl_s in
    record {
      token = token;
      lines =
          if args.quiet
          then token ∷ []
          else f_string (
              "tenant_id="
              ∷ args.tenant_id
              ∷ " application_id="
              ∷ args.application_id
              ∷ " roles="
              ∷ show_roles roles
              ∷ [])
            ∷ token
            ∷ [];
      warned = if settings.oidc_jwks_url == "" then false else true;
      file = file';
    }
