-- ===== src/Auth/DevKeys/RoundTrip.antt =====
-- A token of scripts/generate_dev_token.py opens the gateway.
use Prim.Native.Char.{code}
use Prim.Native.String
use Prim.Native.String.append.{nil, cons}
use bedrock_gateway_platform.Base.{
  ℕ, ◌+◌, ◌≤◌, ◌<◌, ◌≡◌, ◌≢◌, refl, ap, ◌∙◌, String, false, Option, none, some, List, [], ◌∷◌, ◌++◌,
  map, ok, string_eq, ◌==◌,
}
use bedrock_gateway_platform.Base.Text.{codes, strip}
use bedrock_gateway_platform.Config.Environment.{Settings}
use bedrock_gateway_platform.Auth.Identity.{
  Identity, jwt, Claims, role, items, all_roles, identity_from_claims,
}
use bedrock_gateway_platform.Auth.Jwks.{or_invalid}
use bedrock_gateway_platform.Pipeline.Authenticate.{TokenVerifier, authenticate_jwt, verify_token}
use bedrock_gateway_platform.Auth.DevKeys.{
  KeyPair, TokenClaims, TokenLibrary, load_or_create_dev_keypair, mint_dev_token, verify_with_key,
  DefaultVerifier, static_verifier, build_default_token_verifier, Arguments, roles_or,
  generate_dev_token,
}

codes-append : (s t : String) → codes (String.◌++◌ s t) ≡ codes s ++ codes t
codes-append String.[] t = λ i. codes (nil t i)
codes-append (String.◌∷◌ c s) t =
    (λ i. codes (cons c s t i)) ∙ ap (λ r. code c ∷ r) (codes-append s t)

-- The claims that the gateway reads of those that the token holds.
abbrev pub claims_of : TokenClaims → Claims
claims_of c = record {
  sub = some c.sub;
  tenant_id = some c.tenant_id;
  application_id = some c.application_id;
  roles = items (map (λ r. role r) c.roles);
}

-- What PyJWT promises of a token that it has signed with the private key of a pair: the public key
-- reads the claims back, for the issuer and the audience that they name, from the time the token was
-- issued to its expiry; and the token is a word without white space around it.
pub record IsLawful (library : TokenLibrary) (pair : KeyPair) (c : TokenClaims) : Type 0 where
  pub decode-encode :
      (now : ℕ)
      → c.iat ≤ now
      → now < c.exp
      → library.decode pair.public_key c.iss c.aud now (codes (library.encode c pair.private_key))
        ≡ ok (claims_of c)
  pub strip-encode :
      strip (codes (library.encode c pair.private_key)) ≡ codes (library.encode c pair.private_key)
  pub encode-ne-nil : codes (library.encode c pair.private_key) ≢ []

all_roles-map : (roles : List String) → all_roles (map (λ r. role r) roles) ≡ some roles
all_roles-map [] = refl
all_roles-map (r ∷ rs) = rw (all_roles-map rs) refl

-- The server and the script read the same pair, whichever comes first.
load_or_create_agrees :
    (g h : KeyPair) (file : Option KeyPair)
    → (load_or_create_dev_keypair h (load_or_create_dev_keypair g file).1).0
      ≡ (load_or_create_dev_keypair g file).0
unfolding load_or_create_dev_keypair
load_or_create_agrees g h none = refl
load_or_create_agrees g h (some pair) = refl

abbrev pub holder : String → String → String → List String → Identity
holder sub tenant_id application_id roles = record {
  sub = sub;
  tenant_id = tenant_id;
  application_id = application_id;
  roles = roles;
  auth_type = jwt;
  account_id = none;
}

identity-claims_of :
    (c : TokenClaims)
    → (c.sub == "") ≡ false
    → (c.tenant_id == "") ≡ false
    → (c.application_id == "") ≡ false
    → identity_from_claims (claims_of c) ≡ ok (holder c.sub c.tenant_id c.application_id c.roles)
unfolding identity_from_claims
identity-claims_of c h1 h2 h3 = rw (h1, h2, h3, all_roles-map c.roles) refl

-- A bearer token that the verifier accepts.
bearer_accepted :
    (verify : TokenVerifier) (token : String) (claims : Claims) (identity : Identity)
    → strip (codes token) ≡ codes token
    → codes token ≢ []
    → verify (codes token) ≡ ok claims
    → identity_from_claims claims ≡ ok identity
    → authenticate_jwt verify (some (String.◌++◌ "Bearer " token)) ≡ ok identity
unfolding authenticate_jwt
bearer_accepted verify token claims identity plain full accepted known =
    rw (codes-append "Bearer " token, plain) (go (codes token) full accepted)
  where
    go : (t : List ℕ) → t ≢ [] → verify t ≡ ok claims → verify_token verify t ≡ ok identity
    go [] n a = absurd (n refl)
    go (c ∷ t) n a = rw (a, known) refl

-- What the server builds, and whom it takes the bearer of the token for.
pub record Accepted (library : TokenLibrary) (settings : Settings) (verifier : DefaultVerifier)
    (later : ℕ) (token : String) (identity : Identity) : Type 0 where
  pub public_key : String
  pub built : verifier ≡ static_verifier public_key settings.oidc_issuer settings.oidc_audience
  pub accepted :
      authenticate_jwt
        (verify_with_key library later public_key settings.oidc_issuer settings.oidc_audience)
        (some (String.◌++◌ "Bearer " token))
      ≡ ok identity

static_built :
    (settings : Settings) (g h : KeyPair) (file : Option KeyPair)
    → settings.oidc_jwks_url ≡ ""
    → (build_default_token_verifier settings h (load_or_create_dev_keypair g file).1).0
      ≡ static_verifier
          (load_or_create_dev_keypair g file).0.public_key
          settings.oidc_issuer
          settings.oidc_audience
unfolding build_default_token_verifier
static_built settings g h file none_set = rw (none_set, load_or_create_agrees g h file) refl

-- The claims of the token of a run of the script at the time `now`.
abbrev pub claims_at : Settings → Arguments → ℕ → TokenClaims
claims_at settings args now = record {
  sub = args.sub;
  iss = settings.oidc_issuer;
  aud = settings.oidc_audience;
  iat = now;
  exp = now + args.ttl_s;
  tenant_id = args.tenant_id;
  application_id = args.application_id;
  roles = roles_or settings.chat_required_role args.roles;
}

-- Without a provider of keys, and whether or not there was a key pair before: a server that is started
-- after a run of the script, over the same file, verifies with the public key of the pair that the
-- script signed with. Until the token expires, a request that carries it is authenticated as the
-- subject, tenant and application that the script was given, if none of them is empty, with the roles
-- that it was given or else the role that chat requires. It is assumed that the library reads back
-- what it has signed with the pair.
pub generate_dev_token-Accepted :
    (library : TokenLibrary) (show_roles : List String → String) (settings : Settings)
    (args : Arguments) (g h : KeyPair) (file : Option KeyPair) (now later : ℕ)
    → IsLawful library (load_or_create_dev_keypair g file).0 (claims_at settings args now)
    → settings.oidc_jwks_url ≡ ""
    → (args.sub == "") ≡ false
    → (args.tenant_id == "") ≡ false
    → (args.application_id == "") ≡ false
    → now ≤ later
    → later < now + args.ttl_s
    → let printed = generate_dev_token library show_roles settings args now g file in
      Accepted library settings
        (build_default_token_verifier settings h printed.file).0
        later
        printed.token
        (holder args.sub args.tenant_id args.application_id
          (roles_or settings.chat_required_role args.roles))
unfolding generate_dev_token mint_dev_token verify_with_key
generate_dev_token-Accepted library show_roles settings args g h file now later lawful none_set h1
      h2 h3 from until =
    let keys = (load_or_create_dev_keypair g file).0 in
    let claims = claims_at settings args now in
    record {
      public_key = keys.public_key;
      built = static_built settings g h file none_set;
      accepted =
          bearer_accepted _ (library.encode claims keys.private_key) (claims_of claims) _
            lawful.strip-encode lawful.encode-ne-nil
            (ap or_invalid (lawful.decode-encode later from until))
            (identity-claims_of claims h1 h2 h3);
    }
