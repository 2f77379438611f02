-- ===== src/Examples/DevTokens.antt =====
-- scripts/generate_dev_token.py and the server that reads its token, with a library that knows one
-- token.
use bedrock_gateway_platform.Base.{◌≡◌, refl, String, false, none, List, [], ◌∷◌, ok, arith}
use bedrock_gateway_platform.Auth.DevKeys.{
  KeyPair, TokenLibrary, load_or_create_dev_keypair, build_default_token_verifier, Arguments,
  generate_dev_token, mint_dev_token,
}
use bedrock_gateway_platform.Auth.DevKeys.RoundTrip.{
  IsLawful, claims_of, claims_at, Accepted, holder, generate_dev_token-Accepted,
}
use bedrock_gateway_platform.Examples.World.{settings}

abbrev arguments : Arguments
arguments = record {
  sub = "dev-user";
  tenant_id = "finance";
  application_id = "risk-chat";
  roles = none;
  ttl_s = 3600;
  quiet = false;
}

abbrev pair : KeyPair
pair = record { private_key = "private"; public_key = "public" }

abbrev other_pair : KeyPair
other_pair = record { private_key = "private 2"; public_key = "public 2" }

abbrev one_token : TokenLibrary
one_token = record {
  encode = λ c key. "ey.J";
  decode = λ key issuer audience now token. ok (claims_of (claims_at settings arguments 100));
}

one_token-IsLawful :
    IsLawful one_token (load_or_create_dev_keypair pair none).0 (claims_at settings arguments 100)
one_token-IsLawful = record {
  decode-encode = λ now from until. refl;
  strip-encode = refl;
  encode-ne-nil = λ h. cc h;
}

abbrev show : List String → String
show roles = "['chat']"

generate_dev_token-Accepted_example :
    let printed = generate_dev_token one_token show settings arguments 100 pair none in
    Accepted one_token settings
      (build_default_token_verifier settings other_pair printed.file).0
      200
      printed.token
      (holder "dev-user" "finance" "risk-chat" ("chat" ∷ []))
generate_dev_token-Accepted_example =
    generate_dev_token-Accepted one_token show settings arguments pair other_pair none 100 200
      one_token-IsLawful refl refl refl refl (omega arith) (omega arith)

printed_lines :
    (generate_dev_token one_token show settings arguments 100 pair none).lines
    ≡ "tenant_id=finance application_id=risk-chat roles=['chat']" ∷ "ey.J" ∷ []
unfolding generate_dev_token load_or_create_dev_keypair mint_dev_token
printed_lines = refl
