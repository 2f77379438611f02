-- ===== src/Auth/Iam.antt =====
-- services/gateway/auth/aws_iam.py: `FileIamTenantResolver`, after it has read its file.
use bedrock_gateway_platform.Base.{
  String, Option, none, some, List, [], ◌∷◌, Result, ok, raise, string_eq, if◌then◌else◌,
}
use bedrock_gateway_platform.Base.Text.{codes, starts_with, f_string}
use bedrock_gateway_platform.Dict
use bedrock_gateway_platform.Dict.{Dict}
use bedrock_gateway_platform.Auth.Identity.{AuthError}

pub record IamPrincipalGrant : Type 0 where
  pub tenant_id : String
  pub application_id : String
  pub roles : List String

-- A pattern that ends in "*" stands among the prefixes, without its star.
pub record IamTenantResolver : Type 0 where
  pub exact : Dict String IamPrincipalGrant
  pub prefixes : Dict String IamPrincipalGrant

-- The first prefix, in the order of the file, that the ARN starts with.
unfoldable pub first_prefix : String → Dict String IamPrincipalGrant → Option IamPrincipalGrant
first_prefix arn [] = none
first_prefix arn ((prefix, candidate) ∷ rest) =
    if starts_with (codes arn) (codes prefix) then some candidate else first_prefix arn rest

abbrev pub or_unknown : String → Option IamPrincipalGrant → Result AuthError IamPrincipalGrant
or_unknown arn (some grant) = ok grant
or_unknown arn none = raise (record {
  message = f_string ("no tenant mapping for IAM principal '" ∷ arn ∷ "'" ∷ []);
  code = "UNKNOWN_IAM_PRINCIPAL";
})

abbrev pub exact_or :
    String → Option IamPrincipalGrant → Option IamPrincipalGrant → Option IamPrincipalGrant
exact_or arn (some grant) by_prefix = some grant
exact_or arn none by_prefix = by_prefix

unfoldable pub resolve : IamTenantResolver → String → Result AuthError IamPrincipalGrant
resolve resolver arn =
    or_unknown arn (exact_or arn (Dict.get arn resolver.exact) (first_prefix arn resolver.prefixes))
