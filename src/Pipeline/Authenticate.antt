-- ===== src/Pipeline/Authenticate.antt =====
-- services/gateway/pipeline.py: the stages that find out who the caller is and what the caller may do.
use bedrock_gateway_platform.Base.{
  ℕ, String, Option, none, some, List, [], ◌∷◌, Result, ok, raise, string_eq, ◌==◌, drop,
  if◌then◌else◌,
}
use bedrock_gateway_platform.Base.Text.{codes, starts_with, strip}
use bedrock_gateway_platform.Auth.Identity.{
  AuthError, AuthorizationError, aws_iam, Identity, Claims, identity_from_claims,
}
use bedrock_gateway_platform.Auth.Rbac.{require_role}
use bedrock_gateway_platform.Auth.Iam.{IamPrincipalGrant, IamTenantResolver, resolve}
use bedrock_gateway_platform.Pipeline.Errors.{PipelineError, error}

-- The protocol `TokenVerifier`: the claims of a token that verifies.
abbrev pub TokenVerifier : Type 0
TokenVerifier = List ℕ → Result AuthError Claims

abbrev pub iam_identity :
    String → Option String → Result AuthError IamPrincipalGrant → Result PipelineError Identity
iam_identity principal_arn account_id (raise exc) = raise (error 403 exc.code exc.message)
iam_identity principal_arn account_id (ok grant) = ok (record {
  sub = principal_arn;
  tenant_id = grant.tenant_id;
  application_id = grant.application_id;
  roles = grant.roles;
  auth_type = aws_iam;
  account_id = account_id;
})

unfoldable pub authenticate_iam :
    IamTenantResolver → String → Option String → Result PipelineError Identity
authenticate_iam resolver principal_arn account_id =
    iam_identity principal_arn account_id (resolve resolver principal_arn)

abbrev pub missing_token : Result PipelineError Identity
missing_token = raise (error 401 "UNAUTHENTICATED" "missing bearer token")

abbrev pub or_unauthenticated : Result AuthError Identity → Result PipelineError Identity
or_unauthenticated (ok identity) = ok identity
or_unauthenticated (raise exc) = raise (error 401 exc.code exc.message)

abbrev pub claims_identity : Result AuthError Claims → Result AuthError Identity
claims_identity (raise exc) = raise exc
claims_identity (ok claims) = identity_from_claims claims

abbrev pub verify_token : TokenVerifier → List ℕ → Result PipelineError Identity
verify_token verify [] = missing_token
verify_token verify (c ∷ token) = or_unauthenticated (claims_identity (verify (c ∷ token)))

-- len("Bearer ")
abbrev pub bearer_length : ℕ
bearer_length = 7

-- The JWT path. An empty header is one that does not start with "Bearer ".
unfoldable pub authenticate_jwt : TokenVerifier → Option String → Result PipelineError Identity
authenticate_jwt verify none = missing_token
authenticate_jwt verify (some header) =
    if starts_with (codes header) (codes "Bearer ")
    then verify_token verify (strip (drop bearer_length (codes header)))
    else missing_token

abbrev pub authenticate_principal :
    Option IamTenantResolver → String → Option String → Result PipelineError Identity
authenticate_principal none principal_arn account_id =
    raise (error 500 "IAM_AUTH_NOT_CONFIGURED" "aws_iam auth is not configured")
authenticate_principal (some resolver) principal_arn account_id =
    authenticate_iam resolver principal_arn account_id

-- The three headers are the authorization, the principal's ARN and the account's id.
unfoldable pub authenticate :
    TokenVerifier
    → Option IamTenantResolver
    → Option String
    → Option String
    → Option String
    → Result PipelineError Identity
authenticate verify resolver header none account_id = authenticate_jwt verify header
authenticate verify resolver header (some principal_arn) account_id =
    if principal_arn == ""
    then authenticate_jwt verify header
    else authenticate_principal resolver principal_arn account_id

abbrev pub or_forbidden : Result AuthorizationError (Unit {0}) → Result PipelineError (Unit {0})
or_forbidden (ok done) = ok done
or_forbidden (raise exc) = raise (error 403 exc.code exc.message)

unfoldable pub authorize : Identity → String → Result PipelineError (Unit {0})
authorize identity required_role = or_forbidden (require_role identity required_role)
