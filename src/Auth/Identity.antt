-- ===== src/Auth/Identity.antt =====
-- services/gateway/auth/identity.py.
use bedrock_gateway_platform.Base.{
  String, Bool, Option, none, some, List, [], ◌∷◌, ◌++◌, Result, ok, raise, string_eq, ◌==◌,
  contains, if◌then◌else◌,
}
use bedrock_gateway_platform.Base.Text.{f_string, join_comma}

pub record AuthError : Type 0 where
  pub message : String
  pub code : String

pub record AuthorizationError : Type 0 where
  pub message : String
  pub code : String

pub data AuthType : Type 0 where
  jwt aws_iam : AuthType

pub record Identity : Type 0 where
  pub sub : String
  pub tenant_id : String
  pub application_id : String
  pub roles : List String
  pub auth_type : AuthType
  pub account_id : Option String

unfoldable pub has_role : Identity → String → Bool
has_role identity role = contains role identity.roles

-- An element of a list in the 'roles' claim: a string, or anything else.
pub data RolesItem : Type 0 where
  role : String → RolesItem
  other_item : RolesItem

-- The 'roles' claim: a falsy value or none, a list, or another truthy value.
pub data RolesClaim : Type 0 where
  falsy : RolesClaim
  items : List RolesItem → RolesClaim
  not_list : RolesClaim

-- The claims that are read from a verified token. The identifying claims are strings where present.
pub record Claims : Type 0 where
  pub sub : Option String
  pub tenant_id : Option String
  pub application_id : Option String
  pub roles : RolesClaim

-- `not value`, and the value where it is truthy.
abbrev pub truthy : Option String → Option String
truthy none = none
truthy (some s) = if s == "" then none else some s

-- The names of the claims that are missing, in order.
abbrev pub missing_name : String → Option String → List String
missing_name name none = name ∷ []
missing_name name (some s) = []

-- The roles, if all elements are strings.
abbrev pub add_role : RolesItem → Option (List String) → Option (List String)
add_role (role r) (some rs) = some (r ∷ rs)
add_role (role r) none = none
add_role other_item rs = none

abbrev pub all_roles : List RolesItem → Option (List String)
all_roles [] = some []
all_roles (i ∷ is) = add_role i (all_roles is)

abbrev pub roles_of : RolesClaim → Option (List String)
roles_of falsy = some []
roles_of (items is) = all_roles is
roles_of not_list = none

abbrev pub unauthenticated : String → AuthError
unauthenticated message = record { message = message; code = "UNAUTHENTICATED" }

abbrev pub missing_claims : List String → AuthError
missing_claims names =
    unauthenticated (f_string ("token is missing required claim(s): " ∷ join_comma names ∷ []))

abbrev pub with_roles : String → String → String → Option (List String) → Result AuthError Identity
with_roles sub tenant_id application_id none =
    raise (unauthenticated "token 'roles' claim must be a list of strings")
with_roles sub tenant_id application_id (some roles) = ok (record {
  sub = sub;
  tenant_id = tenant_id;
  application_id = application_id;
  roles = roles;
  auth_type = jwt;
  account_id = none;
})

abbrev pub from_truthy :
    Option String → Option String → Option String → RolesClaim → Result AuthError Identity
from_truthy (some sub) (some tenant_id) (some application_id) roles =
    with_roles sub tenant_id application_id (roles_of roles)
from_truthy sub tenant_id application_id roles = raise (
    missing_claims (
      missing_name "sub" sub
      ++ (missing_name "tenant_id" tenant_id ++ missing_name "application_id" application_id)))

unfoldable pub identity_from_claims : Claims → Result AuthError Identity
identity_from_claims claims =
    from_truthy (truthy claims.sub) (truthy claims.tenant_id) (truthy claims.application_id)
      claims.roles
