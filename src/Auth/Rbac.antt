-- ===== src/Auth/Rbac.antt =====
-- services/gateway/auth/rbac.py.
use bedrock_gateway_platform.Base.{String, [], ◌∷◌, Result, ok, raise, if◌then◌else◌}
use bedrock_gateway_platform.Base.Text.{f_string}
use bedrock_gateway_platform.Auth.Identity.{AuthorizationError, Identity, has_role}

unfoldable pub require_role : Identity → String → Result AuthorizationError (Unit {0})
require_role identity role =
    if has_role identity role
    then ok tt
    else raise (record {
      message = f_string ("role '" ∷ role ∷ "' is required for this operation" ∷ []);
      code = "FORBIDDEN";
    })
