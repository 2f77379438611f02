-- ===== src/Examples/Changes.antt =====
-- A state change of the example gateway's tenant, and what is served after it.
use bedrock_gateway_platform.Base.Int.{pos}
use bedrock_gateway_platform.Base.{◌≡◌, refl, none, some, List, [], ◌∷◌, ok, string_eq}
use bedrock_gateway_platform.Dict
use bedrock_gateway_platform.Policy.Models.{suspended, parse_state}
use bedrock_gateway_platform.Policy.Store
use bedrock_gateway_platform.Policy.Snapshots
use bedrock_gateway_platform.Auth.Identity.{identity_from_claims, has_role}
use bedrock_gateway_platform.Auth.Rbac.{require_role}
use bedrock_gateway_platform.Pipeline.Authenticate.{authenticate, authenticate_jwt, authorize}
use bedrock_gateway_platform.Api.Handler.{◌>>=◌}
use bedrock_gateway_platform.Api.Chat.{chat}
use bedrock_gateway_platform.Api.KillSwitch.{Blocked, kill_switch_holds}
use bedrock_gateway_platform.Api.KillSwitch.Runs.{ApiRequest, chat_request, state_request, serve}
use bedrock_gateway_platform.Api.Admin.{
  StateRequest, json, StateChange, changed, store_change, push_change, set_tenant_state,
}
use bedrock_gateway_platform.Api.Admin
use bedrock_gateway_platform.Api.Admin.Changes.{Done, set_tenant_state-Done}
use bedrock_gateway_platform.Examples.World.{services, readings, gateway, headers, question, caller}

abbrev pub suspension : StateRequest
suspension = record {
  request_id = "r2";
  headers = headers;
  tenant_id = "acme";
  body = json (some "SUSPENDED");
}

abbrev suspension_done : StateChange
suspension_done = record { tenant_id = "acme"; state = suspended; policy_epoch = pos 5 }

suspension_answered : (set_tenant_state services suspension gateway).0 ≡ changed suspension_done
unfolding set_tenant_state Admin.handle authenticate authenticate_jwt identity_from_claims authorize
    require_role has_role parse_state store_change push_change Store.set_state Store.get Dict.get
    Dict.put Snapshots.invalidate ◌>>=◌
suspension_answered = refl

set_tenant_state-Done_example :
    Done services suspension gateway
      (set_tenant_state services suspension gateway).1
      suspension_done
set_tenant_state-Done_example =
    set_tenant_state-Done services suspension gateway suspension_done suspension_answered

caller_known :
    authenticate services.token_verifier services.iam_tenant_resolver (some "Bearer t") none none
    ≡ ok caller
unfolding authenticate authenticate_jwt identity_from_claims
caller_known = refl

-- Requests in between: another chat request of the tenant, and a change for another tenant.
abbrev in_between : List (ApiRequest services)
in_between =
    chat_request readings question
    ∷ state_request (record suspension { tenant_id = "globex" })
    ∷ chat_request readings question
    ∷ []

kill_switch_holds_example :
    let g = serve services (set_tenant_state services suspension gateway).1 in_between in
    Blocked services question g (chat services readings question g)
kill_switch_holds_example =
    kill_switch_holds services suspension gateway suspension_done in_between readings question
      caller suspension_answered refl (tt, (refl, (tt, tt))) caller_known refl refl
