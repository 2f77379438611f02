-- ===== src/Examples/Applications.antt =====
-- An application of services/gateway/main.py built from small documents.
use bedrock_gateway_platform.Base.{◌≡◌, refl, some, List, [], ◌∷◌, ok, string_eq, ◌>>=◌}
use bedrock_gateway_platform.Base.Int.{pos}
use bedrock_gateway_platform.Dict
use bedrock_gateway_platform.Dict.{Dict}
use bedrock_gateway_platform.Policy.Models.{parse_state, active, TenantPolicy}
use bedrock_gateway_platform.Policy.Snapshots
use bedrock_gateway_platform.Policy.Snapshots.Owners.{Owned}
use bedrock_gateway_platform.Config.Numbers.{int_of, digits}
use bedrock_gateway_platform.Config.Yaml.{text, mapping, no_entries, entry, or_empty, strings, list}
use bedrock_gateway_platform.Config.Tables.{read_all}
use bedrock_gateway_platform.Config.Policies.{policy_of, tenants_of, load_policies_from_yaml}
use bedrock_gateway_platform.Config.Routes.{route_set_of, load_route_sets_from_yaml}
use bedrock_gateway_platform.Config.Principals.{
  without_last, ends_with_star, grant_of, store_grant, add_grants, principals_of, load_iam_tenants,
}
use bedrock_gateway_platform.Application.{
  Documents, Collaborators, Tables, load_tables, services_of, create_app,
}
use bedrock_gateway_platform.Application.Sound.{IsSound}
use bedrock_gateway_platform.Application.Reachable.{reachable-IsSound, own_policy}
use bedrock_gateway_platform.Api.KillSwitch.Runs.{ApiRequest, chat_request, state_request, serve}
use bedrock_gateway_platform.Guardrails.Basic.{basic_guardrail_client}
use bedrock_gateway_platform.Examples.Texts.{ascii}
use bedrock_gateway_platform.Examples.World.{settings, counting, services, readings, question}
use bedrock_gateway_platform.Examples.Changes.{suspension}
use bedrock_gateway_platform.Examples.Config.{tenant_file, principal_file, granted, acme_policy}

abbrev documents : Documents
documents = record {
  iam_tenants = some principal_file;
  tenants = tenant_file;
  route_sets = mapping (
      entry "route_sets"
        (mapping
          (entry "default" (mapping (entry "primary" (text "claude") no_entries)) no_entries))
        no_entries);
}

abbrev collaborators : Collaborators
collaborators = record {
  client = counting;
  token_verifier = services.token_verifier;
  guardrail_client = basic_guardrail_client ascii;
  digest = services.digest;
  unicode = ascii;
}

abbrev globex_policy : TenantPolicy
globex_policy = record acme_policy { tenant_id = "globex"; state = active; rpm_limit = pos 60 }

abbrev tables : Tables
tables = record {
  iam_tenant_resolver = record {
    exact = ("arn:role/ops", granted "globex") ∷ [];
    prefixes = ("arn:role/", granted "acme") ∷ ("arn:role/o", granted "initech") ∷ [];
  };
  policy_store = record { policies = ("acme", acme_policy) ∷ ("globex", globex_policy) ∷ [] };
  route_sets = ("default", record { name = "default"; primary = "claude"; fallbacks = [] }) ∷ [];
}

tables_loaded : load_tables documents ≡ ok tables
unfolding load_tables load_iam_tenants principals_of add_grants grant_of store_grant ends_with_star
    without_last load_policies_from_yaml tenants_of policy_of parse_state load_route_sets_from_yaml
    route_set_of read_all or_empty list strings int_of digits Dict.get Dict.put ◌>>=◌
tables_loaded = refl

abbrev requests : List (ApiRequest (services_of settings collaborators tables))
requests =
    chat_request readings question ∷ state_request suspension ∷ chat_request readings question ∷ []

reachable-IsSound_example : IsSound (
    serve
      (services_of settings collaborators tables)
      (create_app settings collaborators 0 tables)
      requests)
reachable-IsSound_example =
    reachable-IsSound settings collaborators documents tables 0 requests tables_loaded

own_policy_example :
    let g =
      serve
        (services_of settings collaborators tables)
        (create_app settings collaborators 0 tables)
        requests in
    Owned "acme" (Snapshots.get 20 21 g.policy_store g.policy_cache "acme").0
own_policy_example =
    own_policy settings collaborators documents tables 0 requests "acme" 20 21 tables_loaded
