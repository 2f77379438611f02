-- ===== src/Examples/Config.antt =====
-- The loaders of policy/store.py, routing/router.py and auth/aws_iam.py on small documents, and an
-- application built from them.
use bedrock_gateway_platform.Base.{
  ◌≡◌, ◌≢◌, refl, String, false, none, some, [], ◌∷◌, ok, raise, string_eq, ◌>>=◌,
}
use bedrock_gateway_platform.Base.Int.{pos, negsuc}
use bedrock_gateway_platform.Dict
use bedrock_gateway_platform.Dict.{Dict}
use bedrock_gateway_platform.Policy.Models.{parse_state, throttled, TenantPolicy}
use bedrock_gateway_platform.Auth.Iam.{
  IamPrincipalGrant, IamTenantResolver, or_unknown, exact_or, resolve,
}
use bedrock_gateway_platform.Config.Numbers.{int_of, digits}
use bedrock_gateway_platform.Config.Yaml.{
  Yaml, null, text, sequence, mapping, no_items, item, no_entries, entry, pairs, or_empty, strings,
  list, LoadError, left_out, integer,
}
use bedrock_gateway_platform.Config.Tables.{read_all}
use bedrock_gateway_platform.Config.Policies.{policy_of, tenants_of, load_policies_from_yaml}
use bedrock_gateway_platform.Config.Policies.Lookups.{Describes, load_policies_from_yaml-Describes}
use bedrock_gateway_platform.Config.Principals.{
  without_last, ends_with_star, grant_of, principals_of, load_iam_tenants,
}
use bedrock_gateway_platform.Config.Principals.Matches.{
  grants_of, wildcard, literal, resolve-load_iam_tenants,
}

abbrev tenants : Dict String Yaml
tenants = pairs (
    entry "acme"
      (mapping (entry "state" (text "THROTTLED") (entry "rpm_limit" (text "120") no_entries)))
      (entry "globex" null no_entries))

abbrev pub tenant_file : Yaml
tenant_file = mapping (
    entry "tenants"
      (mapping (
        entry "acme"
          (mapping (entry "state" (text "THROTTLED") (entry "rpm_limit" (text "120") no_entries)))
          (entry "globex" null no_entries)))
      no_entries)

abbrev tenant_file_entries : Dict String Yaml
tenant_file_entries =
    (
      "tenants",
      mapping (
          entry "acme"
            (mapping (entry "state" (text "THROTTLED") (entry "rpm_limit" (text "120") no_entries)))
            (entry "globex" null no_entries)),
    )
    ∷ []

tenant_file_covered : load_policies_from_yaml tenant_file ≢ raise left_out
unfolding load_policies_from_yaml tenants_of policy_of or_empty Dict.get Dict.put parse_state
    read_all list strings int_of digits ◌>>=◌
tenant_file_covered h = cc h

load_policies_from_yaml-Describes_example : Describes tenants (load_policies_from_yaml tenant_file)
unfolding Dict.get
load_policies_from_yaml-Describes_example =
    load_policies_from_yaml-Describes tenant_file tenant_file_entries tenants refl refl
      (refl, (refl, tt)) tenant_file_covered

abbrev pub acme_policy : TenantPolicy
acme_policy = record {
  tenant_id = "acme";
  state = throttled;
  models = [];
  rpm_limit = pos 120;
  guardrail_policy = "standard-v1";
  route_set = none;
  slo = record { p95_latency_ms = none };
  policy_epoch = pos 1;
  allow_guardrail_bypass_on_error = false;
  debug_capture_enabled = false;
}

throttled_acme :
    policy_of "acme"
      (mapping (entry "state" (text "THROTTLED") (entry "rpm_limit" (text "120") no_entries)))
    ≡ ok acme_policy
unfolding policy_of or_empty Dict.get parse_state list strings int_of digits ◌>>=◌
throttled_acme = refl

-- An epoch may be negative, a latency is counted in hundredths of a millisecond.
negative_epoch :
    policy_of "acme" (
      mapping (
        entry "policy_epoch" (integer (negsuc 1)) (
          entry "slo"
            (mapping (entry "p95_latency_ms" (integer (pos 20)) no_entries))
            (entry "state" (text "THROTTLED") (entry "rpm_limit" (text "120") no_entries)))))
    ≡ ok (record acme_policy {
      policy_epoch = negsuc 1;
      slo = record { p95_latency_ms = some (pos 2000) };
    })
unfolding policy_of or_empty Dict.get parse_state list strings int_of digits ◌>>=◌
negative_epoch = refl

unknown_state :
    load_policies_from_yaml (
      mapping (
        entry "tenants"
          (mapping (entry "acme" (mapping (entry "state" (text "active") no_entries)) no_entries))
          no_entries))
    ≡ raise LoadError.value_error
unfolding load_policies_from_yaml tenants_of policy_of or_empty Dict.get parse_state read_all ◌>>=◌
unknown_state = refl

abbrev grant : String → Yaml
grant tenant = mapping (
    entry "tenant_id" (text tenant) (
      entry "application_id" (text "batch")
        (entry "roles" (sequence (item (text "chat") no_items)) no_entries)))

abbrev pub granted : String → IamPrincipalGrant
granted tenant = record { tenant_id = tenant; application_id = "batch"; roles = "chat" ∷ [] }

-- A pattern with a star stands before a more special one.
abbrev principals : Dict String Yaml
principals = pairs (
    entry "arn:role/*" (grant "acme")
      (entry "arn:role/ops" (grant "globex") (entry "arn:role/o*" (grant "initech") no_entries)))

abbrev pub principal_file : Yaml
principal_file = mapping (
    entry "iam_principals"
      (mapping (
        entry "arn:role/*" (grant "acme") (
          entry "arn:role/ops" (grant "globex")
            (entry "arn:role/o*" (grant "initech") no_entries))))
      no_entries)

abbrev pub grants : Dict String IamPrincipalGrant
grants =
    ("arn:role/*", granted "acme")
    ∷ ("arn:role/ops", granted "globex")
    ∷ ("arn:role/o*", granted "initech")
    ∷ []

resolve-load_iam_tenants_example :
    (resolver : IamTenantResolver) × (load_iam_tenants (some principal_file) ≡ ok resolver)
    × (resolve resolver "arn:role/oscar"
        ≡ or_unknown "arn:role/oscar" (
            exact_or "arn:role/oscar"
              (literal "arn:role/oscar" grants)
              (wildcard "arn:role/oscar" grants)))
unfolding principals_of or_empty Dict.get grants_of grant_of list strings ◌>>=◌
resolve-load_iam_tenants_example =
    resolve-load_iam_tenants principal_file principals grants "arn:role/oscar" refl refl
      (refl, (refl, (refl, tt)))

-- The first pattern of the file is taken, not the longest.
oscar_is_acme : wildcard "arn:role/oscar" grants ≡ some (granted "acme")
unfolding wildcard ends_with_star without_last
oscar_is_acme = refl
