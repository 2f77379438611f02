-- ===== src/Config/Policies.antt =====
-- services/gateway/policy/store.py: `load_policies_from_yaml`, on the document of the file.
pub mod Fields
pub mod Readings
pub mod Lookups
pub mod Owners
use bedrock_gateway_platform.Base.{
  String, true, false, Option, none, some, [], ◌∷◌, ok, raise, ◌>>=◌, string_eq,
}
use bedrock_gateway_platform.Base.Int.{ℤ, pos, times_hundred}
use bedrock_gateway_platform.Dict
use bedrock_gateway_platform.Dict.{Dict}
use bedrock_gateway_platform.Policy.Models.{TenantState, parse_state, TenantPolicy}
use bedrock_gateway_platform.Policy.Store.{PolicyStore}
use bedrock_gateway_platform.Config.Yaml.{
  Yaml, null, boolean, integer, text, sequence, no_items, Loaded, value_error, left_out, truth,
  or_empty, get_or, section, int, string, string_or_none, list,
}
use bedrock_gateway_platform.Config.Tables.{read_all}

abbrev pub known : Option TenantState → Loaded TenantState
known none = raise value_error
known (some state) = ok state

-- TenantState(y)
abbrev pub state_of : Yaml → Loaded TenantState
state_of (text s) = known (parse_state s)
state_of _ = raise value_error

-- A latency in milliseconds, in hundredths of one. Truth values count as numbers.
abbrev pub latency : Yaml → Loaded (Option ℤ)
latency null = ok none
latency (integer n) = ok (some (times_hundred n))
latency (boolean true) = ok (some (pos 100))
latency (boolean false) = ok (some (pos 0))
latency _ = raise left_out

-- The policy of an entry `tenant_id: cfg`. The arguments are evaluated in the order in which the source
-- writes them.
unfoldable pub policy_of : String → Yaml → Loaded TenantPolicy
policy_of tenant_id y = do
  cfg ← or_empty y
  state ← state_of (get_or cfg "state" (text "ACTIVE"))
  models ← list (get_or cfg "models" (sequence no_items))
  rpm_limit ← int (get_or cfg "rpm_limit" (integer (pos 60)))
  guardrail_policy ← string (get_or cfg "guardrail_policy" (text "standard-v1"))
  route_set ← string_or_none (get_or cfg "route_set" null)
  slo_cfg ← section cfg "slo"
  p95_latency_ms ← latency (get_or slo_cfg "p95_latency_ms" null)
  policy_epoch ← int (get_or cfg "policy_epoch" (integer (pos 1)))
  ok (record {
    tenant_id = tenant_id;
    state = state;
    models = models;
    rpm_limit = rpm_limit;
    guardrail_policy = guardrail_policy;
    route_set = route_set;
    slo = record { p95_latency_ms = p95_latency_ms };
    policy_epoch = policy_epoch;
    allow_guardrail_bypass_on_error =
        truth (get_or cfg "allow_guardrail_bypass_on_error" (boolean false));
    debug_capture_enabled = truth (get_or cfg "debug_capture_enabled" (boolean false));
  })

-- (raw.get("tenants") or {}).items()
unfoldable pub tenants_of : Yaml → Loaded (Dict String Yaml)
tenants_of document = do raw ← or_empty document; section raw "tenants"

unfoldable pub load_policies_from_yaml : Yaml → Loaded PolicyStore
load_policies_from_yaml document = do
  tenants ← tenants_of document
  policies ← read_all policy_of tenants []
  ok (record { policies = policies })
