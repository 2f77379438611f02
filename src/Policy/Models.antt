-- ===== src/Policy/Models.antt =====
-- services/gateway/policy/models.py: tenant states and policies.
use bedrock_gateway_platform.Base.{
  String, Bool, true, false, Option, none, some, List, string_eq, ◌==◌, if◌then◌else◌,
}
use bedrock_gateway_platform.Base.Int.{ℤ}

pub data TenantState : Type 0 where
  active throttled read_only suspended emergency_block : TenantState

-- The string that stands for the state in JSON and in YAML.
abbrev pub value : TenantState → String
value TenantState.active = "ACTIVE"
value TenantState.throttled = "THROTTLED"
value TenantState.read_only = "READ_ONLY"
value TenantState.suspended = "SUSPENDED"
value TenantState.emergency_block = "EMERGENCY_BLOCK"

-- TenantState(raw), for a string; nothing where it raises ValueError.
unfoldable pub parse_state : String → Option TenantState
parse_state raw =
    if raw == "ACTIVE"
    then some TenantState.active
    else if raw == "THROTTLED"
    then some TenantState.throttled
    else if raw == "READ_ONLY"
    then some TenantState.read_only
    else if raw == "SUSPENDED"
    then some TenantState.suspended
    else if raw == "EMERGENCY_BLOCK"
    then some TenantState.emergency_block
    else none

-- state in BLOCKING_STATES
abbrev pub is_blocking : TenantState → Bool
is_blocking TenantState.suspended = true
is_blocking TenantState.emergency_block = true
is_blocking _ = false

-- state == TenantState.THROTTLED
abbrev pub is_throttled : TenantState → Bool
is_throttled TenantState.throttled = true
is_throttled _ = false

-- Latencies are counted in hundredths of a millisecond, to which the program rounds them.
pub record TenantSlo : Type 0 where
  pub p95_latency_ms : Option ℤ

pub record TenantPolicy : Type 0 where
  pub tenant_id : String
  pub state : TenantState
  pub models : List String
  pub rpm_limit : ℤ
  pub guardrail_policy : String
  pub route_set : Option String
  pub slo : TenantSlo
  pub policy_epoch : ℤ
  pub allow_guardrail_bypass_on_error : Bool
  pub debug_capture_enabled : Bool

pub record UnknownTenantError : Type 0 where
  pub tenant_id : String
