-- ===== src/Config/Policies/Readings.antt =====
-- What an entry of the tenants' file means as a whole, beside `policy_of` of policy/store.py.
use bedrock_gateway_platform.Base.{◌≡◌, refl, String, false, ok, ◌>>=◌, bind-eq-ok, string_eq}
use bedrock_gateway_platform.Base.Int.{pos}
use bedrock_gateway_platform.Dict
use bedrock_gateway_platform.Dict.{Dict}
use bedrock_gateway_platform.Policy.Models.{TenantPolicy}
use bedrock_gateway_platform.Config.Yaml.{Yaml, null, boolean, truth, value_or, get_or}
use bedrock_gateway_platform.Config.Policies.{policy_of}
use bedrock_gateway_platform.Config.Policies.Fields.{
  AreEntries, IsNumber, IsState, IsText, IsOptionalText, AreModels, IsLatency, IsFlag,
}
use bedrock_gateway_platform.Config.Policies.Fields.Calls.{
  ok_iff, or_empty_iff, int_iff, string_iff, string_or_none_iff, latency_iff, truth_iff,
  state_of_iff, list_iff,
}

-- The policy that an entry `tenant: y` stands for. Each field is the value of its key, or the default
-- where the key is missing.
pub record Means (tenant : String) (y : Yaml) (p : TenantPolicy) : Type 0 where
  pub cfg : Dict String Yaml
  pub slo_cfg : Dict String Yaml
  pub are_entries : AreEntries y cfg
  pub are_slo_entries : AreEntries (value_or null (Dict.get "slo" cfg)) slo_cfg
  pub tenant_id : p.tenant_id ≡ tenant
  pub state : IsState (Dict.get "state" cfg) p.state
  pub models : AreModels (Dict.get "models" cfg) p.models
  pub rpm_limit : IsNumber (pos 60) (Dict.get "rpm_limit" cfg) p.rpm_limit
  pub guardrail_policy : IsText "standard-v1" (Dict.get "guardrail_policy" cfg) p.guardrail_policy
  pub route_set : IsOptionalText (Dict.get "route_set" cfg) p.route_set
  pub p95_latency_ms : IsLatency (Dict.get "p95_latency_ms" slo_cfg) p.slo.p95_latency_ms
  pub policy_epoch : IsNumber (pos 1) (Dict.get "policy_epoch" cfg) p.policy_epoch
  pub bypass :
      IsFlag (Dict.get "allow_guardrail_bypass_on_error" cfg) p.allow_guardrail_bypass_on_error
  pub capture : IsFlag (Dict.get "debug_capture_enabled" cfg) p.debug_capture_enabled

pub Means-policy_of :
    (t : String) (y : Yaml) (p : TenantPolicy) → policy_of t y ≡ ok p → Means t y p
unfolding policy_of
Means-policy_of t y p h =
    let (cfg, e0, h0) = bind-eq-ok _ _ p h in
    let (state, e1, h1) = bind-eq-ok _ _ p h0 in
    let (models, e2, h2) = bind-eq-ok _ _ p h1 in
    let (rpm_limit, e3, h3) = bind-eq-ok _ _ p h2 in
    let (guardrail_policy, e4, h4) = bind-eq-ok _ _ p h3 in
    let (route_set, e5, h5) = bind-eq-ok _ _ p h4 in
    let (slo_cfg, e6, h6) = bind-eq-ok _ _ p h5 in
    let (p95_latency_ms, e7, h7) = bind-eq-ok _ _ p h6 in
    let (policy_epoch, e8, h8) = bind-eq-ok _ _ p h7 in
    let made : TenantPolicy = record {
      tenant_id = t;
      state = state;
      models = models;
      rpm_limit = rpm_limit;
      guardrail_policy = guardrail_policy;
      route_set = route_set;
      slo = record { p95_latency_ms = p95_latency_ms };
      policy_epoch = policy_epoch;
      allow_guardrail_bypass_on_error =
          truth (get_or cfg "allow_guardrail_bypass_on_error" (boolean false));
      debug_capture_enabled = truth (get_or cfg "debug_capture_enabled" (boolean false));
    } in
    let same : p ≡ made = (ok_iff made p).0 h8 in
    rw same (record {
      cfg = cfg;
      slo_cfg = slo_cfg;
      are_entries = (or_empty_iff y cfg).0 e0;
      are_slo_entries = (or_empty_iff _ slo_cfg).0 e6;
      tenant_id = refl;
      state = (state_of_iff _ state).0 e1;
      models = (list_iff _ models).0 e2;
      rpm_limit = (int_iff (pos 60) _ rpm_limit).0 e3;
      guardrail_policy = (string_iff "standard-v1" _ guardrail_policy).0 e4;
      route_set = (string_or_none_iff _ route_set).0 e5;
      p95_latency_ms = (latency_iff _ p95_latency_ms).0 e7;
      policy_epoch = (int_iff (pos 1) _ policy_epoch).0 e8;
      bypass = (truth_iff _ _).0 refl;
      capture = (truth_iff _ _).0 refl;
    })

pub policy_of-Means :
    (t : String) (y : Yaml) (p : TenantPolicy) → Means t y p → policy_of t y ≡ ok p
unfolding policy_of ◌>>=◌
policy_of-Means t y p m =
    rw
      (
        (or_empty_iff y m.cfg).1 m.are_entries,
        (state_of_iff _ p.state).1 m.state,
        (list_iff _ p.models).1 m.models,
        (int_iff (pos 60) _ p.rpm_limit).1 m.rpm_limit,
        (string_iff "standard-v1" _ p.guardrail_policy).1 m.guardrail_policy,
        (string_or_none_iff _ p.route_set).1 m.route_set,
        (or_empty_iff _ m.slo_cfg).1 m.are_slo_entries,
        (latency_iff _ p.slo.p95_latency_ms).1 m.p95_latency_ms,
        (int_iff (pos 1) _ p.policy_epoch).1 m.policy_epoch,
        (truth_iff _ p.allow_guardrail_bypass_on_error).1 m.bypass,
        (truth_iff _ p.debug_capture_enabled).1 m.capture,
        ← m.tenant_id,
      )
      refl
