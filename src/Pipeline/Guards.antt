-- ===== src/Pipeline/Guards.antt =====
-- When a stage of pipeline.py lets a request pass.
use bedrock_gateway_platform.Base.{
  ℕ, String, ◌≡◌, ◌↔◌, refl, Bool, true, false, not, ◌&&◌, subst, Option, none, some, List, [], ◌∷◌,
  Result, ok, raise, string_eq, contains, arith,
}
use bedrock_gateway_platform.Policy.Models.{is_blocking, TenantPolicy}
use bedrock_gateway_platform.Policy.Limiter
use bedrock_gateway_platform.Policy.Limiter.{TokenBucketRateLimiter}
use bedrock_gateway_platform.Guardrails.Models.{
  allow, low_risk, GuardrailDecision, GuardrailCheckError, GuardrailClient,
}
use bedrock_gateway_platform.Guardrails.FailClosed.{
  GuardrailUnavailableError, classify_safety, bypass, run_guardrail_check,
}
use bedrock_gateway_platform.Auth.Identity.{Identity, has_role}
use bedrock_gateway_platform.Auth.Rbac.{require_role}
use bedrock_gateway_platform.Pipeline.Authenticate.{authorize}
use bedrock_gateway_platform.Pipeline.Admission.{
  enforce_kill_switch, enforce_rate_limit, effective_limit, enforce_model_allowlist, or_exceeded,
  is_empty, first_or,
}
use bedrock_gateway_platform.Pipeline.Guardrail.{
  run_guardrail, act_on, action_of, check_input_guardrail, check_output_guardrail,
}

pub authorize_passes :
    (identity : Identity) (role : String) {u : Unit {0}}
    → authorize identity role ≡ ok u
    → contains role identity.roles ≡ true
unfolding authorize require_role has_role
authorize_passes identity role h = ground (arith, h)

pub kill_switch_passes :
    (policy : TenantPolicy) {u : Unit {0}}
    → enforce_kill_switch policy ≡ ok u
    → is_blocking policy.state ≡ false
unfolding enforce_kill_switch
kill_switch_passes policy h = ground (arith, h)

or_exceeded_passes :
    (t : String) (answer : Bool × TokenBucketRateLimiter) {u : Unit {0}}
    → (or_exceeded t answer).0 ≡ ok u
    → answer.0 ≡ true
or_exceeded_passes t (true, l) h = refl
or_exceeded_passes t (false, l) h = cc

pub rate_limit_passes :
    (now : ℕ) (limiter : TokenBucketRateLimiter) (policy : TenantPolicy) {u : Unit {0}}
    → (enforce_rate_limit now limiter policy).0 ≡ ok u
    → (Limiter.allow now limiter policy.tenant_id (effective_limit policy)).0 ≡ true
unfolding enforce_rate_limit
rate_limit_passes now limiter policy h =
    or_exceeded_passes policy.tenant_id
      (Limiter.allow now limiter policy.tenant_id (effective_limit policy)) h

-- The model of a request is one that the policy permits: the model asked for, if it is on the
-- allowlist or there is none; else the first on the allowlist, or the default where there is none.
pub data Permitted (models : List String) (default : String) (request : Option String) (m : String)
    : Type 0 where
  listed : request ≡ some m → contains m models ≡ true → Permitted models default request m
  unrestricted : request ≡ some m → models ≡ [] → Permitted models default request m
  first :
      (rest : List String) → request ≡ none → models ≡ m ∷ rest → Permitted models default request m
  default_model : request ≡ none → models ≡ [] → m ≡ default → Permitted models default request m

Permitted-first_or :
    (models : List String) (default : String)
    → Permitted models default none (first_or models default)
Permitted-first_or [] default = default_model refl refl refl
Permitted-first_or (m ∷ rest) default = first rest refl refl

Permitted-some :
    (models : List String) (default r : String)
    → (not (is_empty models) && not (contains r models)) ≡ false
    → Permitted models default (some r) r
Permitted-some [] default r h = unrestricted refl refl
Permitted-some (m ∷ rest) default r h = listed refl (ground (arith, h))

pub allowlist_passes :
    (policy : TenantPolicy) (request : Option String) (default m : String)
    → enforce_model_allowlist policy request default ≡ ok m
    → Permitted policy.models default request m
unfolding enforce_model_allowlist
allowlist_passes policy none default m h =
    let e : first_or policy.models default ≡ m = ground (arith, h) in
    subst (Permitted policy.models default none) e (Permitted-first_or policy.models default)
allowlist_passes policy (some r) default m h =
    let e : r ≡ m = ground (arith, h) in
    let open_list : (not (is_empty policy.models) && not (contains r policy.models)) ≡ false =
      ground (arith, h) in
    rw (← e) (Permitted-some policy.models default r open_list)

-- A check cleared its text: it completed and allows, or it failed under a low-risk guardrail policy
-- whose tenant opted into going on.
pub data Cleared (policy : TenantPolicy)
    : Result GuardrailCheckError GuardrailDecision → Type 0 where
  allowed : (d : GuardrailDecision) → d.action ≡ allow → Cleared policy (ok d)
  bypassed :
      (e : GuardrailCheckError)
      → classify_safety policy.guardrail_policy ≡ low_risk
      → policy.allow_guardrail_bypass_on_error ≡ true
      → Cleared policy (raise e)

act_on_passes :
    (status : ℕ) (code default : String) (o : Result GuardrailUnavailableError GuardrailDecision)
    {d : GuardrailDecision}
    → act_on status code default o (action_of o) ≡ ok d
    → (o ≡ ok d) × (d.action ≡ allow)
act_on_passes status code default (raise e) h = cc
act_on_passes status code default (ok x) h = ground (arith, h)

Cleared-run :
    (policy : TenantPolicy) (check : Result GuardrailCheckError GuardrailDecision)
    (d : GuardrailDecision)
    → run_guardrail check policy ≡ ok d
    → d.action ≡ allow
    → Cleared policy check
unfolding run_guardrail run_guardrail_check
Cleared-run policy (ok x) d h a = allowed x (ground (arith, h, a))
Cleared-run policy (raise e) d h a = bypassed e (ground (arith, h)) (ground (arith, h))

pub input_guardrail_passes :
    (client : GuardrailClient) (policy : TenantPolicy) (text : String) {d : GuardrailDecision}
    → check_input_guardrail client policy text ≡ ok d
    → Cleared policy (client.check_input text policy.guardrail_policy)
unfolding check_input_guardrail
input_guardrail_passes client policy text {d} h =
    let check = client.check_input text policy.guardrail_policy in
    let (same, allows) =
      act_on_passes 400 "INPUT_BLOCKED" "input blocked by guardrail" (run_guardrail check policy)
        h in
    Cleared-run policy check d same allows

pub output_guardrail_passes :
    (client : GuardrailClient) (policy : TenantPolicy) (text : String) {d : GuardrailDecision}
    → check_output_guardrail client policy text ≡ ok d
    → Cleared policy (client.check_output text policy.guardrail_policy)
unfolding check_output_guardrail
output_guardrail_passes client policy text {d} h =
    let check = client.check_output text policy.guardrail_policy in
    let (same, allows) =
      act_on_passes 502 "OUTPUT_BLOCKED" "output blocked by guardrail" (run_guardrail check policy)
        h in
    Cleared-run policy check d same allows

Cleared-act_on :
    (status : ℕ) (code default : String) (policy : TenantPolicy)
    (check : Result GuardrailCheckError GuardrailDecision)
    → Cleared policy check
    → let o = run_guardrail check policy in
      ((d : GuardrailDecision) × (act_on status code default o (action_of o) ≡ ok d))
unfolding run_guardrail run_guardrail_check
Cleared-act_on status code default policy _ (allowed d a) = (d, simp a)
Cleared-act_on status code default policy _ (bypassed e low opted) = (bypass e, rw (low, opted))

-- The input guardrail lets a text pass exactly if its check completes and allows it, or if the check
-- fails under a low-risk guardrail policy whose tenant opted into going on.
pub input_guardrail_iff :
    (client : GuardrailClient) (policy : TenantPolicy) (text : String)
    → ((d : GuardrailDecision) × (check_input_guardrail client policy text ≡ ok d))
      ↔ Cleared policy (client.check_input text policy.guardrail_policy)
unfolding check_input_guardrail
input_guardrail_iff client policy text = (
  λ p. input_guardrail_passes client policy text p.1,
  Cleared-act_on 400 "INPUT_BLOCKED" "input blocked by guardrail" policy
      (client.check_input text policy.guardrail_policy),
)

Permitted-goes_on :
    (policy : TenantPolicy) (request : Option String) (default m : String)
    → Permitted policy.models default request m
    → enforce_model_allowlist policy request default ≡ ok m
unfolding enforce_model_allowlist
Permitted-goes_on policy request default m (listed e h) = rw e (ground (arith, h))
Permitted-goes_on policy request default m (unrestricted e h) = rw e (ground (arith, h))
Permitted-goes_on policy request default m (first rest e h) = rw e (ground (arith, h))
Permitted-goes_on policy request default m (default_model e h same) = rw e (ground (arith, h, same))

-- The stage gives a model exactly if the policy permits it: the model asked for, on the allowlist or
-- where there is none, or without one asked for the first of the allowlist, or else the default.
pub allowlist_iff :
    (policy : TenantPolicy) (request : Option String) (default m : String)
    → (enforce_model_allowlist policy request default ≡ ok m)
      ↔ Permitted policy.models default request m
allowlist_iff policy request default m =
    (allowlist_passes policy request default m, Permitted-goes_on policy request default m)
