-- ===== src/Examples/Policy.antt =====
-- The policy plane and the rate limiter at concrete tenants.
use bedrock_gateway_platform.Base.{
  ◌+◌, ◌≡◌, refl, String, true, false, none, List, [], ◌∷◌, ok, arith, string_eq,
}
use bedrock_gateway_platform.Base.Int.{pos}
use bedrock_gateway_platform.Dict
use bedrock_gateway_platform.Policy.Models.{TenantState, active, suspended, TenantPolicy}
use bedrock_gateway_platform.Policy.Store
use bedrock_gateway_platform.Policy.Store.{PolicyStore}
use bedrock_gateway_platform.Policy.Snapshots
use bedrock_gateway_platform.Policy.Snapshots.Staleness.{
  Plane, Event, read, change, push, step, run,
}
use bedrock_gateway_platform.Policy.Snapshots.Staleness.Bounds.{staleness_bounded, push_immediate}
use bedrock_gateway_platform.Policy.Limiter.{
  minute, refill, take_token, TokenBucketRateLimiter, allow,
}
use bedrock_gateway_platform.Policy.Limiter.Calls.{allow_isolated, allow_available}
use bedrock_gateway_platform.Policy.Limiter.Rate.{Call, admitted, admitted_rate}
use bedrock_gateway_platform.Base.Int.{max_zero}
use bedrock_gateway_platform.Base.{◌≤◌, ◌*◌, ◌-◌}

abbrev acme : String
acme = "acme"

abbrev globex : String
globex = "globex"

abbrev pub policy_of : String → TenantState → TenantPolicy
policy_of t state = record {
  tenant_id = t;
  state = state;
  models = "claude" ∷ [];
  rpm_limit = pos 2;
  guardrail_policy = "strict-v1";
  route_set = none;
  slo = record { p95_latency_ms = none };
  policy_epoch = pos 4;
  allow_guardrail_bypass_on_error = false;
  debug_capture_enabled = false;
}

abbrev pub two_tenants : PolicyStore
two_tenants = record {
  policies = (acme, policy_of acme active) ∷ (globex, policy_of globex active) ∷ [];
}

abbrev pub new_plane : Plane
new_plane = record { store = two_tenants; cache = record { ttl = 10; snapshots = [] } }

-- A reader warms the cache at time 3; others read and change while the lease runs.
abbrev warm : List Event
warm = read acme 2 3 ∷ []

abbrev others : List Event
others = read acme 5 6 ∷ change globex suspended ∷ push globex ∷ read globex 7 8 ∷ []

stale_read :
    let q = run (step (run new_plane warm) (change acme suspended)) others in
    ((Snapshots.get 9 9 q.store q.cache acme).0 ≡ ok (policy_of acme active))
unfolding run step Snapshots.get Snapshots.probe Snapshots.fill Snapshots.invalidate Store.get
    Store.set_state Dict.get Dict.put Dict.pop
stale_read = refl

staleness_bounded_example :
    let q = run (step (run new_plane warm) (change acme suspended)) others in
    ((Snapshots.get 13 14 q.store q.cache acme).0
      ≡ (Store.set_state (run new_plane warm).store acme suspended).0)
staleness_bounded_example =
    staleness_bounded acme suspended others new_plane warm 3 13 14 refl (omega arith, tt) (refl, tt)
      (omega arith)

push_immediate_example :
    let q = run (step (step (run new_plane warm) (change acme suspended)) (push acme)) others in
    ((Snapshots.get 9 9 q.store q.cache acme).0
      ≡ (Store.set_state (run new_plane warm).store acme suspended).0)
push_immediate_example = push_immediate acme suspended others (run new_plane warm) 9 9 (refl, tt)

abbrev empty_limiter : TokenBucketRateLimiter
empty_limiter = []

abbrev three_calls : List Call
three_calls =
    record { now = 0; tenant_id = acme; rpm_limit = pos 2 }
    ∷ record { now = 0; tenant_id = globex; rpm_limit = pos 1 }
    ∷ record { now = 5; tenant_id = acme; rpm_limit = pos 2 }
    ∷ record { now = 9; tenant_id = acme; rpm_limit = pos 2 }
    ∷ []

admitted_rate_example :
    admitted acme empty_limiter three_calls * minute ≤ max_zero (pos 2) * (minute + (9 - 0))
unfolding Dict.get
admitted_rate_example = admitted_rate acme (pos 2) 0 9 empty_limiter three_calls tt (
  omega arith,
  λ h. refl,
  (omega arith, λ h. cc, (omega arith, λ h. refl, (omega arith, λ h. refl, omega arith))),
)

allow_isolated_example :
    (allow 7 (allow 5 empty_limiter globex (pos 1)).1 acme (pos 2)).0
    ≡ (allow 7 empty_limiter acme (pos 2)).0
allow_isolated_example = allow_isolated 5 7 empty_limiter acme globex (pos 2) (pos 1) refl

allow_available_example :
    (allow 30000000000 (allow 0 empty_limiter acme (pos 2)).1 acme (pos 2)).0 ≡ true
unfolding allow refill take_token Dict.get Dict.put
allow_available_example =
    allow_available 30000000000 (allow 0 empty_limiter acme (pos 2)).1 acme (pos 2) (omega arith)
      (λ b h. ground (arith, h))
