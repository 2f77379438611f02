-- ===== src/Api/Chat/Gates.antt =====
-- What has held before a request of api/routes.py reaches a model.
use bedrock_gateway_platform.Base.{
  String, ◌≡◌, ◌≢◌, refl, true, false, Result, ok, raise, string_eq, contains,
}
use bedrock_gateway_platform.Policy.Models.{is_blocking, TenantPolicy}
use bedrock_gateway_platform.Policy.Limiter
use bedrock_gateway_platform.Auth.Identity.{Identity}
use bedrock_gateway_platform.Pipeline.Errors.{PipelineError}
use bedrock_gateway_platform.Pipeline.Authenticate.{authenticate}
use bedrock_gateway_platform.Policy.Snapshots.{PolicySnapshotCache}
use bedrock_gateway_platform.Policy.Limiter.{TokenBucketRateLimiter}
use bedrock_gateway_platform.Pipeline.Admission.{
  resolve_policy, enforce_rate_limit, effective_limit,
}
use bedrock_gateway_platform.Pipeline.Guards.{
  authorize_passes, kill_switch_passes, rate_limit_passes, Permitted, allowlist_passes, Cleared,
  input_guardrail_passes,
}
use bedrock_gateway_platform.Api.Handler.{◌>>=◌, after}
use bedrock_gateway_platform.Api.Schemas.{ChatRequest}
use bedrock_gateway_platform.Api.Gateway.{Services, Readings, Gateway, Request, Response}
use bedrock_gateway_platform.Api.Answers.{combined_text, or_fail}
use bedrock_gateway_platform.Api.Chat.{
  Chat, stateless, identify, find_policy, limit_rate, read_body, read_typed, handle, chat,
}

module _ (services : Services) (readings : Readings) where
  open services use {settings, client, guardrail_client}

  -- Stages before a change of the client's state: each went on, and the rest made the change.
  abbrev Changes : Chat services readings Response → Gateway services → Type 0
  Changes m g = (m g).1.client_state ≢ g.client_state

  stateless_changed :
      {A : Type 0} (id : String) (result : Result PipelineError A)
      (f : A → Chat services readings Response) (g : Gateway services)
      → Changes (stateless services readings id result >>= f) g
      → (a : A) × (result ≡ ok a) × Changes (f a) g
  unfolding ◌>>=◌
  stateless_changed id (ok a) f g changed = (a, refl, changed)
  stateless_changed id (raise e) f g changed = absurd (changed refl)

  find_policy_changed :
      (request : Request) (identity : Identity) (f : TenantPolicy → Chat services readings Response)
      (g : Gateway services)
      → Changes (find_policy services readings request identity >>= f) g
      → let found =
          resolve_policy readings.policy_checked readings.policy_stored g.policy_store
            g.policy_cache identity in
        ((policy : TenantPolicy) × (found.0 ≡ ok policy)
          × Changes (f policy) (record g { policy_cache = found.1 }))
  unfolding ◌>>=◌ find_policy
  find_policy_changed request identity f g = go (
      resolve_policy readings.policy_checked readings.policy_stored g.policy_store g.policy_cache
        identity)
    where
      go :
          (found : Result PipelineError TenantPolicy × PolicySnapshotCache)
          → Changes
              (λ g'.
                after (or_fail request.request_id found.0, record g { policy_cache = found.1 }) f)
              g
          → (policy : TenantPolicy) × (found.0 ≡ ok policy)
            × Changes (f policy) (record g { policy_cache = found.1 })
      go (ok policy, c) changed = (policy, refl, changed)
      go (raise e, c) changed = absurd (changed refl)

  limit_rate_changed :
      (request : Request) (policy : TenantPolicy) (f : Unit {0} → Chat services readings Response)
      (g : Gateway services)
      → Changes (limit_rate services readings request policy >>= f) g
      → let limited = enforce_rate_limit readings.limited g.rate_limiter policy in
        ((u : Unit {0}) × (limited.0 ≡ ok u)
          × Changes (f u) (record g { rate_limiter = limited.1 }))
  unfolding ◌>>=◌ limit_rate
  limit_rate_changed request policy f g =
      go (enforce_rate_limit readings.limited g.rate_limiter policy)
    where
      go :
          (limited : Result PipelineError (Unit {0}) × TokenBucketRateLimiter)
          → Changes
              (λ g'.
                after
                  (or_fail request.request_id limited.0, record g { rate_limiter = limited.1 })
                  f)
              g
          → (u : Unit {0}) × (limited.0 ≡ ok u)
            × Changes (f u) (record g { rate_limiter = limited.1 })
      go (ok u, l) changed = (u, refl, changed)
      go (raise e, l) changed = absurd (changed refl)

  read_body_changed :
      (request : Request) (f : ChatRequest → Chat services readings Response) (g : Gateway services)
      → Changes (read_body services readings request >>= f) g
      → (r : ChatRequest) × (read_typed services readings request.request_id request.body ≡ ok r)
        × Changes (f r) g
  unfolding ◌>>=◌ read_body
  read_body_changed request f g = go (read_typed services readings request.request_id request.body)
    where
      go :
          (o : Result Response ChatRequest)
          → Changes (λ g'. after (o, g) f) g
          → (r : ChatRequest) × (o ≡ ok r) × Changes (f r) g
      go (ok r) changed = (r, refl, changed)
      go (raise e) changed = absurd (changed refl)

  -- What the gates of the pipeline have established.
  pub record Gated (request : Request) (g : Gateway services) : Type 0 where
    pub identity : Identity
    pub policy : TenantPolicy
    pub r : ChatRequest
    pub model_id : String
    pub identified :
        authenticate services.token_verifier services.iam_tenant_resolver
          request.headers.authorization request.headers.principal_arn request.headers.account_id
        ≡ ok identity
    pub authorized : contains settings.chat_required_role identity.roles ≡ true
    pub provisioned :
        (resolve_policy readings.policy_checked readings.policy_stored g.policy_store g.policy_cache
          identity).0
        ≡ ok policy
    pub not_blocked : is_blocking policy.state ≡ false
    pub within_limit :
        (Limiter.allow readings.limited g.rate_limiter policy.tenant_id (effective_limit policy)).0
        ≡ true
    pub well_formed : read_typed services readings request.request_id request.body ≡ ok r
    pub permitted : Permitted policy.models settings.bedrock_model_id r.model model_id
    pub cleared :
        Cleared policy
          (guardrail_client.check_input (combined_text r.messages) policy.guardrail_policy)

  -- A request that changes the state of the model client has passed every gate.
  pub chat-Gated :
      (request : Request) (g : Gateway services)
      → (chat services readings request g).1.client_state ≢ g.client_state
      → Gated request g
  unfolding chat handle identify
  chat-Gated request g changed =
      let (identity, e1, c1) = stateless_changed request.request_id _ _ g changed in
      let (u2, e2, c2) = stateless_changed request.request_id _ _ g c1 in
      let (policy, e3, c3) = find_policy_changed request identity _ g c2 in
      let (u4, e4, c4) = stateless_changed request.request_id _ _ _ c3 in
      let (u5, e5, c5) = limit_rate_changed request policy _ _ c4 in
      let (r, e6, c6) = read_body_changed request _ _ c5 in
      let (model_id, e7, c7) = stateless_changed request.request_id _ _ _ c6 in
      let (d, e8, c8) = stateless_changed request.request_id _ _ _ c7 in
      record {
        identity = identity;
        policy = policy;
        r = r;
        model_id = model_id;
        identified = e1;
        authorized = authorize_passes identity settings.chat_required_role e2;
        provisioned = e3;
        not_blocked = kill_switch_passes policy e4;
        within_limit = rate_limit_passes readings.limited g.rate_limiter policy e5;
        well_formed = e6;
        permitted = allowlist_passes policy r.model settings.bedrock_model_id model_id e7;
        cleared = input_guardrail_passes guardrail_client policy (combined_text r.messages) e8;
      }
