-- ===== src/Api/Chat/Outputs.antt =====
-- Which text an answer of api/routes.py can show.
pub mod Refusals
use bedrock_gateway_platform.Base.{
  ℕ, String, ◌≡◌, ◌∙◌, ap, refl, Bool, true, false, Option, none, some, [], ◌∷◌, Result, ok, raise,
  string_eq, arith, Bool-cases, inl, inr,
}
use bedrock_gateway_platform.Policy.Models.{TenantPolicy}
use bedrock_gateway_platform.Policy.Snapshots.{PolicySnapshotCache}
use bedrock_gateway_platform.Responses.{CachedResponse}
use bedrock_gateway_platform.Routing.Breaker
use bedrock_gateway_platform.Guardrails.Models.{GuardrailDecision}
use bedrock_gateway_platform.Auth.Identity.{Identity}
use bedrock_gateway_platform.Pipeline.Errors.{PipelineError}
use bedrock_gateway_platform.Pipeline.Authenticate.{authenticate}
use bedrock_gateway_platform.Pipeline.Admission.{
  resolve_policy, enforce_kill_switch, enforce_model_allowlist,
}
use bedrock_gateway_platform.Pipeline.Guardrail.{check_input_guardrail, check_output_guardrail}
use bedrock_gateway_platform.Pipeline.Guards.{Cleared, output_guardrail_passes}
use bedrock_gateway_platform.Api.Handler.{Handler, pure, after, ◌>>=◌, ◌>>◌}
use bedrock_gateway_platform.Api.Schemas.{ChatRequest, ChatResponse}
use bedrock_gateway_platform.Api.Gateway.{Services, Readings, Gateway, Request, Response, completed}
use bedrock_gateway_platform.Api.Answers.{combined_text, or_fail}
use bedrock_gateway_platform.Api.Chat.{
  Chat, stateless, identify, find_policy, limit_rate, read_body, open_stream, read_cache,
  capture_if, answer_cached, route, write_cache, answer_routed, cached_or, complete, stream_or,
  handle, response_of, chat,
}
use Refusals.{
  Completes, Shows, Shows-bind, Refuses-stateless, Refuses-limit_rate, Refuses-read_body,
  Refuses-read_cache, Refuses-write_cache, Refuses-capture_if, Refuses-route,
}

module _ (services : Services) (readings : Readings) where
  open services use {guardrail_client}

  -- What is shown without a cache hit is cleared.
  abbrev Shown : TenantPolicy → ChatResponse → Type 0
  Shown policy r =
      r.cache_hit ≡ false
      → Cleared policy (guardrail_client.check_output r.output policy.guardrail_policy)

  pub or_fail_ok :
      {A : Type 0} (id : String) (o : Result PipelineError A) (a : A)
      → or_fail id o ≡ ok a
      → o ≡ ok a
  or_fail_ok id (ok b) a h = cc
  or_fail_ok id (raise e) a h = cc

  Shows-hit :
      (policy : TenantPolicy) (x : ChatResponse)
      → x.cache_hit ≡ true
      → Shows services readings (Shown policy) (pure (completed x))
  Shows-hit policy x hit = record {
    at = λ g r h miss.
        let same : x ≡ r = cc h in
        absurd (cc (ap (λ (y : ChatResponse). y.cache_hit) same, hit, miss));
  }

  Shows-cleared :
      (policy : TenantPolicy) (x : ChatResponse) (d : GuardrailDecision)
      → check_output_guardrail guardrail_client policy x.output ≡ ok d
      → Shows services readings (Shown policy) (pure (completed x))
  Shows-cleared policy x d e = record {
    at = λ g r h miss.
        let same : x ≡ r = cc h in
        rw (← same) (output_guardrail_passes guardrail_client policy x.output e);
  }

  answer_cached-Shows :
      (q : Request) (i : Identity) (p : TenantPolicy) (r : ChatRequest) (c : CachedResponse)
      → Shows services readings (Shown p) (answer_cached services readings q i p r c)
  unfolding answer_cached
  answer_cached-Shows q i p r c =
      Shows-bind services readings _ _
        (Refuses-capture_if services readings p.debug_capture_enabled q i r c.text)
        λ u g e. Shows-hit p _ refl

  answer_routed-Shows :
      (q : Request) (i : Identity) (p : TenantPolicy) (m : String) (r : ChatRequest) (key : String)
      → Shows services readings (Shown p) (answer_routed services readings q i p m r key)
  unfolding answer_routed
  answer_routed-Shows q i p m r key =
      Shows-bind services readings _ _ (Refuses-route services readings q p m r) λ routed g1 e1.
        Shows-bind services readings _ _ (Refuses-stateless services readings q.request_id _)
          λ d g2 e2.
            Shows-bind services readings _ _ (Refuses-write_cache services readings key routed)
              λ u3 g3 e3.
                Shows-bind services readings _ _
                  (Refuses-capture_if services readings p.debug_capture_enabled q i r
                    routed.result.text)
                  λ u4 g4 e4. Shows-cleared p _ d (or_fail_ok q.request_id _ d e2)

  cached_or-Shows :
      (q : Request) (i : Identity) (p : TenantPolicy) (m : String) (r : ChatRequest) (key : String)
      (found : Option CachedResponse)
      → Shows services readings (Shown p) (cached_or services readings q i p m r key found)
  cached_or-Shows q i p m r key none = answer_routed-Shows q i p m r key
  cached_or-Shows q i p m r key (some c) = answer_cached-Shows q i p r c

  open_stream-Shows :
      (q : Request) (p : TenantPolicy) (m : String) (r : ChatRequest)
      → Shows services readings (Shown p) (open_stream services readings q m r)
  unfolding open_stream
  open_stream-Shows q p m r = record {
    at = λ g r' h. elim (Bool-cases (Breaker.allow readings.stream_allowed g.circuit_breaker m).0) [
      | inl may ↦ absurd (cc (rw may at h))
      | inr stop ↦ absurd (cc (rw stop at h))
    ];
  }

  stream_or-Shows :
      (b : Bool) (q : Request) (i : Identity) (p : TenantPolicy) (m : String) (r : ChatRequest)
      → Shows services readings (Shown p) (stream_or services readings b q i p m r)
  unfolding complete
  stream_or-Shows true q i p m r = open_stream-Shows q p m r
  stream_or-Shows false q i p m r =
      Shows-bind services readings _ _ (Refuses-read_cache services readings _)
        λ found g e. cached_or-Shows q i p m r _ found

  after_policy-Shows :
      (q : Request) (i : Identity) (p : TenantPolicy)
      → Shows services readings (Shown p) (
          stateless services readings q.request_id (enforce_kill_switch p)
          >> (limit_rate services readings q p >> (do
            r ← read_body services readings q
            m ←
                stateless services readings q.request_id
                  (enforce_model_allowlist p r.model services.settings.bedrock_model_id)
            stateless services readings q.request_id
                (check_input_guardrail services.guardrail_client p (combined_text r.messages))
            stream_or services readings r.stream q i p m r)))
  after_policy-Shows q i p =
      Shows-bind services readings _ _ (Refuses-stateless services readings q.request_id _)
        λ u1 g1 e1.
          Shows-bind services readings _ _ (Refuses-limit_rate services readings q p) λ u2 g2 e2.
            Shows-bind services readings _ _ (Refuses-read_body services readings q) λ r g3 e3.
              Shows-bind services readings _ _ (Refuses-stateless services readings q.request_id _)
                λ m g4 e4.
                  Shows-bind services readings _ _
                    (Refuses-stateless services readings q.request_id _)
                    λ d g5 e5. stream_or-Shows r.stream q i p m r

  pub stateless_went_on :
      {A : Type 0} (id : String) (o : Result PipelineError A)
      (f : A → Chat services readings Response) (g : Gateway services) (r : ChatResponse)
      → Completes services readings (stateless services readings id o >>= f) g r
      → (a : A) × (o ≡ ok a) × Completes services readings (f a) g r
  unfolding ◌>>=◌
  stateless_went_on id (ok a) f g r h = (a, refl, h)
  stateless_went_on id (raise e) f g r h = absurd (cc h)

  pub find_policy_went_on :
      (q : Request) (i : Identity) (f : TenantPolicy → Chat services readings Response)
      (g : Gateway services) (r : ChatResponse)
      → Completes services readings (find_policy services readings q i >>= f) g r
      → let found =
          resolve_policy readings.policy_checked readings.policy_stored g.policy_store
            g.policy_cache i in
        ((p : TenantPolicy) × (found.0 ≡ ok p)
          × Completes services readings (f p) (record g { policy_cache = found.1 }) r)
  unfolding ◌>>=◌ find_policy
  find_policy_went_on q i f g r = go (
      resolve_policy readings.policy_checked readings.policy_stored g.policy_store g.policy_cache i)
    where
      go :
          (found : Result PipelineError TenantPolicy × PolicySnapshotCache)
          → response_of services readings
              (after (or_fail q.request_id found.0, record g { policy_cache = found.1 }) f).0
            ≡ completed r
          → (p : TenantPolicy) × (found.0 ≡ ok p)
            × Completes services readings (f p) (record g { policy_cache = found.1 }) r
      go (ok p, c) h = (p, refl, h)
      go (raise e, c) h = absurd (cc h)

  -- A completed answer that is not marked as a cache hit shows text that the output guardrail cleared,
  -- under the policy that the gateway found for the tenant of the authenticated caller.
  pub chat-Cleared :
      (q : Request) (g : Gateway services) (r : ChatResponse)
      → (chat services readings q g).0 ≡ completed r
      → r.cache_hit ≡ false
      → (i : Identity) × (p : TenantPolicy) × (authenticate services.token_verifier
            services.iam_tenant_resolver q.headers.authorization q.headers.principal_arn
            q.headers.account_id
          ≡ ok i)
        × ((resolve_policy readings.policy_checked readings.policy_stored g.policy_store
              g.policy_cache i).0
            ≡ ok p)
        × Cleared p (guardrail_client.check_output r.output p.guardrail_policy)
  unfolding chat handle identify
  chat-Cleared q g r h miss =
      let (i, e1, h1) = stateless_went_on q.request_id _ _ g r h in
      let (u, e2, h2) = stateless_went_on q.request_id _ _ g r h1 in
      let (p, e3, h3) = find_policy_went_on q i _ g r h2 in
      (i, p, e1, e3, (after_policy-Shows q i p).at _ r h3 miss)
