-- ===== src/Api/Chat/Hits.antt =====
-- Where the answer of api/routes.py from the response cache comes from.
pub mod Stages
pub mod Entries
use bedrock_gateway_platform.Base.{
  String, ◌≡◌, ◌∙◌, ap, sym, refl, Bool, true, false, ok, string_eq, Bool-cases,
}
use bedrock_gateway_platform.Policy.Models.{TenantPolicy}
use bedrock_gateway_platform.Routing.Breaker
use bedrock_gateway_platform.Responses
use bedrock_gateway_platform.Responses.{ResponseCache}
use bedrock_gateway_platform.Auth.Identity.{Identity}
use bedrock_gateway_platform.Pipeline.Authenticate.{authenticate}
use bedrock_gateway_platform.Pipeline.Admission.{
  resolve_policy, enforce_kill_switch, enforce_model_allowlist,
}
use bedrock_gateway_platform.Pipeline.Guardrail.{check_input_guardrail}
use bedrock_gateway_platform.Api.Handler.{◌>>=◌, ◌>>◌}
use bedrock_gateway_platform.Api.Handler.Keeps.{Keeps, Keeps-result}
use bedrock_gateway_platform.Api.Schemas.{ChatRequest, ChatResponse}
use bedrock_gateway_platform.Api.Gateway.{Services, Readings, Gateway, Request, completed}
use bedrock_gateway_platform.Api.Answers.{combined_text}
use bedrock_gateway_platform.Api.Chat.{
  Chat, stateless, identify, limit_rate, read_body, read_typed, open_stream, cache_key, read_cache,
  capture_if, route, write_cache, cached_or, complete, stream_or, handle, chat,
}
use bedrock_gateway_platform.Api.Chat.Outputs.{or_fail_ok, stateless_went_on, find_policy_went_on}
use bedrock_gateway_platform.Api.Chat.Outputs.Refusals.{
  Refuses, Shows, Shows-bind, Refuses-stateless, Refuses-limit_rate, Refuses-read_body,
  Refuses-read_cache, Refuses-write_cache, Refuses-capture_if, Refuses-route,
}
use Entries.{Hit, HitOr, open_stream-Shows_none, cached_or-Shows_entry}
use Stages.{cache_of, From, From-Shows, From-bind}

module _ (services : Services) (readings : Readings) where
  complete-From :
      (q : Request) (i : Identity) (p : TenantPolicy) (c : ResponseCache) (r : ChatRequest)
      (m : String)
      → read_typed services readings q.request_id q.body ≡ ok r
      → enforce_model_allowlist p r.model services.settings.bedrock_model_id ≡ ok m
      → From services readings c
          (HitOr services readings q i p c)
          (complete services readings q i p m r)
  unfolding complete read_cache ◌>>=◌
  complete-From q i p c r m e1 e2 = record {
    at = λ g a same h.
        let key = cache_key services readings i p m r in
        let read = λ (d : ResponseCache). (Responses.get readings.cache_read d key).0 in
        (cached_or-Shows_entry services readings q i p c r m (read g.response_cache) e1 e2
            (ap read (sym same))).at
          (record g { response_cache = (Responses.get readings.cache_read g.response_cache key).1 })
          a h;
  }

  stream_or-From :
      (b : Bool) (q : Request) (i : Identity) (p : TenantPolicy) (c : ResponseCache)
      (r : ChatRequest) (m : String)
      → read_typed services readings q.request_id q.body ≡ ok r
      → enforce_model_allowlist p r.model services.settings.bedrock_model_id ≡ ok m
      → From services readings c
          (HitOr services readings q i p c)
          (stream_or services readings b q i p m r)
  stream_or-From true q i p c r m e1 e2 =
      From-Shows services readings _ (open_stream-Shows_none services readings q m r)
  stream_or-From false q i p c r m e1 e2 = complete-From q i p c r m e1 e2

  limit_rate-Keeps_cache :
      (q : Request) (p : TenantPolicy)
      → Keeps (cache_of services readings) (limit_rate services readings q p)
  unfolding limit_rate
  limit_rate-Keeps_cache q p = record { at = λ g. refl }

  read_body-Keeps_cache :
      (q : Request) → Keeps (cache_of services readings) (read_body services readings q)
  unfolding read_body
  read_body-Keeps_cache q = record { at = λ g. refl }

  read_body_ok :
      (q : Request) (g : Gateway services) (r : ChatRequest)
      → (read_body services readings q g).0 ≡ ok r
      → read_typed services readings q.request_id q.body ≡ ok r
  unfolding read_body
  read_body_ok q g r h = h

  after_policy-From :
      (q : Request) (i : Identity) (p : TenantPolicy) (c : ResponseCache)
      → From services readings c (HitOr services readings q i p c) (
          stateless services readings q.request_id (enforce_kill_switch p)
          >> (limit_rate services readings q p >> (do
            r ← read_body services readings q
            m ←
                stateless services readings q.request_id
                  (enforce_model_allowlist p r.model services.settings.bedrock_model_id)
            stateless services readings q.request_id
                (check_input_guardrail services.guardrail_client p (combined_text r.messages))
            stream_or services readings r.stream q i p m r)))
  after_policy-From q i p c =
      From-bind services readings _ _ (Refuses-stateless services readings q.request_id _)
        (Keeps-result _)
        λ u1 g1 k1 e1.
          From-bind services readings _ _ (Refuses-limit_rate services readings q p)
            (limit_rate-Keeps_cache q p)
            λ u2 g2 k2 e2.
              From-bind services readings _ _ (Refuses-read_body services readings q)
                (read_body-Keeps_cache q)
                λ r g3 k3 e3.
                  From-bind services readings _ _
                    (Refuses-stateless services readings q.request_id _) (Keeps-result _)
                    λ m g4 k4 e4.
                      From-bind services readings _ _
                        (Refuses-stateless services readings q.request_id _) (Keeps-result _)
                        λ d g5 k5 e5.
                          stream_or-From r.stream q i p c r m (read_body_ok q g3 r e3)
                            (or_fail_ok services readings q.request_id _ m e4)

  -- A completed answer that is marked as a cache hit shows the live entry that the response cache held,
  -- when the request came in, under the key of this very request: of the authenticated caller, the
  -- policy found for the caller's tenant, the allowed model, and the request's messages and parameters.
  pub chat-Hit :
      (q : Request) (g : Gateway services) (r : ChatResponse)
      → (chat services readings q g).0 ≡ completed r
      → r.cache_hit ≡ true
      → (i : Identity) × (p : TenantPolicy) × (authenticate services.token_verifier
            services.iam_tenant_resolver q.headers.authorization q.headers.principal_arn
            q.headers.account_id
          ≡ ok i)
        × ((resolve_policy readings.policy_checked readings.policy_stored g.policy_store
              g.policy_cache i).0
            ≡ ok p)
        × Hit services readings q i p g.response_cache r
  unfolding chat handle identify
  chat-Hit q g r h hit =
      let (i, e1, h1) = stateless_went_on services readings q.request_id _ _ g r h in
      let (u, e2, h2) = stateless_went_on services readings q.request_id _ _ g r h1 in
      let (p, e3, h3) = find_policy_went_on services readings q i _ g r h2 in
      (i, p, e1, e3, (after_policy-From q i p g.response_cache).at _ r refl h3 hit)
