-- ===== src/Api/Chat/Hits/Entries.antt =====
-- The stages of api/routes.py that answer from an entry of the response cache, or without one.
use bedrock_gateway_platform.Base.{
  String, ◌≡◌, ap, sym, refl, true, false, Option, none, some, ok, string_eq, Bool-cases, inl, inr,
}
use bedrock_gateway_platform.Policy.Models.{TenantPolicy}
use bedrock_gateway_platform.Routing.Breaker
use bedrock_gateway_platform.Responses
use bedrock_gateway_platform.Responses.{CachedResponse, ResponseCache}
use bedrock_gateway_platform.Auth.Identity.{Identity}
use bedrock_gateway_platform.Pipeline.Admission.{enforce_model_allowlist}
use bedrock_gateway_platform.Api.Handler.{pure}
use bedrock_gateway_platform.Api.Schemas.{ChatRequest, ChatResponse}
use bedrock_gateway_platform.Api.Gateway.{Services, Readings, Request, completed}
use bedrock_gateway_platform.Api.Chat.{
  read_typed, open_stream, cache_key, answer_cached, answer_routed, cached_or,
}
use bedrock_gateway_platform.Api.Chat.Outputs.Refusals.{
  Shows, Shows-bind, Refuses-stateless, Refuses-write_cache, Refuses-capture_if, Refuses-route,
}

module _ (services : Services) (readings : Readings) where
  -- The answer shows the entry that the cache `c` held under the key of the request.
  pub record Hit (q : Request) (i : Identity) (p : TenantPolicy) (c : ResponseCache)
      (r : ChatResponse) : Type 0 where
    pub chat_request : ChatRequest
    pub model_id : String
    pub cached : CachedResponse
    pub well_formed : read_typed services readings q.request_id q.body ≡ ok chat_request
    pub allowed :
        enforce_model_allowlist p chat_request.model services.settings.bedrock_model_id
        ≡ ok model_id
    pub found :
        (Responses.get readings.cache_read c
          (cache_key services readings i p model_id chat_request)).0
        ≡ some cached
    pub output : r.output ≡ cached.text
    pub model : r.model ≡ cached.model_id

  abbrev pub HitOr : Request → Identity → TenantPolicy → ResponseCache → ChatResponse → Type 0
  HitOr q i p c r = r.cache_hit ≡ true → Hit q i p c r

  Shows-miss :
      {P : ChatResponse → Type 0} (x : ChatResponse)
      → x.cache_hit ≡ false
      → Shows services readings (λ r. r.cache_hit ≡ true → P r) (pure (completed x))
  Shows-miss x miss = record {
    at = λ g r h hit.
        let same : x ≡ r = cc h in
        absurd (cc (ap (λ (y : ChatResponse). y.cache_hit) same, hit, miss));
  }

  answer_routed-Shows_miss :
      {P : ChatResponse → Type 0} (q : Request) (i : Identity) (p : TenantPolicy) (m : String)
      (r : ChatRequest) (key : String)
      → Shows services readings
          (λ r. r.cache_hit ≡ true → P r)
          (answer_routed services readings q i p m r key)
  unfolding answer_routed
  answer_routed-Shows_miss q i p m r key =
      Shows-bind services readings _ _ (Refuses-route services readings q p m r) λ routed g1 e1.
        Shows-bind services readings _ _ (Refuses-stateless services readings q.request_id _)
          λ d g2 e2.
            Shows-bind services readings _ _ (Refuses-write_cache services readings key routed)
              λ u3 g3 e3.
                Shows-bind services readings _ _
                  (Refuses-capture_if services readings p.debug_capture_enabled q i r
                    routed.result.text)
                  λ u4 g4 e4. Shows-miss _ refl

  pub open_stream-Shows_none :
      {P : ChatResponse → Type 0} (q : Request) (m : String) (r : ChatRequest)
      → Shows services readings P (open_stream services readings q m r)
  unfolding open_stream
  open_stream-Shows_none q m r = record {
    at = λ g r' h. elim (Bool-cases (Breaker.allow readings.stream_allowed g.circuit_breaker m).0) [
      | inl may ↦ absurd (cc (rw may at h))
      | inr stop ↦ absurd (cc (rw stop at h))
    ];
  }

  answer_cached-Shows_entry :
      (q : Request) (i : Identity) (p : TenantPolicy) (c : ResponseCache) (r : ChatRequest)
      (m : String) (x : CachedResponse)
      → read_typed services readings q.request_id q.body ≡ ok r
      → enforce_model_allowlist p r.model services.settings.bedrock_model_id ≡ ok m
      → (Responses.get readings.cache_read c (cache_key services readings i p m r)).0 ≡ some x
      → Shows services readings (HitOr q i p c) (answer_cached services readings q i p r x)
  unfolding answer_cached
  answer_cached-Shows_entry q i p c r m x e1 e2 e3 =
      Shows-bind services readings _ _
        (Refuses-capture_if services readings p.debug_capture_enabled q i r x.text)
        λ u g e. record {
          at = λ g' a h hit.
              let entry : ChatResponse = record {
                request_id = q.request_id;
                model = x.model_id;
                output = x.text;
                stop_reason = x.stop_reason;
                input_tokens = x.input_tokens;
                output_tokens = x.output_tokens;
                latency_ms = 0;
                cache_hit = true;
                fallback = false;
              } in
              let same : entry ≡ a = cc h in
              record {
                chat_request = r;
                model_id = m;
                cached = x;
                well_formed = e1;
                allowed = e2;
                found = e3;
                output = ap (λ (y : ChatResponse). y.output) (sym same);
                model = ap (λ (y : ChatResponse). y.model) (sym same);
              };
        }

  pub cached_or-Shows_entry :
      (q : Request) (i : Identity) (p : TenantPolicy) (c : ResponseCache) (r : ChatRequest)
      (m : String) (found : Option CachedResponse)
      → read_typed services readings q.request_id q.body ≡ ok r
      → enforce_model_allowlist p r.model services.settings.bedrock_model_id ≡ ok m
      → (Responses.get readings.cache_read c (cache_key services readings i p m r)).0 ≡ found
      → Shows services readings
          (HitOr q i p c)
          (cached_or services readings q i p m r (cache_key services readings i p m r) found)
  cached_or-Shows_entry q i p c r m none e1 e2 e3 = answer_routed-Shows_miss q i p m r _
  cached_or-Shows_entry q i p c r m (some x) e1 e2 e3 =
      answer_cached-Shows_entry q i p c r m x e1 e2 e3
