-- ===== src/Api/Chat/Lines/Agree.antt =====
-- What a client is answered and what the log says of it, in services/gateway/api/routes.py.
use bedrock_gateway_platform.Base.{
  ℕ, ◌≡◌, ◌≢◌, ◌∙◌, refl, String, Bool, true, false, Option, none, some, List, [], Result, ok,
  raise, string_eq, Bool-cases, inl, inr,
}
use bedrock_gateway_platform.Policy.Models.{TenantPolicy}
use bedrock_gateway_platform.Routing.Router.{
  RoutedResult, RouterError, invocation, all_routes_unavailable,
}
use bedrock_gateway_platform.Responses.{CachedResponse}
use bedrock_gateway_platform.Auth.Identity.{Identity}
use bedrock_gateway_platform.Guardrails.Models.{GuardrailDecision}
use bedrock_gateway_platform.Pipeline.Errors.{PipelineError}
use bedrock_gateway_platform.Telemetry.Logging.{LogRecord}
use bedrock_gateway_platform.Pipeline.Guardrail.{check_input_guardrail, check_output_guardrail}
use bedrock_gateway_platform.Pipeline.Admission.{enforce_model_allowlist}
use bedrock_gateway_platform.Routing.Breaker
use bedrock_gateway_platform.Api.Handler.{◌>>=◌, ◌>>◌, after, pure}
use bedrock_gateway_platform.Api.Handler.Keeps.{Keeps}
use bedrock_gateway_platform.Api.Schemas.{ChatRequest, ChatResponse}
use bedrock_gateway_platform.Api.Gateway.{
  Services, Readings, Gateway, Request, ErrorMessage, stage, circuit_open, Response, completed,
}
use bedrock_gateway_platform.Api.Answers.{combined_text, error_status}
use bedrock_gateway_platform.Api.Chat.{
  Chat, cache_key, limit_rate, read_body, response_of, stateless, capture_if, write_cache,
  answer_routed, answer_cached, complete, route, or_upstream, find_policy, identify, read_cache,
  handle, chat, cached_or, stream_or, open_stream,
}
use bedrock_gateway_platform.Api.Chat.Outputs.Refusals.{
  IsRefusal, or_fail_refuses, Refuses, Refuses-stateless, Refuses-limit_rate, Refuses-read_body,
  Refuses-read_cache,
}
use bedrock_gateway_platform.Pipeline.Errors.{plain}
use bedrock_gateway_platform.Api.Chat.Lines.{
  Timing, lines_after, after_output, after_route, after_cache, after_stream, after_input,
  chat_lines,
}
use bedrock_gateway_platform.Api.Chat.Lines.Tells.{
  IsSilent, Agree, blocked_line-Tells, failed_line-Tells, cached_line-Tells, routed_line-Tells,
}

module _ (services : Services) (readings : Readings) (show : ErrorMessage → String)
    (date : ℕ → String) (timing : Timing) where
  -- A handler whose lines agree with its answer, and which makes no call of a model without a line.
  record Reports (m : Chat services readings Response) (lines : Gateway services → List LogRecord)
      : Type 0 where
    pub at :
        (g : Gateway services) → Agree show date (response_of services readings (m g).0) (lines g)
    pub quiet : (g : Gateway services) → lines g ≡ [] → (m g).1.client_state ≡ g.client_state

  abbrev client_of : Gateway services → services.client.State
  client_of g = g.client_state

  IsSilent-refusal : (p : Response) → IsRefusal services readings p → IsSilent show date p
  IsSilent-refusal p (e, h) = rw h tt

  after-Reports :
      {A : Type 0} (o : Result Response A × Gateway services)
      (f : A → Chat services readings Response) (l : A → Gateway services → List LogRecord)
      → ((p : Response) → o.0 ≡ raise p → IsRefusal services readings p)
      → ((a : A) → Reports (f a) (l a))
      → Agree show date (response_of services readings (after o f).0) (lines_after o l)
  after-Reports (ok a, g) f l refuses h = (h a).at g
  after-Reports (raise p, g) f l refuses h = IsSilent-refusal p (refuses p refl)

  calls_no_model :
      {A : Type 0} (o : Result Response A × Gateway services)
      (f : A → Chat services readings Response) (l : A → Gateway services → List LogRecord)
      → ((a : A) → Reports (f a) (l a))
      → lines_after o l ≡ []
      → (after o f).1.client_state ≡ o.1.client_state
  calls_no_model (ok a, g) f l h no_line = (h a).quiet g no_line
  calls_no_model (raise p, g) f l h no_line = refl

  Reports-bind :
      {A : Type 0} (m : Chat services readings A) (f : A → Chat services readings Response)
      (l : A → Gateway services → List LogRecord)
      → Refuses services readings m
      → Keeps client_of m
      → ((a : A) → Reports (f a) (l a))
      → Reports (m >>= f) (λ g. lines_after (m g) l)
  unfolding ◌>>=◌
  Reports-bind m f l refuses keeps h = record {
    at = λ g. after-Reports (m g) f l (refuses.at g) h;
    quiet = λ g no_line. calls_no_model (m g) f l h no_line ∙ keeps.at g;
  }

  -- The answer from a model, once the output guardrail has been asked.
  abbrev finished :
      Bool
      → Request
      → Identity
      → ChatRequest
      → String
      → RoutedResult
      → Chat services readings Response
  finished b q i r key x = do
    write_cache services readings key x
    capture_if services readings b q i r x.result.text
    pure (
        completed (record {
          request_id = q.request_id;
          model = x.model_id;
          output = x.result.text;
          stop_reason = x.result.stop_reason;
          input_tokens = x.result.input_tokens;
          output_tokens = x.result.output_tokens;
          latency_ms = x.result.latency_ms;
          cache_hit = false;
          fallback = x.fallback;
        }))

  after_output_agrees :
      (o : Result PipelineError GuardrailDecision) (b : Bool) (q : Request) (i : Identity)
      (p : TenantPolicy) (r : ChatRequest) (key : String) (x : RoutedResult) (g : Gateway services)
      → Agree show date
          (response_of services readings
            (after (stateless services readings q.request_id o g) (λ d. finished b q i r key x)).0)
          (after_output services readings show timing q i p x o)
  unfolding ◌>>=◌ write_cache capture_if
  after_output_agrees (raise exc) b q i p r key x g =
      blocked_line-Tells show date timing q.request_id i p x.model_id _ exc
  after_output_agrees (ok d) true q i p r key x g =
      routed_line-Tells show date timing q.request_id i p x
  after_output_agrees (ok d) false q i p r key x g =
      routed_line-Tells show date timing q.request_id i p x

  after_output_ne_nil :
      (o : Result PipelineError GuardrailDecision) (q : Request) (i : Identity) (p : TenantPolicy)
      (x : RoutedResult)
      → after_output services readings show timing q i p x o ≢ []
  after_output_ne_nil (raise exc) q i p x h = cc h
  after_output_ne_nil (ok d) q i p x h = cc h

  after_route_agrees :
      (o : Result RouterError RoutedResult) (q : Request) (i : Identity) (p : TenantPolicy)
      (m : String) (r : ChatRequest) (key : String) (g : Gateway services)
      → Agree show date
          (response_of services readings
            (after
              (or_upstream services readings q.request_id o, g)
              (λ x.
                stateless services readings q.request_id
                  (check_output_guardrail services.guardrail_client p x.result.text)
                >> finished p.debug_capture_enabled q i r key x)).0)
          (after_route services readings show timing q i p m o)
  unfolding ◌>>=◌
  after_route_agrees (raise (invocation exc)) q i p m r key g =
      failed_line-Tells show date timing q.request_id i p m _ (error_status exc.code).1
        (stage (plain exc.message)) _ refl
  after_route_agrees (raise (all_routes_unavailable name)) q i p m r key g =
      failed_line-Tells show date timing q.request_id i p m 503 "ALL_ROUTES_UNAVAILABLE"
        (circuit_open name) _ refl
  after_route_agrees (ok x) q i p m r key g =
      after_output_agrees _ p.debug_capture_enabled q i p r key x g

  capture_agrees :
      (b : Bool) (q : Request) (i : Identity) (r : ChatRequest) (output : String) (a : ChatResponse)
      (g : Gateway services)
      → response_of services readings
          (after (capture_if services readings b q i r output g) (λ u. pure (completed a))).0
        ≡ completed a
  unfolding capture_if
  capture_agrees true q i r output a g = refl
  capture_agrees false q i r output a g = refl

  abbrev cached_answer : Request → CachedResponse → ChatResponse
  cached_answer q x = record {
    request_id = q.request_id;
    model = x.model_id;
    output = x.text;
    stop_reason = x.stop_reason;
    input_tokens = x.input_tokens;
    output_tokens = x.output_tokens;
    latency_ms = 0;
    cache_hit = true;
    fallback = false;
  }

  answer_cached-Reports :
      (q : Request) (i : Identity) (p : TenantPolicy) (r : ChatRequest) (m : String)
      (x : CachedResponse)
      → Reports
          (answer_cached services readings q i p r x)
          (after_cache services readings show timing q i p m r (some x))
  unfolding answer_cached ◌>>=◌
  answer_cached-Reports q i p r m x = record {
    at = λ g.
        rw (capture_agrees p.debug_capture_enabled q i r x.text (cached_answer q x) g)
          (cached_line-Tells show date timing q.request_id i p x);
    quiet = λ g h. cc h;
  }

  after_route_ne_nil :
      (o : Result RouterError RoutedResult) (q : Request) (i : Identity) (p : TenantPolicy)
      (m : String)
      → after_route services readings show timing q i p m o ≢ []
  after_route_ne_nil (raise exc) q i p m h = cc h
  after_route_ne_nil (ok x) q i p m h =
      after_output_ne_nil (check_output_guardrail services.guardrail_client p x.result.text) q i p x
        h

  cached_or-Reports :
      (q : Request) (i : Identity) (p : TenantPolicy) (r : ChatRequest) (m : String)
      (found : Option CachedResponse)
      → Reports
          (cached_or services readings q i p m r (cache_key services readings i p m r) found)
          (after_cache services readings show timing q i p m r found)
  unfolding answer_routed route ◌>>=◌
  cached_or-Reports q i p r m none = record {
    at = λ g. after_route_agrees _ q i p m r (cache_key services readings i p m r) _;
    quiet = λ g h. absurd (after_route_ne_nil _ q i p m h);
  }
  cached_or-Reports q i p r m (some x) = answer_cached-Reports q i p r m x

  Keeps-read_cache : (key : String) → Keeps client_of (read_cache services readings key)
  unfolding read_cache
  Keeps-read_cache key = record { at = λ g. refl }

  stream_or-Reports :
      (b : Bool) (q : Request) (i : Identity) (p : TenantPolicy) (r : ChatRequest) (m : String)
      → Reports
          (stream_or services readings b q i p m r)
          (after_stream services readings show timing b q i p m r)
  unfolding open_stream complete
  stream_or-Reports true q i p r m = record {
    at = λ g. elim (Bool-cases (Breaker.allow readings.stream_allowed g.circuit_breaker m).0) [
      | inl may ↦ rw may tt
      | inr stop ↦ rw stop tt
    ];
    quiet = λ g h. refl;
  }
  stream_or-Reports false q i p r m =
      Reports-bind _ _ _ (Refuses-read_cache services readings _) (Keeps-read_cache _)
        (cached_or-Reports q i p r m)

  after_input-Reports :
      (o : Result PipelineError GuardrailDecision) (q : Request) (i : Identity) (p : TenantPolicy)
      (r : ChatRequest) (m : String)
      → Reports
          (stateless services readings q.request_id o
            >> stream_or services readings r.stream q i p m r)
          (after_input services readings show timing q i p m r o)
  unfolding ◌>>=◌
  after_input-Reports (raise exc) q i p r m = record {
    at = λ g. blocked_line-Tells show date timing q.request_id i p m _ exc;
    quiet = λ g h. refl;
  }
  after_input-Reports (ok d) q i p r m = stream_or-Reports r.stream q i p r m

  Refuses-find_policy :
      (q : Request) (i : Identity) → Refuses services readings (find_policy services readings q i)
  unfolding find_policy
  Refuses-find_policy q i = record { at = λ g. or_fail_refuses services readings q.request_id _ }

  Keeps-find_policy :
      (q : Request) (i : Identity) → Keeps client_of (find_policy services readings q i)
  unfolding find_policy
  Keeps-find_policy q i = record { at = λ g. refl }

  Keeps-limit_rate :
      (q : Request) (p : TenantPolicy) → Keeps client_of (limit_rate services readings q p)
  unfolding limit_rate
  Keeps-limit_rate q p = record { at = λ g. refl }

  Keeps-read_body : (q : Request) → Keeps client_of (read_body services readings q)
  unfolding read_body
  Keeps-read_body q = record { at = λ g. refl }

  Reports-stateless :
      {A : Type 0} (q : Request) (o : Result PipelineError A)
      (f : A → Chat services readings Response) (l : A → Gateway services → List LogRecord)
      → ((a : A) → Reports (f a) (l a))
      → Reports
          (stateless services readings q.request_id o >>= f)
          (λ g. lines_after (stateless services readings q.request_id o g) l)
  Reports-stateless q o f l h =
      Reports-bind _ f l (Refuses-stateless services readings q.request_id o)
        (record { at = λ g. refl }) h

  handle-Reports :
      (q : Request)
      → Reports (handle services readings q) (chat_lines services readings show timing q)
  unfolding handle chat_lines identify
  handle-Reports q = Reports-stateless q _ _ _ λ i. Reports-stateless q _ _ _ λ u.
      Reports-bind _ _ _ (Refuses-find_policy q i) (Keeps-find_policy q i) λ p.
        Reports-stateless q _ _ _ λ u'.
          Reports-bind _ _ _ (Refuses-limit_rate services readings q p) (Keeps-limit_rate q p)
            λ u''.
              Reports-bind _ _ _ (Refuses-read_body services readings q) (Keeps-read_body q) λ r.
                Reports-stateless q
                  (enforce_model_allowlist p r.model services.settings.bedrock_model_id) _ _
                  λ m.
                    after_input-Reports
                      (check_input_guardrail services.guardrail_client p (combined_text r.messages))
                      q i p r m

  -- A chat request that is answered with a completion writes exactly one line, which gives the answer's
  -- request id, model, tokens, latency, cache hit and fallback, and status 200. Any other request writes
  -- at most one line, which gives the status, the request id and the error text of the answer; and a
  -- request without a line has not changed the state of the model client. All this holds of the object
  -- that the formatter makes of the line.
  pub chat_lines-Agree :
      (q : Request) (g : Gateway services)
      → Agree show date
          (chat services readings q g).0
          (chat_lines services readings show timing q g)
        × (chat_lines services readings show timing q g ≡ []
            → (chat services readings q g).1.client_state ≡ g.client_state)
  unfolding chat
  chat_lines-Agree q g = ((handle-Reports q).at g, (handle-Reports q).quiet g)
