-- ===== src/Api/Chat/Outputs/Refusals.antt =====
-- Which stages of api/routes.py end in an error response when they end a request, and what follows of
-- a completed answer.
use bedrock_gateway_platform.Base.{
  String, ◌≡◌, sym, refl, Bool, true, false, Result, ok, raise, string_eq,
}
use bedrock_gateway_platform.Policy.Models.{TenantPolicy}
use bedrock_gateway_platform.Routing.Router.{
  RoutedResult, RouterError, invocation, all_routes_unavailable,
}
use bedrock_gateway_platform.Auth.Identity.{Identity}
use bedrock_gateway_platform.Pipeline.Errors.{PipelineError}
use bedrock_gateway_platform.Api.Handler.{after, ◌>>=◌}
use bedrock_gateway_platform.Api.Schemas.{ChatRequest, ChatResponse, Invalid, model_validate}
use bedrock_gateway_platform.Api.Gateway.{
  Services, Readings, Gateway, Request, Response, completed, rejected, ErrorResponse, Body,
  invalid_json, mistyped, typed,
}
use bedrock_gateway_platform.Api.Answers.{or_fail}
use bedrock_gateway_platform.Api.Chat.{
  Chat, stateless, limit_rate, read_body, read_typed, validated, read_cache, capture_if,
  or_upstream, route, write_cache, response_of,
}

module _ (services : Services) (readings : Readings) where
  abbrev pub Completes : Chat services readings Response → Gateway services → ChatResponse → Type 0
  Completes m g r = response_of services readings (m g).0 ≡ completed r

  -- An answer that is an error is no completed one.
  abbrev pub IsRefusal : Response → Type 0
  IsRefusal p = (e : ErrorResponse) × (p ≡ rejected e)

  -- A stage that goes on or answers with an error.
  pub record Refuses {A : Type 0} (m : Chat services readings A) : Type 0 where
    pub at : (g : Gateway services) (p : Response) → (m g).0 ≡ raise p → IsRefusal p

  -- What holds of every completed answer.
  pub record Shows (P : ChatResponse → Type 0) (m : Chat services readings Response) : Type 0 where
    pub at : (g : Gateway services) (r : ChatResponse) → Completes m g r → P r

  after_shows :
      {A : Type 0} {P : ChatResponse → Type 0} (o : Result Response A × Gateway services)
      (f : A → Chat services readings Response) (r : ChatResponse)
      → ((p : Response) → o.0 ≡ raise p → IsRefusal p)
      → ((a : A) → o.0 ≡ ok a → Shows P (f a))
      → response_of services readings (after o f).0 ≡ completed r
      → P r
  after_shows (ok a, g) f r refuses shows h = (shows a refl).at g r h
  after_shows (raise p, g) f r refuses shows h = let (e, q) = refuses p refl in absurd (cc (h, q))

  pub Shows-bind :
      {A : Type 0} {P : ChatResponse → Type 0} (m : Chat services readings A)
      (f : A → Chat services readings Response)
      → Refuses m
      → ((a : A) (g : Gateway services) → (m g).0 ≡ ok a → Shows P (f a))
      → Shows P (m >>= f)
  unfolding ◌>>=◌
  Shows-bind m f refuses shows = record {
    at = λ g r h. after_shows (m g) f r (refuses.at g) (λ a e. shows a g e) h;
  }

  refusal :
      {A : Type 0} {e : ErrorResponse} {p : Response}
      → ◌≡◌ {A = Result Response A} (raise (rejected e)) (raise p)
      → IsRefusal p
  refusal {e = e} {p = p} h = let same : rejected e ≡ p = cc h in (e, sym same)

  pub or_fail_refuses :
      {A : Type 0} (id : String) (o : Result PipelineError A) (p : Response)
      → or_fail id o ≡ raise p
      → IsRefusal p
  or_fail_refuses id (ok a) p h = cc
  or_fail_refuses id (raise e) p h = refusal h

  or_upstream_refuses :
      (id : String) (o : Result RouterError RoutedResult) (p : Response)
      → or_upstream services readings id o ≡ raise p
      → IsRefusal p
  or_upstream_refuses id (ok a) p h = cc
  or_upstream_refuses id (raise (invocation e)) p h = refusal h
  or_upstream_refuses id (raise (all_routes_unavailable n)) p h = refusal h

  pub Refuses-stateless :
      {A : Type 0} (id : String) (o : Result PipelineError A)
      → Refuses (stateless services readings id o)
  Refuses-stateless id o = record { at = λ g. or_fail_refuses id o }

  pub Refuses-limit_rate :
      (q : Request) (p : TenantPolicy) → Refuses (limit_rate services readings q p)
  unfolding limit_rate
  Refuses-limit_rate q p = record { at = λ g. or_fail_refuses q.request_id _ }

  read_typed_refuses :
      (id : String) (body : Body) (p : Response)
      → read_typed services readings id body ≡ raise p
      → IsRefusal p
  read_typed_refuses id invalid_json p h = refusal h
  read_typed_refuses id mistyped p h = refusal h
  read_typed_refuses id (typed raw) p h = go (model_validate raw) h
    where
      go :
          (o : Result Invalid ChatRequest)
          → validated services readings id o ≡ raise p
          → IsRefusal p
      go (ok r) k = cc k
      go (raise e) k = refusal k

  pub Refuses-read_body : (q : Request) → Refuses (read_body services readings q)
  unfolding read_body
  Refuses-read_body q = record { at = λ g. read_typed_refuses q.request_id q.body }

  pub Refuses-read_cache : (key : String) → Refuses (read_cache services readings key)
  unfolding read_cache
  Refuses-read_cache key = record { at = λ g p h. cc h }

  pub Refuses-write_cache :
      (key : String) (x : RoutedResult) → Refuses (write_cache services readings key x)
  unfolding write_cache
  Refuses-write_cache key x = record { at = λ g p h. cc h }

  pub Refuses-capture_if :
      (b : Bool) (q : Request) (i : Identity) (r : ChatRequest) (output : String)
      → Refuses (capture_if services readings b q i r output)
  unfolding capture_if
  Refuses-capture_if true q i r output = record { at = λ g p h. cc h }
  Refuses-capture_if false q i r output = record { at = λ g p h. cc h }

  pub Refuses-route :
      (q : Request) (p : TenantPolicy) (m : String) (r : ChatRequest)
      → Refuses (route services readings q p m r)
  unfolding route
  Refuses-route q p m r = record { at = λ g. or_upstream_refuses q.request_id _ }
