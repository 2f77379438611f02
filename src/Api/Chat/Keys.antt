-- ===== src/Api/Chat/Keys.antt =====
-- What two chat requests with the same key of the response cache have in common. A digest may map two
-- payloads to one text; the hypothesis is that it does not do so to these two.
use bedrock_gateway_platform.Base.{
  ◌≡◌, ◌≢◌, ◌∙◌, ap, sym, refl, String, Option, none, some, Result, string_eq, ◌==◌, ==_iff,
  Bool-cases, inl, inr,
}
use bedrock_gateway_platform.Base.Int.{plus_one_ne}
use bedrock_gateway_platform.Dict
use bedrock_gateway_platform.Dict.{Dict}
use bedrock_gateway_platform.Routing.Breaker.{CircuitBreaker}
use bedrock_gateway_platform.Routing.Router.{
  RouteSet, RoutedResult, RouterError, World, fallbacks_for, converse,
}
use bedrock_gateway_platform.Routing.Router.Alike.{SameRouting, converse-SameRouting_at}
use bedrock_gateway_platform.Api.Answers.{arguments_of}
use bedrock_gateway_platform.Policy.Models.{TenantState, TenantPolicy}
use bedrock_gateway_platform.Policy.Store.{updated}
use bedrock_gateway_platform.Responses.Keys.{Payload, route_id, cache_payload}
use bedrock_gateway_platform.Auth.Identity.{Identity}
use bedrock_gateway_platform.Api.Schemas.{ChatRequest}
use bedrock_gateway_platform.Api.Gateway.{Services, Readings}
use bedrock_gateway_platform.Api.Chat.{cache_key}

-- The payload of a request.
abbrev pub payload_of : Identity → TenantPolicy → String → ChatRequest → Payload
payload_of i p m r =
    cache_payload i.tenant_id i.application_id p m r.max_tokens r.temperature r.messages

-- The two payloads do not collide.
abbrev pub NoCollision : (Payload → String) → Payload → Payload → Type 0
NoCollision digest a b = digest a ≡ digest b → a ≡ b

-- No route set goes by the name that a key has for a policy without one, or by an empty name.
pub record NoDefault (sets : Dict String RouteSet) : Type 0 where
  pub no_default : Dict.get "default" sets ≡ none
  pub no_empty : Dict.get "" sets ≡ none

fallbacks_for-route_id :
    (sets : Dict String RouteSet) (name : Option String)
    → NoDefault sets
    → fallbacks_for sets name ≡ fallbacks_for sets (some (route_id name))
unfolding fallbacks_for
fallbacks_for-route_id sets none h = rw h.no_default refl
fallbacks_for-route_id sets (some name) h = elim (Bool-cases (name == "")) [
  | inl empty ↦ rw (empty, h.no_default, (==_iff name "").0 empty, h.no_empty) refl
  | inr named ↦ rw named refl
]

module _ (services : Services) (readings : Readings) where
  -- The call of the router for a request, from a state of the breakers and of the client.
  abbrev pub routed :
      TenantPolicy
      → String
      → (r : ChatRequest) → CircuitBreaker
      → services.client.State
      → Result RouterError RoutedResult × World services.client readings.loop (arguments_of r)
  routed p m r breaker state =
      converse services.client readings.loop (arguments_of r) services.route_sets m p.route_set
        (record { breaker = breaker; client_state = state })

  -- What the answer of a model may depend on.
  pub record Same (i j : Identity) (p q : TenantPolicy) (m n : String) (r s : ChatRequest)
      : Type 0 where
    pub tenant : i.tenant_id ≡ j.tenant_id
    pub application : i.application_id ≡ j.application_id
    pub model : m ≡ n
    pub messages : r.messages ≡ s.messages
    pub max_tokens : r.max_tokens ≡ s.max_tokens
    pub temperature : r.temperature ≡ s.temperature
    pub guardrail : p.guardrail_policy ≡ q.guardrail_policy
    pub epoch : p.policy_epoch ≡ q.policy_epoch
    pub routing :
        (breaker : CircuitBreaker) (state : services.client.State)
        → SameRouting (routed p m r breaker state) (routed q n s breaker state)

  same_epoch :
      (i j : Identity) (p q : TenantPolicy) (m n : String) (r s : ChatRequest)
      → payload_of i p m r ≡ payload_of j q n s
      → p.policy_epoch ≡ q.policy_epoch
  unfolding cache_payload
  same_epoch i j p q m n r s same = ap (λ (x : Payload). x.policy_epoch) same

  same_routing :
      (p q : TenantPolicy) (m n : String) (r s : ChatRequest) (breaker : CircuitBreaker)
      (state : services.client.State)
      → NoDefault services.route_sets
      → route_id p.route_set ≡ route_id q.route_set
      → m ≡ n
      → arguments_of r ≡ arguments_of s
      → SameRouting (routed p m r breaker state) (routed q n s breaker state)
  same_routing p q m n r s breaker state h routes model arguments =
      let sets = services.route_sets in
      let fallbacks : fallbacks_for sets p.route_set ≡ fallbacks_for sets q.route_set =
        fallbacks_for-route_id sets p.route_set h
        ∙ ap (λ x. fallbacks_for sets (some x)) routes
        ∙ sym (fallbacks_for-route_id sets q.route_set h) in
      converse-SameRouting_at services.client readings.loop _ _ sets m n _ _ breaker state arguments
        model fallbacks

  -- Two requests whose keys are equal are of the same tenant and application, for the same model, with
  -- the same messages and parameters, under the same guardrail policy and policy epoch. And the router
  -- treats them alike: from any state of the breakers and of the client their calls of it have the same
  -- result, or the same error but for the name of the route set in it, and leave the same state. It is
  -- assumed that the digest does not map the two payloads to one text, and that no route set is named
  -- "default" or has an empty name.
  pub cache_key-Same :
      (i j : Identity) (p q : TenantPolicy) (m n : String) (r s : ChatRequest)
      → NoDefault services.route_sets
      → NoCollision services.digest (payload_of i p m r) (payload_of j q n s)
      → cache_key services readings i p m r ≡ cache_key services readings j q n s
      → Same i j p q m n r s
  unfolding cache_key cache_payload
  cache_key-Same i j p q m n r s h distinct key =
      let same = distinct key in
      let model = ap (λ (x : Payload). x.model_version) same in
      let messages = ap (λ (x : Payload). x.normalized_messages) same in
      let max_tokens = ap (λ (x : Payload). x.max_tokens) same in
      let temperature = ap (λ (x : Payload). x.temperature) same in
      record {
        tenant = ap (λ (x : Payload). x.tenant_id) same;
        application = ap (λ (x : Payload). x.application_id) same;
        model = model;
        messages = messages;
        max_tokens = max_tokens;
        temperature = temperature;
        guardrail = ap (λ (x : Payload). x.guardrail_version) same;
        epoch = ap (λ (x : Payload). x.policy_epoch) same;
        routing = λ breaker state.
            same_routing p q m n r s breaker state h (ap (λ (x : Payload). x.model_route_id) same)
              model (rw (messages, max_tokens, temperature) refl);
      }

  -- A change of the tenant's state gives every request of the tenant a new key, if the digest does not
  -- map the two payloads to one text.
  pub cache_key-updated :
      (i : Identity) (p : TenantPolicy) (state : TenantState) (m : String) (r : ChatRequest)
      → NoCollision services.digest (payload_of i p m r) (payload_of i (updated p state) m r)
      → cache_key services readings i p m r ≢ cache_key services readings i (updated p state) m r
  unfolding cache_key
  cache_key-updated i p state m r distinct h =
      plus_one_ne p.policy_epoch (sym (same_epoch i i p (updated p state) m m r r (distinct h)))
