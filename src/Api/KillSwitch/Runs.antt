-- ===== src/Api/KillSwitch/Runs.antt =====
-- What a sequence of requests to services/gateway/api does to the policy plane.
use bedrock_gateway_platform.Base.{
  ℕ, Bool, String, ◌≡◌, ◌∙◌, ap, sym, refl, false, List, [], ◌∷◌, ◌++◌, Result, ok, raise,
  string_eq, ◌==◌,
}
use bedrock_gateway_platform.Policy.Models.{TenantState}
use bedrock_gateway_platform.Policy.Snapshots.Staleness.{
  Plane, Event, read, change, push, step, run, Leaves,
}
use bedrock_gateway_platform.Inference.{ConverseArguments}
use bedrock_gateway_platform.Api.Stream.{router_converse_stream, iterate}
use bedrock_gateway_platform.Api.Handler.{after, ◌>>=◌}
use bedrock_gateway_platform.Api.Gateway.{Services, Readings, Gateway, Request, ErrorResponse}
use bedrock_gateway_platform.Api.Chat.{chat}
use bedrock_gateway_platform.Api.Planes.{plane, chat-plane}
use bedrock_gateway_platform.Api.Admin.{
  StateRequest, Admin, stateless, store_change, push_change, handle, set_tenant_state,
}

Leaves-append : (t : String) (es fs : List Event) → Leaves t es → Leaves t fs → Leaves t (es ++ fs)
Leaves-append t [] fs h k = k
Leaves-append t (read u a b ∷ es) fs h k = Leaves-append t es fs h k
Leaves-append t (change u s ∷ es) fs h k = (h.0, Leaves-append t es fs h.1 k)
Leaves-append t (push u ∷ es) fs h k = Leaves-append t es fs h k

run-append : (p : Plane) (es fs : List Event) → run p (es ++ fs) ≡ run (run p es) fs
unfolding run
run-append p [] fs = refl
run-append p (e ∷ es) fs = run-append (step p e) es fs

module _ (services : Services) where
  abbrev RunsTo : String → Gateway services → Gateway services → Type 0
  RunsTo t g g' =
      (events : List Event) × Leaves t events × (plane services g' ≡ run (plane services g) events)

  RunsTo-append :
      (t : String) (g g' g'' : Gateway services) → RunsTo t g g' → RunsTo t g' g'' → RunsTo t g g''
  RunsTo-append t g g' g'' (es, l, h) (fs, k, j) = (
    es ++ fs,
    Leaves-append t es fs l k,
    j ∙ sym (run-append (plane services g) es fs ∙ ap (λ p. run p fs) (sym h)),
  )

  -- A handler acts on the plane as events that leave a tenant's state alone.
  record Acts {A : Type 0} (t : String) (m : Admin services A) : Type 0 where
    at : (g : Gateway services) → RunsTo t g (m g).1

  Acts-stateless :
      {A : Type 0} (t : String) (r : Result ErrorResponse A) → Acts t (stateless services r)
  unfolding run
  Acts-stateless t r = record { at = λ g. ([], tt, refl) }

  Acts-store_change :
      (t : String) (request : StateRequest) (state : TenantState)
      → (request.tenant_id == t) ≡ false
      → Acts t (store_change services request state)
  unfolding run step plane store_change
  Acts-store_change t request state ne = record {
    at = λ g. (change request.tenant_id state ∷ [], (ne, tt), refl);
  }

  Acts-push_change : (t : String) (request : StateRequest) → Acts t (push_change services request)
  unfolding run step plane push_change
  Acts-push_change t request = record { at = λ g. (push request.tenant_id ∷ [], tt, refl) }

  after-Acts :
      {A B : Type 0} (t : String) (g : Gateway services)
      (o : Result ErrorResponse A × Gateway services) (f : A → Admin services B)
      → RunsTo t g o.1
      → ((a : A) → Acts t (f a))
      → RunsTo t g (after o f).1
  after-Acts t g (ok a, g') f h k = RunsTo-append t g g' (f a g').1 h ((k a).at g')
  after-Acts t g (raise e, g') f h k = h

  Acts-bind :
      {A B : Type 0} (t : String) (m : Admin services A) (f : A → Admin services B)
      → Acts t m
      → ((a : A) → Acts t (f a))
      → Acts t (m >>= f)
  unfolding ◌>>=◌
  Acts-bind t m f h k = record { at = λ g. after-Acts t g (m g) f (h.at g) k }

  handle-Acts :
      (t : String) (request : StateRequest)
      → (request.tenant_id == t) ≡ false
      → Acts t (handle services request)
  unfolding handle
  handle-Acts t request ne =
      search (Acts-bind, Acts-stateless, Acts-store_change, Acts-push_change) depth 14

  -- A state change for another tenant.
  set_tenant_state-plane :
      (t : String) (request : StateRequest) (g : Gateway services)
      → (request.tenant_id == t) ≡ false
      → RunsTo t g (set_tenant_state services request g).1
  unfolding set_tenant_state
  set_tenant_state-plane t request g ne = (handle-Acts t request ne).at g

  -- A request, or the iteration of a streaming response that an earlier one has opened.
  pub data ApiRequest : Type 0 where
    chat_request : Readings → Request → ApiRequest
    state_request : StateRequest → ApiRequest
    iteration : ℕ → (ℕ → Bool) → String → String → ConverseArguments → ApiRequest

  unfoldable pub serve_one : Gateway services → ApiRequest → Gateway services
  serve_one g (chat_request readings q) = (chat services readings q g).1
  serve_one g (state_request request) = (set_tenant_state services request g).1
  serve_one g (iteration now disconnected request_id model_id arguments) =
      (iterate services now disconnected request_id model_id arguments g).1

  -- The gateway after the requests, in order.
  unfoldable pub serve : Gateway services → List ApiRequest → Gateway services
  serve g [] = g
  serve g (r ∷ rs) = serve (serve_one g r) rs

  abbrev pub IsOther : String → ApiRequest → Type 0
  IsOther t (chat_request readings q) = Unit {0}
  IsOther t (iteration now disconnected request_id model_id arguments) = Unit {0}
  IsOther t (state_request request) = (request.tenant_id == t) ≡ false

  -- No request is to change the tenant's state; chat requests may be any tenant's.
  abbrev pub Others : String → List ApiRequest → Type 0
  Others t [] = Unit {0}
  Others t (r ∷ rs) = IsOther t r × Others t rs

  serve_one-plane :
      (t : String) (g : Gateway services) (r : ApiRequest)
      → IsOther t r
      → RunsTo t g (serve_one g r)
  unfolding serve_one plane iterate router_converse_stream run
  serve_one-plane t g (chat_request readings q) h = chat-plane services readings t q g
  serve_one-plane t g (iteration now disconnected request_id model_id arguments) h = ([], tt, refl)
  serve_one-plane t g (state_request request) h = set_tenant_state-plane t request g h

  pub serve-plane :
      (t : String) (g : Gateway services) (rs : List ApiRequest)
      → Others t rs
      → (events : List Event) × Leaves t events
        × (plane services (serve g rs) ≡ run (plane services g) events)
  unfolding serve run
  serve-plane t g [] h = ([], tt, refl)
  serve-plane t g (r ∷ rs) h =
      RunsTo-append t g (serve_one g r) _ (serve_one-plane t g r h.0)
        (serve-plane t (serve_one g r) rs h.1)
