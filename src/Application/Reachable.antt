-- ===== src/Application/Reachable.antt =====
-- The states that services/gateway reaches from the start, by serving any requests.
use bedrock_gateway_platform.Base.{ℕ, ◌≡◌, String, List, [], ◌∷◌, ok, bind-eq-ok, string_eq, arith}
use bedrock_gateway_platform.Dict
use bedrock_gateway_platform.Policy.Models.{TenantState}
use bedrock_gateway_platform.Policy.Snapshots
use bedrock_gateway_platform.Policy.Snapshots.Owners.{
  IsKeyed, set_state-IsKeyed, get-keyed, Owned, invalidate-IsCacheKeyed,
}
use bedrock_gateway_platform.Config.Environment.{Settings}
use bedrock_gateway_platform.Config.Principals.{load_iam_tenants}
use bedrock_gateway_platform.Config.Policies.{load_policies_from_yaml}
use bedrock_gateway_platform.Config.Policies.Owners.{load_policies_from_yaml-IsKeyed}
use bedrock_gateway_platform.Api.Handler.Preserves.{Preserves, preserves_rules}
use bedrock_gateway_platform.Api.Gateway.{Services, Gateway}
use bedrock_gateway_platform.Api.Stream.{iterate, router_converse_stream}
use bedrock_gateway_platform.Api.Admin.{
  StateRequest, store_change, push_change, set_tenant_state, handle,
}
use bedrock_gateway_platform.Api.KillSwitch.Runs.{
  ApiRequest, chat_request, state_request, iteration, serve, serve_one,
}
use bedrock_gateway_platform.Application.{
  Documents, Collaborators, Tables, load_tables, services_of, create_app,
}
use bedrock_gateway_platform.Application.Sound.{IsSound, chat-IsSound}

module _ (services : Services) where
  Sound : Gateway services → Type 0
  Sound g = IsSound g

  store_change-Sound :
      (request : StateRequest) (state : TenantState)
      → Preserves Sound (store_change services request state)
  unfolding store_change Sound
  store_change-Sound request state = record {
    at = λ g h. record {
      store = set_state-IsKeyed g.policy_store request.tenant_id state h.store;
      cache = h.cache;
      responses = h.responses;
      captures = h.captures;
    };
  }

  push_change-Sound : (request : StateRequest) → Preserves Sound (push_change services request)
  unfolding push_change Sound
  push_change-Sound request = record {
    at = λ g h. record {
      store = h.store;
      cache = invalidate-IsCacheKeyed g.policy_cache request.tenant_id h.cache;
      responses = h.responses;
      captures = h.captures;
    };
  }

  handle-Sound : (request : StateRequest) → Preserves Sound (handle services request)
  unfolding handle
  handle-Sound request = search (preserves_rules, store_change-Sound, push_change-Sound) depth 20

  serve_one-IsSound :
      (g : Gateway services) (r : ApiRequest services)
      → IsSound g
      → IsSound (serve_one services g r)
  unfolding serve_one set_tenant_state iterate router_converse_stream Sound
  serve_one-IsSound g (chat_request readings q) h = chat-IsSound services readings q g h
  serve_one-IsSound g (state_request request) h = (handle-Sound request).at g h
  serve_one-IsSound g (iteration now disconnected request_id model_id arguments) h = record {
    store = h.store;
    cache = h.cache;
    responses = h.responses;
    captures = h.captures;
  }

  pub serve-IsSound :
      (rs : List (ApiRequest services)) (g : Gateway services)
      → IsSound g
      → IsSound (serve services g rs)
  unfolding serve
  serve-IsSound [] g h = h
  serve-IsSound (r ∷ rs) g h = serve-IsSound rs (serve_one services g r) (serve_one-IsSound g r h)

load_tables-IsKeyed :
    (documents : Documents) (tables : Tables)
    → load_tables documents ≡ ok tables
    → IsKeyed tables.policy_store
unfolding load_tables
load_tables-IsKeyed documents tables h =
    let (resolver, e1, h1) = bind-eq-ok (load_iam_tenants documents.iam_tenants) _ tables h in
    let (store, e2, h2) = bind-eq-ok (load_policies_from_yaml documents.tenants) _ tables h1 in
    let (routes, e3, h3) = bind-eq-ok _ _ tables h2 in
    let same : store ≡ tables.policy_store = cc h3 in
    rw (← same) (load_policies_from_yaml-IsKeyed documents.tenants store e2)

module _ (settings : Settings) (c : Collaborators) where
  create_app-IsSound :
      (s : c.client.State) (tables : Tables)
      → IsKeyed tables.policy_store
      → IsSound (create_app settings c s tables)
  unfolding create_app Dict.get
  create_app-IsSound s tables h = record {
    store = h;
    cache = record { own = λ t p q. cc q };
    responses = record { distinct = tt; bounded = omega arith };
    captures = record { own = λ id r q. cc q };
  }

  -- Whatever chat requests, state changes and iterations of streams an application has served since it
  -- was built from its settings and files: in the store and in the snapshots every policy stands under
  -- the name of its own tenant, every captured record under its own request id, and the response cache
  -- holds no key twice and no more entries than it may.
  pub reachable-IsSound :
      (documents : Documents) (tables : Tables) (s : c.client.State)
      (rs : List (ApiRequest (services_of settings c tables)))
      → load_tables documents ≡ ok tables
      → IsSound (serve (services_of settings c tables) (create_app settings c s tables) rs)
  reachable-IsSound documents tables s rs h =
      serve-IsSound (services_of settings c tables) rs (create_app settings c s tables)
        (create_app-IsSound s tables (load_tables-IsKeyed documents tables h))

  -- No request is judged by another tenant's policy. In every state that an application reaches from
  -- its start, a read of a tenant's policy through the snapshots, at any readings of the clock, gives a
  -- policy of that very tenant or raises.
  pub own_policy :
      (documents : Documents) (tables : Tables) (s : c.client.State)
      (rs : List (ApiRequest (services_of settings c tables))) (t : String) (checked stored : ℕ)
      → load_tables documents ≡ ok tables
      → let g = serve (services_of settings c tables) (create_app settings c s tables) rs in
        Owned t (Snapshots.get checked stored g.policy_store g.policy_cache t).0
  own_policy documents tables s rs t checked stored h =
      let sound = reachable-IsSound documents tables s rs h in
      (get-keyed checked stored _ _ t sound.store sound.cache).0
