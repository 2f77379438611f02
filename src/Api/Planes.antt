-- ===== src/Api/Planes.antt =====
-- What the handlers of services/gateway/api do to the policy plane: every request is a run of reads,
-- state changes and pushes.
use bedrock_gateway_platform.Base.{
  String, ◌≡◌, refl, Bool, true, false, Option, none, some, List, [], ◌∷◌, Result, ok, raise,
  string_eq,
}
use bedrock_gateway_platform.Policy.Models.{TenantPolicy, UnknownTenantError}
use bedrock_gateway_platform.Policy.Snapshots
use bedrock_gateway_platform.Policy.Snapshots.{PolicySnapshotCache}
use bedrock_gateway_platform.Policy.Snapshots.Staleness.{Plane, Event, read, step, run, Leaves}
use bedrock_gateway_platform.Auth.Identity.{Identity}
use bedrock_gateway_platform.Pipeline.Errors.{PipelineError}
use bedrock_gateway_platform.Pipeline.Admission.{
  resolve_policy, or_not_provisioned, enforce_kill_switch, enforce_model_allowlist,
}
use bedrock_gateway_platform.Pipeline.Guardrail.{check_input_guardrail}
use bedrock_gateway_platform.Routing.Router.{RoutedResult}
use bedrock_gateway_platform.Responses.{CachedResponse}
use bedrock_gateway_platform.Api.Handler.{◌>>=◌, ◌>>◌, after}
use bedrock_gateway_platform.Api.Handler.Keeps.{Keeps, keeps_rules}
use bedrock_gateway_platform.Api.Schemas.{ChatRequest}
use bedrock_gateway_platform.Api.Gateway.{Services, Readings, Gateway, Request, Response}
use bedrock_gateway_platform.Api.Answers.{combined_text, or_fail}
use bedrock_gateway_platform.Api.Chat.{
  Chat, stateless, identify, find_policy, limit_rate, read_body, open_stream, read_cache,
  capture_if, answer_cached, route, write_cache, answer_routed, cached_or, complete, stream_or,
  handle, chat,
}

module _ (services : Services) where
  unfoldable pub plane : Gateway services → Plane
  plane g = record { store = g.policy_store; cache = g.policy_cache }

  module _ (readings : Readings) where
    limit_rate-Keeps :
        (q : Request) (p : TenantPolicy) → Keeps plane (limit_rate services readings q p)
    unfolding limit_rate plane
    limit_rate-Keeps q p = record { at = λ g. refl }

    open_stream-Keeps :
        (q : Request) (m : String) (r : ChatRequest)
        → Keeps plane (open_stream services readings q m r)
    unfolding open_stream plane
    open_stream-Keeps q m r = record { at = λ g. refl }

    read_body-Keeps : (q : Request) → Keeps plane (read_body services readings q)
    unfolding read_body
    read_body-Keeps q = record { at = λ g. refl }

    read_cache-Keeps : (key : String) → Keeps plane (read_cache services readings key)
    unfolding read_cache plane
    read_cache-Keeps key = record { at = λ g. refl }

    capture_if-Keeps :
        (b : Bool) (q : Request) (i : Identity) (r : ChatRequest) (output : String)
        → Keeps plane (capture_if services readings b q i r output)
    unfolding capture_if plane
    capture_if-Keeps true q i r output = record { at = λ g. refl }
    capture_if-Keeps false q i r output = record { at = λ g. refl }

    route-Keeps :
        (q : Request) (p : TenantPolicy) (m : String) (r : ChatRequest)
        → Keeps plane (route services readings q p m r)
    unfolding route plane
    route-Keeps q p m r = record { at = λ g. refl }

    write_cache-Keeps :
        (key : String) (routed : RoutedResult)
        → Keeps plane (write_cache services readings key routed)
    unfolding write_cache plane
    write_cache-Keeps key routed = record { at = λ g. refl }

    ruleset stage_rules = (
      keeps_rules, limit_rate-Keeps, open_stream-Keeps, read_body-Keeps, read_cache-Keeps,
      capture_if-Keeps, route-Keeps, write_cache-Keeps,
    )

    answer_cached-Keeps :
        (q : Request) (i : Identity) (p : TenantPolicy) (r : ChatRequest) (c : CachedResponse)
        → Keeps plane (answer_cached services readings q i p r c)
    unfolding answer_cached
    answer_cached-Keeps q i p r c = search stage_rules

    answer_routed-Keeps :
        (q : Request) (i : Identity) (p : TenantPolicy) (m : String) (r : ChatRequest)
        (key : String)
        → Keeps plane (answer_routed services readings q i p m r key)
    unfolding answer_routed
    answer_routed-Keeps q i p m r key = search stage_rules depth 12

    cached_or-Keeps :
        (q : Request) (i : Identity) (p : TenantPolicy) (m : String) (r : ChatRequest)
        (key : String) (found : Option CachedResponse)
        → Keeps plane (cached_or services readings q i p m r key found)
    cached_or-Keeps q i p m r key none = answer_routed-Keeps q i p m r key
    cached_or-Keeps q i p m r key (some c) = answer_cached-Keeps q i p r c

    stream_or-Keeps :
        (b : Bool) (q : Request) (i : Identity) (p : TenantPolicy) (m : String) (r : ChatRequest)
        → Keeps plane (stream_or services readings b q i p m r)
    unfolding complete
    stream_or-Keeps true q i p m r = open_stream-Keeps q m r
    stream_or-Keeps false q i p m r = search (keeps_rules, read_cache-Keeps, cached_or-Keeps)

    -- What a request does to the plane.
    record Reads (t : String) (m : Chat services readings Response) : Type 0 where
      at :
          (g : Gateway services)
          → (events : List Event) × Leaves t events × (plane (m g).1 ≡ run (plane g) events)

    Reads-stateless :
        {A : Type 0} (t id : String) (result : Result PipelineError A)
        (f : A → Chat services readings Response)
        → ((a : A) → Reads t (f a))
        → Reads t (stateless services readings id result >>= f)
    unfolding ◌>>=◌ run
    Reads-stateless t id (ok a) f h = record { at = (h a).at }
    Reads-stateless t id (raise e) f h = record { at = λ g. ([], tt, refl) }

    found_plane :
        (id : String) (f : TenantPolicy → Chat services readings Response)
        → ((p : TenantPolicy) → Keeps plane (f p))
        → (g : Gateway services)
          (found : Result UnknownTenantError TenantPolicy × PolicySnapshotCache)
        → plane
            (after
              (
                or_fail id (or_not_provisioned found).0,
                record g { policy_cache = (or_not_provisioned found).1 },
              )
              f).1
          ≡ record { store = g.policy_store; cache = found.1 }
    unfolding plane
    found_plane id f h g (ok p, c) = (h p).at (record g { policy_cache = c })
    found_plane id f h g (raise e, c) = refl

    Reads-find_policy :
        (t : String) (q : Request) (i : Identity)
        (f : TenantPolicy → Chat services readings Response)
        → ((p : TenantPolicy) → Keeps plane (f p))
        → Reads t (find_policy services readings q i >>= f)
    unfolding run step plane ◌>>=◌ find_policy resolve_policy
    Reads-find_policy t q i f h = record {
      at = λ g. (
        read i.tenant_id readings.policy_checked readings.policy_stored ∷ [],
        tt,
        found_plane q.request_id f h g (
            Snapshots.get readings.policy_checked readings.policy_stored g.policy_store
              g.policy_cache i.tenant_id),
      );
    }

    after_policy-Keeps :
        (q : Request) (i : Identity) (p : TenantPolicy)
        → Keeps plane (
            stateless services readings q.request_id (enforce_kill_switch p)
            >> (limit_rate services readings q p >> (do
              r ← read_body services readings q
              m ←
                  stateless services readings q.request_id
                    (enforce_model_allowlist p r.model services.settings.bedrock_model_id)
              stateless services readings q.request_id
                  (check_input_guardrail services.guardrail_client p (combined_text r.messages))
              stream_or services readings r.stream q i p m r)))
    after_policy-Keeps q i p = search (stage_rules, stream_or-Keeps) depth 14

    -- A chat request reads the policy of one tenant at most, and changes none.
    pub chat-plane :
        (t : String) (q : Request) (g : Gateway services)
        → (events : List Event) × Leaves t events
          × (plane (chat services readings q g).1 ≡ run (plane g) events)
    unfolding chat handle identify
    chat-plane t q g =
        (Reads-stateless t q.request_id _ _ λ i.
            Reads-stateless t q.request_id _ _
              λ u. Reads-find_policy t q i _ (after_policy-Keeps q i)).at
          g
