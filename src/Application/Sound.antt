-- ===== src/Application/Sound.antt =====
-- What holds of the state of services/gateway whatever requests it has served since it was built.
use bedrock_gateway_platform.Base.{
  ℕ, ◌≡◌, refl, String, Bool, true, false, Option, none, some, Result, ok, raise, string_eq, ==_iff,
  arith,
}
use bedrock_gateway_platform.Dict
use bedrock_gateway_platform.Dict.Laws.{get-put}
use bedrock_gateway_platform.Policy.Models.{TenantPolicy, UnknownTenantError}
use bedrock_gateway_platform.Policy.Snapshots.{PolicySnapshotCache}
use bedrock_gateway_platform.Policy.Snapshots.Owners.{IsKeyed, IsCacheKeyed, get-keyed}
use bedrock_gateway_platform.Auth.Identity.{Identity}
use bedrock_gateway_platform.Routing.Router.{RoutedResult}
use bedrock_gateway_platform.Responses.{CachedResponse}
use bedrock_gateway_platform.Responses.Laws.{IsValid, get-IsValid, set-IsValid}
use bedrock_gateway_platform.Captures
use bedrock_gateway_platform.Captures.{DebugCaptureStore, DebugRecord}
use bedrock_gateway_platform.Pipeline.Admission.{resolve_policy, or_not_provisioned}
use bedrock_gateway_platform.Api.Handler.Preserves.{Preserves, preserves_rules}
use bedrock_gateway_platform.Api.Schemas.{ChatRequest}
use bedrock_gateway_platform.Api.Gateway.{Services, Readings, Gateway, Request}
use bedrock_gateway_platform.Api.Chat.{
  identify, find_policy, limit_rate, read_body, open_stream, read_cache, capture_if, answer_cached,
  route, write_cache, answer_routed, cached_or, complete, stream_or, handle, chat,
}

pub record IsNamed (store : DebugCaptureStore) : Type 0 where
  pub own : (id : String) (r : DebugRecord) → Dict.get id store.records ≡ some r → r.request_id ≡ id

-- Every policy and every captured record stands under its own name, and the response cache holds no
-- key twice and no more than it may.
pub record IsSound {services : Services} (g : Gateway services) : Type 0 where
  pub store : IsKeyed g.policy_store
  pub cache : IsCacheKeyed g.policy_cache
  pub responses : IsValid g.response_cache
  pub captures : IsNamed g.debug_captures

capture-IsNamed :
    (redact : String → String) (now : ℕ) (store : DebugCaptureStore)
    (id tenant input output : String)
    → IsNamed store
    → IsNamed (Captures.capture redact now store id tenant input output)
unfolding Captures.capture
capture-IsNamed redact now store id tenant input output h = record {
  own = λ j w e. ground (
    arith,
    e,
    h.own j w,
    ==_iff id j,
    get-put id j
        (record {
          request_id = id;
          tenant_id = tenant;
          redacted_input = redact input;
          redacted_output = redact output;
          captured_at = now;
        })
        store.records,
  );
}

module _ (services : Services) (readings : Readings) where
  Sound : Gateway services → Type 0
  Sound g = IsSound g

  cache_of_not_provisioned :
      (found : Result UnknownTenantError TenantPolicy × PolicySnapshotCache)
      → (or_not_provisioned found).1 ≡ found.1
  cache_of_not_provisioned (ok p, c) = refl
  cache_of_not_provisioned (raise e, c) = refl

  find_policy-Sound :
      (q : Request) (i : Identity) → Preserves Sound (find_policy services readings q i)
  unfolding find_policy resolve_policy Sound
  find_policy-Sound q i = record {
    at = λ g h. record {
      store = h.store;
      cache =
          rw cache_of_not_provisioned
            (get-keyed readings.policy_checked readings.policy_stored g.policy_store g.policy_cache
              i.tenant_id h.store h.cache).1;
      responses = h.responses;
      captures = h.captures;
    };
  }

  limit_rate-Sound :
      (q : Request) (p : TenantPolicy) → Preserves Sound (limit_rate services readings q p)
  unfolding limit_rate Sound
  limit_rate-Sound q p = record {
    at = λ g h. record {
      store = h.store;
      cache = h.cache;
      responses = h.responses;
      captures = h.captures;
    };
  }

  open_stream-Sound :
      (q : Request) (m : String) (r : ChatRequest)
      → Preserves Sound (open_stream services readings q m r)
  unfolding open_stream Sound
  open_stream-Sound q m r = record {
    at = λ g h. record {
      store = h.store;
      cache = h.cache;
      responses = h.responses;
      captures = h.captures;
    };
  }

  read_body-Sound : (q : Request) → Preserves Sound (read_body services readings q)
  unfolding read_body
  read_body-Sound q = record { at = λ g h. h }

  read_cache-Sound : (key : String) → Preserves Sound (read_cache services readings key)
  unfolding read_cache Sound
  read_cache-Sound key = record {
    at = λ g h. record {
      store = h.store;
      cache = h.cache;
      responses = get-IsValid readings.cache_read g.response_cache key h.responses;
      captures = h.captures;
    };
  }

  capture_if-Sound :
      (b : Bool) (q : Request) (i : Identity) (r : ChatRequest) (output : String)
      → Preserves Sound (capture_if services readings b q i r output)
  unfolding capture_if Sound
  capture_if-Sound false q i r output = record { at = λ g h. h }
  capture_if-Sound true q i r output = record {
    at = λ g h. record {
      store = h.store;
      cache = h.cache;
      responses = h.responses;
      captures = capture-IsNamed _ _ _ q.request_id _ _ _ h.captures;
    };
  }

  route-Sound :
      (q : Request) (p : TenantPolicy) (m : String) (r : ChatRequest)
      → Preserves Sound (route services readings q p m r)
  unfolding route Sound
  route-Sound q p m r = record {
    at = λ g h. record {
      store = h.store;
      cache = h.cache;
      responses = h.responses;
      captures = h.captures;
    };
  }

  write_cache-Sound :
      (key : String) (routed : RoutedResult)
      → Preserves Sound (write_cache services readings key routed)
  unfolding write_cache Sound
  write_cache-Sound key routed = record {
    at = λ g h. record {
      store = h.store;
      cache = h.cache;
      responses = set-IsValid readings.cache_written g.response_cache key _ h.responses.distinct;
      captures = h.captures;
    };
  }

  ruleset stage_rules = (
    preserves_rules, find_policy-Sound, limit_rate-Sound, open_stream-Sound, read_body-Sound,
    read_cache-Sound, capture_if-Sound, route-Sound, write_cache-Sound,
  )

  answer_cached-Sound :
      (q : Request) (i : Identity) (p : TenantPolicy) (r : ChatRequest) (c : CachedResponse)
      → Preserves Sound (answer_cached services readings q i p r c)
  unfolding answer_cached
  answer_cached-Sound q i p r c = search stage_rules

  answer_routed-Sound :
      (q : Request) (i : Identity) (p : TenantPolicy) (m : String) (r : ChatRequest) (key : String)
      → Preserves Sound (answer_routed services readings q i p m r key)
  unfolding answer_routed
  answer_routed-Sound q i p m r key = search stage_rules depth 12

  cached_or-Sound :
      (q : Request) (i : Identity) (p : TenantPolicy) (m : String) (r : ChatRequest) (key : String)
      (found : Option CachedResponse)
      → Preserves Sound (cached_or services readings q i p m r key found)
  cached_or-Sound q i p m r key none = answer_routed-Sound q i p m r key
  cached_or-Sound q i p m r key (some c) = answer_cached-Sound q i p r c

  stream_or-Sound :
      (b : Bool) (q : Request) (i : Identity) (p : TenantPolicy) (m : String) (r : ChatRequest)
      → Preserves Sound (stream_or services readings b q i p m r)
  unfolding complete
  stream_or-Sound true q i p m r = open_stream-Sound q m r
  stream_or-Sound false q i p m r = search (preserves_rules, read_cache-Sound, cached_or-Sound)

  handle-Sound : (q : Request) → Preserves Sound (handle services readings q)
  unfolding handle identify
  handle-Sound q = search (stage_rules, stream_or-Sound) depth 30

  pub chat-IsSound :
      (q : Request) (g : Gateway services) → IsSound g → IsSound (chat services readings q g).1
  unfolding chat Sound
  chat-IsSound q = (handle-Sound q).at
