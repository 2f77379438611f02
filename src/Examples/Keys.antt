-- ===== src/Examples/Keys.antt =====
-- Cache keys of requests to the example gateway.
use bedrock_gateway_platform.Base.{◌≡◌, refl, String, false, true, none, some, [], ◌∷◌, string_eq}
use bedrock_gateway_platform.Base.Int.{ℤ, pos, negsuc}
use bedrock_gateway_platform.Policy.Models.{active, suspended, TenantPolicy}
use bedrock_gateway_platform.Api.Gateway.{Services}
use bedrock_gateway_platform.Api.Chat.{cache_key}
use mathlib.Core.Bool.{false≢true}
use bedrock_gateway_platform.Base.{◌≢◌, ==_iff}
use bedrock_gateway_platform.Base.Text.{decimal}
use bedrock_gateway_platform.Dict
use bedrock_gateway_platform.Policy.Store.{updated}
use bedrock_gateway_platform.Responses.Keys.{cache_payload}
use bedrock_gateway_platform.Api.Chat.{cache_key}
use bedrock_gateway_platform.Api.Schemas.{ChatRequest}
use bedrock_gateway_platform.Api.Chat.Keys.{
  NoCollision, NoDefault, payload_of, Same, cache_key-Same, cache_key-updated,
}
use bedrock_gateway_platform.Examples.World.{services, readings, caller}

abbrev known_policy : TenantPolicy
known_policy = record {
  tenant_id = "acme";
  state = active;
  models = "claude" ∷ [];
  rpm_limit = pos 2;
  guardrail_policy = "strict-v1";
  route_set = none;
  slo = record { p95_latency_ms = none };
  policy_epoch = pos 4;
  allow_guardrail_bypass_on_error = false;
  debug_capture_enabled = false;
}

-- Two policies with the route set "gold".
abbrev gold : TenantPolicy
gold = record known_policy { route_set = some "gold" }

abbrev busy_gold : TenantPolicy
busy_gold = record gold { rpm_limit = pos 600 }

abbrev gold_services : Services
gold_services = record services {
  route_sets =
      ("gold", record { name = "gold"; primary = "claude"; fallbacks = "haiku" ∷ [] }) ∷ [];
}

gold-NoDefault : NoDefault gold_services.route_sets
unfolding Dict.get
gold-NoDefault = record { no_default = refl; no_empty = refl }

abbrev parsed : ChatRequest
parsed = record {
  model = none;
  messages = record { role = "user"; content = "hi" } ∷ [];
  max_tokens = 1024;
  temperature = 700000;
  stream = false;
}

abbrev model_name : String
model_name = "claude"

-- The second request names its model and asks for a stream.
abbrev explicit : ChatRequest
explicit = record parsed { model = some "claude"; stream = true }

same_key :
    cache_key gold_services readings caller gold model_name parsed
    ≡ cache_key gold_services readings caller busy_gold model_name explicit
unfolding cache_key cache_payload
same_key = refl

same_payload :
    NoCollision gold_services.digest
      (payload_of caller gold model_name parsed)
      (payload_of caller busy_gold model_name explicit)
unfolding cache_payload
same_payload h = refl

cache_key-Same_example :
    Same gold_services readings caller caller gold busy_gold model_name model_name parsed explicit
cache_key-Same_example =
    cache_key-Same gold_services readings caller caller gold busy_gold model_name model_name parsed
      explicit gold-NoDefault same_payload same_key

abbrev epoch_text : ℤ → String
epoch_text (pos n) = decimal n
epoch_text (negsuc n) = "-"

-- A digest that tells the two epochs apart.
abbrev epoch_services : Services
epoch_services = record services { digest = λ p. epoch_text p.policy_epoch }

epochs_differ :
    NoCollision epoch_services.digest
      (payload_of caller known_policy model_name parsed)
      (payload_of caller (updated known_policy suspended) model_name parsed)
unfolding cache_payload
epochs_differ h =
    let e4 : String = "4" in let e5 : String = "5" in absurd (false≢true ((==_iff e4 e5).1 h))

cache_key-updated_example :
    cache_key epoch_services readings caller known_policy model_name parsed
    ≢ cache_key epoch_services readings caller (updated known_policy suspended) model_name parsed
cache_key-updated_example =
    cache_key-updated epoch_services readings caller known_policy suspended model_name parsed
      epochs_differ
