-- ===== src/Application.antt =====
-- services/gateway/main.py: `create_app`, from the settings, the documents of its files, and the
-- collaborators that it is given or builds.
pub mod Sound
pub mod Reachable
use bedrock_gateway_platform.Base.{String, Option, some, [], ok, ◌>>=◌}
use bedrock_gateway_platform.Base.Int.{max_zero}
use bedrock_gateway_platform.Dict.{Dict}
use bedrock_gateway_platform.Config.Yaml.{Yaml, Loaded}
use bedrock_gateway_platform.Config.Environment.{Settings}
use bedrock_gateway_platform.Config.Policies.{load_policies_from_yaml}
use bedrock_gateway_platform.Config.Routes.{load_route_sets_from_yaml}
use bedrock_gateway_platform.Config.Principals.{load_iam_tenants}
use bedrock_gateway_platform.Policy.Store.{PolicyStore}
use bedrock_gateway_platform.Inference.{ConverseClient}
use bedrock_gateway_platform.Routing.Router.{RouteSet}
use bedrock_gateway_platform.Guardrails.Models.{GuardrailClient}
use bedrock_gateway_platform.Guardrails.Patterns.{Unicode}
use bedrock_gateway_platform.Captures.Redaction.{redact}
use bedrock_gateway_platform.Auth.Iam.{IamTenantResolver}
use bedrock_gateway_platform.Responses.Keys.{Payload}
use bedrock_gateway_platform.Pipeline.Authenticate.{TokenVerifier}
use bedrock_gateway_platform.Api.Gateway.{Services, Gateway}

-- What the files hold that the settings name; the file of principals may be missing.
pub record Documents : Type 0 where
  pub iam_tenants : Option Yaml
  pub tenants : Yaml
  pub route_sets : Yaml

pub record Collaborators : Type 1 where
  pub client : ConverseClient
  pub token_verifier : TokenVerifier
  pub guardrail_client : GuardrailClient
  pub digest : Payload → String
  pub unicode : Unicode

pub record Tables : Type 0 where
  pub iam_tenant_resolver : IamTenantResolver
  pub policy_store : PolicyStore
  pub route_sets : Dict String RouteSet

-- The files are read in this order, and the first that cannot be read ends the start.
unfoldable pub load_tables : Documents → Loaded Tables
load_tables documents = do
  resolver ← load_iam_tenants documents.iam_tenants
  store ← load_policies_from_yaml documents.tenants
  routes ← load_route_sets_from_yaml documents.route_sets
  ok (record { iam_tenant_resolver = resolver; policy_store = store; route_sets = routes })

module _ (settings : Settings) (collaborators : Collaborators) where
  -- What `build_router` and `build_admin_router` are given.
  abbrev pub services_of : Tables → Services
  services_of tables = record {
    settings = settings;
    client = collaborators.client;
    route_sets = tables.route_sets;
    token_verifier = collaborators.token_verifier;
    iam_tenant_resolver = some tables.iam_tenant_resolver;
    guardrail_client = collaborators.guardrail_client;
    digest = collaborators.digest;
    redact = redact collaborators.unicode;
  }

  -- The state before the first request. A negative size of the response cache, with which every write
  -- to it raises, is left out.
  unfoldable pub create_app :
      collaborators.client.State → (tables : Tables) → Gateway (services_of tables)
  create_app client_state tables = record {
    policy_store = tables.policy_store;
    policy_cache = record { ttl = settings.policy_cache_ttl_s; snapshots = [] };
    rate_limiter = [];
    circuit_breaker = record {
      failure_threshold = max_zero settings.circuit_breaker_failure_threshold;
      reset_timeout = settings.circuit_breaker_reset_timeout_s;
      breakers = [];
    };
    client_state = client_state;
    response_cache = record {
      ttl = settings.response_cache_ttl_s;
      max_entries = max_zero settings.response_cache_max_entries;
      entries = [];
    };
    debug_captures = record { ttl = settings.debug_capture_ttl_s; records = [] };
  }
