-- ===== src/Lib.antt =====
-- The gateway of services/gateway: an HTTP service in Python in front of a model service, for many
-- tenants. This library models its logic and states what makes it correct.
--
-- A chat request (api/routes.py) runs through the stages of pipeline.py: authentication by a token or
-- by an IAM principal (auth/), a role check, the tenant's policy through a cache of snapshots
-- (policy/cache.py over policy/store.py), the kill switch, the rate limiter (policy/rate_limiter.py),
-- the model allowlist and the input guardrail (guardrails/). Then it is answered from the response
-- cache (cache/), or by a model that the router (routing/router.py) picks with the help of circuit
-- breakers (routing/circuit_breaker.py), whose text passes the output guardrail. An operator changes a
-- tenant's state through api/admin_routes.py, which writes the store and invalidates the snapshot.
--
-- Files and code, where a path without another folder is one below services/gateway:
--   Base, Dict: tests on numbers, texts as code points, results of functions that raise, lists, and
--     Python's dict and OrderedDict as lists of entries in insertion order.
--   Config: config.py, and the loaders of the YAML files in policy/store.py (Config.Policies),
--     routing/router.py (Config.Routes) and auth/aws_iam.py (Config.Principals), on the documents that
--     PyYAML has read (Config.Yaml). Policies.Fields and Readings say what an entry stands for.
--   Application: main.py. `create_app` is the state before the first request; Application.Sound and
--     Reachable are about the states that serving requests leads to.
--   Policy.Models, Store, Snapshots, Limiter: policy/models.py, store.py, cache.py, rate_limiter.py.
--     Snapshots.Staleness has the runs of reads, changes and pushes, Snapshots.Threads their
--     interleavings, Snapshots.Owners whose policy stands where; Limiter.Calls and Limiter.Rate have one
--     call and a run of calls.
--   Routing.Breaker, Routing.Router: routing/circuit_breaker.py and router.py. A method of a class is
--     a function from the object's state to its result and the new state. Breaker.Steps has
--     a state machine for it, Runs, Storms and Trials have histories of calls.
--   Inference: the data and the protocol of inference/bedrock_client.py. Inference.Bedrock is
--     `BedrockClient.converse` with its retries, Inference.BedrockStream its stream and the class as an
--     implementation of the protocol.
--   Streaming: streaming.py, whose generator is a function from the chunks to the events; its log line
--     is in Streaming.Lines.
--   Guardrails, Auth: guardrails/models.py, client.py, fail_closed.py; auth/identity.py, rbac.py,
--     aws_iam.py, and in Auth.Jwks jwt_verifier.py.
--   Auth.DevKeys: auth/devkeys.py, scripts/generate_dev_token.py (from the root of the repository) and
--     the choice of a verifier in main.py.
--   Regex, Guardrails.Patterns, Guardrails.Basic: the part of Python's `re` that the program uses, as a
--     backtracking matcher, and guardrails/basic_guardrail.py with its patterns.
--   Responses, Captures: cache/store.py, cache/keys.py and telemetry/debug_capture.py, whose `redact` is
--     in Captures.Redaction.
--   Telemetry: telemetry/logging.py (Logging), otel.py (Spans), middleware.py with the handler of
--     unhandled exceptions in main.py (Middleware), cost.py and slo.py (Cost).
--   Pipeline: the stages of pipeline.py, and in Guards what it means to pass one.
--   Api: the handlers. A handler is a function of the gateway's state (Api.Gateway) that goes on with
--     a value or answers at once, and keeps what it wrote (Api.Handler); `do` blocks compose the stages
--     as the source does. Api.Chat is `chat`, Api.Admin is `set_tenant_state`, and Api.Stream iterates a
--     streaming response. Chat.Lines has the log lines of `chat`, beside the handler since nothing reads
--     them back. Chat.Gates, Chat.Outputs, Chat.Hits, Chat.Keys, Admin.Changes, Planes and
--     KillSwitch are about whole requests and sequences of requests.
--   LoadTests: loadtests/fault_injection.py (Faults) and harness.py (Harness), from the root of the
--     repository: the clients, tenants and tokens of a scenario.
--   Examples: concrete runs.
--
-- Units. A reading of the monotonic clock is a number of nanoseconds, and each reading that a
-- method takes is an argument of its own, in any order. The limiter's floats are whole numbers of a
-- unit such that a bucket of capacity c gains c units a nanosecond and one token is 60 * 10^9
-- units. Temperatures are counted in millionths, latencies in hundredths of a millisecond, costs in
-- millionths of a dollar, times of log lines in milliseconds. Every loop is over a list or a table,
-- but for the retries, which count down from max_retries, and the bounded repetitions of a pattern.
-- Fuel is used only for the digits of a number, and there the number itself is enough.
--
-- Parameters, for code outside or not modelled: the verifier of tokens (to the pipeline a function
-- of the token; Auth.Jwks has the verifier with its key cache, over the library that checks tokens
-- and the provider of keys; Auth.DevKeys has the library that signs them and the generator of key
-- pairs), the guardrail client, the model client with a state of its own (or, below it, the boto3
-- client), the digest of a cache key's canonical JSON, the redaction of captured texts (of which
-- Captures.Redaction is the one of the source), and Python's Unicode tables.
--
-- Not modelled: the attributes of the handlers' spans, the log line of a state change, the text of
-- JSON and the export of spans, the parsing of YAML text, floats in YAML, values in YAML that the
-- program stores against the annotation of their field, negative durations, the cryptography of
-- tokens, and a streaming response that its server drops before its end. The jitter of the pauses
-- is left out but for its bound. A request, or the iteration of a stream, runs to its end before
-- the next one starts, as the handlers do on one event loop between two awaits; the locks of the
-- source guard critical sections that are single steps here. Snapshots.Threads takes the reads of
-- policy/cache.py apart into such steps.
pub mod Api
pub mod Application
pub mod Auth
pub mod Base
pub mod Captures
pub mod Config
pub mod Dict
pub mod Examples
pub mod Guardrails
pub mod Inference
pub mod LoadTests
pub mod Pipeline
pub mod Policy
pub mod Regex
pub mod Responses
pub mod Routing
pub mod Streaming
pub mod Telemetry
