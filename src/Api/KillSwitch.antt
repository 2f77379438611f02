-- ===== src/Api/KillSwitch.antt =====
-- The kill switch from end to end: api/admin_routes.py changes a tenant's state, and api/routes.py
-- serves that tenant and others afterwards.
pub mod Runs
use bedrock_gateway_platform.Base.{
  ℕ, String, ◌≡◌, ◌∙◌, ap, true, List, [], ◌∷◌, ◌++◌, Result, ok, raise, string_eq, ◌==◌, contains,
  arith,
}
use bedrock_gateway_platform.Base.Text.{f_string}
use bedrock_gateway_platform.Policy.Models.{value, is_blocking, TenantPolicy, UnknownTenantError}
use bedrock_gateway_platform.Policy.Store
use bedrock_gateway_platform.Policy.Store.{updated}
use bedrock_gateway_platform.Policy.Snapshots
use bedrock_gateway_platform.Policy.Snapshots.{PolicySnapshotCache}
use bedrock_gateway_platform.Policy.Snapshots.Staleness.{Plane, change, push, step, run}
use bedrock_gateway_platform.Policy.Snapshots.Staleness.Bounds.{push_immediate}
use bedrock_gateway_platform.Auth.Identity.{Identity, has_role}
use bedrock_gateway_platform.Auth.Rbac.{require_role}
use bedrock_gateway_platform.Pipeline.Errors.{PipelineError, plain}
use bedrock_gateway_platform.Pipeline.Authenticate.{authenticate, authorize}
use bedrock_gateway_platform.Pipeline.Admission.{
  resolve_policy, or_not_provisioned, enforce_kill_switch,
}
use bedrock_gateway_platform.Api.Handler.{Handler, after, ◌>>=◌, ◌>>◌}
use bedrock_gateway_platform.Api.Gateway.{
  Services, Readings, Gateway, stage, Request, Response, ErrorMessage,
}
use bedrock_gateway_platform.Api.Answers.{fail, or_fail}
use bedrock_gateway_platform.Api.Chat.{
  Chat, stateless, identify, find_policy, handle, chat, response_of,
}
use bedrock_gateway_platform.Api.Planes.{plane}
use bedrock_gateway_platform.Api.Admin.{StateRequest, StateChange, changed, set_tenant_state}
use bedrock_gateway_platform.Api.Admin.Changes.{Done, set_tenant_state-Done}
use Runs.{ApiRequest, serve, Others, serve-plane}

module _ (services : Services) where
  -- The answer to a blocked tenant: no token is taken and no model is called.
  pub record Blocked (q : Request) (g : Gateway services) (answer : Response × Gateway services)
      : Type 0 where
    pub message : ErrorMessage
    pub answered : answer.0 ≡ fail q.request_id 403 "TENANT_BLOCKED" message
    pub client_kept : answer.1.client_state ≡ g.client_state
    pub limiter_kept : answer.1.rate_limiter ≡ g.rate_limiter

  module _ (readings : Readings) where
    stateless_goes_on :
        {A : Type 0} (id : String) (result : Result PipelineError A)
        (f : A → Chat services readings Response) (g : Gateway services) (a : A)
        → result ≡ ok a
        → (stateless services readings id result >>= f) g ≡ f a g
    unfolding ◌>>=◌
    stateless_goes_on id result f g a h = rw h

    find_policy_goes_on :
        (q : Request) (i : Identity) (f : TenantPolicy → Chat services readings Response)
        (g : Gateway services) (policy : TenantPolicy)
        → let found =
            Snapshots.get readings.policy_checked readings.policy_stored g.policy_store
              g.policy_cache i.tenant_id in
          (found.0 ≡ ok policy
            → (find_policy services readings q i >>= f) g
              ≡ f policy (record g { policy_cache = found.1 }))
    unfolding ◌>>=◌ find_policy resolve_policy
    find_policy_goes_on q i f g policy = go (
        Snapshots.get readings.policy_checked readings.policy_stored g.policy_store g.policy_cache
          i.tenant_id)
      where
        go :
            (found : Result UnknownTenantError TenantPolicy × PolicySnapshotCache)
            → found.0 ≡ ok policy
            → after
                (
                  or_fail q.request_id (or_not_provisioned found).0,
                  record g { policy_cache = (or_not_provisioned found).1 },
                )
                f
              ≡ f policy (record g { policy_cache = found.1 })
        go (ok p, c) h =
            let same : p ≡ policy = cc h in ap (λ x. f x (record g { policy_cache = c })) same
        go (raise e, c) h = cc

    kill_switch_stops :
        (q : Request) (policy : TenantPolicy) (f : Unit {0} → Chat services readings Response)
        (g : Gateway services)
        → is_blocking policy.state ≡ true
        → (message : ErrorMessage) × ((stateless services readings q.request_id
                  (enforce_kill_switch policy)
                >>= f)
              g
            ≡ (raise (fail q.request_id 403 "TENANT_BLOCKED" message), g))
    unfolding ◌>>=◌ enforce_kill_switch
    kill_switch_stops q policy f g h = (
      stage (plain (f_string ("tenant '" ∷ policy.tenant_id ∷ "' is " ∷ value policy.state ∷ []))),
      rw h,
    )

    authorize_ok :
        (i : Identity) (role : String) → contains role i.roles ≡ true → authorize i role ≡ ok tt
    unfolding authorize require_role has_role
    authorize_ok i role h = rw h

    -- A request of a known caller whose policy blocks.
    chat-Blocked :
        (q : Request) (g : Gateway services) (i : Identity) (policy : TenantPolicy)
        → authenticate services.token_verifier services.iam_tenant_resolver q.headers.authorization
            q.headers.principal_arn q.headers.account_id
          ≡ ok i
        → contains services.settings.chat_required_role i.roles ≡ true
        → (Snapshots.get readings.policy_checked readings.policy_stored g.policy_store
            g.policy_cache i.tenant_id).0
          ≡ ok policy
        → is_blocking policy.state ≡ true
        → Blocked q g (chat services readings q g)
    unfolding chat handle identify
    chat-Blocked q g i policy e1 e2 e3 e4 =
        let q1 = stateless_goes_on q.request_id _ _ g i e1 in
        let q2 =
          stateless_goes_on q.request_id _ _ g tt
            (authorize_ok i services.settings.chat_required_role e2) in
        let q3 = find_policy_goes_on q i _ g policy e3 in
        let (message, q4) = kill_switch_stops q policy _ _ e4 in
        let all = q1 ∙ q2 ∙ q3 ∙ q4 in
        record {
          message = message;
          answered =
              ap
                (λ (p : Result Response Response × Gateway services).
                  response_of services readings p.0)
                all;
          client_kept =
              ap (λ (p : Result Response Response × Gateway services). p.1.client_state) all;
          limiter_kept =
              ap (λ (p : Result Response Response × Gateway services). p.1.rate_limiter) all;
        }

  -- What the tenant's readers get after the change, and after whatever the others did since.
  seen_after :
      (request : StateRequest) (g g' : Gateway services) (made : StateChange)
      (later : List (ApiRequest services)) (checked stored : ℕ)
      (done : Done services request g g' made)
      → Others services request.tenant_id later
      → (Snapshots.get checked stored
          (serve services g' later).policy_store
          (serve services g' later).policy_cache
          request.tenant_id).0
        ≡ ok (updated done.before made.state)
  unfolding plane step Store.set_state
  seen_after request g g' made later checked stored done others =
      let (events, leaves, run_of) = serve-plane services request.tenant_id g' later others in
      let start : plane services g'
          ≡ step (step (plane services g) (change request.tenant_id made.state))
              (push request.tenant_id) =
        simp (done.stored, done.pushed) in
      let read =
        λ (p : Plane). (Snapshots.get checked stored p.store p.cache request.tenant_id).0 in
      ap read (run_of ∙ ap (λ p. run p events) start)
      ∙ push_immediate request.tenant_id made.state events (plane services g) checked stored leaves
      ∙ rw done.known

  -- The kill switch holds. When a change of a tenant to a blocking state is answered as done, and
  -- whatever chat requests of any tenants, iterations of streaming responses and state changes for
  -- other tenants are served after it, a chat request of an authenticated caller of that tenant with
  -- the chat role is answered with 403 TENANT_BLOCKED, whatever the clock shows; no token is taken
  -- from a bucket and the request calls no model.
  pub kill_switch_holds :
      (request : StateRequest) (g : Gateway services) (made : StateChange)
      (later : List (ApiRequest services)) (readings : Readings) (q : Request) (i : Identity)
      → (set_tenant_state services request g).0 ≡ changed made
      → is_blocking made.state ≡ true
      → Others services request.tenant_id later
      → authenticate services.token_verifier services.iam_tenant_resolver q.headers.authorization
          q.headers.principal_arn q.headers.account_id
        ≡ ok i
      → i.tenant_id ≡ request.tenant_id
      → contains services.settings.chat_required_role i.roles ≡ true
      → let g' = serve services (set_tenant_state services request g).1 later in
        Blocked q g' (chat services readings q g')
  kill_switch_holds request g made later readings q i answered blocking others known own role =
      let g1 = (set_tenant_state services request g).1 in
      let done = set_tenant_state-Done services request g made answered in
      let seen =
        seen_after request g g1 made later readings.policy_checked readings.policy_stored done
          others in
      chat-Blocked readings q (serve services g1 later) i (updated done.before made.state) known
        role (rw own seen) blocking
