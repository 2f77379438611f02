-- ===== src/Api/Admin/Changes.antt =====
-- What a state change through api/admin_routes.py has done when it is answered.
use bedrock_gateway_platform.Base.Int.{plus_one}
use bedrock_gateway_platform.Base.{
  String, ◌≡◌, ◌∙◌, ap, sym, refl, true, Result, ok, raise, string_eq, contains,
}
use bedrock_gateway_platform.Policy.Models.{TenantState, TenantPolicy, UnknownTenantError}
use bedrock_gateway_platform.Policy.Store
use bedrock_gateway_platform.Policy.Store.{updated}
use bedrock_gateway_platform.Policy.Snapshots
use bedrock_gateway_platform.Auth.Identity.{Identity}
use bedrock_gateway_platform.Pipeline.Errors.{PipelineError}
use bedrock_gateway_platform.Pipeline.Authenticate.{authenticate}
use bedrock_gateway_platform.Pipeline.Guards.{authorize_passes}
use bedrock_gateway_platform.Api.Handler.{◌>>=◌, after}
use bedrock_gateway_platform.Api.Gateway.{Services, Gateway, ErrorResponse}
use bedrock_gateway_platform.Api.Admin.{
  StateRequest, StateChange, changed, or_refuse, read_state, or_not_found, Admin, stateless,
  store_change, push_change, handle, set_tenant_state, response_of,
}

module _ (services : Services) where
  stateless_ok :
      {A B : Type 0} (r : Result ErrorResponse A) (f : A → Admin services B) (g : Gateway services)
      (b : B)
      → ((stateless services r >>= f) g).0 ≡ ok b
      → (a : A) × (r ≡ ok a) × ((stateless services r >>= f) g ≡ f a g)
  unfolding ◌>>=◌
  stateless_ok (ok a) f g b h = (a, refl, refl)
  stateless_ok (raise e) f g b h = cc

  store_change_ok :
      {B : Type 0} (request : StateRequest) (state : TenantState)
      (f : TenantPolicy → Admin services B) (g : Gateway services) (b : B)
      → ((store_change services request state >>= f) g).0 ≡ ok b
      → (before : TenantPolicy) × (Store.get g.policy_store request.tenant_id ≡ ok before)
        × ((store_change services request state >>= f) g
            ≡ f (updated before state) (record g {
              policy_store = (Store.set_state g.policy_store request.tenant_id state).1;
            }))
  unfolding ◌>>=◌ store_change Store.set_state
  store_change_ok {B} request state f g b = go (Store.get g.policy_store request.tenant_id)
    where
      go :
          (o : Result UnknownTenantError TenantPolicy)
          → (after
              (let (result, store) = Store.store_state g.policy_store request.tenant_id state o in
                (or_not_found request.request_id result, record g { policy_store = store }))
              f).0
            ≡ ok b
          → (before : TenantPolicy) × (o ≡ ok before)
            × (after
                  (let (result, store) =
                      Store.store_state g.policy_store request.tenant_id state o in
                    (or_not_found request.request_id result, record g { policy_store = store }))
                  f
                ≡ f (updated before state) (record g {
                  policy_store = (Store.store_state g.policy_store request.tenant_id state o).1;
                }))
      go (ok p) h = (p, refl, refl)
      go (raise e) h = cc

  -- What a state change that is answered as done has done.
  pub record Done (request : StateRequest) (g g' : Gateway services) (change : StateChange)
      : Type 0 where
    pub actor : Identity
    pub identified :
        authenticate services.token_verifier services.iam_tenant_resolver
          request.headers.authorization request.headers.principal_arn request.headers.account_id
        ≡ ok actor
    pub authorized : contains services.settings.admin_required_role actor.roles ≡ true
    pub before : TenantPolicy
    pub known : Store.get g.policy_store request.tenant_id ≡ ok before
    pub tenant : change.tenant_id ≡ request.tenant_id
    pub asked : read_state request.request_id request.body ≡ ok change.state
    pub epoch_bumped : change.policy_epoch ≡ plus_one before.policy_epoch
    pub stored : g'.policy_store ≡ (Store.set_state g.policy_store request.tenant_id change.state).1
    pub pushed : g'.policy_cache ≡ Snapshots.invalidate g.policy_cache request.tenant_id
    pub client_kept : g'.client_state ≡ g.client_state

  push_change_after :
      {B : Type 0} (request : StateRequest) (f : Unit {0} → Admin services B) (g : Gateway services)
      → (push_change services request >>= f) g
        ≡ f tt (record g { policy_cache = Snapshots.invalidate g.policy_cache request.tenant_id })
  unfolding ◌>>=◌ push_change
  push_change_after request f g = refl

  or_refuse_ok :
      {A : Type 0} (id : String) (r : Result PipelineError A) (a : A)
      → or_refuse id r ≡ ok a
      → r ≡ ok a
  or_refuse_ok id (ok x) a h = cc
  or_refuse_ok id (raise e) a h = cc

  -- The state and the answer of a change that was made.
  abbrev made : StateRequest → TenantPolicy → TenantState → StateChange
  made request before state = record {
    tenant_id = request.tenant_id;
    state = state;
    policy_epoch = plus_one before.policy_epoch;
  }

  abbrev switched : StateRequest → Gateway services → TenantState → Gateway services
  switched request g state = record g {
    policy_store = (Store.set_state g.policy_store request.tenant_id state).1;
    policy_cache = Snapshots.invalidate g.policy_cache request.tenant_id;
  }

  Done-at :
      (request : StateRequest) (g : Gateway services) (change : StateChange) (actor : Identity)
      (before : TenantPolicy) (state : TenantState)
      (p : Result ErrorResponse StateChange × Gateway services)
      → authenticate services.token_verifier services.iam_tenant_resolver
          request.headers.authorization request.headers.principal_arn request.headers.account_id
        ≡ ok actor
      → contains services.settings.admin_required_role actor.roles ≡ true
      → read_state request.request_id request.body ≡ ok state
      → Store.get g.policy_store request.tenant_id ≡ ok before
      → p.0 ≡ ok change
      → p ≡ (ok (made request before state), switched request g state)
      → Done request g p.1 change
  Done-at request g change actor before state p e1 e2 e3 e4 h q =
      let first = λ (r : Result ErrorResponse StateChange × Gateway services). r.0 in
      let both = sym (ap first q) ∙ h in
      let same : made request before state ≡ change = cc both in
      rw (q, ← same)
        (record {
          actor = actor;
          identified = e1;
          authorized = e2;
          before = before;
          known = e4;
          tenant = refl;
          asked = e3;
          epoch_bumped = refl;
          stored = refl;
          pushed = refl;
          client_kept = refl;
        })

  handle-Done :
      (request : StateRequest) (g : Gateway services) (change : StateChange)
      → (handle services request g).0 ≡ ok change
      → Done request g (handle services request g).1 change
  unfolding handle
  handle-Done request g change h =
      let (actor, e1, q1) = stateless_ok _ _ g change h in
      let h1 = sym (ap (λ (p : Result ErrorResponse StateChange × Gateway services). p.0) q1) ∙ h in
      let (u, e2, q2) = stateless_ok _ _ g change h1 in
      let h2 =
        sym (ap (λ (p : Result ErrorResponse StateChange × Gateway services). p.0) q2) ∙ h1 in
      let (state, e3, q3) = stateless_ok _ _ g change h2 in
      let h3 =
        sym (ap (λ (p : Result ErrorResponse StateChange × Gateway services). p.0) q3) ∙ h2 in
      let (before, e4, q4) = store_change_ok request state _ g change h3 in
      let h4 =
        sym (ap (λ (p : Result ErrorResponse StateChange × Gateway services). p.0) q4) ∙ h3 in
      let q5 =
        push_change_after request _ (record g {
          policy_store = (Store.set_state g.policy_store request.tenant_id state).1;
        }) in
      let q = q1 ∙ q2 ∙ q3 ∙ q4 ∙ q5 in
      Done-at request g change actor before state (handle services request g)
        (or_refuse_ok request.request_id _ actor e1)
        (authorize_passes actor services.settings.admin_required_role
          (or_refuse_ok request.request_id _ u e2))
        e3 e4 h q

  response_ok :
      (p : Result ErrorResponse StateChange × Gateway services) {change : StateChange}
      → response_of services p.0 ≡ changed change
      → p.0 ≡ ok change
  response_ok (ok c, g) h = cc
  response_ok (raise e, g) h = cc

  -- A state change that is answered as done was asked for by an authenticated caller with the admin
  -- role, for a tenant that exists. The store then holds the change, with the policy's epoch one
  -- higher; the tenant's snapshot is gone from the cache.
  pub set_tenant_state-Done :
      (request : StateRequest) (g : Gateway services) (change : StateChange)
      → (set_tenant_state services request g).0 ≡ changed change
      → Done request g (set_tenant_state services request g).1 change
  unfolding set_tenant_state
  set_tenant_state-Done request g change h =
      handle-Done request g change (response_ok (handle services request g) h)
