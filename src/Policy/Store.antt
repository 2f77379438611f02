-- ===== src/Policy/Store.antt =====
-- services/gateway/policy/store.py: the policies by tenant. `FilePolicyStore` passes both calls on to
-- the in-memory store that it loaded.
pub mod Laws
use bedrock_gateway_platform.Base.{ℕ, ◌+◌, String, Option, none, some, string_eq, Result, ok, raise}
use bedrock_gateway_platform.Base.Int.{plus_one}
use bedrock_gateway_platform.Dict
use bedrock_gateway_platform.Dict.{Dict}
use bedrock_gateway_platform.Policy.Models.{TenantState, TenantPolicy, UnknownTenantError}

pub record PolicyStore : Type 0 where
  pub policies : Dict String TenantPolicy

abbrev pub or_unknown : String → Option TenantPolicy → Result UnknownTenantError TenantPolicy
or_unknown tenant_id none = raise (record { tenant_id = tenant_id })
or_unknown tenant_id (some policy) = ok policy

unfoldable pub get : PolicyStore → String → Result UnknownTenantError TenantPolicy
get store tenant_id = or_unknown tenant_id (Dict.get tenant_id store.policies)

-- dataclasses.replace(current, state=state, policy_epoch=current.policy_epoch + 1)
abbrev pub updated : TenantPolicy → TenantState → TenantPolicy
updated current state = record current {
  state = state;
  policy_epoch = plus_one current.policy_epoch;
}

abbrev pub store_state :
    PolicyStore
    → String
    → TenantState
    → Result UnknownTenantError TenantPolicy
    → Result UnknownTenantError TenantPolicy × PolicyStore
store_state store tenant_id state (raise e) = (raise e, store)
store_state store tenant_id state (ok current) = (
  ok (updated current state),
  record { policies = Dict.put tenant_id (updated current state) store.policies },
)

unfoldable pub set_state :
    PolicyStore → String → TenantState → Result UnknownTenantError TenantPolicy × PolicyStore
set_state store tenant_id state = store_state store tenant_id state (get store tenant_id)
