-- ===== src/Policy/Store/Laws.antt =====
-- What a state change does to later reads of policy/store.py.
use bedrock_gateway_platform.Base.{
  String, ◌≡◌, refl, Option, none, some, string_eq, ◌==◌, ==_iff, if◌then◌else◌, arith,
}
use bedrock_gateway_platform.Dict
use bedrock_gateway_platform.Dict.Laws.{get-put}
use bedrock_gateway_platform.Policy.Models.{TenantState, TenantPolicy}
use bedrock_gateway_platform.Policy.Store.{
  PolicyStore, get, set_state, store_state, or_unknown, updated,
}

store_state-get :
    (s : PolicyStore) (t u : String) (st : TenantState) (o : Option TenantPolicy)
    → Dict.get t s.policies ≡ o
    → get (store_state s t st (or_unknown t o)).1 u
      ≡ (if t == u then (store_state s t st (or_unknown t o)).0 else get s u)
unfolding get
store_state-get s t u st none h = ground (arith, ==_iff t u)
store_state-get s t u st (some p) h = ground (arith, get-put t u (updated p st) s.policies)

-- After a state change a read of the same tenant gives what the change returned, an exception
-- included, and a read of another tenant gives what it gave before.
pub get-set_state :
    (s : PolicyStore) (t u : String) (st : TenantState)
    → get (set_state s t st).1 u ≡ (if t == u then (set_state s t st).0 else get s u)
unfolding set_state get
get-set_state s t u st = store_state-get s t u st (Dict.get t s.policies) refl
