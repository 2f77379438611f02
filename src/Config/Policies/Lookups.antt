-- ===== src/Config/Policies/Lookups.antt =====
-- What policy/store.py serves after it has read its file.
use bedrock_gateway_platform.Base.{
  String, ◌≡◌, ◌≢◌, refl, ap, Option, none, some, [], Result, ok, raise, ◌>>=◌, string_eq,
}
use bedrock_gateway_platform.Dict
use bedrock_gateway_platform.Dict.{Dict}
use bedrock_gateway_platform.Dict.Distinct.{Distinct}
use bedrock_gateway_platform.Policy.Models.{TenantPolicy, UnknownTenantError}
use bedrock_gateway_platform.Policy.Store
use bedrock_gateway_platform.Policy.Store.{PolicyStore}
use bedrock_gateway_platform.Config.Yaml.{
  Yaml, null, Loaded, LoadError, left_out, value_error, type_error, attribute_error, key_error,
  value_or,
}
use bedrock_gateway_platform.Config.Tables.{Fails, Kept, Added, read_all, read_all-Added}
use bedrock_gateway_platform.Config.Policies.{policy_of, tenants_of, load_policies_from_yaml}
use bedrock_gateway_platform.Config.Policies.Fields.{AreEntries}
use bedrock_gateway_platform.Config.Policies.Fields.Calls.{or_empty_iff}
use bedrock_gateway_platform.Config.Policies.Readings.{Means, Means-policy_of, policy_of-Means}

-- The answer of the loaded store for a tenant with this entry.
abbrev pub Answers : String → Option Yaml → Result UnknownTenantError TenantPolicy → Type 0
Answers t none answer = answer ≡ raise (record { tenant_id = t })
Answers t (some y) answer = (policy : TenantPolicy) × Means t y policy × (answer ≡ ok policy)

-- An entry that stands for no policy.
abbrev pub IsFaulty : Dict String Yaml → Type 0
IsFaulty tenants =
    (t : String) × (y : Yaml) × (Dict.get t tenants ≡ some y)
    × ((policy : TenantPolicy) → ¬ (Means t y policy))

abbrev pub Describes : Dict String Yaml → Loaded PolicyStore → Type 0
Describes tenants (ok store) = (t : String) → Answers t (Dict.get t tenants) (Store.get store t)
Describes tenants (raise left_out) = ⊥
Describes tenants (raise _) = IsFaulty tenants

Answers-Kept :
    (store : PolicyStore) (t : String) (o : Option Yaml)
    → Kept policy_of t o none (Dict.get t store.policies)
    → Answers t o (Store.get store t)
unfolding Store.get
Answers-Kept store t none k = rw k
Answers-Kept store t (some y) (policy, q, k) = (policy, Means-policy_of t y policy q, rw k)

IsFaulty-Fails :
    (tenants : Dict String Yaml) (e : LoadError) → Fails policy_of tenants e → IsFaulty tenants
IsFaulty-Fails tenants e (t, y, there, fails) =
    (t, y, there, λ policy m. cc (policy_of-Means t y policy m, fails))

Describes-Fails :
    (tenants : Dict String Yaml) (e : LoadError)
    → Fails policy_of tenants e
    → e ≢ left_out
    → Describes tenants (raise e)
Describes-Fails tenants value_error f n = IsFaulty-Fails tenants _ f
Describes-Fails tenants type_error f n = IsFaulty-Fails tenants _ f
Describes-Fails tenants attribute_error f n = IsFaulty-Fails tenants _ f
Describes-Fails tenants key_error f n = IsFaulty-Fails tenants _ f
Describes-Fails tenants left_out f n = absurd (n refl)

-- The store of the policies that were read, or the exception.
abbrev stored : Loaded (Dict String TenantPolicy) → Loaded PolicyStore
stored (ok policies) = ok (record { policies = policies })
stored (raise e) = raise e

Describes-Added :
    (tenants : Dict String Yaml) (r : Loaded (Dict String TenantPolicy))
    → Added policy_of tenants [] r
    → stored r ≢ raise left_out
    → Describes tenants (stored r)
unfolding Dict.get
Describes-Added tenants (ok policies) h n = λ t. Answers-Kept _ t (Dict.get t tenants) (h t)
Describes-Added tenants (raise e) h n =
    Describes-Fails tenants e h λ same. n (ap (λ x. raise x) same)

stored_bind :
    (r : Loaded (Dict String TenantPolicy)) (store : Dict String TenantPolicy → PolicyStore)
    → ((policies : Dict String TenantPolicy) → store policies ≡ record { policies = policies })
    → (r >>= λ policies. ok (store policies)) ≡ stored r
unfolding ◌>>=◌
stored_bind (ok policies) store h = ap (λ x. ok x) (h policies)
stored_bind (raise e) store h = refl

tenants_of-AreEntries :
    (document : Yaml) (raw tenants : Dict String Yaml)
    → AreEntries document raw
    → AreEntries (value_or null (Dict.get "tenants" raw)) tenants
    → tenants_of document ≡ ok tenants
unfolding tenants_of ◌>>=◌
tenants_of-AreEntries document raw tenants h k =
    rw ((or_empty_iff document raw).1 h) ((or_empty_iff _ tenants).1 k)

load_stored :
    (document : Yaml) (tenants : Dict String Yaml)
    → tenants_of document ≡ ok tenants
    → load_policies_from_yaml document ≡ stored (read_all policy_of tenants [])
unfolding load_policies_from_yaml ◌>>=◌
load_stored document tenants h = rw h (
    stored_bind (read_all policy_of tenants []) (λ policies. record { policies = policies })
      λ policies. refl)

-- For a document that is a mapping or empty, in which the same holds of "tenants", without repeated
-- keys: the loader returns a store exactly if every entry stands for a policy, and raises otherwise.
-- The store answers for a tenant with the policy that the tenant's own entry stands for, field by
-- field with the default for a missing key, and for a tenant without an entry with `UnknownTenantError`.
-- Documents with a value that the program would store against the annotation of its field are left out.
pub load_policies_from_yaml-Describes :
    (document : Yaml) (raw tenants : Dict String Yaml)
    → AreEntries document raw
    → AreEntries (value_or null (Dict.get "tenants" raw)) tenants
    → Distinct tenants
    → load_policies_from_yaml document ≢ raise left_out
    → Describes tenants (load_policies_from_yaml document)
load_policies_from_yaml-Describes document raw tenants h k d covered =
    let made = load_stored document tenants (tenants_of-AreEntries document raw tenants h k) in
    rw made (
      Describes-Added tenants (read_all policy_of tenants [])
        (read_all-Added policy_of tenants [] d) (rw made at covered))
