-- ===== src/Config/Policies/Owners.antt =====
-- Every policy that policy/store.py reads from its file stands under the name of its own tenant.
use bedrock_gateway_platform.Base.{
  ◌≡◌, refl, String, [], ◌∷◌, ok, raise, ◌>>=◌, string_eq, ==_iff, arith,
}
use bedrock_gateway_platform.Dict
use bedrock_gateway_platform.Dict.{Dict}
use bedrock_gateway_platform.Dict.Laws.{get-put}
use bedrock_gateway_platform.Policy.Models.{TenantPolicy}
use bedrock_gateway_platform.Policy.Store.{PolicyStore}
use bedrock_gateway_platform.Policy.Snapshots.Owners.{IsKeyed}
use bedrock_gateway_platform.Config.Yaml.{Yaml, Loaded}
use bedrock_gateway_platform.Config.Tables.{read_all}
use bedrock_gateway_platform.Config.Policies.{policy_of, tenants_of, load_policies_from_yaml}

-- A result that has a property, if there is one.
record Ensures {A : Type 0} (P : A → Type 0) (r : Loaded A) : Type 0 where
  holds : (a : A) → r ≡ ok a → P a

Ensures-ok : {A : Type 0} (P : A → Type 0) (a : A) → P a → Ensures P (ok a)
Ensures-ok P a h = record { holds = λ b e. let same : a ≡ b = cc e in rw (← same) h }

Ensures-bind :
    {A B : Type 0} (P : B → Type 0) (r : Loaded A) (f : A → Loaded B)
    → ((a : A) → r ≡ ok a → Ensures P (f a))
    → Ensures P (r >>= f)
unfolding ◌>>=◌
Ensures-bind P (ok a) f h = record { holds = (h a refl).holds }
Ensures-bind P (raise e) f h = record { holds = λ b e. cc e }

Ensures-after :
    {A B : Type 0} (P : B → Type 0) (r : Loaded A) (f : A → Loaded B)
    → ((a : A) → Ensures P (f a))
    → Ensures P (r >>= f)
Ensures-after P r f h = Ensures-bind P r f λ a e. h a

policy_of-Ensures :
    (t : String) (y : Yaml) → Ensures (λ (p : TenantPolicy). p.tenant_id ≡ t) (policy_of t y)
unfolding policy_of
policy_of-Ensures t y = search (Ensures-after, Ensures-ok) depth 24

abbrev Own : Dict String TenantPolicy → Type 0
Own d = IsKeyed (record { policies = d })

put-Own :
    (t : String) (p : TenantPolicy) (d : Dict String TenantPolicy)
    → p.tenant_id ≡ t
    → Own d
    → Own (Dict.put t p d)
put-Own t p d own h = record {
  own = λ u w e. ground (arith, e, own, h.own u w, ==_iff t u, get-put t u p d);
}

read_all-Own :
    (entries : Dict String Yaml) (d : Dict String TenantPolicy)
    → Own d
    → Ensures Own (read_all policy_of entries d)
unfolding read_all
read_all-Own [] d h = Ensures-ok Own d h
read_all-Own ((t, cfg) ∷ rest) d h = Ensures-bind Own (policy_of t cfg) _ λ p e.
    read_all-Own rest (Dict.put t p d) (put-Own t p d ((policy_of-Ensures t cfg).holds p e) h)

load-Ensures : (document : Yaml) → Ensures IsKeyed (load_policies_from_yaml document)
unfolding load_policies_from_yaml Dict.get
load-Ensures document = Ensures-after IsKeyed (tenants_of document) _ λ tenants.
    Ensures-bind IsKeyed (read_all policy_of tenants []) _ λ policies e.
      Ensures-ok IsKeyed _
        ((read_all-Own tenants [] (record { own = λ t p q. cc q })).holds policies e)

pub load_policies_from_yaml-IsKeyed :
    (document : Yaml) (store : PolicyStore)
    → load_policies_from_yaml document ≡ ok store
    → IsKeyed store
load_policies_from_yaml-IsKeyed document = (load-Ensures document).holds
