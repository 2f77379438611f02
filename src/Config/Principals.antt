-- ===== src/Config/Principals.antt =====
-- services/gateway/auth/aws_iam.py: `FileIamTenantResolver.__init__`, on the document of the file, or
-- on nothing where there is no file.
pub mod Matches
use Prim.Native.String
use bedrock_gateway_platform.Base.{
  String, Bool, true, false, Option, none, some, [], ◌∷◌, ok, ◌>>=◌, string_eq, ◌==◌, if◌then◌else◌,
}
use bedrock_gateway_platform.Dict
use bedrock_gateway_platform.Dict.{Dict}
use bedrock_gateway_platform.Auth.Iam.{IamPrincipalGrant, IamTenantResolver}
use bedrock_gateway_platform.Config.Yaml.{
  Yaml, null, sequence, no_items, Loaded, type_error, truth, entries_as, or_empty, get_or, section,
  present, string, list,
}

-- s[:-1]
unfoldable pub without_last : String → String
without_last String.[] = ""
without_last (String.◌∷◌ c String.[]) = ""
without_last (String.◌∷◌ c s) = String.◌∷◌ c (without_last s)

-- s.endswith("*")
unfoldable pub ends_with_star : String → Bool
ends_with_star s = s == String.◌++◌ (without_last s) "*"

-- y or []
abbrev pub or_no_items : Yaml → Yaml
or_no_items y = elim (truth y) [ true ↦ y | false ↦ sequence no_items ]

unfoldable pub grant_of : Yaml → Loaded IamPrincipalGrant
grant_of y = do
  entry ← entries_as type_error y
  tenant ← present (Dict.get "tenant_id" entry)
  tenant_id ← string tenant
  application ← present (Dict.get "application_id" entry)
  application_id ← string application
  roles ← list (or_no_items (get_or entry "roles" null))
  ok (record { tenant_id = tenant_id; application_id = application_id; roles = roles })

-- The body of the loop, after the grant.
unfoldable pub store_grant : String → IamPrincipalGrant → IamTenantResolver → IamTenantResolver
store_grant arn_pattern grant resolver =
    if ends_with_star arn_pattern
    then record resolver { prefixes = Dict.put (without_last arn_pattern) grant resolver.prefixes }
    else record resolver { exact = Dict.put arn_pattern grant resolver.exact }

unfoldable pub add_grants : Dict String Yaml → IamTenantResolver → Loaded IamTenantResolver
add_grants [] resolver = ok resolver
add_grants ((arn_pattern, entry) ∷ rest) resolver = do
  grant ← grant_of entry
  add_grants rest (store_grant arn_pattern grant resolver)

abbrev pub no_grants : IamTenantResolver
no_grants = record { exact = []; prefixes = [] }

unfoldable pub principals_of : Yaml → Loaded (Dict String Yaml)
principals_of document = do data_entries ← or_empty document; section data_entries "iam_principals"

unfoldable pub load_iam_tenants : Option Yaml → Loaded IamTenantResolver
load_iam_tenants none = ok no_grants
load_iam_tenants (some document) = do
  principals ← principals_of document
  add_grants principals no_grants
