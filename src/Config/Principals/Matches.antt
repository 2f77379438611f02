-- ===== src/Config/Principals/Matches.antt =====
-- Whom auth/aws_iam.py takes a caller for, read off the entries of the file.
use Prim.Native.String
use bedrock_gateway_platform.Base.{
  String, ◌≡◌, refl, ◌∙◌, sym, ap, true, ◌&&◌, Option, none, some, [], ◌∷◌, ok, ◌>>=◌, bind-eq-ok,
  Bool-cases, inl, inr, string_eq, ==_iff, if◌then◌else◌, arith,
}
use bedrock_gateway_platform.Base.Text.{codes, starts_with}
use bedrock_gateway_platform.Dict
use bedrock_gateway_platform.Dict.{Dict}
use bedrock_gateway_platform.Dict.Laws.{get-put}
use bedrock_gateway_platform.Dict.Distinct.{Distinct}
use bedrock_gateway_platform.Auth.Iam.{
  IamPrincipalGrant, IamTenantResolver, first_prefix, or_unknown, exact_or, resolve,
}
use bedrock_gateway_platform.Config.Yaml.{Yaml, Loaded}
use bedrock_gateway_platform.Config.Principals.{
  without_last, ends_with_star, grant_of, store_grant, add_grants, no_grants, principals_of,
  load_iam_tenants,
}

abbrev Grants : Type 0
Grants = Dict String IamPrincipalGrant

-- The grants of all entries, in the order of the file.
unfoldable pub grants_of : Dict String Yaml → Loaded Grants
grants_of [] = ok []
grants_of ((pattern, entry) ∷ rest) = do
  grant ← grant_of entry
  grants ← grants_of rest
  ok ((pattern, grant) ∷ grants)

-- The first pattern with a star whose part before the star begins the ARN.
unfoldable pub wildcard : String → Grants → Option IamPrincipalGrant
wildcard arn [] = none
wildcard arn ((pattern, grant) ∷ rest) =
    if ends_with_star pattern && starts_with (codes arn) (codes (without_last pattern))
    then some grant
    else wildcard arn rest

-- An entry for the ARN itself.
abbrev pub literal : String → Grants → Option IamPrincipalGrant
literal arn grants = if ends_with_star arn then none else Dict.get arn grants

store_all : Grants → IamTenantResolver → IamTenantResolver
store_all [] resolver = resolver
store_all ((pattern, grant) ∷ rest) resolver = store_all rest (store_grant pattern grant resolver)

add_grants-store_all :
    (entries : Dict String Yaml) (grants : Grants) (resolver : IamTenantResolver)
    → grants_of entries ≡ ok grants
    → add_grants entries resolver ≡ ok (store_all grants resolver)
unfolding grants_of add_grants store_all ◌>>=◌
add_grants-store_all [] grants resolver h = let same : [] ≡ grants = cc h in rw (← same) refl
add_grants-store_all ((pattern, entry) ∷ rest) grants resolver h =
    let (grant, q, h1) = bind-eq-ok (grant_of entry) _ grants h in
    let (others, p, h2) = bind-eq-ok (grants_of rest) _ grants h1 in
    let same : (pattern, grant) ∷ others ≡ grants = cc h2 in
    rw (q, ← same) (add_grants-store_all rest others (store_grant pattern grant resolver) p)

exact-store_all :
    (arn : String) (grants : Grants) (resolver : IamTenantResolver)
    → Distinct grants
    → Dict.get arn (store_all grants resolver).exact
      ≡ exact_or arn (literal arn grants) (Dict.get arn resolver.exact)
unfolding store_all store_grant Dict.get
exact-store_all arn [] resolver d = ground arith
exact-store_all arn ((pattern, grant) ∷ rest) resolver d = ground (
  arith,
  d.0,
  exact-store_all arn rest (store_grant pattern grant resolver) d.1,
  get-put pattern arn grant resolver.exact,
  ==_iff pattern arn,
)

first_prefix-put :
    (arn k : String) (grant : IamPrincipalGrant) (prefixes : Grants)
    → Dict.get k prefixes ≡ none
    → first_prefix arn (Dict.put k grant prefixes)
      ≡ exact_or arn
          (first_prefix arn prefixes)
          (if starts_with (codes arn) (codes k) then some grant else none)
unfolding first_prefix Dict.get Dict.put
first_prefix-put arn k grant [] h = refl
first_prefix-put arn k grant ((j, w) ∷ rest) h =
    ground (arith, h, first_prefix-put arn k grant rest)

ends_with_star→eq :
    (a b : String)
    → ends_with_star a ≡ true
    → ends_with_star b ≡ true
    → without_last a ≡ without_last b
    → a ≡ b
unfolding ends_with_star
ends_with_star→eq a b h k same =
    (==_iff a _).0 h ∙ ap (λ s. String.◌++◌ s "*") same ∙ sym ((==_iff b _).0 k)

-- No pattern of the list has its prefix among those of the resolver.
abbrev Fresh : Grants → Grants → Type 0
Fresh [] prefixes = Unit {0}
Fresh ((p, g) ∷ rest) prefixes =
    (ends_with_star p ≡ true → Dict.get (without_last p) prefixes ≡ none) × Fresh rest prefixes

Fresh-put :
    (pattern : String) (grant : IamPrincipalGrant) (rest prefixes : Grants)
    → ends_with_star pattern ≡ true
    → Dict.get pattern rest ≡ none
    → Fresh rest prefixes
    → Fresh rest (Dict.put (without_last pattern) grant prefixes)
unfolding Dict.get
Fresh-put pattern grant [] prefixes star new f = tt
Fresh-put pattern grant ((p, g) ∷ rest) prefixes star new f = (
  (λ h. ground (
    arith,
    new,
    f.0 h,
    get-put (without_last pattern) (without_last p) grant prefixes,
    ==_iff (without_last pattern) (without_last p),
    ==_iff p pattern,
    ends_with_star→eq pattern p star h,
  )),
  Fresh-put pattern grant rest prefixes star (ground (arith, new)) f.1,
)

first_prefix-store_all :
    (arn : String) (grants : Grants) (resolver : IamTenantResolver)
    → Distinct grants
    → Fresh grants resolver.prefixes
    → first_prefix arn (store_all grants resolver).prefixes
      ≡ exact_or arn (first_prefix arn resolver.prefixes) (wildcard arn grants)
unfolding store_all store_grant wildcard
first_prefix-store_all arn [] resolver d f = ground arith
first_prefix-store_all arn ((pattern, grant) ∷ rest) resolver d f =
    elim (Bool-cases (ends_with_star pattern)) [
      | inl star ↦ rw star (
          ground (
            arith,
            first_prefix-store_all arn rest (store_grant pattern grant resolver) d.1
                (rw star (Fresh-put pattern grant rest resolver.prefixes star d.0 f.1)),
            first_prefix-put arn (without_last pattern) grant resolver.prefixes (f.0 star),
          ))
      | inr plain ↦
          let stored = store_grant pattern grant resolver in
          rw plain
            (ground (arith, plain, first_prefix-store_all arn rest stored d.1 (rw plain f.1)))
    ]

Fresh-nil : (grants : Grants) → Fresh grants []
unfolding Dict.get
Fresh-nil [] = tt
Fresh-nil (g ∷ rest) = ((λ h. refl), Fresh-nil rest)

grants_of-none :
    (k : String) (entries : Dict String Yaml) (grants : Grants)
    → grants_of entries ≡ ok grants
    → Dict.get k entries ≡ none
    → Dict.get k grants ≡ none
unfolding grants_of Dict.get
grants_of-none k [] grants h n = let same : [] ≡ grants = cc h in rw (← same) refl
grants_of-none k ((pattern, entry) ∷ rest) grants h n =
    let (grant, q, h1) = bind-eq-ok (grant_of entry) _ grants h in
    let (others, p, h2) = bind-eq-ok (grants_of rest) _ grants h1 in
    let same : (pattern, grant) ∷ others ≡ grants = cc h2 in
    rw (← same) (ground (arith, n, grants_of-none k rest others p))

grants_of-Distinct :
    (entries : Dict String Yaml) (grants : Grants)
    → grants_of entries ≡ ok grants
    → Distinct entries
    → Distinct grants
unfolding grants_of Dict.get
grants_of-Distinct [] grants h d = let same : [] ≡ grants = cc h in rw (← same) tt
grants_of-Distinct ((pattern, entry) ∷ rest) grants h d =
    let (grant, q, h1) = bind-eq-ok (grant_of entry) _ grants h in
    let (others, p, h2) = bind-eq-ok (grants_of rest) _ grants h1 in
    let same : (pattern, grant) ∷ others ≡ grants = cc h2 in
    rw (← same) (grants_of-none pattern rest others p d.0, grants_of-Distinct rest others p d.1)

-- For a file whose patterns are distinct and whose entries can all be read: the resolver is built, and
-- it takes every ARN for the entry of that very ARN, or else for the first entry, in the order of the
-- file, with a pattern that ends in a star and whose part before the star begins the ARN; where there
-- is neither, it raises.
pub resolve-load_iam_tenants :
    (document : Yaml) (entries : Dict String Yaml) (grants : Grants) (arn : String)
    → principals_of document ≡ ok entries
    → grants_of entries ≡ ok grants
    → Distinct entries
    → (resolver : IamTenantResolver) × (load_iam_tenants (some document) ≡ ok resolver)
      × (resolve resolver arn
          ≡ or_unknown arn (exact_or arn (literal arn grants) (wildcard arn grants)))
unfolding load_iam_tenants resolve Dict.get first_prefix ◌>>=◌
resolve-load_iam_tenants document entries grants arn q p d =
    let distinct = grants_of-Distinct entries grants p d in
    (
      store_all grants no_grants,
      rw (q, add_grants-store_all entries grants no_grants p) refl,
      ground (
        arith,
        exact-store_all arn grants no_grants distinct,
        first_prefix-store_all arn grants no_grants distinct (Fresh-nil grants),
      ),
    )
