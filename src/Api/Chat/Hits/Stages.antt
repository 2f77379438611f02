-- ===== src/Api/Chat/Hits/Stages.antt =====
-- Stages of api/routes.py that leave the response cache alone, before a completed answer.
use bedrock_gateway_platform.Base.{◌≡◌, ◌∙◌, refl, Result, ok, raise, string_eq}
use bedrock_gateway_platform.Responses.{ResponseCache}
use bedrock_gateway_platform.Api.Handler.{after, ◌>>=◌}
use bedrock_gateway_platform.Api.Handler.Keeps.{Keeps}
use bedrock_gateway_platform.Api.Schemas.{ChatResponse}
use bedrock_gateway_platform.Api.Gateway.{Services, Readings, Gateway, Response, completed}
use bedrock_gateway_platform.Api.Chat.{Chat, response_of}
use bedrock_gateway_platform.Api.Chat.Outputs.Refusals.{Completes, Refuses, Shows, IsRefusal}

module _ (services : Services) (readings : Readings) where
  abbrev pub cache_of : Gateway services → ResponseCache
  cache_of g = g.response_cache

  -- What a completed answer has, from a state with the cache `c`.
  pub record From (c : ResponseCache) (P : ChatResponse → Type 0)
      (m : Chat services readings Response) : Type 0 where
    pub at :
        (g : Gateway services) (r : ChatResponse)
        → g.response_cache ≡ c
        → Completes services readings m g r
        → P r

  pub From-Shows :
      {c : ResponseCache} {P : ChatResponse → Type 0} (m : Chat services readings Response)
      → Shows services readings P m
      → From c P m
  From-Shows m h = record { at = λ g r same done. h.at g r done }

  after_from :
      {A : Type 0} {c : ResponseCache} {P : ChatResponse → Type 0}
      (o : Result Response A × Gateway services) (f : A → Chat services readings Response)
      (r : ChatResponse)
      → ((p : Response) → o.0 ≡ raise p → IsRefusal services readings p)
      → o.1.response_cache ≡ c
      → ((a : A) → o.0 ≡ ok a → From c P (f a))
      → response_of services readings (after o f).0 ≡ completed r
      → P r
  after_from (ok a, g) f r refuses kept k h = (k a refl).at g r kept h
  after_from (raise p, g) f r refuses kept k h = let (e, q) = refuses p refl in absurd (cc (h, q))

  pub From-bind :
      {A : Type 0} {c : ResponseCache} {P : ChatResponse → Type 0} (m : Chat services readings A)
      (f : A → Chat services readings Response)
      → Refuses services readings m
      → Keeps cache_of m
      → ((a : A) (g : Gateway services) → g.response_cache ≡ c → (m g).0 ≡ ok a → From c P (f a))
      → From c P (m >>= f)
  unfolding ◌>>=◌
  From-bind m f refuses keeps k = record {
    at = λ g r same h.
        after_from (m g) f r (refuses.at g) (keeps.at g ∙ same) (λ a e. k a g same e) h;
  }
