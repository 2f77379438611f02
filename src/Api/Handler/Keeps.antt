-- ===== src/Api/Handler/Keeps.antt =====
-- Handlers that leave a part of the shared state alone, whatever they answer.
use bedrock_gateway_platform.Base.{◌≡◌, refl, ◌∙◌, Result, ok, raise}
use bedrock_gateway_platform.Api.Handler.{Handler, pure, after, ◌>>=◌}

pub record Keeps {S R A P : Type 0} (part : S → P) (m : Handler S R A) : Type 0 where
  pub at : (s : S) → part (m s).1 ≡ part s

module _ {S R P : Type 0} {part : S → P} where
  pub Keeps-result : {A : Type 0} (r : Result R A) → Keeps part (λ s. (r, s))
  Keeps-result r = record { at = λ s. refl }

  pub Keeps-pure : {A : Type 0} (a : A) → Keeps part (pure {S = S} {R = R} a)
  Keeps-pure a = record { at = λ s. refl }

  after-Keeps :
      {A B : Type 0} (s : S) (o : Result R A × S) (f : A → Handler S R B)
      → part o.1 ≡ part s
      → ((a : A) → Keeps part (f a))
      → part (after o f).1 ≡ part s
  after-Keeps s (ok a, s') f same kf = (kf a).at s' ∙ same
  after-Keeps s (raise r, s') f same kf = same

  pub Keeps-bind :
      {A B : Type 0} (m : Handler S R A) (f : A → Handler S R B)
      → Keeps part m
      → ((a : A) → Keeps part (f a))
      → Keeps part (m >>= f)
  unfolding ◌>>=◌
  Keeps-bind m f km kf = record { at = λ s. after-Keeps s (m s) f (km.at s) kf }

pub ruleset keeps_rules = (Keeps-result, Keeps-pure, Keeps-bind)
