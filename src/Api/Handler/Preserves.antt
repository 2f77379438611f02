-- ===== src/Api/Handler/Preserves.antt =====
-- Handlers that keep a property of the shared state, whatever they answer.
use bedrock_gateway_platform.Base.{Result, ok, raise}
use bedrock_gateway_platform.Api.Handler.{Handler, pure, after, ◌>>=◌}

pub record Preserves {S R A : Type 0} (P : S → Type 0) (m : Handler S R A) : Type 0 where
  pub at : (s : S) → P s → P (m s).1

module _ {S R : Type 0} {P : S → Type 0} where
  pub Preserves-result : {A : Type 0} (r : Result R A) → Preserves P (λ s. (r, s))
  Preserves-result r = record { at = λ s h. h }

  pub Preserves-pure : {A : Type 0} (a : A) → Preserves P (pure {S = S} {R = R} a)
  Preserves-pure a = record { at = λ s h. h }

  after-Preserves :
      {A B : Type 0} (o : Result R A × S) (f : A → Handler S R B)
      → P o.1
      → ((a : A) → Preserves P (f a))
      → P (after o f).1
  after-Preserves (ok a, s) f h pf = (pf a).at s h
  after-Preserves (raise r, s) f h pf = h

  pub Preserves-bind :
      {A B : Type 0} (m : Handler S R A) (f : A → Handler S R B)
      → Preserves P m
      → ((a : A) → Preserves P (f a))
      → Preserves P (m >>= f)
  unfolding ◌>>=◌
  Preserves-bind m f pm pf = record { at = λ s h. after-Preserves (m s) f (pm.at s h) pf }

pub ruleset preserves_rules = (Preserves-result, Preserves-pure, Preserves-bind)
