-- ===== src/Api/Handler.antt =====
-- A request handler over shared state: it goes on with a value, or answers the request at once (an
-- early `return`). What was written to the state before the answer stays written.
pub mod Keeps
pub mod Preserves
use bedrock_gateway_platform.Base.{◌≡◌, ◌≢◌, ◌∙◌, Result, ok, raise}

abbrev pub Handler : Type 0 → Type 0 → Type 0 → Type 0
Handler S R A = S → Result R A × S

module _ {S R A : Type 0} where
  abbrev pub pure : A → Handler S R A
  pure a s = (ok a, s)

  abbrev pub answer : R → Handler S R A
  answer r s = (raise r, s)

module _ {S R A B : Type 0} where
  abbrev pub after : Result R A × S → (A → Handler S R B) → Result R B × S
  after (ok a, s) f = f a s
  after (raise r, s) f = (raise r, s)

  infixl 5 ◌>>=◌ ◌>>◌
  unfoldable pub ◌>>=◌ : Handler S R A → (A → Handler S R B) → Handler S R B
  ◌>>=◌ m f s = after (m s) f

  abbrev pub ◌>>◌ : Handler S R A → Handler S R B → Handler S R B
  m >> n = m >>= λ _. n
