-- ===== src/Inference/Bedrock/Retries.antt =====
-- How often `BedrockClient.converse` of inference/bedrock_client.py calls the service, and how long it
-- may pause.
use bedrock_gateway_platform.Base.{
  ℕ, zero, suc, ◌+◌, ◌-◌, ◌*◌, ◌^◌, ◌≤◌, ◌≡◌, refl, sym, ap, inl, inr, String, true, List, [], ◌∷◌,
  ◌++◌, Result, ok, raise, Bool-cases, arith,
}
use bedrock_gateway_platform.Base.Int.{ℤ, max_zero}
use bedrock_gateway_platform.Inference.{ConverseResult, BedrockInvocationError, ConverseArguments}
use bedrock_gateway_platform.Inference.Bedrock.{
  BotoException, BotoResponse, BotoRequest, BotoClient, extract_error_code, is_retryable,
  failed_after, result_of, Calling, round, try_again, converse,
}

-- The bounds of the first pauses: each is twice the one before.
unfoldable pub backoffs : ℕ → ℕ → List ℕ
backoffs base zero = []
backoffs base (suc n) = backoffs base n ++ (base * 2 ^ n) ∷ []

backoffs_next :
    (base n : ℕ) (pauses : List ℕ)
    → pauses ≡ backoffs base n
    → pauses ++ (base * 2 ^ (n + 1 - 1)) ∷ [] ≡ backoffs base (n + 1)
unfolding backoffs
backoffs_next base n pauses p =
    let before : n + 1 - 1 ≡ n = omega arith in
    let after : n + 1 ≡ suc n = omega arith in rw (before, after, p) refl

module _ (client : BotoClient) (base_backoff : ℕ) (latency : ℕ → ℕ) where
  -- An outcome after `n` pauses, where `most` were allowed.
  pub record Outcome (most : ℕ)
      (o : Result BedrockInvocationError ConverseResult × Calling client base_backoff latency)
      : Type 0 where
    pub retries : ℕ
    pub bounded : retries ≤ most
    pub paused : o.1.pauses ≡ backoffs base_backoff retries
    pub counted : (r : ConverseResult) → o.0 ≡ ok r → r.retry_count ≡ retries
    pub exhausted :
        (e : BedrockInvocationError) → o.0 ≡ raise e → e.retryable ≡ true → retries ≡ most

  round-Outcome :
      (most attempt : ℕ) (answer : Result BotoException BotoResponse × client.State)
      (w : Calling client base_backoff latency)
      (rest : BotoException
        → Calling client base_backoff latency
        → Result BedrockInvocationError ConverseResult × Calling client base_backoff latency)
      → attempt ≤ most
      → w.pauses ≡ backoffs base_backoff attempt
      → ((exc : BotoException) (s : client.State)
          → Outcome most (rest exc (record w { service = s })))
      → Outcome most (round client base_backoff latency attempt answer w rest)
  round-Outcome most attempt (ok response, s) w rest le p goes_on = record {
    retries = attempt;
    bounded = le;
    paused = p;
    counted = λ r h.
        let same : result_of (latency attempt) attempt response ≡ r = cc h in
        ap (λ (x : ConverseResult). x.retry_count) (sym same);
    exhausted = λ e h. cc h;
  }
  round-Outcome most attempt (raise exc, s) w rest le p goes_on =
      elim (Bool-cases (is_retryable (extract_error_code exc))) [
        | inl again ↦ rw (again, round) (goes_on exc s)
        | inr final ↦
            rw (final, round)
              (record {
                retries = attempt;
                bounded = le;
                paused = p;
                counted = λ r h. cc h;
                exhausted = λ e h retryable.
                    let same : failed_after (attempt + 1) exc ≡ e = cc h in
                    absurd (
                      cc (ap (λ (x : BedrockInvocationError). x.retryable) same, final, retryable));
              })
      ]

  try_again-Outcome :
      (request : BotoRequest) (left attempt most : ℕ) (w : Calling client base_backoff latency)
      → attempt + left ≡ most
      → w.pauses ≡ backoffs base_backoff attempt
      → Outcome most (try_again client base_backoff latency request left attempt w)
  unfolding try_again
  try_again-Outcome request zero attempt most w e p =
      round-Outcome most attempt (client.converse w.service request) w _ (omega (arith, e)) p
        λ exc s. record {
          retries = attempt;
          bounded = omega (arith, e);
          paused = p;
          counted = λ r h. cc h;
          exhausted = λ x h retryable. omega (arith, e);
        }
  try_again-Outcome request (suc left) attempt most w e p =
      round-Outcome most attempt (client.converse w.service request) w _ (omega (arith, e)) p
        λ exc s.
          try_again-Outcome request left (attempt + 1) most _ (omega (arith, e))
            (backoffs_next base_backoff attempt w.pauses p)

  -- The client pauses before each retry, and retries at most `max_retries` times (never, for a negative
  -- number). The pauses are drawn below bounds that start at the base and double. A result says how
  -- many retries it took, and a retryable error is raised only when all retries are used up.
  pub converse-Outcome :
      (max_retries : ℤ) (model_id : String) (arguments : ConverseArguments) (s : client.State)
      → Outcome
          (max_zero max_retries)
          (converse client base_backoff latency max_retries model_id arguments s)
  unfolding converse backoffs
  converse-Outcome max_retries model_id arguments s =
      try_again-Outcome _ (max_zero max_retries) 0 (max_zero max_retries) _ (omega arith) refl
