-- ===== src/Telemetry/Cost.antt =====
-- services/gateway/telemetry/cost.py and slo.py. Rates are nanodollars a token, which are the table's
-- dollars for a thousand tokens, and costs are microdollars, to which the program rounds them; the
-- floats of the source are exact numbers here.
use bedrock_gateway_platform.Base.{
  ℕ, ◌+◌, ◌*◌, ◌/◌, ◌%◌, ◌≤◌, ◌≡◌, String, Bool, false, Option, none, some, [], ◌∷◌, string_eq,
  nat_eq, ◌==◌, ltb, if◌then◌else◌, arith,
}
use bedrock_gateway_platform.Base.Int.{ℤ, exceeds}
use bedrock_gateway_platform.Dict
use bedrock_gateway_platform.Dict.{Dict}
use bedrock_gateway_platform.Policy.Models.{TenantPolicy}

pub record ModelPricing : Type 0 where
  pub input_per_token : ℕ
  pub output_per_token : ℕ

abbrev pub default_pricing : Dict String ModelPricing
default_pricing =
    ("us.amazon.nova-micro-v1:0", record { input_per_token = 35; output_per_token = 140 })
    ∷ ("us.amazon.nova-lite-v1:0", record { input_per_token = 60; output_per_token = 240 })
    ∷ ("us.amazon.nova-pro-v1:0", record { input_per_token = 800; output_per_token = 3200 })
    ∷ (
      "anthropic.claude-3-5-sonnet-20241022-v2:0",
      record { input_per_token = 3000; output_per_token = 15000 },
    )
    ∷ (
      "anthropic.claude-3-haiku-20240307-v1:0",
      record { input_per_token = 250; output_per_token = 1250 },
    )
    ∷ []

abbrev pub fallback_pricing : ModelPricing
fallback_pricing = record { input_per_token = 3000; output_per_token = 15000 }

abbrev pub or_fallback : Option ModelPricing → ModelPricing
or_fallback none = fallback_pricing
or_fallback (some rates) = rates

-- round(cost, 6): a half goes to the even neighbour.
unfoldable pub round_micro : ℕ → ℕ
round_micro n =
    let q = n / 1000 in
    if ltb (n % 1000) 500
    then q
    else if ltb 500 (n % 1000)
    then q + 1
    else if (q % 2) == 0
    then q
    else q + 1

abbrev pub pricing_or_default : Option (Dict String ModelPricing) → Dict String ModelPricing
pricing_or_default none = default_pricing
pricing_or_default (some table) = table

abbrev pub exact_cost : ModelPricing → ℕ → ℕ → ℕ
exact_cost rates input_tokens output_tokens =
    input_tokens * rates.input_per_token + output_tokens * rates.output_per_token

unfoldable pub estimate_cost : String → ℕ → ℕ → Option (Dict String ModelPricing) → ℕ
estimate_cost model_id input_tokens output_tokens pricing =
    let rates = or_fallback (Dict.get model_id (pricing_or_default pricing)) in
    round_micro (exact_cost rates input_tokens output_tokens)

-- The SLO is breached: the latency, in hundredths of a millisecond, is above the tenant's target.
abbrev pub above : ℕ → Option ℤ → Bool
above latency_ms none = false
above latency_ms (some threshold) = exceeds latency_ms threshold

unfoldable pub slo_breached : TenantPolicy → ℕ → Bool
slo_breached policy latency_ms = above latency_ms policy.slo.p95_latency_ms

-- Rounding is off by half a microdollar at most.
pub round_micro_near : (n : ℕ) → (1000 * round_micro n ≤ n + 500) × (n ≤ 1000 * round_micro n + 500)
unfolding round_micro
round_micro_near n = (ground arith, ground arith)

-- For a model that the default table lacks the cost is three microdollars for each token of the input
-- and fifteen for each of the output.
pub estimate_cost_of_unknown :
    (model_id : String) (input_tokens output_tokens : ℕ)
    → Dict.get model_id default_pricing ≡ none
    → estimate_cost model_id input_tokens output_tokens none ≡ 3 * input_tokens + 15 * output_tokens
unfolding estimate_cost round_micro
estimate_cost_of_unknown model_id input_tokens output_tokens h = rw h (ground arith)
