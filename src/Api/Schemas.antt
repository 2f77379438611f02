-- ===== src/Api/Schemas.antt =====
-- services/gateway/api/schemas.py: what a chat request must satisfy. The body arrives with the types
-- that pydantic has read; the constraints of the schema are checked here, in the order of the fields.
use bedrock_gateway_platform.Base.{
  ℕ, String, Bool, false, not, ◌&&◌, ◌||◌, Option, none, some, List, [], ◌∷◌, Result, ok, raise,
  string_eq, ◌==◌, leb, if◌then◌else◌,
}
use bedrock_gateway_platform.Base.Int.{ℤ, pos, negsuc}
use bedrock_gateway_platform.Responses.Keys.{ChatMessage}

-- The body as JSON of the right types; a temperature is counted in millionths.
pub record RawChatRequest : Type 0 where
  pub model : Option String
  pub messages : List ChatMessage
  pub max_tokens : Option ℤ
  pub temperature : Option ℤ
  pub stream : Option Bool

pub record ChatRequest : Type 0 where
  pub model : Option String
  pub messages : List ChatMessage
  pub max_tokens : ℕ
  pub temperature : ℕ
  pub stream : Bool

-- What the first error is about.
pub data Invalid : Type 0 where
  bad_types bad_role empty_content no_messages last_not_user bad_max_tokens bad_temperature :
      Invalid

abbrev pub is_role : String → Bool
is_role role = (role == "user") || (role == "assistant")

abbrev pub check_message : ChatMessage → Result Invalid (Unit {0}) → Result Invalid (Unit {0})
check_message m rest =
    if not (is_role m.role)
    then raise bad_role
    else if m.content == ""
    then raise empty_content
    else rest

abbrev pub check_items : List ChatMessage → Result Invalid (Unit {0})
check_items [] = ok tt
check_items (m ∷ ms) = check_message m (check_items ms)

-- messages[-1].role != "user", of a list that is not empty.
abbrev pub last_is_user : ChatMessage → List ChatMessage → Bool
last_is_user m [] = m.role == "user"
last_is_user m (next ∷ ms) = last_is_user next ms

abbrev pub check_last : List ChatMessage → Result Invalid (Unit {0})
check_last [] = raise no_messages
check_last (m ∷ ms) = if last_is_user m ms then ok tt else raise last_not_user

-- A number between two bounds, or the default.
abbrev pub in_range : ℕ → ℕ → Invalid → ℤ → Result Invalid ℕ
in_range low high e (pos n) = if leb low n && leb n high then ok n else raise e
in_range low high e (negsuc n) = raise e

abbrev pub range_or : ℕ → ℕ → ℕ → Invalid → Option ℤ → Result Invalid ℕ
range_or default low high e none = ok default
range_or default low high e (some x) = in_range low high e x

abbrev pub flag_or : Bool → Option Bool → Bool
flag_or default none = default
flag_or default (some b) = b

infixl 5 ◌>>=◌ ◌>>◌
abbrev ◌>>=◌ : {A B : Type 0} → Result Invalid A → (A → Result Invalid B) → Result Invalid B
ok a >>= f = f a
raise e >>= f = raise e

abbrev ◌>>◌ : {B : Type 0} → Result Invalid (Unit {0}) → Result Invalid B → Result Invalid B
m >> k = m >>= λ _. k

unfoldable pub model_validate : RawChatRequest → Result Invalid ChatRequest
model_validate raw = do
  check_items raw.messages
  check_last raw.messages
  max_tokens ← range_or 1024 1 8192 bad_max_tokens raw.max_tokens
  temperature ← range_or 700000 0 1000000 bad_temperature raw.temperature
  ok (record {
    model = raw.model;
    messages = raw.messages;
    max_tokens = max_tokens;
    temperature = temperature;
    stream = flag_or false raw.stream;
  })

pub record ChatResponse : Type 0 where
  pub request_id : String
  pub model : String
  pub output : String
  pub stop_reason : Option String
  pub input_tokens : ℕ
  pub output_tokens : ℕ
  pub latency_ms : ℕ
  pub cache_hit : Bool
  pub fallback : Bool
