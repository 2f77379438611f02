-- ===== src/Examples/Responses.antt =====
-- The response cache with room for two entries.
use bedrock_gateway_platform.Base.{
  ◌+◌, ◌≡◌, ◌<◌, refl, String, none, some, [], ◌∷◌, arith, string_eq, leb, if◌then◌else◌,
}
use bedrock_gateway_platform.Dict
use bedrock_gateway_platform.Dict.{Dict}
use bedrock_gateway_platform.Dict.Distinct.{Distinct}
use bedrock_gateway_platform.Responses.{CachedResponse, Entry, ResponseCache, get, evict, set}
use bedrock_gateway_platform.Responses.Reads.{hit_is_fresh, get-set_self}

abbrev answer : CachedResponse
answer = record {
  text = "hello";
  stop_reason = none;
  input_tokens = 3;
  output_tokens = 2;
  model_id = "haiku";
}

abbrev first_key : String
first_key = "k1"

abbrev second_key : String
second_key = "k2"

abbrev third_key : String
third_key = "k3"

abbrev full : ResponseCache
full = record {
  ttl = 10;
  max_entries = 2;
  entries =
      (first_key, record { cached_at = 1; value = answer })
      ∷ (second_key, record { cached_at = 2; value = answer })
      ∷ [];
}

-- A write of a third key evicts the first.
evicted : (get 5 (set 4 full third_key answer) first_key).0 ≡ none
unfolding get set evict Dict.get Dict.put Dict.pop Dict.move_to_end
evicted = refl

full-Distinct : Distinct full.entries
unfolding Dict.get
full-Distinct = (refl, (refl, tt))

hit : (get 5 full second_key).0 ≡ some answer
unfolding get Dict.get
hit = refl

hit_is_fresh_example :
    (e : Entry) × (Dict.get second_key full.entries ≡ some e)
    × (5 < e.cached_at + 10)
    × (e.value ≡ answer)
hit_is_fresh_example = hit_is_fresh 5 full second_key answer hit

get-set_self_example :
    (get 9 (set 4 full third_key answer) third_key).0
    ≡ (if leb (4 + 10) 9 then none else some answer)
get-set_self_example = get-set_self 4 full third_key answer 9 full-Distinct (omega arith)
