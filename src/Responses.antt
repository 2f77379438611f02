-- ===== src/Responses.antt =====
-- services/gateway/cache/store.py: `InMemoryResponseCache`. `now` is the reading of the monotonic
-- clock, in nanoseconds; `now - cached_at >= ttl` is written as `cached_at + ttl ≤ now`.
pub mod Keys
pub mod Laws
pub mod Reads
use bedrock_gateway_platform.Base.{
  ℕ, ◌+◌, String, Option, none, some, [], ◌∷◌, string_eq, leb, ltb, length, if◌then◌else◌,
}
use bedrock_gateway_platform.Dict
use bedrock_gateway_platform.Dict.{Dict}

pub record CachedResponse : Type 0 where
  pub text : String
  pub stop_reason : Option String
  pub input_tokens : ℕ
  pub output_tokens : ℕ
  pub model_id : String

-- The tuple of an entry.
pub record Entry : Type 0 where
  pub cached_at : ℕ
  pub value : CachedResponse

pub record ResponseCache : Type 0 where
  pub ttl : ℕ
  pub max_entries : ℕ
  pub entries : Dict String Entry

abbrev pub read_entry :
    ℕ → ResponseCache → String → Option Entry → Option CachedResponse × ResponseCache
read_entry now cache key none = (none, cache)
read_entry now cache key (some e) =
    if leb (e.cached_at + cache.ttl) now
    then (none, record cache { entries = Dict.pop key cache.entries })
    else (some e.value, record cache { entries = Dict.move_to_end key cache.entries })

unfoldable pub get : ℕ → ResponseCache → String → Option CachedResponse × ResponseCache
get now cache key = read_entry now cache key (Dict.get key cache.entries)

-- while len(entries) > max_entries: entries.popitem(last=False)
unfoldable pub evict : ℕ → Dict String Entry → Dict String Entry
evict max_entries [] = []
evict max_entries (e ∷ entries) =
    let rest = evict max_entries entries in
    if ltb max_entries (length (e ∷ entries)) then rest else e ∷ entries

unfoldable pub set : ℕ → ResponseCache → String → CachedResponse → ResponseCache
set now cache key value = record cache {
  entries = evict cache.max_entries (
      Dict.move_to_end key
        (Dict.put key (record { cached_at = now; value = value }) cache.entries));
}
