-- ===== src/Responses/Reads.antt =====
-- What a read of cache/store.py returns, and when.
use bedrock_gateway_platform.Base.{
  ℕ, ◌+◌, ◌-◌, ◌<◌, ◌≡◌, refl, String, false, Option, none, some, string_eq, ◌==◌, ==_refl, leb,
  length, if◌then◌else◌, arith,
}
use bedrock_gateway_platform.Dict
use bedrock_gateway_platform.Dict.{Dict}
use bedrock_gateway_platform.Dict.Laws.{get-put, get-move_to_end}
use bedrock_gateway_platform.Dict.Distinct.{
  Distinct, put-Distinct, move_to_end-Distinct, length-move_to_end, length-put_pos, get-drop,
  get-drop_moved,
}
use bedrock_gateway_platform.Responses.{CachedResponse, Entry, ResponseCache, read_entry, get, set}
use bedrock_gateway_platform.Responses.Laws.{evict-drop}

-- What a read returns of an entry.
abbrev pub live : ℕ → ℕ → Option Entry → Option CachedResponse
live ttl now none = none
live ttl now (some e) = if leb (e.cached_at + ttl) now then none else some e.value

read_entry-live :
    (now : ℕ) (cache : ResponseCache) (key : String) (o : Option Entry)
    → (read_entry now cache key o).0 ≡ live cache.ttl now o
read_entry-live now cache key none = refl
read_entry-live now cache key (some e) = ground arith

pub get-live :
    (now : ℕ) (cache : ResponseCache) (key : String)
    → (get now cache key).0 ≡ live cache.ttl now (Dict.get key cache.entries)
unfolding get
get-live now cache key = read_entry-live now cache key (Dict.get key cache.entries)

live-inv :
    (ttl now : ℕ) (o : Option Entry) (v : CachedResponse)
    → live ttl now o ≡ some v
    → (e : Entry) × (o ≡ some e) × (now < e.cached_at + ttl) × (e.value ≡ v)
live-inv ttl now none v h = cc
live-inv ttl now (some e) v h = (e, refl, ground (arith, h), ground (arith, h))

-- A read returns a response only from an entry of that very key that is younger than the time to live.
pub hit_is_fresh :
    (now : ℕ) (cache : ResponseCache) (key : String) (v : CachedResponse)
    → (get now cache key).0 ≡ some v
    → (e : Entry) × (Dict.get key cache.entries ≡ some e)
      × (now < e.cached_at + cache.ttl)
      × (e.value ≡ v)
hit_is_fresh now cache key v h =
    live-inv cache.ttl now (Dict.get key cache.entries) v (rw get-live at h)

module _ (written : ℕ) (cache : ResponseCache) (key : String) (v : CachedResponse) where
  abbrev entry : Entry
  entry = record { cached_at = written; value = v }

  abbrev moved : Dict String Entry
  moved = Dict.move_to_end key (Dict.put key entry cache.entries)

  entry_in_put : Dict.get key (Dict.put key entry cache.entries) ≡ some entry
  entry_in_put = simp (get-put, ==_refl key)

  entry_in_set :
      Distinct cache.entries
      → 0 < cache.max_entries
      → Dict.get key (set written cache key v).entries ≡ some entry
  unfolding set
  entry_in_set d room =
      let pd = put-Distinct key entry cache.entries d in
      rw evict-drop (
        get-drop_moved (length moved - cache.max_entries) key entry
          (Dict.put key entry cache.entries) pd entry_in_put
          (rw (length-move_to_end key (Dict.put key entry cache.entries) pd)
            (omega (arith, length-put_pos key entry cache.entries))))

  -- In a cache with no key twice and room for an entry, a response is read back right after its write,
  -- until its time to live is over.
  pub get-set_self :
      (now : ℕ)
      → Distinct cache.entries
      → 0 < cache.max_entries
      → (get now (set written cache key v) key).0
        ≡ (if leb (written + cache.ttl) now then none else some v)
  unfolding set
  get-set_self now d room = rw (get-live, entry_in_set d room)

  entry_elsewhere :
      (other : String) (e : Entry)
      → Distinct cache.entries
      → (key == other) ≡ false
      → Dict.get other (set written cache key v).entries ≡ some e
      → Dict.get other cache.entries ≡ some e
  unfolding set
  entry_elsewhere other e d ne h =
      let pd =
        move_to_end-Distinct key (Dict.put key entry cache.entries)
          (put-Distinct key entry cache.entries d) in
      let there =
        get-drop (length moved - cache.max_entries) other moved e pd (rw evict-drop at h) in
      let before = rw get-move_to_end at there in
      ground (arith, before, ne, get-put key other entry cache.entries)

  -- In a cache with no key twice, a write makes no response readable under another key that was not
  -- readable there before, at the same time.
  pub get-set_ne :
      (now : ℕ) (other : String) (u : CachedResponse)
      → Distinct cache.entries
      → (key == other) ≡ false
      → (get now (set written cache key v) other).0 ≡ some u
      → (get now cache other).0 ≡ some u
  unfolding set
  get-set_ne now other u d ne h =
      let seen : live (set written cache key v).ttl now
            (Dict.get other (set written cache key v).entries)
          ≡ some u =
        rw get-live at h in
      let (e, there, fresh, same) = live-inv _ now _ u seen in
      rw (get-live, entry_elsewhere other e d ne there) (rw there at seen)
