-- ===== src/Responses/Laws.antt =====
-- Size, expiry and eviction of cache/store.py.
use bedrock_gateway_platform.Base.{
  ℕ, suc, ◌+◌, ◌-◌, ◌≤◌, ◌≡◌, refl, inl, inr, String, Option, none, some, [], ◌∷◌, string_eq, leb,
  ltb, length, drop, length-drop, Bool-cases, arith,
}
use bedrock_gateway_platform.Dict
use bedrock_gateway_platform.Dict.{Dict}
use bedrock_gateway_platform.Dict.Distinct.{
  Distinct, put-Distinct, pop-Distinct, move_to_end-Distinct, drop-Distinct, length-pop-le,
  length-move_to_end,
}
use bedrock_gateway_platform.Responses.{
  CachedResponse, Entry, ResponseCache, read_entry, get, evict, set,
}

-- Eviction drops from the front, what was used longest ago, and no more than it must.
pub evict-drop :
    (n : ℕ) (entries : Dict String Entry) → evict n entries ≡ drop (length entries - n) entries
unfolding evict
evict-drop n [] = ground arith
evict-drop n (e ∷ entries) = elim (Bool-cases (ltb n (suc (length entries)))) [
  | inl over ↦
      let one : suc (length entries) - n ≡ suc (length entries - n) = ground (arith, over) in
      rw (over, one) (evict-drop n entries)
  | inr fits ↦
      let none_left : suc (length entries) - n ≡ 0 = ground (arith, fits) in rw (fits, none_left)
]

-- No key twice, and no more entries than allowed.
pub record IsValid (cache : ResponseCache) : Type 0 where
  pub distinct : Distinct cache.entries
  pub bounded : length cache.entries ≤ cache.max_entries

pub length-evict-le : (n : ℕ) (entries : Dict String Entry) → length (evict n entries) ≤ n
length-evict-le n entries =
    rw evict-drop (omega (arith, length-drop {0} (length entries - n) entries))

-- A write leaves a valid cache, whatever was there before but for keys that stood twice.
pub set-IsValid :
    (now : ℕ) (cache : ResponseCache) (key : String) (v : CachedResponse)
    → Distinct cache.entries
    → IsValid (set now cache key v)
unfolding set
set-IsValid now cache key v h = record {
  distinct =
      rw evict-drop
        (drop-Distinct _ _ (move_to_end-Distinct key _ (put-Distinct key _ cache.entries h)));
  bounded = length-evict-le cache.max_entries _;
}

read_entry-IsValid :
    (now : ℕ) (cache : ResponseCache) (key : String) (o : Option Entry)
    → Dict.get key cache.entries ≡ o
    → IsValid cache
    → IsValid (read_entry now cache key o).1
read_entry-IsValid now cache key none q h = h
read_entry-IsValid now cache key (some e) q h =
    elim (Bool-cases (leb (e.cached_at + cache.ttl) now)) [
      | inl late ↦ rw late (record {
        distinct = pop-Distinct key cache.entries h.distinct;
        bounded = omega (arith, length-pop-le key cache.entries, h.bounded);
      })
      | inr early ↦ rw early (record {
        distinct = move_to_end-Distinct key cache.entries h.distinct;
        bounded = rw (length-move_to_end key cache.entries h.distinct) h.bounded;
      })
    ]

-- A read keeps the cache valid.
pub get-IsValid :
    (now : ℕ) (cache : ResponseCache) (key : String) → IsValid cache → IsValid (get now cache key).1
unfolding get
get-IsValid now cache key = read_entry-IsValid now cache key (Dict.get key cache.entries) refl
