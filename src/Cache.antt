-- ===== src/Cache.antt =====
-- internal/gateway/cache.go: the cache of answers, a map beside a list in the order of use. A list
-- element keeps its key for life, so an element is known by its key: the map `items` says which keys
-- it points to an element for, and `order` holds the elements, the least recently used first. The
-- hash that MakeKey computes is a parameter of the callers: a key is a text. Times are nanoseconds,
-- a duration is not bounded.
pub mod Valid
pub mod Run
pub mod Reads
use ghcp_pool_go.Base.{
  ℕ, zero, suc, ◌+◌, ◌*◌, Bool, true, false, not, ◌&&◌, ◌||◌, Option, none, some, List, [], ◌∷◌,
  ◌++◌, map, if◌then◌else◌, ltb, leb, length, ℤ, pos, negsuc, ◌+ℤ◌, ltb_ℤ, positive_or, Text, text,
  text_eq, is_empty, to_lower, Dict, lookup, insert, delete,
}
use ghcp_pool_go.Usage.{Usage, ToolCall, normalized, normalized_call}

-- A decoded JSON object, which the cache passes on as it is, is its text.
pub record CacheRecord : Type 0 where
  pub content : Text
  pub model : Text
  pub finish_reason : Text
  pub usage : Usage
  pub tool_calls : List ToolCall
  pub responses_output : List Text
  pub anthropic_content : List Text

pub record CacheEntry : Type 0 where
  pub expires_at : ℤ
  pub value : CacheRecord

pub record MemoryCache : Type 0 where
  pub ttl : ℤ
  pub max_entries : ℕ
  pub items : Dict (Unit {0})
  pub order : Dict CacheEntry

-- `time.Duration(ttlSeconds) * time.Second`
abbrev pub seconds : ℤ → ℤ
seconds (pos n) = pos (n * 1000000000)
seconds (negsuc n) = negsuc (n * 1000000000 + 999999999)

-- `max(1, maxEntries)`
unfoldable pub new_memory_cache : ℤ → ℤ → MemoryCache
new_memory_cache ttl_seconds max_entries = record {
  ttl = seconds ttl_seconds;
  max_entries = positive_or 1 max_entries;
  items = [];
  order = [];
}

abbrev pub move_to_back : Text → CacheEntry → Dict CacheEntry → Dict CacheEntry
move_to_back k e order = delete k order ++ (k, e) ∷ []

-- An element that the map points to is in the list; `none` there would be a nil dereference.
unfoldable pub get : MemoryCache → Text → ℕ → MemoryCache × Option CacheRecord
get c key now = elim (lookup key c.items) [
  | none ↦ (c, none)
  | some _ ↦ elim (lookup key c.order) [
    | none ↦ (c, none)
    | some e ↦
        if ltb_ℤ e.expires_at (pos now)
        then (record c { items = delete key c.items; order = delete key c.order }, none)
        else (record c { order = move_to_back key e c.order }, some e.value)
  ]
]

-- The loop of `Set`: the front goes while the map is too large.
unfoldable pub evict : ℕ → Dict (Unit {0}) → Dict CacheEntry → Dict (Unit {0}) × Dict CacheEntry
evict most items [] = (items, [])
evict most items ((k, e) ∷ order) =
    let rest = evict most (delete k items) order in
    if ltb most (length items) then rest else (items, (k, e) ∷ order)

unfoldable pub set : MemoryCache → Text → CacheRecord → ℕ → MemoryCache
unfolding evict ◌+ℤ◌
set c key value now =
    let e : CacheEntry = record { expires_at = pos now +ℤ c.ttl; value = value } in
    elim (lookup key c.items) [
      | some _ ↦ record c { order = move_to_back key e c.order }
      | none ↦
          let kept = evict c.max_entries (insert key tt c.items) (c.order ++ (key, e) ∷ []) in
          record c { items = kept.0; order = kept.1 }
    ]

unfoldable pub clear : MemoryCache → MemoryCache × ℕ
clear c = (record c { items = []; order = [] }, length c.items)

unfoldable pub size : MemoryCache → ℕ
size c = length c.items

pub record CacheLayer : Type 0 where
  pub enabled : Bool
  pub backend : MemoryCache
  pub hits : ℕ
  pub misses : ℕ
  pub tokens_saved : ℤ
  pub family_hits : Dict ℕ
  pub family_misses : Dict ℕ

-- The longest run of letters at the start, in util.go; the regular expression is `^[A-Za-z]+`.
unfoldable pub letters : Text → Text
letters [] = []
letters (c ∷ s) =
    if (leb b'A' c && leb c b'Z') || (leb b'a' c && leb c b'z') then c ∷ letters s else []

unfoldable pub model_family : Text → Text
unfolding letters text to_lower
model_family model = if is_empty (letters model) then text "other" else to_lower (letters model)

-- `m[k]++`
unfoldable pub increment : Text → Dict ℕ → Dict ℕ
increment k m = insert k (elim (lookup k m) [ none ↦ 1 | some n ↦ n + 1 ]) m

unfoldable pub cache_lookup : CacheLayer → Text → Text → Text → ℕ → CacheLayer × Option CacheRecord
unfolding get model_family increment normalized text text_eq ◌+ℤ◌
cache_lookup c key control model now =
    if not c.enabled || text_eq control (text "no-store") || text_eq control (text "no-cache")
    then (c, none)
    else (let (b, found) = get c.backend key now in
        elim found [
          | none ↦ (
            record c {
              backend = b;
              misses = c.misses + 1;
              family_misses = increment (model_family model) c.family_misses;
            },
            none,
          )
          | some r ↦ (
            record c {
              backend = b;
              hits = c.hits + 1;
              family_hits = increment (model_family model) c.family_hits;
              tokens_saved = c.tokens_saved +ℤ (normalized r.usage).total_tokens;
            },
            some r,
          )
        ])

unfoldable pub normalized_record : CacheRecord → CacheRecord
unfolding normalized normalized_call
normalized_record r = record r {
  usage = normalized r.usage;
  tool_calls = map normalized_call r.tool_calls;
}

unfoldable pub cache_store : CacheLayer → Text → CacheRecord → Text → ℕ → CacheLayer
unfolding set normalized_record text text_eq
cache_store c key r control now =
    if not c.enabled || text_eq control (text "no-store")
    then c
    else record c { backend = set c.backend key (normalized_record r) now }

unfoldable pub cache_clear : CacheLayer → CacheLayer × ℕ
unfolding clear
cache_clear c = let (b, n) = clear c.backend in (record c { backend = b }, n)
