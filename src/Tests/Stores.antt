-- ===== src/Tests/Stores.antt =====
-- Examples of the cache, the usage sink, the keys, the chunks and the stored responses.
use ghcp_pool_go.Debug.{DebugConfig, new_debug_recorder}
use ghcp_pool_go.Debug.Ring
use ghcp_pool_go.Debug.Ring.{Call, Refines, enable, entry, clear, after_calls, log}
use ghcp_pool_go.Auth.{ApiKeyConfig, Authenticator, authenticate, new_authenticator, token_of}
use ghcp_pool_go.Auth.Keys
use ghcp_pool_go.Auth.Keys.{IsConfigured}
use ghcp_pool_go.Base.{
  ℕ, ◌≡◌, refl, true, false, none, some, List, [], ◌∷◌, ◌++◌, In, inl, length, lookup, insert,
  delete, Text, text_eq, pos, ◌+ℤ◌, ltb_ℤ, if◌then◌else◌, Result, ok,
}
use ghcp_pool_go.Cache
use ghcp_pool_go.Cache.{MemoryCache, CacheRecord, new_memory_cache, set}
use ghcp_pool_go.Cache.Reads
use ghcp_pool_go.Cache.Run
use ghcp_pool_go.Cache.Run.{run}
use ghcp_pool_go.Cache.Valid.{IsValid}
use ghcp_pool_go.Responses.{Json}
use ghcp_pool_go.Sink.{Queue, UsageRecord, new_queue, emit_queue, finish, Steps, start, emits}
use ghcp_pool_go.Sink.Delivery
use ghcp_pool_go.Sink.Delivery.{Delivers}
use ghcp_pool_go.Tests.{id_a, id_b, model, usage}
use ghcp_pool_go.Values.{first_string_slice}

abbrev answer : CacheRecord
answer = record {
  content = b'h' ∷ b'i' ∷ [];
  model = model;
  finish_reason = [];
  usage = usage;
  tool_calls = [];
  responses_output = [];
  anthropic_content = [];
}

abbrev calls : List (ℕ × Run.Call)
calls =
    (1, Run.sets id_a answer)
    ∷ (2, Run.sets id_b answer)
    ∷ (3, Run.gets id_a)
    ∷ (4, Run.sets model answer)
    ∷ []

new_memory_cache-run_example : IsValid (run (new_memory_cache (pos 60) (pos 2)) calls)
new_memory_cache-run_example = Run.new_memory_cache-run (pos 60) (pos 2) calls

abbrev cache : MemoryCache
cache = run (new_memory_cache (pos 60) (pos 2)) calls

-- The second key was used last before the third came, so it is gone.
evicted : (lookup id_b cache.items ≡ none) × (length cache.items ≡ 2)
unfolding run Run.step new_memory_cache Cache.get set lookup insert delete text_eq
evicted = (refl, refl)

get-set_example :
    (Cache.get (set cache id_b answer 5) id_b 9).1
    ≡ (if ltb_ℤ (pos 5 +ℤ cache.ttl) (pos 9) then none else some answer)
get-set_example =
    Reads.get-set cache id_b answer 5 9 (Run.new_memory_cache-run (pos 60) (pos 2) calls)

differs : text_eq id_b id_a ≡ false
unfolding text_eq
differs = refl

abbrev event : UsageRecord
event = record {
  ts = 1;
  account_id = id_a;
  model = model;
  api_endpoint = [];
  input_tokens = pos 3;
  output_tokens = pos 4;
  cached_tokens = pos 0;
  total_tokens = pos 7;
  credits = pos 0;
  duration_ms = pos 0;
  cache_result = [];
  success = true;
  error_type = [];
}

abbrev one_event : Queue
one_event = emit_queue new_queue event

one_emitted : Steps new_queue 1 (event ∷ []) one_event
unfolding new_queue
one_emitted = emits event start

Steps-Delivers_example : Delivers 1 (event ∷ []) one_event
Steps-Delivers_example = Delivery.Steps-Delivers 1 (event ∷ []) one_event one_emitted

abbrev closed : Queue
closed = finish new_queue

late : Steps closed 1 (event ∷ []) (emit_queue closed event)
unfolding finish new_queue
late = emits event start

stopped : closed.stopped ≡ true
unfolding finish
stopped = refl

Steps-stopped_example :
    ((emit_queue closed event).stopped ≡ true)
    × ((emit_queue closed event).uploaded ≡ closed.uploaded)
    × ((emit_queue closed event).events ≡ closed.events ++ event ∷ [])
Steps-stopped_example =
    Delivery.Steps-stopped closed (emit_queue closed event) 1 (event ∷ []) stopped late

abbrev key : ApiKeyConfig
key = record {
  key = id_a;
  key_env = [];
  key_vault_secret = [];
  key_vault_url = [];
  scopes = [];
  model_allow = [];
  cache_namespace = [];
}

abbrev resolve : ApiKeyConfig → Result Text
resolve c = ok c.key

abbrev keys : Authenticator
keys = (id_a, key) ∷ []

built : new_authenticator resolve (key ∷ []) ≡ ok keys
unfolding new_authenticator insert
built = refl

known : authenticate keys id_a ≡ some (record { config = key })
unfolding authenticate text_eq
known = refl

authenticate_sound_example : IsConfigured resolve (key ∷ []) (token_of id_a) key
authenticate_sound_example =
    Keys.authenticate_sound resolve (key ∷ []) keys id_a (record { config = key }) built known

listed : In (token_of id_a) (first_string_slice id_a [])
unfolding first_string_slice token_of
listed = inl refl

abbrev json : Json Text
json = record { id_of = λ t. t; clone = λ t. t; clone_all = λ ts. ts }

-- Three entries, of which the oldest is dropped and the second forgotten.
abbrev debug_config : DebugConfig
debug_config = record { enabled = true; max_entries = pos 2; max_body_chars = pos 0 }

abbrev debug_calls : List Call
debug_calls = entry 4 model [] ∷ clear ∷ entry 3 id_a [] ∷ entry 2 model [] ∷ entry 1 id_a [] ∷ []

after_calls-Refines_example :
    Refines
      (new_debug_recorder debug_config).max_entries
      (after_calls (new_debug_recorder debug_config) debug_calls)
      (log debug_calls)
after_calls-Refines_example = Ring.after_calls-Refines debug_config debug_calls
