-- ===== src/Debug.antt =====
-- internal/gateway/debug.go: the recorder of requests. A body is the list of its bytes; what
-- encoding/json makes of it is a parameter. A header may have several values, and the clock is
-- an argument.
pub mod Ring
use ghcp_pool_go.Base.{
  ℕ, zero, suc, ◌+◌, ◌-◌, ◌/◌, Bool, true, false, not, ◌&&◌, ◌||◌, Option, none, some, List, [],
  ◌∷◌, ◌++◌, any, if◌then◌else◌, ltb, leb, positive_or, ℤ, pos, negsuc, length, take, drop, keep,
  Text, text, text_eq, is_empty, has_prefix, to_lower, trim_space, join_by, Dict, map,
}
use ghcp_pool_go.Json.{Value, string}

pub record DebugConfig : Type 0 where
  pub enabled : Bool
  pub max_entries : ℤ
  pub max_body_chars : ℤ

pub record Entry : Type 0 where
  pub seq : ℕ
  pub ts : ℕ
  pub path : Text
  pub details : Dict Value

pub record DebugRecorder : Type 0 where
  pub enabled : Bool
  pub max_entries : ℕ
  pub max_body_chars : ℕ
  pub entries : List Entry
  pub seq : ℕ

unfoldable pub new_debug_recorder : DebugConfig → DebugRecorder
new_debug_recorder config = record {
  enabled = config.enabled;
  max_entries = positive_or 200 config.max_entries;
  max_body_chars = positive_or 20000 config.max_body_chars;
  entries = [];
  seq = 0;
}

unfoldable pub set_enabled : DebugRecorder → Bool → DebugRecorder
set_enabled d enabled = record d { enabled = enabled }

-- The last `n` of a list that is longer.
abbrev pub last_of : {A : Type 0} → ℕ → List A → List A
last_of n xs = if ltb n (length xs) then drop (length xs - n) xs else xs

abbrev limited : ℤ → List Entry → List Entry
limited (pos zero) found = found
limited (pos (suc n)) found = last_of (suc n) found
limited (negsuc n) found = found

unfoldable pub find_entries : DebugRecorder → ℤ → Text → List Entry
unfolding text_eq
find_entries d limit path =
    limited limit (keep (λ e. is_empty path || text_eq e.path path) d.entries)

unfoldable pub clear_entries : DebugRecorder → DebugRecorder × ℕ
clear_entries d = (record d { entries = [] }, length d.entries)

unfoldable pub record_entry : DebugRecorder → ℕ → Text → Dict Value → DebugRecorder
record_entry d now path details =
    let e : Entry = record { seq = d.seq + 1; ts = now; path = path; details = details } in
    record d { seq = d.seq + 1; entries = last_of d.max_entries (d.entries ++ e ∷ []) }

-- What Middleware does with a request, once it has been served.
unfoldable pub after_served : DebugRecorder → ℕ → Text → Dict Value → DebugRecorder
unfolding record_entry has_prefix text
after_served d now path details =
    if not d.enabled || not (has_prefix path (text "/v1/"))
    then d
    else record_entry d now path details

abbrev secret_headers : List Text
secret_headers =
    text "authorization"
    ∷ text "x-api-key"
    ∷ text "api-key"
    ∷ text "cookie"
    ∷ text "set-cookie"
    ∷ []

abbrev redacted_header : Text × List Text → Text × Text
redacted_header (key, values) = (
  key,
  if any (text_eq (to_lower key)) secret_headers
      then text "***redacted***"
      else join_by (text ", ") values,
)

unfoldable pub redact_headers : Dict (List Text) → Dict Text
unfolding text text_eq to_lower join_by
redact_headers headers = map redacted_header headers

abbrev shortened : ℕ → Text → Text
shortened max_chars raw =
    if leb max_chars 2000
    then take max_chars raw
    else (take (max_chars / 2) raw
        ++ text "\n\n...[truncated]...\n\n"
        ++ drop (length raw - max_chars / 2) raw)

abbrev decoded : Text → Option Value → Value
decoded raw none = string raw
decoded raw (some v) = v

unfoldable pub decode_debug_body : (Text → Option Value) → Text → ℕ → Value
unfolding has_prefix trim_space text
decode_debug_body unmarshal raw max_chars =
    let trimmed = trim_space raw in
    if is_empty raw
    then string []
    else if ltb max_chars (length raw)
    then string (shortened max_chars raw)
    else if has_prefix trimmed (text "{") || has_prefix trimmed (text "[")
    then decoded raw (unmarshal raw)
    else string raw
