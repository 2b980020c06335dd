-- ===== src/Config/Models.antt =====
-- internal/gateway/config.go and model_map.go: the names of models, their aliases, and the settings
-- that are given per pattern. A Go map is a dictionary whose order is the one a range over it takes.
use ghcp_pool_go.Base.{
  ℕ, ◌+◌, Bool, not, ◌&&◌, ◌||◌, ◌==◌, Option, none, some, List, [], ◌∷◌, ◌++◌, map, if◌then◌else◌,
  ltb, Text, text, text_eq, is_empty, has_prefix, drop, length, byte_length, contains_any,
  trim_space, to_lower, Dict, lookup, insert, sort_texts, any,
}
use ghcp_pool_go.Glob.{glob_match}
use ghcp_pool_go.Json.{is_digits}

-- strings.Split by one character; `part` is the part so far.
unfoldable pub split_by : ℕ → Text → Text → List Text
split_by sep part [] = part ∷ []
split_by sep part (c ∷ s) =
    let next = split_by sep [] s in
    let same = split_by sep (part ++ c ∷ []) s in if c == sep then part ∷ next else same

abbrev is_number : Text → Bool
is_number s = not (is_empty s) && is_digits s

-- The prefix with the version that the rest begins with, as `4.5` for `4-5`.
abbrev dotted : Text → List Text → Option Text
dotted prefix (major ∷ minor ∷ rest) =
    if is_number major && is_number minor then some (prefix ++ major ++ b'.' ∷ minor) else none
dotted prefix parts = none

abbrev claude_prefixes : List Text
claude_prefixes = text "claude-opus-" ∷ text "claude-sonnet-" ∷ text "claude-haiku-" ∷ []

-- The loop over the prefixes.
unfoldable pub dotted_version : List Text → Text → Option Text
unfolding has_prefix split_by is_digits
dotted_version [] lower = none
dotted_version (prefix ∷ prefixes) lower =
    let later = dotted_version prefixes lower in
    if not (has_prefix lower prefix)
    then later
    else elim (dotted prefix (split_by b'-' [] (drop (length prefix) lower))) [
      | some name ↦ some name
      | none ↦ later
    ]

unfoldable pub normalize_provider_model_id : Text → Text
unfolding trim_space to_lower has_prefix dotted_version text
normalize_provider_model_id raw =
    let model = trim_space raw in
    if has_prefix (to_lower model) (text "claude-")
    then elim (dotted_version claude_prefixes (to_lower model)) [ some name ↦ name | none ↦ model ]
    else model

abbrev or_empty : Option Text → Text
or_empty none = []
or_empty (some s) = s

-- The nil map is the empty one.
unfoldable pub resolve_model_alias : Dict Text → Text → Text
unfolding normalize_provider_model_id lookup
resolve_model_alias aliases model =
    let target = or_empty (lookup model aliases) in
    if is_empty target then normalize_provider_model_id model else target

abbrev aliases_of : Text → Dict Text → List Text
aliases_of model [] = []
aliases_of model ((alias, target) ∷ rest) =
    if text_eq target model then alias ∷ aliases_of model rest else aliases_of model rest

unfoldable pub display_ids_for_model : Dict Text → Text → List Text
unfolding text_eq
display_ids_for_model aliases model = elim (sort_texts (aliases_of model aliases)) [
  | [] ↦ model ∷ []
  | first ∷ others ↦ first ∷ others
]

-- `strings.ReplaceAll(mode, "-", "_")`
abbrev with_underscores : Text → Text
with_underscores = map (λ c. if c == b'-' then b'_' else c)

unfoldable pub normalize_copilot_sdk_web_search_mode : Text → Bool → Text
unfolding trim_space to_lower text text_eq
normalize_copilot_sdk_web_search_mode raw legacy_enabled =
    let mode = to_lower (trim_space raw) in
    let name = with_underscores mode in
    if is_empty mode
    then (if legacy_enabled then text "empty" else text "off")
    else if text_eq name (text "native")
        || text_eq name (text "cli_native")
        || text_eq name (text "native_cli")
    then text "native_cli"
    else mode

-- How closely a pattern names models; the source counts from -1, so that any match is better than
-- none.
unfoldable pub override_score : Text → ℕ
unfolding text byte_length
override_score pattern =
    byte_length pattern + (if contains_any pattern (text "*?") then 0 else 1000)

abbrev pub better : Option (ℕ × Text) → ℕ × Text → Option (ℕ × Text)
better none e = some e
better (some kept) e = if ltb kept.0 e.0 then some e else some kept

-- The loop of resolveModelOverride, with the best entry so far.
unfoldable pub best_override : Text → Option (ℕ × Text) → Dict Text → Option (ℕ × Text)
unfolding glob_match override_score
best_override model best [] = best
best_override model best ((pattern, setting) ∷ rest) =
    best_override model
      (if not (glob_match pattern model)
        then best
        else better best (override_score pattern, setting))
      rest

unfoldable pub resolve_model_override : Text → Dict Text → Text
unfolding best_override
resolve_model_override model overrides = elim (best_override model none overrides) [
  | none ↦ []
  | some (score, setting) ↦ setting
]

-- Settings that are not there yet are added.
unfoldable pub with_defaults : Dict Text → Dict Text → Dict Text
unfolding lookup insert
with_defaults settings [] = settings
with_defaults settings ((pattern, setting) ∷ defaults) = elim (lookup pattern settings) [
  | some kept ↦ with_defaults settings defaults
  | none ↦ with_defaults (insert pattern setting settings) defaults
]

abbrev default_reasoning_efforts : Dict Text
default_reasoning_efforts =
    (text "claude-opus-4.*", text "high")
    ∷ (text "claude-sonnet-4.6", text "medium")
    ∷ (text "claude-sonnet-4.7", text "medium")
    ∷ (text "claude-sonnet-4.8", text "medium")
    ∷ (text "claude-sonnet-4.9", text "medium")
    ∷ (text "gpt-5.*", text "medium")
    ∷ (text "gpt-6.*", text "medium")
    ∷ []

abbrev default_context_tiers : Dict Text
default_context_tiers =
    map (λ pattern. (pattern, text "long_context"))
      (text "claude-opus-4.*"
        ∷ text "claude-sonnet-4.6"
        ∷ text "claude-sonnet-4.7"
        ∷ text "claude-sonnet-4.8"
        ∷ text "claude-sonnet-4.9"
        ∷ text "gpt-5.*"
        ∷ text "gpt-6.*"
        ∷ text "gemini-3.*"
        ∷ text "gemini-4.*"
        ∷ [])

unfoldable pub apply_default_reasoning_efforts : Dict Text → Dict Text
unfolding with_defaults text
apply_default_reasoning_efforts settings = with_defaults settings default_reasoning_efforts

unfoldable pub apply_default_context_tiers : Dict Text → Dict Text
unfolding with_defaults text
apply_default_context_tiers settings = with_defaults settings default_context_tiers

-- The aliases whose two names are not blank; of two that are trimmed to one name, the later one in
-- the order of the range stays.
unfoldable pub sanitize_aliases : Dict Text → Dict Text → Dict Text
unfolding trim_space insert
sanitize_aliases clean [] = clean
sanitize_aliases clean ((alias, target) ∷ rest) =
    sanitize_aliases
      (if not (is_empty (trim_space alias)) && not (is_empty (trim_space target))
        then insert (trim_space alias) (trim_space target) clean
        else clean)
      rest

-- The mappings of the file, each of which replaces an alias of its name.
unfoldable pub add_mappings : Dict Text → List (Text × Text) → Dict Text
unfolding insert
add_mappings aliases [] = aliases
add_mappings aliases ((display_id, copilot_id) ∷ rest) =
    add_mappings
      (if not (is_empty display_id) && not (is_empty copilot_id)
        then insert display_id copilot_id aliases
        else aliases)
      rest

abbrev valid_reasoning_efforts : List Text
valid_reasoning_efforts =
    text "none" ∷ text "low" ∷ text "medium" ∷ text "high" ∷ text "xhigh" ∷ text "max" ∷ []

abbrev valid_context_tiers : List Text
valid_context_tiers = text "default" ∷ text "long_context" ∷ []

unfoldable pub is_valid_reasoning_effort : Text → Bool
unfolding text text_eq
is_valid_reasoning_effort effort = any (text_eq effort) valid_reasoning_efforts

unfoldable pub is_valid_context_tier : Text → Bool
unfolding text text_eq
is_valid_context_tier tier = any (text_eq tier) valid_context_tiers
