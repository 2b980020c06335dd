-- ===== src/Constraints.antt =====
-- internal/gateway/backend.go (approxTokens, isWideScriptRune), copilot_http.go (applyStopSequences,
-- truncateApproxTokens, sdkMaxOutputTokens) and copilot_sdk_stream.go
-- (applyStreamOutputConstraints): how an answer is cut to what the request asks for. A text is its
-- code points, so an index counts these, where Go counts bytes of valid UTF-8.
pub mod Stops
pub mod Tokens
pub mod Stream
use ghcp_pool_go.Base.{
  ℕ, zero, suc, ◌+◌, ◌/◌, Bool, true, false, not, ◌&&◌, ◌||◌, Option, none, some, List, [], ◌∷◌,
  ◌++◌, if◌then◌else◌, ℤ, pos, negsuc, ltb, leb, ◌==◌, max, take, length, Text, text, is_empty,
  has_prefix, trim_space, any,
}
use ghcp_pool_go.Json.{
  Value, null, string, array, Items, no_items, item, Fields, get, get_in, any_map, first_any,
  int_from_any,
}
use ghcp_pool_go.Json.Print.{string_from_any}

abbrev within : ℕ → ℕ → ℕ → Bool
within c low high = leb low c && leb c high

unfoldable pub is_wide_script_rune : ℕ → Bool
is_wide_script_rune c =
    within c 0x3040 0x30ff
    || within c 0x3400 0x4dbf
    || within c 0x4e00 0x9fff
    || within c 0xac00 0xd7af
    || within c 0xf900 0xfaff
    || within c 0x0e00 0x0e7f
    || within c 0xff00 0xff65
    || within c 0x3000 0x303f

unfoldable pub wide_count : Text → ℕ
unfolding is_wide_script_rune
wide_count [] = 0
wide_count (c ∷ s) = (if is_wide_script_rune c then 1 else 0) + wide_count s

unfoldable pub narrow_count : Text → ℕ
unfolding is_wide_script_rune
narrow_count [] = 0
narrow_count (c ∷ s) = (if is_wide_script_rune c then 0 else 1) + narrow_count s

-- `wide + (narrow+3)/4`
abbrev pub token_sum : ℕ → ℕ → ℕ
token_sum wide narrow = wide + (narrow + 3) / 4

unfoldable pub approx_tokens : Text → ℕ
unfolding wide_count narrow_count trim_space
approx_tokens s =
    if is_empty (trim_space s) then 0 else max 1 (token_sum (wide_count s) (narrow_count s))

-- strings.Index
unfoldable pub index_of : Text → Text → Option ℕ
unfolding has_prefix
index_of s [] = some 0
index_of [] (d ∷ t) = none
index_of (c ∷ s) (d ∷ t) =
    let later = index_of s (d ∷ t) in
    if has_prefix (c ∷ s) (d ∷ t)
    then some 0
    else elim later [ none ↦ none | some i ↦ some (suc i) ]

-- The stop sequences of the parameter; Go's []string is a list of strings here.
abbrev pub non_empty_items : Items → List Text
non_empty_items no_items = []
non_empty_items (item v rest) =
    if is_empty (string_from_any v)
    then non_empty_items rest
    else string_from_any v ∷ non_empty_items rest

unfoldable pub stops_of : Value → List Text
unfolding string_from_any
stops_of (string s) = s ∷ []
stops_of (array items) = non_empty_items items
stops_of v = []

abbrev pub earlier : Option ℕ → Option ℕ → Option ℕ
earlier none cut = cut
earlier (some i) none = some i
earlier (some i) (some j) = if ltb i j then some i else some j

-- The first index at which one of the stop sequences occurs.
unfoldable pub cut_at : Text → List Text → Option ℕ → Option ℕ
unfolding index_of
cut_at content [] cut = cut
cut_at content (stop ∷ stops) cut =
    if is_empty stop
    then cut_at content stops cut
    else cut_at content stops (earlier (index_of content stop) cut)

unfoldable pub apply_stop_sequences : Text → Value → Text × Bool
unfolding cut_at stops_of
apply_stop_sequences content value = elim (cut_at content (stops_of value) none) [
  | none ↦ (content, false)
  | some cut ↦ (take cut content, true)
]

abbrev pub is_blank : ℕ → Bool
is_blank c = c == b' ' || c == b'\t' || c == b'\n'

-- The loop of `truncateApproxTokens`: the text up to the character at which the count is too large.
unfoldable pub fits : ℕ → ℕ → ℕ → Text → Text
unfolding is_wide_script_rune
fits limit wide narrow [] = []
fits limit wide narrow (c ∷ s) =
    let w = if is_wide_script_rune c then wide + 1 else wide in
    let n = if is_wide_script_rune c then narrow else narrow + 1 in
    let rest = fits limit w n s in if ltb limit (token_sum w n) then [] else c ∷ rest

-- `head[:strings.LastIndexAny(head, " \t\n")]`, where there is such an index and it is not 0.
unfoldable pub up_to_blank : Text → Option Text
up_to_blank [] = none
up_to_blank (c ∷ s) = elim (up_to_blank s) [
  | some head ↦ some (c ∷ head)
  | none ↦ if is_blank c then some [] else none
]

abbrev pub at_boundary : Text → Text
at_boundary head = elim (up_to_blank head) [ none ↦ head | some [] ↦ head | some (c ∷ s) ↦ c ∷ s ]

-- strings.TrimRight(s, " \t\n")
unfoldable pub trim_right : Text → Text
trim_right [] = []
trim_right (c ∷ s) = elim (trim_right s) [
  | [] ↦ if is_blank c then [] else c ∷ []
  | d ∷ t ↦ c ∷ d ∷ t
]

unfoldable pub truncate_approx_tokens : Text → ℕ → Text × Bool
unfolding approx_tokens fits up_to_blank trim_right
truncate_approx_tokens content limit =
    if leb limit 0 || leb (approx_tokens content) limit
    then (content, false)
    else (trim_right (at_boundary (fits limit 0 0 content)), true)

-- A limit that is not positive is none: 0 here.
abbrev pub positive : ℤ → ℕ
positive (pos n) = n
positive (negsuc n) = 0

unfoldable pub sdk_max_output_tokens : Fields → ℕ
unfolding get get_in int_from_any first_any text
sdk_max_output_tokens params =
    let n = positive (int_from_any (get (text "max_tokens") params) (pos 0)) in
    let options = any_map (get (text "response_options") params) in
    if ltb 0 n
    then n
    else positive (
        int_from_any
          (first_any
            (get_in (text "max_tokens") options ∷ get_in (text "max_output_tokens") options ∷ []))
          (pos 0))
