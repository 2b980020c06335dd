-- ===== src/Values.antt =====
-- internal/gateway/util.go: lists of texts and other small values.
pub mod Lists
use ghcp_pool_go.Base.{
  ℕ, zero, suc, ◌+◌, ◌-◌, ◌*◌, Bool, true, false, not, ◌&&◌, ◌||◌, Option, none, some, List, [],
  ◌∷◌, ◌++◌, if◌then◌else◌, any, take, drop, length, ℤ, pos, negsuc, ◌==◌, leb, ltb, Text, text,
  text_eq, is_empty, trim_space, to_lower,
}

unfoldable pub first_non_empty : List Text → Text
first_non_empty [] = []
first_non_empty (value ∷ values) = if is_empty value then first_non_empty values else value

-- The loop of `normalizeStringList`, with what it has seen.
unfoldable pub normalize_from : List Text → List Text → List Text
unfolding trim_space text_eq
normalize_from seen [] = []
normalize_from seen (item ∷ items) =
    let t = trim_space item in
    let skip = normalize_from seen items in
    let add = t ∷ normalize_from (t ∷ seen) items in
    if is_empty t || any (text_eq t) seen then skip else add

-- The nil slice is the empty one.
unfoldable pub normalize_string_list : List Text → List Text
unfolding normalize_from
normalize_string_list = normalize_from []

abbrev pub is_separator : ℕ → Bool
is_separator c = c == b',' || c == b'\n' || c == b'\t' || c == b' '

-- strings.FieldsFunc: the runs of characters that are no separators; `run` is the one so far.
unfoldable pub fields_from : Text → Text → List Text
fields_from run [] = if is_empty run then [] else run ∷ []
fields_from run (c ∷ s) =
    let cut = fields_from [] s in
    let grow = fields_from (run ++ c ∷ []) s in
    if is_separator c then (if is_empty run then cut else run ∷ cut) else grow

unfoldable pub first_list : List (List Text) → List Text
unfolding normalize_string_list
first_list [] = []
first_list (value ∷ values) = elim value [
  | [] ↦ first_list values
  | v ∷ vs ↦ normalize_string_list (v ∷ vs)
]

unfoldable pub first_string_slice : Text → List (List Text) → List Text
unfolding normalize_string_list fields_from first_list
first_string_slice raw values =
    if is_empty raw then first_list values else normalize_string_list (fields_from [] raw)

unfoldable pub contains_string : List Text → Text → Bool
unfolding text_eq
contains_string values needle = any (λ value. text_eq value needle) values

-- `envBool` on the value of the variable.
unfoldable pub env_bool : Text → Bool → Bool
unfolding trim_space to_lower text text_eq
env_bool value fallback =
    let raw = trim_space (to_lower value) in
    if is_empty raw
    then fallback
    else text_eq raw (text "1")
      || text_eq raw (text "true")
      || text_eq raw (text "yes")
      || text_eq raw (text "on")

-- The loop of `charChunks`; each round takes a character at least, so the length is enough fuel.
unfoldable pub chunks_from : ℕ → ℕ → Text → List Text
chunks_from zero size s = []
chunks_from (suc fuel) size [] = []
chunks_from (suc fuel) size (c ∷ s) = take size (c ∷ s) ∷ chunks_from fuel size (drop size (c ∷ s))

-- The size of a chunk: 24 where it is not positive.
abbrev pub chunk_size : ℤ → ℕ
chunk_size (pos n) = if ltb 0 n then n else 24
chunk_size (negsuc n) = 24

unfoldable pub char_chunks : Text → ℤ → List Text
unfolding chunks_from
char_chunks s size = chunks_from (length s) (chunk_size size) s
