-- ===== src/Glob.antt =====
-- internal/gateway/util.go: globMatch and matchesAny. The other definitions follow path.Match of Go's
-- standard library, on the bytes of both texts: the pattern is cut into chunks before each `*`, and a
-- chunk is taken at the first place where it matches, without going back. An error of path.Match is no
-- match, since globMatch drops it. Fuel: each round takes at least one byte of the pattern.
use ghcp_pool_go.Base.{
  ℕ, zero, suc, ◌+◌, ◌-◌, ◌*◌, ◌/◌, ◌%◌, Bool, true, false, not, ◌&&◌, ◌||◌, Option, none, some,
  List, [], ◌∷◌, ◌++◌, ltb, leb, ◌==◌, if◌then◌else◌, any, length, drop, is_empty, get_elem?, Text,
}

-- The bytes of a code point, and of a text.
abbrev encode_rune : ℕ → List ℕ
encode_rune c =
    if ltb c 128
    then c ∷ []
    else if ltb c 2048
    then (192 + c / 64) ∷ (128 + c % 64) ∷ []
    else if ltb c 65536
    then (224 + c / 4096) ∷ (128 + c / 64 % 64) ∷ (128 + c % 64) ∷ []
    else (240 + c / 262144) ∷ (128 + c / 4096 % 64) ∷ (128 + c / 64 % 64) ∷ (128 + c % 64) ∷ []

unfoldable utf8 : Text → List ℕ
utf8 [] = []
utf8 (c ∷ s) = encode_rune c ++ utf8 s

-- The byte at an index, and 0 past the end.
abbrev byte_at : ℕ → List ℕ → ℕ
byte_at i s = elim (get_elem? s i) [ none ↦ 0 | some b ↦ b ]

abbrev between : ℕ → ℕ → ℕ → Bool
between lo hi b = leb lo b && leb b hi

abbrev continues : ℕ → Bool
continues b = between 128 191 b

-- The first rune and its width; a byte that begins no rune is U+FFFD, of width 1.
unfoldable decode_rune : List ℕ → ℕ × ℕ
decode_rune [] = (65533, 0)
decode_rune (a ∷ s) =
    let b = byte_at 0 s in
    let c = byte_at 1 s in
    let d = byte_at 2 s in
    let b_lo = if a == 224 then 160 else if a == 240 then 144 else 128 in
    let b_hi = if a == 237 then 159 else if a == 244 then 143 else 191 in
    if ltb a 128
    then (a, 1)
    else if between 194 223 a && continues b
    then ((a - 192) * 64 + (b - 128), 2)
    else if between 224 239 a && between b_lo b_hi b && continues c
    then ((a - 224) * 4096 + (b - 128) * 64 + (c - 128), 3)
    else if between 240 244 a && between b_lo b_hi b && continues c && continues d
    then ((a - 240) * 262144 + (b - 128) * 4096 + (c - 128) * 64 + (d - 128), 4)
    else (65533, 1)

-- A rune of a class, which may not be the end of the pattern.
abbrev class_rune : List ℕ → Option (ℕ × List ℕ)
class_rune s =
    let (r, n) = decode_rune s in
    let rest = drop n s in if is_empty rest || (r == 65533 && n == 1) then none else some (r, rest)

unfoldable get_esc : List ℕ → Option (ℕ × List ℕ)
unfolding decode_rune
get_esc [] = none
get_esc (c ∷ s) =
    if c == b'-' || c == b']' then none else if c == b'\\' then class_rune s else class_rune (c ∷ s)

abbrev starts_with : ℕ → List ℕ → Bool
starts_with c [] = false
starts_with c (d ∷ s) = c == d

-- The ranges of a class after the first `n`: whether the rune is in one, and what follows the class.
unfoldable class_ranges : ℕ → ℕ → List ℕ → ℕ → Bool → Option (Bool × List ℕ)
unfolding get_esc
class_ranges zero r chunk n found = none
class_ranges (suc fuel) r chunk n found = elim (starts_with b']' chunk && ltb 0 n) [
  | true ↦ some (found, drop 1 chunk)
  | false ↦ elim (get_esc chunk) [
    | none ↦ none
    | some (lo, rest) ↦ elim (starts_with b'-' rest) [
      | false ↦ class_ranges fuel r rest (n + 1) (found || between lo lo r)
      | true ↦ elim (get_esc (drop 1 rest)) [
        | none ↦ none
        | some (hi, more) ↦ class_ranges fuel r more (n + 1) (found || between lo hi r)
      ]
    ]
  ]
]

-- What is left of a text that begins with a chunk, which has no `*` outside a class.
unfoldable match_chunk : ℕ → List ℕ → List ℕ → Option (List ℕ)
unfolding class_ranges decode_rune
match_chunk fuel [] s = some s
match_chunk fuel (c ∷ chunk) [] = none
match_chunk zero (c ∷ chunk) (b ∷ s) = none
match_chunk (suc fuel) (c ∷ chunk) (b ∷ s) = elim (c == b'[') [
  | true ↦
      let (r, n) = decode_rune (b ∷ s) in
      let negated = starts_with b'^' chunk in
      elim (class_ranges (length chunk) r (if negated then drop 1 chunk else chunk) 0 false) [
        | none ↦ none
        | some (found, rest) ↦ elim (if negated then not found else found) [
          | false ↦ none
          | true ↦ match_chunk fuel rest (drop n (b ∷ s))
        ]
      ]
  | false ↦ elim (c == b'?') [
    | true ↦ elim (b == b'/') [
      | true ↦ none
      | false ↦ let (r, n) = decode_rune (b ∷ s) in match_chunk fuel chunk (drop n (b ∷ s))
    ]
    | false ↦
        let wanted = if c == b'\\' then byte_at 0 chunk else c in
        let rest = if c == b'\\' then drop 1 chunk else chunk in
        elim (not (c == b'\\' && is_empty chunk) && wanted == b) [
          | false ↦ none
          | true ↦ match_chunk fuel rest s
        ]
  ]
]

-- scanChunk after the stars: the bytes up to the next `*` outside a class, and the rest.
unfoldable scan_chunk : Bool → Bool → List ℕ → List ℕ × List ℕ
scan_chunk escaped in_range [] = ([], [])
scan_chunk escaped in_range (c ∷ s) =
    let escapes = not escaped && c == b'\\' in
    let ranges =
      if escaped
      then in_range
      else if c == b'['
      then true
      else if c == b']'
      then false
      else in_range in
    let (chunk, rest) = scan_chunk escapes ranges s in
    if not escaped && not in_range && c == b'*' then ([], c ∷ s) else (c ∷ chunk, rest)

abbrev without_stars : List ℕ → List ℕ
without_stars [] = []
without_stars (c ∷ s) = if c == b'*' then without_stars s else c ∷ s

-- A chunk that is the last must take the whole of the text.
abbrev accepted : Bool → Option (List ℕ) → Option (List ℕ)
accepted last none = none
accepted last (some t) = if last && not (is_empty t) then none else some t

-- The first place behind bytes that are no `/` at which the chunk is accepted.
unfoldable skip_to : List ℕ → Bool → List ℕ → Option (List ℕ)
unfolding match_chunk
skip_to chunk last [] = none
skip_to chunk last (b ∷ s) = elim (b == b'/') [
  | true ↦ none
  | false ↦ elim (accepted last (match_chunk (length chunk) chunk s)) [
    | some t ↦ some t
    | none ↦ skip_to chunk last s
  ]
]

-- Where the first chunk of a pattern is accepted.
abbrev placed : Bool → List ℕ → Bool → List ℕ → Option (List ℕ)
placed star chunk last name = elim (accepted last (match_chunk (length chunk) chunk name)) [
  | some t ↦ some t
  | none ↦ if star then skip_to chunk last name else none
]

unfoldable path_match : ℕ → List ℕ → List ℕ → Bool
unfolding scan_chunk match_chunk skip_to
path_match fuel [] name = is_empty name
path_match zero (c ∷ pattern) name = false
path_match (suc fuel) (c ∷ pattern) name =
    let star = c == b'*' in
    let (chunk, rest) = scan_chunk false false (without_stars (c ∷ pattern)) in
    elim (star && is_empty chunk) [
      | true ↦ not (any (λ b. b == b'/') name)
      | false ↦ elim (placed star chunk (is_empty rest) name) [
        | none ↦ false
        | some t ↦ path_match fuel rest t
      ]
    ]

unfoldable pub glob_match : Text → Text → Bool
unfolding utf8 path_match
glob_match pattern value = let bytes = utf8 pattern in path_match (length bytes) bytes (utf8 value)

unfoldable pub matches_any : Text → List Text → Bool
unfolding glob_match
matches_any value [] = false
matches_any value (pattern ∷ patterns) =
    if glob_match pattern value then true else matches_any value patterns
