-- ===== src/Json/Parse.antt =====
-- What Go's `encoding/json` reads: json.Valid and json.Unmarshal into `any`. A number keeps its
-- literal and the integer part of its value, and is taken to be in the range of a float64; the limit
-- on the depth of nesting is left out.
use ghcp_pool_go.Base.{
  ℕ, zero, suc, ◌+◌, ◌-◌, ◌*◌, ◌/◌, ◌^◌, Bool, true, false, not, ◌&&◌, ◌||◌, ◌==◌, Option, none,
  some, [], ◌∷◌, ◌++◌, if◌then◌else◌, ltb, leb, pos, length, Text, text, is_empty, has_prefix, drop,
  any,
}
use ghcp_pool_go.Json.{
  Value, null, boolean, number, string, array, object, Items, no_items, item, Fields, no_fields,
  set_field, digits_value, is_digit, negated,
}

-- The characters before the first that fails a test, and what follows.
abbrev span : (ℕ → Bool) → Text → Text × Text
span p [] = ([], [])
span p (c ∷ s) = if p c then (c ∷ (span p s).0, (span p s).1) else ([], c ∷ s)

abbrev one_of_chars : Text → ℕ → Bool
one_of_chars chars c = any (λ d. c == d) chars

unfoldable pub skip_blanks : Text → Text
unfolding text
skip_blanks s = (span (λ c. c == 32 || c == 9 || c == 10 || c == 13) s).1

abbrev is_number_char : ℕ → Bool
is_number_char c = is_digit c || c == b'-' || c == b'+' || c == b'.' || c == b'e' || c == b'E'

abbrev all_digits : Text → Bool
all_digits s = not (is_empty s) && is_empty (span is_digit s).1

-- The digits of a literal, without a leading zero.
abbrev is_integer_part : Text → Bool
is_integer_part [] = false
is_integer_part (c ∷ s) = if c == b'0' then is_empty s else all_digits (c ∷ s)

abbrev split_at : (ℕ → Bool) → Text → Text × Option Text
split_at p s = elim (span (λ c. not (p c)) s).1 [
  | [] ↦ (s, none)
  | c ∷ rest ↦ ((span (λ d. not (p d)) s).0, some rest)
]

abbrev unsigned : Text → Text
unsigned [] = []
unsigned (c ∷ s) = if c == b'-' then s else c ∷ s

abbrev exponent_digits : Text → Text
exponent_digits [] = []
exponent_digits (c ∷ s) = if c == b'-' || c == b'+' then s else c ∷ s

abbrev starts_with_minus : Text → Bool
starts_with_minus [] = false
starts_with_minus (c ∷ s) = c == b'-'

abbrev or_empty : Option Text → Text
or_empty none = []
or_empty (some s) = s

abbrev if_set : (Text → Bool) → Option Text → Bool
if_set p none = true
if_set p (some s) = p s

-- The value of `digits` times 10 to the power up - down, towards 0.
abbrev scaled : ℕ → ℕ → ℕ → ℕ
scaled digits up down = if leb down up then digits * 10 ^ (up - down) else digits / 10 ^ (down - up)

unfoldable pub read_number : Text → Option Value
unfolding digits_value
read_number s =
    let (mantissa, exponent) = split_at (λ c. c == b'e' || c == b'E') (unsigned s) in
    let (whole, fraction) = split_at (λ c. c == b'.') mantissa in
    let power = digits_value 0 (exponent_digits (or_empty exponent)) in
    let digits = digits_value 0 (whole ++ or_empty fraction) in
    let down = length (or_empty fraction) in
    let n =
      if starts_with_minus (or_empty exponent)
      then scaled digits 0 (down + power)
      else scaled digits power down in
    if is_integer_part whole
      && if_set all_digits fraction
      && if_set (λ e. all_digits (exponent_digits e)) exponent
    then some (number (if starts_with_minus s then negated n else pos n) s)
    else none

pub data Escape : Type 0 where
  plain : Escape
  backslash : Escape
  hex : ℕ → ℕ → Escape

abbrev hex_value : ℕ → Option ℕ
hex_value c =
    if is_digit c
    then some (c - b'0')
    else if leb b'a' c && leb c b'f'
    then some (c - b'a' + 10)
    else if leb b'A' c && leb c b'F'
    then some (c - b'A' + 10)
    else none

-- What follows a backslash: the character, or none for an unknown one.
abbrev escaped_char : ℕ → Option ℕ
escaped_char c =
    if c == b'"' || c == b'\\' || c == b'/'
    then some c
    else if c == b'b'
    then some 8
    else if c == b'f'
    then some 12
    else if c == b'n'
    then some 10
    else if c == b'r'
    then some 13
    else if c == b't'
    then some 9
    else none

-- The rest of a string after its opening quote: the characters (surrogates not yet paired), and
-- what follows the closing quote.
unfoldable pub read_string : Escape → Text → Text → Option (Text × Text)
read_string e acc [] = none
read_string plain acc (c ∷ s) =
    if c == b'"'
    then some (acc, s)
    else if c == b'\\'
    then read_string backslash acc s
    else if ltb c 32
    then none
    else read_string plain (acc ++ c ∷ []) s
read_string backslash acc (c ∷ s) =
    if c == b'u'
    then read_string (hex 3 0) acc s
    else elim (escaped_char c) [ none ↦ none | some d ↦ read_string plain (acc ++ d ∷ []) s ]
read_string (hex k n) acc (c ∷ s) = elim (hex_value c) [
  | none ↦ none
  | some d ↦ elim k [
    | zero ↦ read_string plain (acc ++ (16 * n + d) ∷ []) s
    | suc j ↦ read_string (hex j (16 * n + d)) acc s
  ]
]

abbrev is_high : ℕ → Bool
is_high c = leb 0xd800 c && leb c 0xdbff

abbrev is_low : ℕ → Bool
is_low c = leb 0xdc00 c && leb c 0xdfff

-- A pair of surrogates is one character, and a lone one is replaced.
unfoldable pub paired : Text → Text
paired [] = []
paired (c ∷ []) = (if is_high c || is_low c then 0xfffd else c) ∷ []
paired (c ∷ d ∷ s) =
    let skip = paired s in
    let rest = paired (d ∷ s) in
    if is_high c && is_low d
    then (0x10000 + (c - 0xd800) * 1024 + (d - 0xdc00)) ∷ skip
    else (if is_high c || is_low c then 0xfffd else c) ∷ rest

abbrev word : Text → Value → Text → Option (Value × Text)
word w v s = if has_prefix s w then some (v, drop (length w) s) else none

-- The key of an entry and the colon after it.
unfoldable pub read_key : Text → Option (Text × Text)
unfolding skip_blanks read_string paired
read_key s = elim (skip_blanks s) [
  | [] ↦ none
  | c ∷ t ↦
      if c == b'"'
      then elim (read_string plain [] t) [
        | none ↦ none
        | some (k, r) ↦ elim (skip_blanks r) [
          | [] ↦ none
          | d ∷ u ↦ if d == b':' then some (paired k, u) else none
        ]
      ]
      else none
]

-- Each call of a value spends fuel, and each takes a character at least.
unfoldable mutual
  unfolding skip_blanks read_key read_number read_string paired set_field has_prefix text

  pub read_value : ℕ → Text → Option (Value × Text)
  read_value zero s = none
  read_value (suc fuel) s = elim (skip_blanks s) [
    | [] ↦ none
    | c ∷ t ↦ elim (c == b'{') [
      | true ↦ elim (skip_blanks t) [
        | [] ↦ none
        | d ∷ u ↦ elim (d == b'}') [
          | true ↦ some (object no_fields, u)
          | false ↦ read_fields fuel no_fields (d ∷ u)
        ]
      ]
      | false ↦ elim (c == b'[') [
        | true ↦ elim (skip_blanks t) [
          | [] ↦ none
          | d ∷ u ↦ elim (d == b']') [
            | true ↦ some (array no_items, u)
            | false ↦ elim (read_items fuel (d ∷ u)) [
              | none ↦ none
              | some (i, r) ↦ some (array i, r)
            ]
          ]
        ]
        | false ↦ elim (c == b'"') [
          | true ↦ elim (read_string plain [] t) [
            | none ↦ none
            | some (x, r) ↦ some (string (paired x), r)
          ]
          | false ↦
              if is_digit c || c == b'-'
              then elim (read_number (span is_number_char (c ∷ t)).0) [
                | none ↦ none
                | some v ↦ some (v, (span is_number_char (c ∷ t)).1)
              ]
              else if c == b't'
              then word (text "true") (boolean true) (c ∷ t)
              else if c == b'f'
              then word (text "false") (boolean false) (c ∷ t)
              else word (text "null") null (c ∷ t)
        ]
      ]
    ]
  ]

  read_items : ℕ → Text → Option (Items × Text)
  read_items zero s = none
  read_items (suc fuel) s = elim (read_value fuel s) [
    | none ↦ none
    | some (v, r) ↦ elim (skip_blanks r) [
      | [] ↦ none
      | c ∷ t ↦ elim (c == b',') [
        | true ↦ elim (read_items fuel t) [ none ↦ none | some (i, u) ↦ some (item v i, u) ]
        | false ↦ if c == b']' then some (item v no_items, t) else none
      ]
    ]
  ]

  read_fields : ℕ → Fields → Text → Option (Value × Text)
  read_fields zero m s = none
  read_fields (suc fuel) m s = elim (read_key s) [
    | none ↦ none
    | some (k, r) ↦ elim (read_value fuel r) [
      | none ↦ none
      | some (v, u) ↦ elim (skip_blanks u) [
        | [] ↦ none
        | c ∷ t ↦ elim (c == b',') [
          | true ↦ read_fields fuel (set_field k v m) t
          | false ↦ if c == b'}' then some (object (set_field k v m), t) else none
        ]
      ]
    ]
  ]

-- json.Unmarshal; what may follow the value is blanks.
unfoldable pub decode : Text → Option Value
unfolding read_value skip_blanks
decode s = elim (read_value (2 * length s + 2) s) [
  | none ↦ none
  | some (v, r) ↦ if is_empty (skip_blanks r) then some v else none
]

-- json.Valid
unfoldable pub json_valid : Text → Bool
unfolding decode
json_valid s = elim (decode s) [ none ↦ false | some v ↦ true ]
