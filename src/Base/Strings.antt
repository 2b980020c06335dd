-- ===== src/Base/Strings.antt =====
-- Text as a list of code points, and what the program uses of Go's package `strings`. Letters are
-- folded to lower case in the ASCII range.
use Prim.Native.Char.{code}
use Prim.Native.Nat.{ℕ, zero, suc, ◌+◌, ◌≤◌}
use Prim.Native.String.{String}
use mathlib.Core.Path.{◌≡◌, refl, ◌∙◌}
use mathlib.Core.Logic.{◌↔◌}
use mathlib.Core.Bool.{Bool, true, false, ◌&&◌, ◌||◌}
use mathlib.Core.List.{List, [], ◌∷◌, ◌++◌, map, reverse}
use native.Mathlib.Omega.{arith}
use ghcp_pool_go.Base.Tests.{ltb, leb, ◌==◌, if◌then◌else◌}
use ghcp_pool_go.Base.Lists.{any, take, drop, length}

abbrev pub Text : Type 0
Text = List ℕ

-- A literal of the source.
unfoldable pub text : String → Text
text String.[] = []
text (String.◌∷◌ c s) = code c ∷ text s

unfoldable pub text_eq : Text → Text → Bool
text_eq [] [] = true
text_eq [] (d ∷ t) = false
text_eq (c ∷ s) [] = false
text_eq (c ∷ s) (d ∷ t) = if c == d then text_eq s t else false

eq_of_text_eq : (s t : Text) → text_eq s t ≡ true → s ≡ t
unfolding text_eq
eq_of_text_eq [] [] h = refl
eq_of_text_eq [] (d ∷ t) h = cc
eq_of_text_eq (c ∷ s) [] h = cc
eq_of_text_eq (c ∷ s) (d ∷ t) h = ground (arith, eq_of_text_eq s t)

pub text_eq_refl : (s : Text) → text_eq s s ≡ true
unfolding text_eq
text_eq_refl [] = refl
text_eq_refl (c ∷ s) = ground (arith, text_eq_refl s)

text_eq_of_eq : (s t : Text) → s ≡ t → text_eq s t ≡ true
text_eq_of_eq s t e = rw e (text_eq_refl t)

pub text_eq_iff : (s t : Text) → (text_eq s t ≡ true) ↔ (s ≡ t)
text_eq_iff s t = (eq_of_text_eq s t, text_eq_of_eq s t)

abbrev pub is_empty : Text → Bool
is_empty [] = true
is_empty (c ∷ s) = false

-- `len(s)`: the bytes of the UTF-8 encoding.
unfoldable pub byte_length : Text → ℕ
byte_length [] = 0
byte_length (c ∷ s) =
    (if ltb c 0x80 then 1 else if ltb c 0x800 then 2 else if ltb c 0x10000 then 3 else 4)
    + byte_length s

-- strings.HasPrefix
unfoldable pub has_prefix : Text → Text → Bool
has_prefix s [] = true
has_prefix [] (d ∷ t) = false
has_prefix (c ∷ s) (d ∷ t) = if c == d then has_prefix s t else false

-- strings.Contains
unfoldable pub contains : Text → Text → Bool
unfolding has_prefix
contains [] t = has_prefix [] t
contains (c ∷ s) t = if has_prefix (c ∷ s) t then true else contains s t

-- strings.ToLower
unfoldable pub to_lower : Text → Text
to_lower = map (λ c. if leb b'A' c && leb c b'Z' then c + 32 else c)

-- unicode.IsSpace
unfoldable pub is_space : ℕ → Bool
is_space c =
    (leb 9 c && leb c 13)
    || c == 32
    || c == 0x85
    || c == 0xa0
    || c == 0x1680
    || (leb 0x2000 c && leb c 0x200a)
    || c == 0x2028
    || c == 0x2029
    || c == 0x202f
    || c == 0x205f
    || c == 0x3000

unfoldable pub trim_left : Text → Text
unfolding is_space
trim_left [] = []
trim_left (c ∷ s) = if is_space c then trim_left s else c ∷ s

-- strings.TrimSpace
unfoldable pub trim_space : Text → Text
unfolding trim_left
trim_space s = reverse (trim_left (reverse (trim_left s)))

-- strings.ContainsAny
abbrev pub contains_any : Text → Text → Bool
contains_any s chars = any (λ c. any (λ d. c == d) chars) s

-- strings.Join
unfoldable pub join_by : Text → List Text → Text
join_by sep [] = []
join_by sep (s ∷ []) = s
join_by sep (s ∷ t ∷ rest) = s ++ sep ++ join_by sep (t ∷ rest)

-- `s` is the start of `t`.
abbrev pub Prefix : Text → Text → Type 0
Prefix [] t = Unit
Prefix (c ∷ s) [] = ⊥
Prefix (c ∷ s) (d ∷ t) = (c ≡ d) × Prefix s t

pub Prefix-refl : (s : Text) → Prefix s s
Prefix-refl [] = tt
Prefix-refl (c ∷ s) = (refl, Prefix-refl s)

pub Prefix-trans : (s t u : Text) → Prefix s t → Prefix t u → Prefix s u
Prefix-trans [] t u h k = tt
Prefix-trans (c ∷ s) [] u h k = absurd h
Prefix-trans (c ∷ s) (d ∷ t) [] h k = absurd k
Prefix-trans (c ∷ s) (d ∷ t) (e ∷ u) h k = (h.0 ∙ k.0, Prefix-trans s t u h.1 k.1)

pub Prefix-take : (n : ℕ) (s : Text) → Prefix (take n s) s
Prefix-take zero s = tt
Prefix-take (suc n) [] = tt
Prefix-take (suc n) (c ∷ s) = (refl, Prefix-take n s)

pub Prefix-append : (s t : Text) → Prefix s (s ++ t)
Prefix-append [] t = tt
Prefix-append (c ∷ s) t = (refl, Prefix-append s t)

-- Two starts of one text, the shorter of which is continued to the other.
pub Prefix-continue :
    (s t u : Text) → Prefix s u → Prefix t u → length s ≤ length t → s ++ drop (length s) t ≡ t
Prefix-continue [] t u h k l = refl
Prefix-continue (c ∷ s) [] u h k l = absurd (omega (arith, l))
Prefix-continue (c ∷ s) (d ∷ t) [] h k l = absurd h
Prefix-continue (c ∷ s) (d ∷ t) (e ∷ u) h k l =
    grind (arith, h.0, k.0, Prefix-continue s t u h.1 k.1 (omega (arith, l)))
