-- ===== src/Structured/Payload.antt =====
-- internal/gateway/structured_output.go: what extractJSONPayload finds stands in the content.
use ghcp_pool_go.Base.{
  ℕ, zero, suc, ◌≡◌, refl, sym, ap, subst, ◌∙◌, Bool, true, false, Option, none, some, [], ◌∷◌,
  ◌++◌, if◌then◌else◌, Text, is_empty, arith, Bool-cases, Option-cases, Prefix, append_assoc,
  append-nil, inl, inr, trim_space, trim_left, is_space, ◌==◌, reverse, reverse-append,
  reverse-reverse, drop, has_prefix, not, ◌||◌, contains_any, text,
}
use ghcp_pool_go.Json.Parse.{json_valid}
use ghcp_pool_go.Structured.Extract.{
  balanced, Scan, before_last, first_line, without_tag, up_to_fence, strip_code_fence,
  first_json_value, extract_json_payload, closing_of, if_valid, closes, scan_step, fence,
}

-- `p` stands somewhere in `s`.
abbrev pub Infix : Text → Text → Type 0
Infix p s = (a : Text) × (b : Text) × (s ≡ a ++ (p ++ b))

Infix-refl : (s : Text) → Infix s s
Infix-refl s = ([], [], sym (append-nil s))

Infix-trans : (p q s : Text) → Infix p q → Infix q s → Infix p s
Infix-trans p q s (a, b, e) (c, d, f) = (c ++ a, b ++ d, joined)
  where
    joined : s ≡ (c ++ a) ++ (p ++ (b ++ d))
    joined =
        f
        ∙ ap (λ x. c ++ (x ++ d)) e
        ∙ ap (λ x. c ++ x) (append_assoc a (p ++ b) d ∙ ap (λ x. a ++ x) (append_assoc p b d))
        ∙ sym (append_assoc c a (p ++ (b ++ d)))

Infix-end : (a s : Text) → Infix s (a ++ s)
Infix-end a s = (a, [], ap (λ x. a ++ x) (sym (append-nil s)))

Infix-start : (s b : Text) → Infix s (s ++ b)
Infix-start s b = ([], b, refl)

Infix-cons : (c : ℕ) (p s : Text) → Infix p s → Infix p (c ∷ s)
Infix-cons c p s (a, b, e) = (c ∷ a, b, ap (λ x. c ∷ x) e)

Prefix-rest : (p s : Text) → Prefix p s → (b : Text) × (s ≡ p ++ b)
Prefix-rest [] s h = (s, refl)
Prefix-rest (c ∷ p) [] h = absurd h
Prefix-rest (c ∷ p) (d ∷ s) h = let (b, e) = Prefix-rest p s h.1 in (b, grind (arith, h.0, e))

Prefix-Infix : (p s : Text) → Prefix p s → Infix p s
Prefix-Infix p s h = let (b, e) = Prefix-rest p s h in ([], b, e)

trim_left-Infix : (s : Text) → Infix (trim_left s) s
unfolding trim_left
trim_left-Infix [] = Infix-refl []
trim_left-Infix (c ∷ s) = elim (Bool-cases (is_space c)) [
  | inl y ↦ rw y (Infix-cons c (trim_left s) s (trim_left-Infix s))
  | inr f ↦ rw f (Infix-refl (c ∷ s))
]

balanced-Prefix :
    (opening closing : ℕ) (s : Scan) (t r : Text)
    → balanced opening closing s t ≡ some r
    → Prefix r t
unfolding balanced
balanced-Prefix opening closing s [] r h = absurd (cc)
balanced-Prefix opening closing s (c ∷ t) [] h = tt
balanced-Prefix opening closing s (c ∷ t) (d ∷ r) h = elim (Bool-cases (closes closing s c)) [
  | inl y ↦ ground arith
  | inr f ↦ elim (Option-cases (balanced opening closing (scan_step opening closing s c) t)) [
    | inl e ↦ ground arith
    | inr (q, e) ↦
        ground (arith, balanced-Prefix opening closing (scan_step opening closing s c) t q e)
  ]
]

before_last-Prefix : (u s r : Text) → before_last u s ≡ some r → Prefix r s
unfolding before_last
before_last-Prefix u [] r h = absurd (cc)
before_last-Prefix u (c ∷ s) [] h = tt
before_last-Prefix u (c ∷ s) (d ∷ r) h = ground (arith, before_last-Prefix u s r)

-- A text without what is blank at its end.
reversed-Infix : (s : Text) → Infix (reverse (trim_left (reverse s))) s
reversed-Infix s =
    let (a, b, e) = trim_left-Infix (reverse s) in (reverse b, reverse a, turned a b e)
  where
    turned :
        (a b : Text)
        → reverse s ≡ a ++ (trim_left (reverse s) ++ b)
        → s ≡ reverse b ++ (reverse (trim_left (reverse s)) ++ reverse a)
    turned a b e =
        sym (reverse-reverse s)
        ∙ ap reverse e
        ∙ reverse-append a (trim_left (reverse s) ++ b)
        ∙ ap (λ x. x ++ reverse a) (reverse-append (trim_left (reverse s)) b)
        ∙ append_assoc (reverse b) (reverse (trim_left (reverse s))) (reverse a)

trim_space-Infix : (s : Text) → Infix (trim_space s) s
unfolding trim_space
trim_space-Infix s =
    Infix-trans (trim_space s) (trim_left s) s (reversed-Infix (trim_left s)) (trim_left-Infix s)

-- The lines after the first.
first_line-Infix : (s : Text) (r : Text × Text) → first_line s ≡ some r → Infix r.1 s
unfolding first_line
first_line-Infix [] r h = absurd (cc)
first_line-Infix (c ∷ s) (x, z) h = elim (Bool-cases (c == b'\n')) [
  | inl y ↦ subst (λ q. Infix q (c ∷ s)) (here (rw (first_line, y) at h)) (Infix-end (c ∷ []) s)
  | inr f ↦ elim (Option-cases (first_line s)) [
    | inl e ↦ absurd (nowhere (rw e at (rw (first_line, f) at h)))
    | inr (q, e) ↦
        subst (λ u. Infix u (c ∷ s)) (later q (rw e at (rw (first_line, f) at h)))
          (Infix-cons c q.1 s (first_line-Infix s q e))
  ]
]
  where
    here : Path (Option (Text × Text)) (some ([], s)) (some (x, z)) → s ≡ z
    here p = cc

    nowhere : Path (Option (Text × Text)) none (some (x, z)) → ⊥
    nowhere p = cc

    later :
        (q : Text × Text)
        → Path (Option (Text × Text)) (some (c ∷ q.0, q.1)) (some (x, z))
        → q.1 ≡ z
    later q p = cc

drop-Infix : (n : ℕ) (s : Text) → Infix (drop n s) s
drop-Infix zero s = Infix-refl s
drop-Infix (suc n) [] = Infix-refl []
drop-Infix (suc n) (c ∷ s) = Infix-cons c (drop n s) s (drop-Infix n s)

without_tag-Infix : (s : Text) → Infix (without_tag s) s
unfolding without_tag
without_tag-Infix s = elim (Option-cases (first_line s)) [
  | inl e ↦ rw (without_tag, e) (Infix-refl s)
  | inr (r, e) ↦
      rw (without_tag, e)
        (either (contains_any (trim_space r.0) (text "{}[]\"")) r.1 (first_line-Infix s r e))
]
  where
    either : (b : Bool) (after : Text) → Infix after s → Infix (if b then s else after) s
    either true after h = Infix-refl s
    either false after h = h

up_to_fence-Infix : (s : Text) → Infix (up_to_fence s) s
unfolding up_to_fence
up_to_fence-Infix s = elim (Option-cases (before_last fence s)) [
  | inl e ↦ rw (up_to_fence, e) (Infix-refl s)
  | inr (r, e) ↦ rw (up_to_fence, e) (Prefix-Infix r s (before_last-Prefix fence s r e))
]

strip_code_fence-Infix : (s : Text) → Infix (strip_code_fence s).0 s
unfolding strip_code_fence
strip_code_fence-Infix s = elim (Bool-cases (not (has_prefix s fence))) [
  | inl y ↦ rw (strip_code_fence, y) (Infix-refl s)
  | inr f ↦
      rw (strip_code_fence, f)
        (Infix-trans (trim_space (up_to_fence (without_tag (drop 3 s))))
          (up_to_fence (without_tag (drop 3 s))) s
          (trim_space-Infix (up_to_fence (without_tag (drop 3 s))))
          (Infix-trans (up_to_fence (without_tag (drop 3 s))) (without_tag (drop 3 s)) s
            (up_to_fence-Infix (without_tag (drop 3 s)))
            (Infix-trans (without_tag (drop 3 s)) (drop 3 s) s (without_tag-Infix (drop 3 s))
              (drop-Infix 3 s))))
]

if_valid-some :
    (o : Option Text) (r : Text) → if_valid o ≡ some r → (o ≡ some r) × (json_valid r ≡ true)
if_valid-some none r h = absurd (cc)
if_valid-some (some s) r h = elim (Bool-cases (json_valid s)) [
  | inl y ↦ same y (rw y at h)
  | inr f ↦ absurd (other (rw f at h))
]
  where
    same : json_valid s ≡ true → some s ≡ some r → (some s ≡ some r) × (json_valid r ≡ true)
    same y e = (e, subst (λ x. json_valid x ≡ true) (some_eq e) y)
      where
        some_eq : some s ≡ some r → s ≡ r
        some_eq q = cc

    other : none ≡ some r → ⊥
    other e = cc

first_json_value-Infix :
    (s r : Text) → first_json_value s ≡ some r → Infix r s × (json_valid r ≡ true)
unfolding first_json_value
first_json_value-Infix [] r h = absurd (cc)
first_json_value-Infix (c ∷ s) r h = elim (Bool-cases (c == b'{' || c == b'[')) [
  | inl y ↦
      found
        (if_valid-some (balanced c (closing_of c) start (c ∷ s)) r (rw (first_json_value, y) at h))
  | inr f ↦
      let (i, v) = first_json_value-Infix s r (rw (first_json_value, f) at h) in
      (Infix-cons c r s i, v)
]
  where
    start : Scan
    start = record { depth = 0; in_string = false; escaped = false }

    found :
        (balanced c (closing_of c) start (c ∷ s) ≡ some r) × (json_valid r ≡ true)
        → Infix r (c ∷ s) × (json_valid r ≡ true)
    found (e, v) = (Prefix-Infix r (c ∷ s) (balanced-Prefix c (closing_of c) start (c ∷ s) r e), v)

-- A payload that extractJSONPayload finds is valid JSON and stands in the content as it is.
pub extract_json_payload-Infix :
    (content payload : Text)
    → extract_json_payload content ≡ some payload
    → Infix payload content × (json_valid payload ≡ true)
unfolding extract_json_payload
extract_json_payload-Infix content payload h = elim (Bool-cases (is_empty (trim_space content))) [
  | inl y ↦ absurd (nothing (rw (extract_json_payload, y) at h))
  | inr f ↦ elim (Bool-cases (json_valid bare)) [
    | inl v ↦
        subst (λ p. Infix p content × (json_valid p ≡ true))
          (all (rw v at (rw (extract_json_payload, f) at h))) (in_content bare (Infix-refl bare), v)
    | inr g ↦
        let (i, v) =
          first_json_value-Infix bare payload (rw g at (rw (extract_json_payload, f) at h)) in
        (in_content payload i, v)
  ]
]
  where
    bare : Text
    bare = (strip_code_fence (trim_space content)).0

    in_content : (p : Text) → Infix p bare → Infix p content
    in_content p i = Infix-trans p bare content i (
        Infix-trans bare (trim_space content) content (strip_code_fence-Infix (trim_space content))
          (trim_space-Infix content))

    nothing : none ≡ some payload → ⊥
    nothing e = cc

    all : some bare ≡ some payload → bare ≡ payload
    all e = cc
