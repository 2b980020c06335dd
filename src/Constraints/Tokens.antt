-- ===== src/Constraints/Tokens.antt =====
-- internal/gateway/copilot_http.go: truncateApproxTokens keeps to the limit, by the count of
-- approxTokens.
use ghcp_pool_go.Base.{
  ℕ, ◌+◌, ◌≤◌, ◌<◌, ◌≡◌, refl, Bool, true, false, some, [], ◌∷◌, if◌then◌else◌, leb, Text, arith,
  Bool-cases, Option-cases, inl, inr, ◌||◌, Prefix, Prefix-refl, Prefix-trans,
}
use ghcp_pool_go.Constraints.{
  is_wide_script_rune, wide_count, narrow_count, token_sum, approx_tokens, fits, up_to_blank,
  at_boundary, trim_right, truncate_approx_tokens,
}

counts_prefix :
    (s t : Text) → Prefix s t → (wide_count s ≤ wide_count t) × (narrow_count s ≤ narrow_count t)
unfolding wide_count narrow_count
counts_prefix [] t h = (omega arith, omega arith)
counts_prefix (c ∷ s) [] h = absurd h
counts_prefix (c ∷ s) (d ∷ t) h =
    let (a, b) = counts_prefix s t h.1 in rw h.0 (omega (arith, a), omega (arith, b))

fits-Prefix : (limit w n : ℕ) (s : Text) → Prefix (fits limit w n s) s
unfolding fits
fits-Prefix limit w n [] = tt
fits-Prefix limit w n (c ∷ s) = elim (Bool-cases (is_wide_script_rune c)) [
  | inl y ↦ rw y (ground (arith, fits-Prefix limit (w + 1) n s))
  | inr f ↦ rw f (ground (arith, fits-Prefix limit w (n + 1) s))
]

fits-le :
    (limit w n : ℕ) (s : Text)
    → token_sum w n ≤ limit
    → token_sum (w + wide_count (fits limit w n s)) (n + narrow_count (fits limit w n s)) ≤ limit
unfolding fits wide_count narrow_count
fits-le limit w n [] h = omega (arith, h)
fits-le limit w n (c ∷ s) h = elim (Bool-cases (is_wide_script_rune c)) [
  | inl y ↦ rw y (ground (arith, fits-le limit (w + 1) n s))
  | inr f ↦ rw f (ground (arith, fits-le limit w (n + 1) s))
]

up_to_blank-Prefix : (s head : Text) → up_to_blank s ≡ some head → Prefix head s
unfolding up_to_blank
up_to_blank-Prefix [] head h = absurd (cc)
up_to_blank-Prefix (c ∷ s) [] h = tt
up_to_blank-Prefix (c ∷ s) (d ∷ head) h = ground (arith, up_to_blank-Prefix s head)

at_boundary-Prefix : (s : Text) → Prefix (at_boundary s) s
at_boundary-Prefix s = elim (Option-cases (up_to_blank s)) [
  | inl e ↦ rw (Prefix, e) (Prefix-refl s)
  | inr (head, e) ↦ rw (Prefix, e) (chosen head (up_to_blank-Prefix s head e))
]
  where
    chosen : (head : Text) → Prefix head s → Prefix (elim head [ [] ↦ s | c ∷ t ↦ c ∷ t ]) s
    chosen [] h = Prefix-refl s
    chosen (c ∷ t) h = h

trim_right-Prefix : (s : Text) → Prefix (trim_right s) s
unfolding trim_right
trim_right-Prefix [] = tt
trim_right-Prefix (c ∷ s) = ground (arith, trim_right-Prefix s)

approx_tokens-le :
    (s : Text) (limit : ℕ)
    → 0 < limit
    → token_sum (wide_count s) (narrow_count s) ≤ limit
    → approx_tokens s ≤ limit
unfolding approx_tokens
approx_tokens-le s limit p h = ground arith

abbrev Kept : Text → ℕ → Text → Type 0
Kept content limit s = Prefix s content × (approx_tokens s ≤ limit)

within_limit : (n limit : ℕ) → 0 < limit → (leb limit 0 || leb n limit) ≡ true → n ≤ limit
within_limit n limit p h = ground arith

whole-Kept :
    (content : Text) (limit : ℕ)
    → 0 < limit
    → (leb limit 0 || leb (approx_tokens content) limit) ≡ true
    → Kept content limit content
whole-Kept content limit p h = (Prefix-refl content, within_limit (approx_tokens content) limit p h)

cut-Kept :
    (content s : Text) (limit : ℕ)
    → 0 < limit
    → Prefix s (fits limit 0 0 content)
    → Kept content limit s
cut-Kept content s limit p h = (
  Prefix-trans s (fits limit 0 0 content) content h (fits-Prefix limit 0 0 content),
  approx_tokens-le s limit p (below (counts_prefix s (fits limit 0 0 content) h)),
)
  where
    below :
        (wide_count s ≤ wide_count (fits limit 0 0 content))
          × (narrow_count s ≤ narrow_count (fits limit 0 0 content))
        → token_sum (wide_count s) (narrow_count s) ≤ limit
    below (a, b) = omega (arith, a, b, fits-le limit 0 0 content (omega arith))

-- For a positive limit, truncateApproxTokens returns a start of the content whose tokens, as
-- approxTokens counts them, are at most the limit.
pub truncate_approx_tokens-le :
    (content : Text) (limit : ℕ)
    → 0 < limit
    → Prefix (truncate_approx_tokens content limit).0 content
      × (approx_tokens (truncate_approx_tokens content limit).0 ≤ limit)
unfolding truncate_approx_tokens
truncate_approx_tokens-le content limit p =
    elim (Bool-cases (leb limit 0 || leb (approx_tokens content) limit)) [
      | inl y ↦ rw (truncate_approx_tokens, y) (whole-Kept content limit p y)
      | inr f ↦
          rw (truncate_approx_tokens, f)
            (cut-Kept content (trim_right (at_boundary head)) limit p (
              Prefix-trans (trim_right (at_boundary head)) (at_boundary head) head
                (trim_right-Prefix (at_boundary head)) (at_boundary-Prefix head)))
    ]
  where
    head : Text
    head = fits limit 0 0 content

abbrev either_one : Bool → Text → Text → Text × Bool
either_one b x y = if b then (x, false) else (y, true)

untouched : (b : Bool) (x y : Text) → (either_one b x y).1 ≡ false → (either_one b x y).0 ≡ x
untouched true x y h = refl
untouched false x y h = absurd (cc)

pub truncate_approx_tokens_unchanged :
    (content : Text) (limit : ℕ)
    → (truncate_approx_tokens content limit).1 ≡ false
    → (truncate_approx_tokens content limit).0 ≡ content
unfolding truncate_approx_tokens
truncate_approx_tokens_unchanged content limit h =
    untouched (leb limit 0 || leb (approx_tokens content) limit) content
      (trim_right (at_boundary (fits limit 0 0 content))) h
