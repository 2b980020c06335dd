-- ===== src/Constraints/Stops.antt =====
-- internal/gateway/copilot_http.go: applyStopSequences cuts before the first stop sequence.
use ghcp_pool_go.Base.{
  ℕ, zero, suc, ◌≤◌, ◌≡◌, refl, Bool, true, false, Option, none, some, List, [], ◌∷◌, take, Text,
  is_empty, has_prefix, All, arith, Bool-cases, Option-cases, Prefix, Prefix-take, Prefix-refl, In,
  take_all, length, subst, inl, inr, ◌⊎◌,
}
use ghcp_pool_go.Constraints.{index_of, cut_at, earlier, stops_of, apply_stop_sequences}
use ghcp_pool_go.Json.{Value}

has_prefix-take : (n : ℕ) (s t : Text) → has_prefix s t ≡ false → has_prefix (take n s) t ≡ false
unfolding has_prefix
has_prefix-take n s [] h = absurd (cc)
has_prefix-take zero s (d ∷ t) h = refl
has_prefix-take (suc n) [] (d ∷ t) h = refl
has_prefix-take (suc n) (c ∷ s) (d ∷ t) h = ground (arith, has_prefix-take n s t)

-- An index, if there is one, is not before `n`.
abbrev FromOn : ℕ → Option ℕ → Type 0
FromOn n none = Unit
FromOn n (some i) = n ≤ i

shifted :
    (n : ℕ) (o : Option ℕ)
    → FromOn (suc n) (elim o [ none ↦ none | some i ↦ some (suc i) ])
    → FromOn n o
shifted n none h = tt
shifted n (some i) h = omega (arith, h)

-- No occurrence that starts at `n` or later survives the cut at `n`.
index_of-take :
    (n : ℕ) (s : Text) (d : ℕ) (t : Text)
    → FromOn n (index_of s (d ∷ t))
    → index_of (take n s) (d ∷ t) ≡ none
unfolding index_of
index_of-take zero s d t h = refl
index_of-take (suc n) [] d t h = refl
index_of-take (suc n) (c ∷ s) d t h = elim (Bool-cases (has_prefix (c ∷ s) (d ∷ t))) [
  | inl y ↦ absurd (omega (arith, at_start y))
  | inr f ↦
      rw
        (
          has_prefix-take (suc n) (c ∷ s) (d ∷ t) f,
          index_of-take n s d t (shifted n (index_of s (d ∷ t)) (rw f at h)),
        )
        refl
]
  where
    at_start : has_prefix (c ∷ s) (d ∷ t) ≡ true → suc n ≤ 0
    at_start y = rw y at h

FromOn-earlier : (n : ℕ) (o cut : Option ℕ) → FromOn n (earlier o cut) → FromOn n o × FromOn n cut
FromOn-earlier n none cut h = (tt, h)
FromOn-earlier n (some i) none h = (h, tt)
FromOn-earlier n (some i) (some j) h = ground arith

-- The cut is not after the first occurrence of any stop sequence.
FromOn-cut_at :
    (n : ℕ) (content : Text) (stops : List Text) (cut : Option ℕ)
    → FromOn n (cut_at content stops cut)
    → FromOn n cut × All (λ stop. is_empty stop ≡ false → FromOn n (index_of content stop)) stops
unfolding cut_at
FromOn-cut_at n content [] cut h = (h, tt)
FromOn-cut_at n content ([] ∷ stops) cut h =
    let (a, b) = FromOn-cut_at n content stops cut h in (a, ((λ e. absurd (cc)), b))
FromOn-cut_at n content ((d ∷ t) ∷ stops) cut h =
    let (a, b) = FromOn-cut_at n content stops (earlier (index_of content (d ∷ t)) cut) h in
    let (x, y) = FromOn-earlier n (index_of content (d ∷ t)) cut a in (y, ((λ e. x), b))

-- A text in which no stop sequence occurs.
abbrev pub StopFree : List Text → Text → Type 0
StopFree stops s = All (λ stop. is_empty stop ≡ false → index_of s stop ≡ none) stops

take-StopFree :
    (n : ℕ) (s : Text) (stops : List Text)
    → All (λ stop. is_empty stop ≡ false → FromOn n (index_of s stop)) stops
    → StopFree stops (take n s)
take-StopFree n s [] a = tt
take-StopFree n s ([] ∷ stops) a = ((λ e. absurd (cc)), take-StopFree n s stops a.1)
take-StopFree n s ((d ∷ t) ∷ stops) a =
    ((λ e. index_of-take n s d t (a.0 e)), take-StopFree n s stops a.1)

-- A cut is at the first occurrence of one of the stop sequences.
abbrev StartsAt : ℕ → Text → List Text → Type 0
StartsAt n content stops =
    (stop : Text) × In stop stops × (is_empty stop ≡ false) × (index_of content stop ≡ some n)

earlier-cases : (o cut : Option ℕ) (n : ℕ) → earlier o cut ≡ some n → (o ≡ some n) ⊎ (cut ≡ some n)
earlier-cases none cut n h = inr h
earlier-cases (some i) none n h = inl h
earlier-cases (some i) (some j) n h = ground arith

cut_at-StartsAt :
    (content : Text) (stops : List Text) (cut : Option ℕ) (n : ℕ)
    → cut_at content stops cut ≡ some n
    → (cut ≡ some n) ⊎ StartsAt n content stops
unfolding cut_at
cut_at-StartsAt content [] cut n h = inl h
cut_at-StartsAt content ([] ∷ stops) cut n h = later (cut_at-StartsAt content stops cut n h)
  where
    later :
        (cut ≡ some n) ⊎ StartsAt n content stops → (cut ≡ some n) ⊎ StartsAt n content ([] ∷ stops)
    later (inl e) = inl e
    later (inr (stop, m, e, i)) = inr (stop, inr m, e, i)
cut_at-StartsAt content ((d ∷ t) ∷ stops) cut n h =
    here (cut_at-StartsAt content stops (earlier (index_of content (d ∷ t)) cut) n h)
  where
    here :
        (earlier (index_of content (d ∷ t)) cut ≡ some n) ⊎ StartsAt n content stops
        → (cut ≡ some n) ⊎ StartsAt n content ((d ∷ t) ∷ stops)
    here (inl e) = elim (earlier-cases (index_of content (d ∷ t)) cut n e) [
      | inl first ↦ inr (d ∷ t, inl refl, refl, first)
      | inr same ↦ inl same
    ]
    here (inr (stop, m, e, i)) = inr (stop, inr m, e, i)

-- What cutting a text at its stop sequences has to give.
pub record IsCut (stops : List Text) (content : Text) (r : Text × Bool) : Type 0 where
  pub stop_free : StopFree stops r.0
  pub unchanged : r.1 ≡ false → r.0 ≡ content
  pub start : Prefix r.0 content
  pub minimal : r.1 ≡ true → (n : ℕ) × (r.0 ≡ take n content) × StartsAt n content stops

-- The text that applyStopSequences returns contains no stop sequence; it is the content where it
-- reports no stop, and where it reports one it is the content up to a place at which one of the
-- stop sequences occurs for the first time.
pub apply_stop_sequences-IsCut :
    (content : Text) (value : Value)
    → IsCut (stops_of value) content (apply_stop_sequences content value)
unfolding apply_stop_sequences
apply_stop_sequences-IsCut content value =
    elim (Option-cases (cut_at content (stops_of value) none)) [
      | inl e ↦
          rw (apply_stop_sequences, e)
            (record {
              stop_free = subst (StopFree (stops_of value)) (take_all content) (
                  take-StopFree (length content) content (stops_of value)
                    (all_from (length content) (rw e tt)));
              unchanged = λ h. refl;
              start = Prefix-refl content;
              minimal = λ h. absurd (cc);
            })
      | inr (n, e) ↦
          rw (apply_stop_sequences, e)
            (record {
              stop_free =
                  take-StopFree n content (stops_of value) (all_from n (rw e (omega arith)));
              unchanged = λ h. absurd (cc);
              start = Prefix-take n content;
              minimal = λ h. (n, refl, started n e);
            })
    ]
  where
    all_from :
        (n : ℕ)
        → FromOn n (cut_at content (stops_of value) none)
        → All (λ stop. is_empty stop ≡ false → FromOn n (index_of content stop)) (stops_of value)
    all_from n h = (FromOn-cut_at n content (stops_of value) none h).1

    started :
        (n : ℕ)
        → cut_at content (stops_of value) none ≡ some n
        → StartsAt n content (stops_of value)
    started n e = elim (cut_at-StartsAt content (stops_of value) none n e) [
      | inl nothing ↦ absurd (cc)
      | inr s ↦ s
    ]

prefix_take : (s t : Text) → Prefix s t → take (length s) t ≡ s
prefix_take [] t h = refl
prefix_take (c ∷ s) [] h = absurd h
prefix_take (c ∷ s) (d ∷ t) h = grind (arith, h.0, prefix_take s t h.1)

-- A start of a text without stop sequences has none.
pub Prefix-StopFree :
    (s t : Text) (stops : List Text) → Prefix s t → StopFree stops t → StopFree stops s
Prefix-StopFree s t stops h f =
    subst (StopFree stops) (prefix_take s t h)
      (take-StopFree (length s) t stops (from_none stops f))
  where
    from_none :
        (stops : List Text)
        → StopFree stops t
        → All (λ stop. is_empty stop ≡ false → FromOn (length s) (index_of t stop)) stops
    from_none [] f = tt
    from_none (stop ∷ rest) f = ((λ e. rw (f.0 e) tt), from_none rest f.1)
