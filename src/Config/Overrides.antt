-- ===== src/Config/Overrides.antt =====
-- internal/gateway/config.go: which setting a model gets.
use ghcp_pool_go.Base.{
  ℕ, ◌≤◌, ◌≡◌, refl, sym, ap, ◌∙◌, subst, ◌⊎◌, inl, inr, true, false, Option, none, some, [], ◌∷◌,
  All, true_ne_false, ◌≢◌, ltb, Text, text_eq_iff, Dict, lookup, insert, lookup-insert, In, arith,
  Bool-cases, Option-cases, not-ltb→le, ltb→lt,
}
use ghcp_pool_go.Config.Models.{
  better, override_score, best_override, resolve_model_override, with_defaults,
}
use ghcp_pool_go.Glob.{glob_match}

-- Settings that are given stay as they are, and a default fills what is missing.
pub lookup-with_defaults :
    (settings defaults : Dict Text) (pattern : Text)
    → lookup pattern (with_defaults settings defaults)
      ≡ elim (lookup pattern settings) [ some kept ↦ some kept | none ↦ lookup pattern defaults ]
unfolding with_defaults lookup
lookup-with_defaults settings [] pattern = ground arith
lookup-with_defaults settings ((p, d) ∷ defaults) pattern =
    elim (Option-cases (lookup p settings)) [
      | inl e ↦
          rw (with_defaults, e)
            (ground (
              arith,
              lookup-with_defaults (insert p d settings) defaults pattern,
              lookup-insert p pattern d settings,
              text_eq_iff p pattern,
            ))
      | inr (k, e) ↦
          rw (with_defaults, e)
            (ground (arith, lookup-with_defaults settings defaults pattern, text_eq_iff p pattern))
    ]

-- The entries whose patterns match score at most `n`.
abbrev AtMost : Text → ℕ → Dict Text → Type 0
AtMost model n = All (λ e. glob_match e.0 model ≡ true → override_score e.0 ≤ n)

abbrev pub NoMatch : Text → Dict Text → Type 0
NoMatch model = All (λ e. glob_match e.0 model ≡ false)

-- An entry that matches with the score `n`, or the one before.
abbrev FoundAt : Text → Option (ℕ × Text) → Dict Text → ℕ → Text → Type 0
FoundAt model best rest n s =
    (best ≡ some (n, s))
    ⊎ ((p : Text) × In (p, s) rest × (glob_match p model ≡ true) × (override_score p ≡ n))

record Wins (model : Text) (best : Option (ℕ × Text)) (rest : Dict Text) (n : ℕ) (s : Text)
    : Type 0 where
  found : FoundAt model best rest n s
  at_most : AtMost model n rest
  beats : (m : ℕ) (t : Text) → best ≡ some (m, t) → m ≤ n

abbrev Won : Text → Option (ℕ × Text) → Dict Text → Option (ℕ × Text) → Type 0
Won model best rest none = (best ≡ none) × NoMatch model rest
Won model best rest (some (n, s)) = Wins model best rest n s

skips :
    (model p s : Text) (best r : Option (ℕ × Text)) (rest : Dict Text)
    → glob_match p model ≡ false
    → Won model best rest r
    → Won model best ((p, s) ∷ rest) r
skips model p s best none rest f (e, h) = (e, (f, h))
skips model p s best (some (n, t)) rest f w = record {
  found = later w.found;
  at_most = ((λ y. absurd (true_ne_false (sym y ∙ f))), w.at_most);
  beats = w.beats;
}
  where
    later : FoundAt model best rest n t → FoundAt model best ((p, s) ∷ rest) n t
    later (inl e) = inl e
    later (inr (q, m, y, c)) = inr (q, inr m, y, c)

-- The better of two is one of them, and as good as both.
record Better (best : Option (ℕ × Text)) (e : ℕ × Text) (r : Option (ℕ × Text)) : Type 0 where
  one : (r ≡ best) ⊎ (r ≡ some e)
  is_some : r ≢ none
  least : (n : ℕ) (t : Text) → r ≡ some (n, t) → e.0 ≤ n
  other : (n m : ℕ) (t u : Text) → r ≡ some (n, t) → best ≡ some (m, u) → m ≤ n

pair_eq : (a b : ℕ × Text) → some a ≡ some b → a ≡ b
pair_eq a b h = cc

score_eq : (a b : ℕ × Text) → some a ≡ some b → a.0 ≡ b.0
score_eq a b h = ap (λ e. e.0) (pair_eq a b h)

some_ne : (a : ℕ × Text) → some a ≢ none
some_ne a h = cc

better-Better : (best : Option (ℕ × Text)) (e : ℕ × Text) → Better best e (better best e)
better-Better none e = record {
  one = inr refl;
  is_some = some_ne e;
  least = λ n t q. omega (arith, score_eq e (n, t) q);
  other = λ n m t u q b. absurd (some_ne (m, u) (sym b));
}
better-Better (some k) e = elim (Bool-cases (ltb k.0 e.0)) [
  | inl y ↦
      rw (better, y)
        (record {
          one = inr refl;
          is_some = some_ne e;
          least = λ n t q. omega (arith, score_eq e (n, t) q);
          other = λ n m t u q b.
              omega (arith, score_eq e (n, t) q, score_eq k (m, u) b, ltb→lt k.0 e.0 y);
        })
  | inr f ↦
      rw (better, f)
        (record {
          one = inl refl;
          is_some = some_ne k;
          least = λ n t q. omega (arith, score_eq k (n, t) q, not-ltb→le k.0 e.0 f);
          other = λ n m t u q b. omega (arith, score_eq k (n, t) q, score_eq k (m, u) b);
        })
]

counts :
    (model p s : Text) (best b r : Option (ℕ × Text)) (rest : Dict Text)
    → glob_match p model ≡ true
    → Better best (override_score p, s) b
    → Won model b rest r
    → Won model best ((p, s) ∷ rest) r
counts model p s best b none rest y h (e, m) = absurd (h.is_some e)
counts model p s best b (some (n, t)) rest y h w = record {
  found = from w.found h.one;
  at_most = (
    (λ g. elim (Option-cases b) [
      | inl e ↦ absurd (h.is_some e)
      | inr (k, e) ↦ omega (arith, h.least k.0 k.1 e, w.beats k.0 k.1 e)
    ]),
    w.at_most,
  );
  beats = λ m u q. elim (Option-cases b) [
    | inl e ↦ absurd (h.is_some e)
    | inr (k, e) ↦ omega (arith, h.other k.0 m k.1 u e q, w.beats k.0 k.1 e)
  ];
}
  where
    from :
        FoundAt model b rest n t
        → (b ≡ best) ⊎ (b ≡ some (override_score p, s))
        → FoundAt model best ((p, s) ∷ rest) n t
    from (inr (q, m, g, c)) k = inr (q, inr m, g, c)
    from (inl e) (inl k) = inl (sym k ∙ e)
    from (inl e) (inr k) = this (pair_eq (override_score p, s) (n, t) (sym k ∙ e))
      where
        this : Path (ℕ × Text) (override_score p, s) (n, t) → FoundAt model best ((p, s) ∷ rest) n t
        this q = inr (p, inl (ap (λ x. (p, x.1)) (sym q)), y, ap (λ x. x.0) q)

best_override-Won :
    (model : Text) (best : Option (ℕ × Text)) (rest : Dict Text)
    → Won model best rest (best_override model best rest)
unfolding best_override
best_override-Won model none [] = (refl, tt)
best_override-Won model (some (n, s)) [] = record {
  found = inl refl;
  at_most = tt;
  beats = λ m t q. omega (arith, score_eq (n, s) (m, t) q);
}
best_override-Won model best ((p, s) ∷ rest) = elim (Bool-cases (glob_match p model)) [
  | inl y ↦
      rw (best_override, y)
        (counts model p s best (better best (override_score p, s))
          (best_override model (better best (override_score p, s)) rest) rest y
          (better-Better best (override_score p, s))
          (best_override-Won model (better best (override_score p, s)) rest))
  | inr f ↦
      rw (best_override, f)
        (skips model p s best (best_override model best rest) rest f
          (best_override-Won model best rest))
]

-- The setting of a pattern that matches, with the highest score of those that do.
abbrev pub IsBest : Text → Dict Text → Text → Type 0
IsBest model overrides setting =
    (p : Text) × In (p, setting) overrides
    × (glob_match p model ≡ true)
    × All (λ e. glob_match e.0 model ≡ true → override_score e.0 ≤ override_score p) overrides

-- resolveModelOverride gives the setting of a pattern that matches the model and scores as high as
-- every other pattern that does, whatever the order of the map; it gives the empty text where no
-- pattern matches.
pub resolve_model_override-IsBest :
    (model : Text) (overrides : Dict Text)
    → ((resolve_model_override model overrides ≡ []) × NoMatch model overrides)
      ⊎ IsBest model overrides (resolve_model_override model overrides)
unfolding resolve_model_override
resolve_model_override-IsBest model overrides =
    by_result (best_override model none overrides) (best_override-Won model none overrides)
  where
    by_result :
        (r : Option (ℕ × Text))
        → Won model none overrides r
        → ((elim r [ none ↦ [] | some (score, setting) ↦ setting ] ≡ []) × NoMatch model overrides)
          ⊎ IsBest model overrides (elim r [ none ↦ [] | some (score, setting) ↦ setting ])
    by_result none w = inl (refl, w.1)
    by_result (some (n, s)) w = found w.found
      where
        found :
            FoundAt model none overrides n s
            → ((s ≡ []) × NoMatch model overrides) ⊎ IsBest model overrides s
        found (inl e) = absurd (some_ne (n, s) (sym e))
        found (inr (p, m, y, c)) =
            inr (p, m, y, subst (λ k. AtMost model k overrides) (sym c) w.at_most)
