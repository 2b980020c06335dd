-- ===== src/Router/Picking.antt =====
-- What `pick` chooses, strategy by strategy, and that it does not go out of range.
use ghcp_pool_go.Account
use ghcp_pool_go.Account.{Account}
use ghcp_pool_go.Base.{
  ℕ, ◌*◌, ◌≤◌, ◌<◌, ◌≡◌, refl, ap, sym, subst, ◌∙◌, ◌⊎◌, inl, inr, Bool, true, false, List, [], ◌∷◌,
  arith, In, Text, IsWeakOrder, Bool-cases, Option-cases, if◌then◌else◌,
}
use ghcp_pool_go.Pool.{Pool, get}
use ghcp_pool_go.Router.{measure, weight_of, min_by, lighter, less_busy, smarter}

module _ {A : Type 0} (less : A → A → Bool) (w : IsWeakOrder less) where
  pub min_by-In : (best : A) (xs : List A) → In (min_by less best xs) (best ∷ xs)
  unfolding min_by
  min_by-In best [] = inl refl
  min_by-In best (x ∷ xs) = elim (Bool-cases (less x best)) [
    | inl t ↦ subst (λ z. In z (best ∷ x ∷ xs)) (step true t) (inr (min_by-In x xs))
    | inr f ↦ subst (λ z. In z (best ∷ x ∷ xs)) (step false f) (skip (min_by-In best xs))
  ]
    where
      step :
          (b : Bool)
          → less x best ≡ b
          → min_by less (if b then x else best) xs ≡ min_by less best (x ∷ xs)
      step b e = ap (λ c. min_by less (if c then x else best) xs) (sym e)

      skip : In (min_by less best xs) (best ∷ xs) → In (min_by less best xs) (best ∷ x ∷ xs)
      skip (inl e) = inl e
      skip (inr m) = inr (inr m)

  -- The scan never gets worse than where it starts, nor than anything that it has passed.
  pub min_by-least :
      (best : A) (xs : List A) (a : A)
      → (less a best ≡ false) ⊎ In a xs
      → less a (min_by less best xs) ≡ false
  unfolding min_by
  min_by-least best [] a (inl h) = h
  min_by-least best [] a (inr m) = elim m [ ]
  min_by-least best (x ∷ xs) a h = elim (Bool-cases (less x best)) [
    | inl t ↦ rw t (min_by-least x xs a (better t h))
    | inr f ↦ rw f (min_by-least best xs a (same f h))
  ]
    where
      better :
          less x best ≡ true → (less a best ≡ false) ⊎ In a (x ∷ xs) → (less a x ≡ false) ⊎ In a xs
      better t (inl h) = inl (w.cotrans a best x h (w.asym x best t))
      better t (inr (inl e)) = inl (ap (λ z. less z x) e ∙ irrefl x)
        where
          irrefl : (y : A) → less y y ≡ false
          irrefl y = elim (Bool-cases (less y y)) [ inl u ↦ w.asym y y u | inr f ↦ f ]
      better t (inr (inr m)) = inr m

      same :
          less x best ≡ false
          → (less a best ≡ false) ⊎ In a (x ∷ xs)
          → (less a best ≡ false) ⊎ In a xs
      same f (inl h) = inl h
      same f (inr (inl e)) = inl (ap (λ z. less z best) e ∙ f)
      same f (inr (inr m)) = inr m

pub less_busy-IsWeakOrder : (p : Pool) → IsWeakOrder (less_busy p)
less_busy-IsWeakOrder p = record {
  asym = λ a b h. ground arith;
  cotrans = λ a b c h k. ground arith;
}

pub smarter-IsWeakOrder : (p : Pool) (now : ℕ) → IsWeakOrder (smarter p now)
smarter-IsWeakOrder p now = record {
  asym = λ a b h. ground arith;
  cotrans = λ a b c h k. ground arith;
}

-- With positive weights the comparison across the denominators is transitive.
mul_mono : (a b r : ℕ) → a ≤ b → a * r ≤ b * r
mul_mono a b r h = grind arith

mul_cancel : (a b r : ℕ) → 0 < r → a * r ≤ b * r → a ≤ b
mul_cancel a b r pos h = grind arith

fraction_trans : (a b c x y z : ℕ) → 0 < y → b * x ≤ a * y → c * y ≤ b * z → c * x ≤ a * z
fraction_trans a b c x y z pos h k =
    mul_cancel (c * x) (a * z) y pos
      (omega (arith, mul_mono (c * y) (b * z) x k, mul_mono (b * x) (a * y) z h))

weight-pos : (a : Account) → 0 < Account.weight a
unfolding Account.weight
weight-pos a = ground arith

weight_of-pos : (p : Pool) (id : Text) → 0 < weight_of p id
weight_of-pos p id = elim (Option-cases (get p id)) [
  | inl e ↦ rw (e, weight_of) (omega arith)
  | inr (a, e) ↦ rw (e, weight_of) (weight-pos a)
]

pub lighter-IsWeakOrder : (p : Pool) → IsWeakOrder (lighter p)
lighter-IsWeakOrder p = record {
  asym = λ a b h. ground arith;
  cotrans = λ a b c h k. ground (
    arith,
    fraction_trans (load a) (load b) (load c) (weight_of p a) (weight_of p b) (weight_of p c)
        (weight_of-pos p b),
  );
}
  where
    load : Text → ℕ
    load = measure p (λ x. x.in_flight)
