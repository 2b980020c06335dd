-- ===== src/Base/Order.antt =====
-- Strict weak orders given by a test: the head of a sorted list and the result of a scan for the
-- minimum are least.
use mathlib.Core.Path.{◌≡◌, ap, subst, ◌∙◌}
use mathlib.Core.Logic.{inl, inr}
use mathlib.Core.Bool.{Bool, true, false}
use mathlib.Core.List.{List, [], ◌∷◌}
use native.Mathlib.Omega.{arith}
use ghcp_pool_go.Base.Tests.{Bool-cases}
use ghcp_pool_go.Base.Lists.{In, All}
use ghcp_pool_go.Base.Sort.{insert_by, sort_by, In-sort_by}

-- What sort.Slice asks of its comparison.
pub record IsWeakOrder {A : Type 0} (less : A → A → Bool) : Type 0 where
  pub asym : (a b : A) → less a b ≡ true → less b a ≡ false
  pub cotrans : (a b c : A) → less a b ≡ false → less b c ≡ false → less a c ≡ false

module _ {A : Type 0} (less : A → A → Bool) (w : IsWeakOrder less) where
  less_irrefl : (a : A) → less a a ≡ false
  less_irrefl a = elim (Bool-cases (less a a)) [ inl t ↦ w.asym a a t | inr f ↦ f ]

  -- No element comes before `x`.
  abbrev Least : A → List A → Type 0
  Least x = All (λ y. less y x ≡ false)

  Least-mono : (x y : A) (xs : List A) → less x y ≡ false → Least x xs → Least y xs
  Least-mono x y [] h l = tt
  Least-mono x y (z ∷ xs) h l = (w.cotrans z x y l.0 h, Least-mono x y xs h l.1)

  Least-In : (x a : A) (xs : List A) → Least x xs → In a xs → less a x ≡ false
  Least-In x a [] l m = elim m [ ]
  Least-In x a (y ∷ xs) l (inl e) = ap (λ z. less z x) e ∙ l.0
  Least-In x a (y ∷ xs) l (inr m) = Least-In x a xs l.1 m

  abbrev LeastHead : List A → Type 0
  LeastHead [] = Unit
  LeastHead (x ∷ xs) = Least x xs

  Least-insert_by :
      (x a : A) (xs : List A) → less a x ≡ false → Least x xs → Least x (insert_by less a xs)
  unfolding insert_by
  Least-insert_by x a [] h l = (h, tt)
  Least-insert_by x a (y ∷ xs) h l = ground (arith, Least-insert_by x a xs h l.1)

  LeastHead-insert_by : (a : A) (xs : List A) → LeastHead xs → LeastHead (insert_by less a xs)
  unfolding insert_by
  LeastHead-insert_by a [] l = tt
  LeastHead-insert_by a (x ∷ xs) l = elim (Bool-cases (less x a)) [
    | inl t ↦ rw t (Least-insert_by x a xs (w.asym x a t) l)
    | inr f ↦ rw f (f, Least-mono x a xs f l)
  ]

  LeastHead-sort_by : (xs : List A) → LeastHead (sort_by less xs)
  unfolding sort_by
  LeastHead-sort_by [] = tt
  LeastHead-sort_by (x ∷ xs) = LeastHead-insert_by x (sort_by less xs) (LeastHead-sort_by xs)

  -- The first element of a sorted list is least.
  pub sort_by-least :
      (xs : List A) (x : A) (rest : List A)
      → sort_by less xs ≡ x ∷ rest
      → (a : A) → In a xs
      → less a x ≡ false
  sort_by-least xs x rest e a m = at_head (subst (In a) e (In-sort_by less a xs m))
    where
      at_head : In a (x ∷ rest) → less a x ≡ false
      at_head (inl same) = ap (λ z. less z x) same ∙ less_irrefl x
      at_head (inr later) = Least-In x a rest (subst LeastHead e (LeastHead-sort_by xs)) later
