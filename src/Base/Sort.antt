-- ===== src/Base/Sort.antt =====
-- Go's sort.Slice and sort.Strings as an insertion sort, and their guarantees.
use mathlib.Core.Logic.{inl, inr}
use mathlib.Core.Path.{◌≡◌, refl, ap, ◌∙◌}
use Prim.Native.Nat.{suc}
use mathlib.Core.Bool.{Bool, true, false}
use mathlib.Core.List.{List, [], ◌∷◌}
use native.Mathlib.Omega.{arith}
use ghcp_pool_go.Base.Tests.{if◌then◌else◌, ltb, ◌==◌}
use ghcp_pool_go.Base.Lists.{In, length}
use ghcp_pool_go.Base.Strings.{Text}

module _ {ℓ} {A : Type ℓ} (less : A → A → Bool) where
  unfoldable pub insert_by : A → List A → List A
  insert_by a [] = a ∷ []
  insert_by a (x ∷ xs) = if less x a then x ∷ insert_by a xs else a ∷ x ∷ xs

  unfoldable pub sort_by : List A → List A
  unfolding insert_by
  sort_by [] = []
  sort_by (x ∷ xs) = insert_by x (sort_by xs)

module _ {A : Type 0} (less : A → A → Bool) where
  In-insert_by : (a b : A) (xs : List A) → In b (a ∷ xs) → In b (insert_by less a xs)
  unfolding insert_by
  In-insert_by a b [] m = m
  In-insert_by a b (x ∷ xs) m = ground (arith, In-insert_by a b xs)

  insert_by-In : (a b : A) (xs : List A) → In b (insert_by less a xs) → In b (a ∷ xs)
  unfolding insert_by
  insert_by-In a b [] m = m
  insert_by-In a b (x ∷ xs) m = ground (arith, insert_by-In a b xs)

  pub In-sort_by : (a : A) (xs : List A) → In a xs → In a (sort_by less xs)
  unfolding sort_by
  In-sort_by a [] m = m
  In-sort_by a (x ∷ xs) (inl e) = In-insert_by x a (sort_by less xs) (inl e)
  In-sort_by a (x ∷ xs) (inr m) = In-insert_by x a (sort_by less xs) (inr (In-sort_by a xs m))

  pub sort_by-In : (a : A) (xs : List A) → In a (sort_by less xs) → In a xs
  unfolding sort_by
  sort_by-In a [] m = m
  sort_by-In a (x ∷ xs) m = step (sort_by-In a xs) (insert_by-In x a (sort_by less xs) m)
    where
      step : (In a (sort_by less xs) → In a xs) → In a (x ∷ sort_by less xs) → In a (x ∷ xs)
      step ih (inl e) = inl e
      step ih (inr m) = inr (ih m)

-- The order of Go's strings, code point by code point.
unfoldable pub text_lt : Text → Text → Bool
text_lt [] [] = false
text_lt [] (d ∷ t) = true
text_lt (c ∷ s) [] = false
text_lt (c ∷ s) (d ∷ t) = if ltb c d then true else if c == d then text_lt s t else false

-- sort.Strings
abbrev pub sort_texts : List Text → List Text
sort_texts = sort_by text_lt

module _ {ℓ} {A : Type ℓ} (less : A → A → Bool) where
  length-insert_by : (a : A) (xs : List A) → length (insert_by less a xs) ≡ suc (length xs)
  unfolding insert_by
  length-insert_by a [] = refl
  length-insert_by a (x ∷ xs) = ground (arith, length-insert_by a xs)

  pub length-sort_by : (xs : List A) → length (sort_by less xs) ≡ length xs
  unfolding sort_by
  length-sort_by [] = refl
  length-sort_by (x ∷ xs) = length-insert_by x (sort_by less xs) ∙ ap suc (length-sort_by xs)
