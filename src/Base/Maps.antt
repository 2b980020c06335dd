-- ===== src/Base/Maps.antt =====
-- Go's map with text keys, as an association list. Iteration order is not modelled: where the
-- source ranges over a map, the model says what it assumes of the order.
use Prim.Native.Nat.{◌+◌, ◌≤◌}
use mathlib.Core.Path.{◌≡◌, refl}
use mathlib.Core.List.{List, [], ◌∷◌, ◌++◌, map}
use mathlib.Core.Option.{Option, none, some}
use native.Mathlib.Omega.{arith}
use ghcp_pool_go.Base.Tests.{if◌then◌else◌}
use ghcp_pool_go.Base.Lists.{length}
use ghcp_pool_go.Base.Strings.{Text, text_eq, text_eq_iff}

abbrev pub Dict {ℓ} : Type ℓ → Type ℓ
Dict V = List (Text × V)

module _ {ℓ} {V : Type ℓ} where
  unfoldable pub lookup : Text → Dict V → Option V
  lookup k [] = none
  lookup k ((j, v) ∷ m) = if text_eq j k then some v else lookup k m

  unfoldable pub insert : Text → V → Dict V → Dict V
  insert k v [] = (k, v) ∷ []
  insert k v ((j, w) ∷ m) = if text_eq j k then (k, v) ∷ m else (j, w) ∷ insert k v m

  unfoldable pub delete : Text → Dict V → Dict V
  delete k [] = []
  delete k ((j, w) ∷ m) = if text_eq j k then delete k m else (j, w) ∷ delete k m

  abbrev pub keys : Dict V → List Text
  keys = map (λ e. e.0)

  pub lookup-insert :
      (k j : Text) (v : V) (m : Dict V)
      → lookup j (insert k v m) ≡ (if text_eq k j then some v else lookup j m)
  unfolding lookup insert
  lookup-insert k j v [] = refl
  lookup-insert k j v ((i, w) ∷ m) =
      ground (arith, text_eq_iff k j, text_eq_iff i k, text_eq_iff i j, lookup-insert k j v m)

  pub lookup-delete :
      (k j : Text) (m : Dict V) → lookup j (delete k m) ≡ (if text_eq k j then none else lookup j m)
  unfolding lookup delete
  lookup-delete k j [] = ground arith
  lookup-delete k j ((i, w) ∷ m) =
      ground (arith, text_eq_iff k j, text_eq_iff i k, text_eq_iff i j, lookup-delete k j m)

  -- No key is bound twice.
  abbrev pub Unique : Dict V → Type ℓ
  Unique [] = Unit
  Unique ((k, v) ∷ m) = (lookup k m ≡ none) × Unique m

  pub insert-Unique : (k : Text) (v : V) (m : Dict V) → Unique m → Unique (insert k v m)
  unfolding insert lookup
  insert-Unique k v [] u = (refl, tt)
  insert-Unique k v ((i, w) ∷ m) u =
      ground (arith, text_eq_iff i k, text_eq_iff k i, lookup-insert k i v m, insert-Unique k v m)

  pub delete-Unique : (k : Text) (m : Dict V) → Unique m → Unique (delete k m)
  unfolding delete lookup
  delete-Unique k [] u = tt
  delete-Unique k ((i, w) ∷ m) u = ground (arith, lookup-delete k i m, delete-Unique k m u.1)

  pub length-insert-le : (k : Text) (v : V) (m : Dict V) → length (insert k v m) ≤ length m + 1
  unfolding insert
  length-insert-le k v [] = omega arith
  length-insert-le k v ((i, w) ∷ m) = ground (arith, length-insert-le k v m)

  pub delete-missing : (k : Text) (m : Dict V) → lookup k m ≡ none → delete k m ≡ m
  unfolding delete lookup
  delete-missing k [] h = refl
  delete-missing k ((i, w) ∷ m) h = ground (arith, delete-missing k m)

  pub length-delete :
      (k : Text) (v : V) (m : Dict V)
      → Unique m
      → lookup k m ≡ some v
      → length (delete k m) + 1 ≡ length m
  unfolding delete lookup
  length-delete k v [] u h = absurd (cc)
  length-delete k v ((i, w) ∷ m) u h =
      ground (arith, text_eq_iff i k, delete-missing k m, length-delete k v m u.1)

  -- The entry goes to the end under its own key, as the newest.
  pub lookup-append :
      (k j : Text) (v : V) (m : Dict V)
      → lookup j (m ++ (k, v) ∷ [])
        ≡ elim (lookup j m) [ some w ↦ some w | none ↦ if text_eq k j then some v else none ]
  unfolding lookup
  lookup-append k j v [] = refl
  lookup-append k j v ((i, w) ∷ m) = ground (arith, lookup-append k j v m)

  pub append-Unique :
      (k : Text) (v : V) (m : Dict V) → Unique m → lookup k m ≡ none → Unique (m ++ (k, v) ∷ [])
  unfolding lookup
  append-Unique k v [] u h = (refl, tt)
  append-Unique k v ((i, w) ∷ m) u h =
      ground
        (arith, lookup-append k i v m, text_eq_iff i k, text_eq_iff k i, append-Unique k v m u.1)
