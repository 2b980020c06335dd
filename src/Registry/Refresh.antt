-- ===== src/Registry/Refresh.antt =====
-- RefreshAccount: the index afterwards.
use ghcp_pool_go.Base.{
  ℕ, ◌≡◌, refl, ◌∙◌, Bool, true, false, Option, none, some, List, [], ◌∷◌, arith, if◌then◌else◌,
  Text, text_eq, text_eq_iff, lookup, insert, lookup-insert, lookup-delete, Unique, insert-Unique,
  Bool-cases, Option-cases, inl, inr, Result, ok, err, Result-cases,
}
use ghcp_pool_go.Pool.{Pool, Services, get}
use ghcp_pool_go.Registry.{
  Registry, ModelSpec, Index, specs_for, index_specs, forget_account, drop_unserved,
  refresh_account,
}

-- What the index says of a model at an account.
abbrev pub served : Index → Text → Text → Option ModelSpec
served index model id = lookup id (specs_for index model)

-- The last specification of the list for the model, or what was there before.
abbrev pub last_spec : Text → List ModelSpec → Option ModelSpec → Option ModelSpec
last_spec model [] before = before
last_spec model (spec ∷ specs) before =
    last_spec model specs (if text_eq spec.id model then some spec else before)

served-forget_account :
    (id model j : Text) (index : Index)
    → served (forget_account id index) model j
      ≡ (if text_eq id j then none else served index model j)
unfolding specs_for lookup
served-forget_account id model j [] = ground arith
served-forget_account id model j ((k, specs) ∷ index) =
    ground (arith, lookup-delete id j specs, served-forget_account id model j index)

served-insert :
    (k model id j : Text) (spec : ModelSpec) (index : Index)
    → served (insert k (insert id spec (specs_for index k)) index) model j ≡ (
        if text_eq k model
        then (if text_eq id j then some spec else served index model j)
        else served index model j)
unfolding specs_for
served-insert k model id j spec index = ground (
  arith,
  text_eq_iff k model,
  lookup-insert k model (insert id spec (specs_for index k)) index,
  lookup-insert id j spec (specs_for index k),
)

served-index_specs :
    (id model j : Text) (specs : List ModelSpec) (index : Index)
    → served (index_specs id specs index) model j ≡ (
        if text_eq id j then last_spec model specs (served index model j) else served index model j)
unfolding index_specs
served-index_specs id model j [] index = ground arith
served-index_specs id model j (spec ∷ specs) index =
    served-index_specs id model j specs
      (insert spec.id (insert id spec (specs_for index spec.id)) index)
    ∙ rw (served-insert spec.id model id j spec index)
        (split (text_eq id j) (text_eq spec.id model))
  where
    split :
        (same own : Bool)
        → (if same
            then last_spec model specs (
                if own
                then (if same then some spec else served index model j)
                else served index model j)
            else if own
            then (if same then some spec else served index model j)
            else served index model j)
          ≡ (if same
              then last_spec model specs (if own then some spec else served index model j)
              else served index model j)
    split true true = refl
    split true false = refl
    split false true = refl
    split false false = refl

lookup-forget_account :
    (id k : Text) (index : Index)
    → lookup k index ≡ none
    → lookup k (forget_account id index) ≡ none
unfolding lookup
lookup-forget_account id k [] h = refl
lookup-forget_account id k ((i, specs) ∷ index) h = ground (arith, lookup-forget_account id k index)

forget_account-Unique :
    (id : Text) (index : Index) → Unique index → Unique (forget_account id index)
forget_account-Unique id [] u = tt
forget_account-Unique id ((k, specs) ∷ index) u =
    (lookup-forget_account id k index u.0, forget_account-Unique id index u.1)

index_specs-Unique :
    (id : Text) (specs : List ModelSpec) (index : Index)
    → Unique index
    → Unique (index_specs id specs index)
unfolding index_specs
index_specs-Unique id [] index u = u
index_specs-Unique id (spec ∷ specs) index u =
    index_specs-Unique id specs (insert spec.id (insert id spec (specs_for index spec.id)) index)
      (insert-Unique spec.id (insert id spec (specs_for index spec.id)) index u)

lookup-drop_unserved :
    (k : Text) (index : Index) → lookup k index ≡ none → lookup k (drop_unserved index) ≡ none
unfolding lookup
lookup-drop_unserved k [] h = refl
lookup-drop_unserved k ((i, specs) ∷ index) h = ground (arith, lookup-drop_unserved k index)

-- A model that goes had no account.
served-drop_unserved :
    (model j : Text) (index : Index)
    → Unique index
    → served (drop_unserved index) model j ≡ served index model j
unfolding specs_for lookup
served-drop_unserved model j [] u = refl
served-drop_unserved model j ((k, []) ∷ index) u = ground (
  arith,
  text_eq_iff k model,
  lookup-drop_unserved k index u.0,
  served-drop_unserved model j index u.1,
)
served-drop_unserved model j ((k, s ∷ specs) ∷ index) u =
    ground (arith, served-drop_unserved model j index u.1)

-- What a refresh of the account `id` makes of it: nothing if it is gone, disabled or cannot be
-- listed, else what its backend lists.
pub listed : (Text → Result (List ModelSpec)) → Pool → Text → Text → Option ModelSpec
listed list_models p id model = elim (get p id) [
  | none ↦ none
  | some a ↦
      if a.enabled
      then elim (list_models id) [ err _ ↦ none | ok specs ↦ last_spec model specs none ]
      else none
]

served_forgotten :
    (id model j : Text) (index : Index)
    → Unique index
    → served (drop_unserved (forget_account id index)) model j
      ≡ (if text_eq id j then none else served index model j)
served_forgotten id model j index u =
    served-drop_unserved model j (forget_account id index) (forget_account-Unique id index u)
    ∙ served-forget_account id model j index

served_listed :
    (id model j : Text) (specs : List ModelSpec) (index : Index)
    → Unique index
    → served (drop_unserved (index_specs id specs (forget_account id index))) model j
      ≡ (if text_eq id j then last_spec model specs none else served index model j)
served_listed id model j specs index u =
    served-drop_unserved model j (index_specs id specs (forget_account id index))
      (index_specs-Unique id specs (forget_account id index) (forget_account-Unique id index u))
    ∙ (served-index_specs id model j specs (forget_account id index)
        ∙ rw (served-forget_account id model j index) (split (text_eq id j)))
  where
    split :
        (same : Bool)
        → (if same
            then last_spec model specs (if same then none else served index model j)
            else if same
            then none
            else served index model j)
          ≡ (if same then last_spec model specs none else served index model j)
    split true = refl
    split false = refl

-- Where no model stands twice in the index, RefreshAccount leaves of the account exactly what its
-- backend lists, nothing if it is gone, disabled or cannot be listed, and of every other account
-- what was there before.
pub served-refresh_account :
    (s : Services) (list_models : Text → Result (List ModelSpec)) (now : ℕ) (id : Text) (p : Pool)
    (r : Registry) (model j : Text)
    → Unique r.index
    → served (refresh_account s list_models now id p r).1.index model j
      ≡ (if text_eq id j then listed list_models p id model else served r.index model j)
unfolding refresh_account listed
served-refresh_account s list_models now id p r model j u = elim (Option-cases (get p id)) [
  | inl gone ↦ rw (gone, refresh_account, listed) (served_forgotten id model j r.index u)
  | inr (a, e) ↦ elim (Bool-cases a.enabled) [
    | inr off ↦ rw (e, refresh_account, listed) (rw off (served_forgotten id model j r.index u))
    | inl on ↦ elim (Result-cases (list_models id)) [
      | inl (m, f) ↦
          rw (e, refresh_account, listed) (rw (on, f) (served_forgotten id model j r.index u))
      | inr (specs, f) ↦
          rw (e, refresh_account, listed) (rw (on, f) (served_listed id model j specs r.index u))
    ]
  ]
]
