-- ===== src/Registry.antt =====
-- internal/gateway/registry.go: ModelRegistry, the index from models to the accounts that serve
-- them, and endpoints.go, which says what a model's specification supports. Where the source ranges
-- over a map, the entries come in the order of the list.
-- pub mod Refresh
pub mod Refresh
use ghcp_pool_go.Account
use ghcp_pool_go.Account.{Account}
use ghcp_pool_go.Base.{
  ℕ, Bool, true, false, not, ◌&&◌, ◌||◌, Option, none, some, List, [], ◌∷◌, ◌++◌, map, drop,
  if◌then◌else◌, any, keep, Text, text, text_eq, is_empty, has_prefix, trim_space, Dict, lookup,
  insert, delete, keys, sort_texts, Result, ok, err, ◌==◌, length,
}
use ghcp_pool_go.Pool.{Pool, Services, get, update_account, start_account}

pub record ModelSpec : Type 0 where
  pub id : Text
  pub name : Text
  pub version : Text
  pub model_picker_enabled : Option Bool
  pub supported_endpoints : List Text

unfoldable pub normalize_endpoint : Text → Text
unfolding text has_prefix trim_space
normalize_endpoint endpoint =
    let t = trim_space endpoint in
    let n = if has_prefix t (text "/v1") then drop 3 t else t in
    if is_empty n then text "/" else if has_prefix n (text "/") then n else text "/" ++ n

unfoldable pub endpoint_matches : Text → Text → Bool
unfolding normalize_endpoint text_eq
endpoint_matches a b = text_eq (normalize_endpoint a) (normalize_endpoint b)

unfoldable pub supported_endpoint : ModelSpec → Text → Bool
unfolding endpoint_matches
supported_endpoint spec endpoint =
    if is_empty endpoint || length spec.supported_endpoints == 0
    then true
    else any (λ supported. endpoint_matches supported endpoint) spec.supported_endpoints

abbrev pub Index : Type 0
Index = Dict (Dict ModelSpec)

-- `LastRefresh` is zero until the first refresh.
pub record Registry : Type 0 where
  pub index : Index
  pub last_refresh : ℕ

unfoldable pub new_model_registry : Registry
new_model_registry = record { index = []; last_refresh = 0 }

-- `r.index[model]`, with the nil map where the model is missing.
unfoldable pub specs_for : Index → Text → Dict ModelSpec
specs_for index model = elim (lookup model index) [ none ↦ [] | some specs ↦ specs ]

-- What the loop over an account's specifications writes.
unfoldable pub index_specs : Text → List ModelSpec → Index → Index
unfolding specs_for
index_specs id [] index = index
index_specs id (spec ∷ specs) index =
    index_specs id specs (insert spec.id (insert id spec (specs_for index spec.id)) index)

-- The loop of `Refresh` over the accounts: `list_models` is each backend's answer.
unfoldable pub refresh_each :
    (Text → Result (List ModelSpec)) → ℕ → List (Text × Account) → Pool → Index → Pool × Index
unfolding index_specs update_account text
refresh_each list_models now [] p index = (p, index)
refresh_each list_models now ((id, a) ∷ rest) p index =
    let r : Pool × Index =
      if not a.enabled
      then (update_account id (λ b. record b { models = [] }) p, index)
      else elim (list_models id) [
        | err e ↦ (
          update_account id (λ b. Account.record_failure b (text "list_models: " ++ e) now) p,
          index,
        )
        | ok specs ↦ (
          update_account id (λ b. record (Account.clear_error b) { models = map (λ s. s.id) specs })
              p,
          index_specs id specs index,
        )
      ] in
    refresh_each list_models now rest r.0 r.1

unfoldable pub refresh : (Text → Result (List ModelSpec)) → ℕ → Pool → Registry → Pool × Registry
unfolding refresh_each
refresh list_models now p r =
    let (p', index) = refresh_each list_models now p.accounts p [] in
    (p', record { index = index; last_refresh = now })

-- The first loop of `RefreshAccount`: the account leaves every model.
abbrev pub forget_account : Text → Index → Index
forget_account id = map (λ e. (e.0, delete id e.1))

-- The last one: a model that no account serves goes.
abbrev pub drop_unserved : Index → Index
drop_unserved = keep (λ e. not (length e.1 == 0))

unfoldable pub refresh_account :
    Services → (Text → Result (List ModelSpec)) → ℕ → Text → Pool → Registry → Pool × Registry
unfolding index_specs update_account text get start_account
refresh_account s list_models now id p r =
    let index = forget_account id r.index in
    let q : Pool × Index = elim (get p id) [
      | none ↦ (p, index)
      | some a ↦
          if a.enabled
          then (let p' = (start_account s p id now).0 in
              elim (list_models id) [
                | err e ↦ (
                  update_account id
                      (λ b. record (Account.record_failure b (text "list_models: " ++ e) now) {
                        models = [];
                      })
                      p',
                  index,
                )
                | ok specs ↦ (
                  update_account id
                      (λ b. record (Account.clear_error b) { models = map (λ m. m.id) specs }) p',
                  index_specs id specs index,
                )
              ])
          else (update_account id (λ b. record b { models = [] }) p, index)
    ] in
    (
      q.0,
      record {
        index = drop_unserved q.1;
        last_refresh = if r.last_refresh == 0 then now else r.last_refresh;
      },
    )

unfoldable pub accounts_for : Registry → Text → List Text
unfolding specs_for
accounts_for r model = keys (specs_for r.index model)

unfoldable pub account_supports_endpoint : Registry → Text → Text → Text → Bool
unfolding specs_for supported_endpoint
account_supports_endpoint r model id endpoint =
    if is_empty endpoint then true else elim (lookup id (specs_for r.index model)) [
      | none ↦ false
      | some spec ↦ supported_endpoint spec endpoint
    ]

unfoldable pub model_supports_endpoint : Registry → Text → Text → Bool
unfolding specs_for supported_endpoint
model_supports_endpoint r model endpoint =
    if is_empty endpoint
    then true
    else any (λ e. supported_endpoint e.1 endpoint) (specs_for r.index model)

unfoldable pub all_models : Registry → List Text
all_models r = sort_texts (keys r.index)

-- Whether some enabled account serves the model and does not hide it from the picker.
unfoldable pub is_visible : Pool → Dict ModelSpec → Bool
unfolding get
is_visible p = any λ e. elim (get p e.0) [
  | none ↦ false
  | some a ↦ a.enabled && elim (e.1.model_picker_enabled) [ none ↦ true | some shown ↦ shown ]
]

unfoldable pub visible_models : Pool → Registry → List Text
unfolding is_visible
visible_models p r = sort_texts (keys (keep (λ e. is_visible p e.1) r.index))
