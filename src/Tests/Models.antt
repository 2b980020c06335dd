-- ===== src/Tests/Models.antt =====
-- An example of a refresh of one account.
use ghcp_pool_go.Base.{
  ◌≡◌, refl, none, [], ◌∷◌, if◌then◌else◌, lookup, text_eq, Text, Result, ok, List,
}
use ghcp_pool_go.Registry.{Registry, ModelSpec, refresh_account}
use ghcp_pool_go.Registry.Refresh
use ghcp_pool_go.Registry.Refresh.{served, listed}
use ghcp_pool_go.Tests.{id_a, id_b, model, pool, services}

abbrev spec : ModelSpec
spec = record {
  id = model;
  name = [];
  version = [];
  model_picker_enabled = none;
  supported_endpoints = [];
}

abbrev list_models : Text → Result (List ModelSpec)
list_models id = ok (spec ∷ [])

abbrev registry : Registry
registry = record { index = (model, (id_b, spec) ∷ []) ∷ []; last_refresh = 1 }

served-refresh_account_example :
    served (refresh_account services list_models 9 id_a pool registry).1.index model id_a ≡ (
      if text_eq id_a id_a
      then listed list_models pool id_a model
      else served registry.index model id_a)
unfolding lookup
served-refresh_account_example =
    Refresh.served-refresh_account services list_models 9 id_a pool registry model id_a (refl, tt)
