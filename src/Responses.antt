-- ===== src/Responses.antt =====
-- internal/gateway/response_store.go: the stored responses, by their id. A JSON object is a value of
-- a type `J` that is not looked into, but for the id that a response carries. The copies that
-- cloneJSONMap and cloneJSONSlice make by a round through encoding/json are parameters.
pub mod Laws
use ghcp_pool_go.Base.{
  Bool, true, false, Option, none, some, List, if◌then◌else◌, Text, is_empty, Dict, lookup, insert,
  delete,
}

pub record StoredResponse (J : Type 0) : Type 0 where
  pub response : J
  pub input_items : List J

abbrev pub ResponseStore : Type 0 → Type 0
ResponseStore J = Dict (StoredResponse J)

pub record Json (J : Type 0) : Type 0 where
  -- The field `id`, the empty text where it is missing or no string.
  pub id_of : J → Text
  pub clone : J → J
  pub clone_all : List J → List J

module _ {J : Type 0} (json : Json J) where
  abbrev pub copy : StoredResponse J → StoredResponse J
  copy r = record { response = json.clone r.response; input_items = json.clone_all r.input_items }

  unfoldable pub store : ResponseStore J → J → List J → ResponseStore J
  store s response input_items =
      if is_empty (json.id_of response)
      then s
      else insert (json.id_of response)
          (copy (record { response = response; input_items = input_items })) s

  unfoldable pub fetch : ResponseStore J → Text → Option (StoredResponse J)
  fetch s id = elim (lookup id s) [ none ↦ none | some rec ↦ some (copy rec) ]

  unfoldable pub discard : ResponseStore J → Text → ResponseStore J × Bool
  discard s id = elim (lookup id s) [ none ↦ (s, false) | some _ ↦ (delete id s, true) ]

  unfoldable pub update : ResponseStore J → Text → (J → J) → ResponseStore J × Option J
  update s id mutate = elim (lookup id s) [
    | none ↦ (s, none)
    | some rec ↦
        let updated = mutate (json.clone rec.response) in
        (insert id (record rec { response = json.clone updated }) s, some (json.clone updated))
  ]
