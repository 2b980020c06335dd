-- ===== src/Responses/Laws.antt =====
-- The store as a map: each operation changes the entry of its id and no other.
use ghcp_pool_go.Base.{
  ◌≡◌, ◌↔◌, false, none, some, List, arith, if◌then◌else◌, Text, text_eq, text_eq_iff, is_empty,
  lookup, lookup-insert, lookup-delete, Option-cases, inl, inr,
}
use ghcp_pool_go.Responses.{Json, ResponseStore, copy, store, fetch, discard, update}

-- A response with an id is read back as a copy of a copy of what was stored, one without an id is
-- not stored, and no other entry changes.
pub fetch-store :
    {J : Type 0} (json : Json J) (s : ResponseStore J) (r : J) (items : List J) (j : Text)
    → fetch json (store json s r items) j ≡ (
        if is_empty (json.id_of r)
        then fetch json s j
        else if text_eq (json.id_of r) j
        then some (copy json (copy json (record { response = r; input_items = items })))
        else fetch json s j)
unfolding fetch store
fetch-store json s r items j = ground (
  arith,
  lookup-insert (json.id_of r) j (copy json (record { response = r; input_items = items })) s,
)

-- A discarded response is gone, the others stay, and the answer says whether there was one.
pub fetch-discard :
    {J : Type 0} (json : Json J) (s : ResponseStore J) (id j : Text)
    → (fetch json (discard json s id).0 j ≡ (if text_eq id j then none else fetch json s j))
      × (((discard json s id).1 ≡ false) ↔ (fetch json s id ≡ none))
unfolding fetch discard
fetch-discard json s id j = (ground (arith, lookup-delete id j s, text_eq_iff id j), ground arith)

-- An update puts a copy of what the function makes of a copy of the response in its place, keeps
-- the input items with it and every other entry, and does nothing where there is no response.
pub lookup-update :
    {J : Type 0} (json : Json J) (s : ResponseStore J) (id j : Text) (mutate : J → J)
    → lookup j (update json s id mutate).0 ≡ (
        if text_eq id j
        then elim (lookup id s) [
          | none ↦ none
          | some rec ↦
              some (record rec { response = json.clone (mutate (json.clone rec.response)) })
        ]
        else lookup j s)
unfolding update
lookup-update json s id j mutate = elim (Option-cases (lookup id s)) [
  | inl e ↦ ground (arith, text_eq_iff id j)
  | inr (rec, e) ↦ ground (
    arith,
    lookup-insert id j (record rec { response = json.clone (mutate (json.clone rec.response)) }) s,
    text_eq_iff id j,
  )
]
