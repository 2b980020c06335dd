-- ===== src/Structured/Schemas.antt =====
-- internal/gateway/structured_output.go: resolveJSONSchema and the cache of compiled schemas. The
-- cache (golang-lru) and the compiler (jsonschema-go) are other packages: their operations are
-- parameters, with the laws that their documentation states.
use ghcp_pool_go.Base.{
  ℕ, zero, suc, ◌+◌, ◌*◌, ◌/◌, ◌%◌, ◌≡◌, refl, sym, ap, subst, ◌∙◌, ◌↔◌, ◌⊎◌, inl, inr, false,
  Option, none, some, List, [], ◌∷◌, ◌++◌, if◌then◌else◌, ltb, Text, text, byte_length, Result, ok,
  err, Bool-cases, true_ne_false,
}
use ghcp_pool_go.Json.{Fields, object}
use ghcp_pool_go.Json.Print.{to_json}

-- A cache that may forget any entry at any time, but never has one that was not added.
pub record Lru (V : Type 0) : Type 1 where
  pub Cache : Type 0
  pub empty : Cache
  pub get : Text → Cache → Option V × Cache
  pub add : Text → V → Cache → Cache
  pub get_empty : (k : Text) → (get k empty).0 ≡ none
  pub get_get :
      (k j : Text) (c : Cache) (v : V) → (get j (get k c).1).0 ≡ some v → (get j c).0 ≡ some v
  pub get_add :
      (k j : Text) (w v : V) (c : Cache)
      → (get j (add k w c)).0 ≡ some v
      → ((k ≡ j) × (w ≡ v)) ⊎ ((get j c).0 ≡ some v)

unfoldable pub max_schema_bytes : ℕ
max_schema_bytes = 128 * 1024

-- The digits of a number, the last first in the recursion; `n` digits are enough for `n`.
unfoldable pub decimal_from : ℕ → ℕ → Text
decimal_from zero n = []
decimal_from (suc fuel) n =
    let rest = decimal_from fuel (n / 10) in (if ltb n 10 then [] else rest) ++ (b'0' + n % 10) ∷ []

abbrev decimal : ℕ → Text
decimal n = decimal_from (suc n) n

abbrev too_large : ℕ → Text
too_large n = text "schema is " ++ decimal n ++ text " bytes, limit is " ++ decimal max_schema_bytes

module _ {V : Type 0} (lru : Lru (Option V)) (compile : Text → Result V) where
  abbrev pub remembered : Option V → Result V
  remembered none = err (text "schema is not usable")
  remembered (some v) = ok v

  abbrev pub compiled : lru.Cache → Text → Result V → lru.Cache × Result V
  compiled c key (ok v) = (lru.add key (some v) c, ok v)
  compiled c key (err e) = (lru.add key none c, err e)

  abbrev pub looked_up : Text → Option (Option V) × lru.Cache → lru.Cache × Result V
  looked_up key (some r, c) = (c, remembered r)
  looked_up key (none, c) = compiled c key (compile key)

  -- A schema that does not compile is remembered as one that is not usable.
  unfoldable pub resolve_json_schema : lru.Cache → Fields → lru.Cache × Result V
  unfolding to_json byte_length max_schema_bytes decimal_from text
  resolve_json_schema c schema =
      let key = to_json (object schema) in
      if ltb max_schema_bytes (byte_length key)
      then (c, err (too_large (byte_length key)))
      else looked_up key (lru.get key c)

  -- What the cache is after a sequence of requests.
  unfoldable pub after_requests : List Fields → lru.Cache
  unfolding resolve_json_schema
  after_requests [] = lru.empty
  after_requests (schema ∷ earlier) = (resolve_json_schema (after_requests earlier) schema).0

  -- What compiling gives, without a cache.
  abbrev pub ResolvesTo : Fields → V → Type 0
  ResolvesTo schema v =
      (ltb max_schema_bytes (byte_length (to_json (object schema))) ≡ false)
      × (compile (to_json (object schema)) ≡ ok v)

  abbrev usable : Result V → Option V
  usable (ok v) = some v
  usable (err e) = none

  -- Every entry says what compiling its key gives.
  abbrev Holds : lru.Cache → Type 0
  Holds c = (key : Text) (r : Option V) → (lru.get key c).0 ≡ some r → r ≡ usable (compile key)

  get-Holds :
      (key : Text) (c d : lru.Cache) (o : Option (Option V))
      → Holds c
      → lru.get key c ≡ (o, d)
      → Holds d
  get-Holds key c d o h e j r q =
      h j r (lru.get_get key j c r (subst (λ g. (lru.get j g.1).0 ≡ some r) (sym e) q))

  add-Holds :
      (key : Text) (w : Option V) (c : lru.Cache)
      → Holds c
      → w ≡ usable (compile key)
      → Holds (lru.add key w c)
  add-Holds key w c h e j r q = elim (lru.get_add key j w r c q) [
    | inl (k, v) ↦ sym v ∙ e ∙ ap (λ x. usable (compile x)) k
    | inr before ↦ h j r before
  ]

  compiled-Holds :
      (key : Text) (c : lru.Cache) (r : Result V)
      → Holds c
      → compile key ≡ r
      → Holds (compiled c key r).0
  compiled-Holds key c (ok v) h e = add-Holds key (some v) c h (ap usable (sym e))
  compiled-Holds key c (err x) h e = add-Holds key none c h (ap usable (sym e))

  -- What a request finds is what compiling gives, and the cache goes on to hold.
  record Agrees (key : Text) (r : lru.Cache × Result V) : Type 0 where
    holds : Holds r.0
    answer : usable r.1 ≡ usable (compile key)

  looked_up-Agrees :
      (key : Text) (c : lru.Cache) (g : Option (Option V) × lru.Cache)
      → Holds c
      → lru.get key c ≡ g
      → Agrees key (looked_up key g)
  looked_up-Agrees key c (some r, d) h e = record {
    holds = get-Holds key c d (some r) h e;
    answer = told r (h key r (ap (λ g. g.0) e));
  }
    where
      told :
          (r : Option V) → r ≡ usable (compile key) → usable (remembered r) ≡ usable (compile key)
      told none q = q
      told (some v) q = q
  looked_up-Agrees key c (none, d) h e = record {
    holds = compiled-Holds key d (compile key) (get-Holds key c d none h e) refl;
    answer = fresh (compile key);
  }
    where
      fresh : (r : Result V) → usable (compiled d key r).1 ≡ usable r
      fresh (ok v) = refl
      fresh (err x) = refl

  resolve_json_schema-Holds :
      (c : lru.Cache) (schema : Fields) → Holds c → Holds (resolve_json_schema c schema).0
  unfolding resolve_json_schema
  resolve_json_schema-Holds c schema h =
      elim (Bool-cases (ltb max_schema_bytes (byte_length (to_json (object schema))))) [
        | inl y ↦ rw (resolve_json_schema, y) h
        | inr f ↦
            rw (resolve_json_schema, f)
              (looked_up-Agrees (to_json (object schema)) c (lru.get (to_json (object schema)) c) h
                refl).holds
      ]

  after_requests-Holds : (earlier : List Fields) → Holds (after_requests earlier)
  unfolding after_requests
  after_requests-Holds [] = λ key r q. absurd (nothing r (sym (lru.get_empty key) ∙ q))
    where
      nothing : (r : Option V) → none ≡ some r → ⊥
      nothing r e = cc
  after_requests-Holds (schema ∷ earlier) =
      resolve_json_schema-Holds (after_requests earlier) schema (after_requests-Holds earlier)

  usable-ok : (r : Result V) (v : V) → usable r ≡ some v → r ≡ ok v
  usable-ok (ok w) v h = ap ok (some_inj h)
    where
      some_inj : some w ≡ some v → w ≡ v
      some_inj e = cc
  usable-ok (err e) v h = absurd (cc)

  -- Whatever was asked before, and whatever the cache has forgotten, resolveJSONSchema gives a test
  -- for a schema exactly where the schema is not too large and compiles to that test.
  pub resolve_json_schema_refines :
      (earlier : List Fields) (schema : Fields) (v : V)
      → ((resolve_json_schema (after_requests earlier) schema).1 ≡ ok v) ↔ ResolvesTo schema v
  unfolding resolve_json_schema
  resolve_json_schema_refines earlier schema v =
      elim (Bool-cases (ltb max_schema_bytes (byte_length key))) [
        | inl y ↦
            rw (resolve_json_schema, y) (λ e. absurd (err_ne_ok e), λ r. absurd (true_ne_false r.0))
        | inr f ↦
            rw (resolve_json_schema, f)
              (
                λ e. (refl, usable-ok (compile key) v (sym agrees.answer ∙ ap usable e)),
                λ r.
                    usable-ok (looked_up key (lru.get key (after_requests earlier))).1 v
                      (agrees.answer ∙ ap usable r.1),
              )
      ]
    where
      key : Text
      key = to_json (object schema)

      agrees : Agrees key (looked_up key (lru.get key (after_requests earlier)))
      agrees =
          looked_up-Agrees key (after_requests earlier) (lru.get key (after_requests earlier))
            (after_requests-Holds earlier) refl

      err_ne_ok : err (too_large (byte_length key)) ≡ ok v → ⊥
      err_ne_ok e = cc
