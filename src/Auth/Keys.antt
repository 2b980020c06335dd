-- ===== src/Auth/Keys.antt =====
-- Who is authenticated: the holders of the configured keys, and nobody else.
use ghcp_pool_go.Base.{
  ◌≡◌, refl, sym, subst, ◌∙◌, ◌⊎◌, false, Option, none, some, List, [], ◌∷◌, arith, In, Text,
  text_eq, text_eq_iff, is_empty, lookup, insert, lookup-insert, Result, ok, Bool-cases,
  Result-cases, inl, inr,
}
use ghcp_pool_go.Auth.{
  ApiKeyConfig, Principal, Authenticator, add_keys, add_each, new_authenticator, token_of,
  authenticate,
}
use ghcp_pool_go.Values.{first_string_slice}

-- An entry of the authenticator: a configured key, with the text that it was found under.
abbrev pub IsConfigured :
    (ApiKeyConfig → Result Text) → List ApiKeyConfig → Text → ApiKeyConfig → Type 0
IsConfigured resolve configs token config =
    (c : ApiKeyConfig) × (resolved : Text) × In c configs
    × (resolve c ≡ ok resolved)
    × In token (first_string_slice resolved [])
    × (config ≡ record c { key = token })

List-cases : (xs : List Text) → (xs ≡ []) ⊎ ((x : Text) × (rest : List Text) × (xs ≡ x ∷ rest))
List-cases [] = inl refl
List-cases (x ∷ xs) = inr (x, xs, refl)

lookup-add_keys :
    (c : ApiKeyConfig) (ks : List Text) (keys : Authenticator) (k : Text) (d : ApiKeyConfig)
    → lookup k (add_keys c ks keys) ≡ some d
    → (In k ks × (d ≡ record c { key = k })) ⊎ (lookup k keys ≡ some d)
unfolding add_keys
lookup-add_keys c [] keys k d h = inr h
lookup-add_keys c (j ∷ ks) keys k d h =
    elim (lookup-add_keys c ks (insert j (record c { key = j }) keys) k d h) [
      | inl (m, e) ↦ inl (inr m, e)
      | inr e ↦ elim (Bool-cases (text_eq j k)) [
        | inl t ↦
            let same = (text_eq_iff j k).0 t in
            inl (inl (sym same), ground (arith, lookup-insert j k (record c { key = j }) keys))
        | inr f ↦ inr (sym (lookup-insert j k (record c { key = j }) keys ∙ rw f refl) ∙ e)
      ]
    ]

add_each_sound :
    (resolve : ApiKeyConfig → Result Text) (cs : List ApiKeyConfig) (keys a : Authenticator)
    (k : Text) (d : ApiKeyConfig)
    → add_each resolve cs keys ≡ ok a
    → lookup k a ≡ some d
    → IsConfigured resolve cs k d ⊎ (lookup k keys ≡ some d)
unfolding add_each
add_each_sound resolve [] keys a k d h e = inr (cc)
add_each_sound resolve (c ∷ cs) keys a k d h e = elim (Result-cases (resolve c)) [
  | inl (m, f) ↦ absurd (cc (rw (f, add_each) at h))
  | inr (r, f) ↦ elim (List-cases (first_string_slice r [])) [
    | inl g ↦ absurd (cc (rw g at (rw (f, add_each) at h)))
    | inr (j, js, g) ↦
        elim (add_each_sound resolve cs (add_keys c (j ∷ js) keys) a k d
          (rw g at (rw (f, add_each) at h)) e) [
            | inl (c', r', m, u, w, same) ↦ inl (c', r', inr m, u, w, same)
            | inr there ↦ elim (lookup-add_keys c (j ∷ js) keys k d there) [
              | inl (m, same) ↦ inl (c, r, inl refl, f, subst (In k) (sym g) m, same)
              | inr old ↦ inr old
            ]
          ]
  ]
]

-- Where the authenticator was built, whoever is authenticated holds a key that the configuration
-- lists, and has the rights that stand beside that key.
pub authenticate_sound :
    (resolve : ApiKeyConfig → Result Text) (configs : List ApiKeyConfig) (a : Authenticator)
    (value : Text) (p : Principal)
    → new_authenticator resolve configs ≡ ok a
    → authenticate a value ≡ some p
    → IsConfigured resolve configs (token_of value) p.config
unfolding new_authenticator authenticate
authenticate_sound resolve configs a value p h e =
    let found : lookup (token_of value) a ≡ some p.config =
      found_of (lookup (token_of value) a) refl in
    elim (add_each_sound resolve configs [] a (token_of value) p.config h found) [
      | inl configured ↦ configured
      | inr missing ↦ absurd (cc (missing))
    ]
  where
    found_of :
        (o : Option ApiKeyConfig)
        → lookup (token_of value) a ≡ o
        → lookup (token_of value) a ≡ some p.config
    found_of none f = absurd (ground arith)
    found_of (some c) f = ground arith

abbrev IsKey : Authenticator → Text → Type 0
IsKey keys k = (d : ApiKeyConfig) × (lookup k keys ≡ some d)

insert-IsKey :
    (j k : Text) (c : ApiKeyConfig) (keys : Authenticator)
    → IsKey keys k
    → IsKey (insert j c keys) k
insert-IsKey j k c keys (d, e) = elim (Bool-cases (text_eq j k)) [
  | inl t ↦ (c, lookup-insert j k c keys ∙ rw t refl)
  | inr f ↦ (d, lookup-insert j k c keys ∙ rw f e)
]

add_keys-IsKey :
    (c : ApiKeyConfig) (ks : List Text) (keys : Authenticator) (k : Text)
    → In k ks ⊎ IsKey keys k
    → IsKey (add_keys c ks keys) k
unfolding add_keys
add_keys-IsKey c [] keys k (inl m) = elim m [ ]
add_keys-IsKey c [] keys k (inr old) = old
add_keys-IsKey c (j ∷ ks) keys k (inl (inl e)) =
    add_keys-IsKey c ks (insert j (record c { key = j }) keys) k (
      inr (
        record c { key = j },
        lookup-insert j k (record c { key = j }) keys ∙ rw ((text_eq_iff j k).1 (sym e)) refl,
      ))
add_keys-IsKey c (j ∷ ks) keys k (inl (inr m)) =
    add_keys-IsKey c ks (insert j (record c { key = j }) keys) k (inl m)
add_keys-IsKey c (j ∷ ks) keys k (inr old) =
    add_keys-IsKey c ks (insert j (record c { key = j }) keys) k
      (inr (insert-IsKey j k (record c { key = j }) keys old))

same_text :
    (resolve : ApiKeyConfig → Result Text) (c d : ApiKeyConfig) (r s : Text)
    → c ≡ d
    → resolve c ≡ ok r
    → resolve d ≡ ok s
    → r ≡ s
same_text resolve c d r s e f g = cc

add_each-IsKey :
    (resolve : ApiKeyConfig → Result Text) (cs : List ApiKeyConfig) (keys a : Authenticator)
    (k : Text)
    → add_each resolve cs keys ≡ ok a
    → ((c : ApiKeyConfig) × (r : Text) × In c cs
        × (resolve c ≡ ok r)
        × In k (first_string_slice r []))
      ⊎ IsKey keys k
    → IsKey a k
unfolding add_each
add_each-IsKey resolve [] keys a k h (inl (c, r, m, u, w)) = elim m [ ]
add_each-IsKey resolve [] keys a k h (inr (d, e)) = (d, cc)
add_each-IsKey resolve (c ∷ cs) keys a k h had = elim (Result-cases (resolve c)) [
  | inl (m, f) ↦ absurd (cc (rw (f, add_each) at h))
  | inr (r, f) ↦ elim (List-cases (first_string_slice r [])) [
    | inl g ↦ absurd (cc (rw g at (rw (f, add_each) at h)))
    | inr (j, js, g) ↦
        add_each-IsKey resolve cs (add_keys c (j ∷ js) keys) a k (rw g at (rw (f, add_each) at h))
          (elim had [
            | inr old ↦ inr (add_keys-IsKey c (j ∷ js) keys k (inr old))
            | inl (c', r', inr m, u, w) ↦ inl (c', r', m, u, w)
            | inl (c', r', inl e, f', m) ↦ inr (
                add_keys-IsKey c (j ∷ js) keys k (
                  inl (
                    subst (In k) g (
                      subst (λ z. In k (first_string_slice z []))
                        (same_text resolve c' c r' r e f' f) m))))
          ])
  ]
]

-- Where the authenticator was built, every text that the configuration lists for a key is a token
-- that is accepted, as it is or behind a scheme.
pub authenticate_complete :
    (resolve : ApiKeyConfig → Result Text) (configs : List ApiKeyConfig) (a : Authenticator)
    (value resolved : Text) (c : ApiKeyConfig)
    → new_authenticator resolve configs ≡ ok a
    → In c configs
    → resolve c ≡ ok resolved
    → In (token_of value) (first_string_slice resolved [])
    → is_empty value ≡ false
    → (p : Principal) × (authenticate a value ≡ some p)
unfolding new_authenticator authenticate
authenticate_complete resolve configs a value resolved c h m e k nonempty =
    let (d, found) =
      add_each-IsKey resolve configs [] a (token_of value) h (inl (c, resolved, m, e, k)) in
    (record { config = d }, rw (nonempty, found) refl)
