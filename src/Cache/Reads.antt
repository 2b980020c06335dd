-- ===== src/Cache/Reads.antt =====
-- What a cache answers: an entry until it expires, and the least recently used goes first.
use ghcp_pool_go.Base.{
  ℕ, ◌≤◌, ◌≡◌, refl, ap, subst, ◌∙◌, ◌⊎◌, lt→ltb, ltb→lt, not-ltb→le, false, not, ◌&&◌, none, some,
  [], ◌∷◌, ◌++◌, arith, if◌then◌else◌, ltb, length, drop, Text, text_eq, text_eq_refl, Dict, lookup,
  insert, delete, lookup-delete, lookup-append, Bool-cases, Option-cases, inl, inr, ltb_ℤ, ◌+ℤ◌,
  pos,
}
use ghcp_pool_go.Cache.{MemoryCache, CacheEntry, CacheRecord, get, evict, set}
use ghcp_pool_go.Cache.Valid.{
  Agrees, IsValid, has, set-IsValid, push-Agrees, front-Agrees, length-push, length-insert-new,
}

abbrev entry : MemoryCache → CacheRecord → ℕ → CacheEntry
entry c value now = record { expires_at = pos now +ℤ c.ttl; value = value }

-- The elements that stay when `key` is set: all but its own, and all but the front when the key is
-- new and the cache is full.
unfoldable pub survivors : MemoryCache → Text → Dict CacheEntry
survivors c key = elim (lookup key c.items) [
  | some _ ↦ delete key c.order
  | none ↦ if ltb (length c.items) c.max_entries then c.order else drop 1 c.order
]

Dict-cases :
    (m : Dict CacheEntry)
    → (m ≡ []) ⊎ ((e : Text × CacheEntry) × (rest : Dict CacheEntry) × (m ≡ e ∷ rest))
Dict-cases [] = inl refl
Dict-cases (e ∷ m) = inr (e, m, refl)

evict_room :
    (most : ℕ) (items : Dict (Unit {0})) (order : Dict CacheEntry)
    → length items ≤ most
    → (evict most items order).1 ≡ order
unfolding evict
evict_room most items [] h = refl
evict_room most items ((k, e) ∷ order) h = ground arith

evict_front :
    (c : MemoryCache) (key : Text) (e : CacheEntry) (f : Text × CacheEntry) (rest : Dict CacheEntry)
    → IsValid c
    → lookup key c.items ≡ none
    → c.order ≡ f ∷ rest
    → c.max_entries ≤ length c.items
    → (evict c.max_entries (insert key tt c.items) (c.order ++ (key, e) ∷ [])).1
      ≡ rest ++ (key, e) ∷ []
unfolding evict
evict_front c key e f rest v new o full =
    let pushed =
      subst (λ z. Agrees (insert key tt c.items) (z ++ (key, e) ∷ [])) o
        (push-Agrees c.items c.order key e v.agrees new) in
    let left = front-Agrees (insert key tt c.items) f.0 f.1 (rest ++ (key, e) ∷ []) pushed in
    let longer = length-insert-new key tt c.items new in
    let same = v.agrees.same_length in
    let size = ap length o in
    rw (o, evict)
      (rw (lt→ltb c.max_entries (length (insert key tt c.items)) (omega arith)) (
        evict_room c.max_entries (delete f.0 (insert key tt c.items)) (rest ++ (key, e) ∷ [])
          (omega (arith, left.same_length, length-push key e rest, v.bounded))))

-- `Set` puts the key at the back of what stays.
pub order-set :
    (c : MemoryCache) (key : Text) (value : CacheRecord) (now : ℕ)
    → IsValid c
    → (set c key value now).order ≡ survivors c key ++ (key, entry c value now) ∷ []
unfolding set survivors
order-set c key value now v = elim (Option-cases (lookup key c.items)) [
  | inr (u, there) ↦ rw (there, set, survivors) refl
  | inl new ↦ elim (Bool-cases (ltb (length c.items) c.max_entries)) [
    | inl room ↦
        rw (new, set, survivors)
          (rw room (
            evict_room c.max_entries (insert key tt c.items)
              (c.order ++ (key, entry c value now) ∷ [])
              (omega (arith, length-insert-new key tt c.items new, ltb→lt _ _ room))))
    | inr full ↦ elim (Dict-cases c.order) [
      | inl nothing ↦
          absurd (
            omega (arith, not-ltb→le _ _ full, v.positive, v.agrees.same_length, ap length nothing))
      | inr (f, rest, o) ↦
          rw (new, set, survivors)
            (rw full (
              evict_front c key (entry c value now) f rest v new o (not-ltb→le _ _ full)
              ∙ rw o refl))
    ]
  ]
]

survivors-missing : (c : MemoryCache) (key : Text) → IsValid c → lookup key (survivors c key) ≡ none
unfolding survivors lookup
survivors-missing c key v = elim (Option-cases (lookup key c.items)) [
  | inr (u, there) ↦
      rw (there, survivors) (lookup-delete key key c.order ∙ rw (text_eq_refl key) refl)
  | inl new ↦
      let absent : lookup key c.order ≡ none = ground (arith, v.agrees.same_keys key) in
      elim (Bool-cases (ltb (length c.items) c.max_entries)) [
        | inl room ↦ rw (new, survivors) (rw room absent)
        | inr full ↦ rw (new, survivors) (rw full (dropped key c.order absent))
      ]
]
  where
    dropped : (k : Text) (m : Dict CacheEntry) → lookup k m ≡ none → lookup k (drop 1 m) ≡ none
    dropped k [] h = h
    dropped k ((j, w) ∷ m) h = ground arith

-- An answer that was set is read back until its time to live has passed, and not after it.
pub get-set :
    (c : MemoryCache) (key : Text) (value : CacheRecord) (now later : ℕ)
    → IsValid c
    → (get (set c key value now) key later).1
      ≡ (if ltb_ℤ (pos now +ℤ c.ttl) (pos later) then none else some value)
unfolding get lookup
get-set c key value now later v =
    let w = set-IsValid c key value now v in
    let found : lookup key (set c key value now).order ≡ some (entry c value now) =
      ap (lookup key) (order-set c key value now v)
      ∙ (lookup-append key key (entry c value now) (survivors c key)
          ∙ rw (survivors-missing c key v, text_eq_refl key) refl) in
    elim (Option-cases (lookup key (set c key value now).items)) [
      | inl missing ↦ absurd (ground (arith, w.agrees.same_keys key))
      | inr (u, there) ↦ rw (there, get) (rw found (ground arith))
    ]

-- Setting a key keeps every other one, but for the least recently used when the key is new and the
-- cache is full.
pub set_keeps_others :
    (c : MemoryCache) (key other : Text) (value : CacheRecord) (now : ℕ)
    → IsValid c
    → text_eq key other ≡ false
    → lookup other (set c key value now).order ≡ (
        if not (has key c.items) && not (ltb (length c.items) c.max_entries)
        then lookup other (drop 1 c.order)
        else lookup other c.order)
unfolding survivors
set_keeps_others c key other value now v differs =
    ap (lookup other) (order-set c key value now v)
    ∙ (lookup-append key other (entry c value now) (survivors c key)
        ∙ ground (arith, lookup-delete key other c.order))
