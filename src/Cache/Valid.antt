-- ===== src/Cache/Valid.antt =====
-- The map and the list of the cache hold the same keys, no more of them than allowed.
use ghcp_pool_go.Base.{
  ℕ, ◌+◌, ◌≤◌, ◌≡◌, refl, Bool, true, false, none, some, [], ◌∷◌, ◌++◌, arith, ltb, not-ltb→le,
  length, Text, text_eq_iff, Dict, lookup, insert, delete, Unique, insert-Unique, delete-Unique,
  lookup-insert, lookup-delete, length-delete, lookup-append, append-Unique, Bool-cases,
  Option-cases, inl, inr, ltb_ℤ, ◌+ℤ◌, pos, ℤ,
}
use ghcp_pool_go.Cache.{
  MemoryCache, CacheEntry, CacheRecord, new_memory_cache, get, evict, set, move_to_back,
}

abbrev pub has {ℓ} : {V : Type ℓ} → Text → Dict V → Bool
has k m = elim (lookup k m) [ none ↦ false | some _ ↦ true ]

pub record Agrees (items : Dict (Unit {0})) (order : Dict CacheEntry) : Type 0 where
  pub items_unique : Unique items
  pub order_unique : Unique order
  pub same_keys : (k : Text) → has k items ≡ has k order
  pub same_length : length items ≡ length order

pub record IsValid (c : MemoryCache) : Type 0 where
  pub agrees : Agrees c.items c.order
  pub bounded : length c.items ≤ c.max_entries
  pub positive : 1 ≤ c.max_entries

pub length-insert-new :
    {V : Type 0} (k : Text) (v : V) (m : Dict V)
    → lookup k m ≡ none
    → length (insert k v m) ≡ length m + 1
unfolding insert lookup
length-insert-new k v [] h = refl
length-insert-new k v ((i, w) ∷ m) h = ground (arith, length-insert-new k v m)

pub length-push :
    {V : Type 0} (k : Text) (v : V) (m : Dict V) → length (m ++ (k, v) ∷ []) ≡ length m + 1
length-push k v [] = refl
length-push k v (e ∷ m) = omega (arith, length-push k v m)

-- The front of the list goes, and its key with it.
pub front-Agrees :
    (items : Dict (Unit {0})) (k : Text) (e : CacheEntry) (order : Dict CacheEntry)
    → Agrees items ((k, e) ∷ order)
    → Agrees (delete k items) order
unfolding lookup
front-Agrees items k e order a = record {
  items_unique = delete-Unique k items a.items_unique;
  order_unique = a.order_unique.1;
  same_keys = λ j.
      ground (arith, text_eq_iff k j, lookup-delete k j items, a.same_keys j, a.order_unique.0);
  same_length = elim (Option-cases (lookup k items)) [
    | inl none_there ↦ absurd (ground (arith, a.same_keys k, text_eq_iff k k))
    | inr (u, there) ↦ omega (arith, length-delete k u items a.items_unique there, a.same_length)
  ];
}

pub evict-Agrees :
    (most : ℕ) (items : Dict (Unit {0})) (order : Dict CacheEntry)
    → Agrees items order
    → let (items', order') = evict most items order in Agrees items' order' × (length items' ≤ most)
unfolding evict
evict-Agrees most items [] a = (a, omega (arith, a.same_length))
evict-Agrees most items ((k, e) ∷ order) a =
    let rest = evict-Agrees most (delete k items) order (front-Agrees items k e order a) in
    elim (Bool-cases (ltb most (length items))) [
      | inl full ↦ rw full rest
      | inr room ↦ rw room (a, not-ltb→le most (length items) room)
    ]

-- A new key enters the map and goes to the end of the list.
pub push-Agrees :
    (items : Dict (Unit {0})) (order : Dict CacheEntry) (k : Text) (e : CacheEntry)
    → Agrees items order
    → lookup k items ≡ none
    → Agrees (insert k tt items) (order ++ (k, e) ∷ [])
push-Agrees items order k e a new =
    let absent : lookup k order ≡ none = ground (arith, a.same_keys k) in
    record {
      items_unique = insert-Unique k tt items a.items_unique;
      order_unique = append-Unique k e order a.order_unique absent;
      same_keys = λ j. ground (
        arith,
        text_eq_iff k j,
        lookup-insert k j tt items,
        lookup-append k j e order,
        a.same_keys j,
      );
      same_length =
          omega (arith, length-insert-new k tt items new, length-push k e order, a.same_length);
    }

-- A key that is there goes to the end of the list.
moved-Agrees :
    (items : Dict (Unit {0})) (order : Dict CacheEntry) (k : Text) (old e : CacheEntry)
    → Agrees items order
    → lookup k order ≡ some old
    → Agrees items (move_to_back k e order)
moved-Agrees items order k old e a there = record {
  items_unique = a.items_unique;
  order_unique =
      append-Unique k e (delete k order) (delete-Unique k order a.order_unique)
        (ground (arith, lookup-delete k k order, text_eq_iff k k));
  same_keys = λ j. ground (
    arith,
    text_eq_iff k j,
    lookup-append k j e (delete k order),
    lookup-delete k j order,
    a.same_keys j,
  );
  same_length = omega (
    arith,
    length-push k e (delete k order),
    length-delete k old order a.order_unique there,
    a.same_length,
  );
}

dropped-Agrees :
    (items : Dict (Unit {0})) (order : Dict CacheEntry) (k : Text) (u : Unit {0}) (old : CacheEntry)
    → Agrees items order
    → lookup k items ≡ some u
    → lookup k order ≡ some old
    → Agrees (delete k items) (delete k order)
dropped-Agrees items order k u old a here there = record {
  items_unique = delete-Unique k items a.items_unique;
  order_unique = delete-Unique k order a.order_unique;
  same_keys = λ j.
      ground
        (arith, text_eq_iff k j, lookup-delete k j items, lookup-delete k j order, a.same_keys j);
  same_length = omega (
    arith,
    length-delete k u items a.items_unique here,
    length-delete k old order a.order_unique there,
    a.same_length,
  );
}

pub get-IsValid : (c : MemoryCache) (key : Text) (now : ℕ) → IsValid c → IsValid (get c key now).0
unfolding get
get-IsValid c key now v = elim (Option-cases (lookup key c.items)) [
  | inl e ↦ rw (e, get) v
  | inr (u, e) ↦ elim (Option-cases (lookup key c.order)) [
    | inl f ↦ rw (e, get) (rw f v)
    | inr (x, f) ↦ elim (Bool-cases (ltb_ℤ x.expires_at (pos now))) [
      | inl old ↦
          let less = length-delete key u c.items v.agrees.items_unique e in
          rw (e, get)
            (rw f (
              rw old (record {
                agrees = dropped-Agrees c.items c.order key u x v.agrees e f;
                bounded = omega (arith, less, v.bounded);
                positive = v.positive;
              })))
      | inr fresh ↦
          rw (e, get)
            (rw f (
              rw fresh (record {
                agrees = moved-Agrees c.items c.order key x x v.agrees f;
                bounded = v.bounded;
                positive = v.positive;
              })))
    ]
  ]
]

pub set-IsValid :
    (c : MemoryCache) (key : Text) (value : CacheRecord) (now : ℕ)
    → IsValid c
    → IsValid (set c key value now)
unfolding set
set-IsValid c key value now v =
    let e : CacheEntry = record { expires_at = pos now +ℤ c.ttl; value = value } in
    elim (Option-cases (lookup key c.items)) [
      | inr (u, there) ↦ elim (Option-cases (lookup key c.order)) [
        | inl missing ↦ absurd (ground (arith, v.agrees.same_keys key))
        | inr (old, f) ↦
            rw (there, set)
              (record {
                agrees = moved-Agrees c.items c.order key old e v.agrees f;
                bounded = v.bounded;
                positive = v.positive;
              })
      ]
      | inl new ↦
          let (a, b) =
            evict-Agrees c.max_entries (insert key tt c.items) (c.order ++ (key, e) ∷ [])
              (push-Agrees c.items c.order key e v.agrees new) in
          rw (new, set) (record { agrees = a; bounded = b; positive = v.positive })
    ]

pub new_memory_cache-IsValid : (ttl most : ℤ) → IsValid (new_memory_cache ttl most)
unfolding new_memory_cache lookup
new_memory_cache-IsValid ttl most = record {
  agrees = record {
    items_unique = tt;
    order_unique = tt;
    same_keys = λ k. refl;
    same_length = refl;
  };
  bounded = omega arith;
  positive = ground arith;
}
