-- ===== src/Account/Window.antt =====
-- internal/gateway/pool.go: the window of recent requests (recordRequestLocked's list and
-- trimRecentRequestsLocked), over Go's binary search sort.Search.
use ghcp_pool_go.Base.{
  ℕ, zero, suc, ◌+◌, ◌-◌, ◌/◌, ◌≤◌, ◌<◌, ◌≡◌, refl, Bool, true, false, none, some, List, [], ◌∷◌,
  arith, leb, ltb, length, get_elem?, drop, keep, All, tests, ap, sym, leb→le, le→leb, Bool-cases,
  inl, inr,
}

pub record RequestRecord : Type 0 where
  pub at : ℕ
  pub failed : Bool
  pub is_429 : Bool

-- recentRequestWindow: one hour.
abbrev pub window : ℕ
window = 3600000000000

-- The loop of sort.Search over [i, j), with fuel for its rounds.
pub search_from : ℕ → (ℕ → Bool) → ℕ → ℕ → ℕ
search_from zero f i j = i
search_from (suc fuel) f i j = elim (ltb i j) [
  | false ↦ i
  | true ↦ elim (f ((i + j) / 2)) [
    | true ↦ search_from fuel f i ((i + j) / 2)
    | false ↦ search_from fuel f ((i + j) / 2 + 1) j
  ]
]

unfoldable pub search : ℕ → (ℕ → Bool) → ℕ
unfolding search_from
search n f = search_from n f 0 n

-- `!records[i].At.Before(cutoff)`
abbrev pub fresh_at : ℕ → List RequestRecord → ℕ → Bool
fresh_at cutoff rs i = elim (get_elem? rs i) [ none ↦ true | some r ↦ leb cutoff r.at ]

unfoldable pub trim_recent_requests : ℕ → List RequestRecord → List RequestRecord
unfolding search
trim_recent_requests now rs = drop (search (length rs) (fresh_at (now - window) rs)) rs

-- `f` goes from false to true at most once below `n`.
abbrev pub Monotone : ℕ → (ℕ → Bool) → Type 0
Monotone n f = (i j : ℕ) → i ≤ j → j < n → f i ≡ true → f j ≡ true

-- `r` is where `f` turns true.
pub record IsTurn (n : ℕ) (f : ℕ → Bool) (r : ℕ) : Type 0 where
  pub bounded : r ≤ n
  pub before : (k : ℕ) → k < r → f k ≡ false
  pub after : (k : ℕ) → r ≤ k → k < n → f k ≡ true

not_before :
    (n : ℕ) (f : ℕ → Bool) (k m : ℕ) → Monotone n f → k ≤ m → m < n → f m ≡ false → f k ≡ false
not_before n f k m mono le lt h = elim (Bool-cases (f k)) [
  | inl t ↦ ground (arith, mono k m le lt t)
  | inr e ↦ e
]

search_from-IsTurn :
    (fuel n : ℕ) (f : ℕ → Bool) (i j : ℕ)
    → Monotone n f
    → j - i ≤ fuel
    → i ≤ j
    → j ≤ n
    → ((k : ℕ) → k < i → f k ≡ false)
    → ((k : ℕ) → j ≤ k → k < n → f k ≡ true)
    → IsTurn n f (search_from fuel f i j)
unfolding search_from
search_from-IsTurn zero n f i j mono enough le top before after = record {
  bounded = omega arith;
  before = before;
  after = λ k p q. after k (omega arith) q;
}
search_from-IsTurn (suc fuel) n f i j mono enough le top before after =
    elim (Bool-cases (ltb i j)) [
      | inl more ↦ elim (Bool-cases (f ((i + j) / 2))) [
        | inl hit ↦
            rw (more, search_from)
              (rw (hit, search_from)
                (search_from-IsTurn fuel n f i ((i + j) / 2) mono (omega tests) (omega tests)
                  (omega tests) before (λ k p q. mono ((i + j) / 2) k p q hit)))
        | inr miss ↦
            rw (more, search_from)
              (rw (miss, search_from)
                (search_from-IsTurn fuel n f ((i + j) / 2 + 1) j mono (omega tests) (omega tests)
                  top (λ k p. not_before n f k ((i + j) / 2) mono (omega arith) (omega tests) miss)
                  after))
      ]
      | inr done ↦
          rw (done, search_from)
            (record {
              bounded = omega tests;
              before = before;
              after = λ k p q. after k (omega tests) q;
            })
    ]

-- sort.Search finds where a monotone test turns true, and its fuel suffices.
pub search-IsTurn : (n : ℕ) (f : ℕ → Bool) → Monotone n f → IsTurn n f (search n f)
unfolding search
search-IsTurn n f mono =
    search_from-IsTurn n n f 0 n mono (omega arith) (omega arith) (omega arith)
      (λ k p. absurd (omega arith)) (λ k p q. absurd (omega arith))

-- The records in the order of their times.
abbrev pub Sorted : List RequestRecord → Type 0
Sorted [] = Unit
Sorted (r ∷ rs) = All (λ s. r.at ≤ s.at) rs × Sorted rs

keep-All :
    (cutoff : ℕ) (r : RequestRecord) (rs : List RequestRecord)
    → cutoff ≤ r.at
    → All (λ s. r.at ≤ s.at) rs
    → keep (λ s. leb cutoff s.at) rs ≡ rs
keep-All cutoff r [] h a = refl
keep-All cutoff r (s ∷ rs) h a = ground (arith, keep-All cutoff r rs h a.1)

-- Where the records are in order, dropping up to the turn is keeping the fresh ones.
drop-turn :
    (cutoff n : ℕ) (rs : List RequestRecord)
    → Sorted rs
    → IsTurn (length rs) (fresh_at cutoff rs) n
    → drop n rs ≡ keep (λ r. leb cutoff r.at) rs
drop-turn cutoff zero [] s t = refl
drop-turn cutoff (suc n) [] s t = refl
drop-turn cutoff zero (r ∷ rs) s t =
    let h = t.after 0 (omega arith) (omega arith) in
    rw h (ap (◌∷◌ r) (sym (keep-All cutoff r rs (leb→le _ _ h) s.0)))
drop-turn cutoff (suc n) (r ∷ rs) s t = rw (t.before 0 (omega arith)) (
    drop-turn cutoff n rs s.1 (record {
      bounded = omega (arith, t.bounded);
      before = λ k p. t.before (suc k) (omega arith);
      after = λ k p q. t.after (suc k) (omega arith) (omega arith);
    }))

fresh_mono :
    (cutoff : ℕ) (rs : List RequestRecord) → Sorted rs → Monotone (length rs) (fresh_at cutoff rs)
fresh_mono cutoff [] s i j le lt h = refl
fresh_mono cutoff (r ∷ rs) s zero zero le lt h = h
fresh_mono cutoff (r ∷ rs) s zero (suc j) le lt h = later_fresh rs j s.0 (omega arith)
  where
    later_fresh :
        (ss : List RequestRecord) (k : ℕ)
        → All (λ t. r.at ≤ t.at) ss
        → k < length ss
        → fresh_at cutoff ss k ≡ true
    later_fresh [] k a p = refl
    later_fresh (t ∷ ss) zero a p = le→leb _ _ (omega tests)
    later_fresh (t ∷ ss) (suc k) a p = later_fresh ss k a.1 (omega arith)
fresh_mono cutoff (r ∷ rs) s (suc i) zero le lt h = absurd (omega arith)
fresh_mono cutoff (r ∷ rs) s (suc i) (suc j) le lt h =
    fresh_mono cutoff rs s.1 i j (omega arith) (omega arith) h

-- On records in order the binary search drops exactly the records older than the window.
pub trim_recent_requests-keep :
    (now : ℕ) (rs : List RequestRecord)
    → Sorted rs
    → trim_recent_requests now rs ≡ keep (λ r. leb (now - window) r.at) rs
unfolding trim_recent_requests
trim_recent_requests-keep now rs s =
    drop-turn (now - window) (search (length rs) (fresh_at (now - window) rs)) rs s
      (search-IsTurn (length rs) (fresh_at (now - window) rs) (fresh_mono (now - window) rs s))
