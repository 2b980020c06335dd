-- ===== src/Debug/Ring.antt =====
-- internal/gateway/debug.go: the entries that the recorder has are the newest of those that it was
-- given.
use ghcp_pool_go.Base.{
  ℕ, zero, suc, ◌+◌, ◌-◌, ◌≤◌, ◌≡◌, refl, sym, ap, ◌∙◌, inl, inr, Bool, false, List, [], ◌∷◌, ◌++◌,
  ltb, length, drop, Text, Dict, arith, Bool-cases,
}
use ghcp_pool_go.Json.{Value}
use ghcp_pool_go.Debug.{
  DebugConfig, Entry, DebugRecorder, last_of, new_debug_recorder, set_enabled, clear_entries,
  record_entry,
}

module _ {A : Type 0} where
  last_of-drop : (n : ℕ) (xs : List A) → last_of n xs ≡ drop (length xs - n) xs
  last_of-drop n xs = elim (Bool-cases (ltb n (length xs))) [
    | inl y ↦ rw y refl
    | inr f ↦ rw f (sym (ap (λ k. drop k xs) (short f)))
  ]
    where
      short : ltb n (length xs) ≡ false → length xs - n ≡ 0
      short f = ground arith

  drop-nil : (k : ℕ) → drop {A = A} k [] ≡ []
  drop-nil zero = refl
  drop-nil (suc k) = refl

  drop-drop : (a b : ℕ) (xs : List A) → drop a (drop b xs) ≡ drop (b + a) xs
  drop-drop a zero xs = ap (λ k. drop k xs) (omega arith)
  drop-drop a (suc b) [] = drop-nil a ∙ sym (drop-nil (suc b + a))
  drop-drop a (suc b) (x ∷ xs) = drop-drop a b xs ∙ ap (λ k. drop k (x ∷ xs)) (shift a b)
    where
      shift : (a b : ℕ) → suc (b + a) ≡ suc b + a
      shift a b = omega arith

  drop-append : (b : ℕ) (xs ys : List A) → b ≤ length xs → drop b (xs ++ ys) ≡ drop b xs ++ ys
  drop-append zero xs ys h = refl
  drop-append (suc b) [] ys h = absurd (omega (arith, h))
  drop-append (suc b) (x ∷ xs) ys h = drop-append b xs ys (omega (arith, h))

  length-drop : (b : ℕ) (xs : List A) → length (drop b xs) ≡ length xs - b
  length-drop zero xs = omega arith
  length-drop (suc b) [] = omega arith
  length-drop (suc b) (x ∷ xs) = omega (arith, length-drop b xs)

  length-append_one : (xs : List A) (x : A) → length (xs ++ x ∷ []) ≡ length xs + 1
  length-append_one [] x = refl
  length-append_one (y ∷ xs) x = omega (arith, length-append_one xs x)

  -- To keep the last `n` twice is to keep them once.
  last_of-append :
      (n : ℕ) (xs : List A) (x : A) → last_of n (last_of n xs ++ x ∷ []) ≡ last_of n (xs ++ x ∷ [])
  last_of-append n xs x =
      let b : ℕ = length xs - n in
      let all : List A = xs ++ x ∷ [] in
      ap (λ ys. last_of n (ys ++ x ∷ [])) (last_of-drop n xs)
      ∙ ap (λ ys. last_of n ys) (sym (drop-append b xs (x ∷ []) (omega arith)))
      ∙ last_of-drop n (drop b all)
      ∙ drop-drop (length (drop b all) - n) b all
      ∙ ap (λ k. drop k all) (omega (arith, length-drop b all, length-append_one xs x))
      ∙ sym (last_of-drop n all)

none_kept : (n : ℕ) → last_of {A = Entry} n [] ≡ []
none_kept n = last_of-drop n [] ∙ drop-nil (0 - n)

-- The calls that change a recorder.
pub data Call : Type 0 where
  enable : Bool → Call
  clear : Call
  entry : ℕ → Text → Dict Value → Call

unfoldable pub call_once : DebugRecorder → Call → DebugRecorder
unfolding set_enabled clear_entries record_entry
call_once d (enable b) = set_enabled d b
call_once d clear = (clear_entries d).0
call_once d (entry now path details) = record_entry d now path details

-- The calls, the last one first.
unfoldable pub after_calls : DebugRecorder → List Call → DebugRecorder
unfolding call_once
after_calls d [] = d
after_calls d (call ∷ earlier) = call_once (after_calls d earlier) call

-- All entries since the recorder was cleared, numbered from the first one on.
pub record Log : Type 0 where
  pub count : ℕ
  pub all : List Entry

abbrev pub log : List Call → Log
log [] = record { count = 0; all = [] }
log (enable b ∷ earlier) = log earlier
log (clear ∷ earlier) = record { count = (log earlier).count; all = [] }
log (entry now path details ∷ earlier) = record {
  count = (log earlier).count + 1;
  all =
      (log earlier).all
      ++ record { seq = (log earlier).count + 1; ts = now; path = path; details = details } ∷ [];
}

pub record Refines (m : ℕ) (d : DebugRecorder) (l : Log) : Type 0 where
  pub size : d.max_entries ≡ m
  pub count : d.seq ≡ l.count
  pub newest : d.entries ≡ last_of m l.all

-- One more entry of a recorder that refines a log.
one_more :
    (m n k now : ℕ) (path : Text) (details : Dict Value) (kept all : List Entry)
    → n ≡ m
    → kept ≡ last_of m all
    → (s : ℕ) → s ≡ k
    → last_of n (kept ++ record { seq = s + 1; ts = now; path = path; details = details } ∷ [])
      ≡ last_of m (all ++ record { seq = k + 1; ts = now; path = path; details = details } ∷ [])
one_more m n k now path details kept all size e s count =
    rw (size, e, count)
      (last_of-append m all (record { seq = k + 1; ts = now; path = path; details = details }))

-- After any calls, a recorder has exactly the newest of the entries that it was given since it was
-- last cleared, at most as many as it may have, each with the number of entries before it and
-- including it since the start as its seq.
pub after_calls-Refines :
    (config : DebugConfig) (calls : List Call)
    → Refines
        (new_debug_recorder config).max_entries
        (after_calls (new_debug_recorder config) calls)
        (log calls)
unfolding after_calls new_debug_recorder
after_calls-Refines config [] = record {
  size = refl;
  count = refl;
  newest = sym (none_kept (new_debug_recorder config).max_entries);
}
after_calls-Refines config (enable b ∷ earlier) =
    let before = after_calls-Refines config earlier in
    record { size = before.size; count = before.count; newest = before.newest }
after_calls-Refines config (clear ∷ earlier) =
    let before = after_calls-Refines config earlier in
    record {
      size = before.size;
      count = before.count;
      newest = sym (none_kept (new_debug_recorder config).max_entries);
    }
after_calls-Refines config (entry now path details ∷ earlier) =
    let before = after_calls-Refines config earlier in
    record {
      size = before.size;
      count = omega (arith, before.count);
      newest =
          one_more (new_debug_recorder config).max_entries
            (after_calls (new_debug_recorder config) earlier).max_entries (log earlier).count now
            path details (after_calls (new_debug_recorder config) earlier).entries (log earlier).all
            before.size before.newest (after_calls (new_debug_recorder config) earlier).seq
            before.count;
    }
