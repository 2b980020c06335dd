-- ===== src/Sdk/Calls.antt =====
-- internal/gateway/copilot_http.go: appendToolCallUnique, the ids of the calls, and the numbers of the
-- items.
use ghcp_pool_go.Base.{
  ℕ, suc, ◌≡◌, refl, sym, ap, ◌∙◌, subst, ◌⊎◌, inl, inr, false, not, ◌&&◌, none, some, List, [],
  ◌∷◌, ◌++◌, map, All, length, Text, text_eq, is_empty, Bool-cases, Option-cases,
}
use ghcp_pool_go.Results.{StreamItem, Kind, delta, tool_call, error, done, other_kind}
use ghcp_pool_go.Sdk.{append_tool_call_unique, complete_call, completed, same_id}
use ghcp_pool_go.Usage.{ToolCall, normalized_call}

-- The items of a stream number its tool calls from `n` on, and `m` is the next number; each call has
-- a name.
abbrev Step : Kind → Type 0 → Type 0 → Type 0 → Type 0
Step tool_call here after same = here × after
Step k here after same = same

abbrev pub Counts : ℕ → List StreamItem → ℕ → Type 0
Counts n [] m = n ≡ m
Counts n (i ∷ items) m =
    Step i.kind ((i.index ≡ n) × (is_empty i.call.name ≡ false)) (Counts (suc n) items m)
      (Counts n items m)

Step-map : (k : Kind) (A B B' C C' : Type 0) → (B → B') → (C → C') → Step k A B C → Step k A B' C'
Step-map delta A B B' C C' f g h = g h
Step-map tool_call A B B' C C' f g h = (h.0, f h.1)
Step-map error A B B' C C' f g h = g h
Step-map done A B B' C C' f g h = g h
Step-map (other_kind k) A B B' C C' f g h = g h

pub Counts-append :
    (n m l : ℕ) (items more : List StreamItem)
    → Counts n items m
    → Counts m more l
    → Counts n (items ++ more) l
Counts-append n m l [] more h k = subst (λ x. Counts x more l) (sym h) k
Counts-append n m l (i ∷ items) more h k =
    Step-map i.kind ((i.index ≡ n) × (is_empty i.call.name ≡ false)) (Counts (suc n) items m)
      (Counts (suc n) (items ++ more) l) (Counts n items m) (Counts n (items ++ more) l)
      (λ c. Counts-append (suc n) m l items more c k) (λ c. Counts-append n m l items more c k) h

abbrev pub ids : List ToolCall → List Text
ids = map (λ call. call.id)

pub length-ids : (calls : List ToolCall) → length (ids calls) ≡ length calls
length-ids [] = refl
length-ids (call ∷ calls) = ap suc (length-ids calls)

some_inj : (a b : List ToolCall) → some a ≡ some b → a ≡ b
some_inj a b h = cc

none_ne_some : (a : List ToolCall) → none ≡ some a → ⊥
none_ne_some a h = cc

-- To complete a call keeps all ids.
ids-complete_call :
    (calls changed : List ToolCall) (next : ToolCall)
    → complete_call calls next ≡ some changed
    → ids changed ≡ ids calls
unfolding complete_call
ids-complete_call [] changed next h = absurd (none_ne_some changed h)
ids-complete_call (call ∷ calls) changed next h = elim (Bool-cases (same_id call next)) [
  | inl y ↦
      ap ids (sym (some_inj (completed call next ∷ calls) changed (rw (complete_call, y) at h)))
  | inr f ↦ elim (Option-cases (complete_call calls next)) [
    | inl e ↦ absurd (none_ne_some changed (rw e at (rw (complete_call, f) at h)))
    | inr (rest, e) ↦
        ap ids (sym (some_inj (call ∷ rest) changed (rw e at (rw (complete_call, f) at h))))
        ∙ ap (λ t. call.id ∷ t) (ids-complete_call calls rest next e)
  ]
]

-- Two ids are different, or one is empty.
abbrev pub Apart : Text → Text → Type 0
Apart a b = (not (is_empty a) && not (is_empty b) && text_eq a b) ≡ false

abbrev pub Distinct : List Text → Type 0
Distinct [] = Unit
Distinct (a ∷ xs) = All (Apart a) xs × Distinct xs

no_call_of_id :
    (calls : List ToolCall) (next : ToolCall)
    → complete_call calls next ≡ none
    → All (λ a. Apart a next.id) (ids calls)
unfolding complete_call
no_call_of_id [] next h = tt
no_call_of_id (call ∷ calls) next h = elim (Bool-cases (same_id call next)) [
  | inl y ↦ absurd (none_ne_some (completed call next ∷ calls) (sym (rw (complete_call, y) at h)))
  | inr f ↦ elim (Option-cases (complete_call calls next)) [
    | inl e ↦ (f, no_call_of_id calls next e)
    | inr (rest, e) ↦
        absurd (none_ne_some (call ∷ rest) (sym (rw e at (rw (complete_call, f) at h))))
  ]
]

pub ids-append :
    (calls : List ToolCall) (next : ToolCall) → ids (calls ++ next ∷ []) ≡ ids calls ++ next.id ∷ []
ids-append [] next = refl
ids-append (call ∷ calls) next = ap (λ t. call.id ∷ t) (ids-append calls next)

All-append : (P : Text → Type 0) (xs : List Text) (b : Text) → All P xs → P b → All P (xs ++ b ∷ [])
All-append P [] b h k = (k, tt)
All-append P (a ∷ xs) b h k = (h.0, All-append P xs b h.1 k)

pub Distinct-append :
    (xs : List Text) (b : Text) → Distinct xs → All (λ a. Apart a b) xs → Distinct (xs ++ b ∷ [])
Distinct-append [] b d h = (tt, tt)
Distinct-append (a ∷ xs) b d h = (All-append (Apart a) xs b d.0 h.0, Distinct-append xs b d.1 h.1)

-- A call changes no id, or comes last, with a name and an id of its own.
abbrev pub Changes : List ToolCall → ToolCall → List ToolCall → Type 0
Changes calls next changed =
    (ids changed ≡ ids calls)
    ⊎ ((changed ≡ calls ++ next ∷ [])
        × (is_empty next.name ≡ false)
        × All (λ a. Apart a next.id) (ids calls))

pub append_tool_call_unique-Changes :
    (calls : List ToolCall) (call : ToolCall)
    → Changes calls (normalized_call call) (append_tool_call_unique calls call)
unfolding append_tool_call_unique
append_tool_call_unique-Changes calls call =
    elim (Bool-cases (is_empty (normalized_call call).name)) [
      | inl y ↦ rw (append_tool_call_unique, y) (inl refl)
      | inr f ↦ elim (Option-cases (complete_call calls (normalized_call call))) [
        | inl e ↦
            rw (append_tool_call_unique, f)
              (rw e (inr (refl, refl, no_call_of_id calls (normalized_call call) e)))
        | inr (rest, e) ↦
            rw (append_tool_call_unique, f)
              (rw e (inl (ids-complete_call calls rest (normalized_call call) e)))
      ]
    ]
