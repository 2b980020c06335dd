-- ===== src/Gateway/Sent.antt =====
-- internal/gateway/gateway.go: what StreamChat has sent once it comes to its end.
use ghcp_pool_go.Base.{
  true_ne_false, ℕ, ◌+◌, ◌≡◌, refl, sym, ap, ◌∙◌, subst, inl, inr, Bool, true, false, Option, none,
  some, List, [], ◌∷◌, ◌++◌, All, if◌then◌else◌, text, append_assoc, append-nil, length, Text,
  Bool-cases,
}
use ghcp_pool_go.Errors.{BackendError}
use ghcp_pool_go.Gateway.{Plan}
use ghcp_pool_go.Gateway.Streams.{
  Gathered, nothing_yet, Opening, opened, not_opened, Ending, complete, client_left, broke, gather,
  gather_kind, ChatChunk, content_chunk, finish_chunk, usage_chunk, done_chunk, chat_chunk,
  chat_items, close_chat, chat_answer, deliver, last_reason, with_usage, ended, role_chunk,
  backend_error, has_calls,
}
use ghcp_pool_go.Results.{StreamItem, Kind, delta, tool_call, error, done, other_kind}
use ghcp_pool_go.Usage.{Usage}

-- The text that the client was sent.
abbrev pub chunk_text : ChatChunk → Text
chunk_text (content_chunk t) = t
chunk_text c = []

abbrev pub said : List ChatChunk → Text
said [] = []
said (c ∷ chunks) = chunk_text c ++ said chunks

said-append : (a b : List ChatChunk) → said (a ++ b) ≡ said a ++ said b
said-append [] b = refl
said-append (c ∷ a) b =
    ap (λ t. chunk_text c ++ t) (said-append a b)
    ∙ sym (append_assoc (chunk_text c) (said a) (said b))

-- An item adds to the text gathered what its chunk says.
abbrev said_by : Option ChatChunk → Text
said_by none = []
said_by (some c) = chunk_text c

gather-said :
    (s : Gathered) (i : StreamItem) (k : Kind)
    → (gather_kind s i k).content ≡ s.content ++ said_by (chat_chunk i k)
gather-said s i delta = refl
gather-said s i tool_call = sym (append-nil s.content)
gather-said s i error = sym (append-nil s.content)
gather-said s i done = sym (append-nil s.content)
gather-said s i (other_kind k) = sym (append-nil s.content)

abbrev pub Said : Type 0
Said = List ChatChunk × Gathered × Ending

-- A stream that comes to its end has gathered the text that it has sent.
abbrev Tells : Gathered → Said → Type 0
Tells s r = r.2 ≡ complete → r.1.content ≡ s.content ++ said r.0

abbrev one_item :
    Gathered → Gathered → Option BackendError → Option ChatChunk → Bool → Said → Said → Said
one_item s t (some e) o b quiet loud = ([], s, broke e)
one_item s t none none b quiet loud = quiet
one_item s t none (some c) false quiet loud = ([], t, client_left)
one_item s t none (some c) true quiet loud = (c ∷ loud.0, loud.1, loud.2)

one_item-Tells :
    (s t : Gathered) (f : Option BackendError) (o : Option ChatChunk) (b : Bool) (quiet loud : Said)
    → t.content ≡ s.content ++ said_by o
    → Tells t quiet
    → Tells t loud
    → Tells s (one_item s t f o b quiet loud)
one_item-Tells s t (some e) o b quiet loud g k l h = absurd (cc)
one_item-Tells s t none none b quiet loud g k l h =
    k h ∙ ap (λ x. x ++ said quiet.0) (g ∙ append-nil s.content)
one_item-Tells s t none (some c) false quiet loud g k l h = absurd (cc)
one_item-Tells s t none (some c) true quiet loud g k l h =
    l h ∙ ap (λ x. x ++ said loud.0) g ∙ append_assoc s.content (chunk_text c) (said loud.0)

chat_items_one :
    (taken : ℕ → Bool) (n : ℕ) (s : Gathered) (i : StreamItem) (items : List StreamItem)
    (f : Option BackendError) (o : Option ChatChunk) (b : Bool)
    → i.failure ≡ f
    → chat_chunk i i.kind ≡ o
    → taken n ≡ b
    → chat_items taken n s (i ∷ items)
      ≡ one_item s
          (gather s i)
          f
          o
          b
          (chat_items taken n (gather s i) items)
          (chat_items taken (n + 1) (gather s i) items)
unfolding chat_items
chat_items_one taken n s i items (some e) o b p q r = rw (chat_items, p) refl
chat_items_one taken n s i items none none b p q r = rw (chat_items, p) (rw q refl)
chat_items_one taken n s i items none (some c) false p q r = rw (chat_items, p) (rw q (rw r refl))
chat_items_one taken n s i items none (some c) true p q r = rw (chat_items, p) (rw q (rw r refl))

chat_items-Tells :
    (taken : ℕ → Bool) (n : ℕ) (s : Gathered) (items : List StreamItem)
    → Tells s (chat_items taken n s items)
unfolding chat_items
chat_items-Tells taken n s [] = λ h. sym (append-nil s.content)
chat_items-Tells taken n s (i ∷ items) =
    subst (Tells s)
      (sym
        (chat_items_one taken n s i items i.failure (chat_chunk i i.kind) (taken n) refl refl refl))
      (one_item-Tells s (gather s i) i.failure (chat_chunk i i.kind) (taken n)
        (chat_items taken n (gather s i) items) (chat_items taken (n + 1) (gather s i) items)
        (gather-said s i i.kind) (chat_items-Tells taken n (gather s i) items)
        (chat_items-Tells taken (n + 1) (gather s i) items))

-- Chunks without text.
abbrev Silent : List ChatChunk → Type 0
Silent = All (λ c. chunk_text c ≡ [])

deliver-Silent :
    (taken : ℕ → Bool) (n : ℕ) (chunks : List ChatChunk)
    → Silent chunks
    → said (deliver taken n chunks).0 ≡ []
unfolding deliver
deliver-Silent taken n [] h = refl
deliver-Silent taken n (c ∷ chunks) h = elim (Bool-cases (taken n)) [
  | inl y ↦
      rw (deliver, y)
        (ap (λ t. t ++ said (deliver taken (n + 1) chunks).0) h.0
          ∙ deliver-Silent taken (n + 1) chunks h.1)
  | inr f ↦ rw (deliver, f) refl
]

usage-Silent : (plan : Plan) (u : Usage) → Silent (with_usage plan u ++ done_chunk ∷ [])
usage-Silent plan u = by_flag plan.include_usage
  where
    by_flag : (b : Bool) → Silent ((if b then usage_chunk u ∷ [] else []) ++ done_chunk ∷ [])
    by_flag true = (refl, (refl, tt))
    by_flag false = (refl, tt)

last_reason-content : (s : Gathered) → (last_reason s).content ≡ s.content
last_reason-content s = by_flag (has_calls s.calls)
  where
    by_flag :
        (b : Bool) → (if b then record s { finish = text "tool_calls" } else s).content ≡ s.content
    by_flag true = refl
    by_flag false = refl

-- The end of an answer adds no text, and does not make a broken stream complete.
record Closes (s : Gathered) (end : Ending) (r : Said) : Type 0 where
  whole : r.2 ≡ complete → end ≡ complete
  same : r.1.content ≡ s.content
  silent : said r.0 ≡ []

close_chat-Closes :
    (taken : ℕ → Bool) (n : ℕ) (plan : Plan) (s : Gathered) (end : Ending)
    → Closes s end (close_chat taken n plan s end)
unfolding close_chat
close_chat-Closes taken n plan s complete = record {
  whole = λ h. refl;
  same = last_reason-content s;
  silent =
      deliver-Silent taken n
        (finish_chunk (last_reason s).finish
          ∷ (with_usage plan (last_reason s).usage ++ done_chunk ∷ []))
        (refl, usage-Silent plan (last_reason s).usage);
}
close_chat-Closes taken n plan s client_left = record {
  whole = λ h. absurd (cc);
  same = refl;
  silent = refl;
}
close_chat-Closes taken n plan s (broke e) = record {
  whole = λ h. absurd (cc);
  same = refl;
  silent = deliver-Silent taken n (backend_error e ∷ []) (refl, tt);
}

-- The chunks of an opened stream, after the first.
abbrev rest_of : (ℕ → Bool) → Plan → List StreamItem → Said
rest_of taken plan items =
    let r = chat_items taken 1 nothing_yet items in
    let c = close_chat taken (1 + length r.0) plan r.1 r.2 in (r.0 ++ c.0, c.1, c.2)

rest_of-Tells :
    (taken : ℕ → Bool) (plan : Plan) (items : List StreamItem)
    → Tells nothing_yet (rest_of taken plan items)
rest_of-Tells taken plan items h =
    closes.same
    ∙ chat_items-Tells taken 1 nothing_yet items (closes.whole h)
    ∙ sym (said-append r.0 c.0 ∙ ap (λ t. said r.0 ++ t) closes.silent ∙ append-nil (said r.0))
  where
    r : Said
    r = chat_items taken 1 nothing_yet items

    c : Said
    c = close_chat taken (1 + length r.0) plan r.1 r.2

    closes : Closes r.1 r.2 c
    closes = close_chat-Closes taken (1 + length r.0) plan r.1 r.2

pub chat_answer-said :
    (taken : ℕ → Bool) (plan : Plan) (opening : Opening)
    → (chat_answer taken plan opening).2 ≡ complete
    → (chat_answer taken plan opening).1.content ≡ said (chat_answer taken plan opening).0
unfolding chat_answer
chat_answer-said taken plan (not_opened e) h = elim (Bool-cases (taken 0)) [
  | inr f ↦ rw (chat_answer, f) refl
  | inl y ↦ absurd (
      not_complete
        ((close_chat-Closes taken 1 plan nothing_yet (broke e)).whole (rw (chat_answer, y) at h)))
]
  where
    not_complete : broke e ≡ complete → ⊥
    not_complete q = cc
chat_answer-said taken plan (opened items) h = elim (Bool-cases (taken 0)) [
  | inr f ↦ rw (chat_answer, f) refl
  | inl y ↦ rw (chat_answer, y) (rest_of-Tells taken plan items (rw (chat_answer, y) at h))
]

-- The chunks end with the mark of a whole answer.
abbrev pub EndsDone : List ChatChunk → Type 0
EndsDone out = (before : List ChatChunk) × (out ≡ before ++ done_chunk ∷ [])

EndsDone-append : (before out : List ChatChunk) → EndsDone out → EndsDone (before ++ out)
EndsDone-append before out (rest, e) =
    (before ++ rest, ap (λ t. before ++ t) e ∙ sym (append_assoc before rest (done_chunk ∷ [])))

deliver_all :
    (taken : ℕ → Bool) (n : ℕ) (chunks : List ChatChunk)
    → (deliver taken n chunks).1 ≡ true
    → (deliver taken n chunks).0 ≡ chunks
unfolding deliver
deliver_all taken n [] h = refl
deliver_all taken n (c ∷ chunks) h = elim (Bool-cases (taken n)) [
  | inl y ↦
      rw (deliver, y) (ap (λ t. c ∷ t) (deliver_all taken (n + 1) chunks (rw (deliver, y) at h)))
  | inr f ↦ absurd (true_ne_false (sym (rw (deliver, f) at h)))
]

ended-complete : (all : Bool) → ended all ≡ complete → all ≡ true
ended-complete true h = refl
ended-complete false h = absurd (cc)

close_chat-EndsDone :
    (taken : ℕ → Bool) (n : ℕ) (plan : Plan) (s : Gathered) (end : Ending)
    → (close_chat taken n plan s end).2 ≡ complete
    → EndsDone (close_chat taken n plan s end).0
unfolding close_chat
close_chat-EndsDone taken n plan s complete h = (
  last,
  deliver_all taken n (last ++ done_chunk ∷ [])
      (ended-complete (deliver taken n (last ++ done_chunk ∷ [])).1 h),
)
  where
    last : List ChatChunk
    last = finish_chunk (last_reason s).finish ∷ with_usage plan (last_reason s).usage
close_chat-EndsDone taken n plan s client_left h = absurd (cc)
close_chat-EndsDone taken n plan s (broke e) h = absurd (cc)

pub chat_answer-EndsDone :
    (taken : ℕ → Bool) (plan : Plan) (opening : Opening)
    → (chat_answer taken plan opening).2 ≡ complete
    → EndsDone (chat_answer taken plan opening).0
unfolding chat_answer
chat_answer-EndsDone taken plan (not_opened e) h = elim (Bool-cases (taken 0)) [
  | inr f ↦ absurd (left (rw (chat_answer, f) at h))
  | inl y ↦ absurd (
      not_complete
        ((close_chat-Closes taken 1 plan nothing_yet (broke e)).whole (rw (chat_answer, y) at h)))
]
  where
    not_complete : broke e ≡ complete → ⊥
    not_complete q = cc

    left : client_left ≡ complete → ⊥
    left q = cc
chat_answer-EndsDone taken plan (opened items) h = elim (Bool-cases (taken 0)) [
  | inr f ↦ absurd (left (rw (chat_answer, f) at h))
  | inl y ↦
      rw (chat_answer, y)
        (EndsDone-append (role_chunk ∷ r.0) (close_chat taken (1 + length r.0) plan r.1 r.2).0
          (close_chat-EndsDone taken (1 + length r.0) plan r.1 r.2 (rw (chat_answer, y) at h)))
]
  where
    r : Said
    r = chat_items taken 1 nothing_yet items

    left : client_left ≡ complete → ⊥
    left q = cc
