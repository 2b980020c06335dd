-- ===== src/Sink/Delivery.antt =====
-- What the sink promises: no event is reordered or lost uncounted, and the buffers stay bounded.
use mathlib.Core.List.{append_assoc, append-nil}
use ghcp_pool_go.Base.{
  ℕ, ◌+◌, ◌^◌, ◌≤◌, ◌<◌, ◌≡◌, refl, sym, ap, subst, ◌∙◌, true, false, List, [], ◌∷◌, ◌++◌, arith,
  ltb, leb, length, Bool-cases, true_ne_false, inl, inr,
}
use ghcp_pool_go.Sink.{
  Queue, UsageRecord, buffer_size, batch_size, new_queue, emit_queue, flush, receive, finish, Work,
  receives, ticks, closes, begins, drains, stops, begin_drain, drain_one, IsIn, accepted, Steps,
  start, emits, works,
}

-- The batches in one list.
abbrev pub all_of : List (List UsageRecord) → List UsageRecord
all_of [] = []
all_of (b ∷ bs) = b ++ all_of bs

all_of-snoc :
    (bs : List (List UsageRecord)) (b : List UsageRecord) → all_of (bs ++ b ∷ []) ≡ all_of bs ++ b
all_of-snoc [] b = append-nil b
all_of-snoc (c ∷ bs) b = ap (λ z. c ++ z) (all_of-snoc bs b) ∙ sym (append_assoc c (all_of bs) b)

-- What the sink holds of what it took, in order: uploaded, in the batch, in the channel.
abbrev pub held : Queue → List UsageRecord
held q = (all_of q.uploaded ++ q.batch) ++ q.events

pub record Delivers (n : ℕ) (es : List UsageRecord) (q : Queue) : Type 0 where
  pub in_order : held q ≡ es
  pub counted : n < 2 ^ 64 → n ≡ length es + q.dropped
  pub buffered : length q.events ≤ buffer_size
  pub batched : IsIn false q → length q.batch < batch_size
  pub emptied : q.stopped ≡ true → q.batch ≡ []

length-snoc : (es : List UsageRecord) (e : UsageRecord) → length (es ++ e ∷ []) ≡ length es + 1
length-snoc [] e = refl
length-snoc (x ∷ es) e = omega (arith, length-snoc es e)

held-flush : (q : Queue) → held (flush q) ≡ held q
unfolding flush
held-flush q = go q.batch refl
  where
    go : (b : List UsageRecord) → q.batch ≡ b → held (flush q) ≡ held q
    go [] e = rw (e, flush) (ap (λ b. (all_of q.uploaded ++ b) ++ q.events) e)
    go (x ∷ b) e =
        rw (e, flush) (ap (λ z. z ++ q.events) (append-nil _ ∙ all_of-snoc q.uploaded (x ∷ b)))

flush_keeps :
    (q : Queue)
    → ((flush q).batch ≡ [])
      × ((flush q).events ≡ q.events)
      × ((flush q).dropped ≡ q.dropped)
      × ((flush q).stopped ≡ q.stopped)
      × ((flush q).draining ≡ q.draining)
unfolding flush
flush_keeps q = ground arith

emit_queue-Delivers :
    (n : ℕ) (es : List UsageRecord) (q : Queue) (rec : UsageRecord)
    → Delivers n es q
    → Delivers (n + 1) (es ++ accepted q rec) (emit_queue q rec)
unfolding emit_queue
emit_queue-Delivers n es q rec d = elim (Bool-cases (ltb (length q.events) buffer_size)) [
  | inl room ↦
      rw (room, emit_queue)
        (record {
          in_order =
              sym (append_assoc (all_of q.uploaded ++ q.batch) q.events (rec ∷ []))
              ∙ ap (λ z. z ++ rec ∷ []) d.in_order;
          counted = λ few. omega (arith, d.counted (omega arith), length-snoc es rec);
          buffered = ground (arith, length-snoc q.events rec);
          batched = d.batched;
          emptied = d.emptied;
        })
  | inr full ↦
      rw (full, emit_queue)
        (record {
          in_order = d.in_order ∙ sym (append-nil es);
          counted = λ few. omega (arith, d.counted (omega arith), ap length (append-nil es));
          buffered = d.buffered;
          batched = d.batched;
          emptied = d.emptied;
        })
]

-- The event moves from the channel to the batch.
abbrev moved : Queue → UsageRecord → List UsageRecord → Queue
moved q rec rest = record q { events = rest; batch = q.batch ++ rec ∷ [] }

held-moved :
    (q : Queue) (rec : UsageRecord) (rest : List UsageRecord)
    → q.events ≡ rec ∷ rest
    → held (moved q rec rest) ≡ held q
held-moved q rec rest e =
    ap (λ z. z ++ rest) (sym (append_assoc (all_of q.uploaded) q.batch (rec ∷ [])))
    ∙ append_assoc (all_of q.uploaded ++ q.batch) (rec ∷ []) rest
    ∙ ap (λ z. (all_of q.uploaded ++ q.batch) ++ z) (sym e)

receive-Delivers :
    (n : ℕ) (es : List UsageRecord) (q : Queue) (rec : UsageRecord) (rest : List UsageRecord)
    → IsIn false q
    → q.events ≡ rec ∷ rest
    → Delivers n es q
    → Delivers n es (receive q rec rest)
unfolding receive
receive-Delivers n es q rec rest runs e d =
    let shorter = ap length e in
    let few = d.buffered in
    elim (Bool-cases (leb batch_size (length (q.batch ++ rec ∷ [])))) [
      | inl full ↦
          let (b, ev, dr, st, di) = flush_keeps (moved q rec rest) in
          rw full (record {
            in_order = held-flush (moved q rec rest) ∙ held-moved q rec rest e ∙ d.in_order;
            counted = λ small. d.counted small ∙ ap (λ k. length es + k) (sym dr);
            buffered = omega (arith, ap length ev);
            batched = λ s. omega (arith, ap length b);
            emptied = λ s. b;
          })
      | inr more ↦ rw more (record {
        in_order = held-moved q rec rest e ∙ d.in_order;
        counted = d.counted;
        buffered = omega arith;
        batched = λ s. ground arith;
        emptied = λ s. absurd (cc (s, runs.0));
      })
    ]

flush-Delivers :
    (n : ℕ) (es : List UsageRecord) (q : Queue) → Delivers n es q → Delivers n es (flush q)
flush-Delivers n es q d =
    let (b, ev, dr, st, di) = flush_keeps q in
    record {
      in_order = held-flush q ∙ d.in_order;
      counted = λ small. d.counted small ∙ ap (λ k. length es + k) (sym dr);
      buffered = subst (λ k. length k ≤ buffer_size) (sym ev) d.buffered;
      batched = λ s. omega (arith, ap length b);
      emptied = λ s. b;
    }

drain_one-Delivers :
    (n : ℕ) (es : List UsageRecord) (q : Queue) (rec : UsageRecord) (rest : List UsageRecord)
    → IsIn true q
    → q.events ≡ rec ∷ rest
    → Delivers n es q
    → Delivers n es (drain_one q rec rest)
unfolding drain_one
drain_one-Delivers n es q rec rest runs e d =
    let shorter = ap length e in
    let few = d.buffered in
    record {
      in_order = held-moved q rec rest e ∙ d.in_order;
      counted = d.counted;
      buffered = omega arith;
      batched = λ s. absurd (cc (s.1, runs.1));
      emptied = λ s. absurd (cc (s, runs.0));
    }

finish-Delivers :
    (n : ℕ) (es : List UsageRecord) (q : Queue) → Delivers n es q → Delivers n es (finish q)
unfolding finish
finish-Delivers n es q d =
    let flushed = flush-Delivers n es q d in
    let (b, ev, dr, st, di) = flush_keeps q in
    record {
      in_order = flushed.in_order;
      counted = flushed.counted;
      buffered = flushed.buffered;
      batched = λ s. absurd (cc (s.0));
      emptied = λ s. b;
    }

Work-Delivers :
    (n : ℕ) (es : List UsageRecord) (q r : Queue) → Work q r → Delivers n es q → Delivers n es r
unfolding begin_drain
Work-Delivers n es q _ (receives rec rest runs e) d = receive-Delivers n es q rec rest runs e d
Work-Delivers n es q _ (ticks runs) d = flush-Delivers n es q d
Work-Delivers n es q _ (closes o) d = record {
  in_order = d.in_order;
  counted = d.counted;
  buffered = d.buffered;
  batched = d.batched;
  emptied = d.emptied;
}
Work-Delivers n es q _ (begins runs closed) d = record {
  in_order = d.in_order;
  counted = d.counted;
  buffered = d.buffered;
  batched = λ s. absurd (true_ne_false (s.1));
  emptied = λ s. absurd (cc (s, runs.0));
}
Work-Delivers n es q _ (drains rec rest runs e) d = drain_one-Delivers n es q rec rest runs e d
Work-Delivers n es q _ (stops runs none_left) d = finish-Delivers n es q d

-- Whatever callers and worker do in whatever order, the events that the channel took are uploaded,
-- in the batch or in the channel in the order in which they were emitted, those that it did not take
-- are counted as dropped (below 2^64 events), the channel holds 2048 at most, the batch stays below
-- 100 until the worker drains the channel after Close, and it is empty once the worker has returned.
pub Steps-Delivers :
    (n : ℕ) (es : List UsageRecord) (q : Queue) → Steps new_queue n es q → Delivers n es q
unfolding new_queue
Steps-Delivers _ _ _ start = record {
  in_order = refl;
  counted = λ few. refl;
  buffered = omega arith;
  batched = λ s. omega arith;
  emptied = λ s. absurd (cc);
}
Steps-Delivers _ _ _ (emits {q = q} {n = n} {es = es} rec s) =
    emit_queue-Delivers n es q rec (Steps-Delivers n es q s)
Steps-Delivers n es _ (works {q = q} {r = r} s w) =
    Work-Delivers n es q r w (Steps-Delivers n es q s)

-- The worker takes no step once it has returned.
Work-stopped :
    (p : Queue) (es : List UsageRecord) (q r : Queue)
    → Work q r
    → (q.stopped ≡ true) × (q.uploaded ≡ p.uploaded) × (q.events ≡ p.events ++ es)
    → (r.stopped ≡ true) × (r.uploaded ≡ p.uploaded) × (r.events ≡ p.events ++ es)
Work-stopped p es q _ (receives rec rest runs e) h = absurd (cc (h.0, runs.0))
Work-stopped p es q _ (ticks runs) h = absurd (cc (h.0, runs.0))
Work-stopped p es q _ (closes o) h = h
Work-stopped p es q _ (begins runs closed) h = absurd (cc (h.0, runs.0))
Work-stopped p es q _ (drains rec rest runs e) h = absurd (cc (h.0, runs.0))
Work-stopped p es q _ (stops runs none_left) h = absurd (cc (h.0, runs.0))

-- After the worker has returned, nothing is uploaded any more: every event that is emitted from then
-- on stays in the channel, which still takes it, or is dropped.
pub Steps-stopped :
    (p q : Queue) (n : ℕ) (es : List UsageRecord)
    → p.stopped ≡ true
    → Steps p n es q
    → (q.stopped ≡ true) × (q.uploaded ≡ p.uploaded) × (q.events ≡ p.events ++ es)
unfolding emit_queue
Steps-stopped p _ _ _ h start = (h, refl, sym (append-nil p.events))
Steps-stopped p _ _ _ h (emits {q = q} {n = n} {es = es} rec s) =
    let (stopped, same, kept) = Steps-stopped p q n es h s in
    elim (Bool-cases (ltb (length q.events) buffer_size)) [
      | inl room ↦
          rw (room, emit_queue)
            (stopped, same, ap (λ z. z ++ rec ∷ []) kept ∙ append_assoc p.events es (rec ∷ []))
      | inr full ↦
          rw (full, emit_queue)
            (stopped, same, kept ∙ ap (λ z. p.events ++ z) (sym (append-nil es)))
    ]
Steps-stopped p _ n es h (works {q = q} {r = r} s w) =
    Work-stopped p es q r w (Steps-stopped p q n es h s)
