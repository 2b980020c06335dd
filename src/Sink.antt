-- ===== src/Sink.antt =====
-- internal/gateway/usage_sink.go: the durable sink of usage events. The worker goroutine and the
-- callers of Emit interleave; each receive from the channel, in `run` and in drainInto, each tick and each call is one step; the
-- upload of a batch belongs to the step that hands it on.
-- What an upload sends (usage_sink_azuremonitor.go) and whether the service takes it lie outside: a
-- batch counts as uploaded when the worker hands it on.
pub mod Delivery
use ghcp_pool_go.Base.{
  ℕ, ◌+◌, ◌%◌, ◌^◌, ◌≡◌, Bool, true, false, List, [], ◌∷◌, ◌++◌, if◌then◌else◌, ltb, leb, length, ℤ,
  Text,
}

pub record UsageRecord : Type 0 where
  pub ts : ℕ
  pub account_id : Text
  pub model : Text
  pub api_endpoint : Text
  pub input_tokens : ℤ
  pub output_tokens : ℤ
  pub cached_tokens : ℤ
  pub total_tokens : ℤ
  pub credits : ℤ
  pub duration_ms : ℤ
  pub cache_result : Text
  pub success : Bool
  pub error_type : Text

-- usageSinkBufferSize
abbrev pub buffer_size : ℕ
buffer_size = 2048

-- usageSinkBatchSize
abbrev pub batch_size : ℕ
batch_size = 100

-- azureMonitorSink with the local `batch` of its worker: the channel, the counter, whether `done` is
-- closed, whether the worker is in drainInto, whether it has returned, and the batches handed on.
pub record Queue : Type 0 where
  pub events : List UsageRecord
  pub dropped : ℕ
  pub done : Bool
  pub batch : List UsageRecord
  pub draining : Bool
  pub stopped : Bool
  pub uploaded : List (List UsageRecord)

pub data Sink : Type 0 where
  noop : Sink
  azure_monitor : Queue → Sink

unfoldable pub new_queue : Queue
new_queue = record {
  events = [];
  dropped = 0;
  done = false;
  batch = [];
  draining = false;
  stopped = false;
  uploaded = [];
}

-- A send that would block is dropped and counted, in 64 bits.
unfoldable pub emit_queue : Queue → UsageRecord → Queue
emit_queue q rec =
    if ltb (length q.events) buffer_size
    then record q { events = q.events ++ rec ∷ [] }
    else record q { dropped = (q.dropped + 1) % 2 ^ 64 }

unfoldable pub emit : Sink → UsageRecord → Sink
unfolding emit_queue
emit noop rec = noop
emit (azure_monitor q) rec = azure_monitor (emit_queue q rec)

unfoldable pub flush : Queue → Queue
flush q = elim (q.batch) [
  | [] ↦ q
  | e ∷ es ↦ record q { uploaded = q.uploaded ++ (e ∷ es) ∷ []; batch = [] }
]

-- The case `rec := <-s.events` of `run`, on a channel that holds `rec` and then `rest`.
unfoldable pub receive : Queue → UsageRecord → List UsageRecord → Queue
unfolding flush
receive q rec rest =
    let q' = record q { events = rest; batch = q.batch ++ rec ∷ [] } in
    if leb batch_size (length q'.batch) then flush q' else q'

-- The case `<-s.done`: the worker goes into drainInto.
unfoldable pub begin_drain : Queue → Queue
begin_drain q = record q { draining = true }

-- The case `rec := <-s.events` of drainInto, whatever the size of the batch.
unfoldable pub drain_one : Queue → UsageRecord → List UsageRecord → Queue
drain_one q rec rest = record q { events = rest; batch = q.batch ++ rec ∷ [] }

-- The default case of drainInto, on an empty channel, with the flush and the return after it.
unfoldable pub finish : Queue → Queue
unfolding flush
finish q = record (flush q) { stopped = true }

-- The worker has not returned, and is in the loop of `run` or in drainInto.
abbrev pub IsIn : Bool → Queue → Type 0
IsIn draining q = (q.stopped ≡ false) × (q.draining ≡ draining)

-- One step of the worker, or the start of Close. A select takes any case that is ready, its default
-- only where none is.
pub data Work : Queue → Queue → Type 0 where
  receives :
      {q : Queue} (rec : UsageRecord) (rest : List UsageRecord)
      → IsIn false q
      → q.events ≡ rec ∷ rest
      → Work q (receive q rec rest)
  ticks : {q : Queue} → IsIn false q → Work q (flush q)
  closes : {q : Queue} → q.done ≡ false → Work q (record q { done = true })
  begins : {q : Queue} → IsIn false q → q.done ≡ true → Work q (begin_drain q)
  drains :
      {q : Queue} (rec : UsageRecord) (rest : List UsageRecord)
      → IsIn true q
      → q.events ≡ rec ∷ rest
      → Work q (drain_one q rec rest)
  stops : {q : Queue} → IsIn true q → q.events ≡ [] → Work q (finish q)

-- What the channel takes of an event.
abbrev pub accepted : Queue → UsageRecord → List UsageRecord
accepted q rec = if ltb (length q.events) buffer_size then rec ∷ [] else []

-- The steps from one state to another, with the number of events that callers emitted on the way
-- and the events among them that the channel took.
pub data Steps : Queue → ℕ → List UsageRecord → Queue → Type 0 where
  start : {q : Queue} → Steps q 0 [] q
  emits :
      {p q : Queue} {n : ℕ} {es : List UsageRecord} (rec : UsageRecord)
      → Steps p n es q
      → Steps p (n + 1) (es ++ accepted q rec) (emit_queue q rec)
  works :
      {p q r : Queue} {n : ℕ} {es : List UsageRecord} → Steps p n es q → Work q r → Steps p n es r
