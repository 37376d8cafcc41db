-- ===== src/Queue.antt =====
-- internal/data/queue/memory_queue.go, and the requests of internal/core/ports/ports.go. The
-- channel is the list of the requests in it, the oldest first.
pub mod History
use code_watch.Prelude.{
  ℕ, zero, suc, ◌+◌, ◌-◌, String, Bool, true, false, Option, none, some, List, [], ◌∷◌, ◌++◌, ltb,
  leb, ◌==◌, if◌then◌else◌, length,
}
use code_watch.Model.{File}

-- `other` is any text but the three constants.
pub data WriteOperation : Type 0 where
  upsert_file delete_file prune_to_paths : WriteOperation
  other : String → WriteOperation

pub record WriteRequest : Type 0 where
  pub project_key : String
  pub operation : WriteOperation
  -- `none` is the nil pointer
  pub file : Option File
  pub file_path : String
  pub paths : List String

pub data EnqueueResult : Type 0 where
  accepted dropped spooled : EnqueueResult

pub record MemoryQueue : Type 0 where
  pub capacity : ℕ
  pub items : List WriteRequest
  pub closed : Bool

-- `NewMemoryQueue`
unfoldable pub new_memory_queue : ℕ → MemoryQueue
new_memory_queue capacity = record {
  capacity = if capacity == 0 then 1 else capacity;
  items = [];
  closed = false;
}

-- `Enqueue`: the send takes place unless the buffer is full.
unfoldable pub enqueue : WriteRequest → MemoryQueue → EnqueueResult × MemoryQueue
enqueue req q =
    if q.closed
    then (dropped, q)
    else if ltb (length q.items) q.capacity
    then (accepted, record q { items = q.items ++ req ∷ [] })
    else (dropped, q)

-- Which case the first `select` takes: `ready` is the channel, or `default` where it has nothing.
pub data Wake : Type 0 where
  ready cancelled timed_out : Wake

pub data QueueError : Type 0 where
  eof context_cancelled : QueueError

pub record Batch : Type 0 where
  pub requests : List WriteRequest
  pub error : Option QueueError
  pub queue : MemoryQueue

-- The receive of a closed channel that is empty says `!ok`; an open one is not ready.
unfoldable pub out_of_items : List WriteRequest → MemoryQueue → Batch
out_of_items batch q = record {
  requests = batch;
  error = if q.closed then some eof else none;
  queue = q;
}

-- The receives for up to `room` more requests.
unfoldable pub fill : ℕ → List WriteRequest → List WriteRequest → MemoryQueue → Batch
unfolding out_of_items
fill zero batch items q = record {
  requests = batch;
  error = none;
  queue = record q { items = items };
}
fill (suc room) batch [] q = out_of_items batch (record q { items = [] })
fill (suc room) batch (req ∷ items) q = fill room (batch ++ req ∷ []) items q

-- `DequeueBatch`
unfoldable pub dequeue_batch : ℕ → Wake → MemoryQueue → Batch
unfolding fill
dequeue_batch max_items wake q = elim wake [
  | cancelled ↦ record { requests = []; error = some context_cancelled; queue = q }
  | timed_out ↦ record { requests = []; error = none; queue = q }
  | ready ↦ fill (if max_items == 0 then 1 else max_items) [] q.items q
]

-- `Close`
unfoldable pub close : MemoryQueue → MemoryQueue
close q = record q { closed = true }
