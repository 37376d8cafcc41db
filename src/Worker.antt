-- ===== src/Worker.antt =====
-- internal/core/app/write_worker.go: the worker that applies queued writes to the symbol store. The
-- spool and the store are the ports of internal/core/ports, a parameter here: a call that fails is
-- `none` and changes nothing, and a rollback drops the transaction. A duration is the bits of an
-- `int64` of nanoseconds; those of the configuration are not negative. The error text that `Nack`
-- stores, the log and the gauges are left out.
pub mod Backoff
pub mod Enqueue
pub mod Rounds
pub mod Turns
pub mod Drain
pub mod Examples
use code_watch.Prelude.{
  ℕ, zero, suc, ◌+◌, ◌-◌, ◌*◌, ◌%◌, String, Bool, true, false, not, Option, none, some, List, [],
  ◌∷◌, ◌++◌, ltb, leb, ◌==◌, if◌then◌else◌, length, map, ◌>>=◌, str_eq,
}
use code_watch.Model.{File}
use code_watch.Queue
use code_watch.Queue.{
  WriteRequest, WriteOperation, upsert_file, delete_file, prune_to_paths, other, MemoryQueue,
  EnqueueResult, accepted, dropped, spooled, Wake, ready, QueueError, eof, context_cancelled,
  dequeue_batch,
}

pub record WriteQueueConfig : Type 0 where
  pub batch_size : ℕ
  pub retry_base_delay : ℕ
  pub retry_max_delay : ℕ
  pub sync_fallback : Bool

pub record SpoolRow : Type 0 where
  pub id : ℕ
  pub request : WriteRequest
  pub attempts : ℕ

-- `S` is the state of the spool, `D` of the store and `T` of a transaction on it.
pub record Ports (S D T : Type 0) : Type 0 where
  pub spool_enqueue : WriteRequest → S → Option S
  pub spool_dequeue : ℕ → S → Option (List SpoolRow × S)
  pub spool_ack : List ℕ → S → Option S
  -- the rows, and the time until their next attempt
  pub spool_nack : List SpoolRow → ℕ → S → Option S
  pub begin_batch : D → Option T
  pub upsert : Option File → T → Option T
  pub delete : String → T → Option T
  pub prune : List String → T → Option T
  pub commit : T → Option D
  -- the store's own operation, outside a transaction
  pub upsert_now : Option File → D → Option D
  pub delete_now : String → D → Option D
  pub prune_now : List String → D → Option D

pub record World (S D : Type 0) : Type 0 where
  pub queue : MemoryQueue
  -- `none` is a nil `writeSpool`
  pub spool : Option S
  pub store : D

unfoldable pub base_delay : WriteQueueConfig → ℕ
base_delay cfg = if cfg.retry_base_delay == 0 then 500000000 else cfg.retry_base_delay

unfoldable pub max_delay : WriteQueueConfig → ℕ
max_delay cfg = if cfg.retry_max_delay == 0 then 30000000000 else cfg.retry_max_delay

-- `delay *= 2` on the bits of an `int64`.
abbrev pub twice : ℕ → ℕ
twice delay = delay * 2 % 18446744073709551616

-- `a <= b` of two `int64` by their bits; from 2 ^ 63 on they are negative.
abbrev pub at_most : ℕ → ℕ → Bool
at_most a b =
    leb ((a + 9223372036854775808) % 18446744073709551616)
      ((b + 9223372036854775808) % 18446744073709551616)

-- The loop of `backoffDelay`, with the rounds that are left, and the test behind it.
unfoldable pub doubled : ℕ → ℕ → ℕ → ℕ
doubled zero delay most = if not (at_most delay most) then most else delay
doubled (suc n) delay most =
    let rest = doubled n (twice delay) most in if at_most most (twice delay) then most else rest

-- `backoffDelay`
unfoldable pub backoff_delay : WriteQueueConfig → ℕ → ℕ
unfolding base_delay max_delay doubled
backoff_delay cfg attempts =
    doubled ((if ltb attempts 1 then 1 else attempts) - 1) (base_delay cfg) (max_delay cfg)

unfoldable pub max_attempts : ℕ → List SpoolRow → ℕ
max_attempts most [] = most
max_attempts most (row ∷ rows) =
    max_attempts (if ltb most row.attempts then row.attempts else most) rows

abbrev pub requests_of : List SpoolRow → List WriteRequest
requests_of rows = map (λ row. row.request) rows

abbrev pub ids_of : List SpoolRow → List ℕ
ids_of rows = map (λ row. row.id) rows

abbrev pub at_least_one : ℕ → ℕ
at_least_one n = if n == 0 then 1 else n

module _ {S D T : Type 0} (p : Ports S D T) where
  -- The `switch` of `applyWriteBatch`.
  unfoldable pub apply_one : WriteRequest → T → Option T
  apply_one req t = elim req.operation [
    | upsert_file ↦ p.upsert req.file t
    | delete_file ↦ p.delete req.file_path t
    | prune_to_paths ↦ p.prune req.paths t
    | other op ↦ none
  ]

  unfoldable pub apply_all : List WriteRequest → T → Option T
  unfolding apply_one
  apply_all [] t = some t
  apply_all (req ∷ reqs) t = apply_one req t >>= λ t'. apply_all reqs t'

  -- `applyWriteBatch`
  unfoldable pub apply_write_batch : List WriteRequest → D → Option D
  unfolding apply_all
  apply_write_batch [] d = some d
  apply_write_batch (req ∷ reqs) d =
      p.begin_batch d >>= λ t. apply_all (req ∷ reqs) t >>= λ t'. p.commit t'

  -- `applyWriteRequest`
  unfoldable pub apply_write_request : WriteRequest → D → Option D
  apply_write_request req d = elim req.operation [
    | upsert_file ↦ p.upsert_now req.file d
    | delete_file ↦ p.delete_now req.file_path d
    | prune_to_paths ↦ p.prune_now req.paths d
    | other op ↦ none
  ]

  -- The loop that spills the memory batch; a request that the spool refuses is logged.
  unfoldable pub spill : List WriteRequest → S → S
  spill [] s = s
  spill (req ∷ reqs) s = elim (p.spool_enqueue req s) [
    | none ↦ spill reqs s
    | some s' ↦ spill reqs s'
  ]

  abbrev pub or_else : S → Option S → S
  or_else s none = s
  or_else s (some s') = s'

  unfoldable pub retry_later : WriteQueueConfig → List SpoolRow → S → S
  unfolding backoff_delay max_attempts
  retry_later cfg [] s = s
  retry_later cfg (row ∷ rows) s =
      or_else s (p.spool_nack (row ∷ rows) (backoff_delay cfg (max_attempts 0 (row ∷ rows) + 1)) s)

  -- `handleWriteFailure`
  unfoldable pub handle_write_failure :
      WriteQueueConfig → List SpoolRow → List WriteRequest → Option S → Option S
  unfolding spill retry_later
  handle_write_failure cfg rows memory none = none
  handle_write_failure cfg rows memory (some s) = some (retry_later cfg rows (spill memory s))

  -- The rows that fill up a batch of `n` requests, and the spool after.
  unfoldable pub fill_up : WriteQueueConfig → ℕ → Option S → List SpoolRow × Option S
  fill_up cfg n none = ([], none)
  fill_up cfg n (some s) =
      if ltb n (at_least_one cfg.batch_size)
      then elim (p.spool_dequeue (at_least_one cfg.batch_size - n) s) [
        | none ↦ ([], some s)
        | some (rows, s') ↦ (rows, some s')
      ]
      else ([], some s)

  unfoldable pub acknowledge : List SpoolRow → Option S → Option S
  acknowledge rows none = none
  acknowledge [] (some s) = some s
  acknowledge (row ∷ rows) (some s) = some (or_else s (p.spool_ack (ids_of (row ∷ rows)) s))

  -- The end of a round, which applies what was gathered.
  unfoldable pub settle :
      WriteQueueConfig → List WriteRequest → List SpoolRow → World S D → World S D
  unfolding apply_write_batch handle_write_failure acknowledge
  settle cfg memory rows w = elim (apply_write_batch (memory ++ requests_of rows) w.store) [
    | none ↦ record w { spool = handle_write_failure cfg rows memory w.spool }
    | some d ↦ record w { spool = acknowledge rows w.spool; store = d }
  ]

  -- A round with nothing to write ends the worker if the queue has ended.
  unfoldable pub conclude :
      WriteQueueConfig → Bool → List WriteRequest → List SpoolRow → World S D → Bool × World S D
  unfolding settle
  conclude cfg ended memory rows w = elim (memory ++ requests_of rows) [
    | [] ↦ (not ended, w)
    | _ ∷ _ ↦ (true, settle cfg memory rows w)
  ]

  unfoldable pub gather : WriteQueueConfig → Bool → Queue.Batch → World S D → Bool × World S D
  unfolding fill_up conclude
  gather cfg ended b w =
      let (rows, s) = fill_up cfg (length b.requests) w.spool in
      conclude cfg ended b.requests rows (record w { queue = b.queue; spool = s })

  -- A round of `runWriteWorker` whose queue gave the batch `b`; `false` is the return. The context
  -- has no deadline, so the queue's errors are the two of `QueueError`.
  unfoldable pub worker_round : WriteQueueConfig → Queue.Batch → World S D → Bool × World S D
  unfolding gather
  worker_round cfg b w = elim b.error [
    | some context_cancelled ↦ (false, record w { queue = b.queue })
    | some eof ↦ gather cfg true b w
    | none ↦ gather cfg false b w
  ]

  -- One turn of the loop of `runWriteWorker`.
  unfoldable pub worker_turn : WriteQueueConfig → Wake → World S D → Bool × World S D
  unfolding worker_round dequeue_batch
  worker_turn cfg wake w =
      worker_round cfg (dequeue_batch (at_least_one cfg.batch_size) wake w.queue) w

  -- The write of a request that the queue did not take; `none` is an error.
  unfoldable pub write_now : WriteQueueConfig → WriteRequest → World S D → Option (World S D)
  unfolding apply_write_request
  write_now cfg req w =
      if cfg.sync_fallback
      then (apply_write_request req w.store >>= λ d. some (record w { store = d }))
      else none

  unfoldable pub overflow : WriteQueueConfig → WriteRequest → World S D → Option (World S D)
  unfolding write_now
  overflow cfg req w = elim w.spool [
    | none ↦ write_now cfg req w
    | some s ↦ elim (p.spool_enqueue req s) [
      | none ↦ write_now cfg req w
      | some s' ↦ some (record w { spool = some s' })
    ]
  ]

  -- The `switch` on what the queue said.
  unfoldable pub after_enqueue :
      WriteQueueConfig → WriteRequest → World S D → EnqueueResult × MemoryQueue → Option (World S D)
  unfolding overflow
  after_enqueue cfg req w (accepted, q) = some (record w { queue = q })
  after_enqueue cfg req w (dropped, q) = overflow cfg req (record w { queue = q })
  after_enqueue cfg req w (spooled, q) = none

  -- `enqueueSymbolWrite` with the queue on; `active` is the trimmed key of the active project.
  unfoldable pub enqueue_symbol_write :
      WriteQueueConfig → String → WriteRequest → World S D → Option (World S D)
  unfolding after_enqueue
  enqueue_symbol_write cfg active req w =
      let keyed = record req {
        project_key = if str_eq req.project_key "" then active else req.project_key;
      } in
      after_enqueue cfg keyed w (Queue.enqueue keyed w.queue)
