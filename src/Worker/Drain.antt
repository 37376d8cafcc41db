-- ===== src/Worker/Drain.antt =====
-- internal/core/app/write_worker.go: `drainWriteQueue`, which stops the worker, with a queue that is
-- not nil. The loop runs on fuel.
pub mod Ends
use code_watch.Prelude.{
  ℕ, zero, suc, ◌+◌, ◌-◌, Bool, true, false, Option, none, some, List, [], ◌∷◌, ◌++◌, ltb,
  if◌then◌else◌, length,
}
use code_watch.Queue
use code_watch.Queue.{WriteRequest, Wake, QueueError, eof, context_cancelled, dequeue_batch}
use code_watch.Worker.{
  WriteQueueConfig, SpoolRow, Ports, World, requests_of, ids_of, at_least_one, apply_write_batch,
  backoff_delay, or_else,
}

-- What a round leads to, or the whole loop: `finished` and `failed` are its returns.
pub data Drain (S D : Type 0) : Type 0 where
  finished failed going out_of_fuel : World S D → Drain S D

module _ {S D T : Type 0} (p : Ports S D T) where
  -- The end of a round that has only the queue's requests.
  unfoldable pub drain_memory : List WriteRequest → World S D → Drain S D
  unfolding apply_write_batch
  drain_memory [] w = finished w
  drain_memory (req ∷ reqs) w = elim (apply_write_batch p (req ∷ reqs) w.store) [
    | none ↦ failed w
    | some d ↦ going (record w { store = d })
  ]

  -- The branch for rows of the spool; `s` is the spool after their `DequeueBatch`.
  unfoldable pub drain_rows :
      WriteQueueConfig → List WriteRequest → List SpoolRow → S → World S D → Drain S D
  unfolding apply_write_batch backoff_delay
  drain_rows cfg memory rows s w = elim (apply_write_batch p (memory ++ requests_of rows) w.store) [
    | none ↦
        failed (record w { spool = some (or_else p s (p.spool_nack rows (backoff_delay cfg 1) s)) })
    | some d ↦ elim (p.spool_ack (ids_of rows) s) [
      | none ↦ failed (record w { spool = some s; store = d })
      | some s' ↦ going (record w { spool = some s'; store = d })
    ]
  ]

  unfoldable pub drain_some :
      WriteQueueConfig → List WriteRequest → List SpoolRow → S → World S D → Drain S D
  unfolding drain_rows drain_memory
  drain_some cfg memory [] s w = drain_memory memory (record w { spool = some s })
  drain_some cfg memory (row ∷ rows) s w = drain_rows cfg memory (row ∷ rows) s w

  unfoldable pub drain_spool : WriteQueueConfig → List WriteRequest → S → World S D → Drain S D
  unfolding drain_some
  drain_spool cfg memory s w =
      elim (p.spool_dequeue (at_least_one cfg.batch_size - length memory) s) [
        | none ↦ failed w
        | some (rows, s') ↦ drain_some cfg memory rows s' w
      ]

  -- `if len(batch) < batchSize && a.writeSpool != nil`
  unfoldable pub drain_batch : WriteQueueConfig → List WriteRequest → World S D → Drain S D
  unfolding drain_spool drain_memory
  drain_batch cfg memory w = elim w.spool [
    | none ↦ drain_memory memory w
    | some s ↦
        if ltb (length memory) (at_least_one cfg.batch_size)
        then drain_spool cfg memory s w
        else drain_memory memory w
  ]

  unfoldable pub drain_round : WriteQueueConfig → Wake → World S D → Drain S D
  unfolding dequeue_batch drain_batch
  drain_round cfg wake w =
      let b = dequeue_batch (at_least_one cfg.batch_size) wake w.queue in
      let w' = record w { queue = b.queue } in
      elim b.error [
        | some context_cancelled ↦ failed w'
        | some eof ↦ drain_batch cfg b.requests w'
        | none ↦ drain_batch cfg b.requests w'
      ]

  unfoldable pub drain : ℕ → WriteQueueConfig → Wake → World S D → Drain S D
  unfolding drain_round
  drain zero cfg wake w = out_of_fuel w
  drain (suc fuel) cfg wake w = elim (drain_round cfg wake w) [
    | finished w' ↦ finished w'
    | failed w' ↦ failed w'
    | going w' ↦ drain fuel cfg wake w'
    | out_of_fuel w' ↦ out_of_fuel w'
  ]
