-- ===== src/Worker/Examples.antt =====
-- Runs of the queue, the spool and the worker, and the theorems at them.
use code_watch.Prelude.{
  ℕ, ◌-◌, ◌*◌, ◌^◌, ◌≡◌, refl, String, true, false, not, ◌&&◌, none, some, List, [], ◌∷◌, ◌++◌,
  take, drop, length, arith,
}
use code_watch.Queue.{WriteRequest, delete_file, ready, cancelled, new_memory_queue, dequeue_batch}
use code_watch.Queue.History.{
  limit, IsBatch, dequeue_batch_takes, QueueOp, send, receive, shut, run_ops, IsBalanced,
  run_new_queue-IsBalanced,
}
use code_watch.Worker.{
  WriteQueueConfig, Ports, World, worker_turn, enqueue_symbol_write, backoff_delay, base_delay,
  max_delay,
}
use code_watch.Worker.Backoff.{smaller, backoff_delay_doubles}
use code_watch.Worker.Rounds.{IsSpool, IsKept, worker_turn_keeps}
use code_watch.Worker.Turns.{IsHandled, worker_turn-IsHandled}
use code_watch.Worker.Enqueue.{Placed, keyed, enqueue_symbol_write_places}
use code_watch.Worker.Drain.{drain}
use code_watch.Worker.Drain.Ends.{Returns, drain-Returns}
use code_watch.Spool
use code_watch.Spool.{SqliteSpool, open_spool, ack, nack, due}
use code_watch.Spool.Laws.{
  stored, spool_ports, spool_ports-IsSpool, row_at, has_id, spool_ids, ack_removes, nack_defers,
}
use code_watch.Spool.Pending.{spool_ports-IsPending}

abbrev config : WriteQueueConfig
config = record { batch_size = 2; retry_base_delay = 0; retry_max_delay = 0; sync_fallback = true }

abbrev deletion : String → WriteRequest
deletion path = record {
  project_key = "p";
  operation = delete_file;
  file = none;
  file_path = path;
  paths = [];
}

-- A store that lists the paths it was told to delete, and refuses every other write.
abbrev log_store : Ports Unit (List String) (List String)
log_store = record {
  spool_enqueue = λ req s. some s;
  spool_dequeue = λ n s. some ([], s);
  spool_ack = λ ids s. some s;
  spool_nack = λ rows delay s. some s;
  begin_batch = λ d. some d;
  upsert = λ f t. none;
  delete = λ path t. some (t ++ path ∷ []);
  prune = λ paths t. none;
  commit = λ t. some t;
  upsert_now = λ f d. none;
  delete_now = λ path d. some (d ++ path ∷ []);
  prune_now = λ paths d. none;
}

abbrev one_row : SqliteSpool
one_row = Spool.enqueue 5 (deletion "a.go") (open_spool "p")

abbrev busy : World SqliteSpool (List String)
busy = record {
  queue = record { capacity = 4; items = deletion "b.go" ∷ []; closed = false };
  spool = some one_row;
  store = [];
}

dequeue_batch_takes_example : IsBatch 0 busy.queue (dequeue_batch 0 ready busy.queue)
dequeue_batch_takes_example = dequeue_batch_takes 0 busy.queue

-- The queue is full and the spool takes requests.
abbrev full : World SqliteSpool (List String)
full = record {
  queue = record { capacity = 1; items = deletion "b.go" ∷ []; closed = false };
  spool = some one_row;
  store = [];
}

abbrev traffic : List QueueOp
traffic =
    send (deletion "a.go")
    ∷ send (deletion "b.go")
    ∷ receive 5 ready
    ∷ shut
    ∷ send (deletion "c.go")
    ∷ receive 5 cancelled
    ∷ []

run_new_queue-IsBalanced_example :
    IsBalanced (run_ops (record { sent = []; received = []; state = new_memory_queue 1 }) traffic)
run_new_queue-IsBalanced_example = run_new_queue-IsBalanced 1 traffic

backoff_delay_doubles_example :
    backoff_delay config 3 ≡ smaller (max_delay config) (base_delay config * 2 ^ (3 - 1))
unfolding base_delay max_delay
backoff_delay_doubles_example = backoff_delay_doubles config 3 (omega arith) (omega arith)

ack_removes_example : row_at "p" 1 (ack (1 ∷ []) one_row).rows ≡ none
unfolding Spool.enqueue open_spool
ack_removes_example = ack_removes (1 ∷ []) one_row "p" 1

nack_defers_example :
    ((id : ℕ)
      → has_id id
          (spool_ids (due one_row.project_key 10 (nack (due "p" 10 one_row.rows) 20 one_row).rows))
        ≡ (not (has_id id (spool_ids (due "p" 10 one_row.rows)))
            && has_id id (spool_ids (due one_row.project_key 10 one_row.rows))))
    × (stored (nack (due "p" 10 one_row.rows) 20 one_row) ≡ stored one_row)
nack_defers_example = nack_defers (due "p" 10 one_row.rows) 10 20 one_row (omega arith)

worker_turn_keeps_example :
    IsKept
      (spool_ports 10 log_store)
      stored
      config
      one_row
      busy
      (take (limit 2) busy.queue.items)
      (worker_turn (spool_ports 10 log_store) config ready busy).1
    × ((worker_turn (spool_ports 10 log_store) config ready busy).1.queue.items
        ≡ drop (limit 2) busy.queue.items)
worker_turn_keeps_example =
    worker_turn_keeps (spool_ports 10 log_store) stored (spool_ports-IsSpool 10 log_store) config
      busy one_row refl

drain-Returns_example :
    Returns
      (spool_ports 10 log_store)
      (λ sp. length sp.rows)
      (spool_ports-IsPending 10 log_store)
      (drain (spool_ports 10 log_store) 3 config ready busy)
unfolding Spool.enqueue open_spool
drain-Returns_example =
    drain-Returns (spool_ports 10 log_store) (λ sp. length sp.rows)
      (spool_ports-IsPending 10 log_store) 3 config busy (omega arith)

enqueue_symbol_write_places_example :
    Placed
      (spool_ports 10 log_store)
      config
      (keyed "p" (deletion "c.go"))
      full
      (enqueue_symbol_write (spool_ports 10 log_store) config "p" (deletion "c.go") full)
enqueue_symbol_write_places_example =
    enqueue_symbol_write_places (spool_ports 10 log_store) config "p" (deletion "c.go") full

spool_ports-IsSpool_example : IsSpool (spool_ports 10 log_store) stored
spool_ports-IsSpool_example = spool_ports-IsSpool 10 log_store

worker_turn-IsHandled_example : IsHandled (spool_ports 10 log_store) stored config 1 busy
worker_turn-IsHandled_example =
    worker_turn-IsHandled (spool_ports 10 log_store) stored config
      (spool_ports-IsSpool 10 log_store) 1 busy one_row refl (omega arith)
