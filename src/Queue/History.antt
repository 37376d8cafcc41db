-- ===== src/Queue/History.antt =====
-- internal/data/queue/memory_queue.go: what goes in next to what comes out.
use code_watch.Prelude.{
  ℕ, zero, suc, ◌≤◌, ◌≡◌, refl, ap, sym, ◌∙◌, inl, inr, ◌&&◌, none, some, List, [], ◌∷◌, ◌++◌, ltb,
  ◌==◌, if◌then◌else◌, arith, length, length-append, take, drop, Bool-cases,
}
use mathlib.Core.List.{append_assoc, append-nil}
use code_watch.Queue.{
  WriteRequest, EnqueueResult, accepted, MemoryQueue, new_memory_queue, enqueue, Wake, ready,
  cancelled, timed_out, eof, Batch, fill, dequeue_batch, close,
}

-- The batch limit, which a limit of 0 raises to 1.
abbrev pub limit : ℕ → ℕ
limit n = if n == 0 then 1 else n

fill_lem :
    (room : ℕ) (batch items : List WriteRequest) (q : MemoryQueue)
    → ((fill room batch items q).requests ≡ batch ++ take room items)
      × ((fill room batch items q).queue ≡ record q { items = drop room items })
      × ((fill room batch items q).error
          ≡ (if q.closed && ltb (length items) room then some eof else none))
unfolding fill
fill_lem zero batch [] q = (sym (append-nil batch), refl, ground arith)
fill_lem zero batch (x ∷ items) q = (sym (append-nil batch), refl, ground arith)
fill_lem (suc room) batch [] q = (sym (append-nil batch), refl, ground arith)
fill_lem (suc room) batch (x ∷ items) q =
    let (a, b, c) = fill_lem room (batch ++ x ∷ []) items q in
    (a ∙ append_assoc batch (x ∷ []) (take room items), b, c ∙ ground arith)

-- What one call receives.
pub record IsBatch (max_items : ℕ) (q : MemoryQueue) (b : Batch) : Type 0 where
  pub taken : b.requests ≡ take (limit max_items) q.items
  pub left : b.queue ≡ record q { items = drop (limit max_items) q.items }
  pub end_of_file :
      b.error ≡ (if q.closed && ltb (length q.items) (limit max_items) then some eof else none)

-- A `DequeueBatch` that is not cancelled and does not wait in vain takes the oldest requests, at
-- most `maxItems` (1 for 0), leaves the others, and reports the end of the queue exactly if it is
-- closed and had fewer requests than that.
pub dequeue_batch_takes :
    (max_items : ℕ) (q : MemoryQueue) → IsBatch max_items q (dequeue_batch max_items ready q)
unfolding dequeue_batch
dequeue_batch_takes max_items q =
    let (a, b, c) = fill_lem (limit max_items) [] q.items q in
    record { taken = a; left = b; end_of_file = c }

pub data QueueOp : Type 0 where
  send : WriteRequest → QueueOp
  receive : ℕ → Wake → QueueOp
  shut : QueueOp

-- What producers were told is accepted and what the worker received, each in order.
pub record Ledger : Type 0 where
  pub sent : List WriteRequest
  pub received : List WriteRequest
  pub state : MemoryQueue

abbrev pub after_send : Ledger → WriteRequest → EnqueueResult × MemoryQueue → Ledger
after_send l req (r, q) = record {
  sent = elim r [ accepted ↦ l.sent ++ req ∷ [] | _ ↦ l.sent ];
  received = l.received;
  state = q;
}

abbrev pub step : Ledger → QueueOp → Ledger
step l (send req) = after_send l req (enqueue req l.state)
step l (receive n wake) =
    let b = dequeue_batch n wake l.state in
    record { sent = l.sent; received = l.received ++ b.requests; state = b.queue }
step l shut = record l { state = close l.state }

abbrev pub run_ops : Ledger → List QueueOp → Ledger
run_ops l [] = l
run_ops l (op ∷ ops) = run_ops (step l op) ops

pub record IsBalanced (l : Ledger) : Type 0 where
  pub in_order : l.received ++ l.state.items ≡ l.sent
  pub fits : length l.state.items ≤ l.state.capacity

take-drop : {A : Type 0} (n : ℕ) (xs : List A) → take n xs ++ drop n xs ≡ xs
take-drop n [] = refl
take-drop zero (x ∷ xs) = refl
take-drop (suc n) (x ∷ xs) = ap (λ l. x ∷ l) (take-drop n xs)

length-drop : {A : Type 0} (n : ℕ) (xs : List A) → length (drop n xs) ≤ length xs
length-drop n [] = omega arith
length-drop zero (x ∷ xs) = omega arith
length-drop (suc n) (x ∷ xs) = omega (arith, length-drop n xs)

step-IsBalanced : (l : Ledger) (op : QueueOp) → IsBalanced l → IsBalanced (step l op)
unfolding enqueue dequeue_batch close
step-IsBalanced l (send req) i = elim (Bool-cases l.state.closed) [
  | inl e ↦ simp (e, enqueue) i
  | inr e ↦ elim (Bool-cases (ltb (length l.state.items) l.state.capacity)) [
    | inl f ↦
        simp (e, f, enqueue)
          (record {
            in_order =
                sym (append_assoc l.received l.state.items (req ∷ []))
                ∙ ap (λ x. x ++ req ∷ []) i.in_order;
            fits = ground (arith, length-append l.state.items (req ∷ []));
          })
    | inr f ↦ simp (e, f, enqueue) i
  ]
]
step-IsBalanced l (receive n ready) i =
    let b = dequeue_batch_takes n l.state in
    record {
      in_order =
          rw (b.taken, b.left)
            (append_assoc l.received (take (limit n) l.state.items) (drop (limit n) l.state.items)
              ∙ ap (λ x. l.received ++ x) (take-drop (limit n) l.state.items)
              ∙ i.in_order);
      fits = rw b.left (omega (arith, i.fits, length-drop (limit n) l.state.items));
    }
step-IsBalanced l (receive n cancelled) i = record {
  in_order = ap (λ x. x ++ l.state.items) (append-nil l.received) ∙ i.in_order;
  fits = i.fits;
}
step-IsBalanced l (receive n timed_out) i = record {
  in_order = ap (λ x. x ++ l.state.items) (append-nil l.received) ∙ i.in_order;
  fits = i.fits;
}
step-IsBalanced l shut i = record { in_order = i.in_order; fits = i.fits }

run_ops-IsBalanced : (ops : List QueueOp) (l : Ledger) → IsBalanced l → IsBalanced (run_ops l ops)
run_ops-IsBalanced [] l i = i
run_ops-IsBalanced (op ∷ ops) l i = run_ops-IsBalanced ops (step l op) (step-IsBalanced l op i)

-- From a new queue, after any sends, receives and closes: what was received, followed by what is
-- still in the queue, is exactly what was accepted, in the order in which it was, and the queue
-- holds at most its capacity.
pub run_new_queue-IsBalanced :
    (capacity : ℕ) (ops : List QueueOp)
    → IsBalanced
        (run_ops (record { sent = []; received = []; state = new_memory_queue capacity }) ops)
unfolding new_memory_queue
run_new_queue-IsBalanced capacity ops =
    run_ops-IsBalanced ops _ (record { in_order = refl; fits = ground arith })
