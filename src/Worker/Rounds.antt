-- ===== src/Worker/Rounds.antt =====
-- internal/core/app/write_worker.go: what becomes of the requests of a round.
use mathlib.Core.Path.{subst}
use code_watch.Prelude.{
  ℕ, ◌&&◌, ◌+◌, ◌-◌, ◌≤◌, ◌<◌, ◌≡◌, refl, ap, sym, ◌∙◌, inl, inr, ◌⊎◌, Bool, true, false, Option,
  none, some, List, [], ◌∷◌, ◌++◌, arith, ltb, if◌then◌else◌, length, take, drop, Option-cases,
  Bool-cases, List-cases,
}
use mathlib.Core.List.{append_assoc, append-nil}
use code_watch.Queue
use code_watch.Queue.{
  WriteRequest, MemoryQueue, Wake, ready, QueueError, eof, context_cancelled, dequeue_batch,
}
use code_watch.Queue.History.{limit, dequeue_batch_takes, IsBatch}
use code_watch.Worker.{
  WriteQueueConfig, SpoolRow, Ports, World, requests_of, ids_of, at_least_one, apply_write_batch,
  spill, retry_later, or_else, handle_write_failure, backoff_delay, max_attempts, fill_up,
  acknowledge, settle, conclude, gather, worker_round, worker_turn,
}

pub IsBatch-error :
    {n : ℕ} {q : MemoryQueue} {b : Queue.Batch}
    → IsBatch n q b
    → (b.error ≡ none) ⊎ (b.error ≡ some eof)
IsBatch-error {n = n} {q = q} i = elim (Bool-cases (q.closed && ltb (length q.items) (limit n))) [
  | inl e ↦ inr (i.end_of_file ∙ ap (λ c. if c then some eof else none) e)
  | inr e ↦ inl (i.end_of_file ∙ ap (λ c. if c then some eof else none) e)
]

-- What the worker relies on in a spool that is up: `stored` lists the requests in it.
pub record IsSpool {S D T : Type 0} (p : Ports S D T) (stored : S → List WriteRequest)
    : Type 0 where
  -- `Enqueue` adds its request
  pub adds :
      (req : WriteRequest) (s : S)
      → (s' : S) × (p.spool_enqueue req s ≡ some s') × (stored s' ≡ stored s ++ req ∷ [])
  -- `DequeueBatch` and `Nack` take none away
  pub reads :
      (n : ℕ) (s s' : S) (rows : List SpoolRow)
      → p.spool_dequeue n s ≡ some (rows, s')
      → stored s' ≡ stored s
  pub defers :
      (rows : List SpoolRow) (delay : ℕ) (s s' : S)
      → p.spool_nack rows delay s ≡ some s'
      → stored s' ≡ stored s

module _ {S D T : Type 0} (p : Ports S D T) where
  -- The rows that fill up a batch of `n` requests, and the spool `after` they are read: what the
  -- spool gives for the room that is left.
  abbrev pub IsFilled : WriteQueueConfig → S → ℕ → List SpoolRow → S → Type 0
  IsFilled cfg s n rows after =
      ((rows ≡ [])
        × (after ≡ s)
        × ((limit cfg.batch_size ≤ n) ⊎ (p.spool_dequeue (limit cfg.batch_size - n) s ≡ none)))
      ⊎ ((n < limit cfg.batch_size)
          × (p.spool_dequeue (limit cfg.batch_size - n) s ≡ some (rows, after)))

  -- Rows that are applied are acknowledged, all at once; a spool that gives an error is as it was.
  abbrev pub IsAcknowledged : List SpoolRow → S → S → Type 0
  IsAcknowledged [] s s' = s' ≡ s
  IsAcknowledged (row ∷ rows) s s' =
      (p.spool_ack (ids_of (row ∷ rows)) s ≡ some s')
      ⊎ ((p.spool_ack (ids_of (row ∷ rows)) s ≡ none) × (s' ≡ s))

  -- The requests `memory` are in the store with those of `rows`, or behind the others in the spool;
  -- `after` is the spool of which the rows were read.
  abbrev pub IsWritten :
      (S → List WriteRequest)
      → S
      → S
      → World S D
      → List WriteRequest
      → List SpoolRow
      → World S D
      → Type 0
  IsWritten stored s after w memory rows w' =
      (s' : S) × (w'.spool ≡ some s')
      × (((apply_write_batch p (memory ++ requests_of rows) w.store ≡ some w'.store)
            × IsAcknowledged rows after s')
          ⊎ ((apply_write_batch p (memory ++ requests_of rows) w.store ≡ none)
              × (w'.store ≡ w.store)
              × (stored s' ≡ stored s ++ memory)))

  -- What became of the requests `memory` of a round from `w`, whose spool is `s`.
  abbrev pub IsKept :
      (S → List WriteRequest)
      → WriteQueueConfig
      → S
      → World S D
      → List WriteRequest
      → World S D
      → Type 0
  IsKept stored cfg s w memory w' =
      (rows : List SpoolRow) × (after : S) × IsFilled cfg s (length memory) rows after
      × IsWritten stored s after w memory rows w'

  module _ (stored : S → List WriteRequest) (laws : IsSpool p stored) where
    stored-spill : (reqs : List WriteRequest) (s : S) → stored (spill p reqs s) ≡ stored s ++ reqs
    unfolding spill
    stored-spill [] s = sym (append-nil (stored s))
    stored-spill (req ∷ reqs) s =
        let (s', e, more) = laws.adds req s in
        rw (e, spill)
          (stored-spill reqs s'
            ∙ ap (λ x. x ++ reqs) more
            ∙ append_assoc (stored s) (req ∷ []) reqs)

    stored-or_else :
        (s : S) (o : Option S)
        → ((s' : S) → o ≡ some s' → stored s' ≡ stored s)
        → stored (or_else p s o) ≡ stored s
    stored-or_else s none h = refl
    stored-or_else s (some s') h = h s' refl

    stored-retry_later :
        (cfg : WriteQueueConfig) (rows : List SpoolRow) (s : S)
        → stored (retry_later p cfg rows s) ≡ stored s
    unfolding retry_later
    stored-retry_later cfg [] s = refl
    stored-retry_later cfg (row ∷ rows) s =
        let delay = backoff_delay cfg (max_attempts 0 (row ∷ rows) + 1) in
        stored-or_else s (p.spool_nack (row ∷ rows) delay s)
          (λ s' e. laws.defers (row ∷ rows) delay s s' e)

    fill_up-IsFilled :
        (cfg : WriteQueueConfig) (n : ℕ) (s : S)
        → (rows : List SpoolRow) × (after : S) × (fill_up p cfg n (some s) ≡ (rows, some after))
          × IsFilled cfg s n rows after
          × (stored after ≡ stored s)
    unfolding fill_up
    fill_up-IsFilled cfg n s = elim (Bool-cases (ltb n (at_least_one cfg.batch_size))) [
      | inr e ↦ ([], s, rw (e, fill_up) refl, inl (refl, refl, inl (ground (arith, e))), refl)
      | inl e ↦ elim (Option-cases (p.spool_dequeue (at_least_one cfg.batch_size - n) s)) [
        | inl f ↦ ([], s, rw (e, f, fill_up) refl, inl (refl, refl, inr f), refl)
        | inr ((rows, after), f) ↦ (
          rows,
          after,
          rw (e, f, fill_up) refl,
          inr (ground (arith, e), f),
          laws.reads _ s after rows f,
        )
      ]
    ]

    acknowledge-IsAcknowledged :
        (rows : List SpoolRow) (s : S)
        → (s' : S) × (acknowledge p rows (some s) ≡ some s') × IsAcknowledged rows s s'
    unfolding acknowledge
    acknowledge-IsAcknowledged [] s = (s, refl, refl)
    acknowledge-IsAcknowledged (row ∷ rows) s =
        elim (Option-cases (p.spool_ack (ids_of (row ∷ rows)) s)) [
          | inl failed ↦ (s, rw (failed, acknowledge) refl, inr (failed, refl))
          | inr (s', ok) ↦ (s', rw (ok, acknowledge) refl, inl ok)
        ]

    none-IsAcknowledged :
        (memory : List WriteRequest) (rows : List SpoolRow) (s : S)
        → memory ++ requests_of rows ≡ []
        → IsAcknowledged rows s s
    none-IsAcknowledged memory [] s e = refl
    none-IsAcknowledged [] (row ∷ rows) s e = absurd (ground (arith, e))
    none-IsAcknowledged (req ∷ memory) (row ∷ rows) s e = absurd (ground (arith, e))

    settle-queue :
        (cfg : WriteQueueConfig) (memory : List WriteRequest) (rows : List SpoolRow) (w : World S D)
        → (settle p cfg memory rows w).queue ≡ w.queue
    unfolding settle
    settle-queue cfg memory rows w =
        elim (Option-cases (apply_write_batch p (memory ++ requests_of rows) w.store)) [
          | inr (d, ok) ↦ simp (ok, settle)
          | inl failed ↦ simp (failed, settle)
        ]

    settle-ok :
        (cfg : WriteQueueConfig) (memory : List WriteRequest) (rows : List SpoolRow) (w : World S D)
        (d : D)
        → apply_write_batch p (memory ++ requests_of rows) w.store ≡ some d
        → apply_write_batch p (memory ++ requests_of rows) w.store
          ≡ some (settle p cfg memory rows w).store
    unfolding settle
    settle-ok cfg memory rows w d ok = simp (ok, settle)

    settle-IsWritten :
        (cfg : WriteQueueConfig) (memory : List WriteRequest) (rows : List SpoolRow) (w : World S D)
        (s : S)
        → w.spool ≡ some s
        → IsWritten stored s s w memory rows (settle p cfg memory rows w)
    unfolding settle handle_write_failure
    settle-IsWritten cfg memory rows w s e =
        elim (Option-cases (apply_write_batch p (memory ++ requests_of rows) w.store)) [
          | inr (d, ok) ↦
              let (s', acked, all_acked) = acknowledge-IsAcknowledged rows s in
              (s', simp (ok, e, acked, settle), inl (settle-ok cfg memory rows w d ok, all_acked))
          | inl failed ↦ (
            retry_later p cfg rows (spill p memory s),
            simp (failed, e, settle, handle_write_failure),
            inr (
              failed,
              simp (failed, settle),
              stored-retry_later cfg rows (spill p memory s) ∙ stored-spill memory s,
            ),
          )
        ]

    conclude-settle :
        (cfg : WriteQueueConfig) (ended : Bool) (memory : List WriteRequest) (rows : List SpoolRow)
        (w : World S D) (req : WriteRequest) (reqs : List WriteRequest)
        → memory ++ requests_of rows ≡ req ∷ reqs
        → conclude p cfg ended memory rows w ≡ (true, settle p cfg memory rows w)
    unfolding conclude
    conclude-settle cfg ended memory rows w req reqs e = rw (e, conclude) refl

    IsWritten-start :
        (s after : S) (w w' : World S D) (memory : List WriteRequest) (rows : List SpoolRow)
        → stored after ≡ stored s
        → IsWritten stored after after w memory rows w'
        → IsWritten stored s after w memory rows w'
    IsWritten-start s after w w' memory rows same (t, e, kept) = (
      t,
      e,
      elim kept [
        | inl a ↦ inl a
        | inr (failed, a, b) ↦ inr (failed, a, b ∙ ap (λ x. x ++ memory) same)
      ],
    )

    conclude-IsWritten :
        (cfg : WriteQueueConfig) (ended : Bool) (memory : List WriteRequest) (rows : List SpoolRow)
        → (w : World S D) (s : S) → w.spool ≡ some s
        → IsWritten stored s s w memory rows (conclude p cfg ended memory rows w).1
          × ((conclude p cfg ended memory rows w).1.queue ≡ w.queue)
    unfolding conclude apply_write_batch
    conclude-IsWritten cfg ended memory rows w s e =
        elim (List-cases (memory ++ requests_of rows)) [
          | inl nothing ↦
              rw (nothing, conclude)
                ((s, e, inl (refl, none-IsAcknowledged memory rows s nothing)), refl)
          | inr (req, reqs, some_requests) ↦
              subst (λ r. IsWritten stored s s w memory rows r.1 × (r.1.queue ≡ w.queue))
                (sym (conclude-settle cfg ended memory rows w req reqs some_requests))
                (settle-IsWritten cfg memory rows w s e, settle-queue cfg memory rows w)
        ]

    gather-IsKept :
        (cfg : WriteQueueConfig) (ended : Bool) (b : Queue.Batch) (w : World S D) (s : S)
        → w.spool ≡ some s
        → IsKept stored cfg s w b.requests (gather p cfg ended b w).1
          × ((gather p cfg ended b w).1.queue ≡ b.queue)
    unfolding gather
    gather-IsKept cfg ended b w s e =
        let rows = (fill_up p cfg (length b.requests) w.spool).0 in
        let spool = (fill_up p cfg (length b.requests) w.spool).1 in
        let w' : World S D = record w { queue = b.queue; spool = spool } in
        let (given, after, gives, filled, same) = fill_up-IsFilled cfg (length b.requests) s in
        let found : fill_up p cfg (length b.requests) w.spool ≡ (given, some after) =
          ap (fill_up p cfg (length b.requests)) e ∙ gives in
        let here : spool ≡ some after = ap (λ x. x.1) found in
        let (kept, queue) = conclude-IsWritten cfg ended b.requests rows w' after here in
        (
          (
            rows,
            after,
            subst (λ r. IsFilled cfg s (length b.requests) r after) (sym (ap (λ x. x.0) found))
                filled,
            IsWritten-start s after w (gather p cfg ended b w).1 b.requests rows same kept,
          ),
          queue,
        )

    round-IsKept :
        (cfg : WriteQueueConfig) (b : Queue.Batch) (w : World S D) (s : S)
        → (b.error ≡ none) ⊎ (b.error ≡ some eof)
        → w.spool ≡ some s
        → IsKept stored cfg s w b.requests (worker_round p cfg b w).1
          × ((worker_round p cfg b w).1.queue ≡ b.queue)
    unfolding worker_round
    round-IsKept cfg b w s err e = elim err [
      | inl none_left ↦ rw (none_left, worker_round) (gather-IsKept cfg false b w s e)
      | inr at_end ↦ rw (at_end, worker_round) (gather-IsKept cfg true b w s e)
    ]

    -- With a spool that is up, a turn of the worker takes the oldest requests from the queue, up to
    -- a batch, and reads rows from the spool for the room that is left in it; where there is none or
    -- the spool gives an error there are no rows. Either the requests are applied to the store,
    -- followed by the rows, each once, and the rows are acknowledged if there are any, which fails
    -- only if the spool says so; or the store refuses the batch and is unchanged, and the requests
    -- are in the spool, in order, behind those that were there.
    pub worker_turn_keeps :
        (cfg : WriteQueueConfig) (w : World S D) (s : S)
        → w.spool ≡ some s
        → IsKept stored cfg s w
            (take (limit cfg.batch_size) w.queue.items)
            (worker_turn p cfg ready w).1
          × ((worker_turn p cfg ready w).1.queue.items ≡ drop (limit cfg.batch_size) w.queue.items)
    unfolding worker_turn worker_round
    worker_turn_keeps cfg w s e =
        let b = dequeue_batch (at_least_one cfg.batch_size) ready w.queue in
        let i : IsBatch (at_least_one cfg.batch_size) w.queue b =
          dequeue_batch_takes (at_least_one cfg.batch_size) w.queue in
        let same : limit (at_least_one cfg.batch_size) ≡ limit cfg.batch_size = ground arith in
        let (kept, queue) = round-IsKept cfg b w s (IsBatch-error i) e in
        (
          subst (λ r. IsKept stored cfg s w r (worker_turn p cfg ready w).1)
              (i.taken ∙ ap (λ n. take n w.queue.items) same) kept,
          ap (λ q. q.items) (queue ∙ i.left) ∙ ap (λ n. drop n w.queue.items) same,
        )
