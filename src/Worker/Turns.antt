-- ===== src/Worker/Turns.antt =====
-- internal/core/app/write_worker.go: the turns of the worker one after the other.
use code_watch.Prelude.{
  ℕ, zero, suc, ◌-◌, ◌*◌, ◌≤◌, ◌≡◌, refl, ap, ◌∙◌, inl, inr, ◌⊎◌, Bool, true, false, none, some,
  List, [], ◌∷◌, arith, length, take, drop, List-cases,
}
use code_watch.Queue
use code_watch.Queue.{WriteRequest, ready, eof, dequeue_batch}
use code_watch.Queue.History.{limit, IsBatch, dequeue_batch_takes}
use code_watch.Worker.{
  WriteQueueConfig, SpoolRow, Ports, World, at_least_one, fill_up, conclude, gather, worker_round,
  worker_turn,
}
use code_watch.Worker.Rounds.{IsSpool, IsKept, IsBatch-error, worker_turn_keeps}

length-drop : {A : Type 0} (n : ℕ) (xs : List A) → length (drop n xs) ≡ length xs - n
length-drop n [] = omega arith
length-drop zero (x ∷ xs) = omega arith
length-drop (suc n) (x ∷ xs) = omega (arith, length-drop n xs)

none_left : {A : Type 0} (xs : List A) → length xs ≤ 0 → xs ≡ []
none_left [] h = refl
none_left (x ∷ xs) h = absurd (omega (arith, h))

fewer : (n k l m : ℕ) → l ≤ suc n * k → m ≡ l - k → m ≤ n * k
fewer n k l m h e = grind (arith, h, e)

module _ {S D T : Type 0} (p : Ports S D T) (cfg : WriteQueueConfig) where
  conclude-true :
      (ended : Bool) (req : WriteRequest) (memory : List WriteRequest) (rows : List SpoolRow)
      (w : World S D)
      → (conclude p cfg ended (req ∷ memory) rows w).0 ≡ true
  unfolding conclude
  conclude-true ended req memory rows w = refl

  -- A round that a batch with requests began does not end the worker.
  gather-true :
      (ended : Bool) (b : Queue.Batch) (req : WriteRequest) (memory : List WriteRequest)
      (w : World S D)
      → b.requests ≡ req ∷ memory
      → (gather p cfg ended b w).0 ≡ true
  unfolding gather
  gather-true ended b req memory w e =
      let rows = (fill_up p cfg (length b.requests) w.spool).0 in
      let spool = (fill_up p cfg (length b.requests) w.spool).1 in
      let w' : World S D = record w { queue = b.queue; spool = spool } in
      ap (λ reqs. (conclude p cfg ended reqs rows w').0) e ∙ conclude-true ended req memory rows w'

  worker_round-true :
      (b : Queue.Batch) (req : WriteRequest) (memory : List WriteRequest) (w : World S D)
      → (b.error ≡ none) ⊎ (b.error ≡ some eof)
      → b.requests ≡ req ∷ memory
      → (worker_round p cfg b w).0 ≡ true
  unfolding worker_round
  worker_round-true b req memory w err e = elim err [
    | inl open_ended ↦ rw (open_ended, worker_round) (gather-true false b req memory w e)
    | inr at_end ↦ rw (at_end, worker_round) (gather-true true b req memory w e)
  ]

  taken_some :
      (req : WriteRequest) (reqs : List WriteRequest)
      → (memory : List WriteRequest) × (take (limit cfg.batch_size) (req ∷ reqs) ≡ req ∷ memory)
  taken_some req reqs =
      let some_room : limit cfg.batch_size ≡ suc (limit cfg.batch_size - 1) = ground arith in
      (take (limit cfg.batch_size - 1) reqs, ap (λ n. take n (req ∷ reqs)) some_room)

  -- The worker goes on after a turn that had a request to take.
  worker_turn-true :
      (w : World S D) (req : WriteRequest) (reqs : List WriteRequest)
      → w.queue.items ≡ req ∷ reqs
      → (worker_turn p cfg ready w).0 ≡ true
  unfolding worker_turn
  worker_turn-true w req reqs e =
      let b = dequeue_batch (at_least_one cfg.batch_size) ready w.queue in
      let i : IsBatch (at_least_one cfg.batch_size) w.queue b =
        dequeue_batch_takes (at_least_one cfg.batch_size) w.queue in
      let same : limit (at_least_one cfg.batch_size) ≡ limit cfg.batch_size = ground arith in
      let (memory, first) = taken_some req reqs in
      worker_round-true b req memory w (IsBatch-error i)
        (i.taken ∙ ap (λ n. take n w.queue.items) same ∙ ap (take (limit cfg.batch_size)) e ∙ first)

module _ {S D T : Type 0} (p : Ports S D T) (stored : S → List WriteRequest)
    (cfg : WriteQueueConfig) where
  -- The queue is empty after `n` turns or fewer. In each of them the spool is up, what the turn
  -- takes from the queue is applied or is in the spool, and the worker goes on.
  abbrev pub IsHandled : ℕ → World S D → Type 0
  IsHandled zero w = w.queue.items ≡ []
  IsHandled (suc n) w =
      (w.queue.items ≡ [])
      ⊎ ((s : S) × (w.spool ≡ some s)
          × IsKept p stored cfg s w (take (limit cfg.batch_size) w.queue.items)
              (worker_turn p cfg ready w).1
          × ((worker_turn p cfg ready w).0 ≡ true)
          × IsHandled n (worker_turn p cfg ready w).1)

  -- With a spool that is up, as many turns of the worker as the requests in the queue fill batches
  -- empty the queue: until it is empty no turn ends the worker, and each turn's batch is applied to
  -- the store or is in the spool.
  pub worker_turn-IsHandled :
      IsSpool p stored
      → (n : ℕ) (w : World S D) (s : S) → w.spool ≡ some s
      → length w.queue.items ≤ n * limit cfg.batch_size
      → IsHandled n w
  worker_turn-IsHandled laws zero w s e h = none_left w.queue.items (omega (arith, h))
  worker_turn-IsHandled laws (suc n) w s e h = elim (List-cases w.queue.items) [
    | inl empty ↦ inl empty
    | inr (req, reqs, waiting) ↦
        let (kept, left) = worker_turn_keeps p stored laws cfg w s e in
        let (rows, after, filled, (s', up, rest)) = kept in
        inr (
          s,
          e,
          kept,
          worker_turn-true p cfg w req reqs waiting,
          worker_turn-IsHandled laws n (worker_turn p cfg ready w).1 s' up (
              fewer n (limit cfg.batch_size) (length w.queue.items)
                (length (worker_turn p cfg ready w).1.queue.items) h
                (ap length left ∙ length-drop (limit cfg.batch_size) w.queue.items)),
        )
  ]
