-- ===== src/Worker/Drain/Ends.antt =====
-- internal/core/app/write_worker.go: how `drainWriteQueue` ends.
use code_watch.Prelude.{
  ℕ, zero, suc, ◌+◌, ◌-◌, ◌≤◌, ◌<◌, ◌≡◌, refl, ap, sym, ◌∙◌, inl, inr, Option, none, some, List, [],
  ◌∷◌, ◌++◌, arith, ltb, length, take, drop, Option-cases, Bool-cases,
}
use code_watch.Queue.{WriteRequest, ready, dequeue_batch}
use code_watch.Queue.History.{limit, dequeue_batch_takes, IsBatch}
use code_watch.Worker.{
  WriteQueueConfig, SpoolRow, Ports, World, requests_of, ids_of, at_least_one, apply_write_batch,
}
use code_watch.Worker.Rounds.{IsBatch-error}
use code_watch.Worker.Drain.{
  Drain, finished, failed, going, out_of_fuel, drain_memory, drain_rows, drain_some, drain_spool,
  drain_batch, drain_round, drain,
}

-- What the loop relies on: `pending` goes down with rows that are taken and acknowledged.
pub record IsPending {S D T : Type 0} (p : Ports S D T) (pending : S → ℕ) : Type 0 where
  pub idle : (n : ℕ) (s s' : S) → p.spool_dequeue n s ≡ some ([], s') → pending s' ≤ pending s
  pub acked :
      (n : ℕ) (s s' s'' : S) (row : SpoolRow) (rows : List SpoolRow)
      → p.spool_dequeue n s ≡ some (row ∷ rows, s')
      → p.spool_ack (ids_of (row ∷ rows)) s' ≡ some s''
      → pending s'' < pending s

split_length :
    (n : ℕ) (xs : List WriteRequest) → length (drop n xs) + length (take n xs) ≡ length xs
split_length n [] = omega arith
split_length zero (x ∷ xs) = omega arith
split_length (suc n) (x ∷ xs) = omega (arith, split_length n xs)

take_none : (n : ℕ) (xs : List WriteRequest) → 0 < n → take n xs ≡ [] → drop n xs ≡ []
take_none n [] h e = refl
take_none zero (x ∷ xs) h e = absurd (omega arith)
take_none (suc n) (x ∷ xs) h e = absurd (ground (arith, ap length e))

module _ {S D T : Type 0} (p : Ports S D T) (pending : S → ℕ) (laws : IsPending p pending) where
  abbrev waiting : Option S → ℕ
  waiting none = 0
  waiting (some s) = pending s

  abbrev left : World S D → ℕ
  left w = length w.queue.items + waiting w.spool

  -- A round from a queue with `n` requests returns, with an empty queue if it succeeds, or has less
  -- left than `m`.
  abbrev Progress : ℕ → Drain S D → Type 0
  Progress m (finished w) = w.queue.items ≡ []
  Progress m (failed w) = Unit
  Progress m (going w) = left w < m
  Progress m (out_of_fuel w) = ⊥

  drain_memory-Progress :
      (m : ℕ) (memory : List WriteRequest) (w : World S D)
      → (memory ≡ [] → w.queue.items ≡ [])
      → (0 < length memory → left w < m)
      → Progress m (drain_memory p memory w)
  unfolding drain_memory
  drain_memory-Progress m [] w h k = h refl
  drain_memory-Progress m (req ∷ reqs) w h k =
      elim (Option-cases (apply_write_batch p (req ∷ reqs) w.store)) [
        | inl e ↦ rw (e, drain_memory) tt
        | inr (d, e) ↦ rw (e, drain_memory) (k (ground arith))
      ]

  drain_spool-Progress :
      (cfg : WriteQueueConfig) (m : ℕ) (memory : List WriteRequest) (s : S) (w : World S D)
      → (memory ≡ [] → w.queue.items ≡ [])
      → length w.queue.items + length memory + pending s ≤ m
      → Progress m (drain_spool p cfg memory s w)
  unfolding drain_spool drain_some drain_rows
  drain_spool-Progress cfg m memory s w h k =
      let n = at_least_one cfg.batch_size - length memory in
      elim (Option-cases (p.spool_dequeue n s)) [
        | inl e ↦ rw (e, drain_spool) tt
        | inr (([], s'), e) ↦
            rw (e, drain_spool)
              (drain_memory-Progress m memory (record w { spool = some s' }) h
                (λ pos. omega (arith, laws.idle n s s' e)))
        | inr ((row ∷ rows, s'), e) ↦
            rw (e, drain_spool)
              (elim (Option-cases
                (apply_write_batch p (memory ++ requests_of (row ∷ rows)) w.store)) [
                  | inl f ↦ rw (f, drain_rows) tt
                  | inr (d, f) ↦ elim (Option-cases (p.spool_ack (ids_of (row ∷ rows)) s')) [
                    | inl g ↦ rw (f, g, drain_rows) tt
                    | inr (s'', g) ↦
                        rw (f, g, drain_rows) (omega (arith, laws.acked n s s' s'' row rows e g))
                  ]
                ])
      ]

  drain_batch-Progress :
      (cfg : WriteQueueConfig) (m : ℕ) (memory : List WriteRequest) (w : World S D)
      → (memory ≡ [] → w.queue.items ≡ [])
      → length w.queue.items + length memory + waiting w.spool ≤ m
      → Progress m (drain_batch p cfg memory w)
  unfolding drain_batch
  drain_batch-Progress cfg m memory w h k = elim (Option-cases w.spool) [
    | inl e ↦ simp (e, drain_batch) (drain_memory-Progress m memory w h (λ pos. omega arith))
    | inr (s, e) ↦ elim (Bool-cases (ltb (length memory) (at_least_one cfg.batch_size))) [
      | inl f ↦
          simp (e, f, drain_batch)
            (drain_spool-Progress cfg m memory s w h (omega (arith, ap waiting e)))
      | inr f ↦ simp (e, f, drain_batch) (drain_memory-Progress m memory w h (λ pos. omega arith))
    ]
  ]

  drain_round-Progress :
      (cfg : WriteQueueConfig) (w : World S D) → Progress (left w) (drain_round p cfg ready w)
  unfolding drain_round
  drain_round-Progress cfg w =
      let n = at_least_one cfg.batch_size in
      let b = dequeue_batch n ready w.queue in
      let i : IsBatch n w.queue b = dequeue_batch_takes n w.queue in
      let w' : World S D = record w { queue = b.queue } in
      let rest : b.queue.items ≡ drop (limit n) w.queue.items = ap (λ q. q.items) i.left in
      let good : Progress (left w) (drain_batch p cfg b.requests w') =
        drain_batch-Progress cfg (left w) b.requests w'
          (λ none. rest ∙ take_none (limit n) w.queue.items (ground arith) (sym i.taken ∙ none))
          (omega
            (arith, ap length rest, ap length i.taken, split_length (limit n) w.queue.items)) in
      elim (IsBatch-error i) [ inl e ↦ rw (e, drain_round) good | inr e ↦ rw (e, drain_round) good ]

  -- How the loop may return.
  abbrev pub Returns : Drain S D → Type 0
  Returns (finished w) = w.queue.items ≡ []
  Returns (failed w) = Unit
  Returns (going w) = ⊥
  Returns (out_of_fuel w) = ⊥

  -- What follows a round returns if the rounds that are left do.
  resume-Returns :
      (fuel : ℕ) (cfg : WriteQueueConfig) (m : ℕ) (r : Drain S D)
      → ((w : World S D) → left w < m → Returns (drain p fuel cfg ready w))
      → Progress m r
      → Returns (elim r [
        | finished w' ↦ finished w'
        | failed w' ↦ failed w'
        | going w' ↦ drain p fuel cfg ready w'
        | out_of_fuel w' ↦ out_of_fuel w'
      ])
  resume-Returns fuel cfg m (finished w) rec h = h
  resume-Returns fuel cfg m (failed w) rec h = tt
  resume-Returns fuel cfg m (going w) rec h = rec w h
  resume-Returns fuel cfg m (out_of_fuel w) rec h = absurd h

  -- With more rounds than requests in the queue and rows that may be pending in the spool,
  -- `drainWriteQueue` under a context that is not done returns: with an error, or with an empty
  -- queue.
  pub drain-Returns :
      (fuel : ℕ) (cfg : WriteQueueConfig) (w : World S D)
      → left w < fuel
      → Returns (drain p fuel cfg ready w)
  unfolding drain
  drain-Returns zero cfg w h = absurd (omega arith)
  drain-Returns (suc fuel) cfg w h =
      resume-Returns fuel cfg (left w) (drain_round p cfg ready w)
        (λ w' k. drain-Returns fuel cfg w' (omega arith)) (drain_round-Progress cfg w)
