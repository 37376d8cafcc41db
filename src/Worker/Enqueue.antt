-- ===== src/Worker/Enqueue.antt =====
-- internal/core/app/write_worker.go: where `enqueueSymbolWrite` puts a request.
use mathlib.Core.Path.{subst}
use code_watch.Prelude.{
  sym, ◌∙◌, arith, String, Bool, true, false, ◌≡◌, refl, ap, inl, inr, ◌⊎◌, Option, none, some, [],
  ◌∷◌, ◌++◌, ltb, if◌then◌else◌, str_eq, Bool-cases, Option-cases, length,
}
use code_watch.Queue
use code_watch.Queue.{WriteRequest, MemoryQueue, accepted, dropped}
use code_watch.Worker.{
  WriteQueueConfig, Ports, World, apply_write_request, write_now, overflow, after_enqueue,
  enqueue_symbol_write,
}

abbrev pub keyed : String → WriteRequest → WriteRequest
keyed active req = record req {
  project_key = if str_eq req.project_key "" then active else req.project_key;
}

-- The queue takes a request.
abbrev pub has_room : MemoryQueue → Bool
has_room q = if q.closed then false else ltb (length q.items) q.capacity

enqueue_room :
    (req : WriteRequest) (q : MemoryQueue)
    → has_room q ≡ true
    → Queue.enqueue req q ≡ (accepted, record q { items = q.items ++ req ∷ [] })
unfolding Queue.enqueue
enqueue_room req q h = ground arith

enqueue_full :
    (req : WriteRequest) (q : MemoryQueue) → has_room q ≡ false → Queue.enqueue req q ≡ (dropped, q)
unfolding Queue.enqueue
enqueue_full req q h = ground arith

module _ {S D T : Type 0} (p : Ports S D T) where
  -- The spool is off or refuses the request.
  abbrev pub Refused : WriteRequest → World S D → Type 0
  Refused req w = (w.spool ≡ none) ⊎ ((s : S) × (w.spool ≡ some s) × (p.spool_enqueue req s ≡ none))

  -- The four ways a call ends, each with its condition and all that it changes.
  abbrev pub Placed : WriteQueueConfig → WriteRequest → World S D → Option (World S D) → Type 0
  Placed cfg req w out =
      ((has_room w.queue ≡ true)
        × (out
            ≡ some (record w { queue = record (w.queue) { items = w.queue.items ++ req ∷ [] } })))
      ⊎ (((has_room w.queue ≡ false)
            × ((s : S) × (s' : S) × (w.spool ≡ some s)
                × (p.spool_enqueue req s ≡ some s')
                × (out ≡ some (record w { spool = some s' }))))
          ⊎ (((has_room w.queue ≡ false)
                × Refused req w
                × (cfg.sync_fallback ≡ true)
                × ((d : D) × (apply_write_request p req w.store ≡ some d)
                    × (out ≡ some (record w { store = d }))))
              ⊎ ((has_room w.queue ≡ false)
                  × Refused req w
                  × ((cfg.sync_fallback ≡ false) ⊎ (apply_write_request p req w.store ≡ none))
                  × (out ≡ none))))

  write_now-Placed :
      (cfg : WriteQueueConfig) (req : WriteRequest) (w : World S D)
      → has_room w.queue ≡ false
      → Refused req w
      → Placed cfg req w (write_now p cfg req w)
  unfolding write_now
  write_now-Placed cfg req w full refused = elim (Bool-cases cfg.sync_fallback) [
    | inr off ↦ inr (inr (inr (full, refused, inl off, rw (off, write_now) refl)))
    | inl on ↦ elim (Option-cases (apply_write_request p req w.store)) [
      | inl e ↦ inr (inr (inr (full, refused, inr e, rw (on, e, write_now) refl)))
      | inr (d, e) ↦ inr (inr (inl (full, refused, on, (d, e, rw (on, e, write_now) refl))))
    ]
  ]

  overflow_of :
      (cfg : WriteQueueConfig) (req : WriteRequest) (w : World S D) {o : Option S}
      → w.spool ≡ o
      → overflow p cfg req w ≡ (elim o [
        | none ↦ write_now p cfg req w
        | some s ↦ elim (p.spool_enqueue req s) [
          | none ↦ write_now p cfg req w
          | some s' ↦ some (record w { spool = some s' })
        ]
      ])
  unfolding overflow
  overflow_of cfg req w e =
      ap
        (λ o. elim o [
          | none ↦ write_now p cfg req w
          | some s ↦ elim (p.spool_enqueue req s) [
            | none ↦ write_now p cfg req w
            | some s' ↦ some (record w { spool = some s' })
          ]
        ])
        e

  overflow-Placed :
      (cfg : WriteQueueConfig) (req : WriteRequest) (w : World S D)
      → has_room w.queue ≡ false
      → Placed cfg req w (overflow p cfg req w)
  unfolding overflow
  overflow-Placed cfg req w full = elim (Option-cases w.spool) [
    | inl e ↦
        subst (Placed cfg req w) (sym (overflow_of cfg req w e))
          (write_now-Placed cfg req w full (inl e))
    | inr (s, e) ↦ elim (Option-cases (p.spool_enqueue req s)) [
      | inl f ↦
          subst (Placed cfg req w) (sym (overflow_of cfg req w e ∙ rw (f) refl))
            (write_now-Placed cfg req w full (inr (s, e, f)))
      | inr (s', f) ↦ inr (inl (full, (s, s', e, f, overflow_of cfg req w e ∙ rw (f) refl)))
    ]
  ]

  -- A write with its project key set goes behind the others in the queue if that is open and has
  -- room; otherwise to the spool if there is one that takes it; otherwise, if the fallback is on,
  -- to the store at once; and the call fails, and changes nothing, only if none of these does.
  pub enqueue_symbol_write_places :
      (cfg : WriteQueueConfig) (active : String) (req : WriteRequest) (w : World S D)
      → Placed cfg (keyed active req) w (enqueue_symbol_write p cfg active req w)
  unfolding enqueue_symbol_write after_enqueue
  enqueue_symbol_write_places cfg active req w = elim (Bool-cases (has_room w.queue)) [
    | inl room ↦ inl (
      room,
      ap (after_enqueue p cfg (keyed active req) w) (enqueue_room (keyed active req) w.queue room),
    )
    | inr full ↦
        subst (Placed cfg (keyed active req) w)
          (ap (after_enqueue p cfg (keyed active req) w)
            (sym (enqueue_full (keyed active req) w.queue full)))
          (overflow-Placed cfg (keyed active req) w full)
  ]
