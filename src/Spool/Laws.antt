-- ===== src/Spool/Laws.antt =====
-- internal/data/queue/sqlite_spool.go: what the statements keep and what they remove.
use code_watch.Prelude.{
  ℕ, ◌+◌, ◌/◌, ◌<◌, ◌≡◌, refl, ap, sym, ◌∙◌, String, Bool, false, not, ◌&&◌, ◌||◌, Option, none,
  some, List, [], ◌∷◌, ◌++◌, arith, ◌==◌, if◌then◌else◌, map, str_eq, eq_iff, Bool-cases, inl, inr,
}
use code_watch.Queue.{WriteRequest}
use code_watch.Worker.{SpoolRow, Ports}
use code_watch.Worker.Rounds.{IsSpool}
use code_watch.Spool
use code_watch.Spool.{
  TableRow, SqliteSpool, due, delete_row, delete_rows, ack, defer_row, defer_rows, nack, count_rows,
  pending_count,
}

abbrev pub stored_rows : List TableRow → List WriteRequest
stored_rows rs = map (λ r. r.request) rs

abbrev pub stored : SqliteSpool → List WriteRequest
stored sp = stored_rows sp.rows

stored_rows-append :
    (rs ss : List TableRow) → stored_rows (rs ++ ss) ≡ stored_rows rs ++ stored_rows ss
stored_rows-append [] ss = refl
stored_rows-append (r ∷ rs) ss = ap (λ x. r.request ∷ x) (stored_rows-append rs ss)

stored_rows-defer_row :
    (key : String) (next : ℕ) (row : SpoolRow) (rs : List TableRow)
    → stored_rows (defer_row key next row rs) ≡ stored_rows rs
unfolding defer_row
stored_rows-defer_row key next row [] = refl
stored_rows-defer_row key next row (r ∷ rs) =
    elim (Bool-cases (str_eq r.project_key key && (r.id == row.id))) [
      | inl e ↦ rw (e, defer_row) (ap (λ x. r.request ∷ x) (stored_rows-defer_row key next row rs))
      | inr e ↦ rw (e, defer_row) (ap (λ x. r.request ∷ x) (stored_rows-defer_row key next row rs))
    ]

stored_rows-defer_rows :
    (key : String) (next : ℕ) (rows : List SpoolRow) (rs : List TableRow)
    → stored_rows (defer_rows key next rows rs) ≡ stored_rows rs
unfolding defer_rows
stored_rows-defer_rows key next [] rs = refl
stored_rows-defer_rows key next (row ∷ rows) rs =
    stored_rows-defer_rows key next rows (defer_row key next row rs)
    ∙ stored_rows-defer_row key next row rs

-- The ports over this spool at time `now`, in milliseconds, with a store that is given.
module _ {D T : Type 0} (now : ℕ) (store : Ports Unit D T) where
  abbrev pub spool_ports : Ports SqliteSpool D T
  spool_ports = record {
    spool_enqueue = λ req sp. some (Spool.enqueue now req sp);
    spool_dequeue = λ n sp. some (Spool.dequeue_batch now n sp, sp);
    spool_ack = λ ids sp. some (ack ids sp);
    spool_nack = λ rows delay sp. some (nack rows (now + delay / 1000000) sp);
    begin_batch = store.begin_batch;
    upsert = store.upsert;
    delete = store.delete;
    prune = store.prune;
    commit = store.commit;
    upsert_now = store.upsert_now;
    delete_now = store.delete_now;
    prune_now = store.prune_now;
  }

  -- The table is a spool as the worker relies on it: `Enqueue` adds its request behind the others,
  -- and neither `DequeueBatch` nor `Nack` takes one away.
  pub spool_ports-IsSpool : IsSpool spool_ports stored
  unfolding Spool.enqueue nack
  spool_ports-IsSpool = record {
    adds = λ req sp. (Spool.enqueue now req sp, refl, stored_rows-append sp.rows _);
    reads = λ n s s' rows e. sym (ap (λ o. elim o [ none ↦ stored s | some (x, y) ↦ stored y ]) e);
    defers = λ rows delay s s' e.
        sym (ap (λ o. elim o [ none ↦ stored s | some y ↦ stored y ]) e)
        ∙ stored_rows-defer_rows s.project_key (now + delay / 1000000) rows s.rows;
  }

-- The row of a project under an id.
abbrev pub row_at : String → ℕ → List TableRow → Option TableRow
row_at key id [] = none
row_at key id (r ∷ rs) =
    if str_eq r.project_key key && (r.id == id) then some r else row_at key id rs

abbrev pub has_id : ℕ → List ℕ → Bool
has_id id [] = false
has_id id (i ∷ is) = (id == i) || has_id id is

row_at-delete_row :
    (key k : String) (id i : ℕ) (rs : List TableRow)
    → row_at k i (delete_row key id rs)
      ≡ (if str_eq k key && (i == id) then none else row_at k i rs)
unfolding delete_row
row_at-delete_row key k id i [] = ground arith
row_at-delete_row key k id i (r ∷ rs) = ground (
  arith,
  row_at-delete_row key k id i rs,
  eq_iff r.project_key key,
  eq_iff r.project_key k,
  eq_iff k key,
)

row_at-delete_rows :
    (key k : String) (ids : List ℕ) (i : ℕ) (rs : List TableRow)
    → row_at k i (delete_rows key ids rs)
      ≡ (if str_eq k key && has_id i ids then none else row_at k i rs)
unfolding delete_rows
row_at-delete_rows key k [] i rs = ground arith
row_at-delete_rows key k (id ∷ ids) i rs =
    ground (
      arith,
      row_at-delete_rows key k ids i (delete_row key id rs),
      row_at-delete_row key k id i rs,
    )

-- `Ack` removes exactly the rows of its project with the ids that it is given; every other row, of
-- this or another project, is as it was.
pub ack_removes :
    (ids : List ℕ) (sp : SqliteSpool) (key : String) (id : ℕ)
    → row_at key id (ack ids sp).rows
      ≡ (if str_eq key sp.project_key && has_id id ids then none else row_at key id sp.rows)
unfolding ack
ack_removes ids sp key id = row_at-delete_rows sp.project_key key ids id sp.rows

abbrev pub spool_ids : List SpoolRow → List ℕ
spool_ids [] = []
spool_ids (r ∷ rs) = r.id ∷ spool_ids rs

-- No due row of the project has this id.
hidden-defer_row :
    (key : String) (now next : ℕ) (row : SpoolRow) (id : ℕ) (rs : List TableRow)
    → now < next
    → has_id id (spool_ids (due key now (defer_row key next row rs)))
      ≡ (not (id == row.id) && has_id id (spool_ids (due key now rs)))
unfolding due defer_row
hidden-defer_row key now next row id [] later = ground arith
hidden-defer_row key now next row id (r ∷ rs) later =
    ground (arith, hidden-defer_row key now next row id rs later)

hidden-defer_rows :
    (key : String) (now next : ℕ) (rows : List SpoolRow) (id : ℕ) (rs : List TableRow)
    → now < next
    → has_id id (spool_ids (due key now (defer_rows key next rows rs)))
      ≡ (not (has_id id (spool_ids rows)) && has_id id (spool_ids (due key now rs)))
unfolding defer_rows
hidden-defer_rows key now next [] id rs later = ground arith
hidden-defer_rows key now next (row ∷ rows) id rs later = ground (
  arith,
  hidden-defer_rows key now next rows id (defer_row key next row rs) later,
  hidden-defer_row key now next row id rs later,
)

-- After `Nack` until a later time, the rows that are due now are those that were, less the ones
-- that it is given, and the spool holds the same requests.
pub nack_defers :
    (rows : List SpoolRow) (now next : ℕ) (sp : SqliteSpool)
    → now < next
    → ((id : ℕ)
        → has_id id (spool_ids (due sp.project_key now (nack rows next sp).rows)) ≡ (
            not (has_id id (spool_ids rows))
            && has_id id (spool_ids (due sp.project_key now sp.rows))))
      × (stored (nack rows next sp) ≡ stored sp)
unfolding nack
nack_defers rows now next sp later = (
  λ id. hidden-defer_rows sp.project_key now next rows id sp.rows later,
  stored_rows-defer_rows sp.project_key next rows sp.rows,
)
