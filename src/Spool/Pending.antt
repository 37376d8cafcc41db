-- ===== src/Spool/Pending.antt =====
-- internal/data/queue/sqlite_spool.go: the number of rows after rows are acknowledged.
use code_watch.Prelude.{
  ℕ, zero, suc, ◌≤◌, ◌<◌, ◌≡◌, ap, String, true, Option, none, some, List, [], ◌∷◌, arith, ◌==◌,
  if◌then◌else◌, take, length,
}
use code_watch.Worker.{SpoolRow, Ports, ids_of}
use code_watch.Worker.Drain.Ends.{IsPending}
use code_watch.Spool
use code_watch.Spool.{TableRow, SqliteSpool, due, delete_row, delete_rows, ack}
use code_watch.Spool.Laws.{has_id, spool_ids, spool_ports}

length-delete_row :
    (key : String) (id : ℕ) (rs : List TableRow) → length (delete_row key id rs) ≤ length rs
unfolding delete_row
length-delete_row key id [] = omega arith
length-delete_row key id (r ∷ rs) = ground (arith, length-delete_row key id rs)

length-delete_rows :
    (key : String) (ids : List ℕ) (rs : List TableRow) → length (delete_rows key ids rs) ≤ length rs
unfolding delete_rows
length-delete_rows key [] rs = omega arith
length-delete_rows key (id ∷ ids) rs =
    omega (arith, length-delete_rows key ids (delete_row key id rs), length-delete_row key id rs)

delete_due :
    (key : String) (now id : ℕ) (rs : List TableRow)
    → has_id id (spool_ids (due key now rs)) ≡ true
    → length (delete_row key id rs) < length rs
unfolding due delete_row
delete_due key now id [] h = cc
delete_due key now id (r ∷ rs) h =
    ground (arith, delete_due key now id rs, length-delete_row key id rs)

first_taken :
    (n : ℕ) (xs rows : List SpoolRow) (row : SpoolRow)
    → take n xs ≡ row ∷ rows
    → has_id row.id (spool_ids xs) ≡ true
first_taken n [] rows row e = absurd (ground (arith, ap length e))
first_taken zero (x ∷ xs) rows row e = absurd (ground (arith, ap length e))
first_taken (suc n) (x ∷ xs) rows row e =
    let same : x.id ≡ row.id = ap (λ l. elim l [ [] ↦ 0 | y ∷ ys ↦ y.id ]) e in ground arith

-- The two parts of a `DequeueBatch` that gave something.
rows_in : Option (List SpoolRow × SqliteSpool) → List SpoolRow
rows_in none = []
rows_in (some (rows, sp)) = rows

spool_in : SqliteSpool → Option (List SpoolRow × SqliteSpool) → SqliteSpool
spool_in s none = s
spool_in s (some (rows, sp)) = sp

size_of : ℕ → Option SqliteSpool → ℕ
size_of n none = n
size_of n (some sp) = length sp.rows

ack_shrinks :
    (now n : ℕ) (s : SqliteSpool) (row : SpoolRow) (rows : List SpoolRow)
    → Spool.dequeue_batch now n s ≡ row ∷ rows
    → length (ack (ids_of (row ∷ rows)) s).rows < length s.rows
unfolding Spool.dequeue_batch ack delete_rows
ack_shrinks now n s row rows e =
    let head = first_taken (if n == 0 then 1 else n) (due s.project_key now s.rows) rows row e in
    omega (
      arith,
      delete_due s.project_key now row.id s.rows head,
      length-delete_rows s.project_key (ids_of rows) (delete_row s.project_key row.id s.rows),
    )

-- What is pending for the drain is at most every row of the table.
pub spool_ports-IsPending :
    {D T : Type 0} (now : ℕ) (store : Ports Unit D T)
    → IsPending (spool_ports now store) (λ sp. length sp.rows)
unfolding rows_in spool_in size_of
spool_ports-IsPending now store = record {
  idle = λ n s s' e. omega (arith, ap (λ x. length (spool_in s x).rows) e);
  acked = λ n s s' s'' row rows e f.
      let read : Spool.dequeue_batch now n s ≡ row ∷ rows = ap rows_in e in
      let same : s ≡ s' = ap (spool_in s) e in
      omega (
        arith,
        ack_shrinks now n s row rows read,
        ap (λ z. length (ack (ids_of (row ∷ rows)) z).rows) same,
        ap (size_of 0) f,
      );
}
