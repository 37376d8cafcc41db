-- ===== src/Spool.antt =====
-- internal/data/queue/sqlite_spool.go: the table `write_spool`, its rows by ascending id. The SQL
-- statements are modelled by what they do to the table, for a database that does not fail; the JSON
-- of a request is the request. The columns that no statement reads back (operation, file path,
-- creation time, last error) are left out, and times are milliseconds.
pub mod Laws
pub mod Pending
use code_watch.Prelude.{
  ℕ, zero, suc, ◌+◌, String, Bool, true, false, not, ◌&&◌, ◌||◌, Option, none, some, List, [], ◌∷◌,
  ◌++◌, leb, ◌==◌, if◌then◌else◌, take, str_eq,
}
use code_watch.Queue.{WriteRequest}
use code_watch.Worker.{SpoolRow}

pub record TableRow : Type 0 where
  pub id : ℕ
  pub project_key : String
  pub request : WriteRequest
  pub attempts : ℕ
  pub next_attempt_at : ℕ

pub record SqliteSpool : Type 0 where
  pub project_key : String
  pub rows : List TableRow
  -- `AUTOINCREMENT`
  pub next_id : ℕ

-- `key == ""` after `TrimSpace`
unfoldable pub open_spool : String → SqliteSpool
open_spool key = record {
  project_key = if str_eq key "" then "default" else key;
  rows = [];
  next_id = 1;
}

-- `Enqueue`
unfoldable pub enqueue : ℕ → WriteRequest → SqliteSpool → SqliteSpool
enqueue now req sp =
    let row : TableRow = record {
      id = sp.next_id;
      project_key = sp.project_key;
      request = req;
      attempts = 0;
      next_attempt_at = now;
    } in
    record sp { rows = sp.rows ++ row ∷ []; next_id = sp.next_id + 1 }

-- `WHERE project_key = ? AND next_attempt_at <= ?`
unfoldable pub due : String → ℕ → List TableRow → List SpoolRow
due key now [] = []
due key now (r ∷ rs) =
    let rest = due key now rs in
    let row : SpoolRow = record { id = r.id; request = r.request; attempts = r.attempts } in
    if str_eq r.project_key key && leb r.next_attempt_at now then row ∷ rest else rest

-- `DequeueBatch`
unfoldable pub dequeue_batch : ℕ → ℕ → SqliteSpool → List SpoolRow
unfolding due
dequeue_batch now max_items sp =
    take (if max_items == 0 then 1 else max_items) (due sp.project_key now sp.rows)

-- `DELETE FROM write_spool WHERE project_key = ? AND id = ?`
unfoldable pub delete_row : String → ℕ → List TableRow → List TableRow
delete_row key id [] = []
delete_row key id (r ∷ rs) =
    let rest = delete_row key id rs in
    if str_eq r.project_key key && (r.id == id) then rest else r ∷ rest

unfoldable pub delete_rows : String → List ℕ → List TableRow → List TableRow
unfolding delete_row
delete_rows key [] rs = rs
delete_rows key (id ∷ ids) rs = delete_rows key ids (delete_row key id rs)

-- `Ack`
unfoldable pub ack : List ℕ → SqliteSpool → SqliteSpool
unfolding delete_rows
ack ids sp = record sp { rows = delete_rows sp.project_key ids sp.rows }

-- `UPDATE write_spool SET attempts = ?, next_attempt_at = ? WHERE project_key = ? AND id = ?`
unfoldable pub defer_row : String → ℕ → SpoolRow → List TableRow → List TableRow
defer_row key next row [] = []
defer_row key next row (r ∷ rs) =
    let rest = defer_row key next row rs in
    if str_eq r.project_key key && (r.id == row.id)
    then record r { attempts = row.attempts + 1; next_attempt_at = next } ∷ rest
    else r ∷ rest

unfoldable pub defer_rows : String → ℕ → List SpoolRow → List TableRow → List TableRow
unfolding defer_row
defer_rows key next [] rs = rs
defer_rows key next (row ∷ rows) rs = defer_rows key next rows (defer_row key next row rs)

-- `Nack`
unfoldable pub nack : List SpoolRow → ℕ → SqliteSpool → SqliteSpool
unfolding defer_rows
nack rows next sp = record sp { rows = defer_rows sp.project_key next rows sp.rows }

-- `PendingCount`
unfoldable pub count_rows : String → List TableRow → ℕ
count_rows key [] = 0
count_rows key (r ∷ rs) = (if str_eq r.project_key key then 1 else 0) + count_rows key rs

unfoldable pub pending_count : SqliteSpool → ℕ
unfolding count_rows
pending_count sp = count_rows sp.project_key sp.rows
