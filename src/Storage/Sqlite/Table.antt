-- ===== src/Storage/Sqlite/Table.antt =====
-- The table `messages` of database.py and the SQL statements on it. A select without an order reads
-- the rows by their id, which AUTOINCREMENT makes larger than all that there were.
pub mod Order
use thingsboard_gateway.Prelude.{
  ℕ, zero, suc, ◌+◌, List, [], ◌∷◌, ◌++◌, Bool, true, false, not, leb, is_empty, length, take,
  if◌then◌else◌,
}

pub record Row (M : Type 0) : Type 0 where
  pub id : ℕ
  pub timestamp : ℕ
  pub message : M

pub record Table (M : Type 0) : Type 0 where
  pub rows : List (Row M)
  pub last_id : ℕ

module _ {M : Type 0} where
  -- `CREATE TABLE`
  abbrev pub new_table : Table M
  new_table = record { rows = []; last_id = 0 }

  -- `INSERT INTO messages (timestamp, message) VALUES (?, ?)`
  unfoldable pub insert_row : ℕ → M → Table M → Table M
  insert_row timestamp message t = record {
    rows = t.rows ++ record { id = t.last_id + 1; timestamp = timestamp; message = message } ∷ [];
    last_id = t.last_id + 1;
  }

  -- `executemany` of the insert: the messages at one time.
  unfoldable pub insert_rows : ℕ → List M → Table M → Table M
  unfolding insert_row
  insert_rows timestamp [] t = t
  insert_rows timestamp (m ∷ ms) t = insert_rows timestamp ms (insert_row timestamp m t)

  -- `SELECT id, timestamp, message FROM messages LIMIT ?`
  abbrev pub select_limit : ℕ → Table M → List (Row M)
  select_limit n t = take n t.rows

  -- The rows of which a test does not hold.
  unfoldable pub without : (Row M → Bool) → List (Row M) → List (Row M)
  without test [] = []
  without test (r ∷ rows) = let rest = without test rows in if test r then rest else r ∷ rest

  -- `DELETE FROM messages WHERE id <= ?`
  unfoldable pub delete_le : ℕ → Table M → Table M
  unfolding without
  delete_le id t = record t { rows = without (λ r. leb r.id id) t.rows }

  -- `DELETE FROM messages WHERE timestamp <= ?` at a number of seconds less those of some days,
  -- which may be negative.
  unfoldable pub delete_older : ℕ → ℕ → Table M → Table M
  unfolding without
  delete_older seconds ttl t = record t {
    rows = without (λ r. leb (r.timestamp + ttl) seconds) t.rows;
  }

  -- `INSERT INTO messages (timestamp, message) SELECT timestamp, message FROM messages_old`
  unfoldable pub insert_select : List (Row M) → Table M → Table M
  unfolding insert_row
  insert_select [] t = t
  insert_select (r ∷ rows) t = insert_select rows (insert_row r.timestamp r.message t)

  -- The messages of rows, in their order.
  unfoldable pub messages_of : List (Row M) → List M
  messages_of [] = []
  messages_of (r ∷ rows) = r.message ∷ messages_of rows
