-- ===== src/Storage/Sqlite/Database.antt =====
-- The class Database of database.py: a database file with the batch that its thread has read ahead,
-- and the settings of storage_settings.py. The connection works while the database is not closed:
-- the retries of database_connector.py are those of a locked file.
pub mod Expiry
use thingsboard_gateway.Prelude.{
  ℕ, ◌+◌, ◌-◌, ◌*◌, ◌/◌, min, List, [], ◌∷◌, Bool, true, false, not, ◌&&◌, ◌||◌, Option, none, some,
  leb, ltb, is_empty, length, take, drop, get_or, if◌then◌else◌,
}
use thingsboard_gateway.Storage.Sqlite.Table.{
  Row, Table, new_table, insert_rows, insert_select, select_limit, delete_le, delete_older,
}

pub record Config : Type 0 where
  pub messages_ttl_check_in_hours : Option ℕ
  pub messages_ttl_in_days : Option ℕ
  pub max_read_records_count : Option ℕ
  pub writing_batch_size : Option ℕ
  pub size_limit : Option ℕ
  pub max_db_amount : Option ℕ
  pub oversize_check_period : Option ℕ

pub data Warning : Type 0 where
  file_name_given size_limit_too_small oversize_check_period_too_small : Warning

pub record Settings : Type 0 where
  pub messages_ttl_check_in_hours : ℕ
  pub messages_ttl_in_days : ℕ
  pub max_read_records_count : ℕ
  pub batch_size : ℕ
  pub size_limit : ℕ
  pub max_db_amount : ℕ
  pub oversize_check_period : ℕ
  pub warnings : List Warning

-- StorageSettings with its validation, which `enable_validation` turns on; `has_file_name` is
-- whether the path ends in a file's name.
unfoldable pub storage_settings : Bool → Bool → Config → Settings
storage_settings enable_validation has_file_name config =
    let size_limit = get_or config.size_limit 1024 in
    let period = get_or config.oversize_check_period 1 in
    let small = ltb size_limit 1 && enable_validation in
    let short = ltb period 1 && enable_validation in
    let w3 = if short then oversize_check_period_too_small ∷ [] else [] in
    let w2 = if small then size_limit_too_small ∷ w3 else w3 in
    record {
      messages_ttl_check_in_hours = get_or config.messages_ttl_check_in_hours 1 * 3600;
      messages_ttl_in_days = get_or config.messages_ttl_in_days 7;
      max_read_records_count = get_or config.max_read_records_count 1000;
      batch_size = get_or config.writing_batch_size 1000;
      size_limit = if small then 1 else size_limit;
      max_db_amount = get_or config.max_db_amount 10;
      oversize_check_period = if short then 1 else period;
      warnings = if has_file_name then file_name_given ∷ w2 else w2;
    }

-- A database and its file, by the number in the file's name: 0 stands for "data.db".
pub record Database (M : Type 0) : Type 0 where
  pub name : ℕ
  pub table : Table M
  pub next_batch : List (Row M)
  pub can_prepare : Bool
  pub should_read : Bool
  pub should_write : Bool
  pub reached_size_limit : Bool
  pub last_msg_check : ℕ
  pub closed : Bool

module _ {M : Type 0} where
  -- `Database(...)` over a table that is there.
  unfoldable pub open_database : ℕ → Table M → Bool → Bool → Database M
  open_database name table should_read should_write = record {
    name = name;
    table = table;
    next_batch = [];
    can_prepare = true;
    should_read = should_read;
    should_write = should_write;
    reached_size_limit = false;
    last_msg_check = 0;
    closed = false;
  }

  -- `migrate_old_data`, for the rows of the table with the old schema.
  unfoldable pub migrate_old_data : List (Row M) → Table M
  unfolding insert_select
  migrate_old_data rows = insert_select rows new_table

  unfoldable pub database_has_records : Database M → Bool
  database_has_records d = not d.closed && not (is_empty d.table.rows)

  -- `stopped` is the event of the storage.
  unfoldable pub read_data : Settings → Bool → Database M → List (Row M)
  read_data settings stopped d =
      if d.closed || stopped
      then []
      else if is_empty d.next_batch
      then select_limit settings.max_read_records_count d.table
      else d.next_batch

  unfoldable pub delete_data : ℕ → Database M → Database M
  unfolding delete_le
  delete_data row_id d = if d.closed then d else record d { table = delete_le row_id d.table }

  -- `delete_data_lte` at the time `now` in seconds.
  unfoldable pub delete_data_lte : ℕ → ℕ → Database M → Database M
  unfolding delete_older
  delete_data_lte now days d =
      if d.closed then d else record d { table = delete_older now (days * 86400) d.table }

  unfoldable pub can_prepare_new_batch : Database M → Database M
  can_prepare_new_batch d = record d { next_batch = []; can_prepare = true }

  -- `none` is the -1 of a closed database.
  unfoldable pub get_stored_messages_count : Database M → Option ℕ
  get_stored_messages_count d = if d.closed then none else some (length d.table.rows)

  unfoldable pub close_db : Database M → Database M
  close_db d = record d { closed = true }

  -- The part of `run` that reads ahead.
  unfoldable pub prepare_batch : Settings → Bool → Database M → Database M
  unfolding read_data
  prepare_batch settings stopped d =
      if d.should_read && d.can_prepare && is_empty d.next_batch
      then record d { next_batch = read_data settings stopped d; can_prepare = false }
      else d

  -- The test of `process` whether to look for expired messages, at `cur` in milliseconds.
  unfoldable pub checks_expiry : Settings → ℕ → Database M → Bool
  checks_expiry settings cur d =
      leb (d.last_msg_check + d.last_msg_check + settings.messages_ttl_check_in_hours) cur

  unfoldable pub expire : Settings → ℕ → Bool → Database M → Database M
  unfolding checks_expiry delete_data_lte
  expire settings cur stopped d =
      if checks_expiry settings cur d && not stopped && not d.closed
      then delete_data_lte (cur / 1000) settings.messages_ttl_in_days
          (record d { last_msg_check = cur })
      else d

  -- A batch in the table, when the database is open.
  unfoldable pub write_batch : ℕ → List M → Database M → Database M
  unfolding insert_rows
  write_batch cur ms d = if d.closed then d else record d { table = insert_rows cur ms d.table }

  -- `process`, with the number of messages that come out of the queue in its tenth of a second;
  -- with it the queue that is left.
  unfoldable pub process : Settings → ℕ → ℕ → Bool → List M → Database M → Database M × List M
  unfolding expire write_batch
  process settings cur collected stopped queue d =
      let n = if stopped then 0 else min collected (min settings.batch_size (length queue)) in
      (write_batch cur (take n queue) (expire settings cur stopped d), drop n queue)

  -- `process_file_limit` but for its callback: the size of the file in bytes.
  unfoldable pub note_size : Settings → ℕ → Database M → Database M
  note_size settings size d =
      if leb (settings.size_limit * 1000000) size then record d { reached_size_limit = true } else d
