-- ===== src/Storage/Sqlite/Files.antt =====
-- The class SQLiteEventStorage of sqlite_event_storage.py. Its files are in the order of their
-- names, and a new file's name is that of none before it: it is made of the seconds of the clock.
use thingsboard_gateway.Prelude.{
  ℕ, ◌*◌, List, [], ◌∷◌, ◌++◌, Bool, true, false, not, ◌&&◌, ◌||◌, Option, none, some, is_some, leb,
  ltb, ◌==◌, is_empty, length, if◌then◌else◌,
}
use thingsboard_gateway.Storage.Sqlite.Table.{Row, new_table}
use thingsboard_gateway.Storage.Sqlite.Database.{
  Settings, Database, open_database, database_has_records, read_data, delete_data,
  can_prepare_new_batch, close_db, prepare_batch, process, note_size,
}

pub record SqliteEventStorage (M : Type 0) : Type 0 where
  pub settings : Settings
  pub write_queue : List M
  pub stopped : Bool
  pub database_files : List (Database M)
  pub read_database : ℕ
  pub write_database : ℕ
  pub is_max_db_amount_reached : Bool
  pub delete_time_point : ℕ

unfoldable pub last_name : ℕ → List ℕ → ℕ
last_name f [] = f
last_name f (g ∷ files) = last_name g files

-- `__select_initial_db_files` over the sorted names.
unfoldable pub select_initial_db_files : List ℕ → ℕ × ℕ
select_initial_db_files [] = (0, 0)
select_initial_db_files (f ∷ []) = if ltb 0 f then (f, f) else (0, 0)
select_initial_db_files (f ∷ g ∷ files) = (f, last_name g files)

module _ {M : Type 0} where
  unfoldable pub find : ℕ → List (Database M) → Option (Database M)
  find name [] = none
  find name (d ∷ files) = if d.name == name then some d else find name files

  -- A change of one database, which keeps its name.
  unfoldable pub modify : ℕ → (Database M → Database M) → List (Database M) → List (Database M)
  modify name f [] = []
  modify name f (d ∷ files) =
      let rest = modify name f files in if d.name == name then f d ∷ files else d ∷ rest

  -- `list.remove`
  unfoldable pub remove_file : ℕ → List (Database M) → List (Database M)
  remove_file name [] = []
  remove_file name (d ∷ files) =
      let rest = remove_file name files in if d.name == name then files else d ∷ rest

  abbrev pub on_database :
      ℕ → (Database M → Database M) → SqliteEventStorage M → SqliteEventStorage M
  on_database name f s = record s { database_files = modify name f s.database_files }

  -- What the read database holds; a database whose file is deleted is closed and has nothing.
  unfoldable pub has_records : SqliteEventStorage M → Bool
  has_records s = elim (find s.read_database s.database_files) [
    | none ↦ false
    | some d ↦ database_has_records d
  ]

  unfoldable pub is_oversize : ℕ → SqliteEventStorage M → Bool
  is_oversize name s = elim (find name s.database_files) [
    | none ↦ false
    | some d ↦ d.reached_size_limit
  ]

  -- `__start_write_database` for a new file named by the time `now`.
  unfoldable pub start_write_database : ℕ → SqliteEventStorage M → SqliteEventStorage M
  unfolding open_database
  start_write_database now s = record s {
    database_files = s.database_files ++ open_database now new_table false true ∷ [];
    write_database = now;
  }

  unfoldable pub check_and_handle_max_db_count :
      ℕ → SqliteEventStorage M → SqliteEventStorage M × Bool
  unfolding start_write_database
  check_and_handle_max_db_count now s =
      if leb s.settings.max_db_amount (length s.database_files)
      then (record s { is_max_db_amount_reached = true }, true)
      else if s.is_max_db_amount_reached
      then (start_write_database now (record s { is_max_db_amount_reached = false }), false)
      else (s, false)

  -- `__cleanup_write_db_after_thread_termination`: the thread of the old file writes no more. Its
  -- object is dropped unless it is the read database.
  unfoldable pub cleanup_write_db : SqliteEventStorage M → SqliteEventStorage M
  cleanup_write_db s = on_database s.write_database (λ d. record d { should_write = false }) s

  unfoldable pub on_write_database_callback : ℕ → SqliteEventStorage M → SqliteEventStorage M
  unfolding cleanup_write_db start_write_database
  on_write_database_callback now s =
      if is_oversize s.write_database s
        && not (leb s.settings.max_db_amount (length s.database_files))
      then start_write_database now (cleanup_write_db s)
      else s

  -- `process_file_limit` of a database whose file has `size` bytes.
  unfoldable pub process_file_limit : ℕ → ℕ → ℕ → SqliteEventStorage M → SqliteEventStorage M
  unfolding note_size on_write_database_callback
  process_file_limit now size name s = elim (find name s.database_files) [
    | none ↦ s
    | some d ↦
        let s' = on_database name (note_size s.settings size) s in
        if leb (s.settings.size_limit * 1000000) size && d.should_write
        then on_write_database_callback now s'
        else s'
  ]

  -- `__create_read_database` for the first of the files.
  unfoldable pub read_first : List (Database M) → SqliteEventStorage M → SqliteEventStorage M
  unfolding open_database
  read_first [] s = s
  read_first (d ∷ files) s = record s {
    database_files = open_database d.name d.table true false ∷ files;
    read_database = d.name;
  }

  unfoldable pub create_read_database : SqliteEventStorage M → SqliteEventStorage M
  unfolding read_first
  create_read_database s = read_first s.database_files s

  unfoldable pub next_read_database : SqliteEventStorage M → SqliteEventStorage M
  unfolding create_read_database
  next_read_database s =
      if ltb 1 (length s.database_files)
      then create_read_database s
      else on_database s.write_database (λ d. record d { should_read = true })
          (record s { read_database = s.write_database })

  -- `process` of the write database `d`, on the queue that it shares with the storage.
  unfoldable pub write_from_queue : ℕ → ℕ → Database M → SqliteEventStorage M → SqliteEventStorage M
  unfolding process
  write_from_queue cur collected d s = record s {
    database_files =
        modify s.write_database
          (λ x. (process s.settings cur collected s.stopped s.write_queue x).0) s.database_files;
    write_queue = (process s.settings cur collected s.stopped s.write_queue d).1;
  }

  -- A round of the thread of the write database.
  unfoldable pub write_round : ℕ → ℕ → SqliteEventStorage M → SqliteEventStorage M
  unfolding write_from_queue
  write_round cur collected s = elim (find s.write_database s.database_files) [
    | none ↦ s
    | some d ↦
        if d.should_write && not d.closed && not s.stopped
        then write_from_queue cur collected d s
        else s
  ]

  -- The wait for the queue, with the rounds of the thread of the write database that fall into it,
  -- each with its time and what it collects.
  unfoldable pub drain : List (ℕ × ℕ) → SqliteEventStorage M → SqliteEventStorage M
  unfolding write_round
  drain [] s = s
  drain ((cur, collected) ∷ rounds) s =
      let rest = drain rounds (write_round cur collected s) in
      if is_empty s.write_queue then s else rest

  -- `__finalize_read_database_thread`, for a file that is there.
  unfoldable pub finalize_read_database : List (ℕ × ℕ) → SqliteEventStorage M → SqliteEventStorage M
  unfolding drain
  finalize_read_database rounds s =
      if is_some (find s.read_database s.database_files) then drain rounds s else s

  -- What follows the wait: the file is deleted, and another one is read.
  unfoldable pub leave_read_database : ℕ → SqliteEventStorage M → SqliteEventStorage M
  unfolding next_read_database check_and_handle_max_db_count
  leave_read_database now s =
      (check_and_handle_max_db_count now (
        next_read_database (record s {
          database_files = remove_file s.read_database s.database_files;
          delete_time_point = 0;
        }))).0

  unfoldable pub rotate_read_database :
      List (ℕ × ℕ) → ℕ → SqliteEventStorage M → SqliteEventStorage M
  unfolding finalize_read_database leave_read_database
  rotate_read_database rounds now s = leave_read_database now (finalize_read_database rounds s)

  -- Whether a write database over its limit is the last that may be.
  unfoldable pub has_no_room : ℕ → SqliteEventStorage M → SqliteEventStorage M × Bool
  unfolding check_and_handle_max_db_count
  has_no_room now s =
      if is_oversize s.write_database s then check_and_handle_max_db_count now s else (s, false)

  unfoldable pub enqueue : M → SqliteEventStorage M × Bool → SqliteEventStorage M × Bool
  enqueue message (s, true) = (s, false)
  enqueue message (s, false) = (record s { write_queue = s.write_queue ++ message ∷ [] }, true)

  unfoldable pub put : ℕ → M → SqliteEventStorage M → SqliteEventStorage M × Bool
  unfolding has_no_room enqueue
  put now message s =
      if s.is_max_db_amount_reached || s.stopped
      then (s, false)
      else enqueue message (has_no_room now s)

  -- A round of the thread of the read database.
  unfoldable pub read_ahead : SqliteEventStorage M → SqliteEventStorage M
  unfolding prepare_batch
  read_ahead s = on_database s.read_database (prepare_batch s.settings s.stopped) s

  unfoldable pub data_from_storage : SqliteEventStorage M → List (Row M)
  unfolding read_data
  data_from_storage s = elim (find s.read_database s.database_files) [
    | none ↦ []
    | some d ↦ read_data s.settings s.stopped d
  ]

  -- The rotations of `get_event_pack`, for the rows that it read.
  unfoldable pub rotate_if_missing :
      List (ℕ × ℕ) → ℕ → List (Row M) → SqliteEventStorage M → SqliteEventStorage M
  unfolding rotate_read_database
  rotate_if_missing rounds now rows s =
      if is_empty rows && not (is_some (find s.read_database s.database_files))
      then rotate_read_database rounds now s
      else s

  unfoldable pub rotate_if_read :
      List (ℕ × ℕ) → ℕ → List (Row M) → SqliteEventStorage M → SqliteEventStorage M
  unfolding rotate_read_database
  rotate_if_read rounds now rows s =
      if is_empty rows && ltb 1 (length s.database_files) && not (has_records s)
      then rotate_read_database rounds now s
      else s

  -- `is_blank` is Python's truth of a message, negated.
  module _ (is_blank : M → Bool) where
    -- `process_event_storage_data`: the messages, and the last row to delete.
    unfoldable pub process_event_storage_data : ℕ → List (Row M) → List M × ℕ
    process_event_storage_data point [] = ([], point)
    process_event_storage_data point (r ∷ rows) =
        let (ms, last) =
          process_event_storage_data
            (if is_blank r.message
              then point
              else if point == 0 || ltb point r.id
              then r.id
              else point)
            rows in
        ((if is_blank r.message then ms else r.message ∷ ms), last)

    unfoldable pub hand_out : List (Row M) → SqliteEventStorage M → SqliteEventStorage M × List M
    unfolding process_event_storage_data
    hand_out rows s =
        let (ms, last) = process_event_storage_data s.delete_time_point rows in
        (record s { delete_time_point = last }, ms)

    unfoldable pub get_event_pack :
        List (ℕ × ℕ) → ℕ → SqliteEventStorage M → SqliteEventStorage M × List M
    unfolding hand_out rotate_if_missing rotate_if_read data_from_storage
    get_event_pack rounds now s =
        let rows = data_from_storage s in
        if s.stopped
        then (s, [])
        else hand_out rows (rotate_if_read rounds now rows (rotate_if_missing rounds now rows s))

  -- The first part of `event_pack_processing_done`.
  unfoldable pub acknowledge : SqliteEventStorage M → SqliteEventStorage M
  unfolding delete_data can_prepare_new_batch
  acknowledge s =
      on_database s.read_database (λ d. can_prepare_new_batch (delete_data s.delete_time_point d)) s

  -- Its second part, on the file that has been read.
  unfoldable pub leave_file : List (ℕ × ℕ) → ℕ → ℕ → SqliteEventStorage M → SqliteEventStorage M
  unfolding process_file_limit rotate_read_database
  leave_file rounds now size s =
      if has_records s
      then s
      else (let s' = process_file_limit now size s.read_database s in
          if is_oversize s'.read_database s' then rotate_read_database rounds now s' else s')

  unfoldable pub event_pack_processing_done :
      List (ℕ × ℕ) → ℕ → ℕ → SqliteEventStorage M → SqliteEventStorage M
  unfolding acknowledge leave_file
  event_pack_processing_done rounds now size s =
      if s.stopped then s else leave_file rounds now size (acknowledge s)

  unfoldable pub stop : SqliteEventStorage M → SqliteEventStorage M
  unfolding close_db
  stop s =
      on_database s.write_database close_db
        (on_database s.read_database close_db (record s { stopped = true }))
