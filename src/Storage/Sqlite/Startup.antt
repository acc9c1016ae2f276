-- ===== src/Storage/Sqlite/Startup.antt =====
-- The constructor of SQLiteEventStorage in sqlite_event_storage.py, for the files of the folder in
-- the order of their names.
use thingsboard_gateway.Prelude.{
  ℕ, List, [], ◌∷◌, ◌++◌, append-nil, ◌≡◌, refl, ap, ◌∙◌, false, not, ◌&&◌, ltb, ◌==◌, length, All,
  Bool-cases, inl, inr, if◌then◌else◌,
}
use thingsboard_gateway.Storage.Sqlite.Table.{Table, new_table, messages_of}
use thingsboard_gateway.Storage.Sqlite.Table.Order.{IsOrdered}
use thingsboard_gateway.Storage.Sqlite.Database.{Settings, Database, open_database}
use thingsboard_gateway.Storage.Sqlite.Files.{
  SqliteEventStorage, select_initial_db_files, has_records, rotate_read_database, leave_file,
}
use thingsboard_gateway.Storage.Sqlite.Keeps.{messages_in, messages, AllSound, Keeps-messages}
use thingsboard_gateway.Storage.Sqlite.Keeps.Rotation.{rotate-Keeps}
use thingsboard_gateway.Storage.Sqlite.Keeps.Read.{AllOpen, AllSound-AllOpen, has_records-rows_at}
use thingsboard_gateway.Storage.Sqlite.Keeps.Done.{leave_file-Keeps}

module _ {M : Type 0} where
  -- The databases of the files, those that are read and written first opened for it.
  unfoldable pub open_files : ℕ → ℕ → List (ℕ × Table M) → List (Database M)
  unfolding open_database
  open_files read write [] = []
  open_files read write ((name, table) ∷ files) =
      open_database name table (name == read) (name == write) ∷ open_files read write files

  unfoldable pub names : List (ℕ × Table M) → List ℕ
  names [] = []
  names ((name, table) ∷ files) = name ∷ names files

  -- Opening "data.db" makes it.
  unfoldable pub sort_db_files : List (ℕ × Table M) → List (ℕ × Table M)
  sort_db_files [] = (0, new_table) ∷ []
  sort_db_files (f ∷ files) = f ∷ files

  unfoldable pub start_storage : Settings → List (ℕ × Table M) → SqliteEventStorage M
  unfolding open_files names sort_db_files select_initial_db_files
  start_storage settings files =
      let first = select_initial_db_files (names files) in
      record {
        settings = settings;
        write_queue = [];
        stopped = false;
        database_files = open_files first.0 first.1 (sort_db_files files);
        read_database = first.0;
        write_database = first.1;
        is_max_db_amount_reached = false;
        delete_time_point = 0;
      }

  -- A read database that has been read is left for the next. The queue is still empty, so that no
  -- rotation waits.
  unfoldable pub leave_empty : ℕ → SqliteEventStorage M → SqliteEventStorage M
  unfolding has_records rotate_read_database
  leave_empty now s =
      if not (has_records s) && ltb 1 (length s.database_files)
      then rotate_read_database [] now s
      else s

  -- `SQLiteEventStorage(...)`, with the size of the file that is read.
  unfoldable pub init : ℕ → ℕ → Settings → List (ℕ × Table M) → SqliteEventStorage M
  unfolding start_storage leave_file leave_empty
  init now size settings files =
      record (leave_empty now (leave_file [] now size (start_storage settings files))) {
        delete_time_point = 0;
      }

  -- The messages of the tables.
  unfoldable pub stored : List (ℕ × Table M) → List M
  unfolding messages_of
  stored [] = []
  stored ((name, table) ∷ files) = messages_of table.rows ++ stored files

  open_files-messages :
      (read write : ℕ) (files : List (ℕ × Table M))
      → messages_in (open_files read write files) ≡ stored files
  unfolding open_files stored messages_in open_database
  open_files-messages read write [] = refl
  open_files-messages read write ((name, table) ∷ files) =
      ap (λ ms. messages_of table.rows ++ ms) (open_files-messages read write files)

  open_files-AllSound :
      (read write : ℕ) (files : List (ℕ × Table M))
      → All (λ f. IsOrdered f.1) files
      → AllSound (open_files read write files)
  unfolding open_files open_database
  open_files-AllSound read write [] h = tt
  open_files-AllSound read write (f ∷ files) h =
      (record { is_open = refl; ordered = h.0 }, open_files-AllSound read write files h.1)

  leave_empty-messages :
      (now : ℕ) (s : SqliteEventStorage M)
      → AllOpen s.database_files
      → messages (leave_empty now s) ≡ messages s
  unfolding leave_empty
  leave_empty-messages now s h = elim (Bool-cases (has_records s)) [
    | inl e ↦ rw (leave_empty, e) refl
    | inr e ↦ elim (Bool-cases (ltb 1 (length s.database_files))) [
      | inl several ↦
          rw (leave_empty, e, several)
            (Keeps-messages s _ (rotate-Keeps now s (has_records-rows_at s h e)))
      | inr one ↦ rw (leave_empty, e, one) refl
    ]
  ]

  -- Starting over files that are there loses no message and keeps their order: only files that have
  -- been read to the end are left. The ids of each table increase, as SQLite gives them.
  init-messages :
      (now size : ℕ) (settings : Settings) (f : ℕ × Table M) (files : List (ℕ × Table M))
      → All (λ x. IsOrdered x.1) (f ∷ files)
      → messages (init now size settings (f ∷ files)) ≡ stored (f ∷ files)
  unfolding init start_storage sort_db_files
  init-messages now size settings f files h =
      let s = start_storage settings (f ∷ files) in
      let s' = leave_file [] now size s in
      let first = select_initial_db_files (names (f ∷ files)) in
      let sound : AllSound s.database_files = open_files-AllSound first.0 first.1 (f ∷ files) h in
      let k = leave_file-Keeps now size s (AllSound-AllOpen s.database_files sound) in
      leave_empty-messages now s' (AllSound-AllOpen s'.database_files (k.sound sound))
      ∙ Keeps-messages s s' k
      ∙ append-nil (messages_in s.database_files)
      ∙ open_files-messages first.0 first.1 (f ∷ files)
