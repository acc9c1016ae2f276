-- ===== src/Storage/Sqlite/Keeps/Ahead.antt =====
-- What a file has read ahead is the beginning of its rows.
use thingsboard_gateway.Prelude.{
  ℕ, ◌*◌, List, [], ◌∷◌, ◌++◌, ◌≡◌, refl, Bool, true, false, not, ◌&&◌, ◌||◌, none, some, is_some,
  leb, ltb, ◌==◌, is_empty, length, take, drop, take-append-drop, All, All-append, Bool-cases,
  Option-cases, inl, inr, if◌then◌else◌,
}
use thingsboard_gateway.Storage.Sqlite.Table.{Row}
use thingsboard_gateway.Storage.Sqlite.Database.{
  Settings, Database, open_database, read_data, delete_data, can_prepare_new_batch, note_size,
}
use thingsboard_gateway.Storage.Sqlite.Files.{
  SqliteEventStorage, find, modify, remove_file, on_database, is_oversize, has_records,
  start_write_database, check_and_handle_max_db_count, cleanup_write_db, on_write_database_callback,
  process_file_limit, read_first, create_read_database, next_read_database, rotate_read_database,
  leave_read_database, rotate_if_missing, rotate_if_read, data_from_storage, hand_out,
  get_event_pack, acknowledge, leave_file, event_pack_processing_done,
}
use thingsboard_gateway.Storage.Sqlite.Keeps.{rows_at}
use thingsboard_gateway.Storage.Sqlite.Keeps.Rotation.{finalize_nothing}

module _ {M : Type 0} where
  -- Rows that a list begins with.
  abbrev pub IsFront : List (Row M) → List (Row M) → Type 0
  IsFront front rows = (rest : List (Row M)) × (front ++ rest ≡ rows)

  abbrev pub IsAhead : Database M → Type 0
  IsAhead d = IsFront d.next_batch d.table.rows

  abbrev pub AllAhead : SqliteEventStorage M → Type 0
  AllAhead s = All IsAhead s.database_files

  take-IsFront : (n : ℕ) (rows : List (Row M)) → IsFront (take n rows) rows
  take-IsFront n rows = (drop n rows, take-append-drop n rows)

  abbrev KeepsAhead : (Database M → Database M) → Type 0
  KeepsAhead f = (d : Database M) → IsAhead d → IsAhead (f d)

  modify-IsAhead :
      (name : ℕ) (f : Database M → Database M) (files : List (Database M))
      → KeepsAhead f
      → All IsAhead files
      → All IsAhead (modify name f files)
  unfolding modify
  modify-IsAhead name f [] k h = h
  modify-IsAhead name f (d ∷ files) k h = elim (Bool-cases (d.name == name)) [
    | inl e ↦ rw e (k d h.0, h.1)
    | inr e ↦ rw e (h.0, modify-IsAhead name f files k h.1)
  ]

  remove_file-IsAhead :
      (name : ℕ) (files : List (Database M))
      → All IsAhead files
      → All IsAhead (remove_file name files)
  unfolding remove_file
  remove_file-IsAhead name [] h = h
  remove_file-IsAhead name (d ∷ files) h = elim (Bool-cases (d.name == name)) [
    | inl e ↦ rw e h.1
    | inr e ↦ rw e (h.0, remove_file-IsAhead name files h.1)
  ]

  start_write_database-AllAhead :
      (now : ℕ) (s : SqliteEventStorage M) → AllAhead s → AllAhead (start_write_database now s)
  unfolding start_write_database open_database
  start_write_database-AllAhead now s h = All-append IsAhead s.database_files _ h (([], refl), tt)

  check-AllAhead :
      (now : ℕ) (s : SqliteEventStorage M)
      → AllAhead s
      → AllAhead (check_and_handle_max_db_count now s).0
  unfolding check_and_handle_max_db_count
  check-AllAhead now s h =
      let s' = record s { is_max_db_amount_reached = false } in
      elim (Bool-cases (leb s.settings.max_db_amount (length s.database_files))) [
        | inl e ↦ rw (check_and_handle_max_db_count, e) h
        | inr e ↦ elim (Bool-cases s.is_max_db_amount_reached) [
          | inl r ↦
              rw (check_and_handle_max_db_count, e, r) (start_write_database-AllAhead now s' h)
          | inr r ↦ rw (check_and_handle_max_db_count, e, r) h
        ]
      ]

  read_first-AllAhead :
      (files : List (Database M)) (s : SqliteEventStorage M)
      → All IsAhead files
      → AllAhead s
      → AllAhead (read_first files s)
  unfolding read_first open_database
  read_first-AllAhead [] s h all = all
  read_first-AllAhead (d ∷ files) s h all = ((d.table.rows, refl), h.1)

  leave-AllAhead :
      (now : ℕ) (s : SqliteEventStorage M) → AllAhead s → AllAhead (leave_read_database now s)
  unfolding leave_read_database next_read_database create_read_database
  leave-AllAhead now s h =
      let files = remove_file s.read_database s.database_files in
      let s1 = record s { database_files = files; delete_time_point = 0 } in
      let left : AllAhead s1 = remove_file-IsAhead s.read_database s.database_files h in
      let next : AllAhead (next_read_database s1) = elim (Bool-cases (ltb 1 (length files))) [
        | inl e ↦ rw (next_read_database, e) (read_first-AllAhead files s1 left left)
        | inr e ↦
            rw (next_read_database, e)
              (modify-IsAhead s.write_database (λ d. record d { should_read = true }) files
                (λ d a. a) left)
      ] in
      check-AllAhead now (next_read_database s1) next

  rotate-AllAhead :
      (now : ℕ) (s : SqliteEventStorage M) → AllAhead s → AllAhead (rotate_read_database [] now s)
  unfolding rotate_read_database
  rotate-AllAhead now s h = rw (finalize_nothing s) (leave-AllAhead now s h)

  callback-AllAhead :
      (now : ℕ) (s : SqliteEventStorage M)
      → AllAhead s
      → AllAhead (on_write_database_callback now s)
  unfolding on_write_database_callback cleanup_write_db
  callback-AllAhead now s h =
      let cleaned : AllAhead (cleanup_write_db s) =
        modify-IsAhead s.write_database (λ d. record d { should_write = false }) s.database_files
          (λ d a. a) h in
      elim (Bool-cases (
        is_oversize s.write_database s
        && not (leb s.settings.max_db_amount (length s.database_files)))) [
          | inl e ↦
              rw (on_write_database_callback, e)
                (start_write_database-AllAhead now (cleanup_write_db s) cleaned)
          | inr e ↦ rw (on_write_database_callback, e) h
        ]

  note_size-KeepsAhead : (settings : Settings) (size : ℕ) → KeepsAhead (note_size settings size)
  unfolding note_size
  note_size-KeepsAhead settings size d h =
      elim (Bool-cases (leb (settings.size_limit * 1000000) size)) [
        | inl e ↦ rw (note_size, e) h
        | inr e ↦ rw (note_size, e) h
      ]

  process_file_limit-AllAhead :
      (now size name : ℕ) (s : SqliteEventStorage M)
      → AllAhead s
      → AllAhead (process_file_limit now size name s)
  unfolding process_file_limit
  process_file_limit-AllAhead now size name s h = elim (Option-cases (find name s.database_files)) [
    | inl e ↦ rw (process_file_limit, e) h
    | inr (d, e) ↦
        let s' = on_database name (note_size s.settings size) s in
        let noted : AllAhead s' =
          modify-IsAhead name (note_size s.settings size) s.database_files
            (note_size-KeepsAhead s.settings size) h in
        elim (Bool-cases (leb (s.settings.size_limit * 1000000) size && d.should_write)) [
          | inl big ↦ rw (process_file_limit, e, big) (callback-AllAhead now s' noted)
          | inr small ↦ rw (process_file_limit, e, small) noted
        ]
  ]

  -- A file whose rows were confirmed has nothing read ahead.
  acknowledge-AllAhead : (s : SqliteEventStorage M) → AllAhead s → AllAhead (acknowledge s)
  unfolding acknowledge can_prepare_new_batch
  acknowledge-AllAhead s h =
      modify-IsAhead s.read_database
        (λ d. can_prepare_new_batch (delete_data s.delete_time_point d)) s.database_files
        (λ d a. ((delete_data s.delete_time_point d).table.rows, refl)) h

  leave_file-AllAhead :
      (now size : ℕ) (s : SqliteEventStorage M) → AllAhead s → AllAhead (leave_file [] now size s)
  unfolding leave_file
  leave_file-AllAhead now size s h =
      let s' = process_file_limit now size s.read_database s in
      let limited = process_file_limit-AllAhead now size s.read_database s h in
      elim (Bool-cases (has_records s)) [
        | inl e ↦ rw (leave_file, e) h
        | inr e ↦ elim (Bool-cases (is_oversize s'.read_database s')) [
          | inl big ↦ rw (leave_file, e, big) (rotate-AllAhead now s' limited)
          | inr small ↦ rw (leave_file, e, small) limited
        ]
      ]

  either-AllAhead :
      (b : Bool) (s s' : SqliteEventStorage M)
      → AllAhead s
      → AllAhead s'
      → AllAhead (if b then s else s')
  either-AllAhead true s s' h h' = h
  either-AllAhead false s s' h h' = h'

  pub done-AllAhead :
      (now size : ℕ) (s : SqliteEventStorage M)
      → AllAhead s
      → AllAhead (event_pack_processing_done [] now size s)
  unfolding event_pack_processing_done
  done-AllAhead now size s h =
      either-AllAhead s.stopped s (leave_file [] now size (acknowledge s)) h
        (leave_file-AllAhead now size (acknowledge s) (acknowledge-AllAhead s h))

  rotate_if_missing-AllAhead :
      (now : ℕ) (rows : List (Row M)) (s : SqliteEventStorage M)
      → AllAhead s
      → AllAhead (rotate_if_missing [] now rows s)
  unfolding rotate_if_missing
  rotate_if_missing-AllAhead now rows s h =
      elim (Bool-cases (is_empty rows && not (is_some (find s.read_database s.database_files)))) [
        | inl e ↦ rw (rotate_if_missing, e) (rotate-AllAhead now s h)
        | inr e ↦ rw (rotate_if_missing, e) h
      ]

  rotate_if_read-AllAhead :
      (now : ℕ) (rows : List (Row M)) (s : SqliteEventStorage M)
      → AllAhead s
      → AllAhead (rotate_if_read [] now rows s)
  unfolding rotate_if_read
  rotate_if_read-AllAhead now rows s h =
      elim (Bool-cases (is_empty rows && ltb 1 (length s.database_files) && not (has_records s))) [
        | inl e ↦ rw (rotate_if_read, e) (rotate-AllAhead now s h)
        | inr e ↦ rw (rotate_if_read, e) h
      ]

  either_pack-AllAhead :
      (b : Bool) (r r' : SqliteEventStorage M × List M)
      → AllAhead r.0
      → AllAhead r'.0
      → AllAhead (if b then r else r').0
  either_pack-AllAhead true r r' h h' = h
  either_pack-AllAhead false r r' h h' = h'

  pub get-AllAhead :
      (is_blank : M → Bool) (now : ℕ) (s : SqliteEventStorage M)
      → AllAhead s
      → AllAhead (get_event_pack is_blank [] now s).0
  unfolding get_event_pack hand_out
  get-AllAhead is_blank now s h =
      let rows = data_from_storage s in
      let s1 = rotate_if_read [] now rows (rotate_if_missing [] now rows s) in
      let rotated : AllAhead s1 =
        rotate_if_read-AllAhead now rows (rotate_if_missing [] now rows s)
          (rotate_if_missing-AllAhead now rows s h) in
      either_pack-AllAhead s.stopped (s, []) (hand_out is_blank rows s1) h rotated

  read_data-IsFront :
      (settings : Settings) (stopped : Bool) (d : Database M)
      → IsAhead d
      → IsFront (read_data settings stopped d) d.table.rows
  unfolding read_data
  read_data-IsFront settings stopped d h = elim (Bool-cases (d.closed || stopped)) [
    | inl e ↦ rw (read_data, e) (d.table.rows, refl)
    | inr e ↦ elim (Bool-cases (is_empty d.next_batch)) [
      | inl none_ahead ↦
          rw (read_data, e, none_ahead) (take-IsFront settings.max_read_records_count d.table.rows)
      | inr some_ahead ↦ rw (read_data, e, some_ahead) h
    ]
  ]

  found-IsFront :
      (settings : Settings) (stopped : Bool) (name : ℕ) (files : List (Database M))
      → All IsAhead files
      → IsFront
          (elim (find name files) [ none ↦ [] | some d ↦ read_data settings stopped d ])
          (rows_at name files)
  unfolding find rows_at
  found-IsFront settings stopped name [] h = ([], refl)
  found-IsFront settings stopped name (d ∷ files) h = elim (Bool-cases (d.name == name)) [
    | inl e ↦ rw e (read_data-IsFront settings stopped d h.0)
    | inr e ↦ rw e (found-IsFront settings stopped name files h.1)
  ]

  -- The rows that are read are the first of the read database.
  pub data_from_storage-IsFront :
      (s : SqliteEventStorage M)
      → AllAhead s
      → IsFront (data_from_storage s) (rows_at s.read_database s.database_files)
  unfolding data_from_storage
  data_from_storage-IsFront s h =
      found-IsFront s.settings s.stopped s.read_database s.database_files h
