-- ===== src/Storage/Sqlite/Keeps/Done.antt =====
-- Reading the first file, and confirming in it.
use thingsboard_gateway.Prelude.{
  ℕ, List, [], ◌∷◌, ◌++◌, ◌≡◌, refl, ap, ◌∙◌, false, some, leb, ==_refl, is_empty, take, All,
  Bool-cases, inl, inr, if◌then◌else◌, arith,
}
use thingsboard_gateway.Storage.Sqlite.Table.{messages_of, without, delete_le}
use thingsboard_gateway.Storage.Sqlite.Table.Order.{IsIncreasing, without-low}
use thingsboard_gateway.Storage.Sqlite.Database.{
  Database, read_data, delete_data, can_prepare_new_batch,
}
use thingsboard_gateway.Storage.Sqlite.Files.{
  SqliteEventStorage, find, modify, has_records, is_oversize, process_file_limit, data_from_storage,
  acknowledge, leave_file, event_pack_processing_done,
}
use thingsboard_gateway.Storage.Sqlite.Keeps.{
  messages_in, messages, rows_at, AllSound, Keeps, Keeps-refl, Keeps-trans, Keeps-messages,
}
use thingsboard_gateway.Storage.Sqlite.Keeps.Rotation.{rotate-Keeps, process_file_limit-Keeps}
use thingsboard_gateway.Storage.Sqlite.Keeps.Read.{
  AllOpen, has_records-rows_at, modify-AllOpen, modify-messages_of, process_file_limit-KeepsRead,
}

module _ {M : Type 0} where
  -- The read database is the first file, its batch that was read ahead is the first of its rows, and
  -- nothing that was handed out is left in it.
  pub record IsReading (s : SqliteEventStorage M) (d : Database M) (files : List (Database M))
      : Type 0 where
    pub first : s.database_files ≡ d ∷ files
    pub read : s.read_database ≡ d.name
    pub fresh : IsIncreasing s.delete_time_point d.table.rows
    pub size : ℕ
    pub ahead : d.next_batch ≡ take size d.table.rows

  -- The rows that are read are the first of the read database.
  pub record IsRead (s : SqliteEventStorage M) (d : Database M) : Type 0 where
    pub count : ℕ
    pub rows : data_from_storage s ≡ take count d.table.rows

  pub find-first :
      (s : SqliteEventStorage M) (d : Database M) (files : List (Database M))
      → IsReading s d files
      → find s.read_database s.database_files ≡ some d
  unfolding find
  find-first s d files h = rw (h.first, h.read, ==_refl d.name) refl

  pub data_from_storage-IsRead :
      (s : SqliteEventStorage M) (d : Database M) (files : List (Database M))
      → s.stopped ≡ false
      → d.closed ≡ false
      → IsReading s d files
      → IsRead s d
  unfolding data_from_storage read_data
  data_from_storage-IsRead s d files going is_open h = elim (Bool-cases (is_empty d.next_batch)) [
    | inl e ↦ record {
      count = s.settings.max_read_records_count;
      rows = rw (data_from_storage, find-first s d files h, is_open, going, e) refl;
    }
    | inr e ↦ record {
      count = h.size;
      rows = rw (data_from_storage, find-first s d files h, is_open, going, e) h.ahead;
    }
  ]

  -- Confirming in the first file.
  pub acknowledge-first :
      (s : SqliteEventStorage M) (d : Database M) (files : List (Database M))
      → s.database_files ≡ d ∷ files
      → s.read_database ≡ d.name
      → d.closed ≡ false
      → messages_in (acknowledge s).database_files
        ≡ messages_of (without (λ r. leb r.id s.delete_time_point) d.table.rows)
          ++ messages_in files
  unfolding acknowledge modify messages_in delete_data delete_le can_prepare_new_batch
  acknowledge-first s d files e read is_open = rw (e, read, ==_refl d.name, is_open) refl

  unchanged_at_zero :
      (files : List (Database M))
      → AllSound files
      → All (λ d. (can_prepare_new_batch (delete_data 0 d)).table.rows ≡ d.table.rows) files
  unfolding delete_data delete_le can_prepare_new_batch
  unchanged_at_zero [] h = tt
  unchanged_at_zero (d ∷ files) h = (
    rw h.0.is_open (without-low 0 d.table.rows 0 (omega arith) h.0.ordered.increasing),
    unchanged_at_zero files h.1,
  )

  -- Confirming nothing.
  pub acknowledge-zero :
      (s : SqliteEventStorage M)
      → s.delete_time_point ≡ 0
      → AllSound s.database_files
      → messages_in (acknowledge s).database_files ≡ messages_in s.database_files
  unfolding acknowledge
  acknowledge-zero s zero_point h =
      let f = λ (j : ℕ) (d : Database M). can_prepare_new_batch (delete_data j d) in
      ap (λ j. messages_in (modify s.read_database (f j) s.database_files)) zero_point
      ∙ modify-messages_of s.read_database (f 0) s.database_files
          (unchanged_at_zero s.database_files h)

  acknowledge-AllOpen :
      (s : SqliteEventStorage M) → AllOpen s.database_files → AllOpen (acknowledge s).database_files
  unfolding acknowledge delete_data can_prepare_new_batch
  acknowledge-AllOpen s h =
      modify-AllOpen s.read_database _ s.database_files (λ d e. ground (arith, e)) h

  pub leave_file-Keeps :
      (now size : ℕ) (s : SqliteEventStorage M)
      → AllOpen s.database_files
      → Keeps s (leave_file [] now size s)
  unfolding leave_file
  leave_file-Keeps now size s h =
      let s' = process_file_limit now size s.read_database s in
      elim (Bool-cases (has_records s)) [
        | inl e ↦ rw (leave_file, e) (Keeps-refl s)
        | inr e ↦
            let nothing = has_records-rows_at s h e in
            let k = process_file_limit-Keeps now size s.read_database s in
            let r = process_file_limit-KeepsRead now size s.read_database s in
            elim (Bool-cases (is_oversize s'.read_database s')) [
              | inl big ↦
                  let nothing' : rows_at s'.read_database s'.database_files ≡ [] =
                    r.rows s'.read_database
                    ∙ ap (λ j. rows_at j s.database_files) r.read
                    ∙ nothing in
                  rw (leave_file, e, big) (Keeps-trans s s' _ k (rotate-Keeps now s' nothing'))
              | inr small ↦ rw (leave_file, e, small) k
            ]
      ]

  -- What comes behind the confirmation keeps the messages.
  pub done-acknowledge :
      (now size : ℕ) (s : SqliteEventStorage M)
      → s.stopped ≡ false
      → AllOpen s.database_files
      → messages (event_pack_processing_done [] now size s) ≡ messages (acknowledge s)
  unfolding event_pack_processing_done
  done-acknowledge now size s going h =
      ap (λ b. messages (if b then s else leave_file [] now size (acknowledge s))) going
      ∙ Keeps-messages (acknowledge s) (leave_file [] now size (acknowledge s))
          (leave_file-Keeps now size (acknowledge s) (acknowledge-AllOpen s h))
