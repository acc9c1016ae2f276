-- ===== src/Storage/Sqlite/Keeps/Rotation.antt =====
-- New files, and files that have been read, take no message away.
use thingsboard_gateway.Prelude.{
  ℕ, ◌*◌, List, [], ◌∷◌, ◌++◌, ◌≡◌, refl, sym, ap, ◌∙◌, Bool, true, false, not, ◌&&◌, ◌||◌, leb,
  ltb, length, append_assoc, All-append, Bool-cases, Option-cases, inl, inr, if◌then◌else◌, arith,
}
use thingsboard_gateway.Storage.Sqlite.Table.{new_table}
use thingsboard_gateway.Storage.Sqlite.Table.Order.{IsIncreasing}
use thingsboard_gateway.Storage.Sqlite.Database.{Settings, Database, open_database, note_size}
use thingsboard_gateway.Storage.Sqlite.Files.{
  SqliteEventStorage, find, remove_file, on_database, is_oversize, start_write_database,
  check_and_handle_max_db_count, cleanup_write_db, on_write_database_callback, process_file_limit,
  create_read_database, next_read_database, rotate_read_database, leave_read_database,
  finalize_read_database, drain, read_first, has_no_room, enqueue, put,
}
use thingsboard_gateway.Storage.Sqlite.Keeps.{
  messages_in, messages, rows_at, KeepsRows, IsSound, AllSound, remove-messages, remove-AllSound,
  snoc-messages, Keeps, Keeps-trans, Keeps-refl, Keeps-messages, on_database-Keeps,
}

module _ {M : Type 0} where
  new-IsSound :
      (name : ℕ) (should_read should_write : Bool)
      → IsSound {M = M} (open_database name new_table should_read should_write)
  unfolding open_database IsIncreasing
  new-IsSound name should_read should_write = record {
    is_open = refl;
    ordered = record { increasing = tt; counted = tt };
  }

  start_write_database-Keeps :
      (now : ℕ) (s : SqliteEventStorage M) → Keeps s (start_write_database now s)
  unfolding start_write_database open_database
  start_write_database-Keeps now s = record {
    messages = snoc-messages s.database_files _ refl;
    queue = refl;
    sound = λ h. All-append IsSound s.database_files _ h (new-IsSound now false true, tt);
  }

  check-Keeps :
      (now : ℕ) (s : SqliteEventStorage M) → Keeps s (check_and_handle_max_db_count now s).0
  unfolding check_and_handle_max_db_count
  check-Keeps now s = elim (Bool-cases (leb s.settings.max_db_amount (length s.database_files))) [
    | inl e ↦
        rw (check_and_handle_max_db_count, e)
          (record { messages = refl; queue = refl; sound = λ h. h })
    | inr e ↦ elim (Bool-cases s.is_max_db_amount_reached) [
      | inl r ↦
          let k = start_write_database-Keeps now (record s { is_max_db_amount_reached = false }) in
          rw (check_and_handle_max_db_count, e, r)
            (record { messages = k.messages; queue = k.queue; sound = k.sound })
      | inr r ↦
          rw (check_and_handle_max_db_count, e, r)
            (record { messages = refl; queue = refl; sound = λ h. h })
    ]
  ]

  read_first-Keeps :
      (files : List (Database M)) (s : SqliteEventStorage M)
      → s.database_files ≡ files
      → Keeps s (read_first files s)
  unfolding read_first open_database messages_in
  read_first-Keeps [] s e = Keeps-refl s
  read_first-Keeps (d ∷ files) s e = record {
    messages = sym (ap messages_in e);
    queue = refl;
    sound = λ h.
        let all : AllSound (d ∷ files) = rw e at h in
        (record { is_open = refl; ordered = all.0.ordered }, all.1);
  }

  next_read_database-Keeps : (s : SqliteEventStorage M) → Keeps s (next_read_database s)
  unfolding next_read_database create_read_database
  next_read_database-Keeps s = elim (Bool-cases (ltb 1 (length s.database_files))) [
    | inl e ↦ rw (next_read_database, e) (read_first-Keeps s.database_files s refl)
    | inr e ↦
        let k : KeepsRows {M = M} (λ d. record d { should_read = true }) = record {
          name = λ d. refl;
          rows = λ d. refl;
          closed = λ d. refl;
        } in
        let h =
          on_database-Keeps s.write_database (λ d. record d { should_read = true })
            (record s { read_database = s.write_database }) k in
        rw (next_read_database, e)
          (record { messages = h.messages; queue = h.queue; sound = h.sound })
  ]

  pub finalize_nothing : (s : SqliteEventStorage M) → finalize_read_database [] s ≡ s
  unfolding finalize_read_database drain
  finalize_nothing s = ground arith

  -- The file that has been read is deleted only without rows.
  leave-Keeps :
      (now : ℕ) (s : SqliteEventStorage M)
      → rows_at s.read_database s.database_files ≡ []
      → Keeps s (leave_read_database now s)
  unfolding leave_read_database
  leave-Keeps now s h =
      let s1 = record s {
        database_files = remove_file s.read_database s.database_files;
        delete_time_point = 0;
      } in
      let removed : Keeps s s1 = record {
        messages = remove-messages s.read_database s.database_files h;
        queue = refl;
        sound = λ k. remove-AllSound s.read_database s.database_files k;
      } in
      Keeps-trans s s1 _ removed (
        Keeps-trans s1 (next_read_database s1) _ (next_read_database-Keeps s1)
          (check-Keeps now (next_read_database s1)))

  pub rotate-Keeps :
      (now : ℕ) (s : SqliteEventStorage M)
      → rows_at s.read_database s.database_files ≡ []
      → Keeps s (rotate_read_database [] now s)
  unfolding rotate_read_database
  rotate-Keeps now s h = rw (finalize_nothing s) (leave-Keeps now s h)

  callback-Keeps : (now : ℕ) (s : SqliteEventStorage M) → Keeps s (on_write_database_callback now s)
  unfolding on_write_database_callback cleanup_write_db
  callback-Keeps now s =
      let f = λ (d : Database M). record d { should_write = false } in
      let k : KeepsRows f = record { name = λ d. refl; rows = λ d. refl; closed = λ d. refl } in
      elim (Bool-cases (
        is_oversize s.write_database s
        && not (leb s.settings.max_db_amount (length s.database_files)))) [
          | inl e ↦
              rw (on_write_database_callback, e)
                (Keeps-trans s (cleanup_write_db s) _ (on_database-Keeps s.write_database f s k)
                  (start_write_database-Keeps now (cleanup_write_db s)))
          | inr e ↦ rw (on_write_database_callback, e) (Keeps-refl s)
        ]

  pub note_size-KeepsRows :
      (settings : Settings) (size : ℕ) → KeepsRows {M = M} (note_size settings size)
  unfolding note_size
  note_size-KeepsRows settings size = record {
    name = λ d. ground arith;
    rows = λ d. ground arith;
    closed = λ d. ground arith;
  }

  pub process_file_limit-Keeps :
      (now size name : ℕ) (s : SqliteEventStorage M) → Keeps s (process_file_limit now size name s)
  unfolding process_file_limit
  process_file_limit-Keeps now size name s = elim (Option-cases (find name s.database_files)) [
    | inl e ↦ rw (process_file_limit, e) (Keeps-refl s)
    | inr (d, e) ↦
        let s' = on_database name (note_size s.settings size) s in
        let k =
          on_database-Keeps name (note_size s.settings size) s
            (note_size-KeepsRows s.settings size) in
        elim (Bool-cases (leb (s.settings.size_limit * 1000000) size && d.should_write)) [
          | inl big ↦ rw (process_file_limit, e, big) (Keeps-trans s s' _ k (callback-Keeps now s'))
          | inr small ↦ rw (process_file_limit, e, small) k
        ]
  ]

  has_no_room-Keeps : (now : ℕ) (s : SqliteEventStorage M) → Keeps s (has_no_room now s).0
  unfolding has_no_room
  has_no_room-Keeps now s = elim (Bool-cases (is_oversize s.write_database s)) [
    | inl e ↦ rw (has_no_room, e) (check-Keeps now s)
    | inr e ↦ rw (has_no_room, e) (Keeps-refl s)
  ]

  enqueue-messages :
      (m : M) (s : SqliteEventStorage M) (full : Bool)
      → messages (enqueue m (s, full)).0
        ≡ (if (enqueue m (s, full)).1 then messages s ++ m ∷ [] else messages s)
  unfolding enqueue
  enqueue-messages m s true = refl
  enqueue-messages m s false =
      sym (append_assoc (messages_in s.database_files) s.write_queue (m ∷ []))

  put_lem :
      (now : ℕ) (m : M) (s : SqliteEventStorage M)
      → (s.is_max_db_amount_reached || s.stopped) ≡ false
      → put now m s ≡ enqueue m (has_no_room now s)
  unfolding put
  put_lem now m s e = rw (put, e) refl

  -- A message that `put` takes is put behind all that there are, and one that it refuses changes
  -- none of them.
  pub put-messages :
      (now : ℕ) (m : M) (s : SqliteEventStorage M)
      → messages (put now m s).0 ≡ (if (put now m s).1 then messages s ++ m ∷ [] else messages s)
  unfolding put
  put-messages now m s = elim (Bool-cases (s.is_max_db_amount_reached || s.stopped)) [
    | inl e ↦ rw (put, e) refl
    | inr e ↦
        let r = has_no_room now s in
        let same = Keeps-messages s r.0 (has_no_room-Keeps now s) in
        let queued : messages (enqueue m r).0
            ≡ (if (enqueue m r).1 then messages s ++ m ∷ [] else messages s) =
          enqueue-messages m r.0 r.1
          ∙ ap (λ ms. if (enqueue m r).1 then ms ++ m ∷ [] else ms) same in
        ap (λ (x : SqliteEventStorage M × Bool). messages x.0) (put_lem now m s e)
        ∙ queued
        ∙ ap (λ (x : SqliteEventStorage M × Bool). if x.1 then messages s ++ m ∷ [] else messages s)
            (sym (put_lem now m s e))
  ]
