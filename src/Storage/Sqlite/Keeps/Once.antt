-- ===== src/Storage/Sqlite/Keeps/Once.antt =====
-- A pack that is handed out and confirmed leaves the rest.
use thingsboard_gateway.Prelude.{
  ℕ, max, List, [], ◌∷◌, ◌++◌, ◌≡◌, refl, sym, ap, ◌∙◌, Bool, true, false, not, ◌&&◌, some, ltb,
  is_empty, length, take, drop, append_assoc, Bool-cases, inl, inr, if◌then◌else◌, arith,
}
use thingsboard_gateway.Storage.Sqlite.Table.{Row, messages_of}
use thingsboard_gateway.Storage.Sqlite.Table.Order.{
  IsIncreasing-take, max_id, without-take, messages_of-take-drop,
}
use thingsboard_gateway.Storage.Sqlite.Database.{Database}
use thingsboard_gateway.Storage.Sqlite.Files.{
  SqliteEventStorage, find, remove_file, has_records, rotate_read_database, leave_read_database,
  next_read_database, check_and_handle_max_db_count, start_write_database, create_read_database,
  read_first, process_event_storage_data, data_from_storage, get_event_pack, acknowledge,
  rotate_if_missing, rotate_if_read, hand_out, event_pack_processing_done,
}
use thingsboard_gateway.Storage.Sqlite.Keeps.{
  messages_in, messages, rows_at, AllSound, Keeps-messages,
}
use thingsboard_gateway.Storage.Sqlite.Keeps.Rotation.{rotate-Keeps, finalize_nothing}
use thingsboard_gateway.Storage.Sqlite.Keeps.Read.{
  AllSound-AllOpen, has_records-rows_at, NoneBlank, NoneBlank-take, process_event_storage_data_lem,
}
use thingsboard_gateway.Storage.Sqlite.Keeps.Done.{
  IsReading, find-first, data_from_storage-IsRead, acknowledge-first, acknowledge-zero,
  done-acknowledge,
}
use thingsboard_gateway.Storage.Sqlite.Keeps.Ahead.{
  IsFront, AllAhead, done-AllAhead, get-AllAhead, data_from_storage-IsFront,
}

module _ {M : Type 0} where
  not_missing :
      (now : ℕ) (rows : List (Row M)) (s : SqliteEventStorage M) (d : Database M)
      → find s.read_database s.database_files ≡ some d
      → rotate_if_missing [] now rows s ≡ s
  unfolding rotate_if_missing
  not_missing now rows s d e = elim (Bool-cases (is_empty rows)) [
    | inl none_read ↦ rw (rotate_if_missing, none_read, e) refl
    | inr some_read ↦ rw (rotate_if_missing, some_read) refl
  ]

  -- The point of deletion and whether the storage goes on.
  record KeepsPoint (s s' : SqliteEventStorage M) : Type 0 where
    point : s'.delete_time_point ≡ s.delete_time_point
    stopped : s'.stopped ≡ s.stopped

  read_first-KeepsPoint :
      (files : List (Database M)) (s : SqliteEventStorage M) → KeepsPoint s (read_first files s)
  unfolding read_first
  read_first-KeepsPoint [] s = record { point = refl; stopped = refl }
  read_first-KeepsPoint (d ∷ files) s = record { point = refl; stopped = refl }

  next_read_database-KeepsPoint : (s : SqliteEventStorage M) → KeepsPoint s (next_read_database s)
  unfolding next_read_database create_read_database
  next_read_database-KeepsPoint s = elim (Bool-cases (ltb 1 (length s.database_files))) [
    | inl e ↦ rw (next_read_database, e) (read_first-KeepsPoint s.database_files s)
    | inr e ↦ rw (next_read_database, e) (record { point = refl; stopped = refl })
  ]

  check-KeepsPoint :
      (now : ℕ) (s : SqliteEventStorage M) → KeepsPoint s (check_and_handle_max_db_count now s).0
  unfolding check_and_handle_max_db_count start_write_database
  check-KeepsPoint now s = record { point = ground arith; stopped = ground arith }

  leave-point :
      (now : ℕ) (s : SqliteEventStorage M)
      → ((leave_read_database now s).delete_time_point ≡ 0)
        × ((leave_read_database now s).stopped ≡ s.stopped)
  unfolding leave_read_database
  leave-point now s =
      let s1 = record s {
        database_files = remove_file s.read_database s.database_files;
        delete_time_point = 0;
      } in
      let k = next_read_database-KeepsPoint s1 in
      let c = check-KeepsPoint now (next_read_database s1) in
      (c.point ∙ k.point, c.stopped ∙ k.stopped)

  -- A rotation begins again at zero.
  rotate-point :
      (now : ℕ) (s : SqliteEventStorage M)
      → ((rotate_read_database [] now s).delete_time_point ≡ 0)
        × ((rotate_read_database [] now s).stopped ≡ s.stopped)
  unfolding rotate_read_database
  rotate-point now s = rw (finalize_nothing s) (leave-point now s)

  rotate_if_read-over :
      (now : ℕ) (rows : List (Row M)) (s : SqliteEventStorage M)
      → (is_empty rows && ltb 1 (length s.database_files) && not (has_records s)) ≡ true
      → rotate_if_read [] now rows s ≡ rotate_read_database [] now s
  unfolding rotate_if_read
  rotate_if_read-over now rows s e = rw (rotate_if_read, e) refl

  rotate_if_read-on :
      (now : ℕ) (rows : List (Row M)) (s : SqliteEventStorage M)
      → (is_empty rows && ltb 1 (length s.database_files) && not (has_records s)) ≡ false
      → rotate_if_read [] now rows s ≡ s
  unfolding rotate_if_read
  rotate_if_read-on now rows s e = rw (rotate_if_read, e) refl

  over_lem :
      (rows : List (Row M)) (several has : Bool)
      → (is_empty rows && several && not has) ≡ true
      → (rows ≡ []) × (has ≡ false)
  over_lem [] several true e = ground (arith, e)
  over_lem [] several false e = (refl, refl)
  over_lem (r ∷ rows) several has e = cc e

  module _ (is_blank : M → Bool) where
    -- Handing rows out of the first file and confirming them.
    hand_out-first :
        (now size n : ℕ) (s : SqliteEventStorage M) (d : Database M) (files : List (Database M))
        → s.stopped ≡ false
        → AllSound s.database_files
        → IsReading s d files
        → NoneBlank is_blank d.table.rows
        → let r = hand_out is_blank (take n d.table.rows) s in
          r.1 ++ messages (event_pack_processing_done [] now size r.0) ≡ messages s
    unfolding hand_out acknowledge messages_in
    hand_out-first now size n s d files going sound h b =
        let rows = take n d.table.rows in
        let last = max s.delete_time_point (max_id rows) in
        let s' = record s { delete_time_point = last } in
        let all : AllSound (d ∷ files) = rw h.first at sound in
        let handed =
          process_event_storage_data_lem is_blank s.delete_time_point s.delete_time_point rows
            (IsIncreasing-take s.delete_time_point n d.table.rows h.fresh)
            (NoneBlank-take is_blank n d.table.rows b) in
        let left = without-take s.delete_time_point n d.table.rows h.fresh in
        let done : messages (event_pack_processing_done [] now size s')
            ≡ (messages_of (drop n d.table.rows) ++ messages_in files) ++ s.write_queue =
          done-acknowledge now size s' going (AllSound-AllOpen s.database_files sound)
          ∙ ap (λ ms. ms ++ s.write_queue)
              (acknowledge-first s' d files h.first h.read all.0.is_open
                ∙ ap (λ rs. messages_of rs ++ messages_in files) left) in
        let pack = messages_of rows in
        let rest = messages_of (drop n d.table.rows) in
        let whole : pack ++ rest ≡ messages_of d.table.rows =
          messages_of-take-drop n d.table.rows in
        let total : messages_of d.table.rows ++ messages_in files ≡ messages_in s.database_files =
          ap messages_in (sym h.first) in
        rw (hand_out, handed)
          (ap (λ ms. pack ++ ms) (done ∙ append_assoc rest (messages_in files) s.write_queue)
            ∙ sym (append_assoc pack rest (messages_in files ++ s.write_queue))
            ∙ ap (λ ms. ms ++ (messages_in files ++ s.write_queue)) whole
            ∙ sym (append_assoc (messages_of d.table.rows) (messages_in files) s.write_queue)
            ∙ ap (λ ms. ms ++ s.write_queue) total)

    -- Leaving a first file without rows.
    hand_out-rotated :
        (now now' size : ℕ) (s : SqliteEventStorage M)
        → s.stopped ≡ false
        → AllSound s.database_files
        → rows_at s.read_database s.database_files ≡ []
        → let r = hand_out is_blank [] (rotate_read_database [] now s) in
          r.1 ++ messages (event_pack_processing_done [] now' size r.0) ≡ messages s
    unfolding hand_out process_event_storage_data acknowledge
    hand_out-rotated now now' size s going sound none_left =
        let t = rotate_read_database [] now s in
        let k = rotate-Keeps now s none_left in
        let (point, stopped) = rotate-point now s in
        let sound' = k.sound sound in
        done-acknowledge now' size t (stopped ∙ going) (AllSound-AllOpen t.database_files sound')
        ∙ ap (λ ms. ms ++ t.write_queue) (acknowledge-zero t point sound')
        ∙ Keeps-messages s t k

    get_lem :
        (now : ℕ) (s : SqliteEventStorage M) (d : Database M)
        → s.stopped ≡ false
        → find s.read_database s.database_files ≡ some d
        → get_event_pack is_blank [] now s
          ≡ hand_out is_blank (data_from_storage s) (rotate_if_read [] now (data_from_storage s) s)
    unfolding get_event_pack
    get_lem now s d going there =
        let rows = data_from_storage s in
        let next =
          λ (x : SqliteEventStorage M). hand_out is_blank rows (rotate_if_read [] now rows x) in
        ap (λ b. if b then (s, []) else next (rotate_if_missing [] now rows s)) going
        ∙ ap next (not_missing now rows s d there)

    get-done_kept :
        (now now' size : ℕ) (s : SqliteEventStorage M) (d : Database M) (files : List (Database M))
        → s.stopped ≡ false
        → AllSound s.database_files
        → IsReading s d files
        → NoneBlank is_blank d.table.rows
        → let r = get_event_pack is_blank [] now s in
          r.1 ++ messages (event_pack_processing_done [] now' size r.0) ≡ messages s
    unfolding get_event_pack
    get-done_kept now now' size s d files going sound h b =
        let rows = data_from_storage s in
        let all : AllSound (d ∷ files) = rw h.first at sound in
        let read = data_from_storage-IsRead s d files going all.0.is_open h in
        let left = λ (r : SqliteEventStorage M × List M).
          r.1 ++ messages (event_pack_processing_done [] now' size r.0) in
        let handed = get_lem now s d going (find-first s d files h) in
        elim (Bool-cases
          (is_empty rows && ltb 1 (length s.database_files) && not (has_records s))) [
            | inl e ↦
                let (none_read, no_records) = over_lem rows _ (has_records s) e in
                ap left (handed ∙ ap (hand_out is_blank rows) (rotate_if_read-over now rows s e))
                ∙ ap (λ rs. left (hand_out is_blank rs (rotate_read_database [] now s))) none_read
                ∙ hand_out-rotated now now' size s going sound
                    (has_records-rows_at s (AllSound-AllOpen s.database_files sound) no_records)
            | inr e ↦
                ap left (handed ∙ ap (hand_out is_blank rows) (rotate_if_read-on now rows s e))
                ∙ ap (λ rs. left (hand_out is_blank rs s)) read.rows
                ∙ hand_out-first now' size read.count s d files going sound h b
          ]

    -- A pack and what is left after its confirmation are, in this order, the messages that there
    -- were: none is lost, and none overtakes another. Nor is one handed out again: the rows that the
    -- next call reads are the first of those that are left in the read database, with nothing
    -- confirmed among them. It holds whichever files are left, deleted or begun on the way, when the
    -- read database is the first file, nothing handed out waits for its confirmation and no round of
    -- the thread that writes falls into the wait of a rotation, for sound files that have read ahead no more than the beginning of their rows, and for messages that are
    -- not empty texts.
    pub get-done_messages :
        (now now' size : ℕ) (s : SqliteEventStorage M) (d : Database M) (files : List (Database M))
        → s.stopped ≡ false
        → AllSound s.database_files
        → AllAhead s
        → IsReading s d files
        → NoneBlank is_blank d.table.rows
        → let r = get_event_pack is_blank [] now s in
          let s' = event_pack_processing_done [] now' size r.0 in
          (r.1 ++ messages s' ≡ messages s)
          × IsFront (data_from_storage s') (rows_at s'.read_database s'.database_files)
    get-done_messages now now' size s d files going sound ahead h b =
        let r = get_event_pack is_blank [] now s in
        (
          get-done_kept now now' size s d files going sound h b,
          data_from_storage-IsFront (event_pack_processing_done [] now' size r.0)
              (done-AllAhead now' size r.0 (get-AllAhead is_blank now s ahead)),
        )
