-- ===== src/Storage/Sqlite/Keeps/Read.antt =====
-- The rows of the read database, and what is read of them.
use thingsboard_gateway.Prelude.{
  ℕ, zero, suc, ◌*◌, max, List, [], ◌∷◌, ◌++◌, ◌≡◌, refl, ap, ◌∙◌, Bool, false, not, ◌&&◌, ◌||◌,
  none, some, leb, ltb, ◌==◌, length, take, All, Bool-cases, Option-cases, inl, inr, if◌then◌else◌,
  arith,
}
use thingsboard_gateway.Storage.Sqlite.Table.{Row, messages_of}
use thingsboard_gateway.Storage.Sqlite.Table.Order.{IsIncreasing, max_id}
use thingsboard_gateway.Storage.Sqlite.Database.{
  Database, open_database, database_has_records, note_size,
}
use thingsboard_gateway.Storage.Sqlite.Files.{
  SqliteEventStorage, find, modify, on_database, has_records, is_oversize, start_write_database,
  cleanup_write_db, on_write_database_callback, process_file_limit, process_event_storage_data,
}
use thingsboard_gateway.Storage.Sqlite.Keeps.{
  messages_in, rows_at, KeepsRows, AllSound, modify-rows_at, snoc-rows_at,
}
use thingsboard_gateway.Storage.Sqlite.Keeps.Rotation.{note_size-KeepsRows}

module _ {M : Type 0} where
  -- A change that leaves the rows of each file and the choice of the read database.
  pub record KeepsRead (s s' : SqliteEventStorage M) : Type 0 where
    pub read : s'.read_database ≡ s.read_database
    pub rows : (j : ℕ) → rows_at j s'.database_files ≡ rows_at j s.database_files

  on_database-KeepsRead :
      (name : ℕ) (f : Database M → Database M) (s : SqliteEventStorage M)
      → KeepsRows f
      → KeepsRead s (on_database name f s)
  on_database-KeepsRead name f s k = record {
    read = refl;
    rows = λ j. modify-rows_at name j f s.database_files k;
  }

  callback-KeepsRead :
      (now : ℕ) (s : SqliteEventStorage M) → KeepsRead s (on_write_database_callback now s)
  unfolding on_write_database_callback cleanup_write_db start_write_database open_database
  callback-KeepsRead now s =
      let f = λ (d : Database M). record d { should_write = false } in
      let k : KeepsRows f = record { name = λ d. refl; rows = λ d. refl; closed = λ d. refl } in
      elim (Bool-cases (
        is_oversize s.write_database s
        && not (leb s.settings.max_db_amount (length s.database_files)))) [
          | inl e ↦
              rw (on_write_database_callback, e)
                (record {
                  read = refl;
                  rows = λ j.
                      snoc-rows_at j (modify s.write_database f s.database_files) _ refl
                      ∙ modify-rows_at s.write_database j f s.database_files k;
                })
          | inr e ↦ rw (on_write_database_callback, e) (record { read = refl; rows = λ j. refl })
        ]

  pub process_file_limit-KeepsRead :
      (now size name : ℕ) (s : SqliteEventStorage M)
      → KeepsRead s (process_file_limit now size name s)
  unfolding process_file_limit
  process_file_limit-KeepsRead now size name s = elim (Option-cases (find name s.database_files)) [
    | inl e ↦ rw (process_file_limit, e) (record { read = refl; rows = λ j. refl })
    | inr (d, e) ↦
        let s' = on_database name (note_size s.settings size) s in
        let k =
          on_database-KeepsRead name (note_size s.settings size) s
            (note_size-KeepsRows s.settings size) in
        elim (Bool-cases (leb (s.settings.size_limit * 1000000) size && d.should_write)) [
          | inl big ↦
              let c = callback-KeepsRead now s' in
              rw (process_file_limit, e, big)
                (record { read = c.read; rows = λ j. c.rows j ∙ k.rows j })
          | inr small ↦ rw (process_file_limit, e, small) k
        ]
  ]

  abbrev pub AllOpen : List (Database M) → Type 0
  AllOpen files = All (λ d. d.closed ≡ false) files

  pub AllSound-AllOpen : (files : List (Database M)) → AllSound files → AllOpen files
  AllSound-AllOpen [] h = tt
  AllSound-AllOpen (d ∷ files) h = (h.0.is_open, AllSound-AllOpen files h.1)

  nothing_at :
      (name : ℕ) (files : List (Database M))
      → AllOpen files
      → (elim (find name files) [ none ↦ false | some d ↦ database_has_records d ]) ≡ false
      → rows_at name files ≡ []
  unfolding find rows_at database_has_records
  nothing_at name [] h e = refl
  nothing_at name (d ∷ files) h e = elim (Bool-cases (d.name == name)) [
    | inl same ↦ ground (arith, same, e, h.0)
    | inr other ↦ rw other (nothing_at name files h.1 (rw other at e))
  ]

  -- A read database that is open and has no records has no rows.
  pub has_records-rows_at :
      (s : SqliteEventStorage M)
      → AllOpen s.database_files
      → has_records s ≡ false
      → rows_at s.read_database s.database_files ≡ []
  unfolding has_records
  has_records-rows_at s h e = nothing_at s.read_database s.database_files h e

  pub modify-AllOpen :
      (name : ℕ) (f : Database M → Database M) (files : List (Database M))
      → ((d : Database M) → d.closed ≡ false → (f d).closed ≡ false)
      → AllOpen files
      → AllOpen (modify name f files)
  unfolding modify
  modify-AllOpen name f [] k h = h
  modify-AllOpen name f (d ∷ files) k h = elim (Bool-cases (d.name == name)) [
    | inl e ↦ rw e (k d h.0, h.1)
    | inr e ↦ rw e (h.0, modify-AllOpen name f files k h.1)
  ]

  pub modify-messages_of :
      (name : ℕ) (f : Database M → Database M) (files : List (Database M))
      → All (λ d. (f d).table.rows ≡ d.table.rows) files
      → messages_in (modify name f files) ≡ messages_in files
  unfolding modify messages_in
  modify-messages_of name f [] h = refl
  modify-messages_of name f (d ∷ files) h = elim (Bool-cases (d.name == name)) [
    | inl e ↦ rw e (ap (λ rows. messages_of rows ++ messages_in files) h.0)
    | inr e ↦ rw e (ap (λ ms. messages_of d.table.rows ++ ms) (modify-messages_of name f files h.1))
  ]

  module _ (is_blank : M → Bool) where
    abbrev pub NoneBlank : List (Row M) → Type 0
    NoneBlank rows = All (λ r. is_blank r.message ≡ false) rows

    pub NoneBlank-take : (n : ℕ) (rows : List (Row M)) → NoneBlank rows → NoneBlank (take n rows)
    NoneBlank-take zero rows h = tt
    NoneBlank-take (suc n) [] h = tt
    NoneBlank-take (suc n) (r ∷ rows) h = (h.0, NoneBlank-take n rows h.1)

    -- Of increasing rows with messages all are handed out, and the last one is noted.
    pub process_event_storage_data_lem :
        (low point : ℕ) (rows : List (Row M))
        → IsIncreasing low rows
        → NoneBlank rows
        → process_event_storage_data is_blank point rows
          ≡ (messages_of rows, max point (max_id rows))
    unfolding process_event_storage_data messages_of max_id IsIncreasing
    process_event_storage_data_lem low point [] h b =
        let e : point ≡ max point 0 = omega arith in ap (λ p. ([], p)) e
    process_event_storage_data_lem low point (r ∷ rows) h b =
        let next = max point r.id in
        let step : (if point == 0 || ltb point r.id then r.id else point) ≡ next =
          ground (arith, h.0) in
        let e : max next (max_id rows) ≡ max point (max r.id (max_id rows)) = omega arith in
        rw
          (
            process_event_storage_data,
            b.0,
            step,
            process_event_storage_data_lem r.id next rows h.1 b.1,
          )
          (ap (λ p. (r.message ∷ messages_of rows, p)) e)
