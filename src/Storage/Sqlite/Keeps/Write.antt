-- ===== src/Storage/Sqlite/Keeps/Write.antt =====
-- A round of the thread that writes.
use thingsboard_gateway.Prelude.{
  ℕ, ◌/◌, ◌<◌, min, List, [], ◌∷◌, ◌++◌, ◌≡◌, ◌≢◌, refl, sym, ap, ◌∙◌, Bool, false, not, ◌&&◌, some,
  ==_refl, length, take, drop, take-append-drop, append-nil, append_assoc, All, Bool-cases, inl,
  inr, if◌then◌else◌, arith,
}
use thingsboard_gateway.Storage.Sqlite.Table.{insert_rows, messages_of}
use thingsboard_gateway.Storage.Sqlite.Table.Order.{insert_rows-messages}
use thingsboard_gateway.Storage.Sqlite.Database.{Settings, Database, process, expire, write_batch}
use thingsboard_gateway.Storage.Sqlite.Database.Expiry.{expire_nothing, expire-closed}
use thingsboard_gateway.Storage.Sqlite.Files.{
  SqliteEventStorage, find, modify, write_from_queue, write_round,
}
use thingsboard_gateway.Storage.Sqlite.Keeps.{messages_in, messages}

module _ {M : Type 0} where
  -- The write database is the last file, and no other has its name.
  pub record IsWriting (s : SqliteEventStorage M) (older : List (Database M)) (d : Database M)
      : Type 0 where
    pub last : s.database_files ≡ older ++ d ∷ []
    pub write : s.write_database ≡ d.name
    pub unique : All (λ x. x.name ≢ d.name) older

  find-last :
      (older : List (Database M)) (d : Database M)
      → All (λ x. x.name ≢ d.name) older
      → find d.name (older ++ d ∷ []) ≡ some d
  unfolding find
  find-last [] d h = rw (==_refl d.name) refl
  find-last (x ∷ older) d h = ground (arith, h.0, find-last older d h.1)

  modify-last :
      (f : Database M → Database M) (older : List (Database M)) (d : Database M)
      → All (λ x. x.name ≢ d.name) older
      → modify d.name f (older ++ d ∷ []) ≡ older ++ f d ∷ []
  unfolding modify
  modify-last f [] d h = rw (==_refl d.name) refl
  modify-last f (x ∷ older) d h = ground (arith, h.0, modify-last f older d h.1)

  last-messages :
      (older : List (Database M)) (d : Database M)
      → messages_in (older ++ d ∷ []) ≡ messages_in older ++ messages_of d.table.rows
  unfolding messages_in
  last-messages [] d = append-nil (messages_of d.table.rows)
  last-messages (x ∷ older) d =
      ap (λ ms. messages_of x.table.rows ++ ms) (last-messages older d)
      ∙ sym (append_assoc (messages_of x.table.rows) (messages_in older) (messages_of d.table.rows))

  write_batch-messages :
      (cur : ℕ) (ms : List M) (d : Database M)
      → d.closed ≡ false
      → messages_of (write_batch cur ms d).table.rows ≡ messages_of d.table.rows ++ ms
  unfolding write_batch
  write_batch-messages cur ms d is_open =
      ap
        (λ b.
          messages_of (if b then d else record d { table = insert_rows cur ms d.table }).table.rows)
        is_open
      ∙ insert_rows-messages cur ms d.table

  process-messages :
      (settings : Settings) (cur collected : ℕ) (queue : List M) (d : Database M)
      → d.closed ≡ false
      → All (λ r. cur / 1000 < r.timestamp) d.table.rows
      → messages_of (process settings cur collected false queue d).0.table.rows
          ++ (process settings cur collected false queue d).1
        ≡ messages_of d.table.rows ++ queue
  unfolding process
  process-messages settings cur collected queue d is_open h =
      let n = min collected (min settings.batch_size (length queue)) in
      let e = expire settings cur false d in
      ap (λ ms. ms ++ drop n queue)
        (write_batch-messages cur (take n queue) e (expire-closed settings cur false d ∙ is_open)
          ∙ ap (λ rows. messages_of rows ++ take n queue) (expire_nothing settings cur false d h))
      ∙ append_assoc (messages_of d.table.rows) (take n queue) (drop n queue)
      ∙ ap (λ ms. messages_of d.table.rows ++ ms) (take-append-drop n queue)

  write_from_queue-messages :
      (cur collected : ℕ) (s : SqliteEventStorage M) (older : List (Database M)) (d : Database M)
      → IsWriting s older d
      → d.closed ≡ false
      → s.stopped ≡ false
      → All (λ r. cur / 1000 < r.timestamp) d.table.rows
      → messages (write_from_queue cur collected d s) ≡ messages s
  unfolding write_from_queue
  write_from_queue-messages cur collected s older d h is_open going young =
      let run = λ (b : Bool). process s.settings cur collected b s.write_queue d in
      let f = λ (x : Database M). (process s.settings cur collected s.stopped s.write_queue x).0 in
      let left = (run s.stopped).1 in
      let rows = messages_of d.table.rows in
      let old = messages_in older in
      ap (λ name. messages_in (modify name f s.database_files) ++ left) h.write
      ∙ ap (λ files. messages_in (modify d.name f files) ++ left) h.last
      ∙ ap (λ files. messages_in files ++ left) (modify-last f older d h.unique)
      ∙ ap (λ ms. ms ++ left) (last-messages older (f d))
      ∙ append_assoc old (messages_of (f d).table.rows) left
      ∙ ap (λ b. old ++ (messages_of (run b).0.table.rows ++ (run b).1)) going
      ∙ ap (λ ms. old ++ ms)
          (process-messages s.settings cur collected s.write_queue d is_open young)
      ∙ sym (append_assoc old rows s.write_queue)
      ∙ ap (λ ms. ms ++ s.write_queue)
          (sym (last-messages older d) ∙ ap (λ files. messages_in files) (sym h.last))

  -- A round of the thread that writes loses no message and keeps their order: what it takes from the
  -- queue stands behind the rows of the write database, which is the last file and the only one of
  -- its name. No row of it may be older, as a number, than the time in seconds.
  pub write_round-messages :
      (cur collected : ℕ) (s : SqliteEventStorage M) (older : List (Database M)) (d : Database M)
      → IsWriting s older d
      → All (λ r. cur / 1000 < r.timestamp) d.table.rows
      → messages (write_round cur collected s) ≡ messages s
  unfolding write_round
  write_round-messages cur collected s older d h young =
      let found = λ (name : ℕ). find name s.database_files in
      rw
        (
          write_round,
          ap found h.write
              ∙ ap (λ (files : List (Database M)). find d.name files) h.last
              ∙ find-last older d h.unique,
        )
        (elim (Bool-cases (d.should_write && not d.closed && not s.stopped)) [
          | inl e ↦ rw e (
              write_from_queue-messages cur collected s older d h (ground (arith, e))
                (ground (arith, e)) young)
          | inr e ↦ rw e refl
        ])
