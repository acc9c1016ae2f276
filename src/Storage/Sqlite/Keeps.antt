-- ===== src/Storage/Sqlite/Keeps.antt =====
-- What the changes of files keep of the messages.
pub mod Rotation
pub mod Read
pub mod Done
pub mod Ahead
pub mod Once
pub mod Write
use thingsboard_gateway.Prelude.{
  ℕ, zero, suc, ◌+◌, ◌*◌, ◌≤◌, ◌<◌, List, [], ◌∷◌, ◌++◌, ◌≡◌, refl, sym, ap, ◌∙◌, Bool, true, false,
  not, ◌&&◌, ◌||◌, Option, none, some, is_some, leb, ltb, ◌==◌, is_empty, length, append-nil,
  append_assoc, All, All-append, Bool-cases, Option-cases, inl, inr, if◌then◌else◌, arith,
}
use thingsboard_gateway.Storage.Sqlite.Table.{Row, Table, new_table, messages_of}
use thingsboard_gateway.Storage.Sqlite.Table.Order.{IsOrdered}
use thingsboard_gateway.Storage.Sqlite.Database.{
  Settings, Database, open_database, database_has_records, note_size,
}
use thingsboard_gateway.Storage.Sqlite.Files.{
  SqliteEventStorage, find, modify, remove_file, on_database, has_records, is_oversize,
  start_write_database, check_and_handle_max_db_count, cleanup_write_db, on_write_database_callback,
  process_file_limit, create_read_database, next_read_database, rotate_read_database,
}

module _ {M : Type 0} where
  unfoldable pub messages_in : List (Database M) → List M
  messages_in [] = []
  messages_in (d ∷ files) = messages_of d.table.rows ++ messages_in files

  -- All messages that are not acknowledged, in their order.
  abbrev pub messages : SqliteEventStorage M → List M
  messages s = messages_in s.database_files ++ s.write_queue

  unfoldable pub rows_at : ℕ → List (Database M) → List (Row M)
  rows_at name [] = []
  rows_at name (d ∷ files) = if d.name == name then d.table.rows else rows_at name files

  -- A change of a database that keeps its name, its rows and that it is open.
  pub record KeepsRows (f : Database M → Database M) : Type 0 where
    pub name : (d : Database M) → (f d).name ≡ d.name
    pub rows : (d : Database M) → (f d).table ≡ d.table
    pub closed : (d : Database M) → (f d).closed ≡ d.closed

  pub record IsSound (d : Database M) : Type 0 where
    pub is_open : d.closed ≡ false
    pub ordered : IsOrdered d.table

  pub KeepsRows-IsSound :
      (f : Database M → Database M) (d : Database M) → KeepsRows f → IsSound d → IsSound (f d)
  KeepsRows-IsSound f d k h = record {
    is_open = k.closed d ∙ h.is_open;
    ordered = rw (k.rows d) h.ordered;
  }

  abbrev pub AllSound : List (Database M) → Type 0
  AllSound files = All IsSound files

  pub modify-messages :
      (name : ℕ) (f : Database M → Database M) (files : List (Database M))
      → KeepsRows f
      → messages_in (modify name f files) ≡ messages_in files
  unfolding modify messages_in
  modify-messages name f [] k = refl
  modify-messages name f (d ∷ files) k = elim (Bool-cases (d.name == name)) [
    | inl e ↦ rw e (ap (λ (t : Table M). messages_of t.rows ++ messages_in files) (k.rows d))
    | inr e ↦ rw e (ap (λ ms. messages_of d.table.rows ++ ms) (modify-messages name f files k))
  ]

  pub modify-rows_at :
      (name j : ℕ) (f : Database M → Database M) (files : List (Database M))
      → KeepsRows f
      → rows_at j (modify name f files) ≡ rows_at j files
  unfolding modify rows_at
  modify-rows_at name j f [] k = refl
  modify-rows_at name j f (d ∷ files) k = elim (Bool-cases (d.name == name)) [
    | inl e ↦
        rw (e, k.name d)
          (ap (λ (t : Table M). if d.name == j then t.rows else rows_at j files) (k.rows d))
    | inr e ↦
        rw e (ap (λ rs. if d.name == j then d.table.rows else rs) (modify-rows_at name j f files k))
  ]

  pub modify-AllSound :
      (name : ℕ) (f : Database M → Database M) (files : List (Database M))
      → KeepsRows f
      → AllSound files
      → AllSound (modify name f files)
  unfolding modify
  modify-AllSound name f [] k h = h
  modify-AllSound name f (d ∷ files) k h = elim (Bool-cases (d.name == name)) [
    | inl e ↦ rw e (KeepsRows-IsSound f d k h.0, h.1)
    | inr e ↦ rw e (h.0, modify-AllSound name f files k h.1)
  ]

  pub remove-messages :
      (name : ℕ) (files : List (Database M))
      → rows_at name files ≡ []
      → messages_in (remove_file name files) ≡ messages_in files
  unfolding remove_file messages_in rows_at messages_of
  remove-messages name [] h = refl
  remove-messages name (d ∷ files) h = elim (Bool-cases (d.name == name)) [
    | inl e ↦ rw (e, rw e at h) refl
    | inr e ↦
        rw e (ap (λ ms. messages_of d.table.rows ++ ms) (remove-messages name files (rw e at h)))
  ]

  pub remove-AllSound :
      (name : ℕ) (files : List (Database M)) → AllSound files → AllSound (remove_file name files)
  unfolding remove_file
  remove-AllSound name [] h = h
  remove-AllSound name (d ∷ files) h = elim (Bool-cases (d.name == name)) [
    | inl e ↦ rw e h.1
    | inr e ↦ rw e (h.0, remove-AllSound name files h.1)
  ]

  pub snoc-messages :
      (files : List (Database M)) (d : Database M)
      → d.table.rows ≡ []
      → messages_in (files ++ d ∷ []) ≡ messages_in files
  unfolding messages_in messages_of
  snoc-messages [] d h = rw h refl
  snoc-messages (x ∷ files) d h =
      ap (λ ms. messages_of x.table.rows ++ ms) (snoc-messages files d h)

  pub snoc-rows_at :
      (j : ℕ) (files : List (Database M)) (d : Database M)
      → d.table.rows ≡ []
      → rows_at j (files ++ d ∷ []) ≡ rows_at j files
  unfolding rows_at
  snoc-rows_at j [] d h = ground (arith, h)
  snoc-rows_at j (x ∷ files) d h =
      ap (λ rs. if x.name == j then x.table.rows else rs) (snoc-rows_at j files d h)

  -- A change of a storage that keeps its messages and the soundness of its files.
  pub record Keeps (s s' : SqliteEventStorage M) : Type 0 where
    pub messages : messages_in s'.database_files ≡ messages_in s.database_files
    pub queue : s'.write_queue ≡ s.write_queue
    pub sound : AllSound s.database_files → AllSound s'.database_files

  pub Keeps-trans : (a b c : SqliteEventStorage M) → Keeps a b → Keeps b c → Keeps a c
  Keeps-trans a b c h g = record {
    messages = g.messages ∙ h.messages;
    queue = g.queue ∙ h.queue;
    sound = λ k. g.sound (h.sound k);
  }

  pub Keeps-refl : (s : SqliteEventStorage M) → Keeps s s
  Keeps-refl s = record { messages = refl; queue = refl; sound = λ k. k }

  pub Keeps-messages : (s s' : SqliteEventStorage M) → Keeps s s' → messages s' ≡ messages s
  Keeps-messages s s' k =
      ap (λ ms. ms ++ s'.write_queue) k.messages
      ∙ ap (λ q. messages_in s.database_files ++ q) k.queue

  pub on_database-Keeps :
      (name : ℕ) (f : Database M → Database M) (s : SqliteEventStorage M)
      → KeepsRows f
      → Keeps s (on_database name f s)
  on_database-Keeps name f s k = record {
    messages = modify-messages name f s.database_files k;
    queue = refl;
    sound = λ h. modify-AllSound name f s.database_files k h;
  }
