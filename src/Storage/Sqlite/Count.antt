-- ===== src/Storage/Sqlite/Count.antt =====
-- `len` of sqlite_event_storage.py, when the count of the other files is there in time. Where Python
-- adds the -1 of a closed database the result here is none.
use thingsboard_gateway.Prelude.{
  ℕ, suc, ◌+◌, ◌≤◌, List, [], ◌∷◌, ◌≡◌, ◌≢◌, refl, sym, ap, ◌∙◌, false, ◌||◌, Option, none, some,
  ltb, ◌==◌, ==_iff, length, length-append, All, Bool-cases, ◌⊎◌, inl, inr, if◌then◌else◌, arith,
}
use thingsboard_gateway.Storage.Sqlite.Table.{Row, messages_of}
use thingsboard_gateway.Storage.Sqlite.Database.{Database, get_stored_messages_count}
use thingsboard_gateway.Storage.Sqlite.Files.{SqliteEventStorage, find}
use thingsboard_gateway.Storage.Sqlite.Keeps.{messages_in, messages}

unfoldable pub add_count : Option ℕ → Option ℕ → Option ℕ
add_count none n = none
add_count (some m) none = none
add_count (some m) (some n) = some (m + n)

module _ {M : Type 0} where
  -- `__check_db_sizes`
  unfoldable pub check_db_sizes : ℕ → ℕ → List (Database M) → ℕ
  check_db_sizes read write [] = 0
  check_db_sizes read write (d ∷ files) =
      let rest = check_db_sizes read write files in
      if d.name == read || d.name == write then rest else length d.table.rows + rest

  unfoldable pub count_of : ℕ → List (Database M) → Option ℕ
  count_of name files = elim (find name files) [
    | none ↦ none
    | some d ↦ get_stored_messages_count d
  ]

  unfoldable pub len : SqliteEventStorage M → Option ℕ
  unfolding count_of add_count check_db_sizes
  len s =
      let written =
        if s.write_database == s.read_database
        then some 0
        else count_of s.write_database s.database_files in
      let others =
        if ltb 2 (length s.database_files)
        then check_db_sizes s.read_database s.write_database s.database_files
        else 0 in
      add_count
        (add_count (some (length s.write_queue)) (count_of s.read_database s.database_files))
        (add_count written (some others))

  -- Open databases with names of their own.
  unfoldable pub IsNamed : List (Database M) → Type 0
  IsNamed [] = Unit
  IsNamed (d ∷ files) = (d.closed ≡ false) × All (λ x. x.name ≢ d.name) files × IsNamed files

  length-messages_of : (rows : List (Row M)) → length (messages_of rows) ≡ length rows
  unfolding messages_of
  length-messages_of [] = refl
  length-messages_of (r ∷ rows) = ap suc (length-messages_of rows)

  -- The number of rows of a file.
  unfoldable pub size_at : ℕ → List (Database M) → ℕ
  size_at name [] = 0
  size_at name (d ∷ files) =
      let rest = size_at name files in if d.name == name then length d.table.rows else rest

  absent-size_at :
      (name : ℕ) (files : List (Database M))
      → All (λ x. x.name ≢ name) files
      → size_at name files ≡ 0
  unfolding size_at
  absent-size_at name [] h = refl
  absent-size_at name (d ∷ files) h = ground (arith, h.0, absent-size_at name files h.1)

  count_of-size_at :
      (name : ℕ) (files : List (Database M)) (d : Database M)
      → IsNamed files
      → find name files ≡ some d
      → count_of name files ≡ some (size_at name files)
  unfolding count_of find size_at IsNamed get_stored_messages_count
  count_of-size_at name [] d h e = absurd (cc e)
  count_of-size_at name (x ∷ files) d h e = elim (Bool-cases (x.name == name)) [
    | inl a ↦ rw (count_of, a, h.0) refl
    | inr b ↦ rw (count_of, b) (count_of-size_at name files d h.2 (rw b at e))
  ]

  -- The messages of all files, by the two that are asked and the others.
  messages_in-sizes :
      (read write : ℕ) (files : List (Database M))
      → IsNamed files
      → length (messages_in files)
        ≡ size_at read files
          + (if write == read then 0 else size_at write files)
          + check_db_sizes read write files
  unfolding messages_in size_at check_db_sizes IsNamed
  messages_in-sizes read write [] h = ground arith
  messages_in-sizes read write (d ∷ files) h =
      let ih = messages_in-sizes read write files h.2 in
      let here = length-append (messages_of d.table.rows) (messages_in files) in
      let rows = length-messages_of d.table.rows in
      let gone = absent-size_at d.name files h.1 in
      elim (Bool-cases (d.name == read)) [
        | inl a ↦
            let r : d.name ≡ read = (==_iff d.name read).0 a in
            let gone_r : size_at read files ≡ 0 = rw r at gone in
            ground (arith, ih, here, rows, gone_r, a)
        | inr b ↦ elim (Bool-cases (d.name == write)) [
          | inl a ↦
              let w : d.name ≡ write = (==_iff d.name write).0 a in
              let gone_w : size_at write files ≡ 0 = rw w at gone in
              ground (arith, ih, here, rows, gone_w, a, b)
          | inr c ↦ ground (arith, ih, here, rows, b, c)
        ]
      ]

  -- With one file, which is read, or with two, one read and one written, there are no others.
  none_other_one :
      (read write : ℕ) (d r : Database M)
      → find read (d ∷ []) ≡ some r
      → check_db_sizes read write (d ∷ []) ≡ 0
  unfolding find check_db_sizes
  none_other_one read write d r h = ground (arith, h)

  none_other_two :
      (read write : ℕ) (d e r w : Database M)
      → (write == read) ≡ false
      → find read (d ∷ e ∷ []) ≡ some r
      → find write (d ∷ e ∷ []) ≡ some w
      → check_db_sizes read write (d ∷ e ∷ []) ≡ 0
  unfolding find check_db_sizes
  none_other_two read write d e r w apart hr hw = ground (arith, apart, hr, hw)

  -- One file, or one that is read and one that is written.
  pub record IsServed (s : SqliteEventStorage M) (r w : Database M) : Type 0 where
    pub named : IsNamed s.database_files
    pub read : find s.read_database s.database_files ≡ some r
    pub write : find s.write_database s.database_files ≡ some w
    pub apart : ((s.write_database == s.read_database) ≡ false) ⊎ (length s.database_files ≤ 1)

  few :
      (read write : ℕ) (files : List (Database M)) (r w : Database M)
      → find read files ≡ some r
      → find write files ≡ some w
      → ((write == read) ≡ false) ⊎ (length files ≤ 1)
      → ltb 2 (length files) ≡ false
      → check_db_sizes read write files ≡ 0
  unfolding check_db_sizes
  few read write [] r w hr hw apart short = refl
  few read write (d ∷ []) r w hr hw apart short = none_other_one read write d r hr
  few read write (d ∷ e ∷ []) r w hr hw (inl apart) short =
      none_other_two read write d e r w apart hr hw
  few read write (d ∷ e ∷ []) r w hr hw (inr one) short = absurd (omega (arith, one))
  few read write (d ∷ e ∷ f ∷ files) r w hr hw apart short = absurd (ground (arith, short))

  -- The number that `len` gives is that of all messages that are not acknowledged: those of every
  -- file and those that wait in the queue. The databases are open and have names of their own, the
  -- one that is read and the one that is written are among them, and they are one only when there
  -- is one file.
  pub len-messages :
      (s : SqliteEventStorage M) (r w : Database M)
      → IsServed s r w
      → len s ≡ some (length (messages s))
  unfolding len add_count
  len-messages s r w h =
      let files = s.database_files in
      let sizes = messages_in-sizes s.read_database s.write_database files h.named in
      let all = length-append (messages_in files) s.write_queue in
      let read = count_of-size_at s.read_database files r h.named h.read in
      let write = count_of-size_at s.write_database files w h.named h.write in
      let both = s.write_database == s.read_database in
      let others = check_db_sizes s.read_database s.write_database files in
      let asked : (if ltb 2 (length files) then others else 0) ≡ others =
        elim (Bool-cases (ltb 2 (length files))) [
          | inl e ↦ rw e refl
          | inr e ↦
              rw e (sym (few s.read_database s.write_database files r w h.read h.write h.apart e))
        ] in
      let written : (if both then some 0 else count_of s.write_database files)
          ≡ some (if both then 0 else size_at s.write_database files) =
        elim (Bool-cases both) [ inl e ↦ rw e refl | inr e ↦ rw e write ] in
      let sum : length s.write_queue
            + size_at s.read_database files
            + ((if both then 0 else size_at s.write_database files) + others)
          ≡ length (messages s) =
        omega (arith, sizes, all) in
      ap
        (λ n.
          add_count (add_count (some (length s.write_queue)) (count_of s.read_database files))
            (add_count (if both then some 0 else count_of s.write_database files) (some n)))
        asked
      ∙ ap
          (λ n.
            add_count (add_count (some (length s.write_queue)) (count_of s.read_database files))
              (add_count n (some others)))
          written
      ∙ ap
          (λ n.
            add_count (add_count (some (length s.write_queue)) n)
              (add_count (some (if both then 0 else size_at s.write_database files)) (some others)))
          read
      ∙ ap some sum
