-- ===== src/Storage/File/Writer/Append.antt =====
-- What `write` does to the folder, and which files it leaves.
use thingsboard_gateway.Prelude.{
  ℕ, ◌+◌, ◌≤◌, ◌<◌, [], ◌++◌, ◌≡◌, ◌≢◌, refl, ap, ◌∙◌, true, false, ◌==◌, length, if◌then◌else◌,
  arith, ◌⊎◌, le→leb, ==_refl, inl, inr,
}
use native.Mathlib.Decide.{dec_le}
use thingsboard_gateway.Prelude.Eq.{nat_eq}
use thingsboard_gateway.Storage.File.Bytes.{Codec}
use thingsboard_gateway.Storage.File.Bytes.Lines.{line_of}
use thingsboard_gateway.Storage.File.State.{FileEventStorage, add_data_file, content}
use thingsboard_gateway.Storage.File.State.Keys.{lookup-insert_sorted, length-insert_sorted}
use thingsboard_gateway.Storage.File.Writer.{
  written, data_file_count_error, create_file, current_exists, roll, append_line, flush, write,
}

module _ {E : Type 0} where
  lookup-create_file :
      (file j : ℕ) (s : FileEventStorage E)
      → content j (create_file file s.folder) ≡ content j s.folder
  unfolding create_file
  lookup-create_file file j s = ground (arith, lookup-insert_sorted file j [] s.folder.files)

  -- After the first part of `write` the current file is there.
  current_exists-roll : (now : ℕ) (s : FileEventStorage E) → current_exists (roll now s) ≡ true
  unfolding roll
  current_exists-roll now s = ground (arith, lookup-insert_sorted now now [] s.folder.files)

  pub content-roll :
      (now j : ℕ) (s : FileEventStorage E) → content j (roll now s).folder ≡ content j s.folder
  unfolding roll
  content-roll now j s = ground (arith, lookup-insert_sorted now j [] s.folder.files)

  length-roll :
      (now : ℕ) (s : FileEventStorage E) → length (roll now s).data_files ≤ length s.data_files + 1
  unfolding roll add_data_file
  length-roll now s = ground (arith, length-insert_sorted now false s.data_files)

  pub settings-roll : (now : ℕ) (s : FileEventStorage E) → (roll now s).settings ≡ s.settings
  unfolding roll
  settings-roll now s = ground arith

  flush-folder : (s : FileEventStorage E) → (flush s).folder ≡ s.folder
  unfolding flush
  flush-folder s = ground arith

  flush-data_files : (s : FileEventStorage E) → (flush s).data_files ≡ s.data_files
  unfolding flush
  flush-data_files s = ground arith

  flush-current : (s : FileEventStorage E) → (flush s).writer.current_file ≡ s.writer.current_file
  unfolding flush
  flush-current s = ground arith

  flush-settings : (s : FileEventStorage E) → (flush s).settings ≡ s.settings
  unfolding flush
  flush-settings s = ground arith

  flush-count :
      (s : FileEventStorage E)
      → (flush s).writer.current_file_records_count ≡ s.writer.current_file_records_count
  unfolding flush
  flush-count s = ground arith

  module _ (codec : Codec E) (now : ℕ) (msg : E) (s : FileEventStorage E) where
    -- A `write` that does not raise is the roll, the append and the flush.
    write_lem :
        length s.data_files ≤ s.settings.max_files_count
        → write codec now msg s ≡ written (flush (append_line codec msg (roll now s)))
    unfolding write
    write_lem h = rw (le→leb _ _ h, current_exists-roll now s)

    write_raises :
        s.settings.max_files_count < length s.data_files
        → write codec now msg s ≡ data_file_count_error
    unfolding write
    write_raises h = ground arith

    -- `write` raises if there are more data files than the limit; otherwise it succeeds, and leaves
    -- at most one data file more than the limit.
    pub write_bound :
        ((s.settings.max_files_count < length s.data_files)
          × (write codec now msg s ≡ data_file_count_error))
        ⊎ ((s' : FileEventStorage E) × (length s.data_files ≤ s.settings.max_files_count)
            × (write codec now msg s ≡ written s')
            × (length s'.data_files ≤ s.settings.max_files_count + 1))
    unfolding append_line
    write_bound = elim (dec_le (length s.data_files) s.settings.max_files_count) [
      | yes h ↦
          let s' = flush (append_line codec msg (roll now s)) in
          inr (
            s',
            h,
            write_lem h,
            rw (flush-data_files (append_line codec msg (roll now s)))
                (omega (arith, length-roll now s)),
          )
      | no h ↦ inl (omega arith, write_raises (omega arith))
    ]

    written-eq :
        {s' : FileEventStorage E}
        → write codec now msg s ≡ written s'
        → s' ≡ flush (append_line codec msg (roll now s))
    written-eq h = elim (dec_le (length s.data_files) s.settings.max_files_count) [
      | yes fits ↦ cc (write_lem fits, h)
      | no full ↦ cc (write_raises (omega arith), h)
    ]

    content-append_line :
        (j : ℕ) (t : FileEventStorage E)
        → content j (append_line codec msg t).folder ≡ (
            if t.writer.current_file == j
            then content t.writer.current_file t.folder ++ line_of codec msg
            else content j t.folder)
    unfolding append_line line_of
    content-append_line j t =
        let file = t.writer.current_file in
        let bytes = content file t.folder ++ line_of codec msg in
        ground (arith, lookup-insert_sorted file j bytes t.folder.files)

    current-append_line :
        (t : FileEventStorage E)
        → (append_line codec msg t).writer.current_file ≡ t.writer.current_file
    unfolding append_line
    current-append_line t = refl

    count-append_line :
        (t : FileEventStorage E)
        → (append_line codec msg t).writer.current_file_records_count
          ≡ t.writer.current_file_records_count + 1
    unfolding append_line
    count-append_line t = refl

    settings-append_line :
        (t : FileEventStorage E) → (append_line codec msg t).settings ≡ t.settings
    unfolding append_line
    settings-append_line t = refl

    pub written-current :
        {s' : FileEventStorage E}
        → write codec now msg s ≡ written s'
        → s'.writer.current_file ≡ (roll now s).writer.current_file
    written-current h =
        ap (λ (r : FileEventStorage E). r.writer.current_file) (written-eq h)
        ∙ flush-current (append_line codec msg (roll now s))
        ∙ current-append_line (roll now s)

    pub written-count :
        {s' : FileEventStorage E}
        → write codec now msg s ≡ written s'
        → s'.writer.current_file_records_count ≡ (roll now s).writer.current_file_records_count + 1
    written-count h =
        ap (λ (r : FileEventStorage E). r.writer.current_file_records_count) (written-eq h)
        ∙ flush-count (append_line codec msg (roll now s))
        ∙ count-append_line (roll now s)

    pub written-settings :
        {s' : FileEventStorage E}
        → write codec now msg s ≡ written s'
        → s'.settings ≡ (roll now s).settings
    written-settings h =
        ap (λ (r : FileEventStorage E). r.settings) (written-eq h)
        ∙ flush-settings (append_line codec msg (roll now s))
        ∙ settings-append_line (roll now s)

    -- A successful `write` puts the event's line behind the bytes of the file that is then current,
    -- where a file that was not there had none, and changes the bytes of no other file.
    pub write-content :
        {s' : FileEventStorage E}
        → write codec now msg s ≡ written s'
        → (content s'.writer.current_file s'.folder
            ≡ content s'.writer.current_file s.folder ++ line_of codec msg)
          × ((j : ℕ) → j ≢ s'.writer.current_file → content j s'.folder ≡ content j s.folder)
    write-content {s'} h =
        let t = roll now s in
        let u = append_line codec msg t in
        let same = written-eq h in
        let current = written-current h in
        let bytes = λ (j : ℕ).
          ap (λ (r : FileEventStorage E). content j r.folder) same
          ∙ ap (content j) (flush-folder u)
          ∙ content-append_line j t in
        (
          rw current (
              bytes t.writer.current_file
              ∙ rw (==_refl t.writer.current_file)
                  (ap (λ c. c ++ line_of codec msg) (content-roll now t.writer.current_file s))),
          λ j other. bytes j ∙ ground (arith, current, other, content-roll now j s),
        )
