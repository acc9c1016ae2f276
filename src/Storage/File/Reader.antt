-- ===== src/Storage/File/Reader.antt =====
-- thingsboard_gateway/storage/file/event_storage_reader.py. Calls of the file system succeed, but
-- for the opening of a file that is not there.
pub mod InnerLoop
pub mod Position
pub mod Round
pub mod Batch
pub mod Restart
use thingsboard_gateway.Prelude.{
  ℕ, zero, suc, ◌+◌, ◌-◌, List, [], ◌∷◌, ◌++◌, Bool, true, false, not, ◌&&◌, ◌||◌, Option, none,
  some, ◌==◌, leb, ltb, length, is_empty, take, drop, is_some, get_or, if◌then◌else◌,
}
use thingsboard_gateway.Prelude.Eq.{nat_eq}
use thingsboard_gateway.Prelude.Dict.{Dict, lookup, remove, has}
use thingsboard_gateway.Storage.File.Bytes.{Codec, readline, ends_line, skip_lines}
use thingsboard_gateway.Storage.File.State.{
  Pointer, StateFile, missing, malformed, node, Handle, Reader, Folder, FileEventStorage, keys,
  get_data_files, confirm_file_processed, exists, content, set_line,
}

-- `get_next_file`
unfoldable pub get_next_file : List ℕ → ℕ → Option ℕ
get_next_file [] file = none
get_next_file (f ∷ []) file = none
get_next_file (f ∷ g ∷ files) file =
    let further = get_next_file (g ∷ files) file in if f == file then some g else further

module _ {E : Type 0} where
  -- `delete_read_file`
  unfoldable pub delete_read_file : ℕ → FileEventStorage E → FileEventStorage E
  delete_read_file file s = record s {
    folder =
        if exists file s.folder && ltb 1 (length s.data_files)
        then record s.folder { files = remove file s.folder.files }
        else s.folder;
    data_files = if has file s.data_files then remove file s.data_files else s.data_files;
  }

  unfoldable pub delete_read_files : List ℕ → FileEventStorage E → FileEventStorage E
  unfolding delete_read_file
  delete_read_files [] s = s
  delete_read_files (file ∷ files) s = delete_read_files files (delete_read_file file s)

  -- `write_info_to_state_file`
  unfoldable pub write_info_to_state_file : Pointer → FileEventStorage E → FileEventStorage E
  write_info_to_state_file pointer s = record s {
    folder = record s.folder { state = node pointer };
  }

  -- `get_or_init_buffered_reader`, and whether there is a reader. Without one, the file is confirmed
  -- as processed before it is opened.
  unfoldable pub get_or_init_buffered_reader :
      Pointer → FileEventStorage E → FileEventStorage E × Option Handle
  unfolding confirm_file_processed skip_lines
  get_or_init_buffered_reader pointer s = elim s.reader.buffered_reader [
    | some h ↦ (s, some h)
    | none ↦
        let s' = record s { data_files = confirm_file_processed pointer.file s.data_files } in
        if exists pointer.file s.folder
        then (let h : Handle = record {
          file = pointer.file;
          offset = skip_lines pointer.line (content pointer.file s.folder) 0;
        } in
            (record s' { reader = record s'.reader { buffered_reader = some h } }, some h))
        else (s', none)
  ]

-- What the inner loop of `read` leaves: the events it appends, `current_line_in_file`, the line set
-- in `new_pos`, `records_to_read`, the offset of the reader, whether `line` is empty, whether the
-- loop returned at a line without a linefeed, and whether a line was not decoded.
pub record Scan (E : Type 0) : Type 0 where
  pub events : List E
  pub current_line : ℕ
  pub set_to : ℕ
  pub left : ℕ
  pub offset : ℕ
  pub at_end : Bool
  pub returned : Bool
  pub failed : Bool

module _ {E : Type 0} (codec : Codec E) where
  -- One round of the loop `while line != b''`, with what the later rounds leave. After a line that
  -- is not decoded the count of lines moves by two, and the line that `finally` reads, `skipped`, is
  -- dropped by the `break`.
  unfoldable pub scan_round : ℕ → (line skipped : List ℕ) (offset line_number : ℕ) → Scan E → Scan E
  unfolding ends_line
  scan_round n line skipped offset line_number further =
      let stop : Scan E = record {
        events = [];
        current_line = line_number;
        set_to = line_number;
        left = suc n;
        offset = offset;
        at_end = is_empty line;
        returned = not (is_empty line);
        failed = false;
      } in
      let broken = record stop {
        current_line = line_number + 2;
        set_to = line_number + 1;
        offset = offset + length line + length skipped;
        at_end = is_empty skipped;
        returned = false;
        failed = true;
      } in
      if is_empty line || not (ends_line line) then stop else elim (codec.decode line) [
        | none ↦ broken
        | some e ↦ record further { events = e ∷ further.events }
      ]

  -- The loop, from the bytes that the reader has before it, by the records to read.
  unfoldable pub scan : ℕ → List ℕ → ℕ → ℕ → Scan E
  unfolding readline scan_round
  scan zero bytes offset line_number = record {
    events = [];
    current_line = line_number;
    set_to = line_number;
    left = 0;
    offset = offset;
    at_end = false;
    returned = false;
    failed = false;
  }
  scan (suc n) bytes offset line_number =
      let (line, rest) = readline bytes in
      let further = scan n rest (offset + length line) (line_number + 1) in
      scan_round n line (readline rest).0 offset line_number further

module _ {E : Type 0} where
  -- The reader after the inner loop. A line that is not decoded has the state file written.
  unfoldable pub scanned : Scan E → Handle → List E → FileEventStorage E → FileEventStorage E
  unfolding set_line write_info_to_state_file
  scanned result h batch s =
      let moved = set_line result.set_to s.reader in
      let s' = record s {
        reader = record moved {
          current_batch = some (batch ++ result.events);
          buffered_reader = some (record h { offset = result.offset });
        };
      } in
      if result.failed then write_info_to_state_file s'.reader.new_pos s' else s'

  -- The test after the inner loop, as it is written.
  abbrev pub goes_on : ℕ → Scan E → Bool
  goes_on max_records_per_file result =
      leb result.current_line max_records_per_file
      || (result.at_end && leb (max_records_per_file - 1) result.current_line)

  -- The move to the next file: the reader is closed, the file of `current_pos` deleted, and the next
  -- file opened from its start. An exception of the last call is logged, and the loop goes on.
  unfoldable pub next : ℕ → FileEventStorage E → FileEventStorage E
  unfolding delete_read_file get_or_init_buffered_reader
  next file s =
      let closed = record s { reader = record s.reader { buffered_reader = none } } in
      let s' = delete_read_file s.reader.current_pos.file closed in
      let start : Pointer = record { file = file; line = 0 } in
      (get_or_init_buffered_reader start
        (record s' { reader = record s'.reader { new_pos = start; aliased = false } })).0

  abbrev pub batch_of : FileEventStorage E → List E
  batch_of s = get_or s.reader.current_batch []

module _ {E : Type 0} (codec : Codec E) where
  -- What follows the inner loop; `again` is the rest of the outer loop.
  unfoldable pub conclude :
      (ℕ → FileEventStorage E → Option (FileEventStorage E))
      → Scan E
      → FileEventStorage E
      → Option (FileEventStorage E)
  conclude again result s =
      if result.returned
      then some s
      else if goes_on s.settings.max_records_per_file result
      then (elim (get_next_file (get_data_files s.data_files) s.reader.new_pos.file) [
        | none ↦ some s
        | some file ↦ again result.left (next file s)
      ])
      else if result.at_end
      then some s
      else again result.left s

  -- One round of `while records_to_read > 0`, for one record at least.
  unfoldable pub read_round :
      (ℕ → FileEventStorage E → Option (FileEventStorage E))
      → ℕ
      → FileEventStorage E
      → Option (FileEventStorage E)
  read_round again n s =
      let (s1, handle) = get_or_init_buffered_reader s.reader.new_pos s in
      elim handle [
        | none ↦ again (suc n) s1
        | some h ↦
            let bytes = drop h.offset (content h.file s1.folder) in
            let result = scan codec (suc n) bytes h.offset s1.reader.new_pos.line in
            conclude again result (scanned result h (batch_of s1) s1)
      ]

  -- `while records_to_read > 0`, on fuel: `none` is a loop that still runs.
  unfoldable pub read_loop : ℕ → ℕ → FileEventStorage E → Option (FileEventStorage E)
  read_loop zero records_to_read s = none
  read_loop (suc fuel) zero s = some s
  read_loop (suc fuel) (suc n) s = read_round (read_loop fuel) n s

  -- `read`, which hands out a batch that was not discarded again.
  unfoldable pub read : ℕ → FileEventStorage E → Option (FileEventStorage E × List E)
  read fuel s =
      let fresh = record s { reader = record s.reader { current_batch = some [] } } in
      let result = read_loop fuel s.settings.max_read_records_count fresh in
      if is_empty (batch_of s)
      then (elim result [ none ↦ none | some s' ↦ some (s', batch_of s') ])
      else some (s, batch_of s)

-- The index at which the loop of `_remove_processed_files` stops: at the first of two files, or at
-- the last index.
unfoldable pub processed_index : List ℕ → ℕ → ℕ → ℕ
processed_index [] previous current = 0
processed_index (f ∷ []) previous current = 0
processed_index (f ∷ g ∷ files) previous current =
    let further = processed_index (g ∷ files) previous current in
    if f == previous || f == current then 0 else suc further

module _ {E : Type 0} where
  unfoldable pub remove_processed_files : ℕ → FileEventStorage E → FileEventStorage E
  unfolding processed_index delete_read_files
  remove_processed_files previous s =
      let files = get_data_files s.data_files in
      delete_read_files (take (processed_index files previous s.reader.new_pos.file) files) s

  unfoldable pub discard_batch : FileEventStorage E → FileEventStorage E
  unfolding write_info_to_state_file remove_processed_files
  discard_batch s =
      let r = s.reader in
      let reader =
        if leb (s.settings.max_records_per_file - 1) r.current_pos.line
        then none
        else r.buffered_reader in
      let s' = write_info_to_state_file r.new_pos s in
      remove_processed_files r.current_pos.file (record s' {
        reader = record r {
          buffered_reader = reader;
          current_pos = r.new_pos;
          aliased = true;
          current_batch = none;
        };
      })

-- The first of the sorted data files. There is one when the reader is made.
abbrev pub first_file : List ℕ → ℕ
first_file [] = 0
first_file (f ∷ files) = f

-- `read_state_file`: the position of the state file if it names a data file.
unfoldable pub read_state_file : StateFile → Dict ℕ Bool → Pointer
read_state_file missing data_files = record {
  file = first_file (get_data_files data_files);
  line = 0;
}
read_state_file malformed data_files = record {
  file = first_file (get_data_files data_files);
  line = 0;
}
read_state_file (node pointer) data_files =
    if has pointer.file data_files
    then pointer
    else record { file = first_file (get_data_files data_files); line = 0 }
