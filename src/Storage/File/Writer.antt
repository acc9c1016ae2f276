-- ===== src/Storage/File/Writer.antt =====
-- thingsboard_gateway/storage/file/event_storage_writer.py. Calls of the file system succeed; the
-- writer's file is closed after each write, which also flushes it, so no open file is kept.
pub mod Append
pub mod Counts
use thingsboard_gateway.Prelude.{
  ℕ, zero, suc, ◌+◌, List, [], ◌∷◌, ◌++◌, Bool, true, false, not, ◌||◌, Option, none, some, leb,
  length, if◌then◌else◌,
}
use thingsboard_gateway.Prelude.Eq.{nat_eq}
use thingsboard_gateway.Prelude.Dict.{lookup}
use thingsboard_gateway.Storage.File.Bytes.{Codec, linesep, count_lines, count_lines_from}
use thingsboard_gateway.Storage.File.State.{
  Writer, Folder, FileEventStorage, insert_sorted, add_data_file, exists, content,
}

-- `write` returns, or raises DataFileCountError.
pub data Written (E : Type 0) : Type 0 where
  written : FileEventStorage E → Written E
  data_file_count_error : Written E

-- `get_number_of_records_in_file`, for a count of 0 before.
unfoldable pub get_number_of_records_in_file : ℕ → Folder → ℕ
unfolding count_lines_from
get_number_of_records_in_file file folder = count_lines (content file folder)

-- `create_file` opens with O_CREAT | O_EXCL: a file that is there already stays as it is.
unfoldable pub create_file : ℕ → Folder → Folder
unfolding insert_sorted
create_file file folder =
    if exists file folder
    then folder
    else record folder { files = insert_sorted file [] folder.files }

module _ {E : Type 0} where
  -- `create_datafile` at the time `now` in milliseconds, the new file made the current one.
  unfoldable pub create_datafile : ℕ → FileEventStorage E → FileEventStorage E
  unfolding create_file add_data_file
  create_datafile now s = record s {
    folder = create_file now s.folder;
    data_files = add_data_file now s.data_files;
    writer = record s.writer { current_file = now };
  }

  abbrev pub current_exists : FileEventStorage E → Bool
  current_exists s = exists s.writer.current_file s.folder

  -- The current file is full, or is not there.
  abbrev pub rolls : FileEventStorage E → Bool
  rolls s =
      leb s.settings.max_records_per_file s.writer.current_file_records_count
      || not (current_exists s)

  -- The first part of `write`: a full or missing file gives way to a new one.
  unfoldable pub roll : ℕ → FileEventStorage E → FileEventStorage E
  unfolding create_datafile
  roll now s =
      if rolls s
      then (let s' = create_datafile now s in
          record s' { writer = record s'.writer { current_file_records_count = 0 } })
      else s

  -- The count at the last flush. The difference of the two counts may be negative.
  unfoldable pub flush : FileEventStorage E → FileEventStorage E
  flush s =
      let w = s.writer in
      if leb (w.previous_file_records_count + s.settings.max_records_between_fsync)
        w.current_file_records_count
      then record s {
        writer = record w { previous_file_records_count = w.current_file_records_count };
      }
      else s

  module _ (codec : Codec E) where
    -- The bytes go behind those of the current file.
    unfoldable pub append_line : E → FileEventStorage E → FileEventStorage E
    unfolding insert_sorted
    append_line msg s =
        let file = s.writer.current_file in
        let bytes = content file s.folder ++ (codec.encode msg ++ linesep ∷ []) in
        record s {
          folder = record s.folder { files = insert_sorted file bytes s.folder.files };
          writer = record s.writer {
            current_file_records_count = s.writer.current_file_records_count + 1;
          };
        }

    unfoldable pub write : ℕ → E → FileEventStorage E → Written E
    unfolding roll append_line flush
    write now msg s =
        if leb (length s.data_files) s.settings.max_files_count
        then (let s1 = roll now s in
            let s2 = if current_exists s1 then s1 else create_datafile now s1 in
            written (flush (append_line msg s2)))
        else data_file_count_error
