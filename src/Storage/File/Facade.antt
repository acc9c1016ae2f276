-- ===== src/Storage/File/Facade.antt =====
-- thingsboard_gateway/storage/file/file_event_storage.py: the class FileEventStorage, over a folder
-- that is there.
use thingsboard_gateway.Prelude.{
  ℕ, ◌+◌, List, [], ◌∷◌, Bool, true, false, not, Option, none, ◌==◌, length, if◌then◌else◌,
}
use thingsboard_gateway.Prelude.Dict.{Dict}
use thingsboard_gateway.Storage.File.Bytes.{Codec}
use thingsboard_gateway.Storage.File.State.{
  Config, settings, Pointer, missing, malformed, node, Folder, FileEventStorage, insert_sorted,
  keys, get_data_files,
}
use thingsboard_gateway.Storage.File.Writer.{
  written, data_file_count_error, write, create_file, get_number_of_records_in_file,
}
use thingsboard_gateway.Storage.File.Reader.{
  read, read_loop, read_round, conclude, scan, scanned, next, get_next_file,
  get_or_init_buffered_reader, discard_batch, read_state_file, first_file, delete_read_files,
}

-- The sum of the sizes of the data files.
unfoldable pub data_files_size : Dict ℕ (List ℕ) → ℕ
data_files_size [] = 0
data_files_size ((file, bytes) ∷ files) = length bytes + data_files_size files

unfoldable pub unprocessed : List ℕ → Dict ℕ Bool
unprocessed [] = []
unprocessed (file ∷ files) = (file, false) ∷ unprocessed files

-- `init_data_files` at the time `now` in milliseconds: the folder and the data files. Without a
-- byte of data a new file is made; without a state file one that points at the first file.
unfoldable pub init_data_files : ℕ → Folder → Folder × Dict ℕ Bool
unfolding data_files_size unprocessed create_file keys insert_sorted
init_data_files now folder =
    let found = unprocessed (keys folder.files) in
    let created = data_files_size folder.files == 0 in
    let folder' = if created then create_file now folder else folder in
    let data_files = if created then insert_sorted now false found else found in
    let start : Pointer = record { file = first_file (get_data_files data_files); line = 0 } in
    (
      elim folder.state [
        | missing ↦ record folder' { state = node start }
        | malformed ↦ folder'
        | node _ ↦ folder'
      ],
      data_files,
    )

unfoldable pub last_file : List ℕ → ℕ
last_file [] = 0
last_file (f ∷ []) = f
last_file (f ∷ g ∷ files) = last_file (g ∷ files)

-- `list.index`, and the files before it.
unfoldable pub files_before : ℕ → List ℕ → List ℕ
files_before file [] = []
files_before file (f ∷ files) =
    let earlier = f ∷ files_before file files in if f == file then [] else earlier

module _ {E : Type 0} where
  -- `__init__`, with those of EventStorageWriter and EventStorageReader.
  unfoldable pub init : Config → ℕ → Folder → FileEventStorage E
  unfolding settings init_data_files last_file files_before get_number_of_records_in_file
      read_state_file delete_read_files
  init config now folder =
      let (folder', data_files) = init_data_files now folder in
      let files = get_data_files data_files in
      let position = read_state_file folder'.state data_files in
      delete_read_files (files_before position.file files) (record {
        settings = settings config;
        folder = folder';
        data_files = data_files;
        writer = record {
          current_file = last_file files;
          current_file_records_count = get_number_of_records_in_file (last_file files) folder';
          previous_file_records_count = 0;
        };
        reader = record {
          current_batch = none;
          buffered_reader = none;
          current_pos = position;
          new_pos = position;
          aliased = true;
        };
        stopped = false;
      })

  module _ (codec : Codec E) where
    unfoldable pub put : ℕ → E → FileEventStorage E → FileEventStorage E × Bool
    unfolding write
    put now event s =
        if not s.stopped
        then (elim (write codec now event s) [
          | written s' ↦ (s', true)
          | data_file_count_error ↦ (s, false)
        ])
        else (s, false)

    unfoldable pub get_event_pack : ℕ → FileEventStorage E → Option (FileEventStorage E × List E)
    unfolding read read_loop read_round conclude scan scanned next get_next_file
        get_or_init_buffered_reader
    get_event_pack fuel s = read codec fuel s

  unfoldable pub event_pack_processing_done : FileEventStorage E → FileEventStorage E
  unfolding discard_batch
  event_pack_processing_done s = discard_batch s

  unfoldable pub stop : FileEventStorage E → FileEventStorage E
  stop s = record s { stopped = true }

  unfoldable pub len : FileEventStorage E → ℕ
  len s = length s.data_files
