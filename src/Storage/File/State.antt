-- ===== src/Storage/File/State.antt =====
-- The objects of the file storage: FileEventStorageSettings, EventStorageFiles,
-- EventStorageReaderPointer, the fields of the writer and the reader, and the data folder.
-- A data file `data_<ms>.txt` is the number of milliseconds in its name: names of one length, which
-- these have until the year 2286, are sorted as their numbers.
pub mod Keys
use thingsboard_gateway.Prelude.{
  ℕ, zero, suc, ◌+◌, List, [], ◌∷◌, ◌++◌, map, Bool, true, false, not, ◌&&◌, Option, none, some,
  ◌==◌, ltb, length, get_or, is_some, if◌then◌else◌,
}
use thingsboard_gateway.Prelude.Eq.{nat_eq}
use thingsboard_gateway.Prelude.Dict.{Dict, lookup, remove, has}

-- The configuration keys that the class reads; `none` is a key that is not there. The folder is
-- fixed, and its path left out.
pub record Config : Type 0 where
  pub max_file_count : Option ℕ
  pub max_records_per_file : Option ℕ
  pub max_records_between_fsync : Option ℕ
  pub max_read_records_count : Option ℕ

pub record Settings : Type 0 where
  pub max_files_count : ℕ
  pub max_records_per_file : ℕ
  pub max_records_between_fsync : ℕ
  pub max_read_records_count : ℕ

unfoldable pub settings : Config → Settings
settings config = record {
  max_files_count = get_or config.max_file_count 5;
  max_records_per_file = get_or config.max_records_per_file 3;
  max_records_between_fsync = get_or config.max_records_between_fsync 1;
  max_read_records_count = get_or config.max_read_records_count 1000;
}

-- A dict that is only read by key, by its length and through `sorted(keys)` is kept in the order of
-- its keys.
module _ {V : Type 0} where
  unfoldable pub insert_sorted : ℕ → V → Dict ℕ V → Dict ℕ V
  insert_sorted k v [] = (k, v) ∷ []
  insert_sorted k v ((j, w) ∷ d) =
      let rest = insert_sorted k v d in
      if k == j then (k, v) ∷ d else if ltb k j then (k, v) ∷ (j, w) ∷ d else (j, w) ∷ rest

  unfoldable pub keys : Dict ℕ V → List ℕ
  keys [] = []
  keys ((k, v) ∷ d) = k ∷ keys d

pub record Pointer : Type 0 where
  pub file : ℕ
  pub line : ℕ

-- The state file: its JSON is malformed, or an object with the two keys.
pub data StateFile : Type 0 where
  missing : StateFile
  malformed : StateFile
  node : Pointer → StateFile

-- An open BufferedReader, by the offset at which it reads next.
pub record Handle : Type 0 where
  pub file : ℕ
  pub offset : ℕ

pub record Writer : Type 0 where
  pub current_file : ℕ
  pub current_file_records_count : ℕ
  pub previous_file_records_count : ℕ

-- `buffered_reader` is `none` also for a reader that is closed. `aliased` says that `current_pos`
-- and `new_pos` are one object, so that `set_line` moves both.
pub record Reader (E : Type 0) : Type 0 where
  pub current_batch : Option (List E)
  pub buffered_reader : Option Handle
  pub current_pos : Pointer
  pub new_pos : Pointer
  pub aliased : Bool

-- The data folder, as bytes by file, and the state file.
pub record Folder : Type 0 where
  pub files : Dict ℕ (List ℕ)
  pub state : StateFile

pub record FileEventStorage (E : Type 0) : Type 0 where
  pub settings : Settings
  pub folder : Folder
  pub data_files : Dict ℕ Bool
  pub writer : Writer
  pub reader : Reader E
  pub stopped : Bool

-- EventStorageFiles
abbrev pub get_data_files : Dict ℕ Bool → List ℕ
get_data_files = keys

unfoldable pub add_data_file : ℕ → Dict ℕ Bool → Dict ℕ Bool
unfolding insert_sorted
add_data_file file data_files = insert_sorted file false data_files

unfoldable pub confirm_file_processed : ℕ → Dict ℕ Bool → Dict ℕ Bool
unfolding insert_sorted
confirm_file_processed file data_files = insert_sorted file true data_files

-- `exists(path)`
abbrev pub exists : ℕ → Folder → Bool
exists file folder = has file folder.files

-- What a reader of the file finds; no byte where there is no such file.
abbrev pub content : ℕ → Folder → List ℕ
content file folder = get_or (lookup file folder.files) []

module _ {E : Type 0} where
  -- `new_pos.set_line`
  unfoldable pub set_line : ℕ → Reader E → Reader E
  set_line n r = record r {
    new_pos = record r.new_pos { line = n };
    current_pos = if r.aliased then record r.current_pos { line = n } else r.current_pos;
  }
