-- ===== src/Storage/File/Examples.antt =====
-- Runs of the file storage.
use thingsboard_gateway.Prelude.{
  ℕ, ◌+◌, ◌-◌, ◌≤◌, ◌<◌, List, [], ◌∷◌, ◌++◌, ◌≡◌, ◌≢◌, refl, true, false, Option, none, some, ◌⊎◌,
  length, if◌then◌else◌, arith,
}
use thingsboard_gateway.Prelude.Eq.{nat_eq}
use thingsboard_gateway.Prelude.Dict.{lookup, remove, has}
use thingsboard_gateway.Storage.File.Bytes.{Codec, IsLineCodec, readline}
use thingsboard_gateway.Storage.File.Bytes.Lines.{line_of, text}
use thingsboard_gateway.Storage.File.State.{
  Config, Folder, FileEventStorage, missing, keys, exists, content,
}
use thingsboard_gateway.Storage.File.Facade.{
  init, put, get_event_pack, event_pack_processing_done, len,
}
use thingsboard_gateway.Storage.File.Writer.{write, written, data_file_count_error, rolls}
use thingsboard_gateway.Storage.File.Writer.Append.{write_bound, write-content}
use thingsboard_gateway.Storage.File.Writer.Counts.{IsCounted, write-IsCounted}
use thingsboard_gateway.Storage.File.Reader.{batch_of, read, discard_batch, read_state_file}
use thingsboard_gateway.Storage.File.Reader.Position.{Ahead, position, file_of}
use thingsboard_gateway.Storage.File.Reader.Batch.{read_last, read_drops}
use thingsboard_gateway.Storage.File.Reader.Restart.{restart}

program : Unit {0}
unfolding init put get_event_pack event_pack_processing_done len readline lookup remove
program = tt

decode_line : List ℕ → Option ℕ
decode_line (b ∷ c ∷ []) = some (b - 11)
decode_line _ = none

abbrev codec : Codec ℕ
codec = record { encode = λ n. (n + 11) ∷ []; decode = decode_line }

abbrev config : Config
config = record {
  max_file_count = none;
  max_records_per_file = none;
  max_records_between_fsync = none;
  max_read_records_count = some 2;
}

abbrev nothing : Folder
nothing = record { files = []; state = missing }

abbrev filled : FileEventStorage ℕ
filled =
    (put codec 104 4
      (put codec 103 3 (put codec 102 2 (put codec 101 1 (init config 100 nothing)).0).0).0).0

filled_files :
    filled.folder.files ≡ (100, 12 ∷ 10 ∷ 13 ∷ 10 ∷ 14 ∷ 10 ∷ []) ∷ (104, 15 ∷ 10 ∷ []) ∷ []
unfolding program
filled_files = refl

-- A pack of two out of three events in the first file: the next file is read from, and the third
-- event's file is gone from the folder.
pack_drops_an_event :
    elim (get_event_pack codec 9 filled) as (λ _. Option (List ℕ × List ℕ)) [
      | none ↦ none
      | some (s, pack) ↦ some (pack, keys s.folder.files)
    ]
    ≡ some (1 ∷ 2 ∷ [], 104 ∷ [])
unfolding program decode_line
pack_drops_an_event = refl

codec-IsLineCodec : IsLineCodec codec
unfolding decode_line
codec-IsLineCodec = record {
  no_linesep = λ e. (omega arith, tt);
  decode-encode = λ e. ground arith;
}

filled-Ahead : Ahead codec filled (1 ∷ 2 ∷ 3 ∷ [])
unfolding program position text line_of
filled-Ahead = record {
  same_file = λ h e. cc;
  there = refl;
  listed = refl;
  sorted = omega arith;
  bytes = refl;
}

read_drops_example :
    (s : FileEventStorage ℕ) × (read codec 2 filled ≡ some (s, 1 ∷ 2 ∷ []))
    × (exists 100 s.folder ≡ false)
    × (has 100 s.data_files ≡ false)
    × (s.reader.new_pos ≡ record { file = 104; line = 0 })
unfolding program
read_drops_example =
    read_drops codec-IsLineCodec 1 filled (1 ∷ 2 ∷ 3 ∷ []) filled-Ahead refl refl 0 104 refl
      (omega arith) (omega arith) refl

-- Three events, one file.
abbrev short : FileEventStorage ℕ
short = (put codec 103 3 (put codec 102 2 (put codec 101 1 (init config 100 nothing)).0).0).0

short-Ahead : Ahead codec short (1 ∷ 2 ∷ 3 ∷ [])
unfolding program position text line_of
short-Ahead = record {
  same_file = λ h e. cc;
  there = refl;
  listed = refl;
  sorted = omega arith;
  bytes = refl;
}

read_last_example :
    (s : FileEventStorage ℕ) × (read codec 2 short ≡ some (s, 1 ∷ 2 ∷ []))
    × Ahead codec s (3 ∷ [])
    × (s.folder ≡ short.folder)
    × (s.reader.new_pos.line ≡ 2)
unfolding program
read_last_example =
    read_last codec-IsLineCodec 1 short (1 ∷ 2 ∷ 3 ∷ []) short-Ahead refl refl 0 refl

abbrev unconfirmed : FileEventStorage ℕ
unconfirmed = record short { reader = record short.reader { current_batch = some (1 ∷ []) } }

restart_example :
    let s' = discard_batch unconfirmed in
    (read_state_file s'.folder.state s'.data_files ≡ unconfirmed.reader.new_pos)
    × (has (file_of unconfirmed) s'.data_files ≡ true)
    × (content (file_of unconfirmed) s'.folder ≡ content (file_of unconfirmed) unconfirmed.folder)
    × (batch_of s' ≡ [])
unfolding program
restart_example = restart unconfirmed refl

write_bound_example :
    ((5 < length short.data_files) × (write codec 104 4 short ≡ data_file_count_error))
    ⊎ ((s' : FileEventStorage ℕ) × (length short.data_files ≤ 5)
        × (write codec 104 4 short ≡ written s')
        × (length s'.data_files ≤ 6))
unfolding program
write_bound_example = write_bound codec 104 4 short

write_in_short_file : write codec 104 4 short ≡ written filled
unfolding program
write_in_short_file = refl

write-content_example :
    (content filled.writer.current_file filled.folder
      ≡ content filled.writer.current_file short.folder ++ line_of codec 4)
    × ((j : ℕ) → j ≢ filled.writer.current_file → content j filled.folder ≡ content j short.folder)
write-content_example = write-content codec 104 4 short write_in_short_file

short-IsCounted : IsCounted codec short (1 ∷ 2 ∷ 3 ∷ [])
unfolding program text line_of
short-IsCounted = record { bytes = refl; counted = refl; within = omega arith }

write-IsCounted_example :
    IsCounted codec filled ((if rolls short then [] else 1 ∷ 2 ∷ 3 ∷ []) ++ 4 ∷ [])
unfolding program
write-IsCounted_example =
    write-IsCounted codec 104 short (1 ∷ 2 ∷ 3 ∷ []) 4 (omega arith) refl short-IsCounted
      write_in_short_file
