-- ===== src/Storage/File/Reader/Restart.antt =====
-- What outlives a batch: the batch until it is discarded, and the position after that.
use thingsboard_gateway.Prelude.{
  ℕ, List, [], ◌∷◌, ◌≡◌, ◌≢◌, refl, ap, ◌∙◌, true, false, none, some, ◌==◌, take, if◌then◌else◌,
  arith, is_some, get_or, leb, ◌-◌,
}
use thingsboard_gateway.Prelude.Eq.{nat_eq}
use thingsboard_gateway.Prelude.Dict.{lookup, has, lookup-remove}
use thingsboard_gateway.Storage.File.Bytes.{Codec}
use thingsboard_gateway.Storage.File.State.{Pointer, Reader, node, FileEventStorage, keys, content}
use thingsboard_gateway.Storage.File.State.Keys.{member}
use thingsboard_gateway.Storage.File.Reader.{
  batch_of, read, delete_read_file, delete_read_files, processed_index, discard_batch,
  read_state_file,
}
use thingsboard_gateway.Storage.File.Reader.Position.{file_of}

-- The files that are removed come before the reader's file.
member-processed :
    (files : List ℕ) (previous current : ℕ)
    → member current (take (processed_index files previous current) files) ≡ false
unfolding processed_index
member-processed [] previous current = refl
member-processed (f ∷ []) previous current = refl
member-processed (f ∷ g ∷ files) previous current =
    ground (arith, member-processed (g ∷ files) previous current)

module _ {E : Type 0} where
  -- A batch that was not discarded is handed out again, and nothing changes.
  read_again :
      (codec : Codec E) (fuel : ℕ) (s : FileEventStorage E)
      → batch_of s ≢ []
      → read codec fuel s ≡ some (s, batch_of s)
  unfolding read
  read_again codec fuel s h = ground arith

  -- A file is there, and with these bytes, in the dict and in the folder.
  record Keeps (file : ℕ) (s s' : FileEventStorage E) : Type 0 where
    listed : lookup file s'.data_files ≡ lookup file s.data_files
    stored : lookup file s'.folder.files ≡ lookup file s.folder.files
    state : s'.folder.state ≡ s.folder.state
    reader : s'.reader ≡ s.reader

  delete_read_file-Keeps :
      (file other : ℕ) (s : FileEventStorage E)
      → (other == file) ≡ false
      → Keeps file s (delete_read_file other s)
  unfolding delete_read_file
  delete_read_file-Keeps file other s h = record {
    listed = ground (arith, lookup-remove other file s.data_files, h);
    stored = ground (arith, lookup-remove other file s.folder.files, h);
    state = ground arith;
    reader = refl;
  }

  delete_read_files-Keeps :
      (file : ℕ) (files : List ℕ) (s : FileEventStorage E)
      → member file files ≡ false
      → Keeps file s (delete_read_files files s)
  unfolding delete_read_files
  delete_read_files-Keeps file [] s h = record {
    listed = refl;
    stored = refl;
    state = refl;
    reader = refl;
  }
  delete_read_files-Keeps file (other ∷ files) s h =
      let first = delete_read_file-Keeps file other s (ground arith) in
      let later = delete_read_files-Keeps file files (delete_read_file other s) (ground arith) in
      record {
        listed = later.listed ∙ first.listed;
        stored = later.stored ∙ first.stored;
        state = later.state ∙ first.state;
        reader = later.reader ∙ first.reader;
      }

  read_state_file-node :
      (pointer : Pointer) (s : FileEventStorage E)
      → s.folder.state ≡ node pointer
      → has pointer.file s.data_files ≡ true
      → read_state_file s.folder.state s.data_files ≡ pointer
  unfolding read_state_file
  read_state_file-node pointer s e h = rw e (ground (arith, h))

  -- The storage as `discard_batch` leaves it before the processed files are removed.
  discarded : FileEventStorage E → FileEventStorage E
  discarded s =
      let r = s.reader in
      record s {
        folder = record s.folder { state = node r.new_pos };
        reader = record r {
          buffered_reader =
              if leb (s.settings.max_records_per_file - 1) r.current_pos.line
              then none
              else r.buffered_reader;
          current_pos = r.new_pos;
          aliased = true;
          current_batch = none;
        };
      }

  discard_batch-discarded :
      (s : FileEventStorage E)
      → let files = keys (discarded s).data_files in
        discard_batch s
        ≡ delete_read_files
            (take (processed_index files s.reader.current_pos.file (file_of s)) files)
            (discarded s)
  unfolding discard_batch discarded
  discard_batch-discarded s = refl

  -- After a batch is discarded the state file holds the reader's position, so a reader made from it
  -- begins there if the reader's file was listed; the reader's file is listed and holds the same
  -- bytes as before, and no batch is left.
  pub restart :
      (s : FileEventStorage E)
      → has (file_of s) s.data_files ≡ true
      → let s' = discard_batch s in
        (read_state_file s'.folder.state s'.data_files ≡ s.reader.new_pos)
        × (has (file_of s) s'.data_files ≡ true)
        × (content (file_of s) s'.folder ≡ content (file_of s) s.folder)
        × (batch_of s' ≡ [])
  unfolding discarded
  restart s h =
      let m = discarded s in
      let files = keys m.data_files in
      let previous = s.reader.current_pos.file in
      let gone = take (processed_index files previous (file_of s)) files in
      let s' = delete_read_files gone m in
      let same : discard_batch s ≡ s' = discard_batch-discarded s in
      let k =
        delete_read_files-Keeps (file_of s) gone m (member-processed files previous (file_of s)) in
      let listed : has (file_of s) s'.data_files ≡ true = ap is_some k.listed ∙ h in
      rw same (
        read_state_file-node s.reader.new_pos s' k.state listed,
        listed,
        ap (λ o. get_or o []) k.stored,
        ap (λ (r : Reader E). get_or r.current_batch []) k.reader,
      )
