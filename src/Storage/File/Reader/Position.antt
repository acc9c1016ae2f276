-- ===== src/Storage/File/Reader/Position.antt =====
-- Where the reader stands, and what opening and moving it do.
use thingsboard_gateway.Prelude.{
  ℕ, ◌<◌, List, [], ◌∷◌, ◌≡◌, true, none, some, ◌==◌, length, drop, arith, Option-cases, Bool-cases,
  inl, inr,
}
use thingsboard_gateway.Prelude.Eq.{nat_eq}
use thingsboard_gateway.Storage.File.Bytes.{Codec, skip_lines}
use thingsboard_gateway.Storage.File.Bytes.Lines.{text}
use thingsboard_gateway.Storage.File.State.{
  Handle, FileEventStorage, keys, confirm_file_processed, exists, content,
}
use thingsboard_gateway.Storage.File.State.Keys.{IsSorted, member, keys-insert_sorted}
use thingsboard_gateway.Storage.File.Reader.{get_next_file, get_or_init_buffered_reader}

pub length_of_next :
    (files : List ℕ) (file g : ℕ) → get_next_file files file ≡ some g → 1 < length files
unfolding get_next_file
length_of_next [] file g h = cc
length_of_next (f ∷ []) file g h = cc
length_of_next (f ∷ f' ∷ files) file g h = omega arith

pub lt_of_next :
    (files : List ℕ) (file g : ℕ) → IsSorted files → get_next_file files file ≡ some g → file < g
unfolding get_next_file
lt_of_next [] file g h e = cc
lt_of_next (f ∷ []) file g h e = cc
lt_of_next (f ∷ f' ∷ files) file g h e = elim (Bool-cases (f == file)) [
  | inl same ↦ ground (arith, h.0.0)
  | inr other ↦ lt_of_next (f' ∷ files) file g h.1 (ground arith)
]

module _ {E : Type 0} where
  -- The offset at which the reader stands, or would after it is opened.
  unfoldable pub position : FileEventStorage E → ℕ
  position s = elim s.reader.buffered_reader [
    | none ↦ skip_lines s.reader.new_pos.line (content s.reader.new_pos.file s.folder) 0
    | some h ↦ h.offset
  ]

  abbrev pub file_of : FileEventStorage E → ℕ
  file_of s = s.reader.new_pos.file

  abbrev pub handle_of : FileEventStorage E → Handle
  handle_of s = record { file = file_of s; offset = position s }

  -- The storage after `get_or_init_buffered_reader(self.new_pos)`.
  unfoldable pub opened : FileEventStorage E → FileEventStorage E
  unfolding position
  opened s = elim s.reader.buffered_reader [
    | none ↦ record s {
      data_files = confirm_file_processed (file_of s) s.data_files;
      reader = record s.reader { buffered_reader = some (handle_of s) };
    }
    | some h ↦ s
  ]

  -- The reader stands before the lines of `es`, in a file that is there.
  pub record Ahead (codec : Codec E) (s : FileEventStorage E) (es : List E) : Type 0 where
    pub same_file : (h : Handle) → s.reader.buffered_reader ≡ some h → h.file ≡ file_of s
    pub there : exists (file_of s) s.folder ≡ true
    pub listed : member (file_of s) (keys s.data_files) ≡ true
    pub sorted : IsSorted (keys s.data_files)
    pub bytes : drop (position s) (content (file_of s) s.folder) ≡ text codec es

  module _ {codec : Codec E} {s : FileEventStorage E} {es : List E} (a : Ahead codec s es) where
    pub get_or_init-opened :
        get_or_init_buffered_reader s.reader.new_pos s ≡ (opened s, some (handle_of s))
    unfolding get_or_init_buffered_reader opened
    get_or_init-opened = elim (Option-cases s.reader.buffered_reader) [
      | inl e ↦ ground (arith, a.there)
      | inr (h, e) ↦ ground (arith, a.same_file h e)
    ]

    pub folder-opened : (opened s).folder ≡ s.folder
    unfolding opened
    folder-opened = ground arith

    pub new_pos-opened : (opened s).reader.new_pos ≡ s.reader.new_pos
    unfolding opened
    new_pos-opened = ground arith

    pub keys-opened : keys (opened s).data_files ≡ keys s.data_files
    unfolding opened confirm_file_processed
    keys-opened = ground (arith, keys-insert_sorted (file_of s) true s.data_files a.sorted a.listed)
