-- ===== src/Storage/File/Reader/Round.antt =====
-- One round of the outer loop of `read` over lines that all decode.
use thingsboard_gateway.Prelude.{
  ℕ, suc, ◌+◌, ◌-◌, min, List, [], ◌++◌, ◌≡◌, refl, sym, ap, ◌∙◌, false, Option, some, ltb, length,
  take, drop, take-append-drop, drop-append, drop-add, arith,
}
use thingsboard_gateway.Prelude.Eq.{nat_eq}
use thingsboard_gateway.Storage.File.Bytes.{Codec, IsLineCodec}
use thingsboard_gateway.Storage.File.Bytes.Lines.{text, text-append}
use thingsboard_gateway.Storage.File.State.{
  Pointer, Handle, FileEventStorage, keys, content, set_line,
}
use thingsboard_gateway.Storage.File.Reader.{
  Scan, scan, scanned, batch_of, get_or_init_buffered_reader, conclude, read_round,
}
use thingsboard_gateway.Storage.File.Reader.InnerLoop.{scan-text}
use thingsboard_gateway.Storage.File.Reader.Position.{
  Ahead, position, file_of, handle_of, opened, get_or_init-opened, folder-opened, new_pos-opened,
  keys-opened,
}

module _ {E : Type 0} where
  -- The inner loop's result over the lines of `es`, for `suc n` records.
  abbrev pub taken : Codec E → ℕ → FileEventStorage E → List E → Scan E
  taken codec n s es = record {
    events = take (suc n) es;
    current_line = s.reader.new_pos.line + min (suc n) (length es);
    set_to = s.reader.new_pos.line + min (suc n) (length es);
    left = suc n - length es;
    offset = position s + length (text codec (take (suc n) es));
    at_end = ltb (length es) (suc n);
    returned = false;
    failed = false;
  }

  unfoldable pub after : Codec E → ℕ → FileEventStorage E → List E → FileEventStorage E
  after codec n s es = scanned (taken codec n s es) (handle_of s) (batch_of (opened s)) (opened s)

  pub keys-scanned :
      (result : Scan E) (h : Handle) (batch : List E) (s : FileEventStorage E)
      → (scanned result h batch s).data_files ≡ s.data_files
  unfolding scanned
  keys-scanned result h batch s = ground arith

  pub file_of-scanned :
      (result : Scan E) (h : Handle) (batch : List E) (s : FileEventStorage E)
      → file_of (scanned result h batch s) ≡ file_of s
  unfolding scanned
  file_of-scanned result h batch s = ground arith

  pub folder-scanned :
      (result : Scan E) (h : Handle) (batch : List E) (s : FileEventStorage E)
      → result.failed ≡ false
      → (scanned result h batch s).folder ≡ s.folder
  unfolding scanned
  folder-scanned result h batch s e = ground arith

  pub reader-scanned :
      (result : Scan E) (h : Handle) (batch : List E) (s : FileEventStorage E)
      → (scanned result h batch s).reader ≡ (
          let moved = set_line result.set_to s.reader in
          record moved {
            current_batch = some (batch ++ result.events);
            buffered_reader = some (record h { offset = result.offset });
          })
  unfolding scanned
  reader-scanned result h batch s = ground arith

  pub settings-scanned :
      (result : Scan E) (h : Handle) (batch : List E) (s : FileEventStorage E)
      → (scanned result h batch s).settings ≡ s.settings
  unfolding scanned
  settings-scanned result h batch s = ground arith

  pub settings-opened : (s : FileEventStorage E) → (opened s).settings ≡ s.settings
  unfolding opened
  settings-opened s = ground arith

  pub batch_of-opened : (s : FileEventStorage E) → batch_of (opened s) ≡ batch_of s
  unfolding opened
  batch_of-opened s = ground arith

  pub current_pos-opened :
      (s : FileEventStorage E) → (opened s).reader.current_pos ≡ s.reader.current_pos
  unfolding opened
  current_pos-opened s = ground arith

  -- The storage with an empty batch, as `read` begins.
  abbrev pub fresh : FileEventStorage E → FileEventStorage E
  fresh s = record s { reader = record s.reader { current_batch = some [] } }

  pub fresh-Ahead :
      {codec : Codec E} {s : FileEventStorage E} {es : List E}
      → Ahead codec s es
      → Ahead codec (fresh s) es
  unfolding position
  fresh-Ahead a = record {
    same_file = a.same_file;
    there = a.there;
    listed = a.listed;
    sorted = a.sorted;
    bytes = a.bytes;
  }

module _ {E : Type 0} {codec : Codec E} (law : IsLineCodec codec) where
  module _ (n : ℕ) (s : FileEventStorage E) (es : List E) (a : Ahead codec s es) where
    pub read_round-some :
        (again : ℕ → FileEventStorage E → Option (FileEventStorage E)) (s1 : FileEventStorage E)
        (h : Handle)
        → get_or_init_buffered_reader s.reader.new_pos s ≡ (s1, some h)
        → let result =
            scan codec
              (suc n)
              (drop h.offset (content h.file s1.folder))
              h.offset
              s1.reader.new_pos.line in
          read_round codec again n s
          ≡ conclude codec again result (scanned result h (batch_of s1) s1)
    unfolding read_round
    read_round-some again s1 h e = rw (read_round, e) (rw e refl)

    -- The outer loop's round over such lines.
    pub read_round_lem :
        (again : ℕ → FileEventStorage E → Option (FileEventStorage E))
        → read_round codec again n s
          ≡ conclude codec again (taken codec n s es) (after codec n s es)
    unfolding after
    read_round_lem again =
        let scan_eq = scan-text law (suc n) es (position s) s.reader.new_pos.line in
        read_round-some again (opened s) (handle_of s) (get_or_init-opened a)
        ∙ rw (folder-opened a, a.bytes, new_pos-opened a, scan_eq) refl

    pub folder-after : (after codec n s es).folder ≡ s.folder
    unfolding after
    folder-after =
        folder-scanned (taken codec n s es) (handle_of s) (batch_of (opened s)) (opened s) refl
        ∙ folder-opened a

    pub file_of-after : file_of (after codec n s es) ≡ file_of s
    unfolding after
    file_of-after =
        file_of-scanned (taken codec n s es) (handle_of s) (batch_of (opened s)) (opened s)
        ∙ ap (λ (p : Pointer). p.file) (new_pos-opened a)

    pub keys-after : keys (after codec n s es).data_files ≡ keys s.data_files
    unfolding after
    keys-after =
        ap keys (keys-scanned (taken codec n s es) (handle_of s) (batch_of (opened s)) (opened s))
        ∙ keys-opened a

    pub reader-after : (after codec n s es).reader ≡ (
        let moved = set_line (s.reader.new_pos.line + min (suc n) (length es)) (opened s).reader in
        record moved {
          current_batch = some (batch_of s ++ take (suc n) es);
          buffered_reader = some (record {
            file = file_of s;
            offset = position s + length (text codec (take (suc n) es));
          });
        })
    unfolding after
    reader-after =
        reader-scanned (taken codec n s es) (handle_of s) (batch_of (opened s)) (opened s)
        ∙ rw (batch_of-opened s)

    pub settings-after : (after codec n s es).settings ≡ s.settings
    unfolding after
    settings-after =
        settings-scanned (taken codec n s es) (handle_of s) (batch_of (opened s)) (opened s)
        ∙ settings-opened s

    -- The text behind the lines that were read.
    pub drop-text :
        (k offset : ℕ) (bytes : List ℕ)
        → drop offset bytes ≡ text codec es
        → drop (offset + length (text codec (take k es))) bytes ≡ text codec (drop k es)
    drop-text k offset bytes h =
        sym (drop-add offset (length (text codec (take k es))) bytes)
        ∙ ap (drop (length (text codec (take k es)))) (
            h
            ∙ ap (text codec) (sym (take-append-drop k es))
            ∙ text-append codec (take k es) (drop k es))
        ∙ drop-append (text codec (take k es)) (text codec (drop k es))

    pub after-Ahead : Ahead codec (after codec n s es) (drop (suc n) es)
    unfolding position
    after-Ahead =
        let offset = position s + length (text codec (take (suc n) es)) in
        record {
          same_file = λ h e. rw file_of-after (ground (arith, reader-after, e));
          there = rw (folder-after, file_of-after) a.there;
          listed = rw (keys-after, file_of-after) a.listed;
          sorted = rw keys-after a.sorted;
          bytes =
              rw (folder-after, file_of-after)
                (rw (reader-after, position) (drop-text (suc n) (position s) _ a.bytes));
        }
