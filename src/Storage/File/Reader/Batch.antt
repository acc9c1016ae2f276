-- ===== src/Storage/File/Reader/Batch.antt =====
-- What `read` hands out, where it leaves the reader, and what it deletes.
use thingsboard_gateway.Prelude.{
  ℕ, suc, ◌+◌, ◌-◌, ◌≤◌, ◌<◌, min, List, [], ◌≡◌, ◌≢◌, refl, ap, ◌∙◌, true, false, none, some, ltb,
  length, take, drop, arith, Bool-cases, inl, inr,
}
use thingsboard_gateway.Prelude.Eq.{nat_eq}
use thingsboard_gateway.Prelude.Dict.{remove, has, lookup-remove}
use thingsboard_gateway.Storage.File.Bytes.{Codec, IsLineCodec}
use thingsboard_gateway.Storage.File.State.{
  Reader, FileEventStorage, keys, exists, set_line, confirm_file_processed,
}
use thingsboard_gateway.Storage.File.State.Keys.{length-keys, lookup-insert_sorted}
use thingsboard_gateway.Storage.File.Reader.{
  next, batch_of, get_next_file, delete_read_file, get_or_init_buffered_reader, conclude, read_loop,
  read,
}
use thingsboard_gateway.Storage.File.Reader.Position.{Ahead, file_of, length_of_next, lt_of_next}
use thingsboard_gateway.Storage.File.Reader.Round.{
  taken, after, current_pos-opened, fresh, fresh-Ahead, read_round_lem, folder-after, file_of-after,
  keys-after, reader-after, settings-after, after-Ahead,
}

module _ {E : Type 0} where
  new_pos-next :
      (g : ℕ) (s : FileEventStorage E) → (next g s).reader.new_pos ≡ record { file = g; line = 0 }
  unfolding next get_or_init_buffered_reader
  new_pos-next g s = ground arith

  batch_of-next : (g : ℕ) (s : FileEventStorage E) → batch_of (next g s) ≡ batch_of s
  unfolding next get_or_init_buffered_reader delete_read_file
  batch_of-next g s = ground arith

  folder-next :
      (g : ℕ) (s : FileEventStorage E)
      → (next g s).folder ≡ (delete_read_file s.reader.current_pos.file s).folder
  unfolding next get_or_init_buffered_reader delete_read_file
  folder-next g s = ground arith

  exists-delete_read_file :
      (file : ℕ) (s : FileEventStorage E)
      → 1 < length s.data_files
      → exists file (delete_read_file file s).folder ≡ false
  unfolding delete_read_file
  exists-delete_read_file file s h = ground (arith, lookup-remove file file s.folder.files)

  has-next :
      (file g : ℕ) (s : FileEventStorage E)
      → s.reader.current_pos.file ≡ file
      → file ≢ g
      → has file (next g s).data_files ≡ false
  unfolding next get_or_init_buffered_reader delete_read_file confirm_file_processed
  has-next file g s own other =
      let d = s.data_files in
      ground (
        arith,
        own,
        lookup-remove file file d,
        lookup-insert_sorted g file true (remove file d),
        lookup-insert_sorted g file true d,
      )

  read_loop-zero :
      (codec : Codec E) (fuel : ℕ) (s : FileEventStorage E)
      → read_loop codec (suc fuel) 0 s ≡ some s
  unfolding read_loop
  read_loop-zero codec fuel s = refl

  read-some :
      (codec : Codec E) (fuel : ℕ) (s s' : FileEventStorage E)
      → batch_of s ≡ []
      → read_loop codec fuel s.settings.max_read_records_count (fresh s) ≡ some s'
      → read codec fuel s ≡ some (s', batch_of s')
  unfolding read
  read-some codec fuel s s' empty e = ground arith

module _ {E : Type 0} {codec : Codec E} (law : IsLineCodec codec) where
  module _ (n : ℕ) (s : FileEventStorage E) (es : List E) (a : Ahead codec s es)
      (empty : batch_of s ≡ []) (budget : s.settings.max_read_records_count ≡ suc n) where
    read_loop_lem :
        (fuel : ℕ)
        → read_loop codec (suc fuel) (suc n) (fresh s)
          ≡ conclude codec
              (read_loop codec fuel)
              (taken codec n (fresh s) es)
              (after codec n (fresh s) es)
    unfolding read_loop
    read_loop_lem fuel = read_round_lem law n (fresh s) es (fresh-Ahead a) (read_loop codec fuel)

    read-fresh :
        (fuel : ℕ) (s' : FileEventStorage E)
        → conclude codec
            (read_loop codec fuel)
            (taken codec n (fresh s) es)
            (after codec n (fresh s) es)
          ≡ some s'
        → read codec (suc fuel) s ≡ some (s', batch_of s')
    read-fresh fuel s' e =
        read-some codec (suc fuel) s s' empty
          (ap (λ k. read_loop codec (suc fuel) k (fresh s)) budget ∙ read_loop_lem fuel ∙ e)

    batch_of-after : batch_of (after codec n (fresh s) es) ≡ take (suc n) es
    batch_of-after = ground (arith, reader-after law n (fresh s) es (fresh-Ahead a))

    -- The conclusion of the round when no file follows, on each of its branches.
    conclude_last :
        (fuel : ℕ)
        → get_next_file (keys s.data_files) (file_of s) ≡ none
        → let s' = after codec n (fresh s) es in
          conclude codec (read_loop codec (suc fuel)) (taken codec n (fresh s) es) s' ≡ some s'
    unfolding conclude
    conclude_last fuel last =
        let b = fresh-Ahead a in
        let s' = after codec n (fresh s) es in
        let no_next : get_next_file (keys s'.data_files) (file_of s') ≡ none =
          rw (keys-after law n (fresh s) es b, file_of-after law n (fresh s) es b) last in
        let spent : read_loop codec (suc fuel) 0 s' ≡ some s' = read_loop-zero codec fuel s' in
        elim (Bool-cases (ltb (length es) (suc n))) [
          | inl e ↦ ground (arith, no_next, e)
          | inr e ↦
              let none_left : suc n - length es ≡ 0 = ground arith in
              rw none_left (ground (arith, no_next, spent))
        ]

    -- When the reader stands in the last data file, `read` hands out the next events of that file,
    -- as many as the limit allows and as there are; the folder is as before, and the reader stands
    -- before the events that follow. Two rounds of fuel are enough.
    pub read_last :
        (fuel : ℕ)
        → get_next_file (keys s.data_files) (file_of s) ≡ none
        → (s' : FileEventStorage E) × (read codec (suc (suc fuel)) s ≡ some (s', take (suc n) es))
          × Ahead codec s' (drop (suc n) es)
          × (s'.folder ≡ s.folder)
          × (s'.reader.new_pos.line ≡ s.reader.new_pos.line + min (suc n) (length es))
    unfolding set_line
    read_last fuel last =
        let s' = after codec n (fresh s) es in
        let b = fresh-Ahead a in
        let moved = reader-after law n (fresh s) es b in
        (
          s',
          read-fresh (suc fuel) s' (conclude_last fuel last)
              ∙ ap (λ batch. some (s', batch)) batch_of-after,
          after-Ahead law n (fresh s) es b,
          folder-after law n (fresh s) es b,
          ap (λ (r : Reader E). r.new_pos.line) moved,
        )

    current_after :
        s.reader.current_pos.file ≡ file_of s
        → (after codec n (fresh s) es).reader.current_pos.file ≡ file_of s
    unfolding set_line
    current_after own =
        ground (
          arith,
          reader-after law n (fresh s) es (fresh-Ahead a),
          current_pos-opened (fresh s),
          own,
        )

    conclude-next :
        (fuel g : ℕ)
        → let t = after codec n (fresh s) es in
          get_next_file (keys t.data_files) (file_of t) ≡ some g
          → suc n < length es
          → s.reader.new_pos.line + suc n ≤ s.settings.max_records_per_file
          → conclude codec (read_loop codec (suc fuel)) (taken codec n (fresh s) es) t
            ≡ some (next g t)
    unfolding conclude
    conclude-next fuel g following more fits =
        let t = after codec n (fresh s) es in
        let nothing_left : suc n - length es ≡ 0 = omega arith in
        rw nothing_left (
          ground (
            arith,
            following,
            settings-after law n (fresh s) es (fresh-Ahead a),
            read_loop-zero codec fuel (next g t),
          ))

    -- When a file follows the one that the reader stands in, and the limit is reached before the end
    -- of the file and before its line count passes the limit of records per file, `read` deletes the
    -- file with the events that were not handed out and goes on in the next file.
    pub read_drops :
        (fuel g : ℕ)
        → get_next_file (keys s.data_files) (file_of s) ≡ some g
        → suc n < length es
        → s.reader.new_pos.line + suc n ≤ s.settings.max_records_per_file
        → s.reader.current_pos.file ≡ file_of s
        → (s' : FileEventStorage E) × (read codec (suc (suc fuel)) s ≡ some (s', take (suc n) es))
          × (exists (file_of s) s'.folder ≡ false)
          × (has (file_of s) s'.data_files ≡ false)
          × (s'.reader.new_pos ≡ record { file = g; line = 0 })
    read_drops fuel g following more fits own =
        let b = fresh-Ahead a in
        let t = after codec n (fresh s) es in
        let s' = next g t in
        let same_file = file_of-after law n (fresh s) es b in
        let following' : get_next_file (keys t.data_files) (file_of t) ≡ some g =
          rw (keys-after law n (fresh s) es b, same_file) following in
        let own' : t.reader.current_pos.file ≡ file_of s = current_after own in
        let several : 1 < length t.data_files = omega (
          arith,
          length_of_next (keys t.data_files) (file_of t) g following',
          length-keys t.data_files,
        ) in
        let kept : exists (file_of s) (delete_read_file t.reader.current_pos.file t).folder
            ≡ false =
          ap (λ f. exists (file_of s) (delete_read_file f t).folder) own'
          ∙ exists-delete_read_file (file_of s) t several in
        (
          s',
          read-fresh (suc fuel) s' (conclude-next fuel g following' more fits)
              ∙ ap (λ batch. some (s', batch)) (batch_of-next g t ∙ batch_of-after),
          ap (exists (file_of s)) (folder-next g t) ∙ kept,
          has-next (file_of s) g t own' (λ e.
              absurd
                (omega (arith, lt_of_next (keys s.data_files) (file_of s) g a.sorted following))),
          new_pos-next g t,
        )
