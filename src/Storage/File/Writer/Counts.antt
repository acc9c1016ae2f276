-- ===== src/Storage/File/Writer/Counts.antt =====
-- The count of records that the writer keeps of the current file.
use thingsboard_gateway.Prelude.{
  ℕ, ◌≤◌, ◌<◌, List, [], ◌∷◌, ◌++◌, ◌≡◌, refl, sym, ap, ◌∙◌, true, false, length, length-append,
  if◌then◌else◌, arith, Bool-cases, inl, inr,
}
use thingsboard_gateway.Prelude.Eq.{nat_eq}
use thingsboard_gateway.Storage.File.Bytes.{Codec}
use thingsboard_gateway.Storage.File.Bytes.Lines.{line_of, text, text-snoc}
use thingsboard_gateway.Storage.File.State.{Settings, FileEventStorage, content}
use thingsboard_gateway.Storage.File.Writer.{written, rolls, roll, write}
use thingsboard_gateway.Storage.File.Writer.Append.{
  content-roll, settings-roll, write-content, written-current, written-count, written-settings,
}

module _ {E : Type 0} where
  -- The current file holds the lines of `es`, is not over the limit, and is counted right.
  pub record IsCounted (codec : Codec E) (s : FileEventStorage E) (es : List E) : Type 0 where
    pub bytes : content s.writer.current_file s.folder ≡ text codec es
    pub counted : s.writer.current_file_records_count ≡ length es
    pub within : length es ≤ s.settings.max_records_per_file

  roll-full :
      (now : ℕ) (s : FileEventStorage E)
      → rolls s ≡ true
      → ((roll now s).writer.current_file ≡ now)
        × ((roll now s).writer.current_file_records_count ≡ 0)
  unfolding roll
  roll-full now s h = rw h (refl, refl)

  roll-room : (now : ℕ) (s : FileEventStorage E) → rolls s ≡ false → roll now s ≡ s
  unfolding roll
  roll-room now s h = rw h

  module _ (codec : Codec E) (now : ℕ) (s : FileEventStorage E) (es : List E) where
    -- What holds of the current file between the roll and the append.
    record HasRoom (t : FileEventStorage E) (es' : List E) : Type 0 where
      bytes : content t.writer.current_file t.folder ≡ text codec es'
      counted : t.writer.current_file_records_count ≡ length es'
      room : length es' < t.settings.max_records_per_file

    roll-HasRoom :
        1 ≤ s.settings.max_records_per_file
        → content now s.folder ≡ []
        → IsCounted codec s es
        → HasRoom (roll now s) (if rolls s then [] else es)
    unfolding text
    roll-HasRoom room new c = elim (Bool-cases (rolls s)) [
      | inl h ↦
          let (current, counted) = roll-full now s h in
          rw h (record {
            bytes = rw current (content-roll now now s ∙ new);
            counted = counted;
            room = omega (arith, settings_max);
          })
      | inr h ↦
          rw (h, roll-room now s h)
            (record { bytes = c.bytes; counted = c.counted; room = ground (arith, c.counted, h) })
    ]
      where
        settings_max : (roll now s).settings.max_records_per_file ≡ s.settings.max_records_per_file
        settings_max = ap (λ (x : Settings). x.max_records_per_file) (settings-roll now s)

    -- A successful `write` at a time that names no file with bytes keeps the current file a list of
    -- lines, right in its count and within the limit of records: the event begins a new file if the
    -- old one is full or missing, and follows the events of the old one otherwise.
    pub write-IsCounted :
        (msg : E) {s' : FileEventStorage E}
        → 1 ≤ s.settings.max_records_per_file
        → content now s.folder ≡ []
        → IsCounted codec s es
        → write codec now msg s ≡ written s'
        → IsCounted codec s' ((if rolls s then [] else es) ++ msg ∷ [])
    write-IsCounted msg {s'} room new c h =
        let t = roll now s in
        let es' = if rolls s then [] else es in
        let r = roll-HasRoom room new c in
        let (appended, _) = write-content codec now msg s h in
        let current = written-current codec now msg s h in
        record {
          bytes =
              appended
              ∙ ap (λ f. content f s.folder ++ line_of codec msg) current
              ∙ ap (λ c. c ++ line_of codec msg)
                  (sym (content-roll now t.writer.current_file s) ∙ r.bytes)
              ∙ sym (text-snoc codec es' msg);
          counted =
              written-count codec now msg s h
              ∙ omega (arith, r.counted, length-append es' (msg ∷ []));
          within =
              let max =
                ap (λ (x : Settings). x.max_records_per_file)
                  (written-settings codec now msg s h) in
              omega (arith, r.room, length-append es' (msg ∷ []), max);
        }
