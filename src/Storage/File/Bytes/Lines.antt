-- ===== src/Storage/File/Bytes/Lines.antt =====
-- The bytes of a list of events, a line for each.
use thingsboard_gateway.Prelude.{
  ℕ, suc, ◌+◌, List, [], ◌∷◌, ◌++◌, ◌≡◌, ◌≢◌, refl, sym, ap, ◌∙◌, append_assoc, append-nil, Bool,
  true, false, not, some, ◌==◌, length, length-append, is_empty, All, arith,
}
use thingsboard_gateway.Storage.File.Bytes.{
  linesep, Codec, IsLineCodec, readline, ends_line, count_lines, count_lines_from, skip_lines,
}

module _ {E : Type 0} (codec : Codec E) where
  unfoldable pub line_of : E → List ℕ
  line_of e = codec.encode e ++ linesep ∷ []

  unfoldable pub text : List E → List ℕ
  text [] = []
  text (e ∷ es) = line_of e ++ text es

  pub text-append : (xs ys : List E) → text (xs ++ ys) ≡ text xs ++ text ys
  unfolding text
  text-append [] ys = refl
  text-append (x ∷ xs) ys =
      ap (λ t. line_of x ++ t) (text-append xs ys)
      ∙ sym (append_assoc (line_of x) (text xs) (text ys))

  pub text-snoc : (es : List E) (e : E) → text (es ++ e ∷ []) ≡ text es ++ line_of e
  unfolding text
  text-snoc es e = text-append es (e ∷ []) ∙ ap (λ l. text es ++ l) (append-nil (line_of e))

module _ where
  -- The first line of bytes that begin with text free of linefeeds and a linefeed.
  pub readline-line :
      (bytes rest : List ℕ)
      → All (λ b. b ≢ linesep) bytes
      → readline ((bytes ++ linesep ∷ []) ++ rest) ≡ (bytes ++ linesep ∷ [], rest)
  unfolding readline
  readline-line [] rest h = refl
  readline-line (b ∷ bytes) rest h = rw (readline-line bytes rest h.1) (ground arith)

  pub ends_line-line : (bytes : List ℕ) → ends_line (bytes ++ linesep ∷ []) ≡ true
  unfolding ends_line
  ends_line-line [] = refl
  ends_line-line (b ∷ []) = refl
  ends_line-line (b ∷ c ∷ bytes) = ends_line-line (c ∷ bytes)

  pub is_empty-line : (bytes : List ℕ) → is_empty (bytes ++ linesep ∷ []) ≡ false
  is_empty-line [] = refl
  is_empty-line (b ∷ bytes) = refl

  count_lines_from-line :
      (open_line : Bool) (bytes rest : List ℕ)
      → All (λ b. b ≢ linesep) bytes
      → count_lines_from open_line ((bytes ++ linesep ∷ []) ++ rest) ≡ suc (count_lines rest)
  unfolding count_lines_from
  count_lines_from-line open_line [] rest h = omega arith
  count_lines_from-line open_line (b ∷ bytes) rest h =
      rw (count_lines_from-line (not (b == linesep)) bytes rest h.1) (ground arith)

module _ {E : Type 0} {codec : Codec E} (law : IsLineCodec codec) where
  pub readline-line_of :
      (e : E) (rest : List ℕ) → readline (line_of codec e ++ rest) ≡ (line_of codec e, rest)
  unfolding line_of
  readline-line_of e rest = readline-line (codec.encode e) rest (law.no_linesep e)

  pub is_empty-line_of : (e : E) → is_empty (line_of codec e) ≡ false
  unfolding line_of
  is_empty-line_of e = is_empty-line (codec.encode e)

  pub ends_line-line_of : (e : E) → ends_line (line_of codec e) ≡ true
  unfolding line_of
  ends_line-line_of e = ends_line-line (codec.encode e)

  pub decode-line_of : (e : E) → codec.decode (line_of codec e) ≡ some e
  unfolding line_of
  decode-line_of e = law.decode-encode e

  -- The file of a list of events has a line for each.
  pub count_lines-text : (es : List E) → count_lines (text codec es) ≡ length es
  unfolding text count_lines_from line_of
  count_lines-text [] = refl
  count_lines-text (e ∷ es) =
      count_lines_from-line false (codec.encode e) (text codec es) (law.no_linesep e)
      ∙ ap suc (count_lines-text es)

  -- Skipping as many lines as there are events before goes to the end of their text.
  pub skip_lines-text :
      (es : List E) (rest : List ℕ) (offset : ℕ)
      → skip_lines (length es) (text codec es ++ rest) offset ≡ offset + length (text codec es)
  unfolding skip_lines text
  skip_lines-text [] rest offset = omega arith
  skip_lines-text (e ∷ es) rest offset =
      let grouped = append_assoc (line_of codec e) (text codec es) rest in
      rw (grouped, readline-line_of e (text codec es ++ rest), is_empty-line_of e)
        (skip_lines-text es rest (offset + length (line_of codec e))
          ∙ omega (arith, length-append (line_of codec e) (text codec es)))
