-- ===== src/Storage/File/Reader/InnerLoop.antt =====
-- The inner loop of `read` over lines that all decode.
use thingsboard_gateway.Prelude.{
  ℕ, zero, suc, ◌+◌, ◌-◌, min, List, [], ◌∷◌, ◌++◌, ◌≡◌, ◌≢◌, refl, ◌∙◌, true, false, none, All,
  ltb, length, length-append, take, is_empty, arith,
}
use thingsboard_gateway.Storage.File.Bytes.{Codec, IsLineCodec, readline, ends_line, linesep}
use thingsboard_gateway.Storage.File.Bytes.Lines.{
  line_of, text, readline-line, is_empty-line, ends_line-line, readline-line_of, is_empty-line_of,
  ends_line-line_of, decode-line_of,
}
use thingsboard_gateway.Storage.File.Reader.{Scan, scan_round, scan}

module _ {E : Type 0} {codec : Codec E} (law : IsLineCodec codec) where
  scan_round-line_of :
      (n : ℕ) (e : E) (skipped : List ℕ) (offset line : ℕ) (further : Scan E)
      → scan_round codec n (line_of codec e) skipped offset line further
        ≡ record further { events = e ∷ further.events }
  unfolding scan_round
  scan_round-line_of n e skipped offset line further =
      rw (is_empty-line_of law e, ends_line-line_of law e) (rw (decode-line_of law e) refl)

  scan-suc :
      (n : ℕ) (bytes : List ℕ) (offset line : ℕ)
      → scan codec (suc n) bytes offset line
        ≡ scan_round codec n
            (readline bytes).0
            (readline (readline bytes).1).0
            offset
            line
            (scan codec n (readline bytes).1 (offset + length (readline bytes).0) (line + 1))
  unfolding scan
  scan-suc n bytes offset line = refl

  scan_round-none :
      (n : ℕ) (first skipped : List ℕ) (offset line : ℕ) (further : Scan E)
      → is_empty first ≡ false
      → ends_line first ≡ true
      → codec.decode first ≡ none
      → scan_round codec n first skipped offset line further ≡ record {
        events = [];
        current_line = line + 2;
        set_to = line + 1;
        left = suc n;
        offset = offset + length first + length skipped;
        at_end = is_empty skipped;
        returned = false;
        failed = true;
      }
  unfolding scan_round
  scan_round-none n first skipped offset line further some_byte ended undecoded = ground arith

  -- One round of the inner loop.
  scan_step :
      (n : ℕ) (e : E) (es : List E) (offset line : ℕ)
      → let further = scan codec n (text codec es) (offset + length (line_of codec e)) (line + 1) in
        scan codec (suc n) (text codec (e ∷ es)) offset line
        ≡ record further { events = e ∷ further.events }
  unfolding text
  scan_step n e es offset line =
      scan-suc n (text codec (e ∷ es)) offset line
      ∙ rw (readline-line_of law e (text codec es)) (scan_round-line_of n e _ offset line _)

  scan-text_zero :
      (es : List E) (offset line : ℕ)
      → scan codec 0 (text codec es) offset line ≡ record {
        events = [];
        current_line = line;
        set_to = line;
        left = 0;
        offset = offset;
        at_end = false;
        returned = false;
        failed = false;
      }
  unfolding scan
  scan-text_zero es offset line = refl

  scan-text_nil :
      (n offset line : ℕ)
      → scan codec (suc n) (text codec []) offset line ≡ record {
        events = [];
        current_line = line;
        set_to = line;
        left = suc n;
        offset = offset;
        at_end = true;
        returned = false;
        failed = false;
      }
  unfolding scan text
  scan-text_nil n offset line = refl

  -- The inner loop takes as many events as it may and as there are.
  pub scan-text :
      (n : ℕ) (es : List E) (offset line : ℕ)
      → scan codec n (text codec es) offset line ≡ record {
        events = take n es;
        current_line = line + min n (length es);
        set_to = line + min n (length es);
        left = n - length es;
        offset = offset + length (text codec (take n es));
        at_end = ltb (length es) n;
        returned = false;
        failed = false;
      }
  unfolding text
  scan-text zero es offset line = ground (arith, scan-text_zero es offset line)
  scan-text (suc n) [] offset line = ground (arith, scan-text_nil n offset line)
  scan-text (suc n) (e ∷ es) offset line =
      let rest = scan-text n es (offset + length (line_of codec e)) (line + 1) in
      ground (
        arith,
        scan_step n e es offset line,
        rest,
        length-append (line_of codec e) (text codec (take n es)),
      )

  -- A line that is not decoded takes the event of the next line with it: the loop ends with no
  -- event, and the reader stands behind both lines, while `new_pos` is set behind the first one only.
  scan_undecodable :
      (n : ℕ) (bad : List ℕ) (e : E) (es : List E) (offset line : ℕ)
      → All (λ b. b ≢ linesep) bad
      → codec.decode (bad ++ linesep ∷ []) ≡ none
      → scan codec (suc n) ((bad ++ linesep ∷ []) ++ text codec (e ∷ es)) offset line ≡ record {
        events = [];
        current_line = line + 2;
        set_to = line + 1;
        left = suc n;
        offset = offset + length (bad ++ linesep ∷ []) + length (line_of codec e);
        at_end = false;
        returned = false;
        failed = true;
      }
  unfolding text
  scan_undecodable n bad e es offset line plain undecoded =
      let first = bad ++ linesep ∷ [] in
      scan-suc n (first ++ text codec (e ∷ es)) offset line
      ∙ rw (readline-line bad (text codec (e ∷ es)) plain) (
          rw (readline-line_of law e (text codec es)) (
            scan_round-none n first (line_of codec e) offset line _ (is_empty-line bad)
              (ends_line-line bad) undecoded
            ∙ rw (is_empty-line_of law e)))
