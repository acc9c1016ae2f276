-- ===== src/Storage/File/Bytes.antt =====
-- The bytes of a data file, read in lines, and the code of an event. The linefeed is byte 10.
pub mod Lines
use thingsboard_gateway.Prelude.{
  ℕ, zero, suc, ◌+◌, List, [], ◌∷◌, ◌++◌, ◌≡◌, ◌≢◌, Bool, true, false, not, Option, none, some,
  ◌==◌, length, is_empty, All, if◌then◌else◌,
}

abbrev pub linesep : ℕ
linesep = 10

-- `b64encode(msg.encode("utf-8"))` and `b64decode(line).decode("utf-8")`, where `none` is an
-- exception.
pub record Codec (E : Type 0) : Type 0 where
  pub encode : E → List ℕ
  pub decode : List ℕ → Option E

-- Base64 text has no linefeed, and decoding skips the linefeed at the end of a line.
pub record IsLineCodec {E : Type 0} (codec : Codec E) : Type 0 where
  pub no_linesep : (e : E) → All (λ b. b ≢ linesep) (codec.encode e)
  pub decode-encode : (e : E) → codec.decode (codec.encode e ++ linesep ∷ []) ≡ some e

-- `readline`: the line with its linefeed, if it has one, and what is left; no byte at the end.
unfoldable pub readline : List ℕ → List ℕ × List ℕ
readline [] = ([], [])
readline (b ∷ bytes) =
    let (line, rest) = readline bytes in if b == linesep then (b ∷ [], bytes) else (b ∷ line, rest)

-- `line.endswith(b'\n')`
unfoldable pub ends_line : List ℕ → Bool
ends_line [] = false
ends_line (b ∷ []) = b == linesep
ends_line (b ∷ c ∷ bytes) = ends_line (c ∷ bytes)

-- The number of lines, one without a linefeed at the end included; the flag says that a line is
-- open.
unfoldable pub count_lines_from : Bool → List ℕ → ℕ
count_lines_from open_line [] = if open_line then 1 else 0
count_lines_from open_line (b ∷ bytes) =
    let ended = b == linesep in (if ended then 1 else 0) + count_lines_from (not ended) bytes

abbrev pub count_lines : List ℕ → ℕ
count_lines = count_lines_from false

-- The skip of `lines_to_skip` lines: the offset that it reaches.
unfoldable pub skip_lines : ℕ → List ℕ → ℕ → ℕ
unfolding readline
skip_lines zero bytes offset = offset
skip_lines (suc n) bytes offset =
    let (line, rest) = readline bytes in
    let further = skip_lines n rest (offset + length line) in
    if is_empty line then offset else further
