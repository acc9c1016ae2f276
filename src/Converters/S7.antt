-- ===== src/Converters/S7.antt =====
-- thingsboard_gateway/connectors/s7: what the two converters of the S7 connector share, the names
-- of the data types, and what they use of snap7 and of Python's floats and dates.
pub mod Downlink
pub mod Request
pub mod Uplink
pub mod Dates
pub mod Integers
pub mod Texts
pub mod Widths
pub mod Sizes
pub mod Tags
use thingsboard_gateway.Prelude.{
  ℕ, ◌+◌, ◌-◌, ◌*◌, List, [], ◌∷◌, Bool, false, ◌||◌, ◌&&◌, Option, none, some, String, length,
  take, leb, if◌then◌else◌,
}
use thingsboard_gateway.Prelude.Int.{ℤ}
use thingsboard_gateway.Entities.Strategy.{codes, text_eq}
use thingsboard_gateway.Converters.Bytes.{Bytes}

abbrev pub Text : Type 0
Text = List ℕ

-- `config`, its defaults filled in. `data_type` is the text behind `str`, `lower` and `strip`, and
-- `bit` is the value of `bit` or of `bitIndex`.
pub record Config : Type 0 where
  pub data_type : Text
  pub offset : ℕ
  pub bit : ℕ
  pub size : ℕ
  pub max_length : Option ℕ

pub data Kind : Type 0 where
  bool usint sint int uint dint udint real lreal string char wchar lint ulint time ltime tod ltod
        date dt ldt dtl fstring raw unsupported :
      Kind

unfoldable pub one_of : Text → List String → Bool
one_of t [] = false
one_of t (s ∷ ss) = text_eq t (codes s) || one_of t ss

unfoldable pub starts_with : Text → String → Bool
starts_with t s = text_eq (take (length (codes s)) t) (codes s)

-- The tests of the chains of both converters, which name the same texts in the same order.
unfoldable pub kind_of : Text → Kind
kind_of t =
    if one_of t ("bool" ∷ "boolean" ∷ "bit" ∷ [])
    then bool
    else if one_of t ("byte" ∷ "usint" ∷ "uint8" ∷ [])
    then usint
    else if one_of t ("sint" ∷ "int8" ∷ [])
    then sint
    else if one_of t ("int" ∷ "int16" ∷ "short" ∷ [])
    then int
    else if one_of t ("uint" ∷ "uint16" ∷ "word" ∷ [])
    then uint
    else if one_of t ("dint" ∷ "int32" ∷ [])
    then dint
    else if one_of t ("udint" ∷ "uint32" ∷ "dword" ∷ [])
    then udint
    else if one_of t ("real" ∷ "float" ∷ "float32" ∷ [])
    then real
    else if one_of t ("lreal" ∷ "double" ∷ "float64" ∷ [])
    then lreal
    else if one_of t ("string" ∷ "str" ∷ "s7string" ∷ [])
    then string
    else if one_of t ("char" ∷ "character" ∷ [])
    then char
    else if one_of t ("wchar" ∷ "widecharacter" ∷ [])
    then wchar
    else if one_of t ("lint" ∷ "int64" ∷ [])
    then lint
    else if one_of t ("ulint" ∷ "uint64" ∷ "lword" ∷ [])
    then ulint
    else if one_of t ("time" ∷ "dint_time" ∷ [])
    then time
    else if one_of t ("ltime" ∷ [])
    then ltime
    else if one_of t ("tod" ∷ "time_of_day" ∷ [])
    then tod
    else if one_of t ("ltod" ∷ [])
    then ltod
    else if one_of t ("date" ∷ [])
    then date
    else if one_of t ("dt" ∷ "date_and_time" ∷ [])
    then dt
    else if one_of t ("ldt" ∷ "date_and_ltime" ∷ [])
    then ldt
    else if one_of t ("dtl" ∷ [])
    then dtl
    else if starts_with t "fstring" || starts_with t "char["
    then fstring
    else if one_of t ("raw" ∷ "bytes" ∷ "bytearray" ∷ "array" ∷ [])
    then raw
    else unsupported

-- A naive `datetime`.
pub record DateTime : Type 0 where
  pub year : ℕ
  pub month : ℕ
  pub day : ℕ
  pub hour : ℕ
  pub minute : ℕ
  pub second : ℕ
  pub microsecond : ℕ

-- `datetime.time`
pub record TimeOfDay : Type 0 where
  pub hour : ℕ
  pub minute : ℕ
  pub second : ℕ
  pub microsecond : ℕ

-- The values of Python that the converters take and return, over a type of floats.
pub data Value (F : Type 0) : Type 0 where
  nothing : Value F
  integer : ℤ → Value F
  number : F → Value F
  truth : Bool → Value F
  text : Text → Value F
  moment : DateTime → Value F
  bytes : List ℕ → Value F

-- A pair of functions that write and read a value at an index of a buffer.
pub record Accessor (A : Type 0) : Type 0 where
  pub set : Bytes → ℕ → A → Option Bytes
  pub get : Bytes → ℕ → Option A

-- The functions of snap7.util; `bools` takes the index of the bit, `set_string` the greatest length
-- last.
pub record Snap7 (F : Type 0) : Type 0 where
  pub bools : ℕ → Accessor Bool
  pub usints : Accessor ℤ
  pub ints : Accessor ℤ
  pub uints : Accessor ℤ
  pub dints : Accessor ℤ
  pub dwords : Accessor ℤ
  pub reals : Accessor F
  pub set_string : Bytes → ℕ → Text → ℕ → Option Bytes
  pub get_string : Bytes → ℕ → Option Text

-- Python's floats, and its dates as texts; `none` where an exception is raised.
pub record Runtime (F : Type 0) : Type 0 where
  -- `int(text)`, `float(text)`, `str(value)`, `text.strip()`
  pub int_of_text : Text → Option ℤ
  pub float_of_text : Text → Option F
  pub text_of : Value F → Text
  pub strip : Text → Text
  -- `int(f)`, `float(n)`, `int(f * k)`, `n / k`, and the format `>d` of struct
  pub int_of_float : F → Option ℤ
  pub float_of_int : ℤ → Option F
  pub scaled : F → ℕ → Option ℤ
  pub quotient : ℤ → ℕ → F
  pub doubles : Accessor F
  -- `time.fromisoformat(text)`, `(date.fromisoformat(text) - date(1990, 1, 1)).days`,
  -- `datetime.fromisoformat(text)`, and the nanoseconds of its time stamp, in UTC by default
  pub time_of_text : Text → Option TimeOfDay
  pub days_of_text : Text → Option ℤ
  pub datetime_of_text : Text → Option DateTime
  pub nanoseconds_of_text : Text → Option ℤ
  -- `d.isoweekday()`, whether the constructor of datetime accepts the fields, `d.isoformat()`
  pub isoweekday : DateTime → ℕ
  pub is_datetime : DateTime → Bool
  pub isoformat : DateTime → Text
  -- `str(timedelta(milliseconds=n))`, `str(timedelta(seconds=f))`,
  -- `(date(1990, 1, 1) + timedelta(days=n)).isoformat()`,
  -- `datetime.fromtimestamp(f, tz=timezone.utc).isoformat()`
  pub text_of_milliseconds : ℤ → Option Text
  pub text_of_seconds : F → Option Text
  pub date_text : ℤ → Option Text
  pub timestamp_text : F → Option Text

unfoldable pub is_digit : ℕ → Bool
is_digit c = leb b'0' c && leb c b'9'

-- `int` of the digits at the start of the text, behind those that are read already.
unfoldable pub digits_from : ℕ → Text → ℕ
digits_from n [] = n
digits_from n (c ∷ cs) =
    let rest = digits_from (n * 10 + (c - b'0')) cs in if is_digit c then rest else n

-- `search(r"\[?(\d+)\]?", data_type)`: the first run of digits.
unfoldable pub first_number : Text → Option ℕ
first_number [] = none
first_number (c ∷ cs) =
    let later = first_number cs in if is_digit c then some (digits_from 0 (c ∷ cs)) else later
