-- ===== src/Converters/S7/Downlink.antt =====
-- thingsboard_gateway/connectors/s7/s7_downlink_converter.py: from the platform's value to the
-- buffer that is written into the PLC. `none` is an exception.
use thingsboard_gateway.Prelude.{
  ℕ, zero, suc, ◌+◌, ◌-◌, ◌*◌, ◌/◌, ◌%◌, [], ◌∷◌, ◌++◌, Bool, true, false, ◌&&◌, Option, none, some,
  ltb, leb, get_or, ◌>>=◌, ◌==◌, length, take, drop, if◌then◌else◌,
}
use thingsboard_gateway.Prelude.Int.{ℤ, pos, negsuc}
use thingsboard_gateway.Entities.Strategy.{lower}
use thingsboard_gateway.Converters.Bytes.{Bytes, ByteOrder, to_bytes, write_at}
use thingsboard_gateway.Converters.S7.{Text, Config, Kind, one_of, DateTime, Value, Runtime}

-- `type_sizes`, 0 where the table has no entry.
unfoldable pub type_size : Kind → ℕ
type_size Kind.bool = 1
type_size Kind.usint = 1
type_size Kind.sint = 1
type_size Kind.int = 2
type_size Kind.uint = 2
type_size Kind.dint = 4
type_size Kind.udint = 4
type_size Kind.real = 4
type_size Kind.lreal = 8
type_size Kind.char = 1
type_size Kind.wchar = 2
type_size Kind.lint = 8
type_size Kind.ulint = 8
type_size Kind.time = 4
type_size Kind.ltime = 8
type_size Kind.tod = 4
type_size Kind.ltod = 8
type_size Kind.date = 2
type_size Kind.dt = 8
type_size Kind.ldt = 8
type_size Kind.dtl = 12
type_size _ = 0

unfoldable pub max_len : Config → ℕ
max_len config = get_or config.max_length (if ltb 2 config.size then config.size - 2 else 254)

-- `struct.pack_into(format, buf, offset, z)` of a big-endian integer of n bytes.
unfoldable pub pack_into : ℕ → Bool → Bytes → ℕ → ℤ → Option Bytes
pack_into n signed buf offset z = do bs ← to_bytes n ByteOrder.big signed z; write_at offset bs buf

-- `buf[first: first + len(bs)] = bs`
unfoldable pub set_slice : ℕ → Bytes → Bytes → Bytes
set_slice first bs buf = take first buf ++ (bs ++ drop (first + length bs) buf)

-- The loop of n rounds that sets `buf[i]`, `buf[i + 1]` and so on to a space.
unfoldable pub pad_spaces : ℕ → ℕ → Bytes → Option Bytes
pad_spaces zero i buf = some buf
pad_spaces (suc n) i buf = do next ← write_at i (b' ' ∷ []) buf; pad_spaces n (i + 1) next

-- The two digits share no bit, so `|` adds them.
unfoldable pub int_to_bcd : ℕ → ℕ
int_to_bcd val = val / 10 * 16 + val % 10

-- Bytes are set one by one; ValueError for what is none.
unfoldable pub all_bytes : Bytes → Bool
all_bytes [] = true
all_bytes (b ∷ bs) = leb b 255 && all_bytes bs

unfoldable pub set_bytes : Bytes → ℕ → Bytes → Option Bytes
set_bytes buf offset bs = if all_bytes bs then write_at offset bs buf else none

unfoldable pub latin1 : Text → Option Bytes
latin1 t = if all_bytes t then some t else none

module _ {F : Type 0} (r : Runtime F) where
  -- `int(data)`
  unfoldable pub int_of : Value F → Option ℤ
  int_of (Value.integer z) = some z
  int_of (Value.number f) = r.int_of_float f
  int_of (Value.truth true) = some (pos 1)
  int_of (Value.truth false) = some (pos 0)
  int_of (Value.text t) = r.int_of_text t
  int_of _ = none

  -- `float(data)`
  unfoldable pub float_of : Value F → Option F
  float_of (Value.integer z) = r.float_of_int z
  float_of (Value.number f) = some f
  float_of (Value.truth true) = r.float_of_int (pos 1)
  float_of (Value.truth false) = r.float_of_int (pos 0)
  float_of (Value.text t) = r.float_of_text t
  float_of _ = none

  unfoldable pub str_of : Value F → Text
  str_of (Value.text t) = t
  str_of v = r.text_of v

  abbrev truth_of_text : Text → Option Bool
  truth_of_text s =
      if one_of s ("y" ∷ "yes" ∷ "t" ∷ "true" ∷ "on" ∷ "1" ∷ [])
      then some true
      else if one_of s ("n" ∷ "no" ∷ "f" ∷ "false" ∷ "off" ∷ "0" ∷ [])
      then some false
      else none

  -- `TBUtility.str_to_bool`
  unfoldable pub str_to_bool : Value F → Option Bool
  str_to_bool (Value.truth b) = some b
  str_to_bool (Value.integer (pos n)) =
      if n == 0 then some false else if n == 1 then some true else none
  str_to_bool (Value.integer (negsuc _)) = none
  str_to_bool v = truth_of_text (lower (r.strip (str_of v)))

  -- The code of the first character of a text, or the number itself.
  unfoldable pub char_code : Value F → Option ℤ
  char_code (Value.text []) = none
  char_code (Value.text (c ∷ cs)) = some (pos c)
  char_code v = int_of v

  -- `int(float(data) * k) if isinstance(data, (float, str)) else int(data)`
  unfoldable pub scaled_int : ℕ → Value F → Option ℤ
  scaled_int k (Value.number f) = r.scaled f k
  scaled_int k (Value.text t) = do f ← r.float_of_text t; r.scaled f k
  scaled_int k v = int_of v

  unfoldable pub milliseconds_of_day : Value F → Option ℤ
  milliseconds_of_day (Value.text s) = do
    t ← r.time_of_text s
    some (pos ((t.hour * 3600 + t.minute * 60 + t.second) * 1000 + t.microsecond / 1000))
  milliseconds_of_day v = int_of v

  unfoldable pub nanoseconds_of_day : Value F → Option ℤ
  nanoseconds_of_day (Value.text s) = do
    t ← r.time_of_text s
    some (pos (((t.hour * 3600 + t.minute * 60 + t.second) * 1_000_000 + t.microsecond) * 1000))
  nanoseconds_of_day v = int_of v

  unfoldable pub days_of : Value F → Option ℤ
  days_of (Value.text s) = r.days_of_text s
  days_of v = int_of v

  -- A value without the fields of a datetime raises AttributeError.
  unfoldable pub datetime_of : Value F → Option DateTime
  datetime_of (Value.text s) = r.datetime_of_text s
  datetime_of (Value.moment d) = some d
  datetime_of _ = none

  unfoldable pub nanoseconds_of : Value F → Option ℤ
  nanoseconds_of (Value.text s) = r.nanoseconds_of_text s
  nanoseconds_of v = int_of v

  unfoldable pub day_of_week : DateTime → ℕ
  day_of_week d = r.isoweekday d % 7 + 1

  unfoldable pub dt_bytes : DateTime → Bytes
  dt_bytes d =
      let ms = d.microsecond / 1000 in
      int_to_bcd (d.year % 100)
      ∷ int_to_bcd d.month
      ∷ int_to_bcd d.day
      ∷ int_to_bcd d.hour
      ∷ int_to_bcd d.minute
      ∷ int_to_bcd d.second
      ∷ int_to_bcd (ms / 10)
      ∷ (ms % 10 * 16 + day_of_week d)
      ∷ []

  -- `struct.pack(">HBBBBBB I", ...)`
  unfoldable pub dtl_bytes : DateTime → Option Bytes
  dtl_bytes d = do
    year ← to_bytes 2 ByteOrder.big false (pos d.year)
    let middle = d.month ∷ d.day ∷ day_of_week d ∷ d.hour ∷ d.minute ∷ d.second ∷ []
    ns ← to_bytes 4 ByteOrder.big false (pos (d.microsecond * 1000))
    if all_bytes middle then some (year ++ (middle ++ ns)) else none
