-- ===== src/Converters/S7/Uplink.antt =====
-- thingsboard_gateway/connectors/s7/s7_uplink_converter.py: `_convert_data_type`, from the buffer
-- that was read from the PLC to the value for the platform. `none` is an exception.
use thingsboard_gateway.Prelude.{
  ℕ, ◌+◌, ◌*◌, ◌/◌, ◌%◌, [], ◌∷◌, Bool, true, false, ◌||◌, Option, none, some, ltb, get_or, ◌>>=◌,
  ◌==◌, drop, is_empty, get_elem?, if◌then◌else◌,
}
use thingsboard_gateway.Prelude.Int.{ℤ}
use thingsboard_gateway.Converters.Bytes.{
  Bytes, ByteOrder, from_bytes, slice, read_at, reversed, le_number, ordered,
}
use thingsboard_gateway.Converters.S7.{
  Text, Config, Kind, first_number, kind_of, DateTime, Value, Snap7, Runtime,
}

-- `struct.unpack_from(format, value, offset)[0]` of a big-endian integer of n bytes.
unfoldable pub unpack_from : ℕ → Bool → Bytes → ℕ → Option ℤ
unpack_from n signed value offset = do
  bs ← read_at offset n value
  some (from_bytes ByteOrder.big signed bs)

-- `bcd >> 4` and `bcd & 0x0F`
unfoldable pub bcd_to_int : ℕ → ℕ
bcd_to_int bcd = bcd / 16 * 10 + bcd % 16

-- `rstrip("\x00 ")`, on the text read backwards.
unfoldable pub strip_front : Text → Text
strip_front [] = []
strip_front (c ∷ cs) = let rest = strip_front cs in if c == 0 || c == b' ' then rest else c ∷ cs

unfoldable pub rstrip : Text → Text
rstrip t = reversed (strip_front (reversed t))

-- The fields of DATE_AND_TIME.
unfoldable pub dt_fields : Bytes → ℕ → Option DateTime
dt_fields value offset = do
  y ← get_elem? value offset
  month ← get_elem? value (offset + 1)
  day ← get_elem? value (offset + 2)
  hour ← get_elem? value (offset + 3)
  minute ← get_elem? value (offset + 4)
  second ← get_elem? value (offset + 5)
  ms_bcd1 ← get_elem? value (offset + 6)
  last ← get_elem? value (offset + 7)
  let year = bcd_to_int y
  let ms = bcd_to_int ms_bcd1 * 10 + last / 16
  some (record {
    year = year + (if ltb year 90 then 2000 else 1900);
    month = bcd_to_int month;
    day = bcd_to_int day;
    hour = bcd_to_int hour;
    minute = bcd_to_int minute;
    second = bcd_to_int second;
    microsecond = ms * 1000;
  })

-- The same for an unsigned integer that is used as a number.
unfoldable pub unsigned_at : ℕ → Bytes → ℕ → Option ℕ
unsigned_at n value offset = do
  bs ← read_at offset n value
  some (le_number (ordered ByteOrder.big bs))

-- The fields of DTL; the byte at 4 is the day of the week.
unfoldable pub dtl_fields : Bytes → ℕ → Option DateTime
dtl_fields value offset = do
  year ← unsigned_at 2 value offset
  month ← get_elem? value (offset + 2)
  day ← get_elem? value (offset + 3)
  hour ← get_elem? value (offset + 5)
  minute ← get_elem? value (offset + 6)
  second ← get_elem? value (offset + 7)
  ns ← unsigned_at 4 value (offset + 8)
  some (record {
    year = year;
    month = month;
    day = day;
    hour = hour;
    minute = minute;
    second = second;
    microsecond = ns / 1000;
  })

-- The constructor of datetime refuses fields that are no date, and `isoformat` prints it.
unfoldable pub iso_text : {F : Type 0} → Runtime F → DateTime → Option (Value F)
iso_text r d = if r.is_datetime d then some (Value.text (r.isoformat d)) else none

abbrev pub integer_value : {F : Type 0} → Option ℤ → Option (Value F)
integer_value o = do z ← o; some (Value.integer z)

abbrev number_value : {F : Type 0} → Option F → Option (Value F)
number_value o = do f ← o; some (Value.number f)

abbrev text_value : {F : Type 0} → Option Text → Option (Value F)
text_value o = do t ← o; some (Value.text t)

unfoldable pub fixed_size : Config → ℕ
fixed_size config =
    if config.size == 0 then get_or (first_number config.data_type) 1 else config.size

module _ {F : Type 0} (r : Runtime F) (snap7 : Snap7 F) where
  unfoldable pub get_value : Config → Bytes → Kind → Option (Value F)
  get_value config value Kind.bool = do
    b ← (snap7.bools config.bit).get value config.offset
    some (Value.truth b)
  get_value config value Kind.usint = integer_value (snap7.usints.get value config.offset)
  get_value config value Kind.sint =
      some (Value.integer (from_bytes ByteOrder.big true (slice config.offset 1 value)))
  get_value config value Kind.int = integer_value (snap7.ints.get value config.offset)
  get_value config value Kind.uint = integer_value (snap7.uints.get value config.offset)
  get_value config value Kind.dint = integer_value (snap7.dints.get value config.offset)
  get_value config value Kind.udint = integer_value (snap7.dwords.get value config.offset)
  get_value config value Kind.real = number_value (snap7.reals.get value config.offset)
  get_value config value Kind.lreal = number_value (r.doubles.get value config.offset)
  get_value config value Kind.string = text_value (snap7.get_string value config.offset)
  get_value config value Kind.char = do
    c ← get_elem? value config.offset
    some (Value.text (c ∷ []))
  get_value config value Kind.wchar = do
    c ← unsigned_at 2 value config.offset
    some (Value.text (c ∷ []))
  get_value config value Kind.lint = integer_value (unpack_from 8 true value config.offset)
  get_value config value Kind.ulint = integer_value (unpack_from 8 false value config.offset)
  get_value config value Kind.time = do
    ms ← snap7.dints.get value config.offset
    some (Value.number (r.quotient ms 1000))
  get_value config value Kind.ltime = do
    ns ← unpack_from 8 true value config.offset
    some (Value.number (r.quotient ns 1_000_000_000))
  get_value config value Kind.tod = do
    ms ← snap7.dwords.get value config.offset
    text_value (r.text_of_milliseconds ms)
  get_value config value Kind.ltod = do
    ns ← unpack_from 8 false value config.offset
    text_value (r.text_of_seconds (r.quotient ns 1_000_000_000))
  get_value config value Kind.date = do
    days ← snap7.uints.get value config.offset
    text_value (r.date_text days)
  get_value config value Kind.dt = do d ← dt_fields value config.offset; iso_text r d
  get_value config value Kind.ldt = do
    ns ← unpack_from 8 true value config.offset
    text_value (r.timestamp_text (r.quotient ns 1_000_000_000))
  get_value config value Kind.dtl = do d ← dtl_fields value config.offset; iso_text r d
  get_value config value Kind.fstring =
      some (Value.text (r.strip (rstrip (slice config.offset (fixed_size config) value))))
  get_value config value Kind.raw = some (Value.bytes (drop config.offset value))
  get_value config value Kind.unsupported = none

  -- `_convert_data_type`
  unfoldable pub convert_data_type : Config → Bytes → Option (Value F)
  convert_data_type config value =
      if is_empty value
      then some Value.nothing
      else get_value config value (kind_of config.data_type)
