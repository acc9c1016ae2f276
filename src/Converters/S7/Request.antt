-- ===== src/Converters/S7/Request.antt =====
-- thingsboard_gateway/connectors/s7/s7_downlink_converter.py: `_convert_data_request`, the buffer
-- and the branch of each data type.
use thingsboard_gateway.Prelude.{
  ℕ, ◌+◌, ◌-◌, max, true, false, Option, none, some, get_or, ◌>>=◌, length, take, if◌then◌else◌,
}
use thingsboard_gateway.Converters.Bytes.{Bytes, zeros}
use thingsboard_gateway.Converters.S7.{
  Text, Config, Kind, first_number, kind_of, Value, Snap7, Runtime,
}
use thingsboard_gateway.Converters.S7.Downlink.{
  type_size, max_len, pack_into, set_slice, pad_spaces, all_bytes, set_bytes, latin1, int_of,
  float_of, str_of, str_to_bool, char_code, scaled_int, milliseconds_of_day, nanoseconds_of_day,
  days_of, datetime_of, nanoseconds_of, dt_bytes, dtl_bytes,
}

-- The text cut to the size and filled up with spaces.
unfoldable pub fixed_text : Bytes → ℕ → ℕ → Text → Option Bytes
fixed_text buf offset f_size s = do
  chars ← latin1 s
  let encoded = take f_size chars
  pad_spaces (f_size - length encoded) (offset + length encoded) (set_slice offset encoded buf)

module _ {F : Type 0} (r : Runtime F) (snap7 : Snap7 F) where
  unfoldable pub min_size : Config → Kind → Value F → Option ℕ
  min_size config Kind.string v = some (max_len config + 2)
  min_size config Kind.raw (Value.bytes bs) = some (length bs)
  min_size config Kind.raw (Value.text s) = some (length s)
  min_size config Kind.raw _ = none
  min_size config k v = some (type_size k)

  -- The branches, on a buffer that is made.
  unfoldable pub set_value : Config → Bytes → Kind → Value F → Option Bytes
  set_value config buf Kind.bool v = do
    b ← str_to_bool r v
    (snap7.bools config.bit).set buf config.offset b
  set_value config buf Kind.usint v = do z ← int_of r v; snap7.usints.set buf config.offset z
  set_value config buf Kind.sint v = do z ← int_of r v; pack_into 1 true buf config.offset z
  set_value config buf Kind.int v = do z ← int_of r v; snap7.ints.set buf config.offset z
  set_value config buf Kind.uint v = do z ← int_of r v; snap7.uints.set buf config.offset z
  set_value config buf Kind.dint v = do z ← int_of r v; snap7.dints.set buf config.offset z
  set_value config buf Kind.udint v = do z ← int_of r v; snap7.dwords.set buf config.offset z
  set_value config buf Kind.real v = do f ← float_of r v; snap7.reals.set buf config.offset f
  set_value config buf Kind.lreal v = do f ← float_of r v; r.doubles.set buf config.offset f
  set_value config buf Kind.string v =
      snap7.set_string buf config.offset (str_of r v) (max_len config)
  set_value config buf Kind.char v = do z ← char_code r v; pack_into 1 false buf config.offset z
  set_value config buf Kind.wchar v = do z ← char_code r v; pack_into 2 false buf config.offset z
  set_value config buf Kind.lint v = do z ← int_of r v; pack_into 8 true buf config.offset z
  set_value config buf Kind.ulint v = do z ← int_of r v; pack_into 8 false buf config.offset z
  set_value config buf Kind.time v = do
    ms ← scaled_int r 1000 v
    snap7.dints.set buf config.offset ms
  set_value config buf Kind.ltime v = do
    ns ← scaled_int r 1_000_000_000 v
    pack_into 8 true buf config.offset ns
  set_value config buf Kind.tod v = do
    ms ← milliseconds_of_day r v
    snap7.dwords.set buf config.offset ms
  set_value config buf Kind.ltod v = do
    ns ← nanoseconds_of_day r v
    pack_into 8 false buf config.offset ns
  set_value config buf Kind.date v = do days ← days_of r v; snap7.uints.set buf config.offset days
  set_value config buf Kind.dt v = do
    d ← datetime_of r v
    set_bytes buf config.offset (dt_bytes r d)
  set_value config buf Kind.ldt v = do
    ns ← nanoseconds_of r v
    pack_into 8 true buf config.offset ns
  set_value config buf Kind.dtl v = do
    d ← datetime_of r v
    bs ← dtl_bytes r d
    set_bytes buf config.offset bs
  set_value config buf Kind.fstring v =
      fixed_text buf config.offset (get_or (first_number config.data_type) 0) (str_of r v)
  set_value config buf Kind.raw (Value.bytes bs) =
      if all_bytes bs then some (set_slice config.offset bs buf) else none
  set_value config buf _ v = none

  -- `_convert_data_request`
  unfoldable pub convert_data_request : Config → Value F → Option Bytes
  convert_data_request config v = do
    let kind = kind_of config.data_type
    least ← min_size config kind v
    set_value config (zeros (max config.size (config.offset + least))) kind v
