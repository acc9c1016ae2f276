-- ===== src/Converters/Examples.antt =====
-- Values that are converted to bytes and back.
use thingsboard_gateway.Prelude.{
  ℕ, ◌+◌, ◌≡◌, refl, [], ◌∷◌, Bool, true, false, none, some, max, arith, length,
}
use thingsboard_gateway.Prelude.Int.{ℤ, negsuc}
use thingsboard_gateway.Entities.Strategy.{codes, text_eq}
use thingsboard_gateway.Converters.Bytes.{
  Bytes, fits, zeros, to_bytes, write_at, ordered, reversed, le_bytes, pattern_of,
}
use thingsboard_gateway.Converters.S7.{
  Text, Config, Kind, kind_of, one_of, starts_with, first_number, digits_from, is_digit, DateTime,
  Value, Accessor, Snap7, Runtime,
}
use thingsboard_gateway.Converters.S7.Downlink.{
  pack_into, datetime_of, int_of, all_bytes, type_size,
}
use thingsboard_gateway.Converters.S7.Request.{min_size, set_value, convert_data_request}
use thingsboard_gateway.Converters.S7.Uplink.{unpack_from, iso_text, rstrip, convert_data_type}
use thingsboard_gateway.Converters.S7.Dates.{IsDateTime, dt_restored}
use thingsboard_gateway.Converters.S7.Integers.{
  StoresIntegers, IsSnap7, pack_into-unpack_from, IntegerFormat, dint_format, integer_restored,
}
use thingsboard_gateway.Converters.S7.Texts.{fstring_restored}
use thingsboard_gateway.Converters.S7.Widths.{WriteInPlace, Occupies, dint_bytes}
use thingsboard_gateway.Converters.S7.Sizes.{pack_into-length, convert_data_request-length}

program : Unit {0}
unfolding kind_of one_of starts_with text_eq first_number digits_from is_digit datetime_of int_of
    all_bytes fits type_size min_size
program = tt

-- A runtime without floats, and snap7 by the formats of struct.
abbrev packed : ℕ → Bool → Accessor ℤ
packed n signed = record { set = pack_into n signed; get = unpack_from n signed }

abbrev refuses : {A : Type 0} → Accessor A
refuses = record { set = λ buf i x. none; get = λ buf i. none }

abbrev snap7 : Snap7 Unit
snap7 = record {
  bools = λ bit. refuses;
  usints = packed 1 false;
  ints = packed 2 true;
  uints = packed 2 false;
  dints = packed 4 true;
  dwords = packed 4 false;
  reals = refuses;
  set_string = λ buf i t n. none;
  get_string = λ buf i. none;
}

abbrev runtime : Runtime Unit
runtime = record {
  int_of_text = λ t. none;
  float_of_text = λ t. none;
  text_of = λ v. [];
  strip = λ t. t;
  int_of_float = λ f. none;
  float_of_int = λ z. none;
  scaled = λ f k. none;
  quotient = λ z k. tt;
  doubles = refuses;
  time_of_text = λ t. none;
  days_of_text = λ t. none;
  datetime_of_text = λ t. none;
  nanoseconds_of_text = λ t. none;
  isoweekday = λ d. 4;
  is_datetime = λ d. true;
  isoformat = λ d. d.year ∷ d.month ∷ d.day ∷ d.hour ∷ d.minute ∷ d.second ∷ d.microsecond ∷ [];
  text_of_milliseconds = λ z. none;
  text_of_seconds = λ f. none;
  date_text = λ z. none;
  timestamp_text = λ f. none;
}

packed_stores : (n : ℕ) (signed : Bool) → StoresIntegers (packed n signed) n signed
unfolding unpack_from
packed_stores n signed = record {
  stores = λ buf i z f inside.
      let (out, set, len, bs, read, back) = pack_into-unpack_from n signed buf i z f inside in
      (out, set, len, rw (read, back) refl);
}

snap7_lawful : IsSnap7 snap7
snap7_lawful = record {
  usint_law = packed_stores 1 false;
  int_law = packed_stores 2 true;
  uint_law = packed_stores 2 false;
  dint_law = packed_stores 4 true;
  dword_law = packed_stores 4 false;
}

in_place : WriteInPlace runtime snap7
in_place = record {
  bools_keep = λ bit buf i x out room h. cc;
  usints_keep = λ buf i x out room h. pack_into-length 1 false buf i x out h;
  ints_keep = λ buf i x out room h. pack_into-length 2 true buf i x out h;
  uints_keep = λ buf i x out room h. pack_into-length 2 false buf i x out h;
  dints_keep = λ buf i x out room h. pack_into-length 4 true buf i x out h;
  dwords_keep = λ buf i x out room h. pack_into-length 4 false buf i x out h;
  reals_keep = λ buf i x out room h. cc;
  doubles_keep = λ buf i x out room h. cc;
  strings_keep = λ n buf i x out room h. cc;
}

abbrev config : Text → ℕ → ℕ → Config
config data_type offset size = record {
  data_type = data_type;
  offset = offset;
  bit = 0;
  size = size;
  max_length = none;
}

abbrev leap_day : DateTime
leap_day = record {
  year = 2024;
  month = 2;
  day = 29;
  hour = 23;
  minute = 59;
  second = 7;
  microsecond = 123456;
}

leap_day-IsDateTime : IsDateTime leap_day
leap_day-IsDateTime = record {
  months = omega arith;
  days = omega arith;
  hours = omega arith;
  minutes = omega arith;
  seconds = omega arith;
  microseconds = omega arith;
}

given : datetime_of runtime (Value.moment leap_day) ≡ some leap_day
unfolding program
given = refl

dt_kind : kind_of (codes "date_and_time") ≡ Kind.dt
unfolding program
dt_kind = refl

dt_restored_example :
    (buf : Bytes) × (convert_data_request runtime snap7
        (config (codes "date_and_time") 3 0)
        (Value.moment leap_day)
      ≡ some buf)
    × (convert_data_type runtime snap7 (config (codes "date_and_time") 3 0) buf
        ≡ iso_text runtime (record leap_day { microsecond = 123000 }))
dt_restored_example =
    dt_restored runtime leap_day leap_day-IsDateTime snap7 (config (codes "date_and_time") 3 0)
      (Value.moment leap_day) given dt_kind (omega arith) (omega arith)

dint_kind : IntegerFormat (kind_of (codes "int32")) 4 true
unfolding program
dint_kind = dint_format

minus_five : int_of runtime (Value.integer (negsuc 4)) ≡ some (negsuc 4)
unfolding program
minus_five = refl

five_fits : fits 4 true (negsuc 4) ≡ true
unfolding program
five_fits = refl

integer_restored_example :
    (buf : Bytes) × (convert_data_request runtime snap7
        (config (codes "int32") 2 0)
        (Value.integer (negsuc 4))
      ≡ some buf)
    × (convert_data_type runtime snap7 (config (codes "int32") 2 0) buf
        ≡ some (Value.integer (negsuc 4)))
integer_restored_example =
    integer_restored runtime snap7 (config (codes "int32") 2 0) (Value.integer (negsuc 4))
      (negsuc 4) minus_five snap7_lawful 4 true dint_kind five_fits

fstring_kind : kind_of (codes "fstring[5]") ≡ Kind.fstring
unfolding program
fstring_kind = refl

five : first_number (codes "fstring[5]") ≡ some 5
unfolding program
five = refl

latin : all_bytes (codes "abc") ≡ true
unfolding program
latin = refl

fstring_restored_example :
    (buf : Bytes) × (convert_data_request runtime snap7
        (config (codes "fstring[5]") 1 9)
        (Value.text (codes "abc"))
      ≡ some buf)
    × (convert_data_type runtime snap7 (config (codes "fstring[5]") 1 9) buf
        ≡ some (Value.text (runtime.strip (rstrip (codes "abc")))))
fstring_restored_example =
    fstring_restored runtime snap7 (config (codes "fstring[5]") 1 9) (codes "abc") fstring_kind
      latin 5 five (omega arith) (omega arith) (omega arith)

int_takes_four :
    Occupies {F = Unit}
      (config (codes "int32") 2 5)
      (kind_of (codes "int32"))
      (Value.integer (negsuc 4))
      4
unfolding program
int_takes_four = dint_bytes

abbrev buffer : Bytes
buffer = 0 ∷ 0 ∷ 255 ∷ 255 ∷ 255 ∷ 251 ∷ []

int_sent :
    convert_data_request runtime snap7 (config (codes "int32") 2 5) (Value.integer (negsuc 4))
    ≡ some buffer
unfolding program convert_data_request set_value pack_into to_bytes write_at zeros ordered reversed
    le_bytes pattern_of
int_sent = refl

convert_data_request-length_example : length buffer ≡ max 5 (2 + 4)
convert_data_request-length_example =
    convert_data_request-length runtime snap7 (config (codes "int32") 2 5) in_place
      (Value.integer (negsuc 4)) 4 buffer int_takes_four int_sent
