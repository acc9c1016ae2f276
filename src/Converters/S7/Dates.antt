-- ===== src/Converters/S7/Dates.antt =====
-- The round trip of dates through DATE_AND_TIME and DTL.
use thingsboard_gateway.Prelude.{
  ℕ, ◌+◌, ◌*◌, ◌/◌, ◌%◌, ◌≤◌, ◌<◌, max, [], ◌∷◌, ◌≡◌, refl, ap, ◌∙◌, some, true, false, length,
  get_elem?, arith, ltb, is_empty, if◌then◌else◌,
}
use mathlib.Core.Path.{ap₂}
use thingsboard_gateway.Converters.Bytes.{
  Bytes, to_bytes, le_bytes, le_number, ordered, reversed, fits, pattern_of, read_at, slice, zeros,
}
use thingsboard_gateway.Converters.Bytes.Fields.{
  length-zeros, written, write_at-written, length-written, get_elem?-written, read_at-inside,
  nonempty,
}
use thingsboard_gateway.Converters.S7.{Config, Kind, kind_of, DateTime, Value, Snap7, Runtime}
use thingsboard_gateway.Converters.S7.Downlink.{
  all_bytes, set_bytes, int_to_bcd, day_of_week, datetime_of, dt_bytes, dtl_bytes, type_size,
}
use thingsboard_gateway.Converters.S7.Request.{min_size, set_value, convert_data_request}
use thingsboard_gateway.Converters.S7.Uplink.{
  bcd_to_int, dt_fields, dtl_fields, unsigned_at, iso_text, get_value, convert_data_type,
}

-- The fields of a datetime are in their ranges.
pub record IsDateTime (d : DateTime) : Type 0 where
  pub months : d.month ≤ 12
  pub days : d.day ≤ 31
  pub hours : d.hour < 24
  pub minutes : d.minute < 60
  pub seconds : d.second < 60
  pub microseconds : d.microsecond < 1_000_000

bcd_to_int-int_to_bcd : (n : ℕ) → bcd_to_int (int_to_bcd n) ≡ n
unfolding bcd_to_int int_to_bcd
bcd_to_int-int_to_bcd n = omega arith

int_to_bcd-le : (n : ℕ) → n < 100 → int_to_bcd n ≤ 153
unfolding int_to_bcd
int_to_bcd-le n h = omega arith

abbrev whole_milliseconds : DateTime → DateTime
whole_milliseconds d = record d { microsecond = d.microsecond / 1000 * 1000 }

module _ {F : Type 0} (r : Runtime F) (d : DateTime) (h : IsDateTime d) where
  all_bytes-dt_bytes : all_bytes (dt_bytes r d) ≡ true
  unfolding all_bytes dt_bytes day_of_week int_to_bcd
  all_bytes-dt_bytes =
      ground (arith, h.months, h.days, h.hours, h.minutes, h.seconds, h.microseconds)

  last_byte : (d.microsecond / 1000 % 10 * 16 + day_of_week r d) / 16 ≡ d.microsecond / 1000 % 10
  unfolding day_of_week
  last_byte = omega arith

  read_year :
      1990 ≤ d.year
      → d.year < 2090
      → d.year % 100 + (if ltb (d.year % 100) 90 then 2000 else 1900) ≡ d.year
  read_year from before = ground arith

  dt_fields-written :
      (i : ℕ) (buf : Bytes) (room : i + length (dt_bytes r d) ≤ length buf)
      → 1990 ≤ d.year
      → d.year < 2090
      → dt_fields (written i (dt_bytes r d) buf room) i ≡ some (whole_milliseconds d)
  unfolding dt_fields dt_bytes
  dt_fields-written i buf room from before =
      let bs : Bytes = dt_bytes r d in
      let at_start : get_elem? (written i bs buf room) i ≡ some (int_to_bcd (d.year % 100)) =
        ap (get_elem? (written i bs buf room)) (omega arith)
        ∙ get_elem?-written i bs buf room 0 _ refl in
      let ms : d.microsecond / 1000 / 10 * 10 + d.microsecond / 1000 % 10 ≡ d.microsecond / 1000 =
        omega arith in
      rw
        (
          at_start,
          get_elem?-written i bs buf room 1 _ refl,
          get_elem?-written i bs buf room 2 _ refl,
          get_elem?-written i bs buf room 3 _ refl,
          get_elem?-written i bs buf room 4 _ refl,
          get_elem?-written i bs buf room 5 _ refl,
          get_elem?-written i bs buf room 6 _ refl,
          get_elem?-written i bs buf room 7 _ refl,
          bcd_to_int-int_to_bcd (d.year % 100),
          bcd_to_int-int_to_bcd d.month,
          bcd_to_int-int_to_bcd d.day,
          bcd_to_int-int_to_bcd d.hour,
          bcd_to_int-int_to_bcd d.minute,
          bcd_to_int-int_to_bcd d.second,
          bcd_to_int-int_to_bcd (d.microsecond / 1000 / 10),
          last_byte,
          ms,
          read_year from before,
        )
        refl

  length-dt_bytes : length (dt_bytes r d) ≡ 8
  unfolding dt_bytes
  length-dt_bytes = omega arith

  -- The twelve bytes of DTL.
  dtl_list : Bytes
  dtl_list =
      let ns = d.microsecond * 1000 in
      d.year / 256 % 256
      ∷ d.year % 256
      ∷ d.month
      ∷ d.day
      ∷ day_of_week r d
      ∷ d.hour
      ∷ d.minute
      ∷ d.second
      ∷ ns / 256 / 256 / 256 % 256
      ∷ ns / 256 / 256 % 256
      ∷ ns / 256 % 256
      ∷ ns % 256
      ∷ []

  length-dtl_list : length dtl_list ≡ 12
  unfolding dtl_list
  length-dtl_list = omega arith

  dtl_bytes-dtl_list : d.year < 65536 → dtl_bytes r d ≡ some dtl_list
  unfolding dtl_list dtl_bytes to_bytes fits pattern_of ordered reversed le_bytes all_bytes
      day_of_week
  dtl_bytes-dtl_list small =
      ground (arith, h.months, h.days, h.hours, h.minutes, h.seconds, h.microseconds)

  all_bytes-dtl_list : all_bytes dtl_list ≡ true
  unfolding all_bytes dtl_list day_of_week
  all_bytes-dtl_list = ground (arith, h.months, h.days, h.hours, h.minutes, h.seconds)

  dtl_fields-written :
      (i : ℕ) (buf : Bytes) (room : i + length dtl_list ≤ length buf)
      → d.year < 65536
      → dtl_fields (written i dtl_list buf room) i ≡ some d
  unfolding dtl_fields dtl_list unsigned_at ordered reversed le_number slice
  dtl_fields-written i buf room small =
      let at_start : read_at i 2 (written i dtl_list buf room) ≡ some (slice 0 2 dtl_list) =
        ap (λ (j : ℕ). read_at j 2 (written i dtl_list buf room)) (omega arith)
        ∙ read_at-inside i dtl_list buf room 0 2 (omega arith) in
      rw
        (
          at_start,
          get_elem?-written i dtl_list buf room 2 _ refl,
          get_elem?-written i dtl_list buf room 3 _ refl,
          get_elem?-written i dtl_list buf room 5 _ refl,
          get_elem?-written i dtl_list buf room 6 _ refl,
          get_elem?-written i dtl_list buf room 7 _ refl,
          read_at-inside i dtl_list buf room 8 4 (omega arith),
        )
        (ap₂ (λ (y m : ℕ). some (record d { year = y; microsecond = m })) (omega arith)
          (omega (arith, h.microseconds)))

  module _ (snap7 : Snap7 F) (config : Config) (v : Value F)
      (given : datetime_of r v ≡ some d) where
    -- A date of the years 1990 to 2089 that is written as DATE_AND_TIME, at any offset of a buffer
    -- of any size, is read back as the same date, cut to whole milliseconds.
    pub dt_restored :
        kind_of config.data_type ≡ Kind.dt
        → 1990 ≤ d.year
        → d.year < 2090
        → (buf : Bytes) × (convert_data_request r snap7 config v ≡ some buf)
          × (convert_data_type r snap7 config buf ≡ iso_text r (whole_milliseconds d))
    unfolding convert_data_request min_size set_value set_bytes convert_data_type get_value
        type_size
    dt_restored k from before =
        let buf : Bytes = zeros (max config.size (config.offset + 8)) in
        let size : length buf ≡ max config.size (config.offset + 8) = length-zeros _ in
        let room : config.offset + length (dt_bytes r d) ≤ length buf =
          omega (arith, size, length-dt_bytes) in
        let out : Bytes = written config.offset (dt_bytes r d) buf room in
        let filled : is_empty out ≡ false =
          nonempty out
            (omega (arith, length-written config.offset (dt_bytes r d) buf room, size)) in
        (
          out,
          rw (k, given, all_bytes-dt_bytes)
              (write_at-written config.offset (dt_bytes r d) buf room),
          rw (k, filled, dt_fields-written config.offset buf room from before) refl,
        )

    -- A date of the years before 65536 that is written as DTL is read back whole, microseconds
    -- included.
    pub dtl_restored :
        kind_of config.data_type ≡ Kind.dtl
        → d.year < 65536
        → (buf : Bytes) × (convert_data_request r snap7 config v ≡ some buf)
          × (convert_data_type r snap7 config buf ≡ iso_text r d)
    unfolding convert_data_request min_size set_value set_bytes convert_data_type get_value
        type_size
    dtl_restored k small =
        let buf : Bytes = zeros (max config.size (config.offset + 12)) in
        let size : length buf ≡ max config.size (config.offset + 12) = length-zeros _ in
        let room : config.offset + length dtl_list ≤ length buf =
          omega (arith, size, length-dtl_list) in
        let out : Bytes = written config.offset dtl_list buf room in
        let filled : is_empty out ≡ false =
          nonempty out (omega (arith, length-written config.offset dtl_list buf room, size)) in
        (
          out,
          rw (k, given, dtl_bytes-dtl_list small, all_bytes-dtl_list)
              (write_at-written config.offset dtl_list buf room),
          rw (k, filled, dtl_fields-written config.offset buf room small) refl,
        )
