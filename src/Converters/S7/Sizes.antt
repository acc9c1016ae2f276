-- ===== src/Converters/S7/Sizes.antt =====
-- The size of the buffer that is sent to the PLC.
use thingsboard_gateway.Prelude.{
  ℕ, ◌+◌, ◌≤◌, max, ◌++◌, ◌≡◌, ◌∙◌, Option, none, some, true, false, Bool, length, length-append,
  length-take, length-drop, take, drop, leb, leb→le, arith, Bool-cases, inl, inr, ◌>>=◌,
}
use thingsboard_gateway.Prelude.Int.{ℤ}
use thingsboard_gateway.Converters.Bytes.{Bytes, ByteOrder, to_bytes, write_at, zeros}
use thingsboard_gateway.Converters.Bytes.Fields.{length-zeros, write_at-written, length-written}
use thingsboard_gateway.Converters.S7.{Config, Kind, kind_of, Value, Snap7, Runtime}
use thingsboard_gateway.Converters.S7.Downlink.{
  max_len, str_of, str_to_bool, int_of, float_of, char_code, scaled_int, milliseconds_of_day,
  nanoseconds_of_day, days_of, nanoseconds_of, dt_bytes, pack_into, set_slice, set_bytes,
  datetime_of, dtl_bytes,
}
use thingsboard_gateway.Converters.S7.Request.{set_value, convert_data_request}
use thingsboard_gateway.Converters.S7.Widths.{
  KeepsLength, WriteInPlace, Occupies, bool_bytes, usint_bytes, sint_bytes, int_bytes, uint_bytes,
  dint_bytes, udint_bytes, real_bytes, lreal_bytes, char_bytes, wchar_bytes, lint_bytes,
  ulint_bytes, time_bytes, ltime_bytes, tod_bytes, ltod_bytes, date_bytes, date_time_bytes,
  ldt_bytes, dtl_twelve, string_given, string_filling, string_default, raw_bytes, max_len-Occupies,
  min_size-Occupies,
}

write_at-length :
    (i : ℕ) (bs buf out : Bytes) → write_at i bs buf ≡ some out → length out ≡ length buf
unfolding write_at
write_at-length i bs buf out h = elim (Bool-cases (leb (i + length bs) (length buf))) [
  | inl e ↦
      let room = leb→le (i + length bs) (length buf) e in
      cc (h, write_at-written i bs buf room, length-written i bs buf room)
  | inr e ↦ ground (arith, e)
]

bind_keeps :
    {A : Type 0} (o : Option A) (f : A → Option Bytes) (buf out : Bytes)
    → ((x : A) → f x ≡ some out → length out ≡ length buf)
    → (o >>= f) ≡ some out
    → length out ≡ length buf
bind_keeps none f buf out keep h = cc
bind_keeps (some x) f buf out keep h = keep x h

pub pack_into-length :
    (n : ℕ) (signed : Bool) (buf : Bytes) (i : ℕ) (z : ℤ) (out : Bytes)
    → pack_into n signed buf i z ≡ some out
    → length out ≡ length buf
unfolding pack_into
pack_into-length n signed buf i z out h =
    bind_keeps (to_bytes n ByteOrder.big signed z) (λ bs. write_at i bs buf) buf out
      (λ bs. write_at-length i bs buf out) h

set_bytes-length :
    (buf : Bytes) (i : ℕ) (bs out : Bytes) → set_bytes buf i bs ≡ some out → length out ≡ length buf
unfolding set_bytes
set_bytes-length buf i bs out h = ground (arith, write_at-length i bs buf out)

set_slice-length :
    (i : ℕ) (bs buf : Bytes) → i + length bs ≤ length buf → length (set_slice i bs buf) ≡ length buf
unfolding set_slice
set_slice-length i bs buf h = omega (
  arith,
  length-append (take i buf) (bs ++ drop (i + length bs) buf),
  length-append bs (drop (i + length bs) buf),
  length-take i buf,
  length-drop (i + length bs) buf,
)

module _ {F : Type 0} (r : Runtime F) (snap7 : Snap7 F) (config : Config) where
  packed :
      (o : Option ℤ) (n : ℕ) (signed : Bool) (buf out : Bytes)
      → (o >>= λ z. pack_into n signed buf config.offset z) ≡ some out
      → length out ≡ length buf
  packed o n signed buf out =
      bind_keeps o (λ z. pack_into n signed buf config.offset z) buf out
        (λ z. pack_into-length n signed buf config.offset z out)

  kept :
      {A : Type 0} (o : Option A) (n : ℕ) (set : Bytes → ℕ → A → Option Bytes)
      (law : KeepsLength n set) (buf out : Bytes)
      → config.offset + n ≤ length buf
      → (o >>= λ x. set buf config.offset x) ≡ some out
      → length out ≡ length buf
  kept o n set law buf out room =
      bind_keeps o (λ x. set buf config.offset x) buf out (λ x. law buf config.offset x out room)

  string_kept :
      (law : WriteInPlace r snap7) (v : Value F) {n : ℕ} (buf out : Bytes)
      → Occupies config Kind.string v n
      → config.offset + n ≤ length buf
      → snap7.set_string buf config.offset (str_of r v) (max_len config) ≡ some out
      → length out ≡ length buf
  string_kept law v buf out h room =
      law.strings_keep (max_len config) buf config.offset (str_of r v) out
        (omega (arith, max_len-Occupies r snap7 config v h, room))

  set_value-length :
      (law : WriteInPlace r snap7) {k : Kind} (v : Value F) {n : ℕ} (buf out : Bytes)
      → Occupies config k v n
      → config.offset + n ≤ length buf
      → set_value r snap7 config buf k v ≡ some out
      → length out ≡ length buf
  unfolding set_value
  set_value-length law v buf out bool_bytes room =
      kept (str_to_bool r v) 1 (λ b i x. (snap7.bools config.bit).set b i x)
        (law.bools_keep config.bit) buf out room
  set_value-length law v buf out usint_bytes room =
      kept (int_of r v) 1 (λ b i x. snap7.usints.set b i x) law.usints_keep buf out room
  set_value-length law v buf out int_bytes room =
      kept (int_of r v) 2 (λ b i x. snap7.ints.set b i x) law.ints_keep buf out room
  set_value-length law v buf out uint_bytes room =
      kept (int_of r v) 2 (λ b i x. snap7.uints.set b i x) law.uints_keep buf out room
  set_value-length law v buf out dint_bytes room =
      kept (int_of r v) 4 (λ b i x. snap7.dints.set b i x) law.dints_keep buf out room
  set_value-length law v buf out udint_bytes room =
      kept (int_of r v) 4 (λ b i x. snap7.dwords.set b i x) law.dwords_keep buf out room
  set_value-length law v buf out real_bytes room =
      kept (float_of r v) 4 (λ b i x. snap7.reals.set b i x) law.reals_keep buf out room
  set_value-length law v buf out time_bytes room =
      kept (scaled_int r 1000 v) 4 (λ b i x. snap7.dints.set b i x) law.dints_keep buf out room
  set_value-length law v buf out tod_bytes room =
      kept (milliseconds_of_day r v) 4 (λ b i x. snap7.dwords.set b i x) law.dwords_keep buf out
        room
  set_value-length law v buf out date_bytes room =
      kept (days_of r v) 2 (λ b i x. snap7.uints.set b i x) law.uints_keep buf out room
  set_value-length law v buf out lreal_bytes room =
      kept (float_of r v) 8 (λ b i x. r.doubles.set b i x) law.doubles_keep buf out room
  set_value-length law v buf out (string_given e) room =
      string_kept law v buf out (string_given e) room
  set_value-length law v buf out (string_filling e large) room =
      string_kept law v buf out (string_filling e large) room
  set_value-length law v buf out (string_default e small) room =
      string_kept law v buf out (string_default e small) room
  set_value-length law v buf out sint_bytes room = packed (int_of r v) 1 true buf out
  set_value-length law v buf out char_bytes room = packed (char_code r v) 1 false buf out
  set_value-length law v buf out wchar_bytes room = packed (char_code r v) 2 false buf out
  set_value-length law v buf out lint_bytes room = packed (int_of r v) 8 true buf out
  set_value-length law v buf out ulint_bytes room = packed (int_of r v) 8 false buf out
  set_value-length law v buf out ltime_bytes room =
      packed (scaled_int r 1_000_000_000 v) 8 true buf out
  set_value-length law v buf out ltod_bytes room = packed (nanoseconds_of_day r v) 8 false buf out
  set_value-length law v buf out ldt_bytes room = packed (nanoseconds_of r v) 8 true buf out
  set_value-length law v buf out date_time_bytes room =
      bind_keeps (datetime_of r v) (λ d. set_bytes buf config.offset (dt_bytes r d)) buf out
        (λ d. set_bytes-length buf config.offset (dt_bytes r d) out)
  set_value-length law v buf out dtl_twelve room =
      bind_keeps (datetime_of r v) (λ d. dtl_bytes r d >>= λ bs. set_bytes buf config.offset bs) buf
        out
        (λ d.
          bind_keeps (dtl_bytes r d) (λ bs. set_bytes buf config.offset bs) buf out
            (λ bs. set_bytes-length buf config.offset bs out))
  set_value-length law (Value.bytes bs) buf out raw_bytes room =
      λ h. ground (arith, h, set_slice-length config.offset bs buf room)

  -- The setters of snap7 and of struct writing in place where there is room for their bytes: a value
  -- of n bytes, by its S7 type, that is converted comes in a buffer that has the configured size, or
  -- reaches from 0 to the end of the n bytes at the offset where that is further. A text of fixed
  -- length is not among the types.
  pub convert_data_request-length :
      (law : WriteInPlace r snap7) (v : Value F) (n : ℕ) (out : Bytes)
      → Occupies config (kind_of config.data_type) v n
      → convert_data_request r snap7 config v ≡ some out
      → length out ≡ max config.size (config.offset + n)
  unfolding convert_data_request
  convert_data_request-length law v n out h converted =
      let kind = kind_of config.data_type in
      let buf : Bytes = zeros (max config.size (config.offset + n)) in
      let size : length buf ≡ max config.size (config.offset + n) = length-zeros _ in
      let set : set_value r snap7 config buf kind v ≡ some out =
        rw (min_size-Occupies r snap7 config v h) at converted in
      set_value-length law v buf out h (omega (arith, size)) set ∙ size
