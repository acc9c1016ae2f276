-- ===== src/Converters/S7/Widths.antt =====
-- The bytes that the values of the S7 types take, and what is relied on of the setters of snap7 and of
-- struct.
use thingsboard_gateway.Prelude.{ℕ, ◌+◌, ◌≤◌, ◌≡◌, refl, ap, Option, none, some, length, arith}
use thingsboard_gateway.Converters.Bytes.{Bytes}
use thingsboard_gateway.Converters.S7.{Config, Kind, Value, Snap7, Runtime}
use thingsboard_gateway.Converters.S7.Downlink.{type_size, max_len}
use thingsboard_gateway.Converters.S7.Request.{min_size}

-- A setter of values of n bytes writes them in place where there is room.
abbrev pub KeepsLength : {A : Type 0} → ℕ → (Bytes → ℕ → A → Option Bytes) → Type 0
KeepsLength {A} n set =
    (buf : Bytes) (i : ℕ) (x : A) (out : Bytes)
    → i + n ≤ length buf
    → set buf i x ≡ some out
    → length out ≡ length buf

-- The setters of snap7.util and of struct, with the bytes that each writes: a text takes two bytes
-- more than its greatest length.
pub record WriteInPlace {F : Type 0} (r : Runtime F) (snap7 : Snap7 F) : Type 0 where
  pub bools_keep : (bit : ℕ) → KeepsLength 1 (λ buf i x. (snap7.bools bit).set buf i x)
  pub usints_keep : KeepsLength 1 (λ buf i x. snap7.usints.set buf i x)
  pub ints_keep : KeepsLength 2 (λ buf i x. snap7.ints.set buf i x)
  pub uints_keep : KeepsLength 2 (λ buf i x. snap7.uints.set buf i x)
  pub dints_keep : KeepsLength 4 (λ buf i x. snap7.dints.set buf i x)
  pub dwords_keep : KeepsLength 4 (λ buf i x. snap7.dwords.set buf i x)
  pub reals_keep : KeepsLength 4 (λ buf i x. snap7.reals.set buf i x)
  pub doubles_keep : KeepsLength 8 (λ buf i x. r.doubles.set buf i x)
  pub strings_keep : (n : ℕ) → KeepsLength (n + 2) (λ buf i x. snap7.set_string buf i x n)

-- The bytes that a value takes in the PLC, by the S7 type.
pub data Occupies {F : Type 0} (config : Config) : Kind → Value F → ℕ → Type 0 where
  bool_bytes : {v : Value F} → Occupies config Kind.bool v 1
  usint_bytes : {v : Value F} → Occupies config Kind.usint v 1
  sint_bytes : {v : Value F} → Occupies config Kind.sint v 1
  int_bytes : {v : Value F} → Occupies config Kind.int v 2
  uint_bytes : {v : Value F} → Occupies config Kind.uint v 2
  dint_bytes : {v : Value F} → Occupies config Kind.dint v 4
  udint_bytes : {v : Value F} → Occupies config Kind.udint v 4
  real_bytes : {v : Value F} → Occupies config Kind.real v 4
  lreal_bytes : {v : Value F} → Occupies config Kind.lreal v 8
  char_bytes : {v : Value F} → Occupies config Kind.char v 1
  wchar_bytes : {v : Value F} → Occupies config Kind.wchar v 2
  lint_bytes : {v : Value F} → Occupies config Kind.lint v 8
  ulint_bytes : {v : Value F} → Occupies config Kind.ulint v 8
  time_bytes : {v : Value F} → Occupies config Kind.time v 4
  ltime_bytes : {v : Value F} → Occupies config Kind.ltime v 8
  tod_bytes : {v : Value F} → Occupies config Kind.tod v 4
  ltod_bytes : {v : Value F} → Occupies config Kind.ltod v 8
  date_bytes : {v : Value F} → Occupies config Kind.date v 2
  date_time_bytes : {v : Value F} → Occupies config Kind.dt v 8
  ldt_bytes : {v : Value F} → Occupies config Kind.ldt v 8
  dtl_twelve : {v : Value F} → Occupies config Kind.dtl v 12
  string_given :
      {v : Value F} {n : ℕ} → config.max_length ≡ some n → Occupies config Kind.string v (n + 2)
  string_filling :
      {v : Value F}
      → config.max_length ≡ none
      → 3 ≤ config.size
      → Occupies config Kind.string v config.size
  string_default :
      {v : Value F} → config.max_length ≡ none → config.size ≤ 2 → Occupies config Kind.string v 256
  raw_bytes : {bs : Bytes} → Occupies config Kind.raw (Value.bytes bs) (length bs)

module _ {F : Type 0} (r : Runtime F) (snap7 : Snap7 F) (config : Config) where
  pub max_len-Occupies :
      (v : Value F) {n : ℕ} → Occupies config Kind.string v n → max_len config + 2 ≡ n
  unfolding max_len
  max_len-Occupies v (string_given e) = rw e refl
  max_len-Occupies v (string_filling e large) = rw e (ground (arith, large))
  max_len-Occupies v (string_default e small) = rw e (ground (arith, small))

  pub min_size-Occupies :
      {k : Kind} (v : Value F) {n : ℕ}
      → Occupies config k v n
      → min_size r snap7 config k v ≡ some n
  unfolding min_size type_size
  min_size-Occupies v bool_bytes = refl
  min_size-Occupies v usint_bytes = refl
  min_size-Occupies v sint_bytes = refl
  min_size-Occupies v int_bytes = refl
  min_size-Occupies v uint_bytes = refl
  min_size-Occupies v dint_bytes = refl
  min_size-Occupies v udint_bytes = refl
  min_size-Occupies v real_bytes = refl
  min_size-Occupies v lreal_bytes = refl
  min_size-Occupies v char_bytes = refl
  min_size-Occupies v wchar_bytes = refl
  min_size-Occupies v lint_bytes = refl
  min_size-Occupies v ulint_bytes = refl
  min_size-Occupies v time_bytes = refl
  min_size-Occupies v ltime_bytes = refl
  min_size-Occupies v tod_bytes = refl
  min_size-Occupies v ltod_bytes = refl
  min_size-Occupies v date_bytes = refl
  min_size-Occupies v date_time_bytes = refl
  min_size-Occupies v ldt_bytes = refl
  min_size-Occupies v dtl_twelve = refl
  min_size-Occupies v (string_given e) = ap some (max_len-Occupies v (string_given e))
  min_size-Occupies v (string_filling e large) =
      ap some (max_len-Occupies v (string_filling e large))
  min_size-Occupies v (string_default e small) =
      ap some (max_len-Occupies v (string_default e small))
  min_size-Occupies (Value.bytes bs) raw_bytes = refl
