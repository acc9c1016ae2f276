-- ===== src/Converters/S7/Integers.antt =====
-- The round trip of integers, of one to eight bytes, and what it needs of snap7.
use thingsboard_gateway.Prelude.{
  ℕ, ◌+◌, ◌≤◌, max, ◌≡◌, refl, sym, ap, ◌∙◌, Option, some, Bool, true, false, length, is_empty,
  arith, ◌>>=◌,
}
use thingsboard_gateway.Prelude.Int.{ℤ}
use thingsboard_gateway.Converters.Bytes.{Bytes, ByteOrder, fits, from_bytes, read_at, slice, zeros}
use thingsboard_gateway.Converters.Bytes.Ends.{from_bytes-to_bytes}
use thingsboard_gateway.Converters.Bytes.Fields.{
  length-zeros, written, write_at-written, length-written, read_at-written, nonempty,
}
use thingsboard_gateway.Converters.S7.{Config, Kind, kind_of, Value, Accessor, Snap7, Runtime}
use thingsboard_gateway.Converters.S7.Downlink.{pack_into, int_of, type_size}
use thingsboard_gateway.Converters.S7.Request.{min_size, set_value, convert_data_request}
use thingsboard_gateway.Converters.S7.Uplink.{
  unpack_from, integer_value, get_value, convert_data_type,
}

-- What a buffer answers after a value was set in it.
abbrev pub Stored : {A : Type 0} → (Bytes → ℕ → Option A) → Option Bytes → Bytes → ℕ → A → Type 0
Stored get result buf i x =
    (out : Bytes) × (result ≡ some out) × (length out ≡ length buf) × (get out i ≡ some x)

-- The documented behaviour of snap7.util on integers: n bytes at the index, signed or not.
pub record StoresIntegers (a : Accessor ℤ) (n : ℕ) (signed : Bool) : Type 0 where
  pub stores :
      (buf : Bytes) (i : ℕ) (z : ℤ)
      → fits n signed z ≡ true
      → i + n ≤ length buf
      → Stored a.get (a.set buf i z) buf i z

pub record IsSnap7 {F : Type 0} (snap7 : Snap7 F) : Type 0 where
  pub usint_law : StoresIntegers snap7.usints 1 false
  pub int_law : StoresIntegers snap7.ints 2 true
  pub uint_law : StoresIntegers snap7.uints 2 false
  pub dint_law : StoresIntegers snap7.dints 4 true
  pub dword_law : StoresIntegers snap7.dwords 4 false

-- The integer types, with their bytes and their sign.
pub data IntegerFormat : Kind → ℕ → Bool → Type 0 where
  usint_format : IntegerFormat Kind.usint 1 false
  sint_format : IntegerFormat Kind.sint 1 true
  int_format : IntegerFormat Kind.int 2 true
  uint_format : IntegerFormat Kind.uint 2 false
  dint_format : IntegerFormat Kind.dint 4 true
  udint_format : IntegerFormat Kind.udint 4 false
  lint_format : IntegerFormat Kind.lint 8 true
  ulint_format : IntegerFormat Kind.ulint 8 false

-- `struct.pack_into` and `struct.unpack_from` of the same format.
pub pack_into-unpack_from :
    (n : ℕ) (signed : Bool) (buf : Bytes) (i : ℕ) (z : ℤ)
    → fits n signed z ≡ true
    → i + n ≤ length buf
    → (out : Bytes) × (pack_into n signed buf i z ≡ some out)
      × (length out ≡ length buf)
      × (bs : Bytes) × (read_at i n out ≡ some bs)
      × (from_bytes ByteOrder.big signed bs ≡ z)
unfolding pack_into
pack_into-unpack_from n signed buf i z f inside =
    let (bs, made, len, back) = from_bytes-to_bytes n ByteOrder.big signed z f in
    let room : i + length bs ≤ length buf = omega (arith, len, inside) in
    (
      written i bs buf room,
      rw made (write_at-written i bs buf room),
      length-written i bs buf room,
      bs,
      ap (λ (k : ℕ). read_at i k (written i bs buf room)) (sym len) ∙ read_at-written i bs buf room,
      back,
    )

some-slice : (i n : ℕ) (buf bs : Bytes) → read_at i n buf ≡ some bs → slice i n buf ≡ bs
unfolding read_at
some-slice i n buf bs h = ground arith

module _ {F : Type 0} (r : Runtime F) (snap7 : Snap7 F) (config : Config) (v : Value F) (z : ℤ)
    (given : int_of r v ≡ some z) where
  by_snap7 :
      (a : Accessor ℤ) (n : ℕ) (signed : Bool) (law : StoresIntegers a n signed) (buf : Bytes)
      → fits n signed z ≡ true
      → config.offset + n ≤ length buf
      → Stored
          (λ out i. integer_value {F = F} (a.get out i))
          (int_of r v >>= λ z. a.set buf config.offset z)
          buf
          config.offset
          (Value.integer z)
  by_snap7 a n signed law buf f inside =
      let (out, set, len, got) = law.stores buf config.offset z f inside in
      (out, rw given set, len, rw got refl)

  by_struct :
      (n : ℕ) (signed : Bool) (buf : Bytes)
      → fits n signed z ≡ true
      → config.offset + n ≤ length buf
      → Stored
          (λ out i. integer_value {F = F} (unpack_from n signed out i))
          (int_of r v >>= λ z. pack_into n signed buf config.offset z)
          buf
          config.offset
          (Value.integer z)
  unfolding unpack_from
  by_struct n signed buf f inside =
      let (out, set, len, bs, read, back) =
        pack_into-unpack_from n signed buf config.offset z f inside in
      (out, rw given set, len, rw (read, back) refl)

  format_kept :
      (law : IsSnap7 snap7) {k : Kind} {n : ℕ} {signed : Bool} (format : IntegerFormat k n signed)
      (buf : Bytes)
      → fits n signed z ≡ true
      → config.offset + n ≤ length buf
      → Stored
          (λ out i. get_value r snap7 config out k)
          (set_value r snap7 config buf k v)
          buf
          config.offset
          (Value.integer z)
  unfolding set_value get_value
  format_kept law usint_format buf f inside =
      by_snap7 snap7.usints 1 false law.usint_law buf f inside
  format_kept law int_format buf f inside = by_snap7 snap7.ints 2 true law.int_law buf f inside
  format_kept law uint_format buf f inside = by_snap7 snap7.uints 2 false law.uint_law buf f inside
  format_kept law dint_format buf f inside = by_snap7 snap7.dints 4 true law.dint_law buf f inside
  format_kept law udint_format buf f inside =
      by_snap7 snap7.dwords 4 false law.dword_law buf f inside
  format_kept law lint_format buf f inside = by_struct 8 true buf f inside
  format_kept law ulint_format buf f inside = by_struct 8 false buf f inside
  format_kept law sint_format buf f inside =
      let (out, set, len, bs, read, back) =
        pack_into-unpack_from 1 true buf config.offset z f inside in
      (out, rw given set, len, rw (some-slice config.offset 1 out bs read, back) refl)

  min_size-IntegerFormat :
      {k : Kind} {n : ℕ} {signed : Bool}
      → IntegerFormat k n signed
      → min_size r snap7 config k v ≡ some n
  unfolding min_size type_size
  min_size-IntegerFormat usint_format = refl
  min_size-IntegerFormat sint_format = refl
  min_size-IntegerFormat int_format = refl
  min_size-IntegerFormat uint_format = refl
  min_size-IntegerFormat dint_format = refl
  min_size-IntegerFormat udint_format = refl
  min_size-IntegerFormat lint_format = refl
  min_size-IntegerFormat ulint_format = refl

  positive : {k : Kind} {n : ℕ} {signed : Bool} → IntegerFormat k n signed → 1 ≤ n
  positive usint_format = omega arith
  positive sint_format = omega arith
  positive int_format = omega arith
  positive uint_format = omega arith
  positive dint_format = omega arith
  positive udint_format = omega arith
  positive lint_format = omega arith
  positive ulint_format = omega arith

  -- snap7.util being as documented: an integer within the range of its type, which is one of the
  -- eight integer types, is written at the offset of a buffer of any configured size and read back
  -- as the same integer.
  pub integer_restored :
      (law : IsSnap7 snap7) (n : ℕ) (signed : Bool)
      → IntegerFormat (kind_of config.data_type) n signed
      → fits n signed z ≡ true
      → (buf : Bytes) × (convert_data_request r snap7 config v ≡ some buf)
        × (convert_data_type r snap7 config buf ≡ some (Value.integer z))
  unfolding convert_data_request convert_data_type
  integer_restored law n signed format f =
      let buf : Bytes = zeros (max config.size (config.offset + n)) in
      let size : length buf ≡ max config.size (config.offset + n) = length-zeros _ in
      let (out, set, len, got) = format_kept law format buf f (omega (arith, size)) in
      let filled : is_empty out ≡ false =
        nonempty out (omega (arith, len, size, positive format)) in
      (out, rw (min_size-IntegerFormat format) set, rw filled got)
