-- ===== src/Converters/Bytes.antt =====
-- What the converters of thingsboard_gateway/connectors use of Python's bytes: `int.to_bytes` and
-- `int.from_bytes`, `struct.pack_into` and `struct.unpack_from` of integers, and slices.
pub mod Ends
pub mod Fields
use thingsboard_gateway.Prelude.{
  ℕ, zero, suc, ◌+◌, ◌-◌, ◌*◌, ◌/◌, ◌%◌, ◌^◌, ◌<◌, List, [], ◌∷◌, ◌++◌, Option, none, some, true,
  false, Bool, not, ◌&&◌, ltb, leb, length, take, drop, if◌then◌else◌,
}
use thingsboard_gateway.Prelude.Int.{ℤ, pos, negsuc, is_negative}

abbrev pub Bytes : Type 0
Bytes = List ℕ

abbrev pub IsByte : ℕ → Type 0
IsByte b = b < 256

pub data ByteOrder : Type 0 where
  big little : ByteOrder

-- The lowest byte first.
unfoldable pub le_bytes : ℕ → ℕ → Bytes
le_bytes zero v = []
le_bytes (suc n) v = v % 256 ∷ le_bytes n (v / 256)

unfoldable pub le_number : Bytes → ℕ
le_number [] = 0
le_number (b ∷ bs) = b + le_number bs * 256

unfoldable pub reversed {ℓ} : {A : Type ℓ} → List A → List A
reversed [] = []
reversed (x ∷ xs) = reversed xs ++ x ∷ []

unfoldable pub ordered : ByteOrder → Bytes → Bytes
ordered ByteOrder.little bs = bs
ordered ByteOrder.big bs = reversed bs

-- `fits n signed z`: z is one of the integers that n bytes hold.
unfoldable pub fits : ℕ → Bool → ℤ → Bool
fits n false (pos v) = ltb v (256 ^ n)
fits n false (negsuc m) = false
fits n true (pos v) = ltb (v * 2) (256 ^ n)
fits n true (negsuc m) = ltb (m * 2 + 1) (256 ^ n)

-- Two's complement.
unfoldable pub pattern_of : ℕ → ℤ → ℕ
pattern_of n (pos v) = v
pattern_of n (negsuc m) = 256 ^ n - 1 - m

unfoldable pub integer_of : ℕ → Bool → ℕ → ℤ
integer_of n false v = pos v
integer_of n true v = if ltb (v * 2) (256 ^ n) then pos v else negsuc (256 ^ n - 1 - v)

-- `int.to_bytes(length, byteorder, signed=...)`; OverflowError is `none`.
unfoldable pub to_bytes : ℕ → ByteOrder → Bool → ℤ → Option Bytes
to_bytes n order signed z =
    if fits n signed z then some (ordered order (le_bytes n (pattern_of n z))) else none

-- `int.from_bytes(bytes, byteorder, signed=...)`
unfoldable pub from_bytes : ByteOrder → Bool → Bytes → ℤ
from_bytes order signed bs = integer_of (length bs) signed (le_number (ordered order bs))

-- `bytes[first:first + n]`
unfoldable pub slice : ℕ → ℕ → Bytes → Bytes
slice first n bs = take n (drop first bs)

-- Writing at an index inside the buffer; behind its end struct.error or IndexError is raised.
unfoldable pub write_at : ℕ → Bytes → Bytes → Option Bytes
write_at i bs buf =
    if leb (i + length bs) (length buf)
    then some (take i buf ++ (bs ++ drop (i + length bs) buf))
    else none

unfoldable pub read_at : ℕ → ℕ → Bytes → Option Bytes
read_at i n buf = if leb (i + n) (length buf) then some (slice i n buf) else none

-- `bytearray(n)`
unfoldable pub zeros : ℕ → Bytes
zeros zero = []
zeros (suc n) = 0 ∷ zeros n
