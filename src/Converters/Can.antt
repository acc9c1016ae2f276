-- ===== src/Converters/Can.antt =====
-- thingsboard_gateway/connectors/can: the values of the two converters, hexadecimal texts, and what
-- they use of Python.
pub mod Downlink
pub mod Uplink
pub mod Carried
mod Examples
use thingsboard_gateway.Prelude.{
  ℕ, suc, ◌+◌, ◌-◌, ◌*◌, ◌/◌, ◌%◌, List, [], ◌∷◌, Bool, true, false, ◌&&◌, ◌||◌, Option, none, some,
  leb, ltb, ◌==◌, ◌>>=◌, if◌then◌else◌,
}
use thingsboard_gateway.Prelude.Int.{ℤ}
use thingsboard_gateway.Entities.Strategy.{codes, text_eq}
use thingsboard_gateway.Converters.Bytes.{Bytes, ByteOrder}

abbrev pub Text : Type 0
Text = List ℕ

-- The values of Python that the converters take and return, over a type of floats.
pub data Value (F : Type 0) : Type 0 where
  nothing : Value F
  integer : ℤ → Value F
  number : F → Value F
  truth : Bool → Value F
  text : Text → Value F

-- What the converters use of Python: `s.encode(encoding)`, `b.decode(encoding)`, the formats f and
-- d of struct in a byte order, and `eval` of an expression with the value and the data of a frame,
-- or with the dict of a request, which is of a type of its own. `none` is an exception.
pub record Runtime (F Request : Type 0) : Type 0 where
  pub encode : Text → Text → Option Bytes
  pub decode : Text → Bytes → Option Text
  pub pack_float : ByteOrder → F → Option Bytes
  pub unpack_float : ByteOrder → ℕ → Bytes → Option F
  pub evaluate : Text → Value F → Bytes → Option (Value F)
  pub evaluate_request : Text → Request → Option (Value F)

-- `byteorder` of int.to_bytes and int.from_bytes; any other text raises ValueError.
unfoldable pub order_of : Text → Option ByteOrder
order_of t =
    if text_eq t (codes "big")
    then some ByteOrder.big
    else if text_eq t (codes "little")
    then some ByteOrder.little
    else none

-- `">" + format if byteorder[0] == "b" else "<" + format`
unfoldable pub float_order : Text → Option ByteOrder
float_order [] = none
float_order (c ∷ cs) = some (if c == b'b' then ByteOrder.big else ByteOrder.little)

-- A digit of "%02x".
unfoldable pub hex_digit : ℕ → ℕ
hex_digit n = if ltb n 10 then n + b'0' else n - 10 + b'a'

unfoldable pub hex_text : Bytes → Text
hex_text [] = []
hex_text (b ∷ bs) = hex_digit (b / 16) ∷ hex_digit (b % 16) ∷ hex_text bs

unfoldable pub digit_value : ℕ → Option ℕ
digit_value c =
    if leb b'0' c && leb c b'9'
    then some (c - b'0')
    else if leb b'a' c && leb c b'f'
    then some (c - b'a' + 10)
    else if leb b'A' c && leb c b'F'
    then some (c - b'A' + 10)
    else none

-- The ASCII spaces that `fromhex` skips in front of two digits.
unfoldable pub is_space : ℕ → Bool
is_space c = c == b' ' || leb 9 c && leb c 13

-- `bytearray.fromhex`; ValueError is `none`.
unfoldable pub from_hex : Text → Option Bytes
from_hex [] = some []
from_hex (c ∷ []) = if is_space c then some [] else none
from_hex (c ∷ d ∷ cs) =
    let behind_space = from_hex (d ∷ cs) in
    let behind_byte = from_hex cs in
    if is_space c then behind_space else do
      high ← digit_value c
      low ← digit_value d
      bs ← behind_byte
      some ((high * 16 + low) ∷ bs)
