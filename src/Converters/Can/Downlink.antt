-- ===== src/Converters/Can/Downlink.antt =====
-- thingsboard_gateway/connectors/can/bytes_can_downlink_converter.py: from a request to the bytes
-- of a frame. `none` is the result None, for an exception too.
use thingsboard_gateway.Prelude.{
  ℕ, [], ◌∷◌, ◌++◌, Bool, true, false, ◌||◌, Option, none, some, ◌>>=◌, is_empty, get_or,
  if◌then◌else◌,
}
use thingsboard_gateway.Prelude.Int.{is_negative}
use thingsboard_gateway.Entities.Strategy.{codes}
use thingsboard_gateway.Converters.Bytes.{Bytes, to_bytes}
use thingsboard_gateway.Converters.Can.{Text, Value, Runtime, order_of, float_order, from_hex}

-- The configuration; a text that is missing is empty, and the expression is evaluated with
-- `strictEval`.
pub record Config : Type 0 where
  pub data_in_hex : Text
  pub data_expression : Text
  pub data_before : Text
  pub data_after : Text
  pub data_byteorder : Text
  pub data_length : Option ℕ
  pub data_signed : Bool
  pub data_encoding : Text

-- The dict that the platform sends: `none` where it is empty or no dict.
pub record Data (F Request : Type 0) : Type 0 where
  pub data_in_hex : Text
  pub value : Option (Value F)
  pub request : Request

unfoldable pub or_default : Text → Text → Text
or_default [] t = t
or_default (c ∷ cs) t = c ∷ cs

-- `if text: can_data.extend(bytearray.fromhex(text))`
unfoldable pub hex_part : Text → Option Bytes
hex_part [] = some []
hex_part (c ∷ cs) = from_hex (c ∷ cs)

module _ {F Request : Type 0} (r : Runtime F Request) where
  -- The bytes of the value; a value of another type has none.
  unfoldable pub value_bytes : Config → Value F → Option Bytes
  value_bytes config (Value.truth true) = some (1 ∷ [])
  value_bytes config (Value.truth false) = some (0 ∷ [])
  value_bytes config (Value.integer z) = do
    order ← order_of (or_default config.data_byteorder (codes "big"))
    to_bytes (get_or config.data_length 1) order (config.data_signed || is_negative z) z
  value_bytes config (Value.number f) = do
    order ← float_order (or_default config.data_byteorder (codes "big"))
    r.pack_float order f
  value_bytes config (Value.text t) = r.encode (or_default config.data_encoding (codes "ascii")) t
  value_bytes config Value.nothing = some []

  unfoldable pub frame_of : Config → Value F → Option Bytes
  frame_of config value = do
    before ← hex_part config.data_before
    middle ← value_bytes config value
    after ← hex_part config.data_after
    some (before ++ (middle ++ after))

  -- The value to send: that of the expression, or that of the dict.
  unfoldable pub value_of : Config → Data F Request → Option (Value F)
  value_of config data' =
      if is_empty config.data_expression
      then data'.value
      else r.evaluate_request config.data_expression data'.request

  -- `convert`
  unfoldable pub convert : Config → Option (Data F Request) → Option Bytes
  convert config given =
      if is_empty config.data_in_hex
      then elim given [
        | none ↦ none
        | some d ↦
            if is_empty d.data_in_hex
            then (do value ← value_of config d; frame_of config value)
            else from_hex d.data_in_hex
      ]
      else from_hex config.data_in_hex
