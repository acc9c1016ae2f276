-- ===== src/Converters/Can/Uplink.antt =====
-- thingsboard_gateway/connectors/can/bytes_can_uplink_converter.py: from the bytes of a frame to
-- converted data.
use thingsboard_gateway.Prelude.{
  ℕ, ◌-◌, List, [], ◌∷◌, Bool, ◌||◌, not, Option, none, some, ◌==◌, ◌>>=◌, String, is_empty, length,
  get_elem?, get_or, if◌then◌else◌,
}
use thingsboard_gateway.Entities.Strategy.{ReportStrategyConfig}
use thingsboard_gateway.Entities.Datapoint.{DatapointKey, telemetry_entry}
use thingsboard_gateway.Entities.Converted.{
  ConvertedData, init, add_to_telemetry, add_to_attributes,
}
use thingsboard_gateway.Converters.Bytes.{Bytes, from_bytes, slice}
use thingsboard_gateway.Converters.Can.{Text, Value, Runtime, order_of, float_order, hex_text}

-- One entry of `configs`; `length` is none where it is missing or -1.
pub record KeyConfig : Type 0 where
  pub key : String
  pub is_ts : Bool
  pub type_name : Text
  pub start : ℕ
  pub length : Option ℕ
  pub byteorder : Text
  pub signed : Bool
  pub encoding : Text
  pub expression : Text

-- The configuration of the device, with its report strategy if it has one.
pub record Config : Type 0 where
  pub device_name : String
  pub device_type : String
  pub report_strategy : Option ReportStrategyConfig
  pub configs : List KeyConfig

-- The kinds of values by the first letter of the type.
pub data Letter : Type 0 where
  bool_type int_type float_type double_type string_type raw_type unknown_type : Letter

unfoldable pub letter_of : ℕ → Letter
letter_of c =
    if c == b'b'
    then bool_type
    else if c == b'i' || c == b'l'
    then int_type
    else if c == b'f'
    then float_type
    else if c == b'd'
    then double_type
    else if c == b's'
    then string_type
    else if c == b'r'
    then raw_type
    else unknown_type

module _ {F Request : Type 0} (r : Runtime F Request) where
  -- The bytes of a key: a negative length takes none.
  unfoldable pub part : KeyConfig → Bytes → Bytes
  part config can_data =
      slice config.start (get_or config.length (length can_data - config.start)) can_data

  unfoldable pub read_value : KeyConfig → Bytes → Letter → Option (Value F)
  read_value config can_data bool_type = do
    b ← get_elem? can_data config.start
    some (Value.truth (not (b == 0)))
  read_value config can_data int_type = do
    order ← order_of config.byteorder
    some (Value.integer (from_bytes order config.signed (part config can_data)))
  read_value config can_data float_type = do
    order ← float_order config.byteorder
    f ← r.unpack_float order 4 (part config can_data)
    some (Value.number f)
  read_value config can_data double_type = do
    order ← float_order config.byteorder
    f ← r.unpack_float order 8 (part config can_data)
    some (Value.number f)
  read_value config can_data string_type = do
    t ← r.decode config.encoding (part config can_data)
    some (Value.text t)
  read_value config can_data raw_type = some (Value.text (hex_text (part config can_data)))
  read_value config can_data unknown_type = none

  -- The value of a key, behind its expression. A key without a value is left out, by an exception
  -- or because its type is unknown.
  unfoldable pub key_value : KeyConfig → Bytes → Option (Value F)
  key_value config can_data = do
    c ← get_elem? config.type_name 0
    value ← read_value config can_data (letter_of c)
    (if is_empty config.expression then some value else r.evaluate config.expression value can_data)

  -- `add_to_attributes(key, value)` refuses a value that is None.
  unfoldable pub add_attribute :
      DatapointKey → Value F → ConvertedData (Value F) → ConvertedData (Value F)
  add_attribute key Value.nothing c = c
  add_attribute key value c = add_to_attributes ((key, value) ∷ []) c

  unfoldable pub add_value :
      ℕ
      → Option ReportStrategyConfig
      → KeyConfig
      → Value F
      → ConvertedData (Value F)
      → ConvertedData (Value F)
  add_value now strategy config value c =
      let key : DatapointKey = record { key = config.key; report_strategy = strategy } in
      if config.is_ts
      then add_to_telemetry (telemetry_entry now ((key, value) ∷ []) none ∷ []) c
      else add_attribute key value c

  -- The loop over the keys; `clock` is the time at which the entry of each is made.
  unfoldable pub convert_keys :
      (ℕ → ℕ)
      → Option ReportStrategyConfig
      → Bytes
      → List KeyConfig
      → ConvertedData (Value F)
      → ConvertedData (Value F)
  convert_keys clock strategy can_data [] c = c
  convert_keys clock strategy can_data (config ∷ configs) c =
      let next : ConvertedData (Value F) = elim (key_value config can_data) [
        | none ↦ c
        | some value ↦ add_value (clock (length configs)) strategy config value c
      ] in
      convert_keys clock strategy can_data configs next

  -- `convert`
  unfoldable pub convert : (ℕ → ℕ) → Config → Bytes → ConvertedData (Value F)
  convert clock config can_data =
      convert_keys clock config.report_strategy can_data config.configs
        (init config.device_name config.device_type [])
