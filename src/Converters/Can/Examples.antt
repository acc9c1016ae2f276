-- ===== src/Converters/Can/Examples.antt =====
-- Frames that are sent and read.
use thingsboard_gateway.Prelude.{
  ℕ, [], ◌∷◌, ◌≡◌, ◌≢◌, refl, true, false, Option, none, some, All, arith,
}
use thingsboard_gateway.Prelude.Int.{negsuc}
use thingsboard_gateway.Entities.Strategy.{codes, text_eq}
use thingsboard_gateway.Converters.Bytes.{Bytes, IsByte, ByteOrder, fits, slice}
use thingsboard_gateway.Converters.Can.{
  Text, Value, Runtime, order_of, from_hex, digit_value, is_space,
}
use thingsboard_gateway.Converters.Can.Downlink.{
  Config, Data, or_default, hex_part, value_of, convert,
}
use thingsboard_gateway.Converters.Can.Uplink.{KeyConfig, key_value, part}
use thingsboard_gateway.Converters.Can.Carried.{Sends, integer_carried, raw_resent}

program : Unit {0}
unfolding text_eq order_of from_hex digit_value is_space or_default hex_part value_of fits part
    slice
program = tt

abbrev runtime : Runtime Unit Unit
runtime = record {
  encode = λ e t. some t;
  decode = λ e b. some b;
  pack_float = λ o f. none;
  unpack_float = λ o n b. none;
  evaluate = λ e v b. none;
  evaluate_request = λ e d. none;
}

abbrev config : Config
config = record {
  data_in_hex = [];
  data_expression = [];
  data_before = codes "0a FF";
  data_after = codes "01";
  data_byteorder = codes "little";
  data_length = some 2;
  data_signed = false;
  data_encoding = [];
}

abbrev request : Data Unit Unit
request = record { data_in_hex = []; value = some (Value.integer (negsuc 299)); request = tt }

sends : Sends runtime config request (negsuc 299) ByteOrder.little (10 ∷ 255 ∷ []) (1 ∷ [])
unfolding program
sends = record {
  no_hex = refl;
  no_hex_data = refl;
  sent_value = refl;
  sent_order = refl;
  sent_before = refl;
  sent_after = refl;
}

abbrev key : Text → ℕ → Option ℕ → KeyConfig
key type_name start n = record {
  key = "speed";
  is_ts = true;
  type_name = type_name;
  start = start;
  length = n;
  byteorder = codes "little";
  signed = true;
  encoding = [];
  expression = [];
}

little : order_of (codes "little") ≡ some ByteOrder.little
unfolding program
little = refl

fits_two : fits 2 true (negsuc 299) ≡ true
unfolding program
fits_two = refl

integer_carried_example :
    (frame : Bytes) × (convert runtime config (some request) ≡ some frame)
    × (key_value runtime (key (codes "int") 2 (some 2)) frame ≡ some (Value.integer (negsuc 299)))
integer_carried_example =
    integer_carried runtime config request (negsuc 299) ByteOrder.little (10 ∷ 255 ∷ []) (1 ∷ [])
      sends (key (codes "int") 2 (some 2)) (record { first_letter = refl; no_expression = refl })
      little refl refl refl fits_two

abbrev frame : Bytes
frame = 10 ∷ 255 ∷ 7 ∷ []

frame_bytes : All IsByte frame
frame_bytes = (omega arith, (omega arith, (omega arith, tt)))

abbrev plain : Config
plain = record config { data_before = []; data_after = [] }

some_part : part runtime (key (codes "raw") 1 none) frame ≢ []
unfolding program
some_part e = cc

raw_resent_example :
    (t : Text) × (key_value runtime (key (codes "raw") 1 none) frame ≡ some (Value.text t))
    × (convert runtime plain (some (record request { data_in_hex = t }))
        ≡ some (part runtime (key (codes "raw") 1 none) frame))
raw_resent_example =
    raw_resent runtime (key (codes "raw") 1 none)
      (record { first_letter = refl; no_expression = refl }) frame plain request frame_bytes
      some_part refl
