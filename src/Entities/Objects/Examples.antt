-- ===== src/Entities/Objects/Examples.antt =====
-- Runs of convert_to_objects_with_maximal_size.
use thingsboard_gateway.Prelude.{
  ℕ, ◌+◌, ◌*◌, ◌≤◌, String, List, [], ◌∷◌, ◌≡◌, refl, none, length, ◌⊎◌, inr, arith,
}
use thingsboard_gateway.Prelude.Eq.{nat_eq, string_eq, string_discrete}
use thingsboard_gateway.Prelude.Dict.{lookup, insert, update, IsDistinct}
use thingsboard_gateway.Entities.Datapoint.{
  DatapointKey, DatapointKey-discrete, datapoint_eq, TelemetryEntry,
}
use thingsboard_gateway.Entities.Converted.{ConvertedData, init, update_at, add_single}
use thingsboard_gateway.Entities.Split.{
  split_large_entries, split_all, split_entry, close, entry_size, limit,
}
use thingsboard_gateway.Entities.Objects.{
  Document, general, values, stamp, ConvertedObject, Conversion, too_small, attribute_error,
  objects, to_dict, make_room, add_chunk, add_chunks, add_telemetry, add_all_telemetry,
  close_objects, add_attributes, convert_filled, convert_to_objects_with_maximal_size,
}
use thingsboard_gateway.Entities.Objects.Adding.{flat}
use thingsboard_gateway.Entities.Objects.Parts.{points_of}
use thingsboard_gateway.Entities.Objects.Telemetry.{IsApart}
use thingsboard_gateway.Entities.Objects.Kept.{objects_kept}

program : Unit {0}
unfolding lookup insert update init update_at add_single split_large_entries split_all split_entry
    close entry_size limit IsDistinct DatapointKey-discrete string_discrete to_dict make_room
    add_chunk add_chunks add_telemetry add_all_telemetry close_objects add_attributes convert_filled
    convert_to_objects_with_maximal_size IsApart
program = tt

abbrev size : Document ℕ → ℕ
size (general name type metadata) = 20
size (values entries) = 8 * length entries + 2
size (stamp ts) = 4

abbrev key : String → DatapointKey
key name = record { key = name; report_strategy = none }

abbrev telemetry : List (TelemetryEntry ℕ)
telemetry =
    record { ts = 1000; values = (key "a", 1) ∷ (key "b", 2) ∷ (key "c", 3) ∷ [] }
    ∷ record { ts = 2000; values = (key "a", 4) ∷ [] }
    ∷ []

abbrev sent : ConvertedData ℕ
sent = record {
  device_name = "pump";
  device_type = "default";
  metadata = [];
  telemetry = telemetry;
  attributes = (key "model", 7) ∷ [];
  telemetry_datapoints_count = 4;
  ts_index = (1000, 0) ∷ (2000, 1) ∷ [];
}

abbrev count : Conversion ℕ → ℕ
count too_small = 0
count attribute_error = 0
count (objects os) = length os

-- The attribute with the first time stamp, and the second time stamp.
two_objects : count (convert_to_objects_with_maximal_size size 70 sent) ≡ 2
unfolding program
two_objects = refl

sent-IsApart : IsApart telemetry
unfolding program
sent-IsApart = ((refl, tt), (refl, (refl, (refl, tt))), (tt, (refl, tt), tt))

attributes_fit :
    (to_dict sent.attributes [] ≡ []) ⊎ (20 + size (values (to_dict sent.attributes [])) ≤ 50)
unfolding program
attributes_fit = inr (omega arith)

objects_kept_example :
    (os : List (ConvertedObject ℕ)) × (convert_to_objects_with_maximal_size size 50 sent
      ≡ objects os)
    × (points_of os ≡ flat telemetry)
objects_kept_example = objects_kept size 50 sent (omega arith) attributes_fit sent-IsApart
