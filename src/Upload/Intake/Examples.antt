-- ===== src/Upload/Intake/Examples.antt =====
-- Runs of the intake over the memory storage.
use thingsboard_gateway.Prelude.{
  ℕ, ◌+◌, ◌*◌, ◌≤◌, String, List, [], ◌∷◌, ◌≡◌, refl, none, some, true, false, inr, All, get_or,
  length, arith,
}
use thingsboard_gateway.Prelude.Eq.{nat_eq, string_eq, string_discrete}
use thingsboard_gateway.Prelude.Dict.{lookup, insert, remove, IsDistinct}
use thingsboard_gateway.Storage.Memory
use thingsboard_gateway.Storage.Memory.{MemoryEventStorage, storage}
use thingsboard_gateway.Entities.Datapoint.{DatapointKey, DatapointKey-discrete, datapoint_eq}
use thingsboard_gateway.Entities.Converted.{ConvertedData, init, add_single}
use thingsboard_gateway.Entities.Objects.{
  Document, general, values, stamp, ConvertedObject, to_dict, general_size, make_room,
  add_telemetry, add_all_telemetry, close_objects, add_attributes, convert_filled,
  convert_to_objects_with_maximal_size,
}
use thingsboard_gateway.Entities.Objects.Adding.{flat}
use thingsboard_gateway.Entities.Objects.Parts.{points_of}
use thingsboard_gateway.Entities.Objects.Telemetry.{IsApart}
use thingsboard_gateway.Entities.Objects.Carried.{attributes_of, by_text, IsFrom}
use thingsboard_gateway.Devices.{Connector, Service, done}
use thingsboard_gateway.Devices.Persist.{
  get_dict_key_by_value, process_connected_device, data_to_save,
}
use thingsboard_gateway.Devices.Registry.{sync, has_details, add_device}
use thingsboard_gateway.Upload.Save.{put_again, save}
use thingsboard_gateway.Upload.Intake.{
  Gateway, Surroundings, goes_on, after_reply, validate_converted_data, find_connector,
  count_message, store_objects, connect_device, enter_data, renamed_data, take_data,
  send_to_storage_new_formatted_data,
}
use thingsboard_gateway.Upload.Intake.Stored.{taken_stored}

program : Unit {0}
unfolding DatapointKey-discrete string_discrete lookup insert remove IsDistinct init add_single
    to_dict make_room add_telemetry add_all_telemetry close_objects add_attributes convert_filled
    convert_to_objects_with_maximal_size IsApart get_dict_key_by_value process_connected_device
    data_to_save sync has_details add_device put_again save after_reply validate_converted_data
    find_connector count_message store_objects connect_device enter_data renamed_data take_data
    send_to_storage_new_formatted_data Memory.put
program = tt

abbrev size : Document ℕ → ℕ
size (general name type metadata) = 20
size (values entries) = 8 * length entries + 2
size (stamp ts) = 4

abbrev modbus : Connector
modbus = record { object = 1; name = "plant"; id = "c1"; type = "modbus"; has_shared_keys = false }

abbrev around : Surroundings
around = record {
  gateway_name = "gateway";
  is_connected = true;
  now = 7;
  max_data_size = 60;
  available_connectors_by_id = ("c1", modbus) ∷ [];
  available_connectors_by_name = [];
}

abbrev key : String → DatapointKey
key name = record { key = name; report_strategy = none }

abbrev sent : ConvertedData ℕ
sent = record {
  device_name = "pump";
  device_type = "default";
  metadata = [];
  telemetry = record { ts = 1000; values = (key "a", 1) ∷ (key "b", 2) ∷ [] } ∷ [];
  attributes = [];
  telemetry_datapoints_count = 2;
  ts_index = (1000, 0) ∷ [];
}

abbrev memory : MemoryEventStorage (ConvertedObject ℕ)
memory = record {
  queue_len = 3;
  events_per_time = 2;
  events_queue = [];
  event_pack = [];
  stopped = false;
}

abbrev service : Service ℕ
service = record {
  connected_devices = [];
  saved_devices = [];
  added_devices = [];
  renamed_devices = [];
  disconnected_devices = [];
  devices_shared_attributes = [];
  file = [];
  sync_on_connect = false;
  handle_device_renaming = true;
  sync_queue = [];
  async_device_actions_queue = [];
  requests = [];
}

abbrev gateway : Gateway ℕ (MemoryEventStorage (ConvertedObject ℕ))
gateway = record { service = service; storage = memory; connector_incoming_messages = [] }

abbrev stored : String → List (ConvertedData ℕ) → Gateway ℕ (MemoryEventStorage (ConvertedObject ℕ))
stored connector cs =
    (send_to_storage_new_formatted_data storage (λ o. o) size around connector "c1" cs gateway).0

-- Data of a connector are stored, and its messages are not counted.
plant_stored : length (stored "plant" (sent ∷ sent ∷ [])).storage.events_queue ≡ 2
unfolding program
plant_stored = refl

plant_uncounted :
    lookup "c1" (stored "plant" (sent ∷ sent ∷ [])).connector_incoming_messages ≡ some 0
unfolding program
plant_uncounted = refl

-- Data of the gateway itself are not.
own_dropped : (stored "gateway" (sent ∷ [])).storage.events_queue ≡ []
unfolding program
own_dropped = refl

foreign : string_eq.beq "plant" "gateway" ≡ false
foreign = refl

-- The same data with attributes, of a pump that the platform has renamed.
abbrev described : ConvertedData ℕ
described = record sent { attributes = (key "firmware", 3) ∷ (key "serial", 4) ∷ [] }

abbrev renaming : Gateway ℕ (MemoryEventStorage (ConvertedObject ℕ))
renaming = record {
  service = record service { renamed_devices = ("pump", "pump 1") ∷ [] };
  storage = memory;
  connector_incoming_messages = [];
}

described_valid : validate_converted_data described ≡ true
unfolding program
described_valid = refl

entered :
    (let d = renamed_data renaming.service described in
      (connect_device around "plant" "c1" d.device_name d.device_type renaming.service).1)
    ≡ goes_on
unfolding program
entered = refl

room : general_size size 60 (renamed_data renaming.service described) ≤ 60
unfolding program
room = omega arith

described_weighs : 1 ≤ size (values (by_text described.attributes))
unfolding program
described_weighs = omega arith

described_fits :
    general_size size 60 (renamed_data renaming.service described)
      + size (values (by_text described.attributes))
    ≤ 60
unfolding program
described_fits = omega arith

apart : IsApart sent.telemetry
unfolding program
apart = (tt, (refl, (refl, tt)), tt)

texts_differ : IsDistinct (by_text described.attributes)
unfolding program
texts_differ = (refl, (refl, tt))

taken_stored_example :
    let t = take_data storage (λ o. o) size around "plant" "c1" described renaming in
    let name = get_or (lookup "pump" renaming.service.renamed_devices) "pump" in
    (os : List (ConvertedObject ℕ)) × (points_of os ≡ flat described.telemetry)
    × (attributes_of os ≡ by_text described.attributes)
    × All (IsFrom name "default") os
    × (t.0.storage ≡ store_objects storage (λ o. o) os memory)
    × (t.1 ≡ done)
taken_stored_example =
    taken_stored storage (λ o. o) size around "plant" "c1" described renaming foreign
      described_valid entered room (inr (described_weighs, described_fits)) apart texts_differ
