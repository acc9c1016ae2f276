-- ===== src/Devices/Examples.antt =====
-- Runs of the devices.
use thingsboard_gateway.Prelude.{
  ℕ, ◌<◌, String, [], ◌∷◌, ◌≡◌, ◌≢◌, refl, sym, Option, none, some, true, false, if◌then◌else◌,
  arith, Bool-cases, inl, inr,
}
use thingsboard_gateway.Prelude.Eq.{string_eq}
use thingsboard_gateway.Prelude.Dict.{Dict, lookup, insert, remove, IsDistinct}
use thingsboard_gateway.Devices.{Connector, DeviceInfo, Service, returned, raised}
use thingsboard_gateway.Devices.Persist.{
  get_dict_key_by_value, process_connected_device, data_to_save,
}
use thingsboard_gateway.Devices.Persist.Saved.{IsSaved}
use thingsboard_gateway.Devices.Persist.History.{
  adds, deletes, History, start, more, history-IsSaved,
}
use thingsboard_gateway.Devices.Registry.{
  has_details, sync, take_device, keep_renamed, forget_shared, add_device, del_device, is_same,
  update_device,
}
use thingsboard_gateway.Devices.Notified.{
  note_renaming, connector_of, add_all, save_loaded, load_renaming, load_device,
  load_persistent_devices, process_renamed_gateway_devices,
}
use thingsboard_gateway.Devices.Notified.Restored.{devices_restored}
use thingsboard_gateway.Devices.Idle.{get_device_type_for_device, check_devices_idle_time}
use thingsboard_gateway.Devices.Idle.Chain.{IsFollowed, type_found}

program : Unit {0}
unfolding lookup insert remove get_dict_key_by_value process_connected_device data_to_save
    has_details sync take_device keep_renamed forget_shared add_device del_device is_same
    update_device note_renaming connector_of add_all save_loaded load_renaming load_device
    load_persistent_devices process_renamed_gateway_devices get_device_type_for_device
    check_devices_idle_time
program = tt

abbrev modbus : Connector
modbus = record { object = 1; name = "plant"; id = "c1"; type = "modbus"; has_shared_keys = false }

abbrev info : DeviceInfo
info = record { connector = some modbus; device_type = "default"; last_receiving_data = none }

abbrev empty : Service ℕ
empty = record {
  connected_devices = [];
  saved_devices = [];
  added_devices = [];
  renamed_devices = [];
  disconnected_devices = [];
  devices_shared_attributes = [];
  file = [];
  sync_on_connect = false;
  handle_device_renaming = true;
  sync_queue = [];
  async_device_actions_queue = [];
  requests = [];
}

-- A device that the platform has renamed.
abbrev renamed : Service ℕ
renamed = record empty {
  connected_devices = ("pump", info) ∷ [];
  saved_devices = ("pump", info) ∷ [];
  renamed_devices = ("pump", "pump 1") ∷ [];
}

abbrev again : Service ℕ
again = (del_device true "pump" renamed).0

-- The call that adds the device again returns True.
again_returned : (add_device true 5 "pump" (some modbus) none again).1 ≡ returned true
unfolding program
again_returned = refl

-- And the next deletion raises.
again_raised :
    (del_device true "pump" (add_device true 6 "pump" (some modbus) none again).0).1 ≡ raised
unfolding program
again_raised = refl

known : lookup "pump" renamed.connected_devices ≡ some info
unfolding lookup
known = refl

renamed_to : lookup "pump" renamed.renamed_devices ≡ some "pump 1"
unfolding lookup
renamed_to = refl

abbrev added : Service ℕ
added = (add_device true 3 "pump" (some modbus) none empty).0

added_returned : (add_device true 3 "pump" (some modbus) none empty).1 ≢ raised
unfolding program
added_returned = λ e. cc e

deleted_returned : (del_device true "pump" added).1 ≢ raised
unfolding program
deleted_returned = λ e. cc e

added_deleted : History empty (del_device true "pump" added).0
added_deleted =
    more (more start (adds true 3 "pump" (some modbus) none empty added_returned))
      (deletes true "pump" added deleted_returned)

empty-IsSaved : IsSaved empty
unfolding IsSaved program
empty-IsSaved = refl

history-IsSaved_example : IsSaved (del_device true "pump" added).0
history-IsSaved_example = history-IsSaved added_deleted empty-IsSaved

abbrev by_id : String → Option Connector
by_id id = if string_eq.beq id "c1" then some modbus else none

pump_saved : data_to_save added ≡ some added.file
unfolding program
pump_saved = refl

pump_known : lookup "pump" added.connected_devices ≡ some info
unfolding program
pump_known = refl

added-IsDistinct : IsDistinct added.connected_devices
unfolding program IsDistinct
added-IsDistinct = (refl, tt)

added_gone : lookup "pump" added.disconnected_devices ≡ none
unfolding program
added_gone = refl

devices_restored_example :
    lookup "pump"
      (load_persistent_devices by_id
        (λ name. none)
        false
        9
        (record empty { file = added.file })).connected_devices
    ≡ some info
devices_restored_example =
    devices_restored by_id (λ name. none) false 9 added (record empty { file = added.file }) "pump"
      info modbus added-IsDistinct pump_saved added_gone pump_known refl refl

-- Two devices that swap their names on the platform, over a third name.
abbrev swapped : Dict String String
swapped = note_renaming "c" "a" (note_renaming "a" "b" (note_renaming "b" "c" []))

swapped_both : (lookup "a" swapped ≡ some "b") × (lookup "b" swapped ≡ some "a")
unfolding program
swapped_both = (refl, refl)

abbrev circle : Service ℕ
circle = record empty { renamed_devices = swapped }

a_b : IsFollowed "a" "b" circle
unfolding program
a_b = record { unconnected = refl; unsaved = refl; renamed = refl }

b_a : IsFollowed "b" "a" circle
unfolding program
b_a = record { unconnected = refl; unsaved = refl; renamed = refl }

abbrev rank : String → ℕ
rank name = if string_eq.beq name "pump" then 1 else 0

rank_lower : (a b : String) → lookup a renamed.renamed_devices ≡ some b → rank b < rank a
unfolding lookup
rank_lower a b h = elim (Bool-cases (string_eq.beq "pump" a)) [
  | inl e ↦
      let a_e : "pump" ≡ a = (string_eq.beq_iff "pump" a).0 e in
      let some_b : some "pump 1" ≡ some b = rw e at h in
      let b_e : "pump 1" ≡ b = cc some_b in rw (sym a_e, sym b_e) (omega arith)
  | inr e ↦ absurd (cc (rw e at h))
]

type_found_example : (type : String) × (get_device_type_for_device 2 "pump" renamed ≡ some type)
type_found_example = type_found rank 2 "pump" renamed rank_lower (omega arith)
