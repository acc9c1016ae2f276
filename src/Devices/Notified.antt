-- ===== src/Devices/Notified.antt =====
-- __load_persistent_devices of thingsboard_gateway/gateway/tb_gateway_service.py, and what the
-- service does when the platform has renamed or deleted a device. A loaded device has one dict in
-- connected and saved devices; of the saved one only the type is read.
pub mod Restored
use thingsboard_gateway.Prelude.{
  ℕ, String, List, [], ◌∷◌, ◌++◌, Option, none, some, is_some, Bool, true, false, not, ◌&&◌, ◌||◌,
  ◌==◌, if◌then◌else◌,
}
use thingsboard_gateway.Prelude.Eq.{Eq, string_eq}
use thingsboard_gateway.Prelude.Dict.{Dict, lookup, insert, remove, has}
use thingsboard_gateway.Devices.{
  Connector, DeviceInfo, SavedDevice, Disconnected, loaded, Service, Reply, returned, done, raised,
}
use thingsboard_gateway.Devices.Persist.{get_dict_key_by_value, save_persistent_devices}
use thingsboard_gateway.Devices.Registry.{add_device}

-- The connector of a loaded device, of those that are there by id and by name.
unfoldable pub connector_of :
    (String → Option Connector) → (String → Option Connector) → SavedDevice → Option Connector
connector_of by_id by_name d = elim (by_id d.connector_id) [
  | none ↦ by_name d.connector_name
  | some c ↦ some c
]

-- The renaming that is noted for a device that the platform has renamed.
unfoldable pub note_renaming : String → String → Dict String String → Dict String String
unfolding get_dict_key_by_value
note_renaming old_name new_name renamed = elim (get_dict_key_by_value renamed old_name) [
  | some name ↦
      if string_eq.beq name new_name then remove name renamed else insert name new_name renamed
  | none ↦ if string_eq.beq old_name new_name then renamed else insert old_name new_name renamed
]

unfoldable pub original_name : String → Dict String String → String
unfolding get_dict_key_by_value
original_name name renamed = elim (get_dict_key_by_value renamed name) [
  | none ↦ name
  | some first ↦ first
]

unfoldable pub without_renaming : String → Dict String String → Dict String String
unfolding get_dict_key_by_value
without_renaming name renamed = elim (get_dict_key_by_value renamed name) [
  | none ↦ renamed
  | some first ↦ remove first renamed
]

module _ {A : Type 0} where
  -- `add_device` for every connected device, as far as none raises.
  unfoldable pub add_all : Bool → ℕ → Dict String DeviceInfo → Service A × Reply → Service A × Reply
  unfolding add_device
  add_all is_connected now [] r = r
  add_all is_connected now ((name, info) ∷ devices) (s, raised) = (s, raised)
  add_all is_connected now ((name, info) ∷ devices) (s, done) =
      add_all is_connected now devices
        (add_device is_connected now name info.connector (some info.device_type) s)
  add_all is_connected now ((name, info) ∷ devices) (s, returned b) =
      add_all is_connected now devices
        (add_device is_connected now name info.connector (some info.device_type) s)

  -- The name that the file has for a renamed device.
  unfoldable pub load_renaming : String → SavedDevice → Service A → Service A
  load_renaming name d s = elim d.renaming [
    | none ↦ s
    | some new_name ↦ record s {
      renamed_devices = insert name new_name s.renamed_devices;
      disconnected_devices = insert name (loaded d) s.disconnected_devices;
    }
  ]

  -- An exception is caught: the device is not saved then.
  unfoldable pub save_loaded : String → DeviceInfo → Service A × Reply → Service A
  save_loaded name info (s, raised) = s
  save_loaded name info (s, returned b) = record s {
    saved_devices = insert name info s.saved_devices;
  }
  save_loaded name info (s, done) = record s { saved_devices = insert name info s.saved_devices }

  unfoldable pub connect_loaded : Bool → ℕ → String → DeviceInfo → Service A → Service A
  unfolding add_all save_loaded
  connect_loaded is_connected now name info s =
      let s = record s { connected_devices = insert name info s.connected_devices } in
      save_loaded name info (add_all is_connected now s.connected_devices (s, done))

  module _ (by_id by_name : String → Option Connector) where
    unfoldable pub load_device : Bool → ℕ → String → SavedDevice → Service A → Service A
    unfolding load_renaming connect_loaded connector_of
    load_device is_connected now name d s = elim (connector_of by_id by_name d) [
      | none ↦ load_renaming name d s
      | some c ↦
          connect_loaded is_connected now name
            (record { connector = some c; device_type = d.device_type; last_receiving_data = none })
            (load_renaming name d s)
    ]

    unfoldable pub load_devices : Bool → ℕ → Dict String SavedDevice → Service A → Service A
    unfolding load_device
    load_devices is_connected now [] s = s
    load_devices is_connected now ((name, d) ∷ devices) s =
        load_devices is_connected now devices (load_device is_connected now name d s)

    -- `__load_persistent_devices`
    unfoldable pub load_persistent_devices : Bool → ℕ → Service A → Service A
    unfolding load_devices
    load_persistent_devices is_connected now s = load_devices is_connected now s.file s

    -- Saving and loading, as both notifications do.
    unfoldable pub save_and_load : Bool → ℕ → Service A → Service A × Reply
    unfolding save_persistent_devices load_persistent_devices
    save_and_load is_connected now s =
        save_persistent_devices s (λ s. (load_persistent_devices is_connected now s, done))

    -- `__process_renamed_gateway_devices`
    unfoldable pub process_renamed_gateway_devices :
        Bool → ℕ → String → String → Service A → Service A × Reply
    unfolding note_renaming save_and_load
    process_renamed_gateway_devices is_connected now old_name new_name s =
        if s.handle_device_renaming
        then save_and_load is_connected now
            (record s { renamed_devices = note_renaming old_name new_name s.renamed_devices })
        else (s, done)

    -- `__process_deleted_gateway_devices`
    unfoldable pub process_deleted_gateway_devices :
        Bool → ℕ → String → Service A → Service A × Reply
    unfolding original_name without_renaming save_and_load
    process_deleted_gateway_devices is_connected now deleted s =
        let name = original_name deleted s.renamed_devices in
        save_and_load is_connected now (record s {
          renamed_devices = without_renaming deleted s.renamed_devices;
          connected_devices = remove name s.connected_devices;
          saved_devices = remove name s.saved_devices;
          added_devices = remove name s.added_devices;
          disconnected_devices = remove name s.disconnected_devices;
        })
