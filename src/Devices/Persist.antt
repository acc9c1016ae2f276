-- ===== src/Devices/Persist.antt =====
-- __save_persistent_devices of thingsboard_gateway/gateway/tb_gateway_service.py. The order of the
-- names in the file is left out.
pub mod Saved
pub mod History
pub mod Lookup
use thingsboard_gateway.Prelude.{
  ℕ, String, List, [], ◌∷◌, Option, none, some, Bool, true, false, ◌==◌, if◌then◌else◌,
}
use thingsboard_gateway.Prelude.Eq.{Eq, string_eq}
use thingsboard_gateway.Prelude.Dict.{Dict, lookup, insert}
use thingsboard_gateway.Devices.{
  Connector, DeviceInfo, SavedDevice, Disconnected, kept, loaded, nothing, Service, Reply, raised,
}

-- `TBUtility.get_dict_key_by_value`
unfoldable pub get_dict_key_by_value : Dict String String → String → Option String
get_dict_key_by_value [] value = none
get_dict_key_by_value ((k, v) ∷ d) value =
    let rest = get_dict_key_by_value d value in if string_eq.beq v value then some k else rest

module _ (renamed : Dict String String) where
  abbrev pub live : String → Connector → String → Bool → SavedDevice
  live device c type disconnected = record {
    connector_name = c.name;
    device_type = type;
    connector_id = c.id;
    renaming = lookup device renamed;
    disconnected = disconnected;
  }

  -- A device without a connector is skipped.
  unfoldable pub process_connected_device :
      String → DeviceInfo → Dict String SavedDevice → Dict String SavedDevice
  process_connected_device device info data_to_save = elim info.connector [
    | none ↦ data_to_save
    | some c ↦ insert device (live device c info.device_type false) data_to_save
  ]

  -- `__process_connected_devices`
  unfoldable pub process_connected_devices :
      Dict String DeviceInfo → Dict String SavedDevice → Dict String SavedDevice
  unfolding process_connected_device
  process_connected_devices [] data_to_save = data_to_save
  process_connected_devices ((device, info) ∷ devices) data_to_save =
      process_connected_devices devices (process_connected_device device info data_to_save)

  -- A disconnected device for the file; for None `info.get` raises, and so does the name of a
  -- connector that is not there.
  unfoldable pub disconnected_form : String → Disconnected → Option SavedDevice
  disconnected_form device (kept info) = elim info.connector [
    | none ↦ none
    | some c ↦ some (live device c info.device_type true)
  ]
  disconnected_form device (loaded d) =
      some (record d { renaming = lookup device renamed; disconnected = true })
  disconnected_form device nothing = none

  -- `__process_disconnected_devices`
  unfoldable pub process_disconnected_devices :
      Dict String Disconnected → Dict String SavedDevice → Option (Dict String SavedDevice)
  unfolding disconnected_form
  process_disconnected_devices [] data_to_save = some data_to_save
  process_disconnected_devices ((device, info) ∷ devices) data_to_save =
      elim (disconnected_form device info) [
        | none ↦ none
        | some d ↦ process_disconnected_devices devices (insert device d data_to_save)
      ]

module _ {A : Type 0} where
  -- What `__save_persistent_devices` writes.
  unfoldable pub data_to_save : Service A → Option (Dict String SavedDevice)
  unfolding process_connected_devices process_disconnected_devices
  data_to_save s =
      process_disconnected_devices s.renamed_devices s.disconnected_devices
        (process_connected_devices s.renamed_devices s.connected_devices [])

  -- `__save_persistent_devices`, and what comes after it when it has not raised.
  unfoldable pub save_persistent_devices :
      Service A → (Service A → Service A × Reply) → Service A × Reply
  unfolding data_to_save
  save_persistent_devices s next = elim (data_to_save s) [
    | none ↦ (s, raised)
    | some d ↦ next (record s { file = d })
  ]
